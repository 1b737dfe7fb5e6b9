-- ===== src/Connection.antt =====
-- src/tcpconnection.cpp and include/rapid/core/tcpconnection.h. `call h self` runs the closure h on the connection at
-- `self`: what a handler does is the business of the one who set it.
pub mod Buffer
pub mod Close
pub mod Read
pub mod Stream
pub mod Write
use librapid.Prelude.{
  zero, suc, ℕ, ℤ, pos, negsuc, Bool, true, false, ◌&&◌, Option, none, some, List, [], ◌∷◌, ◌++◌,
  ◌==◌, if◌then◌else◌, int_eq,
}
use librapid.Kernel.{Kernel, Filled, failed, filled}
use librapid.Handle.{FileDesc}
use librapid.Outcome.{Outcome, ok, M, pure, state, modify, invoke, ◌>>=◌, ◌>>◌}
use librapid.Channel.{
  Channel, ChannelHandler, connection_close, connection_read, connection_write, make_channel,
}
use librapid.Poller.{enable_read, disable_all, remove_channel}
use librapid.Uuid.{Uuid}
use librapid.World.{
  World, Handler, TcpConnection, ConnectionState, disconnected, connected, disconnecting,
  connection, channel, put_connection, put_channel, on_site,
}

abbrev pub is_disconnected : ConnectionState → Bool
is_disconnected disconnected = true
is_disconnected _ = false

abbrev pub is_disconnecting : ConnectionState → Bool
is_disconnecting disconnecting = true
is_disconnecting _ = false

abbrev pub is_connected : ConnectionState → Bool
is_connected connected = true
is_connected _ = false

-- src/buffer.cpp: Buffer::copyFrom and Buffer::clear.
unfoldable pub copy_from : List ℕ → List ℕ → List ℕ
copy_from buffer bytes = buffer ++ bytes

unfoldable pub clear : List ℕ → List ℕ
clear buffer = []

-- What the constructor leaves at `self` and, as its member channel_, at `chan`.
unfoldable pub make_connection : (chan loop : ℕ) → Uuid → TcpConnection
make_connection chan loop id = record {
  state = disconnected;
  id = id;
  loop = loop;
  channel = chan;
  connected_handler = none;
  read_handler = none;
  write_handler = none;
  close_handler = none;
  read_buffer = [];
  write_buffer = [];
}

unfoldable pub make_connection_channel : (self chan loop : ℕ) → FileDesc → Channel
unfolding make_channel
make_connection_channel self chan loop fd = record (make_channel chan loop fd) {
  close_handler = some (connection_close self);
  read_handler = some (connection_read self);
  write_handler = some (connection_write self);
}

module _ {K : Kernel} where
  -- TcpConnection::TcpConnection; the addresses are those that the allocation gave.
  unfoldable pub construct : (self chan loop : ℕ) → Uuid → FileDesc → M (World K) (Unit {0})
  unfolding make_connection make_connection_channel put_connection put_channel
  construct self chan loop id fd = do
    put_connection self (make_connection chan loop id)
    put_channel chan (make_connection_channel self chan loop fd)

  unfoldable pub set_connection_state : ℕ → ConnectionState → M (World K) (Unit {0})
  unfolding connection put_connection
  set_connection_state self s = do c ← connection self; put_connection self (record c { state = s })

  -- The descriptor that the channel of a connection owns.
  unfoldable pub descriptor : ℕ → M (World K) ℤ
  unfolding connection channel
  descriptor self = do c ← connection self; ch ← channel c.channel; pure ch.fd.value

  -- read(2), write(2) and shutdown(2) on a descriptor.
  unfoldable pub sys_read : ℤ → ℕ → M (World K) (Filled ℕ)
  sys_read fd n w = let (r, k) = K.read fd n w.kernel in ok r (record w { kernel = k })

  unfoldable pub sys_write : ℤ → List ℕ → M (World K) ℤ
  sys_write fd bytes w = let (r, k) = K.write fd bytes w.kernel in ok r (record w { kernel = k })

  unfoldable pub sys_shutdown : ℤ → M (World K) (Unit {0})
  sys_shutdown fd w = ok tt (record w { kernel = K.shutdown_write fd w.kernel })

  -- TcpConnection::send, by Channel::send; the result of write is thrown away.
  unfoldable pub send : ℕ → List ℕ → M (World K) (Unit {0})
  unfolding descriptor sys_write
  send self message = do fd ← descriptor self; _ ← sys_write fd message; pure tt

  unfoldable pub shutdown : ℕ → M (World K) (Unit {0})
  unfolding descriptor sys_shutdown
  shutdown self = do fd ← descriptor self; sys_shutdown fd

  -- The first two statements of handleClose.
  unfoldable pub detach : ℕ → M (World K) (Unit {0})
  unfolding connection on_site
  detach self = do
    c ← connection self
    on_site c.channel (disable_all K)
    on_site c.channel (remove_channel K)

  module _ (call : Handler → ℕ → M (World K) (Unit {0})) where
    -- A handler field of the connection, tested and called.
    unfoldable pub run_handler : ℕ → (TcpConnection → Option Handler) → M (World K) (Unit {0})
    unfolding connection
    run_handler self field = do c ← connection self; invoke (λ h. call h self) (field c)

    unfoldable pub handle_close : ℕ → M (World K) (Unit {0})
    unfolding detach set_connection_state run_handler
    handle_close self = do
      detach self
      set_connection_state self disconnected
      run_handler self (λ c. c.close_handler)

    unfoldable pub connect_established : ℕ → M (World K) (Unit {0})
    unfolding set_connection_state connection on_site run_handler
    connect_established self = do
      set_connection_state self connected
      c ← connection self
      on_site c.channel (enable_read K)
      run_handler self (λ c. c.connected_handler)

    unfoldable pub connect_destroyed : ℕ → M (World K) (Unit {0})
    unfolding set_connection_state handle_close
    connect_destroyed self = do set_connection_state self disconnected; handle_close self

    -- The branches of handleRead on what read(2) gave.
    unfoldable pub take_bytes : ℕ → List ℕ → M (World K) (Unit {0})
    unfolding connection put_connection run_handler copy_from clear
    take_bytes self bytes = do
      c ← connection self
      put_connection self (record c { read_buffer = copy_from c.read_buffer bytes })
      run_handler self (λ c. c.read_handler)
      c' ← connection self
      put_connection self (record c' { read_buffer = clear c'.read_buffer })

    unfoldable pub on_read : ℕ → Filled ℕ → M (World K) (Unit {0})
    unfolding handle_close take_bytes
    on_read self (failed e) = pure tt
    on_read self (filled []) = handle_close self
    on_read self (filled (b ∷ bs)) = take_bytes self (b ∷ bs)

    unfoldable pub handle_read : ℕ → M (World K) (Unit {0})
    unfolding connection descriptor sys_read on_read
    handle_read self = do
      c ← connection self
      if is_disconnected c.state
          then pure tt
          else (do fd ← descriptor self; r ← sys_read fd 4096; on_read self r)

    -- byteWritten > 0
    abbrev pub is_positive : ℤ → Bool
    is_positive (pos zero) = false
    is_positive (pos (suc n)) = true
    is_positive (negsuc n) = false

    unfoldable pub handle_write : ℕ → M (World K) (Unit {0})
    unfolding connection descriptor sys_write run_handler shutdown
    handle_write self = do
      c ← connection self
      fd ← descriptor self
      written ← sys_write fd c.write_buffer
      if is_positive written then run_handler self (λ c. c.write_handler) else (do
        c' ← connection self
        if is_disconnecting c'.state then shutdown self else pure tt)

-- The setters of the four handlers.
unfoldable pub set_connected_handler : Handler → TcpConnection → TcpConnection
set_connected_handler h c = record c { connected_handler = some h }

unfoldable pub set_write_handler : Handler → TcpConnection → TcpConnection
set_write_handler h c = record c { write_handler = some h }

unfoldable pub set_read_handler : Handler → TcpConnection → TcpConnection
set_read_handler h c = record c { read_handler = some h }

unfoldable pub set_close_handler : Handler → TcpConnection → TcpConnection
set_close_handler h c = record c { close_handler = some h }
