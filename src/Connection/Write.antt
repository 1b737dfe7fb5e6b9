-- ===== src/Connection/Write.antt =====
-- src/tcpconnection.cpp, handleWrite: what a write event leads to.
use librapid.Prelude.{ℕ, pos, ◌≡◌, some, [], arith, if◌then◌else◌}
use librapid.Kernel.{Kernel}
use librapid.Outcome.{ok, M}
use librapid.Channel.{Channel}
use librapid.World.{World, Handler, TcpConnection, connection, channel}
use librapid.Connection.{
  is_disconnecting, descriptor, sys_write, sys_shutdown, run_handler, shutdown, handle_write,
}

module _ {K : Kernel} (call : Handler → ℕ → M (World K) (Unit {0})) where
  -- handleWrite of a connection with an empty write buffer, where write(2) of no bytes gives 0,
  -- calls no handler and changes no object; it shuts the socket down for writing exactly if the
  -- state is Disconnecting.
  pub handle_write-empty :
      (self : ℕ) (w : World K) (c : TcpConnection) (ch : Channel)
      → w.connections self ≡ some c
      → w.channels c.channel ≡ some ch
      → c.write_buffer ≡ []
      → (K.write ch.fd.value [] w.kernel).0 ≡ pos 0
      → handle_write call self w
        ≡ ok tt (record w {
          kernel =
              let k = (K.write ch.fd.value [] w.kernel).1 in
              if is_disconnecting c.state then K.shutdown_write ch.fd.value k else k;
        })
  unfolding handle_write connection channel descriptor sys_write sys_shutdown run_handler shutdown
  handle_write-empty self w c ch is is_channel empty none_written = ground arith
