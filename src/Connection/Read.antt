-- ===== src/Connection/Read.antt =====
-- src/tcpconnection.cpp, handleRead: what each result of read(2) leads to.
use librapid.Prelude.{ℕ, ◌≡◌, refl, ◌∙◌, ap, true, false, none, some, List, [], ◌∷◌, ◌++◌, arith}
use librapid.Kernel.{Kernel, Filled, failed, filled}
use librapid.Outcome.{ok, thrown, M, Exception}
use librapid.Channel.{Channel}
use librapid.World.{World, Handler, TcpConnection, connection, channel, put_connection, update}
use librapid.Connection.{
  is_disconnected, descriptor, sys_read, run_handler, take_bytes, on_read, handle_read,
  handle_close, copy_from, clear,
}

module _ {K : Kernel} (call : Handler → ℕ → M (World K) (Unit {0})) where
  module _ (self : ℕ) (w : World K) (c : TcpConnection) (is : w.connections self ≡ some c) where
    -- The world in which the read handler sees what has been read.
    abbrev pub fed : List ℕ → World K
    fed bytes = record w {
      connections = update w.connections self (record c { read_buffer = c.read_buffer ++ bytes });
    }

    take_bytes-ok :
        (bytes : List ℕ) (h : Handler) (w1 : World K) (c1 : TcpConnection)
        → c.read_handler ≡ some h
        → call h self (fed bytes) ≡ ok tt w1
        → w1.connections self ≡ some c1
        → take_bytes call self bytes w
          ≡ ok tt (record w1 {
            connections = update w1.connections self (record c1 { read_buffer = [] });
          })
    unfolding take_bytes run_handler connection put_connection copy_from clear
    take_bytes-ok bytes h w1 c1 set run is1 = ground arith

    -- With no read handler the bytes are dropped.
    take_bytes-ignored :
        (bytes : List ℕ)
        → c.read_handler ≡ none
        → take_bytes call self bytes w
          ≡ ok tt (record w {
            connections = update (fed bytes).connections self (record c { read_buffer = [] });
          })
    unfolding take_bytes run_handler connection put_connection copy_from clear
    take_bytes-ignored bytes unset = ground arith

    take_bytes-thrown :
        (bytes : List ℕ) (h : Handler) (x : Exception) (w1 : World K)
        → c.read_handler ≡ some h
        → call h self (fed bytes) ≡ thrown x w1
        → take_bytes call self bytes w ≡ thrown x w1
    unfolding take_bytes run_handler connection put_connection copy_from clear
    take_bytes-thrown bytes h x w1 set run = ground arith

  module _ (self : ℕ) (w : World K) (c : TcpConnection) (ch : Channel)
      (is : w.connections self ≡ some c) (is_channel : w.channels c.channel ≡ some ch) where
    abbrev pub result : Filled ℕ
    result = (K.read ch.fd.value 4096 w.kernel).0

    abbrev pub after_read : World K
    after_read = record w { kernel = (K.read ch.fd.value 4096 w.kernel).1 }

    handle_read-on_read :
        is_disconnected c.state ≡ false
        → handle_read call self w ≡ on_read call self result after_read
    unfolding handle_read descriptor sys_read connection channel
    handle_read-on_read live = ground arith

    pub handle_read-disconnected :
        is_disconnected c.state ≡ true → handle_read call self w ≡ ok tt w
    unfolding handle_read descriptor sys_read connection channel
    handle_read-disconnected dead = rw (is, dead) refl

    -- handleRead of a connection that is not Disconnected, on at least one byte and with a read
    -- handler that returns with the connection in place: the bytes go behind what the buffer
    -- holds, the handler runs once with that buffer, the read buffer of the connection that it
    -- left is emptied, and handleRead returns.
    pub handle_read-data :
        (b : ℕ) (bs : List ℕ) (h : Handler) (w1 : World K) (c1 : TcpConnection)
        → is_disconnected c.state ≡ false
        → result ≡ filled (b ∷ bs)
        → c.read_handler ≡ some h
        → call h self (fed self after_read c is (b ∷ bs)) ≡ ok tt w1
        → w1.connections self ≡ some c1
        → handle_read call self w
          ≡ ok tt (record w1 {
            connections = update w1.connections self (record c1 { read_buffer = [] });
          })
    handle_read-data b bs h w1 c1 live got set run is1 =
        handle_read-on_read live
        ∙ ap (λ (r : Filled ℕ). on_read call self r after_read) got
        ∙ unfold on_read in take_bytes-ok self after_read c is (b ∷ bs) h w1 c1 set run is1

    -- If the read handler throws on the bytes that a connection which is not Disconnected has
    -- read, handleRead throws the same in the world that the handler left: nothing empties the
    -- read buffer.
    pub handle_read-thrown :
        (b : ℕ) (bs : List ℕ) (h : Handler) (x : Exception) (w1 : World K)
        → is_disconnected c.state ≡ false
        → result ≡ filled (b ∷ bs)
        → c.read_handler ≡ some h
        → call h self (fed self after_read c is (b ∷ bs)) ≡ thrown x w1
        → handle_read call self w ≡ thrown x w1
    handle_read-thrown b bs h x w1 live got set run =
        handle_read-on_read live
        ∙ ap (λ (r : Filled ℕ). on_read call self r after_read) got
        ∙ unfold on_read in take_bytes-thrown self after_read c is (b ∷ bs) h x w1 set run

    pub handle_read-ignored :
        (b : ℕ) (bs : List ℕ)
        → is_disconnected c.state ≡ false
        → result ≡ filled (b ∷ bs)
        → c.read_handler ≡ none
        → handle_read call self w
          ≡ ok tt (record after_read {
            connections =
                update
                  (fed self after_read c is (b ∷ bs)).connections
                  self
                  (record c { read_buffer = [] });
          })
    handle_read-ignored b bs live got unset =
        handle_read-on_read live
        ∙ ap (λ (r : Filled ℕ). on_read call self r after_read) got
        ∙ unfold on_read in take_bytes-ignored self after_read c is (b ∷ bs) unset

    pub handle_read-failed :
        (e : ℕ)
        → is_disconnected c.state ≡ false
        → result ≡ failed e
        → handle_read call self w ≡ ok tt after_read
    unfolding on_read
    handle_read-failed e live got =
        handle_read-on_read live ∙ ap (λ (r : Filled ℕ). on_read call self r after_read) got

    -- handleRead of a connection that is not Disconnected, at the end of the stream, is
    -- handleClose in the world after the read.
    pub handle_read-eof :
        is_disconnected c.state ≡ false
        → result ≡ filled []
        → handle_read call self w ≡ handle_close call self after_read
    unfolding on_read
    handle_read-eof live got =
        handle_read-on_read live ∙ ap (λ (r : Filled ℕ). on_read call self r after_read) got
