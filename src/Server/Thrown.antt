-- ===== src/Server/Thrown.antt =====
-- src/tcpserver.cpp and src/tcpconnection.cpp together: a close handler of the program that throws.
use librapid.Prelude.{[], ℕ, suc, ◌≡◌, ap, ◌∙◌, false, Option, some, arith}
use librapid.Kernel.{filled, Kernel, EpollCtl, EpollEvent}
use librapid.Outcome.{thrown, M, invoke, Exception}
use librapid.Channel.{Channel}
use librapid.World.{World, Handler, TcpConnection, EventLoop, server_close, user}
use librapid.Connection
use librapid.Connection.Close.{Attached, closed, handle_close_lem}
use librapid.Connection.{is_disconnected}
use librapid.Connection.Read.{handle_read-eof}
use librapid.Handlers.{call}
use librapid.Server.{handle_close, server}

module _ {K : Kernel} (app : ℕ → ℕ → M (World K) (Unit {0})) where
  handle_close-thrown :
      (n : ℕ) (conn t : ℕ) (w w1 : World K) (x : Exception)
      → w.server.close_handler ≡ some (user t)
      → app t conn w ≡ thrown x w1
      → handle_close (call app (suc n)) conn w ≡ thrown x w1
  unfolding handle_close server call
  handle_close-thrown n conn t w w1 x h run = ground arith

  -- handleRead of a registered connection of a server that is not Disconnected, at the end of
  -- the stream, whose close handler of the program throws, throws the same in the world that the
  -- handler left: nothing erases the entry of the connection, whose registration is gone.
  pub eof-thrown :
      (L : EpollCtl K) (w : World K) (self : ℕ) (c : TcpConnection) (ch : Channel) (l : EventLoop)
      (at : Attached w self c ch l) (old : EpollEvent) (n t : ℕ) (w1 : World K) (x : Exception)
      → is_disconnected c.state ≡ false
      → (K.read ch.fd.value 4096 w.kernel).0 ≡ filled []
      → L.interest (K.read ch.fd.value 4096 w.kernel).1 l.epollfd ch.fd.value ≡ some old
      → c.close_handler ≡ some server_close
      → w.server.close_handler ≡ some (user t)
      → app t self (closed (record w { kernel = (K.read ch.fd.value 4096 w.kernel).1 }) self c ch l)
        ≡ thrown x w1
      → Connection.handle_read (call app (suc (suc n))) self w ≡ thrown x w1
  eof-thrown L w self c ch l at old n t w1 x live got listed set app_set run =
      let w0 : World K = record w { kernel = (K.read ch.fd.value 4096 w.kernel).1 } in
      let at0 : Attached w0 self c ch l = record {
        is_connection = at.is_connection;
        is_channel = at.is_channel;
        is_loop = at.is_loop;
        is_added = at.is_added;
      } in
      handle_read-eof (call app (suc (suc n))) self w c ch at.is_connection at.is_channel live got
      ∙ handle_close_lem L w0 self c ch l at0 old listed (call app (suc (suc n)))
      ∙ ap
          (λ (h : Option Handler).
            invoke (λ h. call app (suc (suc n)) h self) h (closed w0 self c ch l))
          set
      ∙ unfold call in handle_close-thrown n self t (closed w0 self c ch l) w1 x app_set run
