-- ===== src/Server/Close.antt =====
-- src/tcpserver.cpp and src/tcpconnection.cpp together: a connection of the server that the peer has closed.
use librapid.Prelude.{[], ℕ, suc, ◌≡◌, ap, ◌∙◌, false, Option, some, arith}
use librapid.Kernel.{filled, Kernel, EpollCtl, EpollEvent}
use librapid.Outcome.{ok, M, invoke}
use librapid.Channel.{Channel}
use librapid.World.{World, Handler, TcpConnection, EventLoop, server_close, user, connection}
use librapid.Uuid.{Uuid}
use librapid.Connection
use librapid.Connection.Close.{Attached, closed, handle_close_lem}
use librapid.Connection.{is_disconnected}
use librapid.Connection.Read.{handle_read-eof}
use librapid.Handlers.{call}
use librapid.Server.{erase, handle_close, server, put_server, lock, locked_scope, set_clients}

module _ {K : Kernel} (app : ℕ → ℕ → M (World K) (Unit {0})) where
  -- The world after the entry of `id` is gone.
  abbrev pub forget : Uuid → World K → World K
  forget id w = record w {
    server = record (w.server) { locked = false; clients = erase id w.server.clients };
  }

  -- TcpServer::handleClose, once the handler of the program has returned.
  pub handle_close-forget :
      (n : ℕ) (conn t : ℕ) (w w1 : World K) (c1 : TcpConnection)
      → w.server.close_handler ≡ some (user t)
      → app t conn w ≡ ok tt w1
      → w1.server.locked ≡ false
      → w1.connections conn ≡ some c1
      → handle_close (call app (suc n)) conn w ≡ ok tt (forget c1.id w1)
  unfolding handle_close server put_server lock locked_scope set_clients connection call
  handle_close-forget n conn t w w1 c1 h run free is = ground arith

  -- TcpConnection::handleClose of a registered connection of a server, whose close handler of
  -- the program returns with the connection in place and the mutex free, returns: that handler
  -- has run once, in the world in which the registration is gone and the connection is
  -- Disconnected, and the entry of the connection is erased from the clients of the world that
  -- the handler left.
  pub close_forgets :
      (L : EpollCtl K) (w : World K) (self : ℕ) (c : TcpConnection) (ch : Channel) (l : EventLoop)
      (at : Attached w self c ch l) (old : EpollEvent) (n t : ℕ) (w1 : World K) (c1 : TcpConnection)
      → L.interest w.kernel l.epollfd ch.fd.value ≡ some old
      → c.close_handler ≡ some server_close
      → w.server.close_handler ≡ some (user t)
      → app t self (closed w self c ch l) ≡ ok tt w1
      → w1.server.locked ≡ false
      → w1.connections self ≡ some c1
      → Connection.handle_close (call app (suc (suc n))) self w ≡ ok tt (forget c1.id w1)
  close_forgets L w self c ch l at old n t w1 c1 listed set app_set run free is =
      handle_close_lem L w self c ch l at old listed (call app (suc (suc n)))
      ∙ ap
          (λ (h : Option Handler).
            invoke (λ h. call app (suc (suc n)) h self) h (closed w self c ch l))
          set
      ∙ unfold call in handle_close-forget n self t (closed w self c ch l) w1 c1 app_set run free is

  -- handleRead of a registered connection of a server that is not Disconnected, at the end of
  -- the stream, whose close handler of the program returns with the connection in place and the
  -- mutex free, returns: that handler has run once, in the world after the read in which the
  -- registration is gone and the connection is Disconnected, and the entry of the connection is
  -- erased from the clients of the world that the handler left.
  pub eof_forgets :
      (L : EpollCtl K) (w : World K) (self : ℕ) (c : TcpConnection) (ch : Channel) (l : EventLoop)
      (at : Attached w self c ch l) (old : EpollEvent) (n t : ℕ) (w1 : World K) (c1 : TcpConnection)
      → is_disconnected c.state ≡ false
      → (K.read ch.fd.value 4096 w.kernel).0 ≡ filled []
      → L.interest (K.read ch.fd.value 4096 w.kernel).1 l.epollfd ch.fd.value ≡ some old
      → c.close_handler ≡ some server_close
      → w.server.close_handler ≡ some (user t)
      → app t self (closed (record w { kernel = (K.read ch.fd.value 4096 w.kernel).1 }) self c ch l)
        ≡ ok tt w1
      → w1.server.locked ≡ false
      → w1.connections self ≡ some c1
      → Connection.handle_read (call app (suc (suc n))) self w ≡ ok tt (forget c1.id w1)
  eof_forgets L w self c ch l at old n t w1 c1 live got listed set app_set run free is =
      let w0 : World K = record w { kernel = (K.read ch.fd.value 4096 w.kernel).1 } in
      let at0 : Attached w0 self c ch l = record {
        is_connection = at.is_connection;
        is_channel = at.is_channel;
        is_loop = at.is_loop;
        is_added = at.is_added;
      } in
      handle_read-eof (call app (suc (suc n))) self w c ch at.is_connection at.is_channel live got
      ∙ close_forgets L w0 self c ch l at0 old n t w1 c1 listed set app_set run free is
