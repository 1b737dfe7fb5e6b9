-- ===== src/Server/Stop.antt =====
-- src/tcpserver.cpp: TcpServer::stop while a client is connected.
use librapid.Prelude.{ℕ, suc, ◌≡◌, refl, ◌∙◌, ap, true, false, Option, some, ◌∷◌, arith}
use librapid.Kernel.{Kernel, EpollCtl, EpollEvent}
use librapid.Outcome.{Outcome, ok, thrown, stuck, relock, M, invoke}
use librapid.Outcome.Laws.{Sticks, Sticks-and_then}
use librapid.Channel.{Channel}
use librapid.World.{World, Handler, TcpConnection, EventLoop, disconnected, server_close, update}
use librapid.Uuid.{Uuid}
use librapid.Connection.{connect_destroyed}
use librapid.Connection.Close.{Attached, closed, handle_close_lem, set_connection_state_lem}
use librapid.Handlers.{call}
use librapid.Server.{
  Clients, handle_close, server, put_server, lock, locked_scope, destroy_all, stop, unlock,
}

module _ {K : Kernel} (app : ℕ → ℕ → M (World K) (Unit {0})) where
  -- TcpServer::handleClose by a thread that holds the mutex.
  handle_close-relock :
      (run : Handler → ℕ → M (World K) (Unit {0})) (conn : ℕ) (w w1 : World K)
      → invoke (λ h. run h conn) w.server.close_handler w ≡ ok tt w1
      → w1.server.locked ≡ true
      → Sticks relock (handle_close run conn w)
  unfolding handle_close server put_server lock locked_scope
  handle_close-relock run conn w w1 done taken = rw done (rw taken refl)

  unlock-Sticks : (r : Outcome (World K) (Unit {0})) → Sticks relock r → Sticks relock (unlock r)
  unlock-Sticks (ok a w) h = h
  unlock-Sticks (thrown e w) h = h
  unlock-Sticks (stuck f) h = h

  locked_scope-Sticks :
      (body : M (World K) (Unit {0})) (w : World K)
      → w.server.locked ≡ false
      → Sticks relock (body (record w { server = record (w.server) { locked = true } }))
      → Sticks relock (locked_scope body w)
  unfolding locked_scope lock server put_server
  locked_scope-Sticks body w free h = simp free (unlock-Sticks _ h)

  destroy_all-Sticks :
      (run : Handler → ℕ → M (World K) (Unit {0})) (id : Uuid) (self : ℕ) (rest cs : Clients)
      (w : World K)
      → cs ≡ (id, self) ∷ rest
      → Sticks relock (connect_destroyed run self w)
      → Sticks relock (destroy_all run cs w)
  unfolding destroy_all
  destroy_all-Sticks run id self rest cs w e h =
      rw e (Sticks-and_then relock (connect_destroyed run self w) _ h)

  module _ (w : World K) (id : Uuid) (self : ℕ) (rest : Clients) (c : TcpConnection) (ch : Channel)
      (l : EventLoop) where
    -- The mutex is taken, and connectDestroyed has set the state.
    abbrev pub locked_world : World K
    locked_world = record w {
      server = record (w.server) { locked = true };
      connections = update w.connections self (record c { state = disconnected });
    }

    locked_world-Attached :
        Attached w self c ch l → Attached locked_world self (record c { state = disconnected }) ch l
    locked_world-Attached at = record {
      is_connection = ground arith;
      is_channel = at.is_channel;
      is_loop = at.is_loop;
      is_added = at.is_added;
    }

    connect_destroyed-relock :
        (L : EpollCtl K) (at : Attached w self c ch l) (old : EpollEvent) (n : ℕ) (w0 w1 : World K)
        → w0 ≡ record w { server = record (w.server) { locked = true } }
        → L.interest w.kernel l.epollfd ch.fd.value ≡ some old
        → c.close_handler ≡ some server_close
        → invoke
            (λ h. call app n h self)
            w.server.close_handler
            (closed locked_world self (record c { state = disconnected }) ch l)
          ≡ ok tt w1
        → w1.server.locked ≡ true
        → Sticks relock (connect_destroyed (call app (suc n)) self w0)
    unfolding connect_destroyed
    connect_destroyed-relock L at old n w0 w1 e listed set done taken =
        let c' : TcpConnection = record c { state = disconnected } in
        let step =
          handle_close_lem L locked_world self c' ch l (locked_world-Attached at) old listed
            (call app (suc n))
          ∙ ap
              (λ (h : Option Handler).
                invoke (λ h. call app (suc n) h self) h (closed locked_world self c' ch l))
              set in
        rw e (
          rw
            (set_connection_state_lem (record w { server = record (w.server) { locked = true } })
              self c disconnected at.is_connection)
            (rw step (
              unfold call in
              handle_close-relock (call app n) self (closed locked_world self c' ch l) w1 done
                taken)))

    -- TcpServer::stop, with the mutex free, on a server whose first client is registered and has
    -- the close handler of the server, locks the mutex again while it holds it and does not
    -- return, provided that the close handler of the program, if there is one, returns with the
    -- mutex still locked.
    pub stop-relock :
        (L : EpollCtl K) (at : Attached w self c ch l) (old : EpollEvent) (n : ℕ) (w1 : World K)
        → L.interest w.kernel l.epollfd ch.fd.value ≡ some old
        → w.server.locked ≡ false
        → w.server.clients ≡ (id, self) ∷ rest
        → c.close_handler ≡ some server_close
        → invoke
            (λ h. call app n h self)
            w.server.close_handler
            (closed locked_world self (record c { state = disconnected }) ch l)
          ≡ ok tt w1
        → w1.server.locked ≡ true
        → Sticks relock (stop (call app (suc n)) w)
    unfolding stop server
    stop-relock L at old n w1 listed free clients set done taken =
        let w0 : World K = record w { server = record (w.server) { locked = true } } in
        let first =
          destroy_all-Sticks (call app (suc n)) id self rest w.server.clients w0 clients
            (connect_destroyed-relock L at old n w0 w1 refl listed set done taken) in
        Sticks-and_then relock (locked_scope _ w) _ (
          locked_scope-Sticks _ w free
            (Sticks-and_then relock (destroy_all (call app (suc n)) w.server.clients w0) _ first))
