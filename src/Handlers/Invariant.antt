-- ===== src/Handlers/Invariant.antt =====
-- src/tcpserver.cpp, and the closures of include/rapid/core/handler.h: what stays true of a server between two events.
use librapid.Prelude.{
  ℕ, zero, suc, ℤ, ◌≡◌, refl, sym, subst, Bool, true, false, Option, none, some, arith,
}
use librapid.Kernel.{Kernel}
use librapid.Handle.{handle}
use librapid.Outcome.{Outcome, ok, thrown, stuck, M, relock, embed}
use librapid.Outcome.Laws.{Keeps}
use librapid.Uuid.{Uuid}
use librapid.World.{
  World, Handler, user, server_close, client_close, AcceptHandler, user_accept, server_accept,
  ConnectedHandler, user_connected, client_connected, EventLoopPool, TcpServer, TcpClient, acceptor,
}
use librapid.Channel.{
  ChannelHandler, connection_close, connection_read, connection_write, acceptor_read,
  connector_write,
}
use librapid.Connection.{construct}
use librapid.Acceptor
use librapid.Acceptor.{sys_accept, sys_close, drop_fd, is_fd}
use librapid.LoopPool
use librapid.Client
use librapid.Client.{client, put_client, connection_of, address_of}
use librapid.Server.{
  Clients, server, put_server, lock, locked_scope, unlock, set_clients, insert, erase, next_loop,
  generate_uuid, set_handlers, handle_close, handle_new_connection,
}
use librapid.Server.Clients.{IsMap, insert-IsMap, erase-IsMap}
use librapid.Server.Steady.{
  Safe, Steady, Steady-bind, pure-Steady, if-Steady, invoke-Steady, kernel-Steady, deref-Steady,
  connection-Steady, channel-Steady, put_connection-Steady, connect_established-Steady,
  connect_destroyed-Steady, handle_close-Steady, handle_read-Steady, handle_write-Steady,
}
use librapid.Handlers.{call, accept, connect_done, run_channel}
use librapid.Handlers.Connects
use librapid.Handlers.Connects.{allocate-Steady, pointer-Steady, drop_fd-Steady}

module _ {K : Kernel} where
  unlock-Safe :
      {A : Type 0} (r : Outcome (World K) A) → Keeps (Safe true) r → Keeps (Safe false) (unlock r)
  unlock-Safe (ok a w) (map, held) = (map, refl)
  unlock-Safe (thrown e w) (map, held) = (map, refl)
  unlock-Safe (stuck f) h = tt

  abbrev taken : World K → World K
  taken w = record w { server = record (w.server) { locked = true } }

  -- A scope of the mutex is stuck where it is held already.
  locked_scope-Safe :
      (held : Bool) {A : Type 0} (body : M (World K) A)
      → Steady true body
      → (w : World K) → Safe held w
      → Keeps (Safe held) (locked_scope body w)
  unfolding locked_scope lock server put_server
  locked_scope-Safe true body s w (map, e) =
      let run : locked_scope body w ≡ stuck relock = ground (arith, e) in
      subst (Keeps (Safe true)) (sym run) tt
  locked_scope-Safe false body s w (map, e) =
      let run : locked_scope body w ≡ unlock (body (taken w)) = ground (arith, e) in
      subst (Keeps (Safe false)) (sym run)
        (unlock-Safe (body (taken w)) (s.keeps (taken w) (map, refl)))

  module _ (held : Bool) where
    locked_scope-Steady :
        {A : Type 0} (body : M (World K) A) → Steady true body → Steady held (locked_scope body)
    locked_scope-Steady body s = record { keeps = locked_scope-Safe held body s }

    set_clients-Steady :
        (f : Clients → Clients)
        → ((m : Clients) → IsMap m → IsMap (f m))
        → Steady held (set_clients {K = K} f)
    unfolding set_clients server put_server
    set_clients-Steady f keep = record { keeps = λ w (map, e). (keep w.server.clients map, e) }

    server-Steady : Steady held (server {K = K})
    unfolding server
    server-Steady = record { keeps = λ w h. h }

    generate_uuid-Steady : Steady held (generate_uuid {K = K})
    unfolding generate_uuid
    generate_uuid-Steady = record { keeps = λ w h. h }

    construct-Steady :
        (self chan loop : ℕ) (id : Uuid) (fd : ℤ)
        → Steady held (construct {K = K} self chan loop id (handle fd))
    unfolding construct
    construct-Steady self chan loop id fd = record { keeps = λ w h. h }

    pool-Safe :
        {A : Type 0} (w : World K) (r : Outcome EventLoopPool A)
        → Safe held w
        → Keeps
            (Safe held)
            (embed (λ (w : World K) p. record w { server = record (w.server) { pool = p } }) w r)
    pool-Safe w (ok a p) h = h
    pool-Safe w (thrown e p) h = h
    pool-Safe w (stuck f) h = tt

    next_loop-Steady : Steady held (next_loop {K = K})
    unfolding next_loop
    next_loop-Steady = record { keeps = λ w h. pool-Safe w (LoopPool.next_loop w.server.pool) h }

  module _ (run : Handler → ℕ → M (World K) (Unit {0}))
      (runs : (held : Bool) (h : Handler) (p : ℕ) → Steady held (run h p)) where
    Server-handle_close-Steady : (held : Bool) (p : ℕ) → Steady held (handle_close run p)
    unfolding handle_close
    Server-handle_close-Steady held p = Steady-bind held (server-Steady held) λ s.
        Steady-bind held (invoke-Steady held (λ h. run h p) s.close_handler λ h. runs held h p) λ _.
          locked_scope-Steady held _ (
            Steady-bind true (connection-Steady true p)
              λ c. set_clients-Steady true (erase c.id) (erase-IsMap c.id))

    set_handlers-Steady : (held : Bool) (p : ℕ) (s : TcpServer) → Steady held (set_handlers run p s)
    unfolding set_handlers
    set_handlers-Steady held p s = Steady-bind held (connection-Steady held p) λ c.
        put_connection-Steady held p (record c {
          connected_handler = s.connected_handler;
          read_handler = s.read_handler;
          write_handler = s.write_handler;
          close_handler = some server_close;
        })

    handle_new_connection-Steady :
        (held : Bool) (fd : ℤ) → Steady held (handle_new_connection run fd)
    unfolding handle_new_connection
    handle_new_connection-Steady held fd = Steady-bind held (generate_uuid-Steady held) λ id.
        Steady-bind held (next_loop-Steady held) λ loop.
          Steady-bind held (allocate-Steady held) λ conn.
            Steady-bind held (allocate-Steady held) λ chan.
              Steady-bind held (construct-Steady held conn chan loop id fd) λ _.
                Steady-bind held (server-Steady held) λ s.
                  Steady-bind held (set_handlers-Steady held conn s) λ _.
                    locked_scope-Steady held _ (
                      Steady-bind true
                        (set_clients-Steady true (insert id conn) (insert-IsMap id conn))
                        λ _. connect_established-Steady true run (runs true) conn)

    client-Steady : (held : Bool) → Steady held (client {K = K})
    unfolding client
    client-Steady held = record { keeps = λ w h. h }

    put_client-Steady : (held : Bool) (c : TcpClient) → Steady held (put_client {K = K} c)
    unfolding put_client
    put_client-Steady held c = record { keeps = λ w h. h }

    connection_of-Steady : (held : Bool) → Steady held (connection_of {K = K})
    unfolding connection_of
    connection_of-Steady held =
        Steady-bind held (client-Steady held) λ c. pointer-Steady held c.connection

    Client-handle_close-Steady : (held : Bool) → Steady held (Client.handle_close run)
    unfolding Client.handle_close
    Client-handle_close-Steady held = Steady-bind held (connection_of-Steady held) λ p.
        Steady-bind held (connect_destroyed-Steady held run (runs held) p) λ _.
          Steady-bind held (client-Steady held) λ c.
            Steady-bind held
              (invoke-Steady held (λ h. run h (address_of c.connection)) c.close_handler
                λ h. runs held h (address_of c.connection))
              λ _.
                Steady-bind held (client-Steady held)
                  λ c'. put_client-Steady held (record c' { connection = none })

    connected-Steady : (held : Bool) (fd : ℤ) → Steady held (Client.connected run fd)
    unfolding Client.connected
    connected-Steady held fd = Steady-bind held (client-Steady held) λ c.
        Steady-bind held (allocate-Steady held) λ conn.
          Steady-bind held (allocate-Steady held) λ chan.
            Steady-bind held (generate_uuid-Steady held) λ id.
              Steady-bind held (construct-Steady held conn chan c.loop id fd) λ _.
                Steady-bind held (put_client-Steady held (record c { connection = some conn })) λ _.
                  Steady-bind held (connection-Steady held conn) λ o.
                    Steady-bind held
                      (put_connection-Steady held conn (record o {
                        close_handler = some client_close;
                        read_handler = c.read_handler;
                        write_handler = c.write_handler;
                      }))
                      λ _. connect_established-Steady held run (runs held) conn

  module _ (app : ℕ → ℕ → M (World K) (Unit {0}))
      (apps : (held : Bool) (t p : ℕ) → Steady held (app t p)) where
    call-Steady : (n : ℕ) (held : Bool) (h : Handler) (p : ℕ) → Steady held (call app n h p)
    unfolding call
    call-Steady zero held h p = record { keeps = λ w s. tt }
    call-Steady (suc n) held (user t) p = apps held t p
    call-Steady (suc n) held server_close p =
        Server-handle_close-Steady (call app n) (call-Steady n) held p
    call-Steady (suc n) held client_close p =
        Client-handle_close-Steady (call app n) (call-Steady n) held

    module _ (take_fd : ℕ → ℤ → M (World K) (Unit {0}))
        (takes : (held : Bool) (t : ℕ) (fd : ℤ) → Steady held (take_fd t fd)) where
      accept-Steady :
          (n : ℕ) (held : Bool) (h : AcceptHandler) (fd : ℤ)
          → Steady held (accept app take_fd n h fd)
      unfolding accept
      accept-Steady n held (user_accept t) fd = takes held t fd
      accept-Steady n held server_accept fd =
          handle_new_connection-Steady (call app n) (call-Steady n) held fd

      offer-Steady :
          (n : ℕ) (held : Bool) (o : Option AcceptHandler) (fd : ℤ)
          → Steady held (elim o as (λ _. M (World K) (Unit {0})) [
            | none ↦ drop_fd fd
            | some h ↦ accept app take_fd n h fd
          ])
      offer-Steady n held none fd = drop_fd-Steady held fd
      offer-Steady n held (some h) fd = accept-Steady n held h fd

      Acceptor-handle_read-Steady :
          (n : ℕ) (held : Bool) (p : ℕ)
          → Steady held (Acceptor.handle_read (accept app take_fd n) p)
      unfolding Acceptor.handle_read acceptor sys_accept
      Acceptor-handle_read-Steady n held p =
          Steady-bind held (deref-Steady held (λ w. w.acceptors p)) λ a.
            Steady-bind held (channel-Steady held a.channel) λ c.
              Steady-bind held (kernel-Steady held (K.accept4 c.fd.value)) λ fd.
                if-Steady held (is_fd fd) (offer-Steady n held a.new_connection_handler fd)
                  (pure-Steady held tt)

      connect_done-Steady :
          (n : ℕ) (held : Bool) (h : ConnectedHandler) (fd : ℤ)
          → Steady held (connect_done app take_fd n h fd)
      unfolding connect_done
      connect_done-Steady n held (user_connected t) fd = takes held t fd
      connect_done-Steady n held client_connected fd =
          connected-Steady (call app n) (call-Steady n) held fd

      -- Any closure that a channel may run, to any depth of calls.
      pub run_channel-Steady :
          (n : ℕ) (held : Bool) (h : ChannelHandler) → Steady held (run_channel app take_fd n h)
      unfolding run_channel
      run_channel-Steady n held (connection_close p) =
          handle_close-Steady held (call app n) (call-Steady n held) p
      run_channel-Steady n held (connection_read p) =
          handle_read-Steady held (call app n) (call-Steady n held) p
      run_channel-Steady n held (connection_write p) =
          handle_write-Steady held (call app n) (call-Steady n held) p
      run_channel-Steady n held (acceptor_read p) = Acceptor-handle_read-Steady n held p
      run_channel-Steady n held (connector_write p) =
          Connects.handle_write-Steady held (connect_done app take_fd n)
            (connect_done-Steady n held) n p
