-- ===== src/Server/Session.antt =====
-- src/tcpserver.cpp and src/tcpconnection.cpp together: a connection from its accept to the end of
-- its stream.
use librapid.Prelude.{ℕ, ℤ, suc, pos, ◌+◌, ◌≡◌, refl, ap, ◌∙◌, none, some, false, [], arith}
use librapid.Kernel.{filled, Kernel, EpollCtl, EpollEvent}
use librapid.Handle.{handle}
use librapid.Outcome.{Outcome, ok, M, invoke}
use librapid.Channel.{Channel, make_channel, set_read, set_state}
use librapid.World.{update, World, EventLoop, EventLoopPool, user, disconnected}
use librapid.Uuid.{Uuid}
use librapid.Uuid.Hash.{uuid_eq_iff}
use librapid.LoopPool
use librapid.Connection.{handle_read, make_connection_channel}
use librapid.Connection.Close.{Attached, closed, detached_unlisted}
use librapid.Handlers.{call}
use librapid.Server.{Clients, lookup, insert, erase, handle_new_connection}
use librapid.Server.Close.{eof_forgets}
use librapid.Server.Enter.{
  new_id, made, made_channel, added_kernel, entered, handle_new_connection_lem,
}

erase-insert : (id : Uuid) (c : ℕ) (m : Clients) → lookup id m ≡ none → erase id (insert id c m) ≡ m
unfolding insert erase
erase-insert id c m h = ground (arith, uuid_eq_iff id id)

module _ {K : Kernel} (L : EpollCtl K) (app : ℕ → ℕ → M (World K) (Unit {0})) (w : World K) (fd : ℤ)
    (p : ℕ) (l : EventLoop) (pool : EventLoopPool) where
  -- The channel of the connection, on which a poll has set the events e.
  abbrev pub ready : ℕ → Channel
  ready e = record (made_channel w fd p l pool) { events = e }

  -- The connection is open, its channel has the events e, and the system has come to k.
  abbrev pub open_at : ℕ → K.State → World K
  open_at e k =
      let u = entered w fd p l pool in
      record u {
        kernel = k;
        channels =
            update
              (update w.channels (w.fresh + 1)
                (make_connection_channel w.fresh (w.fresh + 1) p (handle fd)))
              (w.fresh + 1) (ready e);
        server = record (u.server) { locked = false };
      }

  -- The close handler is called after the read of an end of the stream.
  abbrev pub closed_at : ℕ → K.State → World K
  closed_at e k = closed (open_at e (K.read fd 4096 k).1) w.fresh (made w fd p l pool) (ready e) l

  open-Attached :
      (e : ℕ) (k : K.State)
      → w.loops p ≡ some l
      → Attached (open_at e k) w.fresh (made w fd p l pool) (ready e) l
  unfolding make_connection_channel make_channel set_read set_state
  open-Attached e k is = record {
    is_connection = ground arith;
    is_channel = ground arith;
    is_loop = is;
    is_added = refl;
  }

  abbrev pub left_with : ℕ → K.State → K.State → Clients → Outcome (World K) (Unit {0})
  left_with e k2 k3 m = ok tt (record (closed_at e k2) {
    kernel = k3;
    server = record (w.server) { pool = pool; locked = false; clients = m };
  })

  -- A session of a server: handleNewConnection with a new id, a loop, a free mutex and a
  -- descriptor that epoll accepts, then, in any state of the system in which the descriptor is
  -- still registered after a read that gives the end of the stream, handleRead of that
  -- connection; the handlers of the program return and change the system only. Both return; in
  -- between the connection is Connected and its id leads to it; after it the clients are those
  -- that were there, the mutex is free, and in the world of the close handler the connection is
  -- Disconnected and its registration gone.
  pub session_lem :
      (m n t e : ℕ) (ev : EpollEvent) (k1 k2 k3 : K.State)
      → LoopPool.next_loop w.server.pool ≡ ok p pool
      → w.loops p ≡ some l
      → w.server.locked ≡ false
      → lookup (new_id w fd p l pool) w.server.clients ≡ none
      → (added_kernel w fd p l pool).0 ≡ pos 0
      → invoke (λ h. call app m h w.fresh) w.server.connected_handler (entered w fd p l pool)
        ≡ ok tt (record (entered w fd p l pool) { kernel = k1 })
      → (K.read fd 4096 k2).0 ≡ filled []
      → L.interest (K.read fd 4096 k2).1 l.epollfd fd ≡ some ev
      → w.server.close_handler ≡ some (user t)
      → app t w.fresh (closed_at e k2) ≡ ok tt (record (closed_at e k2) { kernel = k3 })
      → (handle_new_connection (call app m) fd w ≡ ok tt (open_at 0 k1))
        × (handle_read (call app (suc (suc n))) w.fresh (open_at e k2)
            ≡ ok tt (record (closed_at e k2) {
              kernel = k3;
              server = record (w.server) { pool = pool; locked = false };
            }))
        × (L.interest (closed_at e k2).kernel l.epollfd fd ≡ none)
        × ((open_at 0 k1).connections w.fresh ≡ some (made w fd p l pool))
        × (lookup (new_id w fd p l pool) (open_at 0 k1).server.clients ≡ some w.fresh)
  unfolding make_connection_channel make_channel set_read set_state
  session_lem m n t e ev k1 k2 k3 turn is free fresh done run1 got listed close run3 =
      let conn = made w fd p l pool in
      let chan = ready e in
      let k = (K.read fd 4096 k2).1 in
      let w1 = record (entered w fd p l pool) { kernel = k1 } in
      let (enters, seen, found, _) =
        handle_new_connection_lem w fd p l pool L (call app m) w1 turn is free fresh done run1 in
      (
        enters,
        eof_forgets app L (open_at e k2) w.fresh conn chan l (open-Attached e k2 is) ev n t
              (record (closed_at e k2) { kernel = k3 }) (record conn { state = disconnected }) refl
              got listed refl close run3 refl (ground arith)
            ∙ ap (left_with e k2 k3)
                (erase-insert (new_id w fd p l pool) w.fresh w.server.clients fresh),
        detached_unlisted L (open_at e k) w.fresh conn chan l (open-Attached e k is) ev listed,
        seen,
        found,
      )
