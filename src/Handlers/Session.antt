-- ===== src/Handlers/Session.antt =====
-- src/eventloop.cpp, include/rapid/core/channel.h, src/acceptor.cpp, src/tcpserver.cpp and
-- src/tcpconnection.cpp together: what the loop threads make of the events of a connection.
use librapid.Prelude.{ℕ, ℤ, suc, pos, ◌+◌, ◌≡◌, refl, none, some, true, false, [], arith}
use librapid.Kernel.{filled, Kernel, EpollCtl, EpollEvent}
use librapid.Outcome.{ok, M, pure, invoke, ◌>>=◌}
use librapid.Channel.{
  Channel, ChannelHandler, acceptor_read, connection_read, make_channel, set_read, set_state,
  handle_event,
}
use librapid.Channel.Dispatch.{route_of, handle_event-serve, reads}
use librapid.World.{
  World, Acceptor, EventLoop, EventLoopPool, server_accept, user, acceptor, channel,
}
use librapid.LoopPool
use librapid.Acceptor
use librapid.Acceptor.{is_fd, sys_accept}
use librapid.Connection.{make_connection_channel}
use librapid.Handlers.{call, accept, run_channel}
use librapid.Server.{lookup, handle_new_connection}
use librapid.Server.Enter.{new_id, made, added_kernel, entered}
use librapid.Server.Session.{ready, open_at, closed_at, session_lem}

module _ {K : Kernel} (run : ChannelHandler → M (World K) (Unit {0})) where
  -- An event that asks for the read handler, whose outcome returns.
  event-reads :
      (p : ℕ) (c : Channel) (h : ChannelHandler) (w w1 : World K)
      → w.channels p ≡ some c
      → route_of c.events ≡ reads
      → c.read_handler ≡ some h
      → run h w ≡ ok tt w1
      → (channel p >>= handle_event run (pure tt)) w ≡ ok tt w1
  unfolding channel
  event-reads p c h w w1 is way set runs =
      rw is (rw (handle_event-serve run (pure tt) c, way, set, runs) refl)

module _ {K : Kernel} (L : EpollCtl K) (app : ℕ → ℕ → M (World K) (Unit {0}))
    (take_fd : ℕ → ℤ → M (World K) (Unit {0})) (w : World K) (self : ℕ) (a : Acceptor)
    (door : Channel) where
  -- The descriptor that accept4 gives, and the world after that call.
  abbrev pub guest : ℤ
  guest = (K.accept4 door.fd.value w.kernel).0

  abbrev pub accepted : World K
  accepted = record w { kernel = (K.accept4 door.fd.value w.kernel).1 }

  accept-event :
      (n : ℕ) (w1 : World K)
      → w.acceptors self ≡ some a
      → w.channels a.channel ≡ some door
      → a.new_connection_handler ≡ some server_accept
      → is_fd guest ≡ true
      → handle_new_connection (call app n) guest accepted ≡ ok tt w1
      → run_channel app take_fd n (acceptor_read self) w ≡ ok tt w1
  unfolding run_channel Acceptor.handle_read acceptor channel sys_accept accept
  accept-event n w1 is is_door server valid enters = rw (is, is_door, server, valid) enters

  -- handleEvent of the channel at an address, outside the try of the loop.
  abbrev pub event_at : ℕ → ℕ → M (World K) (Unit {0})
  event_at n p = channel p >>= handle_event (run_channel app take_fd n) (pure tt)

  module _ (p : ℕ) (l : EventLoop) (pool : EventLoopPool) where
    abbrev pub opened : ℕ → K.State → World K
    opened = open_at L app accepted guest p l pool

    abbrev pub parted : ℕ → K.State → World K
    parted = closed_at L app accepted guest p l pool

    -- A session of a server, by its events. The channel of the acceptor has an event to read,
    -- accept4 gives a descriptor, the id of the connection is new, a loop is there, the mutex is
    -- free and epoll accepts the descriptor; later the channel of the connection has an event to
    -- read, and the read gives the end of the stream, with the descriptor still registered. The
    -- handlers of the program return and change the system only. Both calls of handleEvent by
    -- the loop threads return, and the try around each has no exception to catch: after the
    -- first the connection is Connected and its id leads to it; after the second the server is
    -- as before but for the turn of its pool, its clients those that were there, and the
    -- connection is Disconnected and its registration gone.
    pub events-session :
        (n t e : ℕ) (ev : EpollEvent) (k1 k2 k3 : K.State)
        → w.acceptors self ≡ some a
        → w.channels a.channel ≡ some door
        → a.new_connection_handler ≡ some server_accept
        → door.read_handler ≡ some (acceptor_read self)
        → route_of door.events ≡ reads
        → is_fd guest ≡ true
        → LoopPool.next_loop w.server.pool ≡ ok p pool
        → w.loops p ≡ some l
        → w.server.locked ≡ false
        → lookup (new_id accepted guest p l pool) w.server.clients ≡ none
        → (added_kernel accepted guest p l pool).0 ≡ pos 0
        → invoke
            (λ h. call app (suc (suc n)) h w.fresh)
            w.server.connected_handler
            (entered accepted guest p l pool)
          ≡ ok tt (record (entered accepted guest p l pool) { kernel = k1 })
        → route_of e ≡ reads
        → (K.read guest 4096 k2).0 ≡ filled []
        → L.interest (K.read guest 4096 k2).1 l.epollfd guest ≡ some ev
        → w.server.close_handler ≡ some (user t)
        → app t w.fresh (parted e k2) ≡ ok tt (record (parted e k2) { kernel = k3 })
        → (event_at (suc (suc n)) a.channel w ≡ ok tt (opened 0 k1))
          × (event_at (suc (suc n)) (w.fresh + 1) (opened e k2)
              ≡ ok tt (record (parted e k2) {
                kernel = k3;
                server = record (w.server) { pool = pool; locked = false };
              }))
          × (L.interest (parted e k2).kernel l.epollfd guest ≡ none)
          × ((opened 0 k1).connections w.fresh ≡ some (made accepted guest p l pool))
          × (lookup (new_id accepted guest p l pool) (opened 0 k1).server.clients ≡ some w.fresh)
    unfolding make_connection_channel make_channel set_read set_state
    events-session n t e ev k1 k2 k3 is is_door server knocks way valid turn is_loop free fresh done
          greets back got listed close leaves =
        let run = run_channel app take_fd (suc (suc n)) in
        let (enters, ends, gone, seen, found) =
          session_lem L app accepted guest p l pool (suc (suc n)) n t e ev k1 k2 k3 turn is_loop
            free fresh done greets got listed close leaves in
        (
          event-reads run a.channel door (acceptor_read self) w (opened 0 k1) is_door way knocks
              (accept-event (suc (suc n)) (opened 0 k1) is is_door server valid enters),
          event-reads run (w.fresh + 1) (ready L app accepted guest p l pool e)
              (connection_read w.fresh) (opened e k2) _ (ground arith) back refl
              (unfold run_channel in ends),
          gone,
          seen,
          found,
        )
