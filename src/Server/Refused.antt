-- ===== src/Server/Refused.antt =====
-- src/tcpserver.cpp: a connection that epoll refuses.
use librapid.Prelude.{ℕ, ℤ, pos, ◌+◌, ◌≡◌, false, none, some, arith, int_eq, int_eq_iff}
use librapid.Kernel.{Kernel, EpollCtl, ctl_add}
use librapid.Handle.{handle}
use librapid.Outcome.{ok, thrown, M}
use librapid.Channel.{make_channel, set_read, set_state}
use librapid.Poller.{registration, enable_read}
use librapid.Poller.Sync.{ctl_failed}
use librapid.World.{
  World, Handler, EventLoop, EventLoopPool, connection, put_connection, put_channel, allocate,
  on_site, update,
}
use librapid.Connection.{
  construct, make_connection, make_connection_channel, connect_established, set_connection_state,
  run_handler,
}
use librapid.LoopPool
use librapid.Server.{
  lookup, server, put_server, lock, locked_scope, set_clients, next_loop, generate_uuid,
  set_handlers, handle_new_connection,
}
use librapid.Server.Enter.{new_id, made, made_channel, added_kernel, entered, lookup-new}

module _ {K : Kernel} (w : World K) (fd : ℤ) (p : ℕ) (l : EventLoop) (pool : EventLoopPool) where
  -- The world that the exception leaves.
  abbrev pub refused : World K
  refused =
      let e = entered w fd p l pool in
      record e {
        channels =
            update
              (update w.channels (w.fresh + 1)
                (make_connection_channel w.fresh (w.fresh + 1) p (handle fd)))
              (w.fresh + 1)
              (set_read (make_connection_channel w.fresh (w.fresh + 1) p (handle fd)));
        server = record (e.server) { locked = false };
      }

  refused_lem :
      (call : Handler → ℕ → M (World K) (Unit {0}))
      → LoopPool.next_loop w.server.pool ≡ ok p pool
      → w.loops p ≡ some l
      → w.server.locked ≡ false
      → int_eq (added_kernel w fd p l pool).0 (pos 0) ≡ false
      → handle_new_connection call fd w ≡ thrown ctl_failed refused
  unfolding handle_new_connection generate_uuid next_loop allocate construct set_handlers server
      locked_scope lock set_clients connect_established put_server put_connection put_channel
      connection set_connection_state on_site run_handler enable_read make_connection
      make_connection_channel make_channel set_read set_state
  refused_lem call turn is free bad = ground arith

  -- handleNewConnection, where the id is new, nextLoop gives a loop, the mutex is free and epoll
  -- refuses the descriptor, throws the exception of a failed epoll_ctl and leaves the connection
  -- Connected and its id among the clients, with epoll watching nothing that it did not watch
  -- before.
  pub new_connection-refused :
      (L : EpollCtl K) (call : Handler → ℕ → M (World K) (Unit {0}))
      → LoopPool.next_loop w.server.pool ≡ ok p pool
      → w.loops p ≡ some l
      → w.server.locked ≡ false
      → lookup (new_id w fd p l pool) w.server.clients ≡ none
      → int_eq (added_kernel w fd p l pool).0 (pos 0) ≡ false
      → (handle_new_connection call fd w ≡ thrown ctl_failed refused)
        × (lookup (new_id w fd p l pool) refused.server.clients ≡ some w.fresh)
        × (refused.connections w.fresh ≡ some (made w fd p l pool))
        × ((e f : ℤ) → L.interest refused.kernel e f ≡ L.interest (K.uuid_generate w.kernel).1 e f)
  new_connection-refused L call turn is free fresh bad =
      let refuse =
        L.refused l.epollfd fd ctl_add (registration (made_channel w fd p l pool))
          (K.uuid_generate w.kernel).1 in
      (
        refused_lem call turn is free bad,
        lookup-new w fd p l pool fresh,
        ground arith,
        refuse λ e. ground (arith, int_eq_iff (added_kernel w fd p l pool).0 (pos 0)),
      )
