-- ===== src/Server/Enter.antt =====
-- src/tcpserver.cpp: a connection that the acceptor brings in.
use librapid.Prelude.{ℕ, ℤ, pos, ◌+◌, ◌≡◌, ap, ◌∙◌, true, false, none, some, [], arith}
use librapid.Kernel.{Kernel, EpollCtl, ctl_add}
use librapid.Handle.{handle}
use librapid.Outcome.{ok, M, invoke}
use librapid.Channel.{Channel, added, make_channel, set_read, set_state}
use librapid.Poller.{registration, enable_read}
use librapid.World.{
  World, Handler, TcpConnection, EventLoop, EventLoopPool, connected, disconnected, server_close,
  connection, put_connection, put_channel, allocate, on_site, update,
}
use librapid.Uuid.{Uuid, new_uuid}
use librapid.Server.Clients.{lookup-insert}
use librapid.Uuid.Hash.{uuid_eq_iff}
use librapid.Connection.{
  construct, make_connection, make_connection_channel, connect_established, set_connection_state,
  run_handler,
}
use librapid.LoopPool
use librapid.Server.{
  lookup, insert, server, put_server, lock, unlock, locked_scope, set_clients, next_loop,
  generate_uuid, set_handlers, handle_new_connection,
}

module _ {K : Kernel} (w : World K) (fd : ℤ) (p : ℕ) (l : EventLoop) (pool : EventLoopPool) where
  abbrev pub new_id : Uuid
  new_id = new_uuid (K.uuid_generate w.kernel).0

  abbrev pub made : TcpConnection
  made = record {
    state = connected;
    id = new_id;
    loop = p;
    channel = w.fresh + 1;
    connected_handler = w.server.connected_handler;
    read_handler = w.server.read_handler;
    write_handler = w.server.write_handler;
    close_handler = some server_close;
    read_buffer = [];
    write_buffer = [];
  }

  abbrev pub made_channel : Channel
  made_channel =
      set_state added (set_read (make_connection_channel w.fresh (w.fresh + 1) p (handle fd)))

  abbrev pub added_kernel : ℤ × K.State
  added_kernel =
      K.epoll_ctl l.epollfd ctl_add fd (registration made_channel) (K.uuid_generate w.kernel).1

  -- The world in which the connected handler is called.
  abbrev pub entered : World K
  entered = record w {
    kernel = added_kernel.1;
    fresh = w.fresh + 1 + 1;
    connections =
        update
          (update (update w.connections w.fresh (make_connection (w.fresh + 1) p new_id)) w.fresh
            (record made { state = disconnected }))
          w.fresh made;
    channels =
        update
          (update w.channels (w.fresh + 1)
            (make_connection_channel w.fresh (w.fresh + 1) p (handle fd)))
          (w.fresh + 1) made_channel;
    server = record (w.server) {
      pool = pool;
      locked = true;
      clients = insert new_id w.fresh w.server.clients;
    };
  }

  pub enter_lem :
      (call : Handler → ℕ → M (World K) (Unit {0}))
      → LoopPool.next_loop w.server.pool ≡ ok p pool
      → w.loops p ≡ some l
      → w.server.locked ≡ false
      → added_kernel.0 ≡ pos 0
      → handle_new_connection call fd w
        ≡ unlock (invoke (λ h. call h w.fresh) w.server.connected_handler entered)
  unfolding handle_new_connection generate_uuid next_loop allocate construct set_handlers server
      locked_scope lock set_clients connect_established put_server put_connection put_channel
      connection set_connection_state on_site run_handler enable_read make_connection
      make_connection_channel make_channel set_read set_state
  enter_lem call turn is free done = ground arith

  pub lookup-new :
      lookup new_id w.server.clients ≡ none
      → lookup new_id (insert new_id w.fresh w.server.clients) ≡ some w.fresh
  lookup-new fresh =
      lookup-insert new_id new_id w.fresh w.server.clients fresh
      ∙ ground (arith, uuid_eq_iff new_id new_id)

  -- TcpServer::handleNewConnection, where the id is new, nextLoop gives a loop, the mutex is
  -- free and epoll accepts the descriptor: the connected handler sees the connection Connected,
  -- its id leads to it in the clients, epoll watches its descriptor for reading only, and when
  -- the handler returns so does handleNewConnection, with the mutex free.
  pub handle_new_connection_lem :
      (L : EpollCtl K) (call : Handler → ℕ → M (World K) (Unit {0})) (w1 : World K)
      → LoopPool.next_loop w.server.pool ≡ ok p pool
      → w.loops p ≡ some l
      → w.server.locked ≡ false
      → lookup new_id w.server.clients ≡ none
      → added_kernel.0 ≡ pos 0
      → invoke (λ h. call h w.fresh) w.server.connected_handler entered ≡ ok tt w1
      → (handle_new_connection call fd w ≡ unlock (ok tt w1))
        × (entered.connections w.fresh ≡ some made)
        × (lookup new_id entered.server.clients ≡ some w.fresh)
        × (L.interest entered.kernel l.epollfd fd ≡ some (record { events = 3; ptr = w.fresh + 1 }))
  unfolding make_connection_channel make_channel set_read set_state
  handle_new_connection_lem L call w1 turn is free fresh done run = (
    enter_lem call turn is free done ∙ ap unlock run,
    ground arith,
    lookup-new fresh,
    L.add_done l.epollfd fd (registration made_channel) (K.uuid_generate w.kernel).1 done,
  )
