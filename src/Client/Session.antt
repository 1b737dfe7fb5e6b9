-- ===== src/Client/Session.antt =====
-- src/tcpclient.cpp and src/tcpconnection.cpp together: the connection of a client from the connect to
-- the end of its stream.
use librapid.Prelude.{ℕ, ℤ, suc, pos, ◌+◌, ◌≡◌, refl, none, some, [], arith}
use librapid.Kernel.{Kernel, EpollCtl, EpollEvent, ctl_add, filled}
use librapid.Handle.{handle}
use librapid.Outcome.{ok, M}
use librapid.Outcome.Laws.{Throws}
use librapid.Channel.{Channel, added, make_channel, set_read, set_state}
use librapid.Poller.{registration, enable_read}
use librapid.Poller.Sync.{ctl_failed}
use librapid.World.{
  World, Handler, TcpConnection, EventLoop, connected, disconnected, client_close, connection,
  put_connection, put_channel, allocate, on_site, update,
}
use librapid.Uuid.{new_uuid}
use librapid.Connection
use librapid.Connection.{
  construct, make_connection, make_connection_channel, connect_established, set_connection_state,
  run_handler,
}
use librapid.Connection.Close.{Attached}
use librapid.Connection.Read.{handle_read-eof}
use librapid.Handlers.{call}
use librapid.Server.{generate_uuid}
use librapid.Client
use librapid.Client.{client, put_client}
use librapid.Client.Close.{close-Throws}

module _ {K : Kernel} (w : World K) (fd : ℤ) (l : EventLoop) where
  abbrev pub made : TcpConnection
  made = record {
    state = connected;
    id = new_uuid (K.uuid_generate w.kernel).0;
    loop = w.client.loop;
    channel = w.fresh + 1;
    connected_handler = none;
    read_handler = w.client.read_handler;
    write_handler = w.client.write_handler;
    close_handler = some client_close;
    read_buffer = [];
    write_buffer = [];
  }

  abbrev pub born_channel : Channel
  born_channel = make_connection_channel w.fresh (w.fresh + 1) w.client.loop (handle fd)

  abbrev pub made_channel : Channel
  made_channel = set_state added (set_read born_channel)

  abbrev pub added_kernel : ℤ × K.State
  added_kernel =
      K.epoll_ctl l.epollfd ctl_add fd (registration made_channel) (K.uuid_generate w.kernel).1

  -- The connection is there, and the system has come to k.
  abbrev pub open_at : K.State → World K
  open_at k = record w {
    kernel = k;
    fresh = w.fresh + 1 + 1;
    connections =
        update
          (update
            (update w.connections w.fresh
              (make_connection (w.fresh + 1) w.client.loop (new_uuid (K.uuid_generate w.kernel).0)))
            w.fresh (record made { state = disconnected }))
          w.fresh made;
    channels = update (update w.channels (w.fresh + 1) born_channel) (w.fresh + 1) made_channel;
    client = record (w.client) { connection = some w.fresh };
  }

  connected_lem :
      (run : Handler → ℕ → M (World K) (Unit {0}))
      → w.loops w.client.loop ≡ some l
      → added_kernel.0 ≡ pos 0
      → Client.connected run fd w ≡ ok tt (open_at added_kernel.1)
  unfolding Client.connected client put_client generate_uuid allocate construct connect_established
      put_connection put_channel connection set_connection_state on_site run_handler enable_read
      make_connection make_connection_channel make_channel set_read set_state
  connected_lem run is done = ground arith

  open-Attached :
      (k : K.State)
      → w.loops w.client.loop ≡ some l
      → Attached (open_at k) w.fresh made made_channel l
  unfolding make_connection_channel make_channel set_read set_state
  open-Attached k is = record {
    is_connection = ground arith;
    is_channel = ground arith;
    is_loop = is;
    is_added = refl;
  }

  -- A session of a client: TcpClient::connected of a descriptor that epoll accepts, then, in any
  -- state of the system in which the descriptor is still registered after a read that gives the
  -- end of the stream, handleRead of that connection. The first returns with epoll watching the
  -- descriptor for reading and the connection Connected and held by the client; the second
  -- throws the exception of a failed epoll_ctl, with the client as it was and its connection
  -- kept.
  pub client_session :
      (L : EpollCtl K) (app : ℕ → ℕ → M (World K) (Unit {0})) (n : ℕ) (ev : EpollEvent)
      (k : K.State)
      → w.loops w.client.loop ≡ some l
      → added_kernel.0 ≡ pos 0
      → (K.read fd 4096 k).0 ≡ filled []
      → L.interest (K.read fd 4096 k).1 l.epollfd fd ≡ some ev
      → (Client.connected (call app n) fd w ≡ ok tt (open_at added_kernel.1))
        × (L.interest added_kernel.1 l.epollfd fd ≡ some (registration made_channel))
        × Throws ctl_failed
            (λ w'. w'.client ≡ record (w.client) { connection = some w.fresh })
            (Connection.handle_read (call app (suc n)) w.fresh (open_at k))
  unfolding make_connection_channel make_channel set_read set_state
  client_session L app n ev k is done got listed =
      let at = open-Attached k is in
      let after = (K.read fd 4096 k).1 in
      (
        connected_lem (call app n) is done,
        L.add_done l.epollfd fd (registration made_channel) (K.uuid_generate w.kernel).1 done,
        rw
            (handle_read-eof (call app (suc n)) w.fresh (open_at k) made made_channel
              at.is_connection at.is_channel refl got)
            (close-Throws L app (open_at after) w.fresh made made_channel l (open-Attached after is)
              ev listed n refl refl),
      )
