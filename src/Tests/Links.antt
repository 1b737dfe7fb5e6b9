-- ===== src/Tests/Links.antt =====
-- Connections of a server and of a client that the peer closes or writes to.
use librapid.Prelude.{pos, ◌≡◌, refl, some, [], ◌∷◌}
use librapid.Outcome.{thrown, runtime_error, relock}
use librapid.Outcome.Laws.{Sticks}
use librapid.Poller.{registration}
use librapid.World.{user, server_close, TcpConnection, disconnected}
use librapid.Connection
use librapid.Connection.Close.{closed}
use librapid.Handlers.{call}
use librapid.Server
use librapid.Server.Thrown.{eof-thrown}
use librapid.Server.Stop.{locked_world, stop-relock}
use librapid.Tests.Machine.{machine_laws}
use librapid.Tests.Scenes.{
  Here, link, link_id, link_channel, listed_row, the_loop, world, app, world-Attached,
}

abbrev served : Here
served = world (listed_row (pos 6)) (pos 6) server_close

abbrev served_closed : Here
served_closed = closed served 10 (link server_close) (link_channel (pos 6)) the_loop

abbrev marked_closed : TcpConnection
marked_closed = record (link server_close) { state = disconnected }

stop-relock_example : Sticks relock (Server.stop (call app 2) served)
unfolding call
stop-relock_example =
    stop-relock app served link_id 10 [] (link server_close) (link_channel (pos 6)) the_loop
      machine_laws (world-Attached (listed_row (pos 6)) (pos 6) server_close)
      (registration (link_channel (pos 6))) 1
      (closed
        (locked_world app served link_id 10 [] (link server_close) (link_channel (pos 6)) the_loop)
        10 marked_closed (link_channel (pos 6)) the_loop)
      refl refl refl refl refl refl

abbrev talking : Here
talking = world (listed_row (pos 5)) (pos 5) server_close

abbrev fed_link : TcpConnection
fed_link = record (link server_close) { read_buffer = b'a' ∷ b'h' ∷ b'i' ∷ [] }

-- The close handler of the program throws.
abbrev crossed : Here
crossed = record served { server = record (served.server) { close_handler = some (user 2) } }

abbrev crossed_closed : Here
crossed_closed = closed crossed 10 (link server_close) (link_channel (pos 6)) the_loop

eof-thrown_example :
    Connection.handle_read (call app 2) 10 crossed ≡ thrown (runtime_error (pos 4)) crossed_closed
eof-thrown_example =
    let at = world-Attached (listed_row (pos 6)) (pos 6) server_close in
    eof-thrown app machine_laws crossed 10 (link server_close) (link_channel (pos 6)) the_loop
      (record {
        is_connection = at.is_connection;
        is_channel = at.is_channel;
        is_loop = at.is_loop;
        is_added = at.is_added;
      })
      (registration (link_channel (pos 6))) 0 2 crossed_closed (runtime_error (pos 4)) refl refl
      refl refl refl refl
