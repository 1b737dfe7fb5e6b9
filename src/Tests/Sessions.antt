-- ===== src/Tests/Sessions.antt =====
-- A session of a server, in a concrete world.
use librapid.Prelude.{ℕ, ℤ, pos, ◌≡◌, refl, some, none, [], ◌∷◌}
use librapid.Outcome.{M, pure, ok, thrown}
use librapid.World.{Acceptor, server_accept, EventLoopPool, server_close, user}
use librapid.LoopPool
use librapid.Client
use librapid.Outcome.Laws.{Throws}
use librapid.Poller.{registration}
use librapid.Handlers.{call}
use librapid.Channel.{Channel, added, acceptor_read, make_channel, set_read, set_state}
use librapid.Connection.{handle_read, make_connection_channel}
use librapid.Server.{lookup, handle_new_connection}
use librapid.Server.Enter.{new_id, made, entered}
use librapid.Server.Refused.{refused, new_connection-refused}
use librapid.Poller.Sync.{ctl_failed}
use librapid.Handlers.Session.{opened, parted, event_at, events-session}
use librapid.Handle.{handle}
use librapid.Uuid.{Uuid, new_uuid, uuid_eq}
use librapid.Tests.Uuids.{some_uuid}
use librapid.Tests.Machine.{machine, machine_laws}
use librapid.Tests.Scenes.{
  at_address, Here, the_loop, the_server, world, no_rows, listed_row, app, run_user,
}

-- The connected handler is one of the program, and another connection is open.
abbrev greeted : Here
greeted = record (world no_rows (pos 6) server_close) {
  server = record the_server { connected_handler = some (user 1); clients = (some_uuid, 10) ∷ [] };
}

abbrev turned : EventLoopPool
turned = record { count = 1; loops = 1 ∷ [] }

abbrev watched : machine.State
watched = (entered greeted (pos 9) 1 the_loop turned).kernel

-- Its acceptor stands at 7, with the channel at 8, which has the event EPOLLIN.
abbrev door : Channel
door = record (make_channel 8 1 (handle (pos 4))) {
  events = 1;
  state = added;
  read_handler = some (acceptor_read 7);
}

abbrev listening : Acceptor
listening = record { channel = 8; new_connection_handler = some server_accept }

abbrev hosting : Here
hosting = record greeted { acceptors = at_address 7 listening; channels = at_address 8 door }

abbrev no_taker : ℕ → ℤ → M Here (Unit {0})
no_taker t fd = pure tt

abbrev visited_at : ℕ → Here
visited_at e = opened machine_laws app no_taker hosting 7 listening door 1 the_loop turned e watched

abbrev parted_at : ℕ → Here
parted_at e = parted machine_laws app no_taker hosting 7 listening door 1 the_loop turned e watched

abbrev guest_id : Uuid
guest_id = new_id hosting (pos 9) 1 the_loop turned

events-session_example :
    (event_at machine_laws app no_taker hosting 7 listening door 2 8 hosting ≡ ok tt (visited_at 0))
    × (event_at machine_laws app no_taker hosting 7 listening door 2 51 (visited_at 1)
        ≡ ok tt (record (parted_at 1) { server = record (hosting.server) { pool = turned } }))
    × ((parted_at 1).kernel (pos 3) (pos 9) ≡ none)
    × ((visited_at 0).connections 50 ≡ some (made hosting (pos 9) 1 the_loop turned))
    × (lookup guest_id (visited_at 0).server.clients ≡ some 50)
unfolding LoopPool.next_loop lookup call uuid_eq new_uuid set_state set_read make_connection_channel
    make_channel
events-session_example =
    events-session machine_laws app no_taker hosting 7 listening door 1 the_loop turned 0 1 1
      (record { events = 3; ptr = 51 }) watched watched (parted_at 1).kernel refl refl refl refl
      refl refl refl refl refl refl refl refl refl refl refl refl refl

-- The descriptor is registered already.
abbrev crowded : Here
crowded = record greeted { kernel = listed_row (pos 6) }

new_connection-refused_example :
    (handle_new_connection run_user (pos 6) crowded
      ≡ thrown ctl_failed (refused crowded (pos 6) 1 the_loop turned))
    × (lookup
          (new_id crowded (pos 6) 1 the_loop turned)
          (refused crowded (pos 6) 1 the_loop turned).server.clients
        ≡ some 50)
    × ((refused crowded (pos 6) 1 the_loop turned).connections 50
        ≡ some (made crowded (pos 6) 1 the_loop turned))
    × ((e f : ℤ) → (refused crowded (pos 6) 1 the_loop turned).kernel e f ≡ listed_row (pos 6) e f)
unfolding LoopPool.next_loop lookup uuid_eq new_uuid
new_connection-refused_example =
    new_connection-refused crowded (pos 6) 1 the_loop turned machine_laws run_user refl refl refl
      refl refl

abbrev client_watched : machine.State
client_watched = (Client.Session.added_kernel greeted (pos 6) the_loop).1

client_session_example :
    (Client.connected (call app 1) (pos 6) greeted
      ≡ ok tt (Client.Session.open_at greeted (pos 6) the_loop client_watched))
    × (client_watched (pos 3) (pos 6)
        ≡ some (registration (Client.Session.made_channel greeted (pos 6) the_loop)))
    × Throws ctl_failed
        (λ w'. w'.client ≡ record (greeted.client) { connection = some 50 })
        (handle_read
          (call app 2)
          50
          (Client.Session.open_at greeted (pos 6) the_loop client_watched))
unfolding set_state set_read make_connection_channel
client_session_example =
    Client.Session.client_session greeted (pos 6) the_loop machine_laws app 1
      (record { events = 3; ptr = 51 }) client_watched refl refl refl refl
