-- ===== src/Tests/Turns.antt =====
-- A server whose client closes its connection before another one comes.
use mathlib.Core.Quot.{Quot}
use librapid.Prelude.{refl, pos, ◌≡◌, List, [], ◌∷◌}
use librapid.LoopPool
use librapid.World.{EventLoopPool, server_close, TcpConnection, disconnected}
use librapid.Uuid.{Uuid, uuid_eq}
use librapid.Handlers.{call}
use librapid.Poller.{registration}
use librapid.Connection.Close.{closed}
use librapid.Server.{lookup, erase, unlocked}
use librapid.Server.Clients.{IsMap}
use librapid.Server.Close.{forget, eof_forgets}
use librapid.Server.Enter.{new_id, entered, handle_new_connection_lem}
use librapid.Server.Registry.{Registry, find}
use librapid.Server.Turns.{Event, comes, goes, enters, ends, history, Shows, Turns}
use librapid.Server.Refines.{Turns-Shows}
use librapid.Tests.Machine.{machine_laws}
use librapid.Tests.Scenes.{
  Here, link, link_id, link_channel, listed_row, the_loop, world, app, world-Attached,
}

abbrev served : Here
served = world (listed_row (pos 6)) (pos 6) server_close

abbrev served_closed : Here
served_closed = closed served 10 (link server_close) (link_channel (pos 6)) the_loop

abbrev left : Here
left = forget app link_id served_closed

abbrev gone_link : TcpConnection
gone_link = record (link server_close) { state = disconnected }

abbrev turned : EventLoopPool
turned = record { count = 1; loops = 1 ∷ [] }

abbrev next_id : Uuid
next_id = new_id left (pos 7) 1 the_loop turned

abbrev joined : Here
joined = unlocked (entered left (pos 7) 1 the_loop turned)

abbrev events : List Event
events = goes link_id ∷ comes next_id 50 ∷ []

served-IsMap : IsMap served.server.clients
unfolding lookup
served-IsMap = (refl, tt)

abbrev before : Registry
before = Quot.mk (served.server.clients, served-IsMap)

served-Turns : Turns machine_laws app served joined events
unfolding LoopPool.next_loop lookup erase uuid_eq
served-Turns = (
  left,
  ends 10 (link server_close) (link_channel (pos 6)) the_loop
      (world-Attached (listed_row (pos 6)) (pos 6) server_close)
      (registration (link_channel (pos 6))) 0 1 served_closed gone_link refl refl refl refl refl
      refl refl refl refl refl
      (eof_forgets app machine_laws served 10 (link server_close) (link_channel (pos 6)) the_loop
        (world-Attached (listed_row (pos 6)) (pos 6) server_close)
        (registration (link_channel (pos 6))) 0 1 served_closed gone_link refl refl refl refl refl
        refl refl refl)
      refl,
  (
    joined,
    enters 0 (pos 7) 1 the_loop turned (entered left (pos 7) 1 the_loop turned) refl refl refl refl
        refl refl
        (handle_new_connection_lem left (pos 7) 1 the_loop turned machine_laws (call app 0)
          (entered left (pos 7) 1 the_loop turned) refl refl refl refl refl refl).0
        refl,
    refl,
  ),
)

Turns-Shows_example :
    Shows joined (history before events)
    × ((k : Uuid) → lookup k joined.server.clients ≡ find k (history before events))
Turns-Shows_example =
    Turns-Shows machine_laws app events served joined before (served-IsMap, refl) served-Turns
