-- ===== src/Tests/Entries.antt =====
-- A connection that comes in, and a round of events, in concrete worlds.
use librapid.Prelude.{pos, ◌≡◌, refl, some, [], ◌∷◌}
use librapid.Outcome.{ok}
use librapid.Outcome.Laws.{Returns}
use librapid.World.{EventLoop, EventLoopPool, server_close}
use librapid.LoopPool
use librapid.EventLoop.{polled, poll}
use librapid.EventLoop.Polls.{AllAlive, poll_lem}
use librapid.Server.{lookup, unlock, handle_new_connection}
use librapid.Server.Enter.{new_id, made, entered, handle_new_connection_lem}
use librapid.Tests.Machine.{machine_laws, two_events}
use librapid.Tests.Scenes.{
  Here, link_channel, the_loop, the_server, world, no_rows, at_address, run_user,
}

abbrev quiet : Here
quiet = record (world no_rows (pos 6) server_close) { server = record the_server { clients = [] } }

abbrev turned : EventLoopPool
turned = record { count = 1; loops = 1 ∷ [] }

abbrev after_entry : Here
after_entry = entered quiet (pos 7) 1 the_loop turned

handle_new_connection_lem_example :
    (handle_new_connection run_user (pos 7) quiet ≡ unlock (ok tt after_entry))
    × (after_entry.connections 50 ≡ some (made quiet (pos 7) 1 the_loop turned))
    × (lookup (new_id quiet (pos 7) 1 the_loop turned) after_entry.server.clients ≡ some 50)
    × (after_entry.kernel (pos 3) (pos 7) ≡ some (record { events = 3; ptr = 51 }))
unfolding LoopPool.next_loop lookup
handle_new_connection_lem_example =
    handle_new_connection_lem quiet (pos 7) 1 the_loop turned machine_laws run_user after_entry refl
      refl refl refl refl refl

abbrev short_loop : EventLoop
short_loop = record the_loop { events_size = 2 }

abbrev noisy : Here
noisy = record quiet { loops = at_address 1 short_loop }

noisy-AllAlive : AllAlive noisy two_events
noisy-AllAlive = ((λ n. absurd (n refl)), ((λ n. (link_channel (pos 6), refl)), tt))

poll_lem_example :
    Returns
      (λ r w'.
        (r ≡ polled 2)
        × (w'.loops 1 ≡ some (record short_loop { active_channels = 20 ∷ []; events_size = 4 })))
      (poll 1 noisy)
poll_lem_example =
    poll_lem 1 noisy short_loop (record { events = 1; ptr = 0 })
      (record { events = 5; ptr = 20 } ∷ []) no_rows refl refl noisy-AllAlive
