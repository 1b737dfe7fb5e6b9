-- ===== src/Tests/Builds.antt =====
-- Objects that are made and destroyed, and the example program at work, in concrete worlds.
use librapid.Prelude.{ℕ, pos, ◌≡◌, refl, none, [], ◌∷◌}
use librapid.Outcome.Laws.{Returns}
use librapid.World.{EventLoopPool, server_close}
use librapid.Connection.{handle_read}
use librapid.Handlers.{call}
use librapid.Program.{handlers, install}
use librapid.Program.Early.{installed, early-unanswered}
use librapid.Server.{handle_new_connection}
use librapid.Server.Enter.{added_kernel}
use librapid.LoopPool
use librapid.Outcome.{ok, ◌>>◌}
use librapid.Tests.Scenes.{no_rows, the_server, the_loop, Here, world}

-- A server on which no handler is set yet.
abbrev unset : Here
unset = record (world no_rows (pos 5) server_close) {
  server = record the_server { read_handler = none; close_handler = none; clients = [] };
}

abbrev turned : EventLoopPool
turned = record { count = 1; loops = 1 ∷ [] }

abbrev early : Here
early = installed unset (pos 5) 1 the_loop turned no_rows

early-unanswered_example :
    ((handle_new_connection (call handlers 3) (pos 5) >> install) unset
      ≡ ok tt (
          installed unset
            (pos 5)
            1
            the_loop
            turned
            (added_kernel unset (pos 5) 1 the_loop turned).1))
    × Returns
        (λ _ w'. (w'.kernel ≡ no_rows) × ((q : ℕ) → w'.connections q ≡ early.connections q))
        (handle_read (call handlers 3) 50 early)
unfolding LoopPool.next_loop
early-unanswered_example =
    early-unanswered unset (pos 5) 1 the_loop turned (call handlers 3) no_rows b'h' (b'i' ∷ []) refl
      refl refl refl refl refl refl
