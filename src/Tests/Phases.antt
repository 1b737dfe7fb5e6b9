-- ===== src/Tests/Phases.antt =====
-- A channel through its phases, in a concrete epoll instance.
use librapid.Prelude.{pos, refl, false, List, [], ◌∷◌}
use librapid.Outcome.Laws.{Returns}
use librapid.Handle.{handle}
use librapid.Channel.{make_channel}
use librapid.Poller.{Site}
use librapid.Poller.Sync.{enables_read, enables_write}
use librapid.Poller.Lifecycle.{
  Command, masks, removes, Phase, fresh, Meets, spec, obey, drive, Possible, Represents, obey-Meets,
  drive-Possible,
}
use librapid.Tests.Machine.{machine, machine_laws}
use librapid.Tests.Scenes.{no_rows}

abbrev Here : Type 0
Here = Site machine (pos 3)

abbrev born : Here
born = (make_channel 20 1 (handle (pos 5)), no_rows)

born-Represents : Represents machine (pos 3) machine_laws (fresh false false) born
unfolding make_channel
born-Represents = (refl, refl, refl)

abbrev life : List Command
life = masks enables_read ∷ removes ∷ masks enables_write ∷ removes ∷ []

obey-Meets_example :
    Meets machine
      (pos 3)
      machine_laws
      (spec (masks enables_read) (fresh false false))
      (obey machine (pos 3) (masks enables_read) born)
obey-Meets_example =
    obey-Meets machine (pos 3) machine_laws (masks enables_read) (fresh false false) born
      born-Represents

drive-Possible_example :
    Returns
      (λ _ t.
        (q : Phase) × Possible (fresh false false) life q
        × Represents machine (pos 3) machine_laws q t)
      (drive machine (pos 3) life born)
drive-Possible_example =
    drive-Possible machine (pos 3) machine_laws life (fresh false false) born born-Represents
