-- ===== src/Tests/Interleavings.antt =====
-- Two runs of the threads around the clients of a server.
use librapid.Prelude.{refl, inl, false, [], ◌∷◌}
use librapid.World.{disconnected}
use librapid.Tests.Uuids.{some_uuid, other_uuid}
use librapid.Server.Threads.{
  Threads, nobody, stopper, unknown, listed, removed, locking_in, refused, serving, disabling, left,
  outside, removing_here, stuck_here, Steps, IsFresh, none_yet, one_more, locks_in, inserts,
  establishes, refuses, wakes, hears_hangup, disables, disable_fails, removes, closes, parts,
  locks_out, erases, unlocks_out, stops, sweeps_here, disables_here, remove_fails_here,
  removes_here, closes_here, parts_here, is_listed, can_disable,
}
use librapid.Uuid.{uuid_eq}
use librapid.Server.Clients.{IsMap}
use librapid.Server.{insert, lookup, erase}
use librapid.Server.Threads.Safety.{IsSafe, Steps-IsSafe}
use librapid.Server.Threads.Starved.{IsHalted, stuck-IsHalted}

-- Another connection is open.
abbrev new : Threads
new = record {
  holder = nobody;
  clients = (other_uuid, 4) ∷ [];
  state = disconnected;
  registration = unknown;
  greeted = 0;
  parted = 0;
  enter = locking_in;
  close = serving;
  stop = outside;
}

new-IsFresh : IsFresh some_uuid 5 new
unfolding lookup uuid_eq
new-IsFresh = (refl, refl, refl, refl, refl, refl, refl, (refl, refl))

new-IsMap : IsMap new.clients
unfolding lookup
new-IsMap = (refl, tt)

-- epoll has refused the connection, and stop() has made disableAll register it.
abbrev listed_again : Threads
listed_again = record new {
  holder = stopper;
  clients = insert some_uuid 5 new.clients;
  registration = listed false;
  enter = refused;
  stop = removing_here;
}

listed_run : Steps some_uuid 5 new listed_again
unfolding lookup insert uuid_eq can_disable
listed_run =
    one_more
      (one_more
        (one_more
          (one_more
            (one_more (one_more (one_more none_yet (locks_in refl refl refl)) (inserts refl refl))
              (establishes refl refl))
            (refuses refl refl))
          (stops refl refl refl))
        (sweeps_here 5 refl refl refl))
      (disables_here refl refl refl)

-- A hang-up closes the connection in between, so that stop() throws and the mutex is free.
abbrev all_left : Threads
all_left = record listed_again {
  holder = nobody;
  clients = erase some_uuid listed_again.clients;
  registration = removed;
  parted = 1;
  close = left;
  stop = outside;
}

left_run : Steps some_uuid 5 new all_left
unfolding is_listed can_disable
left_run =
    one_more
      (one_more
        (one_more
          (one_more
            (one_more
              (one_more
                (one_more
                  (one_more
                    (one_more (one_more listed_run (wakes false refl refl refl))
                      (hears_hangup refl refl))
                    (disables refl refl refl))
                  (removes refl refl refl))
                (remove_fails_here refl refl refl))
              (closes refl refl))
            (parts refl refl))
          (locks_out refl refl refl))
        (erases refl refl))
      (unlocks_out refl refl)

Steps-IsSafe_example : IsSafe some_uuid 5 all_left
Steps-IsSafe_example = Steps-IsSafe some_uuid 5 new all_left new-IsFresh new-IsMap left_run

-- stop() meets the connection, whose loop has heard of a hang-up.
abbrev stuck_stop : Threads
stuck_stop = record listed_again {
  registration = removed;
  parted = 1;
  close = disabling;
  stop = stuck_here;
}

stuck_run : Steps some_uuid 5 new stuck_stop
unfolding is_listed
stuck_run =
    one_more
      (one_more
        (one_more
          (one_more (one_more listed_run (wakes false refl refl refl)) (hears_hangup refl refl))
          (removes_here refl refl refl))
        (closes_here refl refl))
      (parts_here refl refl)

stuck-IsHalted_example : IsHalted stuck_stop (record stuck_stop { close = serving })
unfolding is_listed
stuck-IsHalted_example =
    stuck-IsHalted some_uuid 5 new stuck_stop (record stuck_stop { close = serving }) new-IsFresh
      new-IsMap stuck_run (inl refl) (one_more none_yet (disable_fails refl refl refl))
