-- ===== src/Server/Threads/Guard.antt =====
-- src/tcpserver.cpp: who has the mutex around clients_, and what holds before the insert.
use librapid.Prelude.{ℕ, ◌≡◌, Bool, true, false, none, arith}
use librapid.Uuid.{Uuid}
use librapid.Server.{lookup}
use librapid.Server.Clients.{IsMap, lookup-insert_any, insert-IsMap, lookup-erase, erase-IsMap}
use librapid.Server.Threads.{
  enterer, closer, stopper, EnterPoint, locking_in, inserting, Threads, Step, locks_in, inserts,
  establishes, enables, refuses, greets, unlocks_in, wakes, reads, hears_end, hears_hangup,
  disables, disable_fails, removes, remove_fails, closes, parts, locks_out, erases, unlocks_out,
  stops, sweeps_here, disables_here, disable_fails_here, removes_here, remove_fails_here,
  closes_here, parts_here, erases_here, sweeps_there, sweep_fails_there, erases_there, sweeps_none,
  stranger_locks, stranger_inserts, stranger_erases, stranger_unlocks, in_enter, in_close, in_stop,
}

-- Each part of the code the mutex guards is run by the thread that has it, and by no other.
abbrev pub IsGuarded : Threads → Type 0
IsGuarded s =
    ((in_enter s.enter ≡ true → s.holder ≡ enterer)
      × (s.holder ≡ enterer → in_enter s.enter ≡ true))
    × (((in_close s.close ≡ true → s.holder ≡ closer)
          × (s.holder ≡ closer → in_close s.close ≡ true))
        × ((in_stop s.stop ≡ true → s.holder ≡ stopper)
            × (s.holder ≡ stopper → in_stop s.stop ≡ true)))

-- Whether the thread has come past the insert.
unfoldable pub has_inserted : EnterPoint → Bool
has_inserted locking_in = false
has_inserted inserting = false
has_inserted _ = true

module _ (id : Uuid) (conn : ℕ) where
  pub Step-IsGuarded : (s t : Threads) → Step id conn s t → IsGuarded s → IsGuarded t
  unfolding in_enter in_close in_stop
  Step-IsGuarded s t (locks_in a b e) h = ground arith
  Step-IsGuarded s t (inserts a e) h = ground arith
  Step-IsGuarded s t (establishes a e) h = ground arith
  Step-IsGuarded s t (enables a b e) h = ground arith
  Step-IsGuarded s t (refuses a e) h = ground arith
  Step-IsGuarded s t (greets a e) h = ground arith
  Step-IsGuarded s t (unlocks_in a e) h = ground arith
  Step-IsGuarded s t (wakes m a b e) h = ground arith
  Step-IsGuarded s t (reads a e) h = ground arith
  Step-IsGuarded s t (hears_end a b e) h = ground arith
  Step-IsGuarded s t (hears_hangup a e) h = ground arith
  Step-IsGuarded s t (disables a b e) h = ground arith
  Step-IsGuarded s t (disable_fails a b e) h = ground arith
  Step-IsGuarded s t (removes a b e) h = ground arith
  Step-IsGuarded s t (remove_fails a b e) h = ground arith
  Step-IsGuarded s t (closes a e) h = ground arith
  Step-IsGuarded s t (parts a e) h = ground arith
  Step-IsGuarded s t (locks_out a b e) h = ground arith
  Step-IsGuarded s t (erases a e) h = ground arith
  Step-IsGuarded s t (unlocks_out a e) h = ground arith
  Step-IsGuarded s t (stops a b e) h = ground arith
  Step-IsGuarded s t (sweeps_here c a b e) h = ground arith
  Step-IsGuarded s t (disables_here a b e) h = ground arith
  Step-IsGuarded s t (disable_fails_here a b e) h = ground arith
  Step-IsGuarded s t (removes_here a b e) h = ground arith
  Step-IsGuarded s t (remove_fails_here a b e) h = ground arith
  Step-IsGuarded s t (closes_here a e) h = ground arith
  Step-IsGuarded s t (parts_here a e) h = ground arith
  Step-IsGuarded s t (erases_here a b e) h = ground arith
  Step-IsGuarded s t (sweeps_there k c a b d e) h = ground arith
  Step-IsGuarded s t (sweep_fails_there k c a b d e) h = ground arith
  Step-IsGuarded s t (erases_there k a b d e) h = ground arith
  Step-IsGuarded s t (sweeps_none a b e) h = ground arith
  Step-IsGuarded s t (stranger_locks a e) h = ground arith
  Step-IsGuarded s t (stranger_inserts k c a b e) h = ground arith
  Step-IsGuarded s t (stranger_erases k a b e) h = ground arith
  Step-IsGuarded s t (stranger_unlocks a e) h = ground arith

  -- Before the insert the id is not among the clients, and each id is there once.
  abbrev pub IsEarly : Threads → Type 0
  IsEarly s = IsMap s.clients × (has_inserted s.enter ≡ false → lookup id s.clients ≡ none)

  pub Step-IsEarly : (s t : Threads) → Step id conn s t → IsGuarded s → IsEarly s → IsEarly t
  unfolding has_inserted in_enter in_stop
  Step-IsEarly s t (locks_in a b e) g h = ground arith
  Step-IsEarly s t (inserts a e) g h = ground (arith, insert-IsMap id conn s.clients)
  Step-IsEarly s t (establishes a e) g h = ground arith
  Step-IsEarly s t (enables a b e) g h = ground arith
  Step-IsEarly s t (refuses a e) g h = ground arith
  Step-IsEarly s t (greets a e) g h = ground arith
  Step-IsEarly s t (unlocks_in a e) g h = ground arith
  Step-IsEarly s t (wakes m a b e) g h = ground arith
  Step-IsEarly s t (reads a e) g h = ground arith
  Step-IsEarly s t (hears_end a b e) g h = ground arith
  Step-IsEarly s t (hears_hangup a e) g h = ground arith
  Step-IsEarly s t (disables a b e) g h = ground arith
  Step-IsEarly s t (disable_fails a b e) g h = ground arith
  Step-IsEarly s t (removes a b e) g h = ground arith
  Step-IsEarly s t (remove_fails a b e) g h = ground arith
  Step-IsEarly s t (closes a e) g h = ground arith
  Step-IsEarly s t (parts a e) g h = ground arith
  Step-IsEarly s t (locks_out a b e) g h = ground arith
  Step-IsEarly s t (erases a e) g h =
      ground (arith, erase-IsMap id s.clients, lookup-erase id id s.clients)
  Step-IsEarly s t (unlocks_out a e) g h = ground arith
  Step-IsEarly s t (stops a b e) g h = ground arith
  Step-IsEarly s t (sweeps_here c a b e) g h = ground arith
  Step-IsEarly s t (disables_here a b e) g h = ground arith
  Step-IsEarly s t (disable_fails_here a b e) g h = ground arith
  Step-IsEarly s t (removes_here a b e) g h = ground arith
  Step-IsEarly s t (remove_fails_here a b e) g h = ground arith
  Step-IsEarly s t (closes_here a e) g h = ground arith
  Step-IsEarly s t (parts_here a e) g h = ground arith
  Step-IsEarly s t (erases_here a b e) g h =
      ground (arith, erase-IsMap id s.clients, lookup-erase id id s.clients)
  Step-IsEarly s t (sweeps_there k c a b d e) g h = ground arith
  Step-IsEarly s t (sweep_fails_there k c a b d e) g h = ground arith
  Step-IsEarly s t (erases_there k a b d e) g h =
      ground (arith, erase-IsMap k s.clients, lookup-erase k id s.clients)
  Step-IsEarly s t (sweeps_none a b e) g h = ground arith
  Step-IsEarly s t (stranger_locks a e) g h = ground arith
  Step-IsEarly s t (stranger_inserts k c a b e) g h =
      ground (arith, insert-IsMap k c s.clients, lookup-insert_any k id c s.clients)
  Step-IsEarly s t (stranger_erases k a b e) g h =
      ground (arith, erase-IsMap k s.clients, lookup-erase k id s.clients)
  Step-IsEarly s t (stranger_unlocks a e) g h = ground arith
