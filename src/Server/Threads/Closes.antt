-- ===== src/Server/Threads/Closes.antt =====
-- src/tcpserver.cpp with src/tcpconnection.cpp: the two ways of a connection to its close.
use librapid.Prelude.{ℕ, ◌+◌, ◌≤◌, ◌≡◌, Bool, true, false, none, arith}
use librapid.Uuid.{Uuid}
use librapid.Uuid.Hash.{uuid_eq_iff}
use librapid.World.{disconnected}
use librapid.Server.{lookup}
use librapid.Server.Clients.{lookup-insert_any, insert-IsMap, lookup-erase, erase-IsMap}
use librapid.Server.Threads.Guard.{IsGuarded, IsEarly}
use librapid.Server.Threads.Quiet.{before_enable, IsQuiet}
use librapid.Server.Threads.{
  Registration, unknown, listed, removed, EnterPoint, entered, refused, ClosePoint, closing,
  parting, locking_out, erasing, unlocking_out, left, StopPoint, closing_here, parting_here,
  Threads, Step, locks_in, inserts, establishes, enables, refuses, greets, unlocks_in, wakes, reads,
  hears_end, hears_hangup, disables, disable_fails, removes, remove_fails, closes, parts, locks_out,
  erases, unlocks_out, stops, sweeps_here, disables_here, disable_fails_here, removes_here,
  remove_fails_here, closes_here, parts_here, erases_here, sweeps_there, sweep_fails_there,
  erases_there, sweeps_none, stranger_locks, stranger_inserts, stranger_erases, stranger_unlocks,
  in_enter, is_listed, can_disable,
}

unfoldable pub is_over : EnterPoint → Bool
is_over entered = true
is_over refused = true
is_over _ = false

-- Whether the thread of the loop has come past its write of the state, its close handler, its
-- lock and its erase.
unfoldable pub has_closed : ClosePoint → Bool
has_closed parting = true
has_closed locking_out = true
has_closed erasing = true
has_closed unlocking_out = true
has_closed left = true
has_closed _ = false

unfoldable pub has_parted : ClosePoint → Bool
has_parted locking_out = true
has_parted erasing = true
has_parted unlocking_out = true
has_parted left = true
has_parted _ = false

unfoldable pub has_locked : ClosePoint → Bool
has_locked erasing = true
has_locked unlocking_out = true
has_locked left = true
has_locked _ = false

unfoldable pub has_erased : ClosePoint → Bool
has_erased unlocking_out = true
has_erased left = true
has_erased _ = false

-- The channels that were taken away, and the calls of the close handler that this still brings.
unfoldable pub removals : Registration → ℕ
removals unknown = 0
removals (listed m) = 0
removals removed = 1

unfoldable pub owed : ClosePoint → ℕ
owed closing = 1
owed parting = 1
owed _ = 0

unfoldable pub owed_here : StopPoint → ℕ
owed_here closing_here = 1
owed_here parting_here = 1
owed_here _ = 0

module _ (id : Uuid) (conn : ℕ) where
  abbrev pub IsLate : Threads → Type 0
  IsLate s =
      (has_closed s.close ≡ true → s.state ≡ disconnected)
      × (has_erased s.close ≡ true → lookup id s.clients ≡ none)
      × (has_locked s.close ≡ true → is_over s.enter ≡ true)

  pub Step-IsLate :
      (s t : Threads)
      → Step id conn s t
      → IsGuarded s
      → IsEarly id conn s
      → IsQuiet id conn s
      → IsLate s
      → IsLate t
  unfolding before_enable has_closed has_erased has_locked is_over in_enter
  Step-IsLate s t (locks_in a b e) g y q h = ground arith
  Step-IsLate s t (inserts a e) g y q h = ground arith
  Step-IsLate s t (establishes a e) g y q h = ground arith
  Step-IsLate s t (enables a b e) g y q h = ground arith
  Step-IsLate s t (refuses a e) g y q h = ground arith
  Step-IsLate s t (greets a e) g y q h = ground arith
  Step-IsLate s t (unlocks_in a e) g y q h = ground arith
  Step-IsLate s t (wakes m a b e) g y q h = ground arith
  Step-IsLate s t (reads a e) g y q h = ground arith
  Step-IsLate s t (hears_end a b e) g y q h = ground arith
  Step-IsLate s t (hears_hangup a e) g y q h = ground arith
  Step-IsLate s t (disables a b e) g y q h = ground arith
  Step-IsLate s t (disable_fails a b e) g y q h = ground arith
  Step-IsLate s t (removes a b e) g y q h = ground arith
  Step-IsLate s t (remove_fails a b e) g y q h = ground arith
  Step-IsLate s t (closes a e) g y q h = ground arith
  Step-IsLate s t (parts a e) g y q h = ground arith
  Step-IsLate s t (locks_out a b e) g y q h = ground arith
  Step-IsLate s t (erases a e) g y q h =
      ground (arith, lookup-erase id id s.clients, uuid_eq_iff id id)
  Step-IsLate s t (unlocks_out a e) g y q h = ground arith
  Step-IsLate s t (stops a b e) g y q h = ground arith
  Step-IsLate s t (sweeps_here c a b e) g y q h = ground arith
  Step-IsLate s t (disables_here a b e) g y q h = ground arith
  Step-IsLate s t (disable_fails_here a b e) g y q h = ground arith
  Step-IsLate s t (removes_here a b e) g y q h = ground arith
  Step-IsLate s t (remove_fails_here a b e) g y q h = ground arith
  Step-IsLate s t (closes_here a e) g y q h = ground arith
  Step-IsLate s t (parts_here a e) g y q h = ground arith
  Step-IsLate s t (erases_here a b e) g y q h =
      ground (arith, erase-IsMap id s.clients, lookup-erase id id s.clients)
  Step-IsLate s t (sweeps_there k c a b d e) g y q h = ground arith
  Step-IsLate s t (sweep_fails_there k c a b d e) g y q h = ground arith
  Step-IsLate s t (erases_there k a b d e) g y q h =
      ground (arith, erase-IsMap k s.clients, lookup-erase k id s.clients)
  Step-IsLate s t (sweeps_none a b e) g y q h = ground arith
  Step-IsLate s t (stranger_locks a e) g y q h = ground arith
  Step-IsLate s t (stranger_inserts k c a b e) g y q h =
      ground (arith, insert-IsMap k c s.clients, lookup-insert_any k id c s.clients)
  Step-IsLate s t (stranger_erases k a b e) g y q h =
      ground (arith, erase-IsMap k s.clients, lookup-erase k id s.clients)
  Step-IsLate s t (stranger_unlocks a e) g y q h = ground arith

  -- Each run of the close handler, and each that is still to come, has the one removal of the
  -- channel before it.
  abbrev pub IsParted : Threads → Type 0
  IsParted s =
      (s.parted + (owed s.close + owed_here s.stop) ≤ removals s.registration)
      × (has_parted s.close ≡ true → 1 ≤ s.parted)

  pub Step-IsParted : (s t : Threads) → Step id conn s t → IsParted s → IsParted t
  unfolding owed owed_here removals has_parted is_listed can_disable
  Step-IsParted s t (locks_in a b e) h = ground arith
  Step-IsParted s t (inserts a e) h = ground arith
  Step-IsParted s t (establishes a e) h = ground arith
  Step-IsParted s t (enables a b e) h = ground arith
  Step-IsParted s t (refuses a e) h = ground arith
  Step-IsParted s t (greets a e) h = ground arith
  Step-IsParted s t (unlocks_in a e) h = ground arith
  Step-IsParted s t (wakes m a b e) h = ground arith
  Step-IsParted s t (reads a e) h = ground arith
  Step-IsParted s t (hears_end a b e) h = ground arith
  Step-IsParted s t (hears_hangup a e) h = ground arith
  Step-IsParted s t (disables a b e) h = ground arith
  Step-IsParted s t (disable_fails a b e) h = ground arith
  Step-IsParted s t (removes a b e) h = ground arith
  Step-IsParted s t (remove_fails a b e) h = ground arith
  Step-IsParted s t (closes a e) h = ground arith
  Step-IsParted s t (parts a e) h = ground arith
  Step-IsParted s t (locks_out a b e) h = ground arith
  Step-IsParted s t (erases a e) h = ground arith
  Step-IsParted s t (unlocks_out a e) h = ground arith
  Step-IsParted s t (stops a b e) h = ground arith
  Step-IsParted s t (sweeps_here c a b e) h = ground arith
  Step-IsParted s t (disables_here a b e) h = ground arith
  Step-IsParted s t (disable_fails_here a b e) h = ground arith
  Step-IsParted s t (removes_here a b e) h = ground arith
  Step-IsParted s t (remove_fails_here a b e) h = ground arith
  Step-IsParted s t (closes_here a e) h = ground arith
  Step-IsParted s t (parts_here a e) h = ground arith
  Step-IsParted s t (erases_here a b e) h = ground arith
  Step-IsParted s t (sweeps_there k c a b d e) h = ground arith
  Step-IsParted s t (sweep_fails_there k c a b d e) h = ground arith
  Step-IsParted s t (erases_there k a b d e) h = ground arith
  Step-IsParted s t (sweeps_none a b e) h = ground arith
  Step-IsParted s t (stranger_locks a e) h = ground arith
  Step-IsParted s t (stranger_inserts k c a b e) h = ground arith
  Step-IsParted s t (stranger_erases k a b e) h = ground arith
  Step-IsParted s t (stranger_unlocks a e) h = ground arith
