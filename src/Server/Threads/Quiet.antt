-- ===== src/Server/Threads/Quiet.antt =====
-- src/tcpserver.cpp with src/tcpconnection.cpp: a connection before its enableRead.
use librapid.Prelude.{ℕ, ◌≡◌, Bool, true, false, arith}
use librapid.Uuid.{Uuid}
use librapid.Server.Threads.Guard.{has_inserted, IsGuarded, IsEarly}
use librapid.Server.Threads.{
  EnterPoint, unknown, locking_in, inserting, establishing, enabling, unlocking_in, entered,
  serving, StopPoint, disabling_here, removing_here, closing_here, parting_here, Threads, Step,
  locks_in, inserts, establishes, enables, refuses, greets, unlocks_in, wakes, reads, hears_end,
  hears_hangup, disables, disable_fails, removes, remove_fails, closes, parts, locks_out, erases,
  unlocks_out, stops, sweeps_here, disables_here, disable_fails_here, removes_here,
  remove_fails_here, closes_here, parts_here, erases_here, sweeps_there, sweep_fails_there,
  erases_there, sweeps_none, stranger_locks, stranger_inserts, stranger_erases, stranger_unlocks,
  in_enter, in_stop, is_listed, can_disable,
}

-- Whether the thread has not come past the enableRead.
unfoldable pub before_enable : EnterPoint → Bool
before_enable locking_in = true
before_enable inserting = true
before_enable establishing = true
before_enable enabling = true
before_enable _ = false

unfoldable pub greetings : EnterPoint → ℕ
greetings unlocking_in = 1
greetings entered = 1
greetings _ = 0

-- Whether stop() is at work on the channel of this connection.
unfoldable pub works_here : StopPoint → Bool
works_here disabling_here = true
works_here removing_here = true
works_here closing_here = true
works_here parting_here = true
works_here _ = false

module _ (id : Uuid) (conn : ℕ) where
  -- Before the enableRead epoll does not know the channel, the loop hears nothing of it and stop()
  -- is not at work on it; the connected handler has run as often as its thread has come past it.
  abbrev pub IsQuiet : Threads → Type 0
  IsQuiet s =
      (before_enable s.enter ≡ true
        → (s.registration ≡ unknown) × (s.close ≡ serving) × (works_here s.stop ≡ false))
      × (s.greeted ≡ greetings s.enter)

  pub Step-IsQuiet :
      (s t : Threads) → Step id conn s t → IsGuarded s → IsEarly id conn s → IsQuiet s → IsQuiet t
  unfolding before_enable greetings works_here has_inserted in_enter in_stop is_listed can_disable
  Step-IsQuiet s t (locks_in a b e) g y h = ground arith
  Step-IsQuiet s t (inserts a e) g y h = ground arith
  Step-IsQuiet s t (establishes a e) g y h = ground arith
  Step-IsQuiet s t (enables a b e) g y h = ground arith
  Step-IsQuiet s t (refuses a e) g y h = ground arith
  Step-IsQuiet s t (greets a e) g y h = ground arith
  Step-IsQuiet s t (unlocks_in a e) g y h = ground arith
  Step-IsQuiet s t (wakes m a b e) g y h = ground arith
  Step-IsQuiet s t (reads a e) g y h = ground arith
  Step-IsQuiet s t (hears_end a b e) g y h = ground arith
  Step-IsQuiet s t (hears_hangup a e) g y h = ground arith
  Step-IsQuiet s t (disables a b e) g y h = ground arith
  Step-IsQuiet s t (disable_fails a b e) g y h = ground arith
  Step-IsQuiet s t (removes a b e) g y h = ground arith
  Step-IsQuiet s t (remove_fails a b e) g y h = ground arith
  Step-IsQuiet s t (closes a e) g y h = ground arith
  Step-IsQuiet s t (parts a e) g y h = ground arith
  Step-IsQuiet s t (locks_out a b e) g y h = ground arith
  Step-IsQuiet s t (erases a e) g y h = ground arith
  Step-IsQuiet s t (unlocks_out a e) g y h = ground arith
  Step-IsQuiet s t (stops a b e) g y h = ground arith
  Step-IsQuiet s t (sweeps_here c a b e) g y h = ground arith
  Step-IsQuiet s t (disables_here a b e) g y h = ground arith
  Step-IsQuiet s t (disable_fails_here a b e) g y h = ground arith
  Step-IsQuiet s t (removes_here a b e) g y h = ground arith
  Step-IsQuiet s t (remove_fails_here a b e) g y h = ground arith
  Step-IsQuiet s t (closes_here a e) g y h = ground arith
  Step-IsQuiet s t (parts_here a e) g y h = ground arith
  Step-IsQuiet s t (erases_here a b e) g y h = ground arith
  Step-IsQuiet s t (sweeps_there k c a b d e) g y h = ground arith
  Step-IsQuiet s t (sweep_fails_there k c a b d e) g y h = ground arith
  Step-IsQuiet s t (erases_there k a b d e) g y h = ground arith
  Step-IsQuiet s t (sweeps_none a b e) g y h = ground arith
  Step-IsQuiet s t (stranger_locks a e) g y h = ground arith
  Step-IsQuiet s t (stranger_inserts k c a b e) g y h = ground arith
  Step-IsQuiet s t (stranger_erases k a b e) g y h = ground arith
  Step-IsQuiet s t (stranger_unlocks a e) g y h = ground arith
