-- ===== src/Server/Threads/Starved.antt =====
-- src/tcpserver.cpp: stop() while connections are open, beside the threads of the loops.
use librapid.Prelude.{ℕ, ◌≡◌, ◌⊎◌, inl, inr, ◌∙◌, refl, Bool, true, false, arith}
use librapid.Uuid.{Uuid}
use librapid.Server.Clients.{IsMap}
use librapid.Server.Threads.Guard.{IsGuarded}
use librapid.Server.Threads.Safety.{Steps-IsGuarded}
use librapid.Server.Threads.{
  stopper, locking_in, ClosePoint, serving, woken, disabling, removing, closing, parting,
  locking_out, stuck_here, stuck_there, Threads, Step, Steps, IsFresh, none_yet, one_more, locks_in,
  inserts, establishes, enables, refuses, greets, unlocks_in, wakes, reads, hears_end, hears_hangup,
  disables, disable_fails, removes, remove_fails, closes, parts, locks_out, erases, unlocks_out,
  stops, sweeps_here, disables_here, disable_fails_here, removes_here, remove_fails_here,
  closes_here, parts_here, erases_here, sweeps_there, sweep_fails_there, erases_there, sweeps_none,
  stranger_locks, stranger_inserts, stranger_erases, stranger_unlocks, in_enter, in_close, in_stop,
}

-- stop() waits in the close handler of a connection for the mutex that it has itself.
abbrev pub IsStuck : Threads → Type 0
IsStuck s = (s.stop ≡ stuck_here) ⊎ ((k : Uuid) × (s.stop ≡ stuck_there k))

-- Before its lock of the mutex.
unfoldable pub waits_out : ClosePoint → Bool
waits_out serving = true
waits_out woken = true
waits_out disabling = true
waits_out removing = true
waits_out closing = true
waits_out parting = true
waits_out locking_out = true
waits_out _ = false

abbrev IsAlone : Threads → Type 0
IsAlone s =
    IsStuck s × (s.holder ≡ stopper) × (in_enter s.enter ≡ false) × (in_close s.close ≡ false)

-- No thread comes past its lock any more, and the clients stay what they are.
abbrev pub IsHalted : Threads → Threads → Type 0
IsHalted s t =
    (t.stop ≡ s.stop)
    × (t.holder ≡ stopper)
    × (t.clients ≡ s.clients)
    × (s.enter ≡ locking_in → t.enter ≡ locking_in)
    × (waits_out s.close ≡ true → waits_out t.close ≡ true)

module _ (id : Uuid) (conn : ℕ) where
  Step-IsAlone : (s t : Threads) → Step id conn s t → IsAlone s → IsAlone t
  unfolding in_enter in_close
  Step-IsAlone s t (locks_in a b e) h = ground arith
  Step-IsAlone s t (inserts a e) h = ground arith
  Step-IsAlone s t (establishes a e) h = ground arith
  Step-IsAlone s t (enables a b e) h = ground arith
  Step-IsAlone s t (refuses a e) h = ground arith
  Step-IsAlone s t (greets a e) h = ground arith
  Step-IsAlone s t (unlocks_in a e) h = ground arith
  Step-IsAlone s t (wakes m a b e) h = ground arith
  Step-IsAlone s t (reads a e) h = ground arith
  Step-IsAlone s t (hears_end a b e) h = ground arith
  Step-IsAlone s t (hears_hangup a e) h = ground arith
  Step-IsAlone s t (disables a b e) h = ground arith
  Step-IsAlone s t (disable_fails a b e) h = ground arith
  Step-IsAlone s t (removes a b e) h = ground arith
  Step-IsAlone s t (remove_fails a b e) h = ground arith
  Step-IsAlone s t (closes a e) h = ground arith
  Step-IsAlone s t (parts a e) h = ground arith
  Step-IsAlone s t (locks_out a b e) h = ground arith
  Step-IsAlone s t (erases a e) h = ground arith
  Step-IsAlone s t (unlocks_out a e) h = ground arith
  Step-IsAlone s t (stops a b e) h = ground arith
  Step-IsAlone s t (sweeps_here c a b e) h = ground arith
  Step-IsAlone s t (disables_here a b e) h = ground arith
  Step-IsAlone s t (disable_fails_here a b e) h = ground arith
  Step-IsAlone s t (removes_here a b e) h = ground arith
  Step-IsAlone s t (remove_fails_here a b e) h = ground arith
  Step-IsAlone s t (closes_here a e) h = ground arith
  Step-IsAlone s t (parts_here a e) h = ground arith
  Step-IsAlone s t (erases_here a b e) h = ground arith
  Step-IsAlone s t (sweeps_there k c a b d e) h = ground arith
  Step-IsAlone s t (sweep_fails_there k c a b d e) h = ground arith
  Step-IsAlone s t (erases_there k a b d e) h = ground arith
  Step-IsAlone s t (sweeps_none a b e) h = ground arith
  Step-IsAlone s t (stranger_locks a e) h = ground arith
  Step-IsAlone s t (stranger_inserts k c a b e) h = ground arith
  Step-IsAlone s t (stranger_erases k a b e) h = ground arith
  Step-IsAlone s t (stranger_unlocks a e) h = ground arith

  Step-IsHalted : (s t : Threads) → Step id conn s t → IsAlone s → IsHalted s t
  unfolding in_enter in_close waits_out
  Step-IsHalted s t (locks_in a b e) h = ground arith
  Step-IsHalted s t (inserts a e) h = ground arith
  Step-IsHalted s t (establishes a e) h = ground arith
  Step-IsHalted s t (enables a b e) h = ground arith
  Step-IsHalted s t (refuses a e) h = ground arith
  Step-IsHalted s t (greets a e) h = ground arith
  Step-IsHalted s t (unlocks_in a e) h = ground arith
  Step-IsHalted s t (wakes m a b e) h = ground arith
  Step-IsHalted s t (reads a e) h = ground arith
  Step-IsHalted s t (hears_end a b e) h = ground arith
  Step-IsHalted s t (hears_hangup a e) h = ground arith
  Step-IsHalted s t (disables a b e) h = ground arith
  Step-IsHalted s t (disable_fails a b e) h = ground arith
  Step-IsHalted s t (removes a b e) h = ground arith
  Step-IsHalted s t (remove_fails a b e) h = ground arith
  Step-IsHalted s t (closes a e) h = ground arith
  Step-IsHalted s t (parts a e) h = ground arith
  Step-IsHalted s t (locks_out a b e) h = ground arith
  Step-IsHalted s t (erases a e) h = ground arith
  Step-IsHalted s t (unlocks_out a e) h = ground arith
  Step-IsHalted s t (stops a b e) h = ground arith
  Step-IsHalted s t (sweeps_here c a b e) h = ground arith
  Step-IsHalted s t (disables_here a b e) h = ground arith
  Step-IsHalted s t (disable_fails_here a b e) h = ground arith
  Step-IsHalted s t (removes_here a b e) h = ground arith
  Step-IsHalted s t (remove_fails_here a b e) h = ground arith
  Step-IsHalted s t (closes_here a e) h = ground arith
  Step-IsHalted s t (parts_here a e) h = ground arith
  Step-IsHalted s t (erases_here a b e) h = ground arith
  Step-IsHalted s t (sweeps_there k c a b d e) h = ground arith
  Step-IsHalted s t (sweep_fails_there k c a b d e) h = ground arith
  Step-IsHalted s t (erases_there k a b d e) h = ground arith
  Step-IsHalted s t (sweeps_none a b e) h = ground arith
  Step-IsHalted s t (stranger_locks a e) h = ground arith
  Step-IsHalted s t (stranger_inserts k c a b e) h = ground arith
  Step-IsHalted s t (stranger_erases k a b e) h = ground arith
  Step-IsHalted s t (stranger_unlocks a e) h = ground arith

  Steps-IsAlone : {s t : Threads} → Steps id conn s t → IsAlone s → IsAlone t
  Steps-IsAlone none_yet h = h
  Steps-IsAlone (one_more {t} {u} r st) h = Step-IsAlone t u st (Steps-IsAlone r h)

  Steps-IsHalted : {s t : Threads} → Steps id conn s t → IsAlone s → IsHalted s t
  Steps-IsHalted none_yet (w, o, _, _) = (refl, o, refl, (λ e. e), λ e. e)
  Steps-IsHalted (one_more {t} {u} r st) h =
      let (w, _, c, e, l) = Steps-IsHalted r h in
      let (w', o, c', e', l') = Step-IsHalted t u st (Steps-IsAlone r h) in
      (w' ∙ w, o, c' ∙ c, (λ p. e' (e p)), λ p. l' (l p))

  Stuck-IsAlone : (s : Threads) → IsGuarded s → IsStuck s → IsAlone s
  unfolding in_stop
  Stuck-IsAlone s g (inl w) = (inl w, ground arith, ground arith, ground arith)
  Stuck-IsAlone s g (inr (k, w)) = (inr (k, w), ground arith, ground arith, ground arith)

  -- Once stop() stands before the lock_guard in a close handler that it calls itself, in every
  -- interleaving of the threads from a new connection on, the mutex never comes to be free for
  -- it, so that it stays there: the clients stay what they are, a connection that has not come
  -- to its insert does not get there, and a close that has not come to its erase does not
  -- either.
  pub stuck-IsHalted :
      (r s t : Threads)
      → IsFresh id conn r
      → IsMap r.clients
      → Steps id conn r s
      → IsStuck s
      → Steps id conn s t
      → IsHalted s t
  stuck-IsHalted r s t f m before w after =
      Steps-IsHalted after (Stuck-IsAlone s (Steps-IsGuarded id conn r s f m before) w)
