-- ===== src/EventLoop/Threads/Ended.antt =====
-- src/eventloop.cpp: the end of the loop thread after stop().
use librapid.Prelude.{
  ℕ, zero, suc, ◌+◌, ◌<◌, ◌≡◌, ◌≢◌, refl, ap, subst, ◌∙◌, ◌⊎◌, inl, inr, true, arith,
}
use librapid.EventLoop.Threads.{
  LoopPoint, testing, polling, handling, ended, before_flag, returned, Threads, Move, tests_on,
  tests_out, polls_wakeup, polls_other, interrupted, breaks, handles, handled, flags, wakes,
  write_fails, Step, moves, arrives, Reach, here, next, Inevitable, now, later,
}

-- A stop() that has returned has set the flag and left the descriptor readable, and one that has
-- come to its write has set the flag.
abbrev pub IsFlagged : Threads → Type 0
IsFlagged s = (s.stopper ≢ before_flag → s.quit ≡ true) × (s.stopper ≡ returned → 0 < s.counter)

Move-IsFlagged : (s u : Threads) → Move s u → IsFlagged s → IsFlagged u
Move-IsFlagged s u (tests_on a b e) h = ground arith
Move-IsFlagged s u (tests_out a b e) h = ground arith
Move-IsFlagged s u (polls_wakeup n a b e) h = ground arith
Move-IsFlagged s u (polls_other n a b e) h = ground arith
Move-IsFlagged s u (interrupted k a b e) h = ground arith
Move-IsFlagged s u (breaks a b e) h = ground arith
Move-IsFlagged s u (handles n r a b e) h = ground arith
Move-IsFlagged s u (handled a e) h = ground arith
Move-IsFlagged s u (flags a e) h = ground arith
Move-IsFlagged s u (wakes a e) h = ground arith
Move-IsFlagged s u (write_fails a e) h = ground arith

Step-IsFlagged : (s u : Threads) → Step s u → IsFlagged s → IsFlagged u
Step-IsFlagged s u (moves m) h = Move-IsFlagged s u m h
Step-IsFlagged s u (arrives k a e) h = ground arith

Reach-IsFlagged : {s : Threads} → Reach s → IsFlagged s
Reach-IsFlagged (here r a g b) = ((λ h. ground arith), λ h. ground arith)
Reach-IsFlagged (next {s} {t} r st) = Step-IsFlagged s t st (Reach-IsFlagged r)

abbrev pub HasEnded : Threads → Type 0
HasEnded s = s.loop ≡ ended

-- stop() has returned.
abbrev Stopped : Threads → Type 0
Stopped s = (s.stopper ≡ returned) × (s.quit ≡ true) × (0 < s.counter)

Move-Stopped : (s u : Threads) → Move s u → Stopped s → Stopped u × (u.arrivals ≡ s.arrivals)
Move-Stopped s u (tests_on a b e) h = ground arith
Move-Stopped s u (tests_out a b e) h = ground arith
Move-Stopped s u (polls_wakeup n a b e) h = ground arith
Move-Stopped s u (polls_other n a b e) h = ground arith
Move-Stopped s u (interrupted k a b e) h = ground arith
Move-Stopped s u (breaks a b e) h = ground arith
Move-Stopped s u (handles n r a b e) h = ground arith
Move-Stopped s u (handled a e) h = ground arith
Move-Stopped s u (flags a e) h = ground arith
Move-Stopped s u (wakes a e) h = ground arith
Move-Stopped s u (write_fails a e) h = ground arith

move_testing : (s u : Threads) → Move s u → Stopped s → s.loop ≡ testing → u.loop ≡ ended
move_testing s u (tests_on a b e) h l = ground arith
move_testing s u (tests_out a b e) h l = ground arith
move_testing s u (polls_wakeup n a b e) h l = ground arith
move_testing s u (polls_other n a b e) h l = ground arith
move_testing s u (interrupted k a b e) h l = ground arith
move_testing s u (breaks a b e) h l = ground arith
move_testing s u (handles n r a b e) h l = ground arith
move_testing s u (handled a e) h l = ground arith
move_testing s u (flags a e) h l = ground arith
move_testing s u (wakes a e) h l = ground arith
move_testing s u (write_fails a e) h l = ground arith

move_handling :
    (m : ℕ) (s u : Threads) → Move s u → Stopped s → s.loop ≡ handling (suc m) → u.loop ≡ handling m
move_handling m s u (tests_on a b e) h l = ground arith
move_handling m s u (tests_out a b e) h l = ground arith
move_handling m s u (polls_wakeup n a b e) h l = ground arith
move_handling m s u (polls_other n a b e) h l = ground arith
move_handling m s u (interrupted k a b e) h l = ground arith
move_handling m s u (breaks a b e) h l = ground arith
move_handling m s u (handles n r a b e) h l = ground arith
move_handling m s u (handled a e) h l = ground arith
move_handling m s u (flags a e) h l = ground arith
move_handling m s u (wakes a e) h l = ground arith
move_handling m s u (write_fails a e) h l = ground arith

move_handled : (s u : Threads) → Move s u → Stopped s → s.loop ≡ handling zero → u.loop ≡ testing
move_handled s u (tests_on a b e) h l = ground arith
move_handled s u (tests_out a b e) h l = ground arith
move_handled s u (polls_wakeup n a b e) h l = ground arith
move_handled s u (polls_other n a b e) h l = ground arith
move_handled s u (interrupted k a b e) h l = ground arith
move_handled s u (breaks a b e) h l = ground arith
move_handled s u (handles n r a b e) h l = ground arith
move_handled s u (handled a e) h l = ground arith
move_handled s u (flags a e) h l = ground arith
move_handled s u (wakes a e) h l = ground arith
move_handled s u (write_fails a e) h l = ground arith

-- Where a poll leads.
abbrev Polled : LoopPoint → Type 0
Polled l = (l ≡ testing) ⊎ ((l ≡ ended) ⊎ ((n : ℕ) × (l ≡ handling n)))

move_polling : (s u : Threads) → Move s u → Stopped s → s.loop ≡ polling → Polled u.loop
move_polling s u (tests_on a b e) h l = absurd (ground arith)
move_polling s u (tests_out a b e) h l = absurd (ground arith)
move_polling s u (polls_wakeup n a b e) h l = inr (inr (suc n, ap (λ (t : Threads). t.loop) e))
move_polling s u (polls_other n a b e) h l = inr (inr (suc n, ap (λ (t : Threads). t.loop) e))
move_polling s u (interrupted k a b e) h l = inl (ap (λ (t : Threads). t.loop) e)
move_polling s u (breaks a b e) h l = inr (inl (ap (λ (t : Threads). t.loop) e))
move_polling s u (handles n r a b e) h l = absurd (ground arith)
move_polling s u (handled a e) h l = absurd (ground arith)
move_polling s u (flags a e) h l = absurd (ground arith)
move_polling s u (wakes a e) h l = absurd (ground arith)
move_polling s u (write_fails a e) h l = absurd (ground arith)

abbrev Ends : Threads → Type 0
Ends s = Inevitable HasEnded s

arrives-Stopped :
    (k : ℕ) (s u : Threads)
    → s.arrivals ≡ suc k
    → u ≡ record s { arrivals = k; ready = s.ready + 1 }
    → Stopped s
    → Stopped u × (u.arrivals < s.arrivals)
arrives-Stopped k s u a e h = ground arith

-- The loop ends once it does with fewer events to come.
module _ (n : ℕ) (fewer : (u : Threads) → Stopped u → u.arrivals < n → Ends u) where
  abbrev Here : Threads → Type 0
  Here s = Stopped s × (s.arrivals ≡ n)

  -- After a step, if it does so after one of a thread.
  after :
      (s u : Threads) → Here s → ((v : Threads) → Move s v → Here v → Ends v) → Step s u → Ends u
  after s u h k (moves m) = let f = Move-Stopped s u m h.0 in k u m (f.0, f.1 ∙ h.1)
  after s u h k (arrives j a e) =
      let f = arrives-Stopped j s u a e h.0 in fewer u f.0 (subst (λ m. u.arrivals < m) h.1 f.1)

  Ends-testing : (s : Threads) → Here s → s.loop ≡ testing → Ends s
  Ends-testing s h l =
      later s (record s { loop = ended }) (tests_out l h.0.1 refl)
        λ u. after s u h λ v m g. now v (move_testing s v m h.0 l)

  Ends-handling : (m : ℕ) (s : Threads) → Here s → s.loop ≡ handling m → Ends s
  Ends-handling zero s h l =
      later s (record s { loop = testing }) (handled l refl)
        λ u. after s u h λ v m g. Ends-testing v g (move_handled s v m h.0 l)
  Ends-handling (suc m) s h l =
      later s (record s { ready = 0; loop = handling m }) (handles m 0 l (omega arith) refl)
        λ u. after s u h λ v mv g. Ends-handling m v g (move_handling m s v mv h.0 l)

  Ends-polled : (s : Threads) → Here s → Polled s.loop → Ends s
  Ends-polled s h (inl l) = Ends-testing s h l
  Ends-polled s h (inr (inl l)) = now s l
  Ends-polled s h (inr (inr (m, l))) = Ends-handling m s h l

  -- The counter of the eventfd lets epoll_wait come back.
  Ends-polling : (s : Threads) → Here s → s.loop ≡ polling → Ends s
  Ends-polling s h l =
      later s (record s { loop = handling 1 }) (polls_wakeup 0 l h.0.2 refl)
        λ u. after s u h λ v m g. Ends-polled v g (move_polling s v m h.0 l)

  Ends-stopped : (s : Threads) → Here s → (s.loop ≡ polling) ⊎ Polled s.loop → Ends s
  Ends-stopped s h (inl l) = Ends-polling s h l
  Ends-stopped s h (inr l) = Ends-polled s h l

LoopPoint-cases : (l : LoopPoint) → (l ≡ polling) ⊎ Polled l
LoopPoint-cases testing = inr (inl refl)
LoopPoint-cases polling = inl refl
LoopPoint-cases (handling n) = inr (inr (inr (n, refl)))
LoopPoint-cases ended = inr (inr (inl refl))

Ends-below : (n : ℕ) (s : Threads) → Stopped s → s.arrivals < n → Ends s
Ends-below zero s h few = absurd (omega arith)
Ends-below (suc n) s h few =
    Ends-stopped s.arrivals (λ u g less. Ends-below n u g (omega arith)) s (h, refl)
      (LoopPoint-cases s.loop)

-- Once stop() has returned, the loop thread comes to its end in every interleaving of the steps
-- of the two threads and the events that come to its descriptors, where no more than some number
-- of events is still to come and the closure of each event comes back; it needs no event for
-- this, for the descriptor of the wakeup is readable and epoll_wait comes back.
pub returned-Inevitable : (s : Threads) → Reach s → s.stopper ≡ returned → Inevitable HasEnded s
returned-Inevitable s r h =
    let (flag, woken) = Reach-IsFlagged r in
    let q : s.quit ≡ true = flag (λ e. ground arith) in
    Ends-below (suc s.arrivals) s (h, q, woken h) (omega arith)
