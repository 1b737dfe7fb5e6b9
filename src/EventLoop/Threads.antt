-- ===== src/EventLoop/Threads.antt =====
-- src/eventloop.cpp: the loop thread of start() and a thread that calls stop(), one atomic step at a
-- time. The wakeup descriptor has no read handler, so its counter is never taken back.
pub mod Ended
use librapid.Prelude.{ℕ, zero, suc, ◌+◌, ◌<◌, ◌≤◌, ◌≡◌, Bool, true, false}

-- Where the loop thread stands.
pub data LoopPoint : Type 0 where
  -- before `while (!quit_)`
  testing : LoopPoint
  -- in epoll_wait
  polling : LoopPoint
  -- in the for over the active channels, with so many to go
  handling : ℕ → LoopPoint
  -- the lambda has returned
  ended : LoopPoint

-- Where the thread that stops the loop stands.
pub data StopPoint : Type 0 where
  -- before `quit_ = true`
  before_flag : StopPoint
  -- before the write of wakeup()
  before_write : StopPoint
  -- stop() has returned
  returned : StopPoint
  -- the write failed, and stop() has thrown
  failed_write : StopPoint

pub record Threads : Type 0 where
  pub quit : Bool
  pub counter : ℕ  -- of the eventfd
  pub ready : ℕ  -- other descriptors with an event
  pub arrivals : ℕ  -- events that are still to come
  pub signals : ℕ  -- signals that are still to come
  pub broken : Bool  -- epoll_wait fails
  pub loop : LoopPoint
  pub stopper : StopPoint

-- One step of either thread. epoll_wait blocks until a descriptor has an event or a signal comes,
-- if it does not fail; how many channels it finds then, how many of them have an event after their
-- closure, and whether the write fails, is left to the system.
pub data Move (s : Threads) (t : Threads) : Type 0 where
  tests_on : s.loop ≡ testing → s.quit ≡ false → t ≡ record s { loop = polling } → Move s t
  tests_out : s.loop ≡ testing → s.quit ≡ true → t ≡ record s { loop = ended } → Move s t
  polls_wakeup :
      (n : ℕ)
      → s.loop ≡ polling
      → 0 < s.counter
      → t ≡ record s { loop = handling (suc n) }
      → Move s t
  polls_other :
      (n : ℕ) → s.loop ≡ polling → 0 < s.ready → t ≡ record s { loop = handling (suc n) } → Move s t
  interrupted :
      (k : ℕ)
      → s.loop ≡ polling
      → s.signals ≡ suc k
      → t ≡ record s { signals = k; loop = testing }
      → Move s t
  breaks : s.loop ≡ polling → s.broken ≡ true → t ≡ record s { loop = ended } → Move s t
  handles :
      (n r : ℕ)
      → s.loop ≡ handling (suc n)
      → r ≤ s.ready
      → t ≡ record s { ready = r; loop = handling n }
      → Move s t
  handled : s.loop ≡ handling zero → t ≡ record s { loop = testing } → Move s t
  flags : s.stopper ≡ before_flag → t ≡ record s { quit = true; stopper = before_write } → Move s t
  wakes :
      s.stopper ≡ before_write
      → t ≡ record s { counter = s.counter + 1; stopper = returned }
      → Move s t
  write_fails : s.stopper ≡ before_write → t ≡ record s { stopper = failed_write } → Move s t

-- A step of a thread, or an event that comes to a descriptor.
pub data Step (s : Threads) (t : Threads) : Type 0 where
  moves : Move s t → Step s t
  arrives :
      (k : ℕ) → s.arrivals ≡ suc k → t ≡ record s { arrivals = k; ready = s.ready + 1 } → Step s t

-- start() has cleared the flag and made the thread.
abbrev pub started : (ready arrivals signals : ℕ) → Bool → Threads
started ready arrivals signals broken = record {
  quit = false;
  counter = 0;
  ready = ready;
  arrivals = arrivals;
  signals = signals;
  broken = broken;
  loop = testing;
  stopper = before_flag;
}

pub data Reach : Threads → Type 0 where
  here :
      (ready arrivals signals : ℕ) (broken : Bool) → Reach (started ready arrivals signals broken)
  next : {s t : Threads} → Reach s → Step s t → Reach t

-- Whatever the scheduler does, P comes about: it holds, or some step of a thread can be taken and
-- after each step that can it comes about.
pub data Inevitable (P : Threads → Type 0) : Threads → Type 0 where
  now : (s : Threads) → P s → Inevitable P s
  later : (s t : Threads) → Move s t → ((u : Threads) → Step s u → Inevitable P u) → Inevitable P s
