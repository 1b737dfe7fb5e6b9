-- ===== src/Tests/Stops.antt =====
-- A run of the two threads up to the return of stop().
use librapid.Prelude.{refl, true, false}
use librapid.EventLoop.Threads.{
  Threads, polling, before_write, returned, started, Reach, here, next, moves, tests_on, flags,
  wakes, Inevitable,
}
use librapid.EventLoop.Threads.Ended.{HasEnded, returned-Inevitable}

-- One event and one signal are still to come.
abbrev begun : Threads
begun = started 0 1 1 false

-- The loop waits in epoll_wait, and stop() has returned.
abbrev woken : Threads
woken = record begun { quit = true; counter = 1; loop = polling; stopper = returned }

woken-Reach : Reach woken
woken-Reach =
    next {s = record begun { quit = true; loop = polling; stopper = before_write }}
      (next {s = record begun { loop = polling }}
        (next (here 0 1 1 false) (moves (tests_on refl refl refl))) (moves (flags refl refl)))
      (moves (wakes refl refl))

returned-Inevitable_example : Inevitable HasEnded woken
returned-Inevitable_example = returned-Inevitable woken woken-Reach refl
