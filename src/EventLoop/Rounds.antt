-- ===== src/EventLoop/Rounds.antt =====
-- src/eventloop.cpp: the loop thread with handlers that throw, and after stop().
use librapid.Prelude.{ℕ, suc, ◌≡◌, some, arith}
use librapid.Kernel.{Kernel}
use librapid.Outcome.{Outcome, ok, M}
use librapid.Outcome.Laws.{Leaves}
use librapid.Channel.{Channel, ChannelHandler}
use librapid.World.{World, EventLoop, channel, event_loop, put_loop}
use librapid.Connection.{sys_write}
use librapid.EventLoop.{stop, run, stopped, wakeup}

module _ {K : Kernel} where
  -- After EventLoop::stop on a loop whose wakeup channel is there, which returns or throws when
  -- the write fails, the loop thread ends at its next test with no further round.
  pub run-stop :
      (call : ChannelHandler → M (World K) (Unit {0})) (n p : ℕ) (w : World K) (l : EventLoop)
      (c : Channel)
      → w.loops p ≡ some l
      → w.channels l.wakeup_channel ≡ some c
      → Leaves (λ w'. run call (suc n) p w' ≡ ok stopped w') (stop p w)
  unfolding run stop wakeup event_loop put_loop channel sys_write
  run-stop call n p w l c is there = ground arith
