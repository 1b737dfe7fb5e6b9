-- ===== src/LoopPool.antt =====
-- src/eventlooppool.cpp and include/rapid/core/eventlooppool.h: the loops of a server, which it takes in turn.
pub mod Turns
use librapid.Prelude.{
  ℕ, zero, suc, ◌+◌, ◌%◌, ◌^◌, List, [], ◌∷◌, Option, none, some, length, get_elem?,
}
use librapid.Outcome.{Outcome, ok, stuck, M, pure, fault, zero_modulus, dangling, ◌>>=◌, ◌>>◌}
use librapid.World.{World, EventLoopPool}
use librapid.Kernel.{Kernel}
use librapid.EventLoop

-- loops_[i].get()
abbrev pub loop_at : Option ℕ → M EventLoopPool ℕ
loop_at none p = stuck dangling
loop_at (some l) p = ok l p

-- EventLoopPool::nextLoop. The counter is a uint32_t, and `% 0` is undefined.
unfoldable pub next_loop : M EventLoopPool ℕ
next_loop p = elim p.loops [
  | [] ↦ stuck zero_modulus
  | l ∷ ls ↦
      loop_at (get_elem? (l ∷ ls) (p.count % length (l ∷ ls)))
        (record p { count = (p.count + 1) % 2 ^ 32 })
]

module _ {K : Kernel} where
  unfoldable pub start_loops : List ℕ → M (World K) (Unit {0})
  unfolding EventLoop.start
  start_loops [] = pure tt
  start_loops (l ∷ ls) = EventLoop.start l >> start_loops ls

  unfoldable pub stop_loops : List ℕ → M (World K) (Unit {0})
  unfolding EventLoop.stop
  stop_loops [] = pure tt
  stop_loops (l ∷ ls) = EventLoop.stop l >> stop_loops ls

  unfoldable pub wait_loops : List ℕ → M (World K) (Unit {0})
  unfolding EventLoop.wait_for_end
  wait_loops [] = pure tt
  wait_loops (l ∷ ls) = EventLoop.wait_for_end l >> wait_loops ls
