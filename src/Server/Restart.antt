-- ===== src/Server/Restart.antt =====
-- src/tcpserver.cpp with src/eventlooppool.cpp: a server that was stopped and is started once more.
use librapid.Prelude.{ℕ, ◌≡◌, refl, none, [], arith}
use librapid.Kernel.{Kernel}
use librapid.Outcome.{ok, zero_modulus, M}
use librapid.Outcome.Laws.{Sticks, and_then-eq-ok}
use librapid.World.{World, Handler}
use librapid.LoopPool
use librapid.EventLoop.Build.{destroy_loops}
use librapid.Server.{next_loop, server, put_server, stop, stop_pool, locked_scope, start}

module _ {K : Kernel} (run : Handler → ℕ → M (World K) (Unit {0})) where
  -- A server without loops cannot be started: the choice of a loop divides by their number.
  start-no_loops :
      (port : ℕ) (w : World K)
      → w.server.acceptor ≡ none
      → w.server.pool.loops ≡ []
      → Sticks zero_modulus (start port w)
  unfolding start next_loop server LoopPool.next_loop
  start-no_loops port w fresh empty = rw (fresh, empty) refl

  stop_pool-loops : (w w' : World K) → stop_pool w ≡ ok tt w' → w'.server.pool.loops ≡ []
  unfolding stop_pool server put_server
  stop_pool-loops w w' e =
      let (_, w1, _, e1) = and_then-eq-ok (LoopPool.stop_loops w.server.pool.loops w) _ e in
      let (_, w2, _, e2) = and_then-eq-ok (LoopPool.wait_loops w.server.pool.loops w1) _ e1 in
      let (_, w3, _, e3) = and_then-eq-ok (destroy_loops w.server.pool.loops w2) _ e2 in
      ground arith

  -- TcpServer::start, in the world in which stop() of the server returned, takes the counter of
  -- the pool modulo 0, since stop() leaves no loop to choose.
  pub start-stop :
      (port : ℕ) (w w' : World K) → stop run w ≡ ok tt w' → Sticks zero_modulus (start port w')
  unfolding stop server put_server
  start-stop port w w' e =
      let (_, w1, _, e1) = and_then-eq-ok (locked_scope _ w) _ e in
      let (_, w2, done, e2) = and_then-eq-ok (stop_pool w1) _ e1 in
      start-no_loops port w' (ground arith) (ground (arith, stop_pool-loops w1 w2 done))
