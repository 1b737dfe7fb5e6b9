-- ===== src/Program/Ends.antt =====
-- src/tcpserver.cpp with src/eventlooppool.cpp: the destructor of a server that was stopped.
use librapid.Prelude.{
  ℕ, ◌≡◌, refl, sym, ap, ◌∙◌, inl, inr, false, none, List, [], ◌∷◌, Option-cases, arith,
}
use librapid.Kernel.{Kernel}
use librapid.Outcome.{Outcome, ok, thrown, stuck, M, ◌>>=◌, ◌>>◌}
use librapid.Outcome.Laws.{and_then-eq-ok}
use librapid.World.{World, Handler, TcpServer, event_loop, put_loop, channel, acceptor}
use librapid.Connection.{sys_write}
use librapid.EventLoop
use librapid.EventLoop.Build
use librapid.Acceptor
use librapid.LoopPool.{stop_loops, wait_loops}
use librapid.Server.{
  server, put_server, lock, locked_scope, destroy_all, set_clients, stop, stop_pool, reset_acceptor,
  unlock,
}
use librapid.Program.{destroy_server, noexcept}

module _ {K : Kernel} where
  -- EventLoop::stop and waitForEnd do not touch the server.
  stop_frame : (l : ℕ) (w w' : World K) → EventLoop.stop l w ≡ ok tt w' → w'.server ≡ w.server
  unfolding EventLoop.stop EventLoop.wakeup event_loop put_loop channel sys_write
  stop_frame l w w' e = ground arith

  wait_frame :
      (l : ℕ) (w w' : World K) → EventLoop.wait_for_end l w ≡ ok tt w' → w'.server ≡ w.server
  unfolding EventLoop.wait_for_end event_loop put_loop
  wait_frame l w w' e = ground arith

  stop_loops_frame :
      (ls : List ℕ) (w w' : World K) → stop_loops ls w ≡ ok tt w' → w'.server ≡ w.server
  unfolding stop_loops
  stop_loops_frame [] w w' e = ground arith
  stop_loops_frame (l ∷ ls) w w' e =
      let (_, w1, one, rest) = and_then-eq-ok (EventLoop.stop l w) _ e in
      stop_loops_frame ls w1 w' rest ∙ stop_frame l w w1 one

  wait_loops_frame :
      (ls : List ℕ) (w w' : World K) → wait_loops ls w ≡ ok tt w' → w'.server ≡ w.server
  unfolding wait_loops
  wait_loops_frame [] w w' e = ground arith
  wait_loops_frame (l ∷ ls) w w' e =
      let (_, w1, one, rest) = and_then-eq-ok (EventLoop.wait_for_end l w) _ e in
      wait_loops_frame ls w1 w' rest ∙ wait_frame l w w1 one

  destroy_frame : (l : ℕ) (w w' : World K) → Build.destroy l w ≡ ok tt w' → w'.server ≡ w.server
  unfolding Build.destroy event_loop channel Acceptor.drop_fd Acceptor.sys_close
  destroy_frame l w w' e = ground arith

  destroy_loops_frame :
      (ls : List ℕ) (w w' : World K) → Build.destroy_loops ls w ≡ ok tt w' → w'.server ≡ w.server
  unfolding Build.destroy_loops
  destroy_loops_frame [] w w' e = ground arith
  destroy_loops_frame (l ∷ ls) w w' e =
      let (_, w1, one, rest) = and_then-eq-ok (Build.destroy l w) _ e in
      destroy_loops_frame ls w1 w' rest ∙ destroy_frame l w w1 one

  acceptor_frame : (a : ℕ) (w w' : World K) → Acceptor.destroy a w ≡ ok tt w' → w'.server ≡ w.server
  unfolding Acceptor.destroy acceptor channel Acceptor.drop_fd Acceptor.sys_close
  acceptor_frame a w w' e = ground arith

  abbrev clear_acceptor : M (World K) (Unit {0})
  clear_acceptor = do s ← server; put_server (record s { acceptor = none })

  reset_acceptor-server :
      (w w' : World K)
      → reset_acceptor w ≡ ok tt w'
      → w'.server ≡ record (w.server) { acceptor = none }
  unfolding reset_acceptor server put_server
  reset_acceptor-server w w' e = elim (Option-cases w.server.acceptor) [
    | inl unset ↦ ground arith
    | inr (a, is) ↦
        let closes : (Acceptor.destroy a >> clear_acceptor) w ≡ ok tt w' = sym (rw is refl) ∙ e in
        let (_, w1, one, rest) = and_then-eq-ok (Acceptor.destroy a w) _ closes in
        let same = acceptor_frame a w w1 one in ground (arith, same)
  ]

  unlock-ok :
      (r : Outcome (World K) (Unit {0})) (w' : World K)
      → unlock r ≡ ok tt w'
      → (w : World K) × (r ≡ ok tt w) × (w'.server ≡ record (w.server) { locked = false })
  unlock-ok (ok a w) w' e = (w, refl, ground arith)
  unlock-ok (thrown x w) w' e = absurd (cc)
  unlock-ok (stuck f) w' e = absurd (cc)

  stop_pool-server :
      (w w' : World K)
      → stop_pool w ≡ ok tt w'
      → w'.server ≡ record (w.server) { pool = record (w.server.pool) { loops = [] } }
  unfolding stop_pool server put_server
  stop_pool-server w w' e =
      let (_, w1, stops, e1) = and_then-eq-ok (stop_loops w.server.pool.loops w) _ e in
      let (_, w2, waits, e2) = and_then-eq-ok (wait_loops w.server.pool.loops w1) _ e1 in
      let (_, w3, destroys, e3) =
        and_then-eq-ok (Build.destroy_loops w.server.pool.loops w2) _ e2 in
      let same : w3.server ≡ w.server =
        destroy_loops_frame w.server.pool.loops w2 w3 destroys
        ∙ wait_loops_frame w.server.pool.loops w1 w2 waits
        ∙ stop_loops_frame w.server.pool.loops w w1 stops in
      ground (arith, same)

module _ {K : Kernel} (run : Handler → ℕ → M (World K) (Unit {0})) where
  -- What a stopped server is.
  abbrev pub IsStopped : TcpServer → Type 0
  IsStopped s = (s.clients ≡ []) × (s.locked ≡ false) × (s.pool.loops ≡ []) × (s.acceptor ≡ none)

  -- The loop over the clients, and clear().
  abbrev forget : M (World K) (Unit {0})
  forget = do s ← server; destroy_all run s.clients; set_clients (λ m. [])

  forget_lem : (w w' : World K) → forget w ≡ ok tt w' → w'.server.clients ≡ []
  unfolding server set_clients put_server
  forget_lem w w' e =
      let (_, w1, _, e1) = and_then-eq-ok (destroy_all run w.server.clients w) _ e in ground arith

  forget-clients :
      (w w' : World K)
      → locked_scope forget w ≡ ok tt w'
      → (w'.server.clients ≡ []) × (w'.server.locked ≡ false)
  unfolding locked_scope
  forget-clients w w' e =
      let (_, w1, _, e1) = and_then-eq-ok (lock w) _ e in
      let (w2, ran, left) = unlock-ok (forget w1) w' e1 in
      let gone = forget_lem w1 w2 ran in ground (arith, gone, left)

  stop-IsStopped : (w w' : World K) → stop run w ≡ ok tt w' → IsStopped w'.server
  unfolding stop server put_server
  stop-IsStopped w w' e =
      let (_, w1, scope, e1) = and_then-eq-ok (locked_scope _ w) _ e in
      let (_, w2, done, e2) = and_then-eq-ok (stop_pool w1) _ e1 in
      let (none_left, free) = forget-clients w w1 scope in
      let after = stop_pool-server w1 w2 done in
      let reset = reset_acceptor-server w2 w' e2 in ground (arith, none_left, free, after, reset)

  stop-stopped : (w : World K) → IsStopped w.server → stop run w ≡ ok tt w
  unfolding stop server put_server locked_scope lock destroy_all set_clients stop_pool stop_loops
      wait_loops Build.destroy_loops reset_acceptor
  stop-stopped w (no_clients, free, no_loops, no_acceptor) = ground arith

  -- The destructor of TcpServer, in the world in which stop() returned, returns and changes
  -- nothing: it stops no loop and closes no descriptor a second time, and does not reach
  -- std::terminate.
  pub destroy_server-stop :
      (w w' : World K) → stop run w ≡ ok tt w' → destroy_server run w' ≡ ok tt w'
  unfolding destroy_server
  destroy_server-stop w w' e = ap noexcept (stop-stopped w' (stop-IsStopped w w' e))
