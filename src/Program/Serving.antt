-- ===== src/Program/Serving.antt =====
-- src/main.cpp: the handlers of the example program leave the clients and the mutex of its server alone.
use librapid.Prelude.{ℕ, Bool, ◌==◌, ◌||◌}
use librapid.Kernel.{Kernel}
use librapid.Server.Steady.{
  Steady, Steady-bind, if-Steady, pure-Steady, connection-Steady, send-Steady,
}
use librapid.Program.{handlers, answers, repeats, response}

module _ {K : Kernel} where
  pub handlers-Steady : (held : Bool) (t p : ℕ) → Steady {K = K} held (handlers t p)
  unfolding handlers
  handlers-Steady held t p =
      if-Steady held ((t == answers) || (t == repeats)) (send-Steady held p response)
        (Steady-bind held (connection-Steady held p) λ _. pure-Steady held tt)
