-- ===== src/StackTrace/Signals.antt =====
-- src/stacktrace.cpp: the actions that resigterInProcessStackTrace sets.
use librapid.Prelude.{ℕ, ◌≡◌, refl, Bool, true, false, ◌||◌, ◌==◌, if◌then◌else◌, ==_iff, arith}

-- What the process does on a signal: the default, nothing, or the handler of the file, which goes
-- back to the default before it runs (SA_RESETHAND).
pub data SignalAction : Type 0 where
  default_action ignore dump_once : SignalAction

abbrev pub sigpipe : ℕ
sigpipe = 13

-- SIGILL, SIGABRT, SIGFPE, SIGBUS, SIGSEGV, SIGSYS
abbrev pub is_fatal : ℕ → Bool
is_fatal s = (s == 4) || (s == 6) || (s == 8) || (s == 7) || (s == 11) || (s == 31)

unfoldable pub register_in_process_stack_trace : (ℕ → SignalAction) → ℕ → SignalAction
register_in_process_stack_trace actions s =
    if is_fatal s then dump_once else if s == sigpipe then ignore else actions s

-- stackDumpSignalHandler has no statement.
unfoldable pub stack_dump_signal_handler : {S : Type 0} → S → S
stack_dump_signal_handler s = s

-- Delivery, by sigaction(2): whether the signal kills the process, and the actions after it.
abbrev pub deliver : (ℕ → SignalAction) → ℕ → Bool × (ℕ → SignalAction)
deliver actions s = elim (actions s) [
  | default_action ↦ (true, actions)
  | ignore ↦ (false, actions)
  | dump_once ↦
      (false, stack_dump_signal_handler (λ t. if t == s then default_action else actions t))
]

deliver-dump_once :
    (f : ℕ → SignalAction) (s : ℕ)
    → f s ≡ dump_once
    → ((deliver f s).0 ≡ false) × ((deliver (deliver f s).1 s).0 ≡ true)
unfolding stack_dump_signal_handler
deliver-dump_once f s e = ground (arith, ==_iff s s)

-- A fatal signal, after the registration, passes unnoticed once and kills the process the second
-- time: nothing is written about the first.
register-deliver :
    (actions : ℕ → SignalAction) (s : ℕ)
    → is_fatal s ≡ true
    → ((deliver (register_in_process_stack_trace actions) s).0 ≡ false)
      × ((deliver (deliver (register_in_process_stack_trace actions) s).1 s).0 ≡ true)
unfolding register_in_process_stack_trace
register-deliver actions s fatal =
    deliver-dump_once (register_in_process_stack_trace actions) s (rw fatal refl)
