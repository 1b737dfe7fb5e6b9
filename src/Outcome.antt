-- ===== src/Outcome.antt =====
-- How a member function ends: with a result, by an exception (include/rapid/core/exception.h), or
-- stuck where C++ leaves the behaviour undefined. An exception keeps the state that it was
-- thrown in, as a C++ object keeps its fields.
pub mod Laws
use librapid.Prelude.{ℤ, Bool, true, false, Option, none, some, String}

pub data Exception : Type 0 where
  -- AssertException, by its message_
  assert_failed : String → Exception
  -- UuidErrorException
  uuid_error : String → Exception
  -- any other std::exception that a handler of the program throws
  runtime_error : ℤ → Exception

pub data Fault : Type 0 where
  -- a std::mutex locked again by the thread that holds it
  relock : Fault
  -- a call through a null pointer
  null_pointer : Fault
  -- an object that is not there any more
  dangling : Fault
  -- % 0
  zero_modulus : Fault
  -- std::terminate
  terminated : Fault
  -- a std::mutex unlocked that is not locked
  unlocked : Fault
  -- calls nested deeper than the bound of the run
  call_depth : Fault

pub data Outcome (S : Type 0) (A : Type 0) : Type 0 where
  ok : A → S → Outcome S A
  thrown : Exception → S → Outcome S A
  stuck : Fault → Outcome S A

abbrev pub M : Type 0 → Type 0 → Type 0
M S A = S → Outcome S A

module _ {S A : Type 0} where
  abbrev pub pure : A → M S A
  pure a s = ok a s

  abbrev pub throw : Exception → M S A
  throw e s = thrown e s

  abbrev pub fault : Fault → M S A
  fault f s = stuck f

module _ {S A B : Type 0} where
  abbrev pub and_then : Outcome S A → (A → M S B) → Outcome S B
  and_then (ok a s) k = k a s
  and_then (thrown e s) k = thrown e s
  and_then (stuck f) k = stuck f

  infixl 5 ◌>>=◌ ◌>>◌
  abbrev pub ◌>>=◌ : M S A → (A → M S B) → M S B
  ◌>>=◌ m k s = and_then (m s) k

  abbrev pub ◌>>◌ : M S A → M S B → M S B
  m >> k = m >>= λ _. k

module _ {S : Type 0} where
  abbrev pub state : M S S
  state s = ok s s

  abbrev pub modify : (S → S) → M S (Unit {0})
  modify f s = ok tt (f s)

  -- ensureOrThrow(expr, message)
  abbrev pub ensure_or_throw : Bool → String → M S (Unit {0})
  ensure_or_throw true message = pure tt
  ensure_or_throw false message = throw (assert_failed message)

  -- `if (handler != nullptr) handler(...)`
  abbrev pub invoke : {H : Type 0} → (H → M S (Unit {0})) → Option H → M S (Unit {0})
  invoke call none = pure tt
  invoke call (some h) = call h

module _ {S T A : Type 0} where
  -- The outcome of a part of the state, put into the whole.
  abbrev pub embed : (S → T → S) → S → Outcome T A → Outcome S A
  embed put s (ok a t) = ok a (put s t)
  embed put s (thrown e t) = thrown e (put s t)
  embed put s (stuck f) = stuck f

  -- A member function of a part of the state, run in the whole.
  abbrev pub within : (S → T) → (S → T → S) → M T A → M S A
  within get put m s = embed put s (m (get s))
