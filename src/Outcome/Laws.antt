-- ===== src/Outcome/Laws.antt =====
-- What holds of a run of a member function, however it ends.
use librapid.Prelude.{◌≡◌, refl, subst}
use librapid.Outcome.{Exception, Fault, Outcome, ok, thrown, stuck, M, and_then}

-- The run returned or threw, and the state that it left satisfies P.
abbrev pub Leaves : {S A : Type 0} → (S → Type 0) → Outcome S A → Type 0
Leaves P (ok a s) = P s
Leaves P (thrown e s) = P s
Leaves P (stuck f) = ⊥

-- The run returned, in a state that satisfies P.
abbrev pub Returns : {S A : Type 0} → (A → S → Type 0) → Outcome S A → Type 0
Returns P (ok a s) = P a s
Returns P (thrown e s) = ⊥
Returns P (stuck f) = ⊥

-- The run threw this exception, in a state that satisfies P.
abbrev pub Throws : {S A : Type 0} → Exception → (S → Type 0) → Outcome S A → Type 0
Throws x P (ok a s) = ⊥
Throws x P (thrown e s) = (e ≡ x) × P s
Throws x P (stuck f) = ⊥

-- The run stopped at undefined behaviour.
abbrev pub Sticks : {S A : Type 0} → Fault → Outcome S A → Type 0
Sticks x (ok a s) = ⊥
Sticks x (thrown e s) = ⊥
Sticks x (stuck f) = f ≡ x

-- P holds where the run returned or threw.
abbrev pub Keeps : {S A : Type 0} → (S → Type 0) → Outcome S A → Type 0
Keeps P (ok a s) = P s
Keeps P (thrown e s) = P s
Keeps P (stuck f) = Unit

-- The state that a run left is one.
pub ok_state : {S A : Type 0} {a b : A} {s t : S} → ◌≡◌ {A = Outcome S A} (ok a s) (ok b t) → s ≡ t
ok_state e = cc

pub thrown_state :
    {S A : Type 0} {x y : Exception} {s t : S}
    → ◌≡◌ {A = Outcome S A} (thrown x s) (thrown y t)
    → s ≡ t
thrown_state e = cc

-- The run returned or threw in this state.
abbrev pub Ended : {S A : Type 0} → Outcome S A → S → Type 0
Ended (ok a s) t = s ≡ t
Ended (thrown e s) t = s ≡ t
Ended (stuck f) t = ⊥

module _ {S A : Type 0} (P : S → Type 0) where
  pub Keeps-Ended : (r : Outcome S A) (t : S) → Keeps P r → Ended r t → P t
  Keeps-Ended (ok a s) t h e = subst P e h
  Keeps-Ended (thrown x s) t h e = subst P e h
  Keeps-Ended (stuck f) t h e = absurd e

module _ {S A B : Type 0} (P : S → Type 0) where
  pub Keeps-and_then :
      (r : Outcome S A) (k : A → M S B)
      → Keeps P r
      → ((a : A) (s : S) → P s → Keeps P (k a s))
      → Keeps P (and_then r k)
  Keeps-and_then (ok a s) k h next = next a s h
  Keeps-and_then (thrown e s) k h next = h
  Keeps-and_then (stuck f) k h next = tt

module _ {S A B : Type 0} (P : S → Type 0) where
  pub Leaves-and_then :
      (r : Outcome S A) (k : A → M S B)
      → Leaves P r
      → ((a : A) (s : S) → P s → Leaves P (k a s))
      → Leaves P (and_then r k)
  Leaves-and_then (ok a s) k p next = next a s p
  Leaves-and_then (thrown e s) k p next = p
  Leaves-and_then (stuck f) k p next = p

module _ {S A B : Type 0} (P : A → S → Type 0) (Q : B → S → Type 0) where
  pub Returns-and_then :
      (r : Outcome S A) (k : A → M S B)
      → Returns P r
      → ((a : A) (s : S) → P a s → Returns Q (k a s))
      → Returns Q (and_then r k)
  Returns-and_then (ok a s) k p next = next a s p
  Returns-and_then (thrown e s) k p next = absurd p
  Returns-and_then (stuck f) k p next = absurd p

module _ {S A : Type 0} (P : A → S → Type 0) (Q : S → Type 0) where
  pub Leaves-Returns :
      (r : Outcome S A) → Returns P r → ((a : A) (s : S) → P a s → Q s) → Leaves Q r
  Leaves-Returns (ok a s) p weaken = weaken a s p
  Leaves-Returns (thrown e s) p weaken = absurd p
  Leaves-Returns (stuck f) p weaken = absurd p

module _ {S A : Type 0} (P Q : A → S → Type 0) where
  pub Returns-mono :
      (r : Outcome S A) → Returns P r → ((a : A) (s : S) → P a s → Q a s) → Returns Q r
  Returns-mono (ok a s) p weaken = weaken a s p
  Returns-mono (thrown e s) p weaken = absurd p
  Returns-mono (stuck f) p weaken = absurd p

module _ {S A B : Type 0} (x : Exception) (P : S → Type 0) where
  -- What follows a statement that throws is not run.
  pub Throws-and_then : (r : Outcome S A) (k : A → M S B) → Throws x P r → Throws x P (and_then r k)
  Throws-and_then (ok a s) k h = absurd h
  Throws-and_then (thrown e s) k h = h
  Throws-and_then (stuck f) k h = absurd h

module _ {S A : Type 0} (x : Exception) (P Q : S → Type 0) where
  pub Throws-mono : (r : Outcome S A) → Throws x P r → ((s : S) → P s → Q s) → Throws x Q r
  Throws-mono (ok a s) h weaken = absurd h
  Throws-mono (thrown e s) h weaken = (h.0, weaken s h.1)
  Throws-mono (stuck f) h weaken = absurd h

module _ {S A B : Type 0} (x : Fault) where
  pub Sticks-and_then : (r : Outcome S A) (k : A → M S B) → Sticks x r → Sticks x (and_then r k)
  Sticks-and_then (ok a s) k h = absurd h
  Sticks-and_then (thrown e s) k h = absurd h
  Sticks-and_then (stuck f) k h = h

module _ {S A B : Type 0} where
  -- A statement that returned, and what it returned.
  pub and_then-eq-ok :
      (r : Outcome S A) (k : A → M S B) {b : B} {s' : S}
      → and_then r k ≡ ok b s'
      → (a : A) × (s : S) × (r ≡ ok a s) × (k a s ≡ ok b s')
  and_then-eq-ok (ok a s) k h = (a, s, refl, h)
  and_then-eq-ok (thrown e s) k h = absurd (cc)
  and_then-eq-ok (stuck f) k h = absurd (cc)
