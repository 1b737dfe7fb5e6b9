-- ===== src/Memory/Powers.antt =====
-- include/rapid/core/memory.h: which alignments pass isValidAlignment.
use librapid.Prelude.{
  ℕ, zero, suc, ◌+◌, ◌-◌, ◌*◌, ◌/◌, ◌%◌, ◌^◌, ◌<◌, ◌≤◌, ◌≡◌, refl, ◌∙◌, ◌⊎◌, inl, inr, ◌↔◌, ==_iff,
  sym, subst, ℕ_discrete, true, arith, bit_and,
}
use librapid.Prelude.Bits.{bit_and_step}
use native.Mathlib.Nat.{pow-suc, one-le-pow, le_refl}
use librapid.Memory.{is_valid_alignment}

abbrev pub PowerOfTwo : ℕ → Type 0
PowerOfTwo a = (k : ℕ) × (a ≡ 2 ^ k)

-- `a & (a - 1)` drops the lowest digit that is set.
bit_and_self : (n a : ℕ) → a ≤ n → bit_and a a ≡ a
bit_and_self n zero h = refl
bit_and_self zero (suc a) h = absurd (omega arith)
bit_and_self (suc n) (suc a) h =
    omega (arith, bit_and_step (suc a) (suc a), bit_and_self n (suc a / 2) (omega arith))

pred-half : (a : ℕ) → 0 < a → a % 2 ≡ 0 → (a - 1) / 2 ≡ a / 2 - 1
pred-half a pos even = omega arith

pred-half_odd : (a : ℕ) → a % 2 ≡ 1 → (a - 1) / 2 ≡ a / 2
pred-half_odd a odd = omega arith

clear-even : (a : ℕ) → 0 < a → a % 2 ≡ 0 → bit_and a (a - 1) ≡ bit_and (a / 2) (a / 2 - 1) * 2
clear-even a pos even = bit_and_step a (a - 1) ∙ rw (pred-half a pos even, even) (omega arith)

clear-odd : (a : ℕ) → a % 2 ≡ 1 → bit_and a (a - 1) ≡ a / 2 * 2
clear-odd a odd =
    bit_and_step a (a - 1)
    ∙ rw (pred-half_odd a odd) (omega (arith, bit_and_self (a / 2) (a / 2) (le_refl _)))

power_of_clear : (n a : ℕ) → a ≤ n → 0 < a → bit_and a (a - 1) ≡ 0 → PowerOfTwo a
power_of_clear zero a h pos e = absurd (omega arith)
power_of_clear (suc n) a h pos e = elim (ℕ_discrete (a % 2) 0) [
  | yes even ↦
      let (k, p) =
        power_of_clear n (a / 2) (omega arith) (omega arith)
          (omega (arith, clear-even a pos even)) in
      (suc k, omega (arith, pow-suc 2 k))
  | no odd ↦ (0, omega (arith, clear-odd a (omega arith)))
]

clear_of_power : (k : ℕ) → bit_and (2 ^ k) (2 ^ k - 1) ≡ 0
clear_of_power zero = refl
clear_of_power (suc k) =
    let e : 2 ^ suc k / 2 ≡ 2 ^ k = omega (arith, pow-suc 2 k) in
    clear-even (2 ^ suc k) (one-le-pow (suc k) 2 (omega arith)) (omega (arith, pow-suc 2 k))
    ∙ rw (e, clear_of_power k) refl

predecessor : (a : ℕ) → 0 < a → a < 2 ^ 64 → (a + 2 ^ 64 - 1) % 2 ^ 64 ≡ a - 1
predecessor a pos h = omega arith

test-clear : (a : ℕ) → a < 2 ^ 64 → is_valid_alignment a ≡ true → (a ≡ 0) ⊎ PowerOfTwo a
unfolding is_valid_alignment
test-clear zero h e = inl refl
test-clear (suc a) h e = inr (
    power_of_clear (suc a) (suc a) (le_refl _) (omega arith)
      (subst (λ m. bit_and (suc a) m ≡ 0) (predecessor (suc a) (omega arith) h) ((==_iff _ 0).0 e)))

clear-test : (a : ℕ) → a < 2 ^ 64 → (a ≡ 0) ⊎ PowerOfTwo a → is_valid_alignment a ≡ true
unfolding is_valid_alignment
clear-test a h (inl z) =
    (==_iff _ 0).1 (subst (λ b. bit_and b ((b + 2 ^ 64 - 1) % 2 ^ 64) ≡ 0) (sym z) refl)
clear-test a h (inr (k, p)) =
    let pos : 0 < a = omega (arith, one-le-pow k 2 (omega arith)) in
    (==_iff _ 0).1 (
      subst (λ m. bit_and a m ≡ 0) (sym (predecessor a pos h))
        (subst (λ b. bit_and b (b - 1) ≡ 0) (sym p) (clear_of_power k)))

-- Of the alignments that a size_t of 64 bits can hold, isValidAlignment accepts exactly the
-- powers of two, and 0.
pub is_valid_alignment_iff :
    (a : ℕ) → a < 2 ^ 64 → (is_valid_alignment a ≡ true) ↔ ((a ≡ 0) ⊎ PowerOfTwo a)
is_valid_alignment_iff a h = (test-clear a h, clear-test a h)
