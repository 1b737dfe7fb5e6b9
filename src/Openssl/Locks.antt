-- ===== src/Openssl/Locks.antt =====
-- src/openssl.cpp: the callback that locks the mutexes of OpenSSL.
use librapid.Prelude.{
  ℕ, zero, suc, ◌≡◌, refl, ap, ◌∙◌, Bool, true, false, some, List, [], ◌∷◌, ◌==◌, bit_and,
  get_elem?, set, arith,
}
use librapid.Outcome.{ok, stuck, ◌>>◌, relock, and_then}
use librapid.Openssl.{locking}

pub get_elem?-set :
    (xs : List Bool) (n : ℕ) (a b : Bool)
    → get_elem? xs n ≡ some a
    → get_elem? (set xs n b) n ≡ some b
get_elem?-set [] n a b e = absurd (ground arith)
get_elem?-set (x ∷ xs) zero a b e = refl
get_elem?-set (x ∷ xs) (suc n) a b e = get_elem?-set xs n a b e

pub set-set :
    (xs : List Bool) (n : ℕ) (a b : Bool) → get_elem? xs n ≡ some a → set (set xs n b) n a ≡ xs
set-set [] n a b e = absurd (ground arith)
set-set (x ∷ xs) zero a b e = ground arith
set-set (x ∷ xs) (suc n) a b e = ap (◌∷◌ x) (set-set xs n a b e)

module _ (mode n : ℕ) (mutexes : List Bool) where
  pub locking-lock :
      (bit_and mode 1 == 1) ≡ true
      → get_elem? mutexes n ≡ some false
      → locking mode n mutexes ≡ ok tt (set mutexes n true)
  unfolding locking
  locking-lock odd free = rw (free, odd, locking) refl

  pub locking-relock :
      (bit_and mode 1 == 1) ≡ true
      → get_elem? mutexes n ≡ some true
      → locking mode n mutexes ≡ stuck relock
  unfolding locking
  locking-relock odd held = rw (held, odd, locking) refl

  pub locking-unlock :
      (bit_and mode 1 == 1) ≡ false
      → get_elem? mutexes n ≡ some true
      → locking mode n mutexes ≡ ok tt (set mutexes n false)
  unfolding locking
  locking-unlock even held = rw (held, even, locking) refl

module _ (lock unlock n : ℕ) (mutexes : List Bool) where
  -- The locking callback with the lock bit and then without it leaves a free mutex of the array
  -- as it was; with the lock bit twice it waits for the thread that holds the mutex, itself.
  pub locking-pair :
      (bit_and lock 1 == 1) ≡ true
      → (bit_and unlock 1 == 1) ≡ false
      → get_elem? mutexes n ≡ some false
      → ((locking lock n >> locking unlock n) mutexes ≡ ok tt mutexes)
        × ((locking lock n >> locking lock n) mutexes ≡ stuck relock)
  locking-pair odd even free =
      let taken = locking-lock lock n mutexes odd free in
      let held = get_elem?-set mutexes n false true free in
      (
        ap (λ r. and_then r (λ _. locking unlock n)) taken
            ∙ locking-unlock unlock n (set mutexes n true) even held
            ∙ ap (ok tt) (set-set mutexes n false true free),
        ap (λ r. and_then r (λ _. locking lock n)) taken
            ∙ locking-relock lock n (set mutexes n true) odd held,
      )
