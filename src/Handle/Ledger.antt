-- ===== src/Handle/Ledger.antt =====
-- include/rapid/core/unique_handle.h: two owners and all that a program does with them but an explicit
-- close(), by what became of each value.
use mathlib.Core.Logic.{ite}
use librapid.Prelude.{ℕ, ◌+◌, ◌≤◌, ◌≡◌, ◌≢◌, refl, List, [], ◌∷◌, arith}
use librapid.Handle.{
  UniqueHandle, handle, close, destroy, reset, release, move_construct, move_assign, self_assign,
}
use librapid.Handle.Owning.{held, count, move_assign-count, self_assign-count}

module _ {T : Type 0} (same : Discrete T) (invalid : T) where
  pub record Ledger : Type 0 where
    pub left : UniqueHandle T
    pub right : UniqueHandle T
    pub freed : List T
    pub given : List T  -- what release() gave to the program
    pub taken : List T  -- what the owners were given

  abbrev with_left : Ledger → UniqueHandle T × List T → Ledger
  with_left s (h, freed) = record s { left = h; freed = freed }

  -- A value that was not there before is taken by reset or by a new object; the other operations.
  pub data Use (s : Ledger) (t : Ledger) : Type 0 where
    takes :
        (v : T)
        → v ≢ invalid
        → count same invalid v s.taken ≡ 0
        → t ≡ record (with_left s (reset same invalid s.left v s.freed)) { taken = v ∷ s.taken }
        → Use s t
    clears : t ≡ with_left s (reset same invalid s.left invalid s.freed) → Use s t
    releases :
        t ≡ record s {
          left = (release same invalid s.left).0;
          given = (release same invalid s.left).1 ∷ s.given;
        }
        → Use s t
    assigns :
        (let (h, other, freed) = move_assign same invalid s.left s.right s.freed in
          t ≡ record s { left = h; right = other; freed = freed })
        → Use s t
    assigns_self : t ≡ with_left s (self_assign same invalid s.left s.freed) → Use s t
    -- the end of the scope, and a new object in its place, empty or made of the other one
    ends : t ≡ with_left s (handle invalid, destroy same invalid s.left s.freed) → Use s t
    moves :
        t ≡ record s {
          left = (move_construct same invalid s.right).0;
          right = (move_construct same invalid s.right).1;
          freed = destroy same invalid s.left s.freed;
        }
        → Use s t
    swaps : t ≡ record s { left = s.right; right = s.left } → Use s t

  -- Every valid value that was taken was taken once, and is held, freed or given once.
  abbrev pub IsBalanced : Ledger → Type 0
  IsBalanced s =
      (x : T)
      → x ≢ invalid
      → (held same invalid x s.left
            + held same invalid x s.right
            + count same invalid x s.freed
            + count same invalid x s.given
          ≡ count same invalid x s.taken)
        × (count same invalid x s.taken ≤ 1)

  abbrev tally : T → UniqueHandle T → UniqueHandle T → List T → ℕ
  tally x h other freed =
      held same invalid x h + held same invalid x other + count same invalid x freed

  module _ (x : T) (valid : x ≢ invalid) (h other : UniqueHandle T) (freed : List T) where
    reset-sum :
        (v : T)
        → (v ≢ invalid → held same invalid v h ≡ 0)
        → (let (h', freed') = reset same invalid h v freed in tally x h' other freed')
          ≡ tally x h other freed + held same invalid x (handle v)
    unfolding reset close
    reset-sum v apart = ground (arith, apart)

    release-sum :
        held same invalid x (release same invalid h).0 + ite (same (release same invalid h).1 x) 1 0
        ≡ held same invalid x h
    unfolding release
    release-sum = ground (arith, valid)

    destroy-sum :
        tally x (handle invalid) other (destroy same invalid h freed) ≡ tally x h other freed
    unfolding destroy close
    destroy-sum = ground (arith, valid)

  held-handle : (x v : T) → x ≢ invalid → held same invalid x (handle v) ≡ ite (same v x) 1 0
  held-handle x v valid = ground arith

  -- A value that was not taken is not held.
  held-untaken :
      (s : Ledger) (v : T)
      → IsBalanced s
      → v ≢ invalid
      → count same invalid v s.taken ≡ 0
      → held same invalid v s.left ≡ 0
  held-untaken s v h valid n = omega (arith, h v valid, n)

  takes-IsBalanced :
      (s : Ledger) (v : T)
      → v ≢ invalid
      → count same invalid v s.taken ≡ 0
      → IsBalanced s
      → IsBalanced
          (record (with_left s (reset same invalid s.left v s.freed)) { taken = v ∷ s.taken })
  takes-IsBalanced s v n f h x valid = ground (
    arith,
    h x valid,
    held-handle x v valid,
    reset-sum x valid s.left s.right s.freed v (λ _. held-untaken s v h n f),
  )

  clears-IsBalanced :
      (s : Ledger)
      → IsBalanced s
      → IsBalanced (with_left s (reset same invalid s.left invalid s.freed))
  clears-IsBalanced s h x valid = ground (
    arith,
    h x valid,
    held-handle x invalid valid,
    reset-sum x valid s.left s.right s.freed invalid (λ n. absurd (n refl)),
  )

  releases-IsBalanced :
      (s : Ledger)
      → IsBalanced s
      → IsBalanced (record s {
        left = (release same invalid s.left).0;
        given = (release same invalid s.left).1 ∷ s.given;
      })
  releases-IsBalanced s h x valid =
      omega (arith, h x valid, release-sum x valid s.left s.right s.freed)

  held_self : (h : UniqueHandle T) → h.value ≢ invalid → held same invalid h.value h ≡ 1
  held_self h n = ground (arith, n)

  held_same :
      (h other : UniqueHandle T)
      → h.value ≢ invalid
      → h.value ≡ other.value
      → held same invalid h.value other ≡ 1
  held_same h other n e = ground (arith, n, e)

  -- No two owners hold the same valid value.
  apart : (s : Ledger) → IsBalanced s → s.left.value ≡ s.right.value → s.left.value ≡ invalid
  apart s h e = elim (same s.left.value invalid) [
    | yes p ↦ p
    | no n ↦
        absurd (omega (arith, h s.left.value n, held_self s.left n, held_same s.left s.right n e))
  ]

  assigns-IsBalanced :
      (s : Ledger)
      → IsBalanced s
      → (let (h, other, freed) = move_assign same invalid s.left s.right s.freed in
          IsBalanced (record s { left = h; right = other; freed = freed }))
  assigns-IsBalanced s h x valid =
      omega (
        arith,
        h x valid,
        move_assign-count same invalid x s.left s.right s.freed valid (apart s h),
      )

  assigns_self-IsBalanced :
      (s : Ledger)
      → IsBalanced s
      → IsBalanced (with_left s (self_assign same invalid s.left s.freed))
  assigns_self-IsBalanced s h x valid =
      omega (arith, h x valid, self_assign-count same invalid x s.left s.freed valid)

  ends-IsBalanced :
      (s : Ledger)
      → IsBalanced s
      → IsBalanced (with_left s (handle invalid, destroy same invalid s.left s.freed))
  ends-IsBalanced s h x valid = omega (arith, h x valid, destroy-sum x valid s.left s.right s.freed)

  moves-sum :
      (x : T) (h other : UniqueHandle T) (freed : List T)
      → x ≢ invalid
      → tally x
          (move_construct same invalid other).0
          (move_construct same invalid other).1
          (destroy same invalid h freed)
        ≡ tally x h other freed
  unfolding move_construct release destroy close
  moves-sum x h other freed valid = ground (arith, valid)

  Use-IsBalanced : (s t : Ledger) → Use s t → IsBalanced s → IsBalanced t
  Use-IsBalanced s t (takes v n f e) h = rw e (takes-IsBalanced s v n f h)
  Use-IsBalanced s t (clears e) h = rw e (clears-IsBalanced s h)
  Use-IsBalanced s t (releases e) h = rw e (releases-IsBalanced s h)
  Use-IsBalanced s t (assigns e) h = rw e (assigns-IsBalanced s h)
  Use-IsBalanced s t (assigns_self e) h = rw e (assigns_self-IsBalanced s h)
  Use-IsBalanced s t (ends e) h = rw e (ends-IsBalanced s h)
  Use-IsBalanced s t (moves e) h =
      rw e λ x valid. omega (arith, h x valid, moves-sum x s.left s.right s.freed valid)
  Use-IsBalanced s t (swaps e) h = rw e λ x valid. omega (arith, h x valid)

  -- Any number of operations, from two empty owners.
  abbrev pub empty : Ledger
  empty = record {
    left = handle invalid;
    right = handle invalid;
    freed = [];
    given = [];
    taken = [];
  }

  pub data Uses : Ledger → Type 0 where
    unused : Uses empty
    used : {s t : Ledger} → Uses s → Use s t → Uses t

  Uses-IsBalanced : {s : Ledger} → Uses s → IsBalanced s
  Uses-IsBalanced unused = λ x valid. ground arith
  Uses-IsBalanced (used {s} {t} u st) = Use-IsBalanced s t st (Uses-IsBalanced u)

  held-value : (x : T) (h : UniqueHandle T) → x ≢ invalid → h.value ≡ x → held same invalid x h ≡ 1
  held-value x h valid e = ground (arith, valid, e)

  -- After any sequence of operations on two owners that begin empty (reset to a value that was
  -- not there before or to the invalid one, release, move assignment from the other or from
  -- itself, the end of the scope followed by a new object, empty or moved from the other, and
  -- the same with the two exchanged), a valid value has been freed at most once, and not at all
  -- while an owner holds it; and one that was taken is held, was freed or was released, exactly
  -- one of these.
  pub ledger_lem :
      (s : Ledger)
      → Uses s
      → (x : T) → x ≢ invalid
      → (count same invalid x s.freed ≤ 1)
        × (s.left.value ≡ x → count same invalid x s.freed ≡ 0)
        × (s.right.value ≡ x → count same invalid x s.freed ≡ 0)
        × (count same invalid x s.taken ≡ 1
            → held same invalid x s.left
                + held same invalid x s.right
                + count same invalid x s.freed
                + count same invalid x s.given
              ≡ 1)
  ledger_lem s u x valid =
      let (sum, once) = Uses-IsBalanced u x valid in
      (
        omega (arith, sum, once),
        (λ e. omega (arith, sum, once, held-value x s.left valid e)),
        (λ e. omega (arith, sum, once, held-value x s.right valid e)),
        λ e. omega (arith, sum, e),
      )
