-- ===== src/Handle/Owning.antt =====
-- include/rapid/core/unique_handle.h: how often a value is held and has been freed.
use mathlib.Core.Logic.{ite}
use librapid.Prelude.{ℕ, ◌+◌, ◌≡◌, ◌≢◌, List, [], ◌∷◌, arith}
use librapid.Handle.{UniqueHandle, close, destroy, reset, release, move_assign, self_assign}

module _ {T : Type 0} (same : Discrete T) (invalid : T) where
  -- 1 where the handle will free x.
  abbrev pub held : T → UniqueHandle T → ℕ
  held x h = ite (same x invalid) 0 (ite (same h.value x) 1 0)

  abbrev pub count : T → List T → ℕ
  count x [] = 0
  count x (y ∷ ys) = ite (same y x) 1 0 + count x ys

  count-close :
      (x : T) (h : UniqueHandle T) (freed : List T)
      → x ≢ invalid
      → count x (close same invalid h freed) ≡ held x h + count x freed
  unfolding close
  count-close x h freed valid = ground arith

  -- Move assignment of a unique_handle from another object that does not hold the same valid
  -- value neither loses a valid value nor frees one twice: holders and frees of it add up to the
  -- same.
  pub move_assign-count :
      (x : T) (h other : UniqueHandle T) (freed : List T)
      → x ≢ invalid
      → (h.value ≡ other.value → h.value ≡ invalid)
      → (let (h', other', freed') = move_assign same invalid h other freed in
          held x h' + held x other' + count x freed')
        ≡ held x h + held x other + count x freed
  unfolding move_assign reset release close
  move_assign-count x h other freed valid apart = ground arith

  -- Move assignment of a unique_handle to itself neither loses nor frees its valid value.
  pub self_assign-count :
      (x : T) (h : UniqueHandle T) (freed : List T)
      → x ≢ invalid
      → (let (h', freed') = self_assign same invalid h freed in held x h' + count x freed')
        ≡ held x h + count x freed
  unfolding self_assign reset release close
  self_assign-count x h freed valid = ground arith

  -- A unique_handle on which close() was called frees its valid value once more when it is
  -- destroyed.
  pub destroy-close :
      (h : UniqueHandle T) (freed : List T)
      → h.value ≢ invalid
      → destroy same invalid h (close same invalid h freed) ≡ h.value ∷ h.value ∷ freed
  unfolding destroy close
  destroy-close h freed valid = ground arith
