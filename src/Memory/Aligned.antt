-- ===== src/Memory/Aligned.antt =====
-- include/rapid/core/memory.h: the blocks that makeShared allocates.
use librapid.Prelude.{ℕ, ◌*◌, ◌%◌, ◌^◌, ◌≤◌, ◌≡◌, ◌≢◌, ◌⊎◌, some}
use librapid.Memory.{Heap}

-- posix_memalign(3): an alignment that is a power of two and a multiple of sizeof(void *) is
-- accepted, and what it gives is aligned, not null and large enough.
pub record Memalign (A : Heap) : Type 0 where
  pub room : A.State → ℕ → ℕ
  pub aligned :
      (k size : ℕ) (s : A.State) (p : ℕ)
      → 2 ^ k % 8 ≡ 0
      → (A.posix_memalign (2 ^ k) size s).0 ≡ some p
      → (p ≢ 0) × ((q : ℕ) × (p ≡ q * 2 ^ k)) × (size ≤ room (A.posix_memalign (2 ^ k) size s).1 p)

module _ (A : Heap) (L : Memalign A) where
  abbrev pub IsBlock : (align size : ℕ) → ℕ × A.State → Type 0
  IsBlock align size (p, s) =
      (p ≡ 0) ⊎ ((p ≢ 0) × ((q : ℕ) × (p ≡ q * align)) × (size ≤ L.room s p))
