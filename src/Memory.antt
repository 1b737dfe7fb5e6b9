-- ===== src/Memory.antt =====
-- include/rapid/core/memory.h: the alignment that makeShared asks for. A size_t has 64 bits.
pub mod Powers
pub mod Aligned
use librapid.Prelude.{
  ℕ, ◌+◌, ◌-◌, ◌*◌, ◌%◌, ◌^◌, Bool, Option, none, some, bit_and, ltb, ◌==◌, if◌then◌else◌,
}

-- `alignment - 1` wraps round at 0.
unfoldable pub is_valid_alignment : ℕ → Bool
is_valid_alignment alignment = bit_and alignment ((alignment + 2 ^ 64 - 1) % 2 ^ 64) == 0

-- What makeShared does with an alignment that passed its static_assert.
pub data Allocation : Type 0 where
  aligned_to : ℕ → Allocation
  default_allocation : Allocation

unfoldable pub make_shared : ℕ → Allocation
make_shared align_size = if ltb 16 align_size then aligned_to align_size else default_allocation

-- posix_memalign(3): where the block is, or nothing where it does not return 0; and free(3).
pub record Heap : Type 1 where
  pub State : Type 0
  pub posix_memalign : (align size : ℕ) → State → Option ℕ × State
  pub free : ℕ → State → State

-- An int, by its 32 bits, as a size_t.
abbrev pub size_of_int : ℕ → ℕ
size_of_int i = if ltb i (2 ^ 31) then i else i + (2 ^ 64 - 2 ^ 32)

module _ (A : Heap) where
  -- alignedMalloc: the null pointer, 0, where posix_memalign fails. `align` is an int, which
  -- posix_memalign takes as a size_t.
  unfoldable pub aligned_malloc : (size align : ℕ) → A.State → ℕ × A.State
  aligned_malloc size align s =
      let (r, s') = A.posix_memalign (size_of_int align) size s in
      (elim r [ none ↦ 0 | some p ↦ p ], s')

  -- aligned_allocator::allocate; the product is one of size_t, and AlignedSize becomes an int.
  unfoldable pub allocate : (size_of align : ℕ) → (n : ℕ) → A.State → ℕ × A.State
  unfolding aligned_malloc
  allocate size_of align n s = aligned_malloc (n * size_of % 2 ^ 64) (align % 2 ^ 32) s

  -- alignedFree, and aligned_allocator::deallocate
  unfoldable pub deallocate : ℕ → A.State → A.State
  deallocate p s = A.free p s
