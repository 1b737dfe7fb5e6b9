-- ===== src/Handle/Order.antt =====
-- include/rapid/core/unique_handle.h: the comparison operators, at the descriptors of file_desc.h.
use librapid.Prelude.{ℤ, pos, negsuc, Bool, true, false, not, ◌≡◌, ltb, int_eq, arith}
use librapid.Handle.{FileDesc}

-- The order of int.
abbrev pub int_lt : ℤ → ℤ → Bool
int_lt (pos m) (pos n) = ltb m n
int_lt (pos m) (negsuc n) = false
int_lt (negsuc m) (pos n) = true
int_lt (negsuc m) (negsuc n) = ltb n m

int_lt_trans : (x y z : ℤ) → int_lt x y ≡ true → int_lt y z ≡ true → int_lt x z ≡ true
int_lt_trans (pos x) (pos y) (pos z) h k = ground arith
int_lt_trans (pos x) (pos y) (negsuc z) h k = ground arith
int_lt_trans (pos x) (negsuc y) (pos z) h k = ground arith
int_lt_trans (pos x) (negsuc y) (negsuc z) h k = ground arith
int_lt_trans (negsuc x) (pos y) (pos z) h k = ground arith
int_lt_trans (negsuc x) (pos y) (negsuc z) h k = ground arith
int_lt_trans (negsuc x) (negsuc y) (pos z) h k = ground arith
int_lt_trans (negsuc x) (negsuc y) (negsuc z) h k = ground arith

int_lt_total : (x y : ℤ) → int_lt x y ≡ false → int_lt y x ≡ false → int_eq x y ≡ true
int_lt_total (pos x) (pos y) h k = ground arith
int_lt_total (pos x) (negsuc y) h k = ground arith
int_lt_total (negsuc x) (pos y) h k = ground arith
int_lt_total (negsuc x) (negsuc y) h k = ground arith

-- operator==
unfoldable pub handle_eq : FileDesc → FileDesc → Bool
handle_eq left right = int_eq left.value right.value

-- operator!=
unfoldable pub handle_ne : FileDesc → FileDesc → Bool
handle_ne left right = not (int_eq left.value right.value)

-- operator<
unfoldable pub handle_lt : FileDesc → FileDesc → Bool
handle_lt left right = int_lt left.value right.value

-- operator>=
unfoldable pub handle_ge : FileDesc → FileDesc → Bool
handle_ge left right = not (int_lt left.value right.value)

-- operator>
unfoldable pub handle_gt : FileDesc → FileDesc → Bool
handle_gt left right = int_lt right.value left.value

-- operator<=
unfoldable pub handle_le : FileDesc → FileDesc → Bool
handle_le left right = not (int_lt right.value left.value)

-- The six operators are those of one order: < is transitive, and each of the others says of < and
-- == what its sign says.
pub handle_order :
    (a b c : FileDesc)
    → (handle_lt a b ≡ true → handle_lt b c ≡ true → handle_lt a c ≡ true)
      × (handle_le a b ≡ true → handle_le b a ≡ true → handle_eq a b ≡ true)
      × (handle_lt a b ≡ false → handle_gt a b ≡ false → handle_eq a b ≡ true)
      × (handle_ge a b ≡ true → handle_ne a b ≡ true → handle_gt a b ≡ true)
unfolding handle_eq handle_ne handle_lt handle_ge handle_gt handle_le
handle_order a b c = (
  int_lt_trans a.value b.value c.value,
  (λ h k. int_lt_total a.value b.value (ground arith) (ground arith)),
  int_lt_total a.value b.value,
  λ h k. ground (arith, int_lt_total a.value b.value),
)
