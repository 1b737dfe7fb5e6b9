-- ===== src/Uuid/Copies.antt =====
-- src/uuid.cpp and include/rapid/core/uuid.h: copies of a UUID, operator!= and std::hash.
use librapid.Prelude.{ℕ, Bool, false, not, ◌≡◌, refl, if◌then◌else◌, arith}
use librapid.Uuid.{Uuid, uuid_eq, hash}
use librapid.Uuid.Hash.{uuid_eq_iff}

-- operator=, by whether `other` is *this.
unfoldable pub assign : (same_object : Bool) → (self other : Uuid) → Uuid
assign same_object self other =
    if not same_object then record self { bytes = other.bytes } else self

-- uuid(const uuid &), which assigns to an object not yet initialised.
unfoldable pub copy : (indeterminate : Uuid) → Uuid → Uuid
unfolding assign
copy indeterminate other = assign false indeterminate other

unfoldable pub uuid_ne : Uuid → Uuid → Bool
unfolding uuid_eq
uuid_ne self other = not (uuid_eq self other)

-- std::hash<uuid>
unfoldable pub std_hash : Uuid → ℕ
unfolding hash
std_hash id = hash id

-- A copy is equal to what was copied, and hashes alike.
copy_lem : (x u : Uuid) → (uuid_ne (copy x u) u ≡ false) × (std_hash (copy x u) ≡ std_hash u)
unfolding copy assign uuid_ne std_hash
copy_lem x u = (ground (arith, uuid_eq_iff u u), refl)
