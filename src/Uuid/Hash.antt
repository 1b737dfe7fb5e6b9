-- ===== src/Uuid/Hash.antt =====
-- src/uuid.cpp, uuid::hash, and operator== of include/rapid/core/uuid.h.
use librapid.Prelude.{◌++◌, ◌≢◌, ℕ, ◌^◌, ◌<◌, ◌≡◌, ◌↔◌, true, List, [], ◌∷◌, arith}
use librapid.Uuid.{Uuid, hash, hash_from, hash_round, bytes_eq, uuid_eq}
use librapid.Prelude.Bits.{bit_xor-lt, bit_xor-cancel}

bytes_eq_iff : (a b : List ℕ) → (bytes_eq a b ≡ true) ↔ (a ≡ b)
unfolding bytes_eq
bytes_eq_iff [] [] = ground arith
bytes_eq_iff [] (y ∷ b) = ground arith
bytes_eq_iff (x ∷ a) [] = ground arith
bytes_eq_iff (x ∷ a) (y ∷ b) = ground (arith, bytes_eq_iff a b)

-- operator== of two UUIDs is equality of their bytes.
pub uuid_eq_iff : (u v : Uuid) → (uuid_eq u v ≡ true) ↔ (u ≡ v)
unfolding uuid_eq
uuid_eq_iff u v = ground (arith, bytes_eq_iff u.bytes v.bytes)

hash_round-lt : (seed byte : ℕ) → seed < 2 ^ 64 → hash_round seed byte < 2 ^ 64
unfolding hash_round
hash_round-lt seed byte h = bit_xor-lt 64 seed _ h (omega arith)

hash_from-lt : (seed : ℕ) (bs : List ℕ) → seed < 2 ^ 64 → hash_from seed bs < 2 ^ 64
unfolding hash_from
hash_from-lt seed [] h = h
hash_from-lt seed (b ∷ bs) h = hash_from-lt (hash_round seed b) bs (hash_round-lt seed b h)

-- A round keeps two bytes apart.
hash_round-injective :
    (seed a b : ℕ)
    → seed < 2 ^ 64
    → a < 256
    → b < 256
    → hash_round seed a ≡ hash_round seed b
    → a ≡ b
unfolding hash_round
hash_round-injective seed a b hs ha hb e =
    let same = bit_xor-cancel 64 seed _ _ hs (omega arith) (omega arith) e in omega arith

hash_from-snoc :
    (seed : ℕ) (bs : List ℕ) (a b : ℕ)
    → seed < 2 ^ 64
    → a < 256
    → b < 256
    → hash_from seed (bs ++ a ∷ []) ≡ hash_from seed (bs ++ b ∷ [])
    → a ≡ b
unfolding hash_from
hash_from-snoc seed [] a b hs ha hb e = hash_round-injective seed a b hs ha hb e
hash_from-snoc seed (x ∷ bs) a b hs ha hb e =
    hash_from-snoc (hash_round seed x) bs a b (hash_round-lt seed x hs) ha hb e

-- Byte sequences that differ in the last byte alone have different hashes.
pub hash-last :
    (bs : List ℕ) (a b : ℕ)
    → a < 256
    → b < 256
    → a ≢ b
    → hash (record { bytes = bs ++ a ∷ [] }) ≢ hash (record { bytes = bs ++ b ∷ [] })
unfolding hash
hash-last bs a b ha hb ne e = ne (hash_from-snoc 0 bs a b (omega arith) ha hb e)

-- The hash of any UUID is a 64-bit word.
pub hash-lt : (u : Uuid) → hash u < 2 ^ 64
unfolding hash
hash-lt u = hash_from-lt 0 u.bytes (omega arith)
