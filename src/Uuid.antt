-- ===== src/Uuid.antt =====
-- src/uuid.cpp and include/rapid/core/uuid.h: 16 bytes, their text and their hash.
-- A char is its code, 0 to 255; `char` is signed there, and a code above 127 takes the same
-- branches either way.
pub mod Scan
pub mod RoundTrip
pub mod Bounds
pub mod Copies
pub mod Hash
pub mod Lenient
use librapid.Prelude.{
  ℕ, zero, suc, ◌+◌, ◌-◌, ◌*◌, ◌/◌, ◌%◌, ◌^◌, Bool, true, false, not, ◌&&◌, ◌||◌, Option, none,
  some, List, [], ◌∷◌, ◌++◌, bit_xor, ltb, ◌==◌, if◌then◌else◌, length, get_or, set, replicate,
  take, drop, All, ◌<◌, ◌≡◌,
}

-- A result, or UuidErrorException.
pub data Parsed (A : Type 0) : Type 0 where
  value : A → Parsed A
  invalid_digital : Parsed A
  invalid_uuid : Parsed A
  -- a store beyond the end of the array
  overrun : Parsed A

infixl 5 ◌>>=◌
abbrev pub ◌>>=◌ : {A B : Type 0} → Parsed A → (A → Parsed B) → Parsed B
value a >>= f = f a
invalid_digital >>= f = invalid_digital
invalid_uuid >>= f = invalid_uuid
overrun >>= f = overrun

pub record Uuid : Type 0 where
  pub bytes : List ℕ

-- std::array<uint8_t, 16>
abbrev pub IsUuid : Uuid → Type 0
IsUuid u = (length u.bytes ≡ 16) × All (λ b. b < 256) u.bytes

unfoldable pub to_char : ℕ → Parsed ℕ
to_char digital =
    if ltb 47 digital && ltb digital 58
    then value (digital - 48)
    else if ltb 96 digital && ltb digital 103
    then value (digital - 87)
    else if ltb 64 digital && ltb digital 71
    then value (digital - 55)
    else invalid_digital

-- The product is cut to uint8_t by the return type.
unfoldable pub make_hex : ℕ → ℕ → Parsed ℕ
unfolding to_char
make_hex a b = do h ← to_char a; l ← to_char b; value ((h * 16 + l) % 256)

-- operator[] of a std::string: the terminator at its end.
abbrev pub char_at : List ℕ → ℕ → ℕ
char_at s i = get_or s i 0

-- uuid[j] = v
abbrev pub store : List ℕ → ℕ → ℕ → Parsed (List ℕ)
store bytes j v = if ltb j (length bytes) then value (set bytes j v) else overrun

abbrev pub is_dash : ℕ → Bool
is_dash c = c == b'-'

-- The loop of parse_uuid_string, on the characters from index i on. A round that does not see a
-- dash reads two characters; behind the last one stands the terminator.
unfoldable pub scan : List ℕ → ℕ → List ℕ → Parsed (List ℕ)
unfolding make_hex
scan [] j bytes = value bytes
scan (c ∷ []) j bytes = elim (is_dash c) [
  | true ↦ value bytes
  | false ↦ do v ← make_hex c 0; store bytes j v
]
scan (c ∷ d ∷ s) j bytes = elim (is_dash c) [
  | true ↦ scan (d ∷ s) j bytes
  | false ↦ do v ← make_hex c d; bytes' ← store bytes j v; scan s (j + 1) bytes'
]

unfoldable pub parse_uuid_string : List ℕ → Parsed (List ℕ)
unfolding scan
parse_uuid_string s =
    if not (length s == 36)
    then invalid_uuid
    else if not (is_dash (char_at s 8))
        || not (is_dash (char_at s 13))
        || not (is_dash (char_at s 18))
        || not (is_dash (char_at s 23))
    then invalid_uuid
    else scan s 0 (replicate 16 0)

-- std::string(const char *): the characters before the first zero.
abbrev pub c_str : List ℕ → List ℕ
c_str [] = []
c_str (c ∷ s) = if c == 0 then [] else c ∷ c_str s

-- uuid::fromString. Only data() of the view is used, never its length: the argument is the memory
-- from there on.
unfoldable pub from_string : List ℕ → Parsed Uuid
unfolding parse_uuid_string
from_string memory = do bytes ← parse_uuid_string (c_str memory); value (record { bytes = bytes })

-- A digit as std::hex writes it.
abbrev pub hex_digit : ℕ → ℕ
hex_digit d = if ltb d 10 then b'0' + d else b'a' + (d - 10)

-- `setfill('0') << setw(2)` and a value below 256.
unfoldable pub put_hex : ℕ → List ℕ
put_hex b = hex_digit (b / 16) ∷ hex_digit (b % 16) ∷ []

unfoldable pub put_run : List ℕ → List ℕ
unfolding put_hex
put_run [] = []
put_run (b ∷ bs) = put_hex b ++ put_run bs

-- operator<<: the groups of 4, 2, 2, 2 and 6 bytes.
unfoldable pub print : Uuid → List ℕ
unfolding put_run
print u =
    put_run (take 4 u.bytes)
    ++ b'-'
      ∷ (put_run (take 2 (drop 4 u.bytes))
          ++ b'-'
            ∷ (put_run (take 2 (drop 6 u.bytes))
                ++ b'-'
                  ∷ (put_run (take 2 (drop 8 u.bytes))
                      ++ b'-' ∷ put_run (take 6 (drop 10 u.bytes)))))

-- uuid::hash; size_t has 64 bits.
unfoldable pub hash_round : ℕ → ℕ → ℕ
hash_round seed byte =
    bit_xor seed ((byte + 0x9e3779b9 + seed * 2 ^ 6 % 2 ^ 64 + seed / 2 ^ 2) % 2 ^ 64)

unfoldable pub hash_from : ℕ → List ℕ → ℕ
hash_from seed [] = seed
hash_from seed (b ∷ bs) = hash_from (hash_round seed b) bs

unfoldable pub hash : Uuid → ℕ
unfolding hash_from hash_round
hash u = hash_from 0 u.bytes

-- operator==, a memcmp.
unfoldable pub bytes_eq : List ℕ → List ℕ → Bool
bytes_eq [] [] = true
bytes_eq (a ∷ u) (b ∷ v) = (a == b) && bytes_eq u v
bytes_eq _ _ = false

unfoldable pub uuid_eq : Uuid → Uuid → Bool
unfolding bytes_eq
uuid_eq u v = bytes_eq u.bytes v.bytes

-- uuid::uuid()
pub nil_uuid : Uuid
nil_uuid = record { bytes = replicate 16 0 }

-- uuid::newUUID copies the 16 bytes that uuid_generate wrote.
unfoldable pub new_uuid : List ℕ → Uuid
new_uuid id = record { bytes = take 16 id }
