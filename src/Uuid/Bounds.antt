-- ===== src/Uuid/Bounds.antt =====
-- src/uuid.cpp: what fromString does with any text at all.
use librapid.Prelude.{
  ltb, not, ◌||◌, ◌%◌, ◌&&◌, ℕ, zero, suc, ◌+◌, ◌-◌, ◌*◌, ◌≤◌, ◌<◌, ◌≡◌, ◌⊎◌, inl, inr, Bool, true,
  false, Bool-cases, List, [], ◌∷◌, arith, ◌==◌, if◌then◌else◌, length, set, replicate, drop, All,
  length-set,
}
use librapid.Uuid.Scan.{scan_dash, scan_pair}
use librapid.Uuid.{
  Uuid, IsUuid, Parsed, value, invalid_digital, invalid_uuid, overrun, to_char, make_hex, is_dash,
  char_at, c_str, scan, parse_uuid_string, from_string, ◌>>=◌,
}

-- The characters that the loop does not skip.
abbrev letters : List ℕ → ℕ
letters [] = 0
letters (c ∷ s) = if is_dash c then letters s else suc (letters s)

letters_bound : (s : List ℕ) → letters s ≤ length s
letters_bound [] = omega arith
letters_bound (c ∷ s) = ground (arith, letters_bound s)

letters_head :
    (i : ℕ) (s : List ℕ) → is_dash (char_at s i) ≡ true → letters s ≤ i + letters (drop (suc i) s)
letters_head zero [] h = omega arith
letters_head zero (c ∷ s) h = ground arith
letters_head (suc i) [] h = omega arith
letters_head (suc i) (c ∷ s) h = ground (arith, letters_head i s h)

-- A dash at index p: at most p - n letters stand from n up to it.
letters_split :
    (n p : ℕ) (s : List ℕ)
    → n ≤ p
    → is_dash (char_at s p) ≡ true
    → letters (drop n s) ≤ (p - n) + letters (drop (suc p) s)
letters_split zero p s le h = omega (arith, letters_head p s h)
letters_split (suc n) zero s le h = absurd (omega arith)
letters_split (suc n) (suc p) [] le h = omega arith
letters_split (suc n) (suc p) (c ∷ s) le h = omega (arith, letters_split n p s (omega arith) h)

drop-length : (n : ℕ) (s : List ℕ) → length (drop n s) ≡ length s - n
drop-length zero s = omega arith
drop-length (suc n) [] = omega arith
drop-length (suc n) (c ∷ s) = omega (arith, drop-length n s)

-- The text that passes the first two tests has at most 32 letters.
letters_accepted :
    (s : List ℕ)
    → length s ≡ 36
    → is_dash (char_at s 8) ≡ true
    → is_dash (char_at s 13) ≡ true
    → is_dash (char_at s 18) ≡ true
    → is_dash (char_at s 23) ≡ true
    → letters s ≤ 32
letters_accepted s n h8 h13 h18 h23 = omega (
  arith,
  letters_split 0 8 s (omega arith) h8,
  letters_split 9 13 s (omega arith) h13,
  letters_split 14 18 s (omega arith) h18,
  letters_split 19 23 s (omega arith) h23,
  letters_bound (drop 24 s),
  drop-length 24 s,
)

to_char-cases :
    (c : ℕ)
    → (to_char c ≡ invalid_digital)
      ⊎ ((v : ℕ) × (to_char c ≡ value v) × (v < 16) × (is_dash c ≡ false))
to_char-cases c = elim (Bool-cases (ltb 47 c && ltb c 58)) [
  | inl d ↦ inr (c - 48, unfold to_char in rw d, ground arith, ground arith)
  | inr nd ↦ elim (Bool-cases (ltb 96 c && ltb c 103)) [
    | inl l ↦ inr (c - 87, unfold to_char in rw (nd, l), ground arith, ground arith)
    | inr nl ↦ elim (Bool-cases (ltb 64 c && ltb c 71)) [
      | inl u ↦ inr (c - 55, unfold to_char in rw (nd, nl, u), ground arith, ground arith)
      | inr nu ↦ inl (unfold to_char in rw (nd, nl, nu))
    ]
  ]
]

-- A pair of characters is a byte and holds no dash, or is refused.
make_hex-cases :
    (a b : ℕ)
    → (make_hex a b ≡ invalid_digital)
      ⊎ ((v : ℕ) × (make_hex a b ≡ value v) × (v < 256) × (is_dash b ≡ false))
unfolding make_hex
make_hex-cases a b = elim (to_char-cases a) [
  | inl e ↦ inl (rw e)
  | inr (h, eh, hh, _) ↦ elim (to_char-cases b) [
    | inl e ↦ inl (rw (eh, e))
    | inr (l, el, hl, nd) ↦ inr ((h * 16 + l) % 256, rw (eh, el), omega arith, nd)
  ]
]

-- A result of the loop: 16 bytes, or a refusal, and never a store out of bounds.
abbrev IsBytes : List ℕ → Type 0
IsBytes bytes = (length bytes ≡ 16) × All (λ b. b < 256) bytes

abbrev IsSafe : Parsed (List ℕ) → Type 0
IsSafe (value bytes) = IsBytes bytes
IsSafe invalid_digital = Unit
IsSafe invalid_uuid = Unit
IsSafe overrun = ⊥

abbrev pub IsSafeUuid : Parsed Uuid → Type 0
IsSafeUuid (value u) = IsUuid u
IsSafeUuid invalid_digital = Unit
IsSafeUuid invalid_uuid = Unit
IsSafeUuid overrun = ⊥

All-set :
    (bytes : List ℕ) (j v : ℕ)
    → v < 256
    → All (λ b. b < 256) bytes
    → All (λ b. b < 256) (set bytes j v)
All-set [] j v h a = tt
All-set (b ∷ bytes) zero v h a = (h, a.1)
All-set (b ∷ bytes) (suc j) v h a = (a.0, All-set bytes j v h a.1)

-- The last character, if it is a letter, is paired with the terminator and refused.
scan_last : (c j : ℕ) (bytes : List ℕ) → is_dash c ≡ false → scan (c ∷ []) j bytes ≡ invalid_digital
unfolding scan make_hex to_char
scan_last c j bytes e = ground arith

scan-IsSafe :
    (s : List ℕ) (j : ℕ) (bytes : List ℕ)
    → IsBytes bytes
    → 2 * j + letters s ≤ 32
    → IsSafe (scan s j bytes)
scan-IsSafe [] j bytes ok room = unfold scan in ok
scan-IsSafe (c ∷ []) j bytes ok room = elim (Bool-cases (is_dash c)) [
  | inl e ↦ rw (scan_dash c [] j bytes e) (scan-IsSafe [] j bytes ok (ground arith))
  | inr e ↦ rw (scan_last c j bytes e) tt
]
scan-IsSafe (c ∷ d ∷ s) j bytes ok room = elim (Bool-cases (is_dash c)) [
  | inl e ↦ rw (scan_dash c (d ∷ s) j bytes e) (scan-IsSafe (d ∷ s) j bytes ok (ground arith))
  | inr e ↦ rw (scan_pair c d s j bytes e) (elim (make_hex-cases c d) [
    | inl bad ↦ rw bad tt
    | inr (v, good, lt, nd) ↦
        let fits : ltb j (length bytes) ≡ true = ground arith in
        rw (good, fits)
          (scan-IsSafe s (j + 1) (set bytes j v)
            (omega (arith, length-set bytes j v), All-set bytes j v lt ok.1) (ground arith))
  ])
]

accepted_room :
    (s : List ℕ)
    → (length s == 36) ≡ true
    → (is_dash (char_at s 8)
        && is_dash (char_at s 13)
        && is_dash (char_at s 18)
        && is_dash (char_at s 23))
      ≡ true
    → 2 * 0 + letters s ≤ 32
accepted_room s n d = ground (arith, letters_accepted s)

all_dashes :
    (a b c d : Bool) → (a && b && c && d) ≡ true → (not a || not b || not c || not d) ≡ false
all_dashes a b c d h = ground arith

a_letter : (a b c d : Bool) → (a && b && c && d) ≡ false → (not a || not b || not c || not d) ≡ true
a_letter a b c d h = ground arith

parse-IsSafe : (s : List ℕ) → IsSafe (parse_uuid_string s)
unfolding parse_uuid_string
parse-IsSafe s = elim (Bool-cases (length s == 36)) [
  | inr e ↦ rw e tt
  | inl n ↦
      elim (Bool-cases (
        is_dash (char_at s 8)
        && is_dash (char_at s 13)
        && is_dash (char_at s 18)
        && is_dash (char_at s 23))) [
          | inl d ↦
              rw
                (
                  n,
                  all_dashes (is_dash (char_at s 8)) (is_dash (char_at s 13))
                      (is_dash (char_at s 18)) (is_dash (char_at s 23)) d,
                )
                (scan-IsSafe s 0 (replicate 16 0) (omega arith) (accepted_room s n d))
          | inr d ↦
              rw
                (
                  n,
                  a_letter (is_dash (char_at s 8)) (is_dash (char_at s 13)) (is_dash (char_at s 18))
                      (is_dash (char_at s 23)) d,
                )
                tt
        ]
]

Uuid-IsSafe :
    (r : Parsed (List ℕ)) → IsSafe r → IsSafeUuid (r >>= λ bytes. value (record { bytes = bytes }))
Uuid-IsSafe (value bytes) h = h
Uuid-IsSafe invalid_digital h = tt
Uuid-IsSafe invalid_uuid h = tt
Uuid-IsSafe overrun h = h

-- No text makes uuid::fromString store beyond the array of 16 bytes; it refuses the text or
-- gives 16 bytes.
pub from_string-IsSafe : (memory : List ℕ) → IsSafeUuid (from_string memory)
unfolding from_string
from_string-IsSafe memory =
    Uuid-IsSafe (parse_uuid_string (c_str memory)) (parse-IsSafe (c_str memory))
