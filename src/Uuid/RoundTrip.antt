-- ===== src/Uuid/RoundTrip.antt =====
-- src/uuid.cpp: what fromString makes of what operator<< wrote.
use librapid.Prelude.{
  ℕ, ◌+◌, ◌/◌, ◌%◌, ◌<◌, ◌≡◌, refl, ap, ◌∙◌, false, List, [], ◌∷◌, ◌++◌, arith, ◌==◌, length,
  replicate, All, length-append,
}
use mathlib.Core.List.{append_assoc, append-nil}
use librapid.Uuid.Scan.{scan_dash, scan_pair, store-length}
use librapid.Uuid.{
  Uuid, IsUuid, value, to_char, make_hex, is_dash, c_str, scan, parse_uuid_string, from_string,
  hex_digit, put_hex, put_run, print, ◌>>=◌,
}

to_char-hex_digit : (d : ℕ) → d < 16 → to_char (hex_digit d) ≡ value d
unfolding to_char
to_char-hex_digit d h = ground arith

pub make_hex-put_hex :
    (b : ℕ) → b < 256 → make_hex (hex_digit (b / 16)) (hex_digit (b % 16)) ≡ value b
unfolding make_hex to_char
make_hex-put_hex b h =
    rw (to_char-hex_digit (b / 16) (omega arith), to_char-hex_digit (b % 16) (omega arith))
      (ap value (omega arith))

hex_digit-not-dash : (d : ℕ) → d < 16 → is_dash (hex_digit d) ≡ false
hex_digit-not-dash d h = ground arith

hex_digit-not-zero : (d : ℕ) → (hex_digit d == 0) ≡ false
hex_digit-not-zero d = ground arith

-- One byte that was written in hexadecimal goes into the next free place.
scan-put_hex :
    (b : ℕ) (rest before after : List ℕ)
    → b < 256
    → scan (put_hex b ++ rest) (length before) (before ++ 0 ∷ after)
      ≡ scan rest (length before + 1) (before ++ b ∷ after)
unfolding put_hex
scan-put_hex b rest before after h =
    rw
      (
        scan_pair (hex_digit (b / 16)) (hex_digit (b % 16)) rest (length before)
            (before ++ 0 ∷ after) (hex_digit-not-dash (b / 16) (omega arith)),
        make_hex-put_hex b h,
        store-length before after 0 b,
      )
      refl

-- A run of bytes goes, in order, into the places that are still zero.
pub scan-put_run :
    (bs rest before after : List ℕ)
    → All (λ b. b < 256) bs
    → scan (put_run bs ++ rest) (length before) (before ++ (replicate (length bs) 0 ++ after))
      ≡ scan rest (length (before ++ bs)) (before ++ (bs ++ after))
unfolding put_run
scan-put_run [] rest before after h = rw append-nil
scan-put_run (b ∷ bs) rest before after h =
    let here = scan-put_hex b (put_run bs ++ rest) before (replicate (length bs) 0 ++ after) h.0 in
    let later = scan-put_run bs rest (before ++ b ∷ []) after h.1 in
    let place : length before + 1 ≡ length (before ++ b ∷ []) =
      omega (arith, length-append before (b ∷ [])) in
    rw append_assoc (here ∙ rw place (simp append_assoc at later))

pub c_str-put_run : (bs rest : List ℕ) → c_str (put_run bs ++ rest) ≡ put_run bs ++ c_str rest
unfolding put_run put_hex
c_str-put_run [] rest = refl
c_str-put_run (b ∷ bs) rest =
    rw (hex_digit-not-zero (b / 16), hex_digit-not-zero (b % 16), c_str-put_run bs rest)

-- Five groups with a dash between them: the text that `print` writes.
abbrev grouped : (a b c d e rest : List ℕ) → List ℕ
grouped a b c d e rest =
    put_run a
    ++ b'-' ∷ (put_run b ++ b'-' ∷ (put_run c ++ b'-' ∷ (put_run d ++ b'-' ∷ (put_run e ++ rest))))

c_str-grouped :
    (a b c d e rest : List ℕ) → c_str (grouped a b c d e (0 ∷ rest)) ≡ grouped a b c d e []
c_str-grouped a b c d e rest =
    rw
      (
        c_str-put_run a _,
        c_str-put_run b _,
        c_str-put_run c _,
        c_str-put_run d _,
        c_str-put_run e (0 ∷ rest),
      )
      refl

-- A dash and the group behind it.
scan-dash-run :
    (bs rest before after : List ℕ)
    → All (λ b. b < 256) bs
    → scan
        (b'-' ∷ (put_run bs ++ rest))
        (length before)
        (before ++ (replicate (length bs) 0 ++ after))
      ≡ scan rest (length (before ++ bs)) (before ++ (bs ++ after))
scan-dash-run bs rest before after h =
    scan_dash b'-' (put_run bs ++ rest) (length before) _ refl ∙ scan-put_run bs rest before after h

bytes_read :
    (bs junk : List ℕ)
    → length bs ≡ 16
    → All (λ b. b < 256) bs
    → from_string (print (record { bytes = bs }) ++ 0 ∷ junk) ≡ value (record { bytes = bs })
unfolding from_string print
bytes_read
      (b0 ∷ b1 ∷ b2 ∷ b3 ∷ b4 ∷ b5 ∷ b6 ∷ b7 ∷ b8 ∷ b9 ∷ b10 ∷ b11 ∷ b12 ∷ b13 ∷ b14 ∷ b15 ∷ [])
      junk n small =
    let a : List ℕ = b0 ∷ b1 ∷ b2 ∷ b3 ∷ [] in
    let b : List ℕ = b4 ∷ b5 ∷ [] in
    let c : List ℕ = b6 ∷ b7 ∷ [] in
    let d : List ℕ = b8 ∷ b9 ∷ [] in
    let e : List ℕ = b10 ∷ b11 ∷ b12 ∷ b13 ∷ b14 ∷ b15 ∷ [] in
    let e_text : List ℕ = b'-' ∷ (put_run e ++ []) in
    let d_text : List ℕ = b'-' ∷ (put_run d ++ e_text) in
    let c_text : List ℕ = b'-' ∷ (put_run c ++ d_text) in
    let b_text : List ℕ = b'-' ∷ (put_run b ++ c_text) in
    let loop : scan (grouped a b c d e []) 0 (replicate 16 0)
        ≡ value (a ++ (b ++ (c ++ (d ++ e)))) =
      scan-put_run a b_text [] (replicate 12 0) (omega arith)
      ∙ scan-dash-run b c_text a (replicate 10 0) (omega arith)
      ∙ scan-dash-run c d_text (a ++ b) (replicate 8 0) (omega arith)
      ∙ scan-dash-run d e_text (a ++ b ++ c) (replicate 6 0) (omega arith)
      ∙ scan-dash-run e [] (a ++ b ++ c ++ d) [] (omega arith) in
    ap (λ s. parse_uuid_string s >>= λ bytes. value (record { bytes = bytes }))
      (c_str-grouped a b c d e junk)
    ∙ ap (λ r. r >>= λ bytes. value (record { bytes = bytes })) loop
bytes_read _ junk n small = absurd (omega arith)

-- uuid::fromString reads back every UUID of 16 bytes that operator<< wrote, whatever memory
-- follows the terminator.
pub from_string-print :
    (u : Uuid) (junk : List ℕ) → IsUuid u → from_string (print u ++ 0 ∷ junk) ≡ value u
from_string-print u junk (n, small) = bytes_read u.bytes junk n small
