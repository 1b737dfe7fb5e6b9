-- ===== src/Uuid/Lenient.antt =====
-- src/uuid.cpp: texts with dashes in place of digits.
use librapid.Prelude.{
  ℕ, zero, suc, ◌-◌, ◌*◌, ◌≤◌, ◌<◌, ◌≡◌, refl, ap, ◌∙◌, List, [], ◌∷◌, ◌++◌, arith, length,
  replicate, All,
}
use librapid.Uuid.Scan.{scan_dash}
use librapid.Uuid.RoundTrip.{scan-put_run, c_str-put_run}
use librapid.Uuid.{Uuid, Parsed, value, scan, parse_uuid_string, from_string, put_run, c_str, ◌>>=◌}

abbrev pub dashes : ℕ → List ℕ
dashes n = replicate n b'-'

scan-dashes : (n j : ℕ) (bytes : List ℕ) → scan (dashes n) j bytes ≡ value bytes
scan-dashes zero j bytes = unfold scan in refl
scan-dashes (suc n) j bytes = scan_dash b'-' (dashes n) j bytes refl ∙ scan-dashes n j bytes

c_str-dashes : (n : ℕ) (junk : List ℕ) → c_str (dashes n ++ 0 ∷ junk) ≡ dashes n
c_str-dashes zero junk = refl
c_str-dashes (suc n) junk = ap (◌∷◌ b'-') (c_str-dashes n junk)

-- The text passes the first two tests, and the loop fills in the bytes that are there.
read_short :
    (xs junk : List ℕ) (n m : ℕ)
    → All (λ b. b < 256) xs
    → replicate {A = ℕ} 16 0 ≡ replicate (length xs) 0 ++ replicate m 0
    → parse_uuid_string (put_run xs ++ dashes n) ≡ scan (put_run xs ++ dashes n) 0 (replicate 16 0)
    → from_string (put_run xs ++ (dashes n ++ 0 ∷ junk))
      ≡ value (record { bytes = xs ++ replicate m 0 })
unfolding from_string
read_short xs junk n m small zeros tested =
    let text =
      c_str-put_run xs (dashes n ++ 0 ∷ junk) ∙ ap (◌++◌ (put_run xs)) (c_str-dashes n junk) in
    let loop =
      ap (scan (put_run xs ++ dashes n) 0) zeros
      ∙ scan-put_run xs (dashes n) [] (replicate m 0) small
      ∙ scan-dashes n (length xs) (xs ++ replicate m 0) in
    ap (λ s. parse_uuid_string s >>= finish) text ∙ ap (λ r. r >>= finish) (tested ∙ loop)
  where
    finish : List ℕ → Parsed Uuid
    finish bytes = value (record { bytes = bytes })

-- A text of up to four bytes in hexadecimal followed by dashes alone, 36 characters in all, is
-- accepted by uuid::fromString, with zeros for the bytes that are missing.
pub from_string-short :
    (xs junk : List ℕ)
    → length xs ≤ 4
    → All (λ b. b < 256) xs
    → from_string (put_run xs ++ (dashes (36 - 2 * length xs) ++ 0 ∷ junk))
      ≡ value (record { bytes = xs ++ replicate (16 - length xs) 0 })
unfolding parse_uuid_string put_run
from_string-short [] junk h small = read_short [] junk 36 16 small refl refl
from_string-short (a ∷ []) junk h small = read_short (a ∷ []) junk 34 15 small refl refl
from_string-short (a ∷ b ∷ []) junk h small = read_short (a ∷ b ∷ []) junk 32 14 small refl refl
from_string-short (a ∷ b ∷ c ∷ []) junk h small =
    read_short (a ∷ b ∷ c ∷ []) junk 30 13 small refl refl
from_string-short (a ∷ b ∷ c ∷ d ∷ []) junk h small =
    read_short (a ∷ b ∷ c ∷ d ∷ []) junk 28 12 small refl refl
from_string-short _ junk h small = absurd (omega arith)
