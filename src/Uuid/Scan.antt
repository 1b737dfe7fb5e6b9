-- ===== src/Uuid/Scan.antt =====
-- src/uuid.cpp, the loop of parse_uuid_string: one round at a time.
use librapid.Prelude.{
  ℕ, ◌+◌, ◌≡◌, refl, ap, true, false, List, [], ◌∷◌, ◌++◌, arith, length, set, length-append,
}
use librapid.Uuid.{value, make_hex, store, is_dash, scan, ◌>>=◌}

pub scan_dash :
    (c : ℕ) (s : List ℕ) (j : ℕ) (bytes : List ℕ)
    → is_dash c ≡ true
    → scan (c ∷ s) j bytes ≡ scan s j bytes
unfolding scan
scan_dash c [] j bytes e = rw (e, scan)
scan_dash c (d ∷ s) j bytes e = rw (e, scan)

pub scan_pair :
    (c d : ℕ) (s : List ℕ) (j : ℕ) (bytes : List ℕ)
    → is_dash c ≡ false
    → scan (c ∷ d ∷ s) j bytes
      ≡ (make_hex c d >>= λ v. store bytes j v >>= λ bytes'. scan s (j + 1) bytes')
unfolding scan
scan_pair c d s j bytes e = rw (e, scan)

pub set-length :
    (before after : List ℕ) (w v : ℕ)
    → set (before ++ w ∷ after) (length before) v ≡ before ++ v ∷ after
set-length [] after w v = refl
set-length (x ∷ before) after w v = ap (◌∷◌ x) (set-length before after w v)

pub store-length :
    (before after : List ℕ) (w v : ℕ)
    → store (before ++ w ∷ after) (length before) v ≡ value (before ++ v ∷ after)
store-length before after w v =
    ground (arith, length-append before (w ∷ after), set-length before after w v)
