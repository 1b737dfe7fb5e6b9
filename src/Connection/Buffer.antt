-- ===== src/Connection/Buffer.antt =====
-- src/buffer.cpp: the getters of Buffer, which is its characters.
use librapid.Prelude.{ℕ, ◌+◌, ◌≡◌, refl, List, [], ◌∷◌, length, arith}
use librapid.Connection.{copy_from, clear}

-- The view of a string_view, and the copy of a string.
unfoldable pub slice : List ℕ → List ℕ
slice buffer = buffer

unfoldable pub read_to_end : List ℕ → List ℕ
read_to_end buffer = buffer

unfoldable pub readable : List ℕ → ℕ
readable buffer = length buffer

-- What copyFrom adds is readable behind what was, and nothing is after a clear.
readable-copy_from :
    (buffer bytes : List ℕ)
    → (readable (copy_from buffer bytes) ≡ readable buffer + readable bytes)
      × (readable (clear buffer) ≡ 0)
unfolding readable copy_from clear
readable-copy_from [] bytes = (omega arith, refl)
readable-copy_from (b ∷ buffer) bytes = ground (arith, readable-copy_from buffer bytes)
