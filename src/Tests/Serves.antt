-- ===== src/Tests/Serves.antt =====
-- Blocks of memory, and requests to the example program.
use librapid.Prelude.{ℕ, ◌*◌, ◌%◌, ◌^◌, ◌≤◌, ◌≡◌, ◌≢◌, refl, pos, some, [], ◌∷◌, arith}
use librapid.Outcome.Laws.{Returns}
use librapid.World.{server_close}
use librapid.Program.Echo.{Answered, requests, requests_lem}
use librapid.Memory.{Heap}
use librapid.Memory.Aligned.{Memalign}
use librapid.Tests.Scenes.{Here, link, link_channel, listed_row, world}
use native.Mathlib.Nat.{one-le-pow}

abbrev asked : Here
asked = world (listed_row (pos 5)) (pos 5) server_close

-- A heap with one block at each alignment, as large as was asked for last.
abbrev heap : Heap
heap = record { State = ℕ; posix_memalign = λ align size s. (some align, size); free = λ p s. s }

pub heap-Aligned :
    (k size : ℕ) (s : ℕ) (p : ℕ)
    → 2 ^ k % 8 ≡ 0
    → some (2 ^ k) ≡ some p
    → (p ≢ 0) × ((q : ℕ) × (p ≡ q * 2 ^ k)) × (size ≤ size)
heap-Aligned k size s p eight given =
    let same : 2 ^ k ≡ p = ground arith in
    let large = one-le-pow k 2 (omega arith) in
    (λ z. absurd (omega (arith, same, large, z)), (1, omega (arith, same)), omega arith)

abbrev heap_laws : Memalign heap
heap_laws = record { room = λ s p. s; aligned = heap-Aligned }

-- Two requests, of which the first comes with a byte left over.
requests_lem_example :
    Returns
      (λ _ w'. Answered 3 10 asked (link server_close) (link_channel (pos 5)) 2 w')
      (requests 3 10 2 asked)
requests_lem_example =
    requests_lem 3 10 1 asked (link server_close) (link_channel (pos 5)) refl refl refl refl
      (b'h', b'i' ∷ [], refl, (b'h', b'i' ∷ [], refl, tt))
