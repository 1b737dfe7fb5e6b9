-- ===== src/Tests/Uuids.antt =====
-- UUIDs, the map of clients by their ids, and alignments at concrete values.
use librapid.Prelude.{ℕ, ◌≡◌, refl, List, [], ◌∷◌, ◌++◌, arith, replicate}
use librapid.Uuid.{Uuid, value, from_string, print}
use librapid.Uuid.RoundTrip.{from_string-print}
use librapid.Uuid.Bounds.{IsSafeUuid, from_string-IsSafe}
use librapid.Server.{Clients}

abbrev pub some_bytes : List ℕ
some_bytes =
    0x12 ∷ 0x3e ∷ 0x45 ∷ 0x67 ∷ 0xe8 ∷ 0x9b ∷ 0x12 ∷ 0xd3 ∷ 0xa4 ∷ 0x56 ∷ 0x42 ∷ 0x66 ∷ 0x14 ∷ 0x17
    ∷ 0x40 ∷ 0 ∷ []

abbrev pub some_uuid : Uuid
some_uuid = record { bytes = some_bytes }

abbrev pub other_uuid : Uuid
other_uuid = record { bytes = replicate 16 7 }

abbrev some_text : List ℕ
some_text = b'1' ∷ b'x' ∷ 0 ∷ []

from_string-print_example : from_string (print some_uuid ++ 0 ∷ 5 ∷ []) ≡ value some_uuid
from_string-print_example = from_string-print some_uuid (5 ∷ []) (refl, omega arith)

from_string-IsSafe_example : IsSafeUuid (from_string some_text)
from_string-IsSafe_example = from_string-IsSafe some_text

abbrev one_client : Clients
one_client = (some_uuid, 100) ∷ []
