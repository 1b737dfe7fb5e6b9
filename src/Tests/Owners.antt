-- ===== src/Tests/Owners.antt =====
-- The shared pointers to a connection, and the clients as a map, at concrete values.
use mathlib.Core.Quot.{Quot}
use librapid.Prelude.{◌+◌, ◌≡◌, refl, false, true, [], ◌∷◌, arith}
use librapid.Outcome.{M, ok, stuck, dangling, and_then, ◌>>◌}
use librapid.Lifetime.{Life, connect_destroyed, read_bytes, new_connection, serve_reads}
use librapid.Lifetime.Owners.{Stores, read_bytes-destroyed, life-Owners}
use librapid.Lifetime.Cycle.{connected, drops, idle, cycle, reset_connection, connected-drops}
use librapid.Server.{lookup}
use librapid.Server.Clients.{IsMap}
use librapid.Server.Registry.{Entries, Registry}
use librapid.Tests.Uuids.{other_uuid}

-- A handler that keeps nothing, and one that keeps a copy.
abbrev keeps_none : M Life (Unit {0})
keeps_none s = ok tt s

abbrev keeps_one : M Life (Unit {0})
keeps_one s = ok tt (record s { owners = s.owners + 1 })

keeps_none-Stores : Stores 0 keeps_none
keeps_none-Stores s live = ground arith

keeps_one-Stores : Stores 1 keeps_one
keeps_one-Stores s live = refl

life-Owners_example :
    and_then (new_connection keeps_none) (λ _. serve_reads keeps_one keeps_none 2)
    ≡ ok tt (record { owners = 2; listed = false; closes = 0 })
life-Owners_example =
    life-Owners keeps_none keeps_one keeps_none 0 1 0 2 keeps_none-Stores keeps_one-Stores
      keeps_none-Stores

abbrev only_listed : Life
only_listed = record { owners = 1; listed = true; closes = 0 }

read_bytes-destroyed_example :
    read_bytes (connect_destroyed keeps_none) only_listed ≡ stuck dangling
read_bytes-destroyed_example =
    read_bytes-destroyed keeps_none 0 keeps_none-Stores only_listed (omega arith) refl

one_entry-IsMap : IsMap ((other_uuid, 4) ∷ [])
unfolding lookup
one_entry-IsMap = (refl, tt)

abbrev one_entry : Entries
one_entry = ((other_uuid, 4) ∷ [], one_entry-IsMap)

abbrev one_client : Registry
one_client = Quot.mk one_entry

connected-drops_example :
    ((connected >> drops 2) (idle 2) ≡ ok tt cycle)
    × (drops 2 (idle 2) ≡ ok tt (idle 0))
    × ((connected >> drops 2 >> reset_connection) (idle 2) ≡ ok tt (idle 0))
connected-drops_example = connected-drops 2 (omega arith)
