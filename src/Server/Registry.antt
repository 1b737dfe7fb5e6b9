-- ===== src/Server/Registry.antt =====
-- clients_ of src/tcpserver.cpp as an std::unordered_map: the order in which the list of the model
-- has the entries is forgotten.
use mathlib.Core.Quot
use mathlib.Core.Quot.{Quot, Quot-set}
use librapid.Prelude.{ℕ, ◌≡◌, ◌↔◌, ap, Option, none, some, arith, if◌then◌else◌}
use librapid.Uuid.{Uuid, uuid_eq}
use librapid.Server.{Clients, lookup, insert, erase}
use librapid.Server.Clients.{IsMap, lookup-insert_any, insert-IsMap, lookup-erase, erase-IsMap}

abbrev pub Entries : Type 0
Entries = (m : Clients) × IsMap m

-- Every id leads to the same connection.
abbrev pub SameEntries : Entries → Entries → Type 0
SameEntries m n = (k : Uuid) → lookup k m.0 ≡ lookup k n.0

abbrev pub Registry : Type 0
Registry = Quot SameEntries

pub ids_set : IsSet (Option ℕ)
ids_set = hlevel

unfoldable pub find : Uuid → Registry → Option ℕ
find k = Quot.lift ids_set (λ m. lookup k m.0) (λ m n h. h k)

abbrev pub insert_entry : Uuid → ℕ → Entries → Entries
insert_entry id c m = (insert id c m.0, insert-IsMap id c m.0 m.1)

abbrev pub erase_entry : Uuid → Entries → Entries
erase_entry id m = (erase id m.0, erase-IsMap id m.0 m.1)

pub same-insert :
    (id : Uuid) (c : ℕ) (m n : Entries)
    → SameEntries m n
    → SameEntries (insert_entry id c m) (insert_entry id c n)
same-insert id c m n h k =
    ground (arith, lookup-insert_any id k c m.0, lookup-insert_any id k c n.0, h k)

pub same-erase :
    (id : Uuid) (m n : Entries)
    → SameEntries m n
    → SameEntries (erase_entry id m) (erase_entry id n)
same-erase id m n h k = ground (arith, lookup-erase id k m.0 m.1, lookup-erase id k n.0 n.1, h k)

unfoldable pub put : Uuid → ℕ → Registry → Registry
put id c =
    Quot.lift Quot-set (λ m. Quot.mk (insert_entry id c m))
      (λ m n h. Quot.sound (same-insert id c m n h))

unfoldable pub drop : Uuid → Registry → Registry
drop id =
    Quot.lift Quot-set (λ m. Quot.mk (erase_entry id m)) (λ m n h. Quot.sound (same-erase id m n h))

registry_set : IsSet Registry
registry_set = Quot-set

find_ext : (x y : Registry) → ((k : Uuid) → find k x ≡ find k y) → x ≡ y
unfolding find
find_ext =
    Quot.ind (λ x. hlevel (registry_set))
      λ m. Quot.ind (λ y. hlevel (registry_set)) λ n h. Quot.sound h

put-find :
    (i k : Uuid) (c : ℕ) (x : Registry)
    → find k (put i c x)
      ≡ (if uuid_eq i k then (elim (find k x) [ none ↦ some c | some d ↦ some d ]) else find k x)
unfolding find put
put-find i k c = Quot.ind (λ b. ids_set _ _) (λ m. lookup-insert_any i k c m.0)

drop-find :
    (i k : Uuid) (x : Registry) → find k (drop i x) ≡ (if uuid_eq i k then none else find k x)
unfolding find drop
drop-find i k = Quot.ind (λ b. ids_set _ _) (λ m. lookup-erase i k m.0 m.1)

-- The clients of a server up to the order of their list, as an std::unordered_map has them, are
-- a set, in which two are equal exactly if each id leads to the same connection in both; and on
-- them insert and erase are those of a finite map: after an insert, which keeps the connection
-- of an id that is there, and after an erase every other id leads to what it did.
pub find_iff :
    IsSet Registry
    × ((x y : Registry) → (x ≡ y) ↔ ((k : Uuid) → find k x ≡ find k y))
    × ((id k : Uuid) (c : ℕ) (x : Registry)
        → find k (put id c x) ≡ (
            if uuid_eq id k
            then (elim (find k x) [ none ↦ some c | some d ↦ some d ])
            else find k x))
    × ((id k : Uuid) (x : Registry)
        → find k (drop id x) ≡ (if uuid_eq id k then none else find k x))
find_iff = (registry_set, (λ x y. ((λ e k. ap (find k) e), find_ext x y)), put-find, drop-find)
