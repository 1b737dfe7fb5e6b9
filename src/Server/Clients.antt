-- ===== src/Server/Clients.antt =====
-- clients_ of src/tcpserver.cpp as a map: what a lookup sees of insert and erase.
use librapid.Prelude.{refl, Option, ◌∙◌, ℕ, ◌≡◌, none, some, [], ◌∷◌, arith, if◌then◌else◌}
use librapid.Uuid.{Uuid, uuid_eq}
use librapid.Uuid.Hash.{uuid_eq_iff}
use librapid.Server.{Clients, lookup, insert, erase}

-- Each id stands once.
abbrev pub IsMap : Clients → Type 0
IsMap [] = Unit
IsMap ((k, c) ∷ m) = (lookup k m ≡ none) × IsMap m

-- After the insert of a new id into clients, it leads to its connection and every other id to
-- what it did.
pub lookup-insert :
    (id k : Uuid) (c : ℕ) (m : Clients)
    → lookup id m ≡ none
    → lookup k (insert id c m) ≡ (if uuid_eq id k then some c else lookup k m)
unfolding lookup insert
lookup-insert id k c m h = ground arith

-- An insert into clients keeps each id once, also where the id is there already.
pub insert-IsMap : (id : Uuid) (c : ℕ) (m : Clients) → IsMap m → IsMap (insert id c m)
unfolding insert
insert-IsMap id c m h = ground arith

-- After the erase of an id from clients with each id once, it leads nowhere and every other id
-- to what it did.
pub lookup-erase :
    (id k : Uuid) (m : Clients)
    → IsMap m
    → lookup k (erase id m) ≡ (if uuid_eq id k then none else lookup k m)
unfolding lookup erase
lookup-erase id k [] h = ground arith
lookup-erase id k ((j, c) ∷ m) h =
    ground (arith, uuid_eq_iff id k, uuid_eq_iff j id, uuid_eq_iff j k, lookup-erase id k m)

-- An erase from clients keeps each id once.
pub erase-IsMap : (id : Uuid) (m : Clients) → IsMap m → IsMap (erase id m)
unfolding lookup erase
erase-IsMap id [] h = tt
erase-IsMap id ((j, c) ∷ m) h = ground (arith, lookup-erase id j m, erase-IsMap id m)

-- An std::unordered_map as a function: insert keeps the value of a key that is there.
abbrev pub Contents : Type 0
Contents = Uuid → Option ℕ

abbrev pub put_new : Uuid → ℕ → Contents → Contents
put_new id c f k = if uuid_eq id k then (elim (f k) [ none ↦ some c | some d ↦ some d ]) else f k

abbrev pub drop_key : Uuid → Contents → Contents
drop_key id f k = if uuid_eq id k then none else f k

abbrev pub Holds : Contents → Clients → Type 0
Holds f m = IsMap m × ((k : Uuid) → lookup k m ≡ f k)

pub lookup-insert_any :
    (id k : Uuid) (c : ℕ) (m : Clients)
    → lookup k (insert id c m) ≡ (
        if uuid_eq id k
        then (elim (lookup k m) [ none ↦ some c | some d ↦ some d ])
        else lookup k m)
unfolding lookup insert
lookup-insert_any id k c m = ground (arith, uuid_eq_iff id k)

-- insert and erase on the clients implement those of a finite map from ids to connections: where
-- the list has each id once and holds what the map says, it does so after an insert, which keeps
-- the connection of an id that is there, and after an erase.
pub insert-erase-Holds :
    (f : Contents) (m : Clients) (id : Uuid) (c : ℕ)
    → Holds f m
    → Holds (put_new id c f) (insert id c m) × Holds (drop_key id f) (erase id m)
insert-erase-Holds f m id c (map, same) = (
  (insert-IsMap id c m map, λ k. lookup-insert_any id k c m ∙ rw (same k) refl),
  (erase-IsMap id m map, λ k. lookup-erase id k m map ∙ rw (same k) refl),
)
