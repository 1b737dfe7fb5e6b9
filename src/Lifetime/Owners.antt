-- ===== src/Lifetime/Owners.antt =====
-- What the shared pointers to a connection come to.
use librapid.Prelude.{
  ℕ, zero, suc, ◌+◌, ◌*◌, ◌-◌, ◌==◌, ◌<◌, ◌≤◌, ◌≡◌, refl, true, false, if◌then◌else◌, arith,
}
use librapid.Outcome.{ok, stuck, M, dangling, and_then}
use librapid.Outcome.Laws.{Leaves}
use librapid.Lifetime.{
  Life, touch, share, erase_owner, server_close, handle_close, connect_destroyed, read_bytes,
  read_end, new_connection, serve_reads,
}

-- A handler that returns and has kept so many copies of the pointer it was given.
abbrev pub Stores : ℕ → M Life (Unit {0}) → Type 0
Stores k h = (s : Life) → 0 < s.owners → h s ≡ ok tt (record s { owners = s.owners + k })

module _ (on_close : M Life (Unit {0})) (k : ℕ) (stores : Stores k on_close) where
  pub read_end-Owners :
      (s : Life)
      → 0 < s.owners
      → s.listed ≡ true
      → read_end on_close s
        ≡ ok tt (record s {
          owners = s.owners - 1 + k;
          listed = false;
          closes = s.closes + (if s.owners - 1 + k == 0 then 1 else 0);
        })
  unfolding touch share erase_owner server_close handle_close read_end
  read_end-Owners s live listed =
      ground (arith, stores (record s { owners = s.owners + 1 + 1 + 1 }))

  -- A read handler that calls connectDestroyed on its connection, which is listed among the
  -- clients, with a close handler that returns and keeps k copies of the pointer: if no other
  -- pointer is left the buffer is cleared after the destructor, otherwise the read returns and
  -- the pointers that were there are left, less that of the clients.
  pub read_bytes-destroyed :
      (s : Life)
      → 0 < s.owners
      → s.listed ≡ true
      → read_bytes (connect_destroyed on_close) s ≡ (
          if s.owners - 1 + k == 0
          then stuck dangling
          else ok tt (record s { owners = s.owners - 1 + k; listed = false }))
  unfolding touch share erase_owner server_close handle_close connect_destroyed read_bytes
  read_bytes-destroyed s live listed =
      ground (arith, stores (record s { owners = s.owners + 1 + 1 + 1 + 1 }))

new_connection-Owners :
    (h : M Life (Unit {0})) (k : ℕ)
    → Stores k h
    → new_connection h ≡ ok tt (record { owners = 1 + k; listed = true; closes = 0 })
unfolding touch share new_connection
new_connection-Owners h k stores =
    ground (arith, stores (record { owners = 3; listed = true; closes = 0 }))

read_bytes-Owners :
    (h : M Life (Unit {0})) (k : ℕ)
    → Stores k h
    → (s : Life) → 0 < s.owners
    → read_bytes h s ≡ ok tt (record s { owners = s.owners + k })
unfolding touch share read_bytes
read_bytes-Owners h k stores s live = ground (arith, stores (record s { owners = s.owners + 1 }))

module _ (on_read on_close : M Life (Unit {0})) (j k : ℕ) where
  serve_reads-Owners :
      (n : ℕ) (s : Life)
      → Stores j on_read
      → Stores k on_close
      → 0 < s.owners
      → s.listed ≡ true
      → serve_reads on_read on_close n s
        ≡ ok tt (record {
          owners = s.owners - 1 + (n * j + k);
          listed = false;
          closes = s.closes + (if s.owners - 1 + (n * j + k) == 0 then 1 else 0);
        })
  unfolding serve_reads
  serve_reads-Owners zero s reads ends live listed =
      ground (arith, read_end-Owners on_close k ends s live listed)
  serve_reads-Owners (suc n) s reads ends live listed = ground (
    arith,
    read_bytes-Owners on_read j reads s live,
    serve_reads-Owners n (record s { owners = s.owners + j }) reads ends (omega arith) listed,
  )

-- What a handler of the program keeps to: it returns or throws with at least the pointers that it
-- found, and does not bring the server to erase the connection.
abbrev pub Borrows : M Life (Unit {0}) → Type 0
Borrows h =
    (s : Life)
    → 0 < s.owners
    → Leaves (λ t. (s.owners ≤ t.owners) × (t.listed ≡ s.listed) × (t.closes ≡ s.closes)) (h s)

module _ (on_close : M Life (Unit {0})) (borrows : Borrows on_close) where
  read_end-Leaves :
      (s : Life)
      → 0 < s.owners
      → s.listed ≡ true
      → Leaves
          (λ t.
            (s.owners ≤ t.owners + 1) × (t.closes ≡ s.closes + (if t.owners == 0 then 1 else 0)))
          (read_end on_close s)
  unfolding touch share erase_owner server_close handle_close read_end
  read_end-Leaves s live listed =
      ground (arith, borrows (record s { owners = s.owners + 1 + 1 + 1 }))

module _ (on_connected on_read on_close : M Life (Unit {0})) (i j k n : ℕ) where
  -- A connection whose connected, read and close handlers return and keep i, j and k copies of
  -- the shared pointer each time, from its makeShared through any number of reads of bytes to
  -- the end of the stream: no member is accessed after the destructor, and i + n * j + k
  -- pointers are left; the destructor has run, once, exactly if that is none.
  pub life-Owners :
      Stores i on_connected
      → Stores j on_read
      → Stores k on_close
      → and_then (new_connection on_connected) (λ _. serve_reads on_read on_close n)
        ≡ ok tt (record {
          owners = i + (n * j + k);
          listed = false;
          closes = if i + (n * j + k) == 0 then 1 else 0;
        })
  life-Owners connects reads ends = ground (
    arith,
    new_connection-Owners on_connected i connects,
    serve_reads-Owners on_read on_close j k n (record { owners = 1 + i; listed = true; closes = 0 })
        reads ends (omega arith) refl,
  )
