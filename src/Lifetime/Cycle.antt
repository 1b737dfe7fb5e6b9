-- ===== src/Lifetime/Cycle.antt =====
-- The shared pointers between a client and its connection: include/rapid/core/tcpclient.h, which is
-- enable_shared_from_this, and src/tcpclient.cpp. The client has a pointer to its connection, and
-- the close handler of the connection has one to the client.
use librapid.Prelude.{
  ℕ, zero, suc, ◌+◌, ◌-◌, ◌==◌, ◌<◌, ◌≡◌, refl, ap, ◌∙◌, Bool, true, false, ◌&&◌, if◌then◌else◌,
  arith,
}
use librapid.Outcome.{ok, stuck, M, pure, dangling, modify, and_then, ◌>>◌}

pub record Links : Type 0 where
  pub client_owners : ℕ
  pub connection_owners : ℕ
  pub has_connection : Bool  -- connection_ of the client is not null
  pub captured : Bool  -- the close handler of the connection has the client

-- The last pointer to the connection takes its close handler along, and what that captured; the
-- client is told only that one pointer to it is gone.
unfoldable pub drop_connection : Links → Links
drop_connection s =
    if s.connection_owners == 1 && s.captured
    then record s { connection_owners = 0; captured = false; client_owners = s.client_owners - 1 }
    else record s { connection_owners = s.connection_owners - 1 }

-- A pointer to the client goes; with the last one ~TcpClient runs and connection_ goes too.
unfoldable pub drop_client : M Links (Unit {0})
unfolding drop_connection
drop_client s =
    if s.client_owners == 0
    then stuck dangling
    else (let s' = record s { client_owners = s.client_owners - 1 } in
        if s'.client_owners == 0 && s.has_connection
        then ok tt (drop_connection (record s' { has_connection = false }))
        else ok tt s')

-- connection_ = ... and connection_.reset()
unfoldable pub reset_connection : M Links (Unit {0})
unfolding drop_connection
reset_connection s =
    ok tt (if s.has_connection then drop_connection (record s { has_connection = false }) else s)

-- A copy of a pointer to the client; shared_from_this() is one.
unfoldable pub copy_client : M Links (Unit {0})
copy_client s =
    if s.client_owners == 0
    then stuck dangling
    else ok tt (record s { client_owners = s.client_owners + 1 })

-- TcpClient::connected of a client that has no connection.
unfoldable pub connected : M Links (Unit {0})
unfolding copy_client drop_client
connected = do
  modify (λ s. record s { connection_owners = 1; has_connection = true })
  copy_client
  copy_client
  modify (λ s. record s { captured = true })
  drop_client

-- The program lets go of n pointers to the client.
unfoldable pub drops : ℕ → M Links (Unit {0})
unfolding drop_client
drops zero = pure tt
drops (suc n) = do drop_client; drops n

-- A client that nothing connects.
abbrev pub idle : ℕ → Links
idle n = record {
  client_owners = n;
  connection_owners = 0;
  has_connection = false;
  captured = false;
}

-- The two keep each other.
abbrev pub cycle : Links
cycle = record { client_owners = 1; connection_owners = 1; has_connection = true; captured = true }

drops-idle : (n : ℕ) → drops n (idle n) ≡ ok tt (idle 0)
unfolding drops drop_client
drops-idle zero = refl
drops-idle (suc n) = ground (arith, drops-idle n)

drops-cycle : (n : ℕ) → drops n (record cycle { client_owners = n + 1 }) ≡ ok tt cycle
unfolding drops drop_client
drops-cycle zero = refl
drops-cycle (suc n) = ground (arith, drops-cycle n)

connected-idle :
    (n : ℕ) → 0 < n → connected (idle n) ≡ ok tt (record cycle { client_owners = n + 1 })
unfolding connected copy_client drop_client drop_connection
connected-idle n h = ground arith

-- A client that has been connected and that the program lets go of, all its n > 0 pointers,
-- stays there with its connection: each has one pointer left, that of the other. A client that
-- was not connected is destroyed then, and so are both where the connection_ of the client is
-- reset afterwards.
pub connected-drops :
    (n : ℕ)
    → 0 < n
    → ((connected >> drops n) (idle n) ≡ ok tt cycle)
      × (drops n (idle n) ≡ ok tt (idle 0))
      × ((connected >> drops n >> reset_connection) (idle n) ≡ ok tt (idle 0))
unfolding reset_connection drop_connection
connected-drops n h =
    let kept = ap (λ r. and_then r (λ _. drops n)) (connected-idle n h) ∙ drops-cycle n in
    (kept, drops-idle n, ap (λ r. and_then r (λ _. reset_connection)) kept)
