-- ===== src/Lifetime.antt =====
-- The shared pointers to one connection of a server: include/rapid/core/tcpconnection.h, which is
-- enable_shared_from_this, src/tcpconnection.cpp and src/tcpserver.cpp. Of the code what counts is
-- where a pointer is copied, where a copy goes out of scope, and where a member is accessed; the
-- destructor, which closes the descriptor, runs when the last pointer goes.
pub mod Cycle
pub mod Owners
use librapid.Prelude.{ℕ, zero, suc, ◌+◌, ◌-◌, ◌==◌, Bool, true, false, if◌then◌else◌}
use librapid.Outcome.{Outcome, ok, thrown, stuck, M, pure, fault, dangling, modify, ◌>>=◌, ◌>>◌}

pub record Life : Type 0 where
  pub owners : ℕ  -- shared pointers to the connection
  pub listed : Bool  -- one of them is in clients_
  pub closes : ℕ  -- runs of the destructor, which close the descriptor

-- A member is accessed.
unfoldable pub touch : M Life (Unit {0})
touch s = if s.owners == 0 then stuck dangling else ok tt s

abbrev pub drop_owner : Life → Life
drop_owner s = record s {
  owners = s.owners - 1;
  closes = s.closes + (if s.owners == 1 then 1 else 0);
}

abbrev pub released : Outcome Life (Unit {0}) → Outcome Life (Unit {0})
released (ok a s) = ok a (drop_owner s)
released (thrown e s) = thrown e (drop_owner s)
released (stuck f) = stuck f

-- A copy of the pointer lives as long as the body runs, also where that throws: the parameter of a
-- call, or the temporary of shared_from_this().
unfoldable pub share : M Life (Unit {0}) → M Life (Unit {0})
share body s =
    if s.owners == 0 then stuck dangling else released (body (record s { owners = s.owners + 1 }))

-- clients_.erase of the id
unfoldable pub erase_owner : M Life (Unit {0})
erase_owner s = ok tt (if s.listed then record (drop_owner s) { listed = false } else s)

-- The branch of TcpConnection::handleRead on bytes. `on_read`, `on_close` and `on_connected` are the
-- handlers of the program.
unfoldable pub read_bytes : (on_read : M Life (Unit {0})) → M Life (Unit {0})
unfolding touch share
read_bytes on_read = do touch; share on_read; touch

module _ (on_close : M Life (Unit {0})) where
  -- TcpServer::handleClose
  unfoldable pub server_close : M Life (Unit {0})
  unfolding touch share erase_owner
  server_close = do share on_close; touch; erase_owner

  -- TcpConnection::handleClose: the closure that handleNewConnection made copies its parameter.
  unfoldable pub handle_close : M Life (Unit {0})
  unfolding touch share server_close
  handle_close = do touch; share (share server_close)

  unfoldable pub connect_destroyed : M Life (Unit {0})
  unfolding touch handle_close
  connect_destroyed = do touch; handle_close

  -- The branch of TcpConnection::handleRead on the end of the stream.
  unfoldable pub read_end : M Life (Unit {0})
  unfolding touch handle_close
  read_end = do touch; handle_close

-- TcpServer::handleNewConnection: makeShared, the insert, connectEstablished, and the end of the
-- scope of `conn`.
unfoldable pub new_connection : (on_connected : M Life (Unit {0})) → Outcome Life (Unit {0})
unfolding touch share
new_connection on_connected = released (
    (do modify (λ s. record s { owners = s.owners + 1; listed = true }); touch; share on_connected)
      (record { owners = 1; listed = false; closes = 0 }))

-- The loop thread gets n reads with bytes out of the connection and then the end of the stream.
module _ (on_read on_close : M Life (Unit {0})) where
  unfoldable pub serve_reads : ℕ → M Life (Unit {0})
  unfolding read_bytes read_end
  serve_reads zero = read_end on_close
  serve_reads (suc n) = do read_bytes on_read; serve_reads n
