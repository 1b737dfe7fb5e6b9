-- ===== src/Client.antt =====
-- src/tcpclient.cpp: one connection, its connector, and the handlers of the program.
pub mod Close
pub mod Session
use librapid.Prelude.{ℕ, ℤ, Option, none, some, List}
use librapid.Kernel.{Kernel}
use librapid.Handle.{handle}
use librapid.Outcome.{
  Outcome, ok, stuck, M, pure, fault, null_pointer, invoke, ensure_or_throw, ◌>>=◌, ◌>>◌,
}
use librapid.World.{
  ConnectState, World, Handler, client_close, client_connected, TcpClient, connection,
  put_connection, allocate,
}
use librapid.Connection.{construct, connect_established, connect_destroyed}
use librapid.Connection
use librapid.Server.{generate_uuid, is_none}
use librapid.Connector

-- connection_ as an argument; a null pointer is the address 0, where no object is.
abbrev pub address_of : Option ℕ → ℕ
address_of none = 0
address_of (some p) = p

module _ {K : Kernel} where
  unfoldable pub client : M (World K) TcpClient
  client w = ok w.client w

  unfoldable pub put_client : TcpClient → M (World K) (Unit {0})
  put_client c w = ok tt (record w { client = c })

  -- connection_->
  unfoldable pub connection_of : M (World K) ℕ
  unfolding client
  connection_of = do c ← client; elim c.connection [ none ↦ fault null_pointer | some p ↦ pure p ]

  unfoldable pub send : List ℕ → M (World K) (Unit {0})
  unfolding connection_of Connection.send
  send message = do p ← connection_of; Connection.send p message

  unfoldable pub shutdown : M (World K) (Unit {0})
  unfolding connection_of Connection.shutdown
  shutdown = do p ← connection_of; Connection.shutdown p

  module _ (call : Handler → ℕ → M (World K) (Unit {0})) where
    -- TcpClient::handleClose
    unfoldable pub handle_close : M (World K) (Unit {0})
    unfolding connection_of client put_client connect_destroyed
    handle_close = do
      p ← connection_of
      connect_destroyed call p
      c ← client
      invoke (λ h. call h (address_of c.connection)) c.close_handler
      c' ← client
      put_client (record c' { connection = none })

    -- TcpClient::connected
    unfoldable pub connected : ℤ → M (World K) (Unit {0})
    unfolding client put_client generate_uuid allocate construct connection put_connection
        connect_established
    connected fd = do
      c ← client
      conn ← allocate
      chan ← allocate
      id ← generate_uuid
      construct conn chan c.loop id (handle fd)
      put_client (record c { connection = some conn })
      o ← connection conn
      put_connection conn (record o {
        close_handler = some client_close;
        read_handler = c.read_handler;
        write_handler = c.write_handler;
      })
      connect_established call conn

  -- TcpClient::connect; `indeterminate` is what the memory of the new Connector holds as its state_.
  unfoldable pub connect : ConnectState → ℕ → ℕ → ℕ → M (World K) (Unit {0})
  unfolding client put_client Connector.construct Connector.set_connected_handler Connector.connect
  connect indeterminate depth host port = do
    c ← client
    ensure_or_throw (is_none c.connector) "connect must be before disconnect"
    p ← Connector.construct indeterminate c.loop host port
    c' ← client
    put_client (record c' { connector = some p })
    Connector.set_connected_handler p client_connected
    Connector.connect depth p

  -- TcpClient::disconnect
  unfoldable pub disconnect : M (World K) (Unit {0})
  unfolding client Connection.shutdown Connector.reset_channel
  disconnect = do
    c ← client
    elim c.connection [ none ↦ pure tt | some p ↦ Connection.shutdown p ]
    elim c.connector [ none ↦ pure tt | some p ↦ Connector.reset_channel p ]

-- The setters of the three handlers.
unfoldable pub set_write_handler : Handler → TcpClient → TcpClient
set_write_handler h c = record c { write_handler = some h }

unfoldable pub set_read_handler : Handler → TcpClient → TcpClient
set_read_handler h c = record c { read_handler = some h }

unfoldable pub set_close_handler : Handler → TcpClient → TcpClient
set_close_handler h c = record c { close_handler = some h }
