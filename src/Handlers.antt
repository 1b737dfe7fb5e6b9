-- ===== src/Handlers.antt =====
-- The closures of include/rapid/core/handler.h at work: the lambda of TcpServer::handleNewConnection, that of
-- TcpClient::connected, and the handlers of the program, which are an argument. A close may call
-- back into a close, so calls run to a given depth.
pub mod Invariant
pub mod Connects
pub mod Rounds
pub mod Session
use librapid.Prelude.{ℤ, ℕ, zero, suc}
use librapid.Kernel.{Kernel}
use librapid.Outcome.{M, fault, call_depth}
use librapid.World.{
  World, Handler, user, server_close, client_close, AcceptHandler, user_accept, server_accept,
  ConnectedHandler, user_connected, client_connected,
}
use librapid.Channel.{
  ChannelHandler, connection_close, connection_read, connection_write, acceptor_read,
  connector_write,
}
use librapid.Connection
use librapid.Acceptor
use librapid.Connector
use librapid.Server
use librapid.Client

module _ {K : Kernel} (app : ℕ → ℕ → M (World K) (Unit {0})) where
  unfoldable pub call : ℕ → Handler → ℕ → M (World K) (Unit {0})
  unfolding Server.handle_close Client.handle_close
  call zero h conn = fault call_depth
  call (suc n) (user t) conn = app t conn
  call (suc n) server_close conn = Server.handle_close (call n) conn
  call (suc n) client_close conn = Client.handle_close (call n)

-- What a program does with a descriptor that its own acceptor or connector gives it.
module _ {K : Kernel} (app : ℕ → ℕ → M (World K) (Unit {0}))
    (take_fd : ℕ → ℤ → M (World K) (Unit {0})) where
  -- The lambda of TcpServer::start.
  unfoldable pub accept : ℕ → AcceptHandler → ℤ → M (World K) (Unit {0})
  unfolding Server.handle_new_connection call
  accept n (user_accept t) fd = take_fd t fd
  accept n server_accept fd = Server.handle_new_connection (call app n) fd

  -- The lambda of TcpClient::connect.
  unfoldable pub connect_done : ℕ → ConnectedHandler → ℤ → M (World K) (Unit {0})
  unfolding Client.connected call
  connect_done n (user_connected t) fd = take_fd t fd
  connect_done n client_connected fd = Client.connected (call app n) fd

  -- The closures that a channel runs on an event.
  unfoldable pub run_channel : ℕ → ChannelHandler → M (World K) (Unit {0})
  unfolding Connection.handle_close Connection.handle_read Connection.handle_write
      Acceptor.handle_read Connector.handle_write accept connect_done call
  run_channel n (connection_close p) = Connection.handle_close (call app n) p
  run_channel n (connection_read p) = Connection.handle_read (call app n) p
  run_channel n (connection_write p) = Connection.handle_write (call app n) p
  run_channel n (acceptor_read p) = Acceptor.handle_read (accept n) p
  run_channel n (connector_write p) = Connector.handle_write (connect_done n) n p
