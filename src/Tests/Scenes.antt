-- ===== src/Tests/Scenes.antt =====
-- One connection of a server or of a client, in its world.
use librapid.Prelude.{
  ℕ, ℤ, pos, refl, true, false, Option, none, some, [], ◌∷◌, int_eq, ◌&&◌, ◌==◌, if◌then◌else◌,
  replicate,
}
use librapid.Outcome.{M, pure, throw, runtime_error}
use librapid.Handle.{handle}
use librapid.Channel.{Channel, added, connection_close, connection_read, connection_write}
use librapid.Poller.{registration}
use librapid.Uuid.{Uuid}
use librapid.World.{
  World, Handler, user, server_close, client_close, TcpConnection, EventLoop, TcpServer, TcpClient,
  connected,
}
use librapid.Connection.Close.{Attached}
use librapid.Tests.Machine.{Table, machine}

abbrev pub Here : Type 0
Here = World machine

abbrev pub link_id : Uuid
link_id = record { bytes = replicate 16 7 }

-- The connection 10 with the channel 20 on the loop 1; the descriptor chooses what read gives.
abbrev pub link_channel : ℤ → Channel
link_channel fd = record {
  address = 20;
  state = added;
  fd = handle fd;
  channel_event = 3;
  events = 0x2001;
  loop = 1;
  write_handler = some (connection_write 10);
  read_handler = some (connection_read 10);
  close_handler = some (connection_close 10);
}

abbrev pub link : Handler → TcpConnection
link h = record {
  state = connected;
  id = link_id;
  loop = 1;
  channel = 20;
  connected_handler = none;
  read_handler = some (user 1);
  write_handler = none;
  close_handler = some h;
  read_buffer = b'a' ∷ [];
  write_buffer = [];
}

abbrev pub the_loop : EventLoop
the_loop = record {
  quit = false;
  epollfd = pos 3;
  events_size = 128;
  wakeup_channel = 21;
  active_channels = [];
  running = true;
}

abbrev pub listed_row : ℤ → Table
listed_row fd e f =
    if int_eq e (pos 3) && int_eq f fd then some (registration (link_channel fd)) else none

abbrev pub no_rows : Table
no_rows e f = none

abbrev pub the_server : TcpServer
the_server = record {
  pool = record { count = 0; loops = 1 ∷ [] };
  acceptor = none;
  connected_handler = none;
  read_handler = some (user 1);
  write_handler = none;
  close_handler = some (user 1);
  locked = false;
  clients = (link_id, 10) ∷ [];
}

abbrev pub the_client : TcpClient
the_client = record {
  loop = 1;
  connector = none;
  connection = some 10;
  read_handler = some (user 1);
  write_handler = none;
  close_handler = some (user 1);
}

abbrev pub at_address : {A : Type 0} → ℕ → A → ℕ → Option A
at_address p a q = if p == q then some a else none

abbrev pub world : Table → ℤ → Handler → Here
world rows fd h = record {
  kernel = rows;
  loops = at_address 1 the_loop;
  channels = at_address 20 (link_channel fd);
  connections = at_address 10 (link h);
  acceptors = λ p. none;
  connectors = λ p. none;
  fresh = 50;
  server = the_server;
  client = the_client;
}

-- The program's handlers: 1 returns, every other one throws.
abbrev pub app : ℕ → ℕ → M Here (Unit {0})
app t conn = if t == 1 then pure tt else throw (runtime_error (pos 4))

abbrev pub run_user : Handler → ℕ → M Here (Unit {0})
run_user (user t) conn = app t conn
run_user server_close conn = pure tt
run_user client_close conn = pure tt

pub world-Attached :
    (rows : Table) (fd : ℤ) (h : Handler)
    → Attached (world rows fd h) 10 (link h) (link_channel fd) the_loop
world-Attached rows fd h = record {
  is_connection = refl;
  is_channel = refl;
  is_loop = refl;
  is_added = refl;
}
