-- ===== src/Tests/Calls.antt =====
-- A connector that dials again, on an operating system that is a table of open descriptors.
use librapid.Prelude.{pos, refl, true, none, some, arith, int_eq}
use librapid.Kernel.{Kernel, Descriptors, host_address}
use librapid.Handle.{handle}
use librapid.Outcome.Laws.{Leaves}
use librapid.World.{World, Connector, broken_off}
use librapid.Channel.{Channel, make_channel}
use librapid.Connector.{connect}
use librapid.Connector.Leaks.{Dials, Accounts, connect-Accounts}
use librapid.Tests.Leaks.{
  descriptors, make_socket, make_socket-new, make_socket-made, make_socket-failed, empty_world,
}
use librapid.Tests.Scenes.{the_loop, at_address}

abbrev phones : Kernel
phones = record descriptors { tcp_socket = make_socket; connect = λ fd a s. (pos 0, s) }

abbrev phones_laws : Descriptors phones
phones_laws = record {
  is_open = λ s. s;
  socket_new = make_socket-new;
  socket_made = make_socket-made;
  socket_failed = make_socket-failed;
  set_reuse_addr_keeps = λ fd s f. refl;
  bind_keeps = λ fd a s f. refl;
  closed = λ fd s f. refl;
}

phones_dial : Dials phones phones_laws
phones_dial = record {
  socket_new = λ s h. make_socket-new s (ground arith);
  socket_made = λ s h. make_socket-made s (ground arith);
  socket_failed = λ s h. make_socket-failed s (ground arith);
  connect_keeps = λ fd a s f. refl;
  ctl_keeps = λ ep fd op ev s f. refl;
}

abbrev caller : Connector
caller = record {
  loop = 1;
  state = broken_off;
  channel = some 2;
  server_addr = host_address 2 80;
  connected_handler = none;
}

abbrev line : Channel
line = make_channel 2 1 (handle (pos 4))

-- The descriptor of its channel is open.
abbrev on_hook : World phones
on_hook = record {
  kernel = λ f. int_eq f (pos 4);
  loops = at_address 1 the_loop;
  channels = at_address 2 line;
  connections = λ p. none;
  acceptors = λ p. none;
  connectors = at_address 6 caller;
  fresh = 9;
  server = empty_world.server;
  client = empty_world.client;
}

connect-Accounts_example :
    Leaves
      (Accounts phones_laws phones_dial 6 caller the_loop (pos 4) true on_hook)
      (connect 1 6 on_hook)
unfolding make_channel
connect-Accounts_example =
    connect-Accounts phones_laws phones_dial 6 caller the_loop (pos 4) 0 on_hook refl refl
      (λ p e. (ground arith, (line, ground arith))) (λ g h. ground arith)
