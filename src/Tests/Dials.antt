-- ===== src/Tests/Dials.antt =====
-- Connectors and acceptors in concrete worlds.
use librapid.Prelude.{ℕ, ℤ, pos, ◌≡◌, refl, none, some}
use librapid.Kernel.{host_address}
use librapid.Handle.{handle}
use librapid.Outcome.{ok, M, pure}
use librapid.Channel.{Channel, added, make_channel, connector_write}
use librapid.Poller.{registration, enable_write}
use librapid.World.{
  Connector, broken_off, ConnectedHandler, client_connected, server_close, update, connector,
  put_connector, put_channel, allocate, on_site,
}
use librapid.Connector
use librapid.Connector.{
  sys_tcp_socket, sys_connect, connecting, connect_action, set_channel, destroy_channel,
}
use librapid.Connector.Never.{IsIdle, here, next, connects, never_dials}
use librapid.Tests.Machine.{put}
use librapid.Tests.Scenes.{Here, world, no_rows, at_address}

abbrev dialler : ℕ → Connector
dialler host = record {
  loop = 1;
  state = broken_off;
  channel = none;
  server_addr = host_address host 80;
  connected_handler = some client_connected;
}

abbrev dialling_world : ℕ → Here
dialling_world host = record (world no_rows (pos 6) server_close) {
  connectors = at_address 30 (dialler host);
}

abbrev out_channel : Channel
out_channel = record {
  address = 50;
  state = added;
  fd = handle (pos 11);
  channel_event = 4;
  events = 0;
  loop = 1;
  write_handler = some (connector_write 30);
  read_handler = none;
  close_handler = none;
}

abbrev new_out_channel : Channel
new_out_channel = record (make_channel 50 1 (handle (pos 11))) {
  write_handler = some (connector_write 30);
}

abbrev dialled_world : Here
dialled_world = record (dialling_world 2) {
  kernel = put no_rows (pos 3) (pos 11) (some (registration out_channel));
  fresh = 51;
  channels = update (update (dialling_world 2).channels 50 new_out_channel) 50 out_channel;
  connectors = update (dialling_world 2).connectors 30 (record (dialler 2) { channel = some 50 });
}

abbrev no_call : ConnectedHandler → ℤ → M Here (Unit {0})
no_call h fd = pure tt

dialling_world-IsIdle : IsIdle 30 (dialling_world 2)
dialling_world-IsIdle = (dialler 2, refl, refl)

never_dials_example : Connector.handle_write no_call 1 30 dialled_world ≡ ok tt dialled_world
unfolding Connector.connect connector sys_tcp_socket sys_connect connecting connect_action
    set_channel destroy_channel put_connector put_channel allocate on_site enable_write make_channel
never_dials_example =
    never_dials 30 no_call 1 (dialling_world 2) dialled_world dialling_world-IsIdle
      (next (connects refl) here)
