-- ===== src/Tests/Ends.antt =====
-- Loops that are stopped or go on, and a server that is stopped, in concrete worlds.
use librapid.Prelude.{pos, ◌≡◌, refl, true, false, some, []}
use librapid.Outcome.{ok, M, pure, throw, runtime_error, zero_modulus}
use librapid.Outcome.Laws.{Sticks}
use librapid.Channel.{
  Channel, ChannelHandler, make_channel, connection_read, connection_close, connection_write,
  acceptor_read, connector_write,
}
use librapid.World.{server_close, server_accept, EventLoop, update, without}
use librapid.Server
use librapid.Server.Restart.{start-stop}
use librapid.Program.{destroy_server}
use librapid.Program.Ends.{destroy_server-stop}
use librapid.Handle.{handle}
use librapid.Tests.Scenes.{
  Here, link_channel, listed_row, the_loop, the_server, world, at_address, run_user,
}

abbrev busy : Here
busy = record (world (listed_row (pos 5)) (pos 5) server_close) {
  loops = at_address 1 (record the_loop { wakeup_channel = 20 });
}

-- Reading throws, and all else returns.
abbrev run_closure : ChannelHandler → M Here (Unit {0})
run_closure (connection_read p) = throw (runtime_error (pos 1))
run_closure (connection_close p) = pure tt
run_closure (connection_write p) = pure tt
run_closure (acceptor_read p) = pure tt
run_closure (connector_write p) = pure tt

abbrev Alive : Here → Type 0
Alive w = w.channels ≡ at_address 20 (link_channel (pos 5))

-- A server without clients, before and after stop().
abbrev idle : Here
idle = record busy { server = record the_server { clients = [] } }

-- With an acceptor, whose channel is at 8 and whose descriptor is 4.
abbrev open_door : Here
open_door = record idle {
  acceptors = at_address 7 (record { channel = 8; new_connection_handler = some server_accept });
  channels = update idle.channels 8 (make_channel 8 1 (handle (pos 4)));
  server = record (idle.server) { acceptor = some 7 };
}

abbrev quitting : EventLoop
quitting = record the_loop { wakeup_channel = 20; quit = true }

abbrev closed_door : Here
closed_door = record open_door {
  loops =
      without (update (update open_door.loops 1 quitting) 1 (record quitting { running = false }))
        1;
  acceptors = without open_door.acceptors 7;
  channels = without (without open_door.channels 20) 8;
  server = record (idle.server) { pool = record (idle.server.pool) { loops = [] } };
}

closed_door_stops : Server.stop run_user open_door ≡ ok tt closed_door
unfolding Server.stop make_channel
closed_door_stops = refl

destroy_server-stop_example : destroy_server run_user closed_door ≡ ok tt closed_door
destroy_server-stop_example = destroy_server-stop run_user open_door closed_door closed_door_stops

start-stop_example : Sticks zero_modulus (Server.start 80 closed_door)
start-stop_example = start-stop run_user 80 open_door closed_door closed_door_stops
