-- ===== src/Tests/Epolls.antt =====
-- Channels, their registrations and the choice of loops at concrete values.
use librapid.Prelude.{ℕ, pos, ◌≡◌, ◌%◌, none, some, List, [], ◌∷◌, ◌++◌, arith, take, drop}
use librapid.Outcome.{ok, M, pure}
use librapid.Handle.{handle}
use librapid.Channel.{Channel, ChannelHandler, added, connection_read, handle_event}
use librapid.Channel.Dispatch.{route_of, serve, handle_event-serve}
use librapid.Poller.{Site}
use librapid.LoopPool.Turns.{turns, turns-rotation}
use librapid.Tests.Machine.{Table, machine}

abbrev reading_channel : Channel
reading_channel = record {
  address = 20;
  state = added;
  fd = handle (pos 5);
  channel_event = 3;
  events = 0x2001;
  loop = 1;
  write_handler = none;
  read_handler = some (connection_read 10);
  close_handler = none;
}

abbrev no_rows : Table
no_rows e f = none

abbrev Here : Type 0
Here = Site machine (pos 3)

-- A machine that writes down which closure was run.
abbrev note : ChannelHandler → M (List ChannelHandler) (Unit {0})
note h s = ok tt (h ∷ s)

handle_event-serve_example :
    handle_event note (pure tt) reading_channel
    ≡ serve note (pure tt) (route_of 0x2001) reading_channel
handle_event-serve_example = handle_event-serve note (pure tt) reading_channel

abbrev three_loops : List ℕ
three_loops = 31 ∷ 32 ∷ 33 ∷ []

turns-rotation_example :
    turns 3 (record { count = 7; loops = three_loops })
    ≡ ok
        (drop (7 % 3) three_loops ++ take (7 % 3) three_loops)
        (record { count = 10; loops = three_loops })
turns-rotation_example = turns-rotation 7 three_loops (omega arith) (omega arith)
