-- ===== src/Channel/Dispatch.antt =====
-- include/rapid/core/channel.h: which handler an event goes to, read off the binary digits of its mask.
use librapid.Prelude.{ℕ, ◌/◌, ◌%◌, ◌≡◌, Bool, true, false, arith, ◌==◌}
use librapid.Prelude.Bits.{bit_and_one, bit_and_four, bit_and_sixteen, bit_and_8195}
use librapid.Outcome.{M, invoke}
use librapid.Channel.{Channel, ChannelHandler, handle_event}

-- The binary digit of a mask that stands for `weight`.
abbrev pub digit : ℕ → ℕ → Bool
digit weight e = e / weight % 2 == 1

pub data Route : Type 0 where
  closes reads writes logs : Route

-- Anything to read goes before a hang-up, and a hang-up before all else.
abbrev pub route : (readable hung_up urgent peer_closed writable : Bool) → Route
route true _ _ _ _ = reads
route false true _ _ _ = closes
route false false true _ _ = reads
route false false false true _ = reads
route false false false false true = writes
route false false false false false = logs

abbrev pub route_of : ℕ → Route
route_of e = route (digit 1 e) (digit 0x10 e) (digit 2 e) (digit 0x2000 e) (digit 4 e)

module _ {S : Type 0} (call : ChannelHandler → M S (Unit {0})) (log : M S (Unit {0})) where
  abbrev pub serve : Route → Channel → M S (Unit {0})
  serve closes c = invoke call c.close_handler
  serve reads c = invoke call c.read_handler
  serve writes c = invoke call c.write_handler
  serve logs c = log

  -- Channel::handleEvent serves every event mask by the table on its five binary digits:
  -- anything readable goes first, a hang-up before the rest, a write only when nothing else is
  -- there.
  pub handle_event-serve : (c : Channel) → handle_event call log c ≡ serve (route_of c.events) c
  unfolding handle_event
  handle_event-serve c = ground (
    arith,
    bit_and_one c.events,
    bit_and_four c.events,
    bit_and_sixteen c.events,
    bit_and_8195 c.events,
  )
