-- ===== src/Channel.antt =====
-- include/rapid/core/channel.h and src/channel.cpp: the object that ties a descriptor to its
-- handlers. A handler is a closure over the object that installed it, and stands here by the
-- lambda that it is and the address that it captures.
pub mod Dispatch
use librapid.Prelude.{
  some, ℕ, ◌-◌, ◌^◌, Bool, Option, none, true, false, not, ◌&&◌, bit_and, bit_or, ◌==◌,
  if◌then◌else◌,
}
use librapid.Handle.{FileDesc}
use librapid.Outcome.{M, invoke}

-- enum ChannelStates
pub data ChannelState : Type 0 where
  new added deleted : ChannelState

abbrev pub is_new : ChannelState → Bool
is_new new = true
is_new _ = false

abbrev pub is_deleted : ChannelState → Bool
is_deleted deleted = true
is_deleted _ = false

-- The lambdas that the library installs.
pub data ChannelHandler : Type 0 where
  connection_close connection_read connection_write : ℕ → ChannelHandler
  acceptor_read connector_write : ℕ → ChannelHandler

-- <sys/epoll.h>
abbrev pub epollin : ℕ
epollin = 0x001

abbrev pub epollpri : ℕ
epollpri = 0x002

abbrev pub epollout : ℕ
epollout = 0x004

abbrev pub epollhup : ℕ
epollhup = 0x010

abbrev pub epollrdhup : ℕ
epollrdhup = 0x2000

-- enum ChannelEvents
abbrev pub none_events : ℕ
none_events = 0

abbrev pub write_events : ℕ
write_events = epollout

abbrev pub read_events : ℕ
read_events = bit_or epollin epollpri

pub record Channel : Type 0 where
  pub address : ℕ  -- this
  pub state : ChannelState
  pub fd : FileDesc
  pub channel_event : ℕ  -- uint32_t
  pub events : ℕ  -- uint32_t
  pub loop : ℕ  -- EventLoop*
  pub write_handler : Option ChannelHandler
  pub read_handler : Option ChannelHandler
  pub close_handler : Option ChannelHandler

unfoldable pub make_channel : ℕ → ℕ → FileDesc → Channel
make_channel address loop fd = record {
  address = address;
  state = new;
  fd = fd;
  channel_event = none_events;
  events = 0;
  loop = loop;
  write_handler = none;
  read_handler = none;
  close_handler = none;
}

-- ~WRITE and ~READ, in uint32_t.
abbrev pub complement32 : ℕ → ℕ
complement32 m = 2 ^ 32 - 1 - m

-- The assignments to channelEvent_; each is followed by update().
unfoldable pub set_write : Channel → Channel
set_write c = record c { channel_event = bit_or c.channel_event write_events }

unfoldable pub clear_write : Channel → Channel
clear_write c = record c { channel_event = bit_and c.channel_event (complement32 write_events) }

unfoldable pub set_read : Channel → Channel
set_read c = record c { channel_event = bit_or c.channel_event read_events }

unfoldable pub clear_read : Channel → Channel
clear_read c = record c { channel_event = bit_and c.channel_event (complement32 read_events) }

unfoldable pub clear_all : Channel → Channel
clear_all c = record c { channel_event = none_events }

unfoldable pub set_state : ChannelState → Channel → Channel
set_state s c = record c { state = s }

unfoldable pub set_events : ℕ → Channel → Channel
set_events e c = record c { events = e }

-- The test of a mask in a condition: nonzero.
abbrev pub has : ℕ → ℕ → Bool
has e mask = not (bit_and e mask == 0)

-- Channel::handleEvent; `call` runs a closure, and `log_critical` is the last branch.
unfoldable pub handle_event :
    {S : Type 0} → (ChannelHandler → M S (Unit {0})) → M S (Unit {0}) → Channel → M S (Unit {0})
handle_event call log_critical c =
    if has c.events epollhup && not (has c.events epollin)
    then invoke call c.close_handler
    else if has c.events (bit_or epollin (bit_or epollpri epollrdhup))
    then invoke call c.read_handler
    else if has c.events epollout
    then invoke call c.write_handler
    else log_critical

-- The setters of the three handlers.
unfoldable pub set_write_handler : ChannelHandler → Channel → Channel
set_write_handler h c = record c { write_handler = some h }

unfoldable pub set_read_handler : ChannelHandler → Channel → Channel
set_read_handler h c = record c { read_handler = some h }

unfoldable pub set_close_handler : ChannelHandler → Channel → Channel
set_close_handler h c = record c { close_handler = some h }
