-- ===== src/Poller.antt =====
-- src/epollpoller.cpp: how a channel gets into the interest list of its loop's epoll instance.
-- The state is the channel object and the operating system; `epfd` is epollfd_ of the poller.
pub mod Sync
pub mod Lifecycle
use librapid.Prelude.{ℕ, ℤ, pos, Bool, true, false, ◌||◌, int_eq, if◌then◌else◌}
use librapid.Kernel.{Kernel, CtlOp, ctl_add, ctl_mod, ctl_del, EpollEvent}
use librapid.Outcome.{Outcome, ok, M, pure, state, modify, ensure_or_throw, ◌>>=◌, ◌>>◌}
use librapid.Channel.{
  Channel, ChannelState, added, deleted, is_new, is_deleted, set_write, clear_write, set_read,
  clear_read, clear_all, set_state,
}

-- The epoll_event that update() fills in.
abbrev pub registration : Channel → EpollEvent
registration c = record { events = c.channel_event; ptr = c.address }

module _ (K : Kernel) (epfd : ℤ) where
  abbrev pub Site : Type 0
  Site = Channel × K.State

  abbrev on_channel : (Channel → Channel) → M Site (Unit {0})
  on_channel f = modify λ (c, k). (f c, k)

  epoll_ctl : CtlOp → M Site ℤ
  epoll_ctl op (c, k) =
      let (res, k') = K.epoll_ctl epfd op c.fd.value (registration c) k in ok res (c, k')

  -- EPollPoller::update
  unfoldable pub update : CtlOp → M Site (Unit {0})
  unfolding epoll_ctl
  update op = do res ← epoll_ctl op; ensure_or_throw (int_eq res (pos 0)) "epoll_ctl return fail!"

  -- EPollPoller::updateChannel
  unfoldable pub update_channel : M Site (Unit {0})
  unfolding update set_state
  update_channel = do
    (c, _) ← state
    if is_new c.state || is_deleted c.state
        then (do update ctl_add; on_channel (set_state added))
        else if is_deleted c.state
        then (do update ctl_del; on_channel (set_state deleted))
        else update ctl_mod

  -- EPollPoller::removeChannel, to which Channel::remove and EventLoop::removeChannel go through.
  unfoldable pub remove_channel : M Site (Unit {0})
  unfolding update
  remove_channel = update ctl_del

  -- The methods of Channel that change the mask; update() goes to updateChannel of the poller.
  unfoldable pub enable_write : M Site (Unit {0})
  unfolding update_channel set_write
  enable_write = on_channel set_write >> update_channel

  unfoldable pub disable_write : M Site (Unit {0})
  unfolding update_channel clear_write
  disable_write = on_channel clear_write >> update_channel

  unfoldable pub enable_read : M Site (Unit {0})
  unfolding update_channel set_read
  enable_read = on_channel set_read >> update_channel

  unfoldable pub disable_read : M Site (Unit {0})
  unfolding update_channel clear_read
  disable_read = on_channel clear_read >> update_channel

  unfoldable pub disable_all : M Site (Unit {0})
  unfolding update_channel clear_all
  disable_all = on_channel clear_all >> update_channel
