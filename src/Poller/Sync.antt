-- ===== src/Poller/Sync.antt =====
-- What a channel knows of itself against what the epoll instance knows of it.
use librapid.Prelude.{
  Bool, ℕ, ℤ, pos, ◌≡◌, ◌≢◌, refl, ap, none, some, arith, int_eq_iff, true, false,
}
use librapid.Kernel.{Kernel, EpollCtl, EpollEvent, ctl_add, ctl_del}
use librapid.Handle.{FileDesc}
use librapid.Outcome.{M, Exception, assert_failed}
use librapid.Outcome.Laws.{Leaves, Returns, Throws, Leaves-Returns, Returns-mono}
use librapid.Channel.{
  Channel, ChannelState, new, added, deleted, set_write, clear_write, set_read, clear_read,
  clear_all,
}
use librapid.Poller.{
  Site, registration, update_channel, remove_channel, enable_write, disable_write, enable_read,
  disable_read, disable_all,
}

-- The calls that change the mask.
pub data Call : Type 0 where
  enables_write disables_write enables_read disables_read disables_all : Call

-- The assignment to channelEvent_ that a call begins with.
unfoldable pub assign : Call → Channel → Channel
unfolding set_write clear_write set_read clear_read clear_all
assign enables_write c = set_write c
assign disables_write c = clear_write c
assign enables_read c = set_read c
assign disables_read c = clear_read c
assign disables_all c = clear_all c

-- The mask that stands for interest in reading and in writing.
abbrev pub flags : (reads writes : Bool) → ℕ
flags false false = 0
flags true false = 3
flags false true = 4
flags true true = 7

abbrev pub reads_after : Call → Bool → Bool
reads_after enables_read r = true
reads_after disables_read r = false
reads_after disables_all r = false
reads_after _ r = r

abbrev pub writes_after : Call → Bool → Bool
writes_after enables_write w = true
writes_after disables_write w = false
writes_after disables_all w = false
writes_after _ w = w

abbrev pub IsMask : ℕ → Type 0
IsMask e = (r : Bool) × (w : Bool) × (e ≡ flags r w)

-- The assignments to channelEvent_ of the five calls set and clear the interests in reading and
-- in writing one by one.
pub assign-flags :
    (m : Call) (r w : Bool) (c : Channel)
    → c.channel_event ≡ flags r w
    → (assign m c).channel_event ≡ flags (reads_after m r) (writes_after m w)
unfolding assign
assign-flags enables_write true true c e = rw e
assign-flags enables_write true false c e = rw e
assign-flags enables_write false true c e = rw e
assign-flags enables_write false false c e = rw e
assign-flags disables_write true true c e = rw e
assign-flags disables_write true false c e = rw e
assign-flags disables_write false true c e = rw e
assign-flags disables_write false false c e = rw e
assign-flags enables_read true true c e = rw e
assign-flags enables_read true false c e = rw e
assign-flags enables_read false true c e = rw e
assign-flags enables_read false false c e = rw e
assign-flags disables_read true true c e = rw e
assign-flags disables_read true false c e = rw e
assign-flags disables_read false true c e = rw e
assign-flags disables_read false false c e = rw e
assign-flags disables_all r w c e = refl

-- A call touches no other field of the channel.
pub assign_frame :
    (m : Call) (c : Channel)
    → ((assign m c).state ≡ c.state) × ((assign m c).fd ≡ c.fd) × ((assign m c).address ≡ c.address)
unfolding assign
assign_frame enables_write c = (refl, refl, refl)
assign_frame disables_write c = (refl, refl, refl)
assign_frame enables_read c = (refl, refl, refl)
assign_frame disables_read c = (refl, refl, refl)
assign_frame disables_all c = (refl, refl, refl)

abbrev pub ctl_failed : Exception
ctl_failed = assert_failed "epoll_ctl return fail!"

module _ (K : Kernel) (epfd : ℤ) where
  unfoldable pub perform : Call → M (Site K epfd) (Unit {0})
  unfolding enable_write disable_write enable_read disable_read disable_all assign
  perform enables_write = enable_write K epfd
  perform disables_write = disable_write K epfd
  perform enables_read = enable_read K epfd
  perform disables_read = disable_read K epfd
  perform disables_all = disable_all K epfd

  pub perform-assign :
      (m : Call) (c : Channel) (k : K.State)
      → perform m (c, k) ≡ update_channel K epfd (assign m c, k)
  unfolding perform
  perform-assign enables_write c k = refl
  perform-assign disables_write c k = refl
  perform-assign enables_read c k = refl
  perform-assign disables_read c k = refl
  perform-assign disables_all c k = refl

  module _ (L : EpollCtl K) where
    -- A channel that counts as added is registered with the mask it has now; a new one is not
    -- registered; the state DEL does not occur.
    pub record IsSynced (s : Site K epfd) : Type 0 where
      pub mask : IsMask s.0.channel_event
      pub listed : s.0.state ≡ added → L.interest s.1 epfd s.0.fd.value ≡ some (registration s.0)
      pub unlisted : s.0.state ≡ new → L.interest s.1 epfd s.0.fd.value ≡ none
      pub never_deleted : s.0.state ≢ deleted

    module _ (c : Channel) (k : K.State) where
      -- Registering a channel that is not listed: done, or refused with nothing changed.
      update_channel-new :
          IsMask c.channel_event
          → c.state ≡ new
          → L.interest k epfd c.fd.value ≡ none
          → Leaves IsSynced (update_channel K epfd (c, k))
      unfolding update_channel
      update_channel-new m e h =
          let ev = registration c in
          ground (
            arith,
            int_eq_iff (K.epoll_ctl epfd ctl_add c.fd.value ev k).0 (pos 0),
            L.add_done epfd c.fd.value ev k,
            λ (r : (K.epoll_ctl epfd ctl_add c.fd.value ev k).0 ≢ pos 0).
                L.refused epfd c.fd.value ctl_add ev k r epfd c.fd.value,
          )

      update_channel-added :
          (old : EpollEvent)
          → c.state ≡ added
          → L.interest k epfd c.fd.value ≡ some old
          → Returns
              (λ _ s. (s.0 ≡ c) × (L.interest s.1 epfd c.fd.value ≡ some (registration c)))
              (update_channel K epfd (c, k))
      unfolding update_channel
      update_channel-added old e h =
          let ev = registration c in
          ground (arith, L.mod_known epfd c.fd.value ev k old, L.mod_done epfd c.fd.value ev k)

      update_channel-unlisted :
          c.state ≡ added
          → L.interest k epfd c.fd.value ≡ none
          → Throws ctl_failed (λ s. s.0 ≡ c) (update_channel K epfd (c, k))
      unfolding update_channel
      update_channel-unlisted e h = ground (arith, L.mod_unknown epfd c.fd.value (registration c) k)

    update_channel-IsSynced :
        (c : Channel) (k : K.State) (old : EpollEvent) (s : ChannelState)
        → c.state ≡ s
        → IsMask c.channel_event
        → (s ≡ new → L.interest k epfd c.fd.value ≡ none)
        → (s ≡ added → L.interest k epfd c.fd.value ≡ some old)
        → s ≢ deleted
        → Leaves IsSynced (update_channel K epfd (c, k))
    update_channel-IsSynced c k old new e m un li nd = update_channel-new c k m e (un refl)
    update_channel-IsSynced c k old added e m un li nd =
        Leaves-Returns _ IsSynced (update_channel K epfd (c, k))
          (update_channel-added c k old e (li refl)) λ _ t p. ground arith
    update_channel-IsSynced c k old deleted e m un li nd = absurd (nd refl)

    -- The invariant that ties a channel to the interest list of epoll (one counted as added is
    -- registered with its own mask, a new one is not registered, DEL does not occur, the mask is
    -- one of four) is kept by each of the five calls that change the mask, whether the call
    -- returns or throws.
    pub perform-IsSynced : (m : Call) (s : Site K epfd) → IsSynced s → Leaves IsSynced (perform m s)
    perform-IsSynced m (c, k) h =
        let (r, w, e) = h.mask in
        let same = ap (λ (f : FileDesc). f.value) (assign_frame m c).1 in
        let mask : IsMask (assign m c).channel_event =
          (reads_after m r, writes_after m w, assign-flags m r w c e) in
        rw (perform-assign m c k) (
          update_channel-IsSynced (assign m c) k (registration c) c.state (assign_frame m c).0 mask
            (λ n. simp same (h.unlisted n)) (λ n. simp same (h.listed n)) h.never_deleted)

    -- On an added channel in step with epoll, no call that changes the mask fails: it returns,
    -- the channel differs only in the assigned mask, and epoll has that mask.
    pub perform-added :
        (m : Call) (s : Site K epfd)
        → IsSynced s
        → s.0.state ≡ added
        → Returns
            (λ _ t.
              (t.0 ≡ assign m s.0)
              × (L.interest t.1 epfd s.0.fd.value ≡ some (registration (assign m s.0))))
            (perform m s)
    perform-added m (c, k) h e =
        let same = ap (λ (f : FileDesc). f.value) (assign_frame m c).1 in
        rw (perform-assign m c k) (
          Returns-mono _ _ (update_channel K epfd (assign m c, k))
            (update_channel-added (assign m c) k (registration c) (ground (arith, assign_frame m c))
              (simp same (h.listed e)))
            λ _ t p. (p.0, simp (← same) p.1))

    perform-unlisted :
        (m : Call) (c : Channel) (k : K.State)
        → c.state ≡ added
        → L.interest k epfd c.fd.value ≡ none
        → Throws ctl_failed (λ u. u.0 ≡ assign m c) (perform m (c, k))
    perform-unlisted m c k e h = rw (perform-assign m c k) (
        update_channel-unlisted (assign m c) k (ground (arith, assign_frame m c))
          (rw (ap (λ (f : FileDesc). f.value) (assign_frame m c).1) h))

    -- remove() of an added channel in step with epoll returns, takes the registration away and
    -- leaves the channel as it is: a call that changes the mask then throws.
    pub remove_channel-perform :
        (m : Call) (s : Site K epfd)
        → IsSynced s
        → s.0.state ≡ added
        → Returns
            (λ _ t.
              (t.0 ≡ s.0)
              × (L.interest t.1 epfd s.0.fd.value ≡ none)
              × Throws ctl_failed (λ u. u.0 ≡ assign m s.0) (perform m t))
            (remove_channel K epfd s)
    unfolding remove_channel
    remove_channel-perform m (c, k) h e =
        let ev = registration c in
        ground (
          arith,
          h.listed e,
          L.del_known epfd c.fd.value ev k ev,
          L.del_done epfd c.fd.value ev k,
          perform-unlisted m c (K.epoll_ctl epfd ctl_del c.fd.value ev k).1 e,
        )
