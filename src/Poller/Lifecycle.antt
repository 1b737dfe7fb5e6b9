-- ===== src/Poller/Lifecycle.antt =====
-- src/epollpoller.cpp with the calls of include/rapid/core/channel.h, against a machine of three
-- phases: a channel before its registration, a registered one, and one that was removed.
use librapid.Prelude.{
  ◌⊎◌, inl, inr, Bool, ℤ, pos, ◌≡◌, ◌≢◌, refl, ap, ◌∙◌, none, some, arith, int_eq_iff, List, [],
  ◌∷◌,
}
use librapid.Kernel.{Kernel, EpollCtl, EpollEvent, ctl_add, ctl_mod, ctl_del}
use librapid.Handle.{FileDesc}
use librapid.Outcome.{Outcome, ok, thrown, stuck, M, pure, ◌>>◌}
use librapid.Outcome.Laws.{Returns, Throws, Returns-and_then, Returns-mono}
use librapid.Channel.{Channel, new, added}
use librapid.Poller.{Site, registration, update_channel, remove_channel}
use librapid.Poller.Sync.{
  Call, assign, flags, reads_after, writes_after, assign-flags, assign_frame, perform,
  perform-assign, ctl_failed,
}

pub data Command : Type 0 where
  masks : Call → Command
  removes : Command

-- The two interests, in reading and in writing, of a channel in its phase.
pub data Phase : Type 0 where
  fresh watched removed : (reads writes : Bool) → Phase

-- What may come of a command: it returns, it throws, or the system decides.
pub data Reply : Type 0 where
  returns throws : Phase → Reply
  either : Phase → Phase → Reply

abbrev pub spec : Command → Phase → Reply
spec (masks m) (fresh r w) =
    either (watched (reads_after m r) (writes_after m w))
      (fresh (reads_after m r) (writes_after m w))
spec (masks m) (watched r w) = returns (watched (reads_after m r) (writes_after m w))
spec (masks m) (removed r w) = throws (removed (reads_after m r) (writes_after m w))
spec removes (fresh r w) = throws (fresh r w)
spec removes (watched r w) = returns (removed r w)
spec removes (removed r w) = throws (removed r w)

-- The phases that a command may lead to.
abbrev pub Next : Reply → Phase → Type 0
Next (returns q) p = q ≡ p
Next (throws q) p = q ≡ p
Next (either q q') p = (q ≡ p) ⊎ (q' ≡ p)

abbrev pub Possible : Phase → List Command → Phase → Type 0
Possible p [] q = p ≡ q
Possible p (c ∷ cs) q = (p' : Phase) × Next (spec c p) p' × Possible p' cs q

module _ (K : Kernel) (epfd : ℤ) where
  unfoldable pub obey : Command → M (Site K epfd) (Unit {0})
  unfolding perform remove_channel
  obey (masks m) = perform K epfd m
  obey removes = remove_channel K epfd

  -- An exception is caught, as the loop thread catches it.
  abbrev pub swallow : Outcome (Site K epfd) (Unit {0}) → Outcome (Site K epfd) (Unit {0})
  swallow (ok a t) = ok a t
  swallow (thrown e t) = ok tt t
  swallow (stuck f) = stuck f

  pub drive : List Command → M (Site K epfd) (Unit {0})
  unfolding obey
  drive [] = pure tt
  drive (c ∷ cs) = (λ s. swallow (obey c s)) >> drive cs

  module _ (L : EpollCtl K) where
    abbrev pub Represents : Phase → Site K epfd → Type 0
    Represents (fresh r w) (c, k) =
        (c.channel_event ≡ flags r w) × (c.state ≡ new) × (L.interest k epfd c.fd.value ≡ none)
    Represents (watched r w) (c, k) =
        (c.channel_event ≡ flags r w)
        × (c.state ≡ added)
        × (L.interest k epfd c.fd.value ≡ some (registration c))
    Represents (removed r w) (c, k) =
        (c.channel_event ≡ flags r w) × (c.state ≡ added) × (L.interest k epfd c.fd.value ≡ none)

    abbrev pub Meets : Reply → Outcome (Site K epfd) (Unit {0}) → Type 0
    Meets (returns q) r = Returns (λ _ t. Represents q t) r
    Meets (throws q) r = Throws ctl_failed (Represents q) r
    Meets (either q q') (ok a t) = Represents q t
    Meets (either q q') (thrown e t) = (e ≡ ctl_failed) × Represents q' t
    Meets (either q q') (stuck f) = ⊥

    module _ (c : Channel) (k : K.State) (r w : Bool) where
      update_channel-fresh :
          c.channel_event ≡ flags r w
          → c.state ≡ new
          → L.interest k epfd c.fd.value ≡ none
          → Meets (either (watched r w) (fresh r w)) (update_channel K epfd (c, k))
      unfolding update_channel
      update_channel-fresh m e h =
          let ev = registration c in
          ground (
            arith,
            int_eq_iff (K.epoll_ctl epfd ctl_add c.fd.value ev k).0 (pos 0),
            L.add_done epfd c.fd.value ev k,
            λ (n : (K.epoll_ctl epfd ctl_add c.fd.value ev k).0 ≢ pos 0).
                L.refused epfd c.fd.value ctl_add ev k n epfd c.fd.value,
          )

      update_channel-watched :
          (old : EpollEvent)
          → c.channel_event ≡ flags r w
          → c.state ≡ added
          → L.interest k epfd c.fd.value ≡ some old
          → Returns (λ _ t. Represents (watched r w) t) (update_channel K epfd (c, k))
      unfolding update_channel
      update_channel-watched old m e h =
          let ev = registration c in
          ground (arith, L.mod_known epfd c.fd.value ev k old, L.mod_done epfd c.fd.value ev k)

      update_channel-removed :
          c.channel_event ≡ flags r w
          → c.state ≡ added
          → L.interest k epfd c.fd.value ≡ none
          → Throws ctl_failed (Represents (removed r w)) (update_channel K epfd (c, k))
      unfolding update_channel
      update_channel-removed m e h =
          let ev = registration c in
          let res = (K.epoll_ctl epfd ctl_mod c.fd.value ev k).0 in
          ground (
            arith,
            L.mod_unknown epfd c.fd.value ev k h,
            λ (n : res ≢ pos 0). L.refused epfd c.fd.value ctl_mod ev k n epfd c.fd.value,
          )

    remove_channel-watched :
        (c : Channel) (k : K.State) (r w : Bool)
        → Represents (watched r w) (c, k)
        → Returns (λ _ t. Represents (removed r w) t) (remove_channel K epfd (c, k))
    unfolding remove_channel
    remove_channel-watched c k r w h =
        let ev = registration c in
        ground (arith, L.del_known epfd c.fd.value ev k ev, L.del_done epfd c.fd.value ev k)

    remove_channel-fresh :
        (c : Channel) (k : K.State) (r w : Bool)
        → Represents (fresh r w) (c, k)
        → Throws ctl_failed (Represents (fresh r w)) (remove_channel K epfd (c, k))
    unfolding remove_channel
    remove_channel-fresh c k r w h =
        let ev = registration c in
        ground (
          arith,
          L.del_unknown epfd c.fd.value ev k h.2,
          λ (n : (K.epoll_ctl epfd ctl_del c.fd.value ev k).0 ≢ pos 0).
              L.refused epfd c.fd.value ctl_del ev k n epfd c.fd.value,
        )

    remove_channel-removed :
        (c : Channel) (k : K.State) (r w : Bool)
        → Represents (removed r w) (c, k)
        → Throws ctl_failed (Represents (removed r w)) (remove_channel K epfd (c, k))
    unfolding remove_channel
    remove_channel-removed c k r w h =
        let ev = registration c in
        ground (
          arith,
          L.del_unknown epfd c.fd.value ev k h.2,
          λ (n : (K.epoll_ctl epfd ctl_del c.fd.value ev k).0 ≢ pos 0).
              L.refused epfd c.fd.value ctl_del ev k n epfd c.fd.value,
        )

    assigned_fd : (m : Call) (c : Channel) → (assign m c).fd.value ≡ c.fd.value
    assigned_fd m c = ap (λ (f : FileDesc). f.value) (assign_frame m c).1

    -- Each of the five calls that change the mask, and remove(), meets the specification of a
    -- channel in phases: before its registration a call may register it or throw, on a
    -- registered one it returns and epoll has the new mask, after remove() every call throws and
    -- nothing is registered again.
    pub obey-Meets :
        (q : Command) (p : Phase) (s : Site K epfd) → Represents p s → Meets (spec q p) (obey q s)
    unfolding obey
    obey-Meets (masks m) (fresh r w) (c, k) h = rw (perform-assign K epfd m c k) (
        update_channel-fresh (assign m c) k (reads_after m r) (writes_after m w)
          (assign-flags m r w c h.0) ((assign_frame m c).0 ∙ h.1) (rw (assigned_fd m c) h.2))
    obey-Meets (masks m) (watched r w) (c, k) h = rw (perform-assign K epfd m c k) (
        update_channel-watched (assign m c) k (reads_after m r) (writes_after m w) (registration c)
          (assign-flags m r w c h.0) ((assign_frame m c).0 ∙ h.1) (rw (assigned_fd m c) h.2))
    obey-Meets (masks m) (removed r w) (c, k) h = rw (perform-assign K epfd m c k) (
        update_channel-removed (assign m c) k (reads_after m r) (writes_after m w)
          (assign-flags m r w c h.0) ((assign_frame m c).0 ∙ h.1) (rw (assigned_fd m c) h.2))
    obey-Meets removes (fresh r w) (c, k) h = remove_channel-fresh c k r w h
    obey-Meets removes (watched r w) (c, k) h = remove_channel-watched c k r w h
    obey-Meets removes (removed r w) (c, k) h = remove_channel-removed c k r w h

    abbrev Follows : Reply → Site K epfd → Type 0
    Follows y t = (q : Phase) × Next y q × Represents q t

    swallow-Follows :
        (y : Reply) (r : Outcome (Site K epfd) (Unit {0}))
        → Meets y r
        → Returns (λ _ t. Follows y t) (swallow r)
    swallow-Follows (returns q) (ok a t) h = (q, refl, h)
    swallow-Follows (returns q) (thrown e t) h = absurd h
    swallow-Follows (returns q) (stuck f) h = absurd h
    swallow-Follows (throws q) (ok a t) h = absurd h
    swallow-Follows (throws q) (thrown e t) h = (q, refl, h.1)
    swallow-Follows (throws q) (stuck f) h = absurd h
    swallow-Follows (either q q') (ok a t) h = (q, inl refl, h)
    swallow-Follows (either q q') (thrown e t) h = (q', inr refl, h.1)
    swallow-Follows (either q q') (stuck f) h = absurd h

    -- Any sequence of calls that change the mask and of remove(), each exception caught as the
    -- loop thread catches it, comes to its end and leads a channel from a phase to one that the
    -- specification allows: the mask is that of the phase and epoll has what the phase says.
    pub drive-Possible :
        (cs : List Command) (p : Phase) (s : Site K epfd)
        → Represents p s
        → Returns (λ _ t. (q : Phase) × Possible p cs q × Represents q t) (drive cs s)
    unfolding drive
    drive-Possible [] p s h = (p, refl, h)
    drive-Possible (c ∷ cs) p s h =
        Returns-and_then (λ _ t. Follows (spec c p) t) _ (swallow (obey c s)) _
          (swallow-Follows (spec c p) (obey c s) (obey-Meets c p s h))
          λ _ t (p', step, rep).
            Returns-mono _ _ (drive cs t) (drive-Possible cs p' t rep)
              λ _ u (q, path, rep'). (q, (p', step, path), rep')
