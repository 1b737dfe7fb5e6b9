-- ===== src/EventLoop/Polls.antt =====
-- src/epollpoller.cpp, EPollPoller::poll: the channels that a round finds, and the size of the array.
use librapid.Prelude.{
  ◌≢◌, Bool-cases, inl, inr, ℕ, ◌*◌, ◌≡◌, refl, sym, ap, ◌∙◌, true, false, some, List, [], ◌∷◌,
  ◌++◌, arith, All, length, ◌==◌, if◌then◌else◌,
}
use mathlib.Core.List.{append_assoc, append-nil}
use librapid.Kernel.{Kernel, EpollEvent, Filled, filled}
use librapid.Outcome.{ok}
use librapid.Outcome.Laws.{Returns, Returns-and_then, Returns-mono}
use librapid.Channel.{Channel, set_events}
use librapid.World.{World, EventLoop, event_loop, put_loop, channel, put_channel, update}
use librapid.EventLoop.{
  polled, sys_epoll_wait, set_active, deliver_one, deliver, grow, on_polled, poll,
}

-- The channels of a list of events, null pointers left out.
abbrev pub targets : List EpollEvent → List ℕ
targets [] = []
targets (ev ∷ evs) = if ev.ptr == 0 then targets evs else ev.ptr ∷ targets evs

module _ {K : Kernel} where
  -- Every event with a pointer points to a channel.
  abbrev pub AllAlive : World K → List EpollEvent → Type 0
  AllAlive w evs =
      All (λ (ev : EpollEvent). (ev.ptr ≢ 0) → (c : Channel) × (w.channels ev.ptr ≡ some c)) evs

  -- The world after an event with a pointer.
  abbrev delivered : ℕ → EpollEvent → World K → EventLoop → Channel → World K
  delivered p ev w l c = record w {
    channels = update w.channels ev.ptr (set_events ev.events c);
    loops = update w.loops p (record l { active_channels = l.active_channels ++ ev.ptr ∷ [] });
  }

  deliver_one-null :
      (p : ℕ) (ev : EpollEvent) (w : World K) → (ev.ptr == 0) ≡ true → deliver_one p ev w ≡ ok tt w
  unfolding deliver_one
  deliver_one-null p ev w e = rw e refl

  deliver_one-delivered :
      (p : ℕ) (ev : EpollEvent) (w : World K) (l : EventLoop) (c : Channel)
      → (ev.ptr == 0) ≡ false
      → w.loops p ≡ some l
      → w.channels ev.ptr ≡ some c
      → deliver_one p ev w ≡ ok tt (delivered p ev w l c)
  unfolding deliver_one set_active event_loop put_loop channel put_channel
  deliver_one-delivered p ev w l c e is there = ground arith

  AllAlive-delivered :
      (p : ℕ) (ev : EpollEvent) (w : World K) (l : EventLoop) (c : Channel) (evs : List EpollEvent)
      → AllAlive w evs
      → AllAlive (delivered p ev w l c) evs
  AllAlive-delivered p ev w l c [] alive = tt
  AllAlive-delivered p ev w l c (e ∷ evs) alive = (
    λ nonnull. elim (Bool-cases (ev.ptr == e.ptr)) [
      | inl same ↦ (set_events ev.events c, rw same refl)
      | inr other ↦ let (d, there) = alive.0 nonnull in (d, rw other there)
    ],
    AllAlive-delivered p ev w l c evs alive.1,
  )

  deliver-active :
      (p : ℕ) (evs : List EpollEvent) (w : World K) (l : EventLoop)
      → w.loops p ≡ some l
      → AllAlive w evs
      → Returns
          (λ _ w'.
            w'.loops p ≡ some (record l { active_channels = l.active_channels ++ targets evs }))
          (deliver p evs w)
  unfolding deliver
  deliver-active p [] w l is alive =
      is
      ∙ ap (λ (cs : List ℕ). some (record l { active_channels = cs }))
          (sym (append-nil l.active_channels))
  deliver-active p (ev ∷ evs) w l is alive = elim (Bool-cases (ev.ptr == 0)) [
    | inl null ↦ rw (deliver_one-null p ev w null, null) (deliver-active p evs w l is alive.1)
    | inr found ↦
        let (c, there) = alive.0 (λ z. ground arith) in
        let l' : EventLoop = record l { active_channels = l.active_channels ++ ev.ptr ∷ [] } in
        rw (deliver_one-delivered p ev w l c found is there, found)
          (Returns-mono _ _ (deliver p evs (delivered p ev w l c))
            (deliver-active p evs (delivered p ev w l c) l' (ground arith)
              (AllAlive-delivered p ev w l c evs alive.1))
            λ _ w' q.
              q
              ∙ ap (λ (cs : List ℕ). some (record l { active_channels = cs }))
                  (append_assoc l.active_channels (ev.ptr ∷ []) (targets evs)))
  ]

  -- The world in which epoll_wait has filled the array.
  abbrev waited : ℕ → World K → EventLoop → K.State → World K
  waited p w l k = record w {
    kernel = k;
    loops = update w.loops p (record l { active_channels = [] });
  }

  poll-on_polled :
      (p : ℕ) (w : World K) (l : EventLoop) (r : Filled EpollEvent) (k : K.State)
      → w.loops p ≡ some l
      → K.epoll_wait l.epollfd l.events_size w.kernel ≡ (r, k)
      → poll p w ≡ on_polled p r (waited p w l k)
  unfolding poll set_active event_loop put_loop sys_epoll_wait
  poll-on_polled p w l r k is got = ground arith

  grow_lem :
      (p n : ℕ) (w : World K) (l : EventLoop)
      → w.loops p ≡ some l
      → Returns
          (λ _ w'.
            w'.loops p
            ≡ some (record l {
              events_size = if n == l.events_size then l.events_size * 2 else l.events_size;
            }))
          (grow p n w)
  unfolding grow event_loop put_loop
  grow_lem p n w l is = ground arith

  -- A poll in which epoll_wait gives at least one event, each null or pointing to a channel,
  -- returns their number; the loop then has as active channels those that the events point to,
  -- in order, and its array is doubled exactly when the events filled it.
  pub poll_lem :
      (p : ℕ) (w : World K) (l : EventLoop) (ev : EpollEvent) (evs : List EpollEvent) (k : K.State)
      → w.loops p ≡ some l
      → K.epoll_wait l.epollfd l.events_size w.kernel ≡ (filled (ev ∷ evs), k)
      → AllAlive w (ev ∷ evs)
      → Returns
          (λ r w'.
            (r ≡ polled (length (ev ∷ evs)))
            × (w'.loops p
                ≡ some (record l {
                  active_channels = targets (ev ∷ evs);
                  events_size =
                      if length (ev ∷ evs) == l.events_size
                      then l.events_size * 2
                      else l.events_size;
                })))
          (poll p w)
  unfolding on_polled
  poll_lem p w l ev evs k is got alive =
      let w1 = waited p w l k in
      let n = length (ev ∷ evs) in
      rw (poll-on_polled p w l (filled (ev ∷ evs)) k is got) (
        Returns-and_then _ _ (deliver p (ev ∷ evs) w1) _
          (deliver-active p (ev ∷ evs) w1 (record l { active_channels = [] }) (ground arith) alive)
          λ _ w' q.
            Returns-and_then _ _ (grow p n w') _
              (grow_lem p n w' (record l { active_channels = targets (ev ∷ evs) }) q)
              λ _ w'' q'. (refl, q'))
