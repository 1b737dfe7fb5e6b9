-- ===== src/EventLoop/Ready.antt =====
-- src/eventloop.cpp and src/epollpoller.cpp: what the constructor of a loop leaves, and what it undoes where enableRead
-- throws.
use librapid.Prelude.{
  ℕ, ◌+◌, ℤ, pos, ◌≡◌, refl, ap, sym, ◌∙◌, subst, Bool-cases, inl, inr, ==_iff, true, false, Option,
  none, some, [], arith, int_eq,
}
use librapid.Kernel.{Kernel, EpollCtl, ctl_add}
use librapid.Handle.{handle}
use librapid.Outcome.{Exception, Outcome, ok, thrown, stuck, pure, throw, assert_failed, and_then}
use librapid.Outcome.Laws.{Returns, Throws, Throws-and_then, Returns-mono}
use librapid.Channel.{Channel, make_channel, added, read_events, set_read}
use librapid.Poller.{enable_read, update_channel, registration}
use librapid.World.{World, EventLoop, channel, event_loop, on_site, without, update}
use librapid.Acceptor.{is_fd, drop_fd}
use librapid.EventLoop.Build.{construct, destroy, unwind}
use librapid.EventLoop.{epoll_event_init_size}

module _ {K : Kernel} (L : EpollCtl K) where
  -- The loop rests, and epoll watches its wakeup channel for reading.
  pub record IsReady (self : ℕ) (w : World K) : Type 0 where
    pub loop : EventLoop
    pub wakeup : Channel
    pub at : w.loops self ≡ some loop
    pub wakeup_at : w.channels loop.wakeup_channel ≡ some wakeup
    pub quit : loop.quit ≡ true
    pub listed : L.interest w.kernel loop.epollfd wakeup.fd.value ≡ some (registration wakeup)
    pub mask : wakeup.channel_event ≡ read_events
    pub state : wakeup.state ≡ added

module _ {S A : Type 0} (x : Exception) (P : S → Type 0) where
  -- An unwinding that comes to its end goes on with the exception.
  throw-Throws :
      (r : Outcome S A)
      → Returns (λ _ s. P s) r
      → Throws x P (and_then {B = Unit {0}} r (λ _. throw x))
  throw-Throws (ok a s) h = (refl, h)
  throw-Throws (thrown e s) h = absurd h
  throw-Throws (stuck f) h = absurd h

module _ {A : Type 0} (f : ℕ → Option A) (p : ℕ) (u v : A) (q : ℕ) where
  without-update : f p ≡ none → without (update f p v) p q ≡ f q
  without-update free = ground (arith, ==_iff p q)

  without-update-update : f p ≡ none → without (update (update f p u) p v) p q ≡ f q
  without-update-update free = ground (arith, ==_iff p q)

module _ {K : Kernel} (self : ℕ) (w : World K) (l : EventLoop) (c : Channel) where
  destroy_lem :
      w.loops self ≡ some l
      → w.channels l.wakeup_channel ≡ some c
      → Returns
          (λ _ w'.
            (w'.loops ≡ without w.loops self) × (w'.channels ≡ without w.channels l.wakeup_channel))
          (destroy self w)
  unfolding destroy event_loop channel drop_fd
  destroy_lem at wakeup_at = elim (Bool-cases (is_fd c.fd.value)) [
    | inl a ↦ elim (Bool-cases (is_fd l.epollfd)) [
      | inl b ↦ rw (at, wakeup_at, a, b) (refl, refl)
      | inr b ↦ rw (at, wakeup_at, a, b) (refl, refl)
    ]
    | inr a ↦ elim (Bool-cases (is_fd l.epollfd)) [
      | inl b ↦ rw (at, wakeup_at, a, b) (refl, refl)
      | inr b ↦ rw (at, wakeup_at, a, b) (refl, refl)
    ]
  ]

module _ {K : Kernel} (L : EpollCtl K) (w : World K) where
  abbrev pub new_epollfd : ℤ
  new_epollfd = (K.epoll_create w.kernel).0

  abbrev pub new_eventfd : ℤ × K.State
  new_eventfd = K.eventfd 2049 (K.epoll_create w.kernel).1

  abbrev pub wakeup_channel : Channel
  wakeup_channel = record (make_channel (w.fresh + 1) w.fresh (handle new_eventfd.0)) {
    channel_event = read_events;
  }

  abbrev pub registered : ℤ × K.State
  registered =
      K.epoll_ctl new_epollfd ctl_add new_eventfd.0 (registration wakeup_channel) new_eventfd.1

  abbrev built_loop : EventLoop
  built_loop = record {
    quit = true;
    epollfd = new_epollfd;
    events_size = epoll_event_init_size;
    wakeup_channel = w.fresh + 1;
    active_channels = [];
    running = false;
  }

  -- The world before enableRead.
  abbrev laid_out : World K
  laid_out = record w {
    kernel = new_eventfd.1;
    loops = update w.loops w.fresh built_loop;
    channels =
        update w.channels (w.fresh + 1) (make_channel (w.fresh + 1) w.fresh (handle new_eventfd.0));
    fresh = w.fresh + 1 + 1;
  }

  abbrev built : World K
  built = record laid_out {
    kernel = registered.1;
    channels = update (laid_out.channels) (w.fresh + 1) (record wakeup_channel { state = added });
  }

  enable_read-new :
      registered.0 ≡ pos 0
      → enable_read K new_epollfd
          (make_channel (w.fresh + 1) w.fresh (handle new_eventfd.0), new_eventfd.1)
        ≡ ok tt (record wakeup_channel { state = added }, registered.1)
  unfolding enable_read make_channel update_channel set_read
  enable_read-new done = ground (arith, done)

  enable_read-built :
      registered.0 ≡ pos 0 → on_site (w.fresh + 1) (enable_read K) laid_out ≡ ok tt built
  unfolding on_site make_channel
  enable_read-built done = ground (arith, enable_read-new done)

  construct-built : registered.0 ≡ pos 0 → construct w ≡ ok (w.fresh) built
  unfolding construct
  construct-built done =
      ap (λ r. and_then (unwind (destroy (w.fresh)) r) (λ _. pure (w.fresh)))
        (enable_read-built done)

  -- The constructor of EventLoop, where epoll_ctl registers the descriptor of eventfd, returns a
  -- loop that rests with quit_ set, and epoll watches its wakeup channel for reading.
  pub construct-IsReady :
      registered.0 ≡ pos 0 → Returns (λ self w'. IsReady L self w') (construct w)
  unfolding construct make_channel
  construct-IsReady done =
      subst (Returns (λ self w'. IsReady L self w')) (sym (construct-built done)) (record {
        loop = built_loop;
        wakeup = record wakeup_channel { state = added };
        at = ground arith;
        wakeup_at = ground arith;
        quit = refl;
        listed =
            L.add_done new_epollfd new_eventfd.0 (registration wakeup_channel) new_eventfd.1 done;
        mask = refl;
        state = refl;
      })

  -- The world in which enableRead threw: its assignment to the mask stays.
  abbrev broken : World K
  broken = record laid_out {
    kernel = registered.1;
    channels = update (laid_out.channels) (w.fresh + 1) wakeup_channel;
  }

  enable_read-refused :
      int_eq (registered.0) (pos 0) ≡ false
      → enable_read K new_epollfd
          (make_channel (w.fresh + 1) w.fresh (handle new_eventfd.0), new_eventfd.1)
        ≡ thrown (assert_failed "epoll_ctl return fail!") (wakeup_channel, registered.1)
  unfolding enable_read make_channel update_channel set_read
  enable_read-refused refused = ground (arith, refused)

  enable_read-broken :
      int_eq (registered.0) (pos 0) ≡ false
      → on_site (w.fresh + 1) (enable_read K) laid_out
        ≡ thrown (assert_failed "epoll_ctl return fail!") broken
  unfolding on_site make_channel
  enable_read-broken refused = ground (arith, enable_read-refused refused)

  -- No object is there that was not there before.
  abbrev pub IsClean : World K → Type 0
  IsClean w' = (p : ℕ) → (w'.loops p ≡ w.loops p) × (w'.channels p ≡ w.channels p)

  -- The constructor of EventLoop, where epoll_ctl refuses the descriptor of eventfd and the
  -- addresses of the new objects were free, throws, and no loop and no channel is there that was
  -- not there before.
  pub construct-Throws :
      int_eq (registered.0) (pos 0) ≡ false
      → w.loops w.fresh ≡ none
      → w.channels (w.fresh + 1) ≡ none
      → Throws (assert_failed "epoll_ctl return fail!") IsClean (construct w)
  unfolding construct
  construct-Throws refused free_loop free_channel =
      subst (Throws (assert_failed "epoll_ctl return fail!") IsClean)
        (sym (
          ap (λ r. and_then (unwind (destroy (w.fresh)) r) (λ _. pure (w.fresh)))
            (enable_read-broken refused)))
        (Throws-and_then (assert_failed "epoll_ctl return fail!") IsClean _ _ (
          throw-Throws (assert_failed "epoll_ctl return fail!") IsClean (destroy (w.fresh) broken) (
            Returns-mono _ _ (destroy (w.fresh) broken)
              (destroy_lem (w.fresh) broken built_loop wakeup_channel (ground arith) (ground arith))
              λ _ w' (ls, cs) p. (
                ap (λ f. f p) ls ∙ without-update w.loops w.fresh built_loop built_loop p free_loop,
                ap (λ f. f p) cs
                    ∙ without-update-update w.channels (w.fresh + 1)
                        (make_channel (w.fresh + 1) w.fresh (handle new_eventfd.0)) wakeup_channel p
                        free_channel,
              ))))
