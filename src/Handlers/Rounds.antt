-- ===== src/Handlers/Rounds.antt =====
-- src/eventloop.cpp with src/tcpserver.cpp: the rounds of a loop thread, and what they keep of a server.
use librapid.Prelude.{ℕ, zero, suc, ℤ, Bool, true, false, List, [], ◌∷◌, ◌++◌, ◌*◌, ◌==◌, length}
use librapid.Kernel.{Kernel, EpollEvent, Filled, failed, filled}
use librapid.Outcome.{Outcome, ok, thrown, stuck, M, pure, ◌>>=◌}
use librapid.Outcome.Laws.{Keeps}
use librapid.Channel.{Channel, ChannelHandler, handle_event, set_events}
use librapid.World.{World, EventLoop, event_loop, put_loop}
use librapid.EventLoop.{
  eintr, Polled, poll_failed, polled, Round, next_round, break_loop, LoopEnd, stopped, broken,
  unfinished, sys_epoll_wait, set_active, deliver_one, deliver, grow, on_polled, poll, caught,
  handle_channel, handle_all, after_poll, round, run,
}
use librapid.Handlers.{run_channel}
use librapid.Handlers.Connects.{put_channel-Steady}
use librapid.Handlers.Invariant.{run_channel-Steady}
use librapid.Server.Steady.{
  Safe, Steady, Steady-bind, pure-Steady, if-Steady, invoke-Steady, kernel-Steady, deref-Steady,
  channel-Steady,
}

module _ {K : Kernel} (held : Bool) where
  event_loop-Steady : (p : ℕ) → Steady {K = K} held (event_loop p)
  unfolding event_loop
  event_loop-Steady p = deref-Steady held (λ w. w.loops p)

  put_loop-Steady : (p : ℕ) (l : EventLoop) → Steady {K = K} held (put_loop p l)
  unfolding put_loop
  put_loop-Steady p l = record { keeps = λ w h. h }

  set_active-Steady : (p : ℕ) (cs : List ℕ) → Steady {K = K} held (set_active p cs)
  unfolding set_active
  set_active-Steady p cs =
      Steady-bind held (event_loop-Steady p)
        λ l. put_loop-Steady p (record l { active_channels = cs })

  deliver_one-Steady : (p : ℕ) (ev : EpollEvent) → Steady {K = K} held (deliver_one p ev)
  unfolding deliver_one
  deliver_one-Steady p ev = if-Steady held (ev.ptr == 0) (pure-Steady held tt) (
      Steady-bind held (channel-Steady held ev.ptr) λ c.
        Steady-bind held (put_channel-Steady held ev.ptr (set_events ev.events c)) λ _.
          Steady-bind held (event_loop-Steady p)
            λ l. set_active-Steady p (l.active_channels ++ ev.ptr ∷ []))

  deliver-Steady : (p : ℕ) (evs : List EpollEvent) → Steady {K = K} held (deliver p evs)
  unfolding deliver
  deliver-Steady p [] = pure-Steady held tt
  deliver-Steady p (ev ∷ evs) = Steady-bind held (deliver_one-Steady p ev) λ _. deliver-Steady p evs

  grow-Steady : (p n : ℕ) → Steady {K = K} held (grow p n)
  unfolding grow
  grow-Steady p n = Steady-bind held (event_loop-Steady p) λ l.
      if-Steady held (n == l.events_size)
        (put_loop-Steady p (record l { events_size = l.events_size * 2 })) (pure-Steady held tt)

  on_polled-Steady : (p : ℕ) (r : Filled EpollEvent) → Steady {K = K} held (on_polled p r)
  unfolding on_polled
  on_polled-Steady p (failed e) = pure-Steady held (poll_failed e)
  on_polled-Steady p (filled []) = pure-Steady held (polled 0)
  on_polled-Steady p (filled (ev ∷ evs)) = Steady-bind held (deliver-Steady p (ev ∷ evs)) λ _.
      Steady-bind held (grow-Steady p (length (ev ∷ evs)))
        λ _. pure-Steady held (polled (length (ev ∷ evs)))

  poll-Steady : (p : ℕ) → Steady {K = K} held (poll p)
  unfolding poll sys_epoll_wait
  poll-Steady p = Steady-bind held (set_active-Steady p []) λ _.
      Steady-bind held (event_loop-Steady p) λ l.
        Steady-bind held (kernel-Steady held (K.epoll_wait l.epollfd l.events_size))
          λ r. on_polled-Steady p r

  module _ (call : ChannelHandler → M (World K) (Unit {0}))
      (calls : (h : ChannelHandler) → Steady held (call h)) where
    handle_event-Steady : (c : Channel) → Steady held (handle_event call (pure tt) c)
    unfolding handle_event
    handle_event-Steady c = if-Steady held _ (invoke-Steady held call c.close_handler calls) (
        if-Steady held _ (invoke-Steady held call c.read_handler calls)
          (if-Steady held _ (invoke-Steady held call c.write_handler calls) (pure-Steady held tt)))

    caught-Safe :
        (r : Outcome (World K) (Unit {0})) → Keeps (Safe held) r → Keeps (Safe held) (caught r)
    caught-Safe (ok a w) h = h
    caught-Safe (thrown e w) h = h
    caught-Safe (stuck f) h = tt

    handle_channel-Steady : (p : ℕ) → Steady held (handle_channel call p)
    unfolding handle_channel
    handle_channel-Steady p = record {
      keeps = λ w h.
          caught-Safe _
            ((Steady-bind held (channel-Steady held p) λ c. handle_event-Steady c).keeps w h);
    }

    handle_all-Steady : (cs : List ℕ) → Steady held (handle_all call cs)
    unfolding handle_all
    handle_all-Steady [] = pure-Steady held tt
    handle_all-Steady (c ∷ cs) =
        Steady-bind held (handle_channel-Steady c) λ _. handle_all-Steady cs

    after_poll-Steady : (p : ℕ) (r : Polled) → Steady held (after_poll call p r)
    unfolding after_poll
    after_poll-Steady p (poll_failed e) =
        if-Steady held (e == eintr) (pure-Steady held next_round) (pure-Steady held break_loop)
    after_poll-Steady p (polled n) =
        Steady-bind held (event_loop-Steady p) λ l.
          Steady-bind held (handle_all-Steady l.active_channels) λ _. pure-Steady held next_round

    round-Steady : (p : ℕ) → Steady held (round call p)
    unfolding round
    round-Steady p = Steady-bind held (poll-Steady p) λ r. after_poll-Steady p r

    further-Steady :
        (n p : ℕ)
        → Steady held (run call n p)
        → (r : Round)
        → Steady held (elim r as (λ _. M (World K) LoopEnd) [
          | next_round ↦ run call n p
          | break_loop ↦ pure broken
        ])
    further-Steady n p again next_round = again
    further-Steady n p again break_loop = pure-Steady held broken

    test-Steady :
        (n p : ℕ)
        → Steady held (run call n p)
        → (quit : Bool)
        → Steady held (elim quit as (λ _. M (World K) LoopEnd) [
          | true ↦ pure stopped
          | false ↦ do
            r ← round call p
            elim r as (λ _. M (World K) LoopEnd) [
              | next_round ↦ run call n p
              | break_loop ↦ pure broken
            ]
        ])
    test-Steady n p again true = pure-Steady held stopped
    test-Steady n p again false = Steady-bind held (round-Steady p) λ r. further-Steady n p again r

    pub run-Steady : (n p : ℕ) → Steady held (run call n p)
    unfolding run
    run-Steady zero p = pure-Steady held unfinished
    run-Steady (suc n) p =
        Steady-bind held (event_loop-Steady p) λ l. test-Steady n p (run-Steady n p) l.quit

module _ {K : Kernel} (app : ℕ → ℕ → M (World K) (Unit {0}))
    (apps : (held : Bool) (t p : ℕ) → Steady held (app t p))
    (take_fd : ℕ → ℤ → M (World K) (Unit {0}))
    (takes : (held : Bool) (t : ℕ) (fd : ℤ) → Steady held (take_fd t fd)) where
  -- However many rounds a loop thread runs, whatever the operating system gives it and whatever
  -- closures its channels run, of connections, acceptors and connectors with all that these
  -- call, the server is left with each id once among its clients and with its mutex free, where
  -- the run comes to its end; it starts so, and the handlers of the program keep the ids and the
  -- mutex as they are.
  pub run-Safe :
      (depth n p : ℕ) (w : World K)
      → Safe false w
      → Keeps (Safe false) (run (run_channel app take_fd depth) n p w)
  run-Safe depth n p w safe =
      (run-Steady false (run_channel app take_fd depth)
          (run_channel-Steady app apps take_fd takes depth false) n p).keeps
        w safe
