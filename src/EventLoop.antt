-- ===== src/EventLoop.antt =====
-- src/eventloop.cpp and EPollPoller::poll of src/epollpoller.cpp. `call` runs the closure of a channel. The loop thread
-- is a recursion on rounds; what other threads do between two rounds is not in it.
pub mod Rounds
pub mod Polls
pub mod Threads
pub mod Build
pub mod Ready
use librapid.Prelude.{
  ℕ, zero, suc, ◌*◌, ℤ, Bool, true, false, List, [], ◌∷◌, ◌++◌, ◌==◌, if◌then◌else◌, length,
  is_nonneg,
}
use librapid.Kernel.{Kernel, EpollEvent, Filled, failed, filled}
use librapid.Outcome.{Outcome, ok, thrown, stuck, M, pure, ensure_or_throw, ◌>>=◌, ◌>>◌}
use librapid.Channel.{ChannelHandler, handle_event, set_events}
use librapid.World.{World, EventLoop, channel, put_channel, event_loop, put_loop}
use librapid.Connection.{sys_write}

abbrev pub eintr : ℕ
eintr = 4

-- EPOLL_EVENT_INIT_SIZE
abbrev pub epoll_event_init_size : ℕ
epoll_event_init_size = 128

-- uint64_t one = 1, in memory order.
abbrev pub one_bytes : List ℕ
one_bytes = 1 ∷ 0 ∷ 0 ∷ 0 ∷ 0 ∷ 0 ∷ 0 ∷ 0 ∷ []

-- What poll() gives: -1 with errno, or the number of events.
pub data Polled : Type 0 where
  poll_failed : ℕ → Polled
  polled : ℕ → Polled

-- How a round of the loop ends.
pub data Round : Type 0 where
  next_round break_loop : Round

-- How the loop thread ends.
pub data LoopEnd : Type 0 where
  stopped broken unfinished : LoopEnd

module _ {K : Kernel} where
  unfoldable pub sys_epoll_wait : ℤ → ℕ → M (World K) (Filled EpollEvent)
  sys_epoll_wait ep n w = let (r, k) = K.epoll_wait ep n w.kernel in ok r (record w { kernel = k })

  unfoldable pub set_active : ℕ → List ℕ → M (World K) (Unit {0})
  unfolding event_loop put_loop
  set_active p cs = do l ← event_loop p; put_loop p (record l { active_channels = cs })

  -- The body of the for_each: a null pointer is skipped.
  unfoldable pub deliver_one : ℕ → EpollEvent → M (World K) (Unit {0})
  unfolding channel put_channel event_loop set_active set_events
  deliver_one p ev = if ev.ptr == 0 then pure tt else (do
    c ← channel ev.ptr
    put_channel ev.ptr (set_events ev.events c)
    l ← event_loop p
    set_active p (l.active_channels ++ ev.ptr ∷ []))

  unfoldable pub deliver : ℕ → List EpollEvent → M (World K) (Unit {0})
  unfolding deliver_one
  deliver p [] = pure tt
  deliver p (ev ∷ evs) = deliver_one p ev >> deliver p evs

  -- The vector doubles when it was filled to the end.
  unfoldable pub grow : ℕ → ℕ → M (World K) (Unit {0})
  unfolding event_loop put_loop
  grow p n = do
    l ← event_loop p
    if n == l.events_size
        then put_loop p (record l { events_size = l.events_size * 2 })
        else pure tt

  unfoldable pub on_polled : ℕ → Filled EpollEvent → M (World K) Polled
  unfolding deliver grow
  on_polled p (failed e) = pure (poll_failed e)
  on_polled p (filled []) = pure (polled 0)
  on_polled p (filled (ev ∷ evs)) = do
    deliver p (ev ∷ evs)
    grow p (length (ev ∷ evs))
    pure (polled (length (ev ∷ evs)))

  -- EPollPoller::poll
  unfoldable pub poll : ℕ → M (World K) Polled
  unfolding set_active event_loop sys_epoll_wait on_polled
  poll p = do
    set_active p []
    l ← event_loop p
    r ← sys_epoll_wait l.epollfd l.events_size
    on_polled p r

  -- EventLoop::wakeup, by Channel::weakup.
  unfoldable pub wakeup : ℕ → M (World K) (Unit {0})
  unfolding event_loop channel sys_write
  wakeup p = do
    l ← event_loop p
    c ← channel l.wakeup_channel
    ret ← sys_write c.fd.value one_bytes
    ensure_or_throw (is_nonneg ret) "wakeup fail!"

  unfoldable pub start : ℕ → M (World K) (Unit {0})
  unfolding event_loop put_loop
  start p = do l ← event_loop p; put_loop p (record l { quit = false; running = true })

  unfoldable pub stop : ℕ → M (World K) (Unit {0})
  unfolding event_loop put_loop wakeup
  stop p = do l ← event_loop p; put_loop p (record l { quit = true }); wakeup p

  -- EventLoop::waitForEnd: the join of a thread that has come to its end.
  unfoldable pub wait_for_end : ℕ → M (World K) (Unit {0})
  unfolding event_loop put_loop
  wait_for_end p = do
    l ← event_loop p
    if l.running then put_loop p (record l { running = false }) else pure tt

  -- The two catch clauses: the exception is logged, and the loop goes on.
  abbrev pub caught : Outcome (World K) (Unit {0}) → Outcome (World K) (Unit {0})
  caught (ok a w) = ok a w
  caught (thrown e w) = ok tt w
  caught (stuck f) = stuck f

  module _ (call : ChannelHandler → M (World K) (Unit {0})) where
    -- channel->handleEvent() under its try.
    unfoldable pub handle_channel : ℕ → M (World K) (Unit {0})
    unfolding channel handle_event
    handle_channel p w = caught ((channel p >>= handle_event call (pure tt)) w)

    unfoldable pub handle_all : List ℕ → M (World K) (Unit {0})
    unfolding handle_channel
    handle_all [] = pure tt
    handle_all (c ∷ cs) = handle_channel c >> handle_all cs

    unfoldable pub after_poll : ℕ → Polled → M (World K) Round
    unfolding event_loop handle_all
    after_poll p (poll_failed e) = if e == eintr then pure next_round else pure break_loop
    after_poll p (polled n) = do l ← event_loop p; handle_all l.active_channels; pure next_round

    unfoldable pub round : ℕ → M (World K) Round
    unfolding poll after_poll
    round p = do r ← poll p; after_poll p r

    -- The while loop of the thread, for at most so many rounds.
    unfoldable pub run : ℕ → ℕ → M (World K) LoopEnd
    unfolding event_loop round
    run zero p = pure unfinished
    run (suc n) p = do
      l ← event_loop p
      elim l.quit [
        | true ↦ pure stopped
        | false ↦ do r ← round p; elim r [ next_round ↦ run n p | break_loop ↦ pure broken ]
      ]
