-- ===== src/EventLoop/Build.antt =====
-- src/eventloop.cpp, src/epollpoller.cpp and src/eventlooppool.cpp: the constructors of a loop and of a pool of
-- loops, with what an exception of enableRead undoes.
use librapid.Prelude.{ℕ, zero, suc, ℤ, true, false, List, [], ◌∷◌, ◌++◌}
use librapid.Kernel.{Kernel}
use librapid.Handle.{handle}
use librapid.Outcome.{Outcome, ok, thrown, stuck, M, pure, throw, modify, ◌>>=◌, ◌>>◌}
use librapid.Channel.{make_channel}
use librapid.Poller.{enable_read}
use librapid.World.{
  World, EventLoopPool, allocate, channel, event_loop, put_loop, put_channel, on_site, without,
}
use librapid.Acceptor.{drop_fd}
use librapid.EventLoop.{epoll_event_init_size}

module _ {K : Kernel} where
  unfoldable pub sys_epoll_create : M (World K) ℤ
  sys_epoll_create w = let (r, k) = K.epoll_create w.kernel in ok r (record w { kernel = k })

  unfoldable pub sys_eventfd : ℕ → M (World K) ℤ
  sys_eventfd flags w = let (r, k) = K.eventfd flags w.kernel in ok r (record w { kernel = k })

  -- What the unwinding of an exception does before it goes on.
  abbrev pub unwind :
      {A : Type 0} → M (World K) (Unit {0}) → Outcome (World K) A → Outcome (World K) A
  unwind undo (ok a w) = ok a w
  unwind undo (thrown e w) = (undo >> throw e) w
  unwind undo (stuck f) = stuck f

  abbrev pub on_throw : {A : Type 0} → M (World K) (Unit {0}) → M (World K) A → M (World K) A
  on_throw undo body w = unwind undo (body w)

  -- The members of a loop in the reverse of their order: wakeupChannel_, then poller_.
  unfoldable pub destroy : ℕ → M (World K) (Unit {0})
  unfolding event_loop channel drop_fd
  destroy self = do
    l ← event_loop self
    c ← channel l.wakeup_channel
    drop_fd c.fd.value
    drop_fd l.epollfd
    modify λ w. record w {
      loops = without w.loops self;
      channels = without w.channels l.wakeup_channel;
    }

  -- EventLoop::EventLoop with EPollPoller::EPollPoller. EFD_NONBLOCK | FD_CLOEXEC is 2049.
  unfoldable pub construct : M (World K) ℕ
  unfolding sys_epoll_create sys_eventfd allocate put_loop put_channel on_site enable_read destroy
  construct = do
    epollfd ← sys_epoll_create
    wakeup_fd ← sys_eventfd 2049
    self ← allocate
    chan ← allocate
    put_loop self (record {
      quit = true;
      epollfd = epollfd;
      events_size = epoll_event_init_size;
      wakeup_channel = chan;
      active_channels = [];
      running = false;
    })
    put_channel chan (make_channel chan self (handle wakeup_fd))
    on_throw (destroy self) (on_site chan (enable_read K))
    pure self

  unfoldable pub destroy_loops : List ℕ → M (World K) (Unit {0})
  unfolding destroy
  destroy_loops [] = pure tt
  destroy_loops (l ∷ ls) = destroy l >> destroy_loops ls

  -- The loop of EventLoopPool::EventLoopPool, with the loops that stand already; they are destroyed
  -- where the constructor of the next one throws.
  unfoldable pub construct_loops : ℕ → List ℕ → M (World K) (List ℕ)
  unfolding construct destroy_loops
  construct_loops zero loops = pure loops
  construct_loops (suc n) loops = do
    l ← on_throw (destroy_loops loops) construct
    construct_loops n (loops ++ l ∷ [])

  -- EventLoopPool::EventLoopPool. Nothing sets count_.
  unfoldable pub construct_pool : (indeterminate num_thread : ℕ) → M (World K) EventLoopPool
  unfolding construct_loops
  construct_pool indeterminate num_thread = do
    loops ← construct_loops num_thread []
    pure (record { count = indeterminate; loops = loops })
