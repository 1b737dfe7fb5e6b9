-- ===== src/Program/Early.antt =====
-- src/main.cpp with src/tcpserver.cpp and src/tcpconnection.cpp: a connection that comes in after start()
-- and before main has set the handlers.
use librapid.Prelude.{ℕ, ℤ, pos, ◌+◌, ◌≡◌, refl, some, none, false, List, ◌∷◌, arith}
use librapid.Kernel.{Kernel, filled}
use librapid.Outcome.{ok, M, ◌>>◌}
use librapid.Channel.{make_channel, set_read, set_state}
use librapid.World.{World, Handler, EventLoop, EventLoopPool, user}
use librapid.Outcome.Laws.{Returns}
use librapid.LoopPool
use librapid.Connection.{handle_read, make_connection_channel}
use librapid.Connection.Read.{handle_read-ignored}
use librapid.Server.{
  server, put_server, handle_new_connection, on_connected, on_message, on_write, on_close,
}
use librapid.Server.Enter.{made, made_channel, added_kernel, entered, enter_lem}
use librapid.Program.{install, greets, answers, repeats, leaves}

module _ {K : Kernel} (w : World K) (fd : ℤ) (p : ℕ) (l : EventLoop) (pool : EventLoopPool) where
  -- The connection is there, the handlers are set, and the system has come to k.
  abbrev pub installed : K.State → World K
  installed k =
      let e = entered w fd p l pool in
      record e {
        kernel = k;
        server = record (e.server) {
          locked = false;
          connected_handler = some (user greets);
          read_handler = some (user answers);
          write_handler = some (user repeats);
          close_handler = some (user leaves);
        };
      }

  module _ (run : Handler → ℕ → M (World K) (Unit {0})) where
    enter-install :
        LoopPool.next_loop w.server.pool ≡ ok p pool
        → w.loops p ≡ some l
        → w.server.locked ≡ false
        → (added_kernel w fd p l pool).0 ≡ pos 0
        → w.server.connected_handler ≡ none
        → (handle_new_connection run fd >> install) w
          ≡ ok tt (installed (added_kernel w fd p l pool).1)
    unfolding install server put_server on_connected on_message on_write on_close
    enter-install turn is free done unset =
        rw (enter_lem w fd p l pool run turn is free done) (ground arith)

    read-unanswered :
        (k : K.State) (b : ℕ) (bs : List ℕ)
        → w.server.read_handler ≡ none
        → (K.read fd 4096 k).0 ≡ filled (b ∷ bs)
        → Returns
            (λ _ w'.
              (w'.kernel ≡ (K.read fd 4096 k).1)
              × ((q : ℕ) → w'.connections q ≡ (installed k).connections q))
            (handle_read run w.fresh (installed k))
    unfolding make_connection_channel make_channel set_read set_state
    read-unanswered k b bs unset got =
        let c = made w fd p l pool in
        let is : (installed k).connections w.fresh ≡ some c = ground arith in
        let is_channel : (installed k).channels (w.fresh + 1) ≡ some (made_channel w fd p l pool) =
          ground arith in
        rw
          (handle_read-ignored run w.fresh (installed k) c (made_channel w fd p l pool) is
            is_channel b bs refl got unset)
          (refl, λ q. ground arith)

    -- In the example program a connection that comes in after start() and before main has set
    -- its handlers, with a loop, a free mutex and a descriptor that epoll accepts, is never
    -- answered: once the handlers are set, handleRead of that connection, as it came in, on at
    -- least one byte calls no handler, and leaves the system as the read left it and every
    -- connection as it was.
    pub early-unanswered :
        (k : K.State) (b : ℕ) (bs : List ℕ)
        → LoopPool.next_loop w.server.pool ≡ ok p pool
        → w.loops p ≡ some l
        → w.server.locked ≡ false
        → (added_kernel w fd p l pool).0 ≡ pos 0
        → w.server.connected_handler ≡ none
        → w.server.read_handler ≡ none
        → (K.read fd 4096 k).0 ≡ filled (b ∷ bs)
        → ((handle_new_connection run fd >> install) w
            ≡ ok tt (installed (added_kernel w fd p l pool).1))
          × Returns
              (λ _ w'.
                (w'.kernel ≡ (K.read fd 4096 k).1)
                × ((q : ℕ) → w'.connections q ≡ (installed k).connections q))
              (handle_read run w.fresh (installed k))
    early-unanswered k b bs turn is free done unset no_read got =
        (enter-install turn is free done unset, read-unanswered k b bs no_read got)
