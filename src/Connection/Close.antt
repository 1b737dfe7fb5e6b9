-- ===== src/Connection/Close.antt =====
-- src/tcpconnection.cpp: what handleClose does to a connection that is registered, and to one
-- that is not any more.
use librapid.Prelude.{ℕ, ℤ, ◌≡◌, ◌≢◌, ◌∙◌, ◌⊎◌, none, some, arith}
use librapid.Kernel.{Kernel, EpollCtl, EpollEvent, ctl_mod, ctl_del}
use librapid.Outcome.{ok, M, invoke}
use librapid.Outcome.Laws.{Throws, Throws-and_then}
use librapid.Channel.{Channel, added, clear_all}
use librapid.Poller.{registration, disable_all, remove_channel}
use librapid.Poller.Sync.{ctl_failed}
use librapid.World.{
  World, Handler, TcpConnection, ConnectionState, EventLoop, disconnected, connection,
  put_connection, on_site, update,
}
use librapid.Connection.{detach, handle_close, set_connection_state, run_handler}

module _ {K : Kernel} where
  -- The connection at `self`, its channel, and the loop that the channel belongs to.
  pub record Attached (w : World K) (self : ℕ) (c : TcpConnection) (ch : Channel) (l : EventLoop)
      : Type 0 where
    pub is_connection : w.connections self ≡ some c
    pub is_channel : w.channels c.channel ≡ some ch
    pub is_loop : w.loops ch.loop ≡ some l
    pub is_added : ch.state ≡ added

  -- The system after the two calls of epoll_ctl, and the world then.
  abbrev pub masked_kernel : World K → Channel → EventLoop → K.State
  masked_kernel w ch l =
      (K.epoll_ctl l.epollfd ctl_mod ch.fd.value (registration (clear_all ch)) w.kernel).1

  abbrev pub detached_kernel : World K → Channel → EventLoop → K.State
  detached_kernel w ch l =
      (K.epoll_ctl l.epollfd ctl_del ch.fd.value (registration (clear_all ch))
        (masked_kernel w ch l)).1

  abbrev pub detached : World K → TcpConnection → Channel → EventLoop → World K
  detached w c ch l = record w {
    kernel = detached_kernel w ch l;
    channels = update (update w.channels c.channel (clear_all ch)) c.channel (clear_all ch);
  }

  -- The world in which the close handler is called.
  abbrev pub closed : World K → ℕ → TcpConnection → Channel → EventLoop → World K
  closed w self c ch l = record (detached w c ch l) {
    connections = update w.connections self (record c { state = disconnected });
  }

  module _ (L : EpollCtl K) (w : World K) (self : ℕ) (c : TcpConnection) (ch : Channel)
      (l : EventLoop) (at : Attached w self c ch l) where
    module _ (old : EpollEvent)
        (listed : L.interest w.kernel l.epollfd ch.fd.value ≡ some old) where
      pub detach_lem : detach self w ≡ ok tt (detached w c ch l)
      unfolding detach disable_all remove_channel clear_all connection on_site
      detach_lem =
          let ep = l.epollfd in
          let fd = ch.fd.value in
          let ev = registration (clear_all ch) in
          ground (
            arith,
            L.mod_known ep fd ev w.kernel old,
            L.mod_done ep fd ev w.kernel,
            L.del_known ep fd ev (masked_kernel w ch l) ev,
          )

      -- The registration is gone.
      pub detached_unlisted : L.interest (detached_kernel w ch l) l.epollfd ch.fd.value ≡ none
      detached_unlisted =
          let ep = l.epollfd in
          let fd = ch.fd.value in
          let ev = registration (clear_all ch) in
          ground (
            arith,
            L.mod_known ep fd ev w.kernel old,
            L.mod_done ep fd ev w.kernel,
            L.del_known ep fd ev (masked_kernel w ch l) ev,
            L.del_done ep fd ev (masked_kernel w ch l),
          )

    -- Every other one stays.
    pub detached_others :
        (e f : ℤ)
        → (e ≢ l.epollfd) ⊎ (f ≢ ch.fd.value)
        → L.interest (detached_kernel w ch l) e f ≡ L.interest w.kernel e f
    detached_others e f h =
        let ep = l.epollfd in
        let fd = ch.fd.value in
        let ev = registration (clear_all ch) in
        L.others ep fd ctl_del ev (masked_kernel w ch l) e f h
        ∙ L.others ep fd ctl_mod ev w.kernel e f h

    -- A channel that has been removed makes the first statement of handleClose throw.
    pub detach-unlisted :
        L.interest w.kernel l.epollfd ch.fd.value ≡ none
        → Throws ctl_failed
            (λ w'.
              (w'.connections ≡ w.connections) × (w'.server ≡ w.server) × (w'.client ≡ w.client))
            (detach self w)
    unfolding detach disable_all remove_channel clear_all connection on_site
    detach-unlisted unlisted =
        ground (arith, L.mod_unknown l.epollfd ch.fd.value (registration (clear_all ch)) w.kernel)

    -- handleClose of a registered connection is its close handler, called once in the world in
    -- which the mask is cleared, the registration deleted and the state Disconnected.
    pub handle_close_lem :
        (old : EpollEvent)
        → L.interest w.kernel l.epollfd ch.fd.value ≡ some old
        → (call : Handler → ℕ → M (World K) (Unit {0}))
        → handle_close call self w
          ≡ invoke (λ h. call h self) c.close_handler (closed w self c ch l)
    unfolding handle_close set_connection_state run_handler connection put_connection
    handle_close_lem old listed call = rw (detach_lem old listed) (ground (arith, at.is_connection))

    -- handleClose of a connection whose registration is gone throws in its first statement, with
    -- connections, server and client unchanged.
    pub handle_close-unlisted :
        L.interest w.kernel l.epollfd ch.fd.value ≡ none
        → (call : Handler → ℕ → M (World K) (Unit {0}))
        → Throws ctl_failed
            (λ w'.
              (w'.connections ≡ w.connections) × (w'.server ≡ w.server) × (w'.client ≡ w.client))
            (handle_close call self w)
    unfolding handle_close
    handle_close-unlisted unlisted call =
        Throws-and_then ctl_failed _ (detach self w) _ (detach-unlisted unlisted)

  pub set_connection_state_lem :
      (w : World K) (self : ℕ) (c : TcpConnection) (s : ConnectionState)
      → w.connections self ≡ some c
      → set_connection_state self s w
        ≡ ok tt (record w { connections = update w.connections self (record c { state = s }) })
  unfolding set_connection_state connection put_connection
  set_connection_state_lem w self c s h = ground arith
