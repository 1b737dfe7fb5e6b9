-- ===== src/Connector/Never.antt =====
-- src/connector.cpp: how deep connect calls itself, and the states that its operations lead to.
use librapid.Prelude.{
  ℕ, zero, suc, ◌+◌, ℤ, pos, ◌≡◌, refl, ◌∙◌, sym, subst, Bool-cases, Option-cases, inl, inr, false,
  Option, none, some, arith, int_eq,
}
use librapid.Kernel.{Kernel}
use librapid.Outcome.{Outcome, ok, thrown, stuck, dangling, M}
use librapid.World.{
  World, Connector, ConnectedHandler, connector, put_connector, update, channel, allocate,
  put_channel, on_site, settle,
}
use librapid.Channel.{Channel, make_channel, connector_write}
use librapid.Handle.{handle}
use librapid.Poller.{enable_write}
use librapid.Acceptor.{is_fd, drop_fd}
use librapid.Outcome.Laws.{Keeps, Ended, Keeps-Ended, Keeps-and_then}
use librapid.Connector.Pending.{dialled_fd, dialled, connect-pending, connect-connecting}
use librapid.Connector.{
  is_dialling, sys_tcp_socket, sys_connect, with_fd, connect, connect_action, handle_write,
  reset_channel, set_channel, destroy_channel, set_connected_handler, connecting,
}

module _ {K : Kernel} where
  -- The branch of connect that retries is never taken: any depth from 1 on gives the same run.
  pub connect-suc : (n self : ℕ) (w : World K) → connect (suc n) self w ≡ connect 1 self w
  unfolding connect connector sys_tcp_socket sys_connect with_fd drop_fd connect_action
  connect-suc n self w = refl

  module _ (self : ℕ) where
    abbrev pub IsIdle : World K → Type 0
    IsIdle w = (c : Connector) × (w.connectors self ≡ some c) × (is_dialling c.state ≡ false)

    settle-IsIdle :
        {A : Type 0} (p : ℕ) (w : World K) (r : Outcome (Channel × K.State) A)
        → IsIdle w
        → Keeps IsIdle (settle p w r)
    settle-IsIdle p w (ok a (c, k)) h = h
    settle-IsIdle p w (thrown e (c, k)) h = h
    settle-IsIdle p w (stuck f) h = tt

    on_site-IsIdle :
        {A : Type 0} (p : ℕ) (m : ℤ → M _ A) (w : World K) → IsIdle w → Keeps IsIdle (on_site p m w)
    unfolding on_site
    on_site-IsIdle p m w h = elim (Option-cases (w.channels p)) [
      | inl gone ↦ rw (gone, Keeps) tt
      | inr (c, is) ↦ elim (Option-cases (w.loops c.loop)) [
        | inl gone ↦
            let run : on_site p m w ≡ stuck dangling = ground arith in
            subst (Keeps IsIdle) (sym run) tt
        | inr (l, at) ↦
            let run : on_site p m w ≡ settle p w (m l.epollfd (c, w.kernel)) = ground arith in
            subst (Keeps IsIdle) (sym run) (settle-IsIdle p w (m l.epollfd (c, w.kernel)) h)
      ]
    ]

    destroy_channel-IsIdle :
        (o : Option ℕ) (w : World K) → IsIdle w → Keeps IsIdle (destroy_channel o w)
    unfolding destroy_channel channel drop_fd
    destroy_channel-IsIdle none w h = h
    destroy_channel-IsIdle (some p) w h = elim (Option-cases (w.channels p)) [
      | inl gone ↦ rw (gone, Keeps) tt
      | inr (c, is) ↦ elim (Bool-cases (is_fd c.fd.value)) [
        | inl held ↦ rw (is, held) h
        | inr none_held ↦ rw (is, none_held) h
      ]
    ]

    put_connector-IsIdle :
        (c : Connector) (w : World K)
        → is_dialling c.state ≡ false
        → Keeps IsIdle (put_connector self c w)
    unfolding put_connector
    put_connector-IsIdle c w idle = (c, ground arith, idle)

    set_channel-IsIdle :
        (o : Option ℕ) (w : World K) → IsIdle w → Keeps IsIdle (set_channel self o w)
    unfolding set_channel connector
    set_channel-IsIdle o w (c, is, idle) = rw is (
        Keeps-and_then IsIdle (put_connector self (record c { channel = o }) w) _
          (put_connector-IsIdle (record c { channel = o }) w idle)
          (λ _ w1 h. destroy_channel-IsIdle c.channel w1 h))

    connecting-IsIdle : (fd : ℤ) (w : World K) → IsIdle w → Keeps IsIdle (connecting self fd w)
    unfolding connecting connector allocate put_channel
    connecting-IsIdle fd w (c, is, idle) =
        let w1 : World K = record w {
          fresh = w.fresh + 1;
          channels = update w.channels w.fresh (record (make_channel w.fresh c.loop (handle fd)) {
            write_handler = some (connector_write self);
          });
        } in
        rw is (
          Keeps-and_then IsIdle (set_channel self (some w.fresh) w1) _
            (set_channel-IsIdle (some w.fresh) w1 (c, is, idle))
            (λ _ w2 h. on_site-IsIdle w.fresh (enable_write K) w2 h))

    connect-IsIdle : (n : ℕ) (w : World K) → IsIdle w → Keeps IsIdle (connect n self w)
    unfolding connect connector sys_tcp_socket sys_connect with_fd drop_fd connect_action
    connect-IsIdle zero w h = tt
    connect-IsIdle (suc n) w (c, is, idle) = elim (Bool-cases (is_fd (dialled_fd n self w c))) [
      | inr bad ↦ rw (is, bad) (c, is, idle)
      | inl valid ↦ elim (Bool-cases (int_eq (dialled n self w c).0 (pos 0))) [
        | inr pending ↦
            subst (Keeps IsIdle) (sym (connect-pending n self w c is valid pending)) (c, is, idle)
        | inl done ↦ subst (Keeps IsIdle) (sym (connect-connecting n self w c is valid done)) (
            connecting-IsIdle (dialled_fd n self w c) (record w { kernel = (dialled n self w c).1 })
              (c, is, idle))
      ]
    ]

    set_connected_handler-IsIdle :
        (f : ConnectedHandler) (w : World K)
        → IsIdle w
        → Keeps IsIdle (set_connected_handler self f w)
    unfolding set_connected_handler connector
    set_connected_handler-IsIdle f w (c, is, idle) =
        rw is (put_connector-IsIdle (record c { connected_handler = some f }) w idle)

    handle_write-IsIdle :
        (run : ConnectedHandler → ℤ → M (World K) (Unit {0})) (n : ℕ) (w : World K)
        → IsIdle w
        → handle_write run n self w ≡ ok tt w
    unfolding handle_write connector
    handle_write-IsIdle run n w (c, is, idle) = rw (is, idle) refl

    module _ (run : ConnectedHandler → ℤ → M (World K) (Unit {0})) (n : ℕ) where
      -- One thing that happens: a member function of the connector ends, or other code runs,
      -- which has no access to the connector.
      pub data Step : World K → World K → Type 0 where
        connects : {w w' : World K} → Ended (connect n self w) w' → Step w w'
        resets : {w w' : World K} → Ended (reset_channel self w) w' → Step w w'
        installs :
            (f : ConnectedHandler) {w w' : World K}
            → Ended (set_connected_handler self f w) w'
            → Step w w'
        writes : {w w' : World K} → Ended (handle_write run n self w) w' → Step w w'
        elsewhere : {w w' : World K} → w'.connectors self ≡ w.connectors self → Step w w'

      pub data Steps : World K → World K → Type 0 where
        here : {w : World K} → Steps w w
        next : {w w' w'' : World K} → Step w w' → Steps w' w'' → Steps w w''

      Step-IsIdle : {w w' : World K} → Step w w' → IsIdle w → IsIdle w'
      unfolding reset_channel
      Step-IsIdle (connects {w} {w'} e) h =
          Keeps-Ended IsIdle (connect n self w) w' (connect-IsIdle n w h) e
      Step-IsIdle (resets {w} {w'} e) h =
          Keeps-Ended IsIdle (set_channel self none w) w' (set_channel-IsIdle none w h) e
      Step-IsIdle (installs f {w} {w'} e) h =
          Keeps-Ended IsIdle (set_connected_handler self f w) w'
            (set_connected_handler-IsIdle f w h) e
      Step-IsIdle (writes {w} {w'} e) h =
          Keeps-Ended IsIdle (handle_write run n self w) w'
            (subst (Keeps IsIdle) (sym (handle_write-IsIdle run n w h)) h) e
      Step-IsIdle (elsewhere {w} {w'} e) (c, is, idle) = (c, e ∙ is, idle)

      -- From a connector that is not in the state Connecting, no sequence of its connect,
      -- resetChannel, setConnectedHandler and handleWrite, each to its return or its exception,
      -- with other code between them that leaves the connector alone, leads to a world in which
      -- handleWrite does anything: it calls no connected handler.
      pub never_dials :
          (w w' : World K) → IsIdle w → Steps w w' → handle_write run n self w' ≡ ok tt w'
      never_dials w w' h here = handle_write-IsIdle run n w h
      never_dials w w'' h (next {w' = w'} step rest) = never_dials w' w'' (Step-IsIdle step h) rest
