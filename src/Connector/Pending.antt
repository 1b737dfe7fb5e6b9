-- ===== src/Connector/Pending.antt =====
-- src/connector.cpp: what becomes of a connect that is under way, and of the write event after it.
use librapid.Prelude.{
  Bool-cases, inl, inr, sym, ℕ, suc, ℤ, pos, ◌+◌, ◌≡◌, refl, ap, ◌∙◌, true, false, Option, some,
  arith, int_eq,
}
use librapid.Kernel.{Kernel}
use librapid.Outcome.{ok, thrown, M, assert_failed}
use librapid.Outcome.Laws.{and_then-eq-ok}
use librapid.World.{
  World, Connector, ConnectedHandler, connector, put_connector, put_channel, channel, allocate,
  on_site, update,
}
use librapid.Handle.{handle}
use librapid.Channel.{make_channel, connector_write}
use librapid.Poller.{enable_write}
use librapid.Acceptor.{is_fd, drop_fd}
use librapid.Connector.{
  is_dialling, sys_tcp_socket, sys_connect, with_fd, connecting, connect, connect_action,
  handle_write, set_channel, destroy_channel,
}

module _ {K : Kernel} (n self : ℕ) (w : World K) (c : Connector) where
  abbrev pub dialled_fd : ℤ
  dialled_fd = (K.tcp_socket w.kernel).0

  abbrev pub dialled : ℤ × K.State
  dialled = K.connect dialled_fd c.server_addr (K.tcp_socket w.kernel).1

  -- A connect(2) on a valid socket that does not return 0 makes Connector::connect throw,
  -- whatever errno says: the socket is closed and no object changes.
  pub connect-pending :
      w.connectors self ≡ some c
      → is_fd dialled_fd ≡ true
      → int_eq dialled.0 (pos 0) ≡ false
      → connect (suc n) self w
        ≡ thrown
            (assert_failed "connect() return fail!")
            (record w { kernel = K.close dialled_fd dialled.1 })
  unfolding connect connector sys_tcp_socket sys_connect with_fd drop_fd
  connect-pending is valid pending = ground arith

  pub connect-connecting :
      w.connectors self ≡ some c
      → is_fd dialled_fd ≡ true
      → int_eq dialled.0 (pos 0) ≡ true
      → connect (suc n) self w ≡ connecting self dialled_fd (record w { kernel = dialled.1 })
  unfolding connect connector sys_tcp_socket sys_connect connect_action
  connect-connecting is valid done = ground arith

module _ {K : Kernel} where
  destroy_channel_frame :
      (o : Option ℕ) (w w' : World K)
      → destroy_channel o w ≡ ok tt w'
      → w'.connectors ≡ w.connectors
  unfolding destroy_channel channel drop_fd
  destroy_channel_frame o w w' e = ground arith

  on_site_frame :
      {A : Type 0} (p : ℕ) (m : ℤ → M _ A) (a : A) (w w' : World K)
      → on_site p m w ≡ ok a w'
      → w'.connectors ≡ w.connectors
  unfolding on_site
  on_site_frame p m a w w' e = ground arith

  set_channel-state :
      (self : ℕ) (o : Option ℕ) (w w' : World K) (c : Connector)
      → w.connectors self ≡ some c
      → set_channel self o w ≡ ok tt w'
      → w'.connectors self ≡ some (record c { channel = o })
  unfolding set_channel connector put_connector
  set_channel-state self o w w' c is e =
      let w1 : World K = record w {
        connectors = update w.connectors self (record c { channel = o });
      } in
      let d : destroy_channel c.channel w1 ≡ ok tt w' = rw is at e in
      ap (λ f. f self) (destroy_channel_frame c.channel w1 w' d) ∙ ground arith

  connecting-state :
      (self : ℕ) (fd : ℤ) (w w' : World K) (c : Connector)
      → w.connectors self ≡ some c
      → connecting self fd w ≡ ok tt w'
      → (c' : Connector) × (w'.connectors self ≡ some c') × (c'.state ≡ c.state)
  unfolding connecting connector allocate put_channel
  connecting-state self fd w w' c is e =
      let w1 : World K = record w {
        fresh = w.fresh + 1;
        channels = update w.channels w.fresh (record (make_channel w.fresh c.loop (handle fd)) {
          write_handler = some (connector_write self);
        });
      } in
      let (_, w2, done, rest) =
        and_then-eq-ok (set_channel self (some w.fresh) w1) _ (rw is at e) in
      (
        record c { channel = some w.fresh },
        ap (λ f. f self) (on_site_frame w.fresh (enable_write K) tt w2 w' rest)
            ∙ set_channel-state self (some w.fresh) w1 w2 c is done,
        refl,
      )

  -- The field of state_ that a connect leaves.
  connect-state :
      (n self : ℕ) (w w' : World K) (c : Connector)
      → w.connectors self ≡ some c
      → connect (suc n) self w ≡ ok tt w'
      → (c' : Connector) × (w'.connectors self ≡ some c') × (c'.state ≡ c.state)
  unfolding connect connector sys_tcp_socket sys_connect with_fd drop_fd connect_action
  connect-state n self w w' c is e = elim (Bool-cases (is_fd (dialled_fd n self w c))) [
    | inr bad ↦ absurd (ground arith)
    | inl valid ↦ elim (Bool-cases (int_eq (dialled n self w c).0 (pos 0))) [
      | inr pending ↦ absurd (ground (arith, connect-pending n self w c is valid pending))
      | inl done ↦
          connecting-state self (dialled_fd n self w c)
            (record w { kernel = (dialled n self w c).1 }) w' c is
            (sym (connect-connecting n self w c is valid done) ∙ e)
    ]
  ]

  -- In the world in which Connector::connect returned on a connector that was not in the state
  -- Connecting, handleWrite returns and changes nothing, so that it calls no connected handler.
  pub handle_write-connect :
      (run : ConnectedHandler → ℤ → M (World K) (Unit {0})) (m n self : ℕ) (w w' : World K)
      (c : Connector)
      → w.connectors self ≡ some c
      → is_dialling c.state ≡ false
      → connect (suc n) self w ≡ ok tt w'
      → handle_write run m self w' ≡ ok tt w'
  unfolding handle_write connector
  handle_write-connect run m n self w w' c is idle e =
      let (c', is', same) = connect-state n self w w' c is e in
      let idle' : is_dialling c'.state ≡ false = ap is_dialling same ∙ idle in rw (is', idle') refl
