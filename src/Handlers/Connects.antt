-- ===== src/Handlers/Connects.antt =====
-- src/connector.cpp and TcpClient::connected: they leave the server of a program alone.
use librapid.Prelude.{
  String, ℕ, zero, suc, ℤ, pos, minus_one, Bool, true, false, Option, none, some, int_eq, ltb,
}
use librapid.Kernel.{Kernel}
use librapid.Handle.{handle}
use librapid.Outcome.{
  Outcome, ok, thrown, stuck, M, pure, throw, fault, null_pointer, ensure_or_throw, assert_failed,
  ◌>>◌,
}
use librapid.Outcome.Laws.{Keeps}
use librapid.World.{
  World, Connector, ConnectState, established, broken_off, ConnectedHandler, connector,
  put_connector, put_channel, allocate,
}
use librapid.Channel.{Channel, make_channel, connector_write}
use librapid.Poller.{enable_write, disable_all, remove_channel}
use librapid.Acceptor.{is_fd, drop_fd, sys_close}
use librapid.Connector.{
  connect_action, sys_tcp_socket, sys_connect, get_socket_error, with_fd, destroy_channel,
  set_channel, reset_channel, set_connect_state, connecting, connect, retry, channel_of, release_fd,
  finish_connect, handle_write, is_dialling,
}
use librapid.Server.Steady.{
  Safe, Steady, Steady-bind, pure-Steady, if-Steady, invoke-Steady, kernel-Steady, deref-Steady,
  channel-Steady, on_site-Steady,
}

module _ {K : Kernel} (held : Bool) where
  connector-Steady : (p : ℕ) → Steady {K = K} held (connector p)
  unfolding connector
  connector-Steady p = deref-Steady held (λ w. w.connectors p)

  put_connector-Steady : (p : ℕ) (c : Connector) → Steady {K = K} held (put_connector p c)
  unfolding put_connector
  put_connector-Steady p c = record { keeps = λ w h. h }

  pub put_channel-Steady : (p : ℕ) (c : Channel) → Steady {K = K} held (put_channel p c)
  unfolding put_channel
  put_channel-Steady p c = record { keeps = λ w h. h }

  pub drop_fd-Steady : (fd : ℤ) → Steady {K = K} held (drop_fd fd)
  unfolding drop_fd sys_close
  drop_fd-Steady fd = if-Steady held (is_fd fd) (record { keeps = λ w h. h }) (pure-Steady held tt)

  destroy_channel-Steady : (o : Option ℕ) → Steady {K = K} held (destroy_channel o)
  unfolding destroy_channel
  destroy_channel-Steady none = pure-Steady held tt
  destroy_channel-Steady (some p) =
      Steady-bind held (channel-Steady held p)
        λ c. Steady-bind held (drop_fd-Steady c.fd.value) λ _. record { keeps = λ w h. h }

  set_channel-Steady : (self : ℕ) (o : Option ℕ) → Steady {K = K} held (set_channel self o)
  unfolding set_channel
  set_channel-Steady self o = Steady-bind held (connector-Steady self) λ c.
      Steady-bind held (put_connector-Steady self (record c { channel = o }))
        λ _. destroy_channel-Steady c.channel

  set_connect_state-Steady :
      (self : ℕ) (s : ConnectState) → Steady {K = K} held (set_connect_state self s)
  unfolding set_connect_state
  set_connect_state-Steady self s =
      Steady-bind held (connector-Steady self)
        λ c. put_connector-Steady self (record c { state = s })

  reset_channel-Steady : (self : ℕ) → Steady {K = K} held (reset_channel self)
  unfolding reset_channel
  reset_channel-Steady self = set_channel-Steady self none

  pub allocate-Steady : Steady {K = K} held allocate
  unfolding allocate
  allocate-Steady = record { keeps = λ w h. h }

  connecting-Steady : (self : ℕ) (fd : ℤ) → Steady {K = K} held (connecting self fd)
  unfolding connecting
  connecting-Steady self fd = Steady-bind held (connector-Steady self) λ c.
      Steady-bind held allocate-Steady λ chan.
        Steady-bind held
          (put_channel-Steady chan (record (make_channel chan c.loop (handle fd)) {
            write_handler = some (connector_write self);
          }))
          λ _.
            Steady-bind held (set_channel-Steady self (some chan))
              λ _. on_site-Steady held chan (enable_write K)

  ensure-Steady : (b : Bool) (m : String) → Steady {K = K} held (ensure_or_throw b m)
  ensure-Steady true m = pure-Steady held tt
  ensure-Steady false m = record { keeps = λ w h. h }

  with_fd-Safe :
      (fd : ℤ) (r : Outcome (World K) (Unit {0}))
      → Keeps (Safe held) r
      → Keeps (Safe held) (elim r as (λ _. Outcome (World K) (Unit {0})) [
        | ok a w' ↦ drop_fd fd w'
        | thrown e w' ↦ (drop_fd fd >> throw e) w'
        | stuck f ↦ stuck f
      ])
  with_fd-Safe fd (ok a w) h = (drop_fd-Steady fd).keeps w h
  with_fd-Safe fd (thrown e w) h =
      (Steady-bind held (drop_fd-Steady fd) λ _. record { keeps = λ w h. h }).keeps w h
  with_fd-Safe fd (stuck f) h = tt

  with_fd-Steady :
      (fd : ℤ) (body : M (World K) (Unit {0})) → Steady held body → Steady held (with_fd fd body)
  unfolding with_fd
  with_fd-Steady fd body s = record { keeps = λ w h. with_fd-Safe fd (body w) (s.keeps w h) }

  -- The branches behind the call of connect(2).
  dialled-Steady :
      (self : ℕ) (fd : ℤ) (done : Bool)
      → Steady {K = K} held (elim done as (λ _. M (World K) (Unit {0})) [
        | false ↦ with_fd fd (throw (assert_failed "connect() return fail!"))
        | true ↦ connecting self fd
      ])
  dialled-Steady self fd false =
      with_fd-Steady fd (throw (assert_failed "connect() return fail!"))
        (record { keeps = λ w h. h })
  dialled-Steady self fd true = connecting-Steady self fd

  connect-Steady : (n self : ℕ) → Steady {K = K} held (connect n self)
  unfolding connect connect_action sys_tcp_socket sys_connect
  connect-Steady zero self = record { keeps = λ w h. tt }
  connect-Steady (suc n) self = Steady-bind held (connector-Steady self) λ c.
      Steady-bind held (kernel-Steady held K.tcp_socket) λ fd.
        Steady-bind held (ensure-Steady (is_fd fd) "socket() return fail!") λ _.
          Steady-bind held (kernel-Steady held (K.connect fd c.server_addr))
            λ ret. dialled-Steady self fd (int_eq ret (pos 0))

  retry-Steady : (n self : ℕ) → Steady {K = K} held (retry n self)
  unfolding retry
  retry-Steady n self =
      Steady-bind held (reset_channel-Steady self)
        λ _. Steady-bind held (set_connect_state-Steady self broken_off) λ _. connect-Steady n self

  pub pointer-Steady :
      (o : Option ℕ)
      → Steady {K = K} held
          (elim o as (λ _. M (World K) ℕ) [ none ↦ fault null_pointer | some p ↦ pure p ])
  pointer-Steady none = record { keeps = λ w h. tt }
  pointer-Steady (some p) = pure-Steady held p

  channel_of-Steady : (self : ℕ) → Steady {K = K} held (channel_of self)
  unfolding channel_of
  channel_of-Steady self = Steady-bind held (connector-Steady self) λ c. pointer-Steady c.channel

  release_fd-Steady : (p : ℕ) → Steady {K = K} held (release_fd p)
  unfolding release_fd
  release_fd-Steady p = Steady-bind held (channel-Steady held p) λ c.
      Steady-bind held (put_channel-Steady p (record c { fd = handle minus_one }))
        λ _. pure-Steady held c.fd.value

  so_error-Safe :
      (r : Option ℕ) (k : K.State) (w : World K)
      → Safe held w
      → Keeps (Safe held) (elim r as (λ _. Outcome (World K) ℕ) [
        | none ↦ ok (K.errno w.kernel) (record w { kernel = k })
        | some e ↦ ok e (record w { kernel = k })
      ])
  so_error-Safe none k w h = h
  so_error-Safe (some e) k w h = h

  get_socket_error-Steady : (fd : ℤ) → Steady {K = K} held (get_socket_error fd)
  unfolding get_socket_error
  get_socket_error-Steady fd = record {
    keeps = λ w h. so_error-Safe (K.so_error fd w.kernel).0 (K.so_error fd w.kernel).1 w h;
  }

  module _ (run : ConnectedHandler → ℤ → M (World K) (Unit {0}))
      (runs : (h : ConnectedHandler) (fd : ℤ) → Steady held (run h fd)) where
    finish_connect-Steady : (n self : ℕ) → Steady held (finish_connect run n self)
    unfolding finish_connect
    finish_connect-Steady n self = Steady-bind held (channel_of-Steady self) λ p.
        Steady-bind held (on_site-Steady held p (disable_all K)) λ _.
          Steady-bind held (on_site-Steady held p (remove_channel K)) λ _.
            Steady-bind held (channel-Steady held p) λ ch.
              Steady-bind held (get_socket_error-Steady ch.fd.value) λ error.
                if-Steady held (ltb 0 error) (retry-Steady n self) (
                  Steady-bind held (set_connect_state-Steady self established) λ _.
                    Steady-bind held (release_fd-Steady p) λ fd.
                      Steady-bind held (reset_channel-Steady self) λ _.
                        Steady-bind held (connector-Steady self) λ c'.
                          invoke-Steady held (λ h. run h fd) c'.connected_handler λ h. runs h fd)

    pub handle_write-Steady : (n self : ℕ) → Steady held (handle_write run n self)
    unfolding handle_write
    handle_write-Steady n self = Steady-bind held (connector-Steady self) λ c.
        if-Steady held (is_dialling c.state) (finish_connect-Steady n self) (pure-Steady held tt)
