-- ===== src/Connector.antt =====
-- src/connector.cpp, and of src/inetaddress.cpp the address that it dials.
pub mod Pending
pub mod Leaks
pub mod Never
use librapid.Prelude.{
  ℕ, zero, suc, ℤ, pos, minus_one, Bool, true, false, ◌||◌, Option, none, some, ◌==◌, if◌then◌else◌,
  int_eq, ltb,
}
use librapid.Kernel.{Kernel, SockAddr, host_address}
use librapid.Handle.{handle}
use librapid.Outcome.{
  Outcome, ok, thrown, stuck, M, pure, throw, fault, modify, invoke, assert_failed, null_pointer,
  call_depth, ensure_or_throw, ◌>>=◌, ◌>>◌,
}
use librapid.Channel.{Channel, connector_write, make_channel}
use librapid.Poller.{enable_write, disable_all, remove_channel}
use librapid.World.{
  World, Connector, ConnectState, dialling, established, broken_off, ConnectedHandler, connector,
  channel, allocate, put_connector, put_channel, on_site, without,
}
use librapid.Acceptor.{is_fd, drop_fd}

-- What the switch of Connector::connect does on an errno.
pub data ConnectAction : Type 0 where
  proceed try_again give_up unexpected : ConnectAction

-- 0, EINPROGRESS, EINTR, EISCONN
abbrev proceeds : ℕ → Bool
proceeds e = (e == 0) || (e == 115) || (e == 4) || (e == 106)

-- EAGAIN, EADDRINUSE, EADDRNOTAVAIL, ECONNREFUSED, ENETUNREACH
abbrev tries_again : ℕ → Bool
tries_again e = (e == 11) || (e == 98) || (e == 99) || (e == 111) || (e == 101)

-- EACCES, EPERM, EAFNOSUPPORT, EALREADY, EBADF, EFAULT, ENOTSOCK
abbrev gives_up : ℕ → Bool
gives_up e = (e == 13) || (e == 1) || (e == 97) || (e == 114) || (e == 9) || (e == 14) || (e == 88)

unfoldable pub connect_action : ℕ → ConnectAction
connect_action e =
    if proceeds e
    then proceed
    else if tries_again e
    then try_again
    else if gives_up e
    then give_up
    else unexpected

abbrev pub is_dialling : ConnectState → Bool
is_dialling dialling = true
is_dialling _ = false

module _ {K : Kernel} where
  -- getAddressFamily of src/inetaddress.cpp; 0 where the lookup fails.
  unfoldable pub get_address_family : ℕ → M (World K) ℕ
  get_address_family host w =
      let (r, k) = K.lookup_family host w.kernel in
      elim r [ none ↦ ok 0 (record w { kernel = k }) | some f ↦ ok f (record w { kernel = k }) ]

  -- InetAddress::InetAddress(host, port): AF_INET or AF_INET6.
  unfoldable pub inet_address : ℕ → ℕ → M (World K) SockAddr
  unfolding get_address_family
  inet_address host port = do
    family ← get_address_family host
    if (family == 2) || (family == 10)
        then pure (host_address host port)
        else throw (assert_failed "unknown address family")

  unfoldable pub sys_tcp_socket : M (World K) ℤ
  sys_tcp_socket w = let (r, k) = K.tcp_socket w.kernel in ok r (record w { kernel = k })

  unfoldable pub sys_connect : ℤ → SockAddr → M (World K) ℤ
  sys_connect fd a w = let (r, k) = K.connect fd a w.kernel in ok r (record w { kernel = k })

  -- getSocketError of include/rapid/core/utility.h: the option, or the errno from before the call.
  unfoldable pub get_socket_error : ℤ → M (World K) ℕ
  get_socket_error fd w =
      let (r, k) = K.so_error fd w.kernel in
      elim r [
        | none ↦ ok (K.errno w.kernel) (record w { kernel = k })
        | some e ↦ ok e (record w { kernel = k })
      ]

  -- The scope of a local FileDesc: its end closes the descriptor, also in an unwinding.
  unfoldable pub with_fd : ℤ → M (World K) (Unit {0}) → M (World K) (Unit {0})
  unfolding drop_fd
  with_fd fd body w = elim (body w) [
    | ok a w' ↦ drop_fd fd w'
    | thrown e w' ↦ (drop_fd fd >> throw e) w'
    | stuck f ↦ stuck f
  ]

  -- Connector::Connector
  unfoldable pub construct : ConnectState → ℕ → ℕ → ℕ → M (World K) ℕ
  unfolding inet_address allocate put_connector
  construct indeterminate loop host port = do
    a ← inet_address host port
    self ← allocate
    put_connector self (record {
      loop = loop;
      state = indeterminate;
      channel = none;
      server_addr = a;
      connected_handler = none;
    })
    pure self

  unfoldable pub set_connected_handler : ℕ → ConnectedHandler → M (World K) (Unit {0})
  unfolding connector put_connector
  set_connected_handler self h = do
    c ← connector self
    put_connector self (record c { connected_handler = some h })

  -- ~Channel closes the descriptor that it still owns.
  unfoldable pub destroy_channel : Option ℕ → M (World K) (Unit {0})
  unfolding channel drop_fd
  destroy_channel none = pure tt
  destroy_channel (some p) = do
    c ← channel p
    drop_fd c.fd.value
    modify λ w. record w { channels = without w.channels p }

  -- channel_ = owner, of a unique_ptr: what it owned before is destroyed.
  unfoldable pub set_channel : ℕ → Option ℕ → M (World K) (Unit {0})
  unfolding connector put_connector destroy_channel
  set_channel self owner = do
    c ← connector self
    put_connector self (record c { channel = owner })
    destroy_channel c.channel

  unfoldable pub reset_channel : ℕ → M (World K) (Unit {0})
  unfolding set_channel
  reset_channel self = set_channel self none

  unfoldable pub set_connect_state : ℕ → ConnectState → M (World K) (Unit {0})
  unfolding connector put_connector
  set_connect_state self s = do c ← connector self; put_connector self (record c { state = s })

  -- Connector::connecting
  unfoldable pub connecting : ℕ → ℤ → M (World K) (Unit {0})
  unfolding connector allocate put_channel make_channel set_channel on_site enable_write
  connecting self fd = do
    c ← connector self
    chan ← allocate
    put_channel chan (record (make_channel chan c.loop (handle fd)) {
      write_handler = some (connector_write self);
    })
    set_channel self (some chan)
    on_site chan (enable_write K)

  -- Connector::connect, with retry as its recursion, to a given depth.
  unfoldable pub connect : ℕ → ℕ → M (World K) (Unit {0})
  unfolding connector sys_tcp_socket sys_connect with_fd connecting reset_channel set_connect_state
      connect_action
  connect zero self = fault call_depth
  connect (suc n) self = do
    c ← connector self
    fd ← sys_tcp_socket
    ensure_or_throw (is_fd fd) "socket() return fail!"
    ret ← sys_connect fd c.server_addr
    elim (int_eq ret (pos 0)) [
      | false ↦ with_fd fd (throw (assert_failed "connect() return fail!"))
      -- (ret == 0) ? 0 : errno
      | true ↦ elim (connect_action 0) [
        | proceed ↦ connecting self fd
        | try_again ↦
            with_fd fd (do reset_channel self; set_connect_state self broken_off; connect n self)
        | give_up ↦ drop_fd fd
        | unexpected ↦ with_fd fd (throw (assert_failed "unexpected error"))
      ]
    ]

  -- Connector::retry
  unfoldable pub retry : ℕ → ℕ → M (World K) (Unit {0})
  unfolding reset_channel set_connect_state connect
  retry n self = do reset_channel self; set_connect_state self broken_off; connect n self

  -- channel_->
  unfoldable pub channel_of : ℕ → M (World K) ℕ
  unfolding connector
  channel_of self = do
    c ← connector self
    elim c.channel [ none ↦ fault null_pointer | some p ↦ pure p ]

  -- Channel::releaseFd
  unfoldable pub release_fd : ℕ → M (World K) ℤ
  unfolding channel put_channel
  release_fd p = do
    c ← channel p
    put_channel p (record c { fd = handle minus_one })
    pure c.fd.value

  -- The body of handleWrite in the state Connecting.
  unfoldable pub finish_connect :
      (ConnectedHandler → ℤ → M (World K) (Unit {0})) → ℕ → ℕ → M (World K) (Unit {0})
  unfolding connector channel_of on_site channel get_socket_error retry set_connect_state release_fd
      reset_channel
  finish_connect run n self = do
    p ← channel_of self
    on_site p (disable_all K)
    on_site p (remove_channel K)
    ch ← channel p
    error ← get_socket_error ch.fd.value
    if ltb 0 error then retry n self else (do
      set_connect_state self established
      fd ← release_fd p
      reset_channel self
      c' ← connector self
      invoke (λ h. run h fd) c'.connected_handler)

  -- Connector::handleWrite
  unfoldable pub handle_write :
      (ConnectedHandler → ℤ → M (World K) (Unit {0})) → ℕ → ℕ → M (World K) (Unit {0})
  unfolding connector finish_connect
  handle_write run n self = do
    c ← connector self
    if is_dialling c.state then finish_connect run n self else pure tt
