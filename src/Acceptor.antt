-- ===== src/Acceptor.antt =====
-- src/acceptor.cpp: the listening socket of a server.
pub mod Sockets
pub mod Leaks
use librapid.Prelude.{
  ℕ, ℤ, pos, minus_one, Bool, not, Option, none, some, List, [], ◌∷◌, int_eq, if◌then◌else◌,
}
use librapid.Kernel.{Kernel, SockAddr, any_address}
use librapid.Handle.{handle}
use librapid.Outcome.{ok, M, pure, modify, throw, assert_failed, ensure_or_throw, ◌>>=◌, ◌>>◌}
use librapid.Channel.{acceptor_read, make_channel}
use librapid.Poller.{enable_read}
use librapid.World.{
  World, AcceptHandler, acceptor, channel, allocate, put_acceptor, put_channel, on_site, without,
}

abbrev pub is_fd : ℤ → Bool
is_fd fd = not (int_eq fd minus_one)

module _ {K : Kernel} where
  unfoldable pub sys_listen : ℤ → M (World K) ℤ
  sys_listen fd w = let (r, k) = K.listen fd w.kernel in ok r (record w { kernel = k })

  unfoldable pub sys_accept : ℤ → M (World K) ℤ
  sys_accept fd w = let (r, k) = K.accept4 fd w.kernel in ok r (record w { kernel = k })

  unfoldable pub sys_socket : M (World K) ℤ
  sys_socket w = let (r, k) = K.socket w.kernel in ok r (record w { kernel = k })

  unfoldable pub sys_bind : ℤ → SockAddr → M (World K) ℤ
  sys_bind fd a w = let (r, k) = K.bind fd a w.kernel in ok r (record w { kernel = k })

  unfoldable pub sys_close : ℤ → M (World K) (Unit {0})
  sys_close fd w = ok tt (record w { kernel = K.close fd w.kernel })

  -- ~FileDesc
  unfoldable pub drop_fd : ℤ → M (World K) (Unit {0})
  unfolding sys_close
  drop_fd fd = if is_fd fd then sys_close fd else pure tt

  unfoldable pub sys_reuse_addr : ℤ → M (World K) ℤ
  sys_reuse_addr fd w = let (r, k) = K.set_reuse_addr fd w.kernel in ok r (record w { kernel = k })

  unfoldable pub sys_resolve : ℕ → ℕ → M (World K) (Option (List SockAddr))
  sys_resolve host port w =
      let (r, k) = K.resolve host port w.kernel in ok r (record w { kernel = k })

  -- Acceptor::bindLocalAddress. Where ensureOrThrow throws, the unwinding destroys `fd`.
  unfoldable pub bind_local_address : ℕ → M (World K) ℤ
  unfolding sys_socket sys_bind drop_fd
  bind_local_address port = do
    fd ← sys_socket
    res ← sys_bind fd (any_address port)
    if int_eq res (pos 0)
        then pure fd
        else (do drop_fd fd; throw (assert_failed "bind TCP port fail!"))

  -- The loop of Acceptor::bindAddress; `assert` is compiled out. A socket that could not be bound
  -- is closed at the end of its round.
  unfoldable pub bind_first : List SockAddr → M (World K) ℤ
  unfolding sys_socket sys_reuse_addr sys_bind drop_fd
  bind_first [] = pure minus_one
  bind_first (a ∷ rest) = do
    fd ← sys_socket
    if is_fd fd
        then (do
          _ ← sys_reuse_addr fd
          _ ← sys_reuse_addr fd
          res ← sys_bind fd a
          if int_eq res (pos 0) then pure fd else (drop_fd fd >> bind_first rest))
        else throw (assert_failed "socket() return fail!")

  -- Acceptor::bindAddress
  unfoldable pub bind_address : ℕ → ℕ → M (World K) ℤ
  unfolding sys_resolve bind_first
  bind_address host port = do
    info ← sys_resolve host port
    elim info [
      | none ↦ throw (assert_failed "getaddrinfo() return fail")
      | some addresses ↦ bind_first addresses
    ]

  -- Acceptor::Acceptor on a descriptor that is bound.
  unfoldable pub construct : ℕ → ℤ → M (World K) ℕ
  unfolding allocate put_channel put_acceptor make_channel
  construct loop fd = do
    self ← allocate
    chan ← allocate
    put_acceptor self (record { channel = chan; new_connection_handler = none })
    put_channel chan
        (record (make_channel chan loop (handle fd)) { read_handler = some (acceptor_read self) })
    pure self

  -- Acceptor::~Acceptor, which destroys the channel and with it the descriptor.
  unfoldable pub destroy : ℕ → M (World K) (Unit {0})
  unfolding acceptor channel drop_fd
  destroy self = do
    a ← acceptor self
    c ← channel a.channel
    drop_fd c.fd.value
    modify λ w. record w {
      acceptors = without w.acceptors self;
      channels = without w.channels a.channel;
    }

  unfoldable pub set_new_connection_handler : ℕ → AcceptHandler → M (World K) (Unit {0})
  unfolding acceptor put_acceptor
  set_new_connection_handler self h = do
    a ← acceptor self
    put_acceptor self (record a { new_connection_handler = some h })

  unfoldable pub listen : ℕ → M (World K) (Unit {0})
  unfolding acceptor channel sys_listen on_site
  listen self = do
    a ← acceptor self
    c ← channel a.channel
    res ← sys_listen c.fd.value
    ensure_or_throw (not (int_eq res minus_one)) "start listen fail!"
    on_site a.channel (enable_read K)

  module _ (accept : AcceptHandler → ℤ → M (World K) (Unit {0})) where
    -- Acceptor::handleRead. The handler gets the descriptor, or ~FileDesc closes it.
    unfoldable pub handle_read : ℕ → M (World K) (Unit {0})
    unfolding acceptor channel sys_accept drop_fd
    handle_read self = do
      a ← acceptor self
      c ← channel a.channel
      fd ← sys_accept c.fd.value
      if is_fd fd
          then elim a.new_connection_handler [ none ↦ drop_fd fd | some h ↦ accept h fd ]
          else pure tt
