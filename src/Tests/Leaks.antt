-- ===== src/Tests/Leaks.antt =====
-- The loop of bindAddress on an operating system that is a table of open descriptors.
use librapid.Prelude.{
  ℤ, pos, minus_one, ◌≡◌, refl, Bool, true, false, none, [], ◌∷◌, arith, int_eq, ◌==◌,
  if◌then◌else◌,
}
use librapid.Kernel.{Kernel, SockAddr, any_address, resolved, host_address, filled, Descriptors}
use librapid.World.{World}
use librapid.Acceptor.{bind_first}
use librapid.Acceptor.Leaks.{Accounts, bind_first-Accounts}
use librapid.Tests.Scenes.{the_server, the_client}

abbrev pub Open : Type 0
Open = ℤ → Bool

abbrev pub set_open : Open → ℤ → Bool → Open
set_open s fd b f = if int_eq f fd then b else s f

-- There is one descriptor to be had.
abbrev pub make_socket : Open → ℤ × Open
make_socket s = if s (pos 10) then (minus_one, s) else (pos 10, set_open s (pos 10) true)

-- The first address of the resolver is taken already.
abbrev pub bind_result : SockAddr → ℤ
bind_result (resolved n) = if n == 1 then minus_one else pos 0
bind_result (any_address port) = pos 0
bind_result (host_address host port) = pos 0

abbrev pub descriptors : Kernel
descriptors = record {
  State = Open;
  epoll_create = λ s. (minus_one, s);
  eventfd = λ flags s. (minus_one, s);
  epoll_ctl = λ ep op fd ev s. (pos 0, s);
  epoll_wait = λ ep n s. (filled [], s);
  read = λ fd n s. (filled [], s);
  write = λ fd bytes s. (pos 0, s);
  shutdown_write = λ fd s. s;
  close = λ fd s. set_open s fd false;
  accept4 = λ fd s. (minus_one, s);
  listen = λ fd s. (pos 0, s);
  socket = make_socket;
  set_reuse_addr = λ fd s. (pos 0, s);
  bind = λ fd a s. (bind_result a, s);
  resolve = λ host port s. (none, s);
  lookup_family = λ host s. (none, s);
  tcp_socket = λ s. (minus_one, s);
  connect = λ fd a s. (minus_one, s);
  errno = λ s. 0;
  so_error = λ fd s. (none, s);
  uuid_generate = λ s. ([], s);
}

pub make_socket-new :
    (s : Open) → int_eq (make_socket s).0 minus_one ≡ false → s (make_socket s).0 ≡ false
make_socket-new s h = ground arith

pub make_socket-made :
    (s : Open)
    → int_eq (make_socket s).0 minus_one ≡ false
    → (f : ℤ) → (make_socket s).1 f ≡ (if int_eq f (make_socket s).0 then true else s f)
make_socket-made s h f = ground arith

pub make_socket-failed :
    (s : Open) → int_eq (make_socket s).0 minus_one ≡ true → (f : ℤ) → (make_socket s).1 f ≡ s f
make_socket-failed s h f = ground arith

abbrev descriptors_laws : Descriptors descriptors
descriptors_laws = record {
  is_open = λ s. s;
  socket_new = make_socket-new;
  socket_made = make_socket-made;
  socket_failed = make_socket-failed;
  set_reuse_addr_keeps = λ fd s f. refl;
  bind_keeps = λ fd a s f. refl;
  closed = λ fd s f. refl;
}

abbrev pub empty_world : World descriptors
empty_world = record {
  kernel = λ f. false;
  loops = λ p. none;
  channels = λ p. none;
  connections = λ p. none;
  acceptors = λ p. none;
  connectors = λ p. none;
  fresh = 1;
  server = the_server;
  client = the_client;
}

bind_first-Accounts_example :
    Accounts descriptors_laws false (pos 10) (bind_first (resolved 1 ∷ resolved 2 ∷ []) empty_world)
bind_first-Accounts_example =
    bind_first-Accounts descriptors_laws (resolved 1 ∷ resolved 2 ∷ []) empty_world (pos 10)
