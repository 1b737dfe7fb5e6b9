-- ===== src/Kernel.antt =====
-- The operating system as the program calls it. Nothing of it is defined here: a run takes it as
-- an argument, and a theorem names the documented behaviour that it relies on.
use librapid.Prelude.{
  Bool, true, false, int_eq, if◌then◌else◌, ℕ, ℤ, pos, minus_one, ◌≡◌, ◌≢◌, ◌⊎◌, List, Option, none,
  some,
}

pub data CtlOp : Type 0 where
  ctl_add ctl_mod ctl_del : CtlOp

-- struct epoll_event: the mask and data.ptr, an address or, as 0, a null pointer.
pub record EpollEvent : Type 0 where
  pub events : ℕ
  pub ptr : ℕ

-- The result of a call that fills a buffer: -1 with errno, or what it put there.
pub data Filled (A : Type 0) : Type 0 where
  failed : ℕ → Filled A
  filled : List A → Filled A

-- A socket address: 0.0.0.0 with a port, an entry of a list that getaddrinfo gave, or what the
-- class InetAddress holds for a host and a port.
pub data SockAddr : Type 0 where
  any_address : (port : ℕ) → SockAddr
  resolved : ℕ → SockAddr
  host_address : (host port : ℕ) → SockAddr

pub record Kernel : Type 1 where
  pub State : Type 0
  pub epoll_create : State → ℤ × State
  pub eventfd : (flags : ℕ) → State → ℤ × State
  pub epoll_ctl : (epfd : ℤ) → CtlOp → (fd : ℤ) → EpollEvent → State → ℤ × State
  pub epoll_wait : (epfd : ℤ) → (max_events : ℕ) → State → Filled EpollEvent × State
  pub read : (fd : ℤ) → (count : ℕ) → State → Filled ℕ × State
  pub write : (fd : ℤ) → List ℕ → State → ℤ × State
  pub shutdown_write : (fd : ℤ) → State → State
  pub close : (fd : ℤ) → State → State
  pub accept4 : (fd : ℤ) → State → ℤ × State
  pub listen : (fd : ℤ) → State → ℤ × State
  pub socket : State → ℤ × State
  pub set_reuse_addr : (fd : ℤ) → State → ℤ × State
  pub bind : (fd : ℤ) → SockAddr → State → ℤ × State
  -- getaddrinfo(3): no list, or the addresses in its order
  pub resolve : (host port : ℕ) → State → Option (List SockAddr) × State
  -- getaddrinfo(3) without a port: the family of its first entry
  pub lookup_family : (host : ℕ) → State → Option ℕ × State
  -- socket(2), non-blocking, and connect(2)
  pub tcp_socket : State → ℤ × State
  pub connect : (fd : ℤ) → SockAddr → State → ℤ × State
  pub errno : State → ℕ
  -- getsockopt(2) of SO_ERROR: nothing where the call fails
  pub so_error : (fd : ℤ) → State → Option ℕ × State
  -- uuid_generate of libuuid
  pub uuid_generate : State → List ℕ × State

-- epoll_ctl(2): EEXIST, ENOENT and the effect on the interest list. Registering a new
-- descriptor may also fail for want of memory, so `add_known` is the only refusal that is certain.
pub record EpollCtl (K : Kernel) : Type 0 where
  pub interest : K.State → ℤ → ℤ → Option EpollEvent
  pub add_known :
      (ep fd : ℤ) (ev : EpollEvent) (s : K.State) (old : EpollEvent)
      → interest s ep fd ≡ some old
      → (K.epoll_ctl ep ctl_add fd ev s).0 ≡ minus_one
  pub mod_known :
      (ep fd : ℤ) (ev : EpollEvent) (s : K.State) (old : EpollEvent)
      → interest s ep fd ≡ some old
      → (K.epoll_ctl ep ctl_mod fd ev s).0 ≡ pos 0
  pub mod_unknown :
      (ep fd : ℤ) (ev : EpollEvent) (s : K.State)
      → interest s ep fd ≡ none
      → (K.epoll_ctl ep ctl_mod fd ev s).0 ≡ minus_one
  pub del_known :
      (ep fd : ℤ) (ev : EpollEvent) (s : K.State) (old : EpollEvent)
      → interest s ep fd ≡ some old
      → (K.epoll_ctl ep ctl_del fd ev s).0 ≡ pos 0
  pub del_unknown :
      (ep fd : ℤ) (ev : EpollEvent) (s : K.State)
      → interest s ep fd ≡ none
      → (K.epoll_ctl ep ctl_del fd ev s).0 ≡ minus_one
  pub add_done :
      (ep fd : ℤ) (ev : EpollEvent) (s : K.State)
      → (K.epoll_ctl ep ctl_add fd ev s).0 ≡ pos 0
      → interest (K.epoll_ctl ep ctl_add fd ev s).1 ep fd ≡ some ev
  pub mod_done :
      (ep fd : ℤ) (ev : EpollEvent) (s : K.State)
      → (K.epoll_ctl ep ctl_mod fd ev s).0 ≡ pos 0
      → interest (K.epoll_ctl ep ctl_mod fd ev s).1 ep fd ≡ some ev
  pub del_done :
      (ep fd : ℤ) (ev : EpollEvent) (s : K.State)
      → (K.epoll_ctl ep ctl_del fd ev s).0 ≡ pos 0
      → interest (K.epoll_ctl ep ctl_del fd ev s).1 ep fd ≡ none
  pub refused :
      (ep fd : ℤ) (op : CtlOp) (ev : EpollEvent) (s : K.State)
      → (K.epoll_ctl ep op fd ev s).0 ≢ pos 0
      → (e f : ℤ) → interest (K.epoll_ctl ep op fd ev s).1 e f ≡ interest s e f
  pub others :
      (ep fd : ℤ) (op : CtlOp) (ev : EpollEvent) (s : K.State) (e f : ℤ)
      → (e ≢ ep) ⊎ (f ≢ fd)
      → interest (K.epoll_ctl ep op fd ev s).1 e f ≡ interest s e f

-- socket(2), close(2) and what the calls on a socket leave open.
pub record Descriptors (K : Kernel) : Type 0 where
  pub is_open : K.State → ℤ → Bool
  pub socket_new :
      (s : K.State) → int_eq (K.socket s).0 minus_one ≡ false → is_open s (K.socket s).0 ≡ false
  pub socket_made :
      (s : K.State)
      → int_eq (K.socket s).0 minus_one ≡ false
      → (f : ℤ) → is_open (K.socket s).1 f ≡ (if int_eq f (K.socket s).0 then true else is_open s f)
  pub socket_failed :
      (s : K.State)
      → int_eq (K.socket s).0 minus_one ≡ true
      → (f : ℤ) → is_open (K.socket s).1 f ≡ is_open s f
  pub set_reuse_addr_keeps :
      (fd : ℤ) (s : K.State) (f : ℤ) → is_open (K.set_reuse_addr fd s).1 f ≡ is_open s f
  pub bind_keeps :
      (fd : ℤ) (a : SockAddr) (s : K.State) (f : ℤ) → is_open (K.bind fd a s).1 f ≡ is_open s f
  pub closed :
      (fd : ℤ) (s : K.State) (f : ℤ)
      → is_open (K.close fd s) f ≡ (if int_eq f fd then false else is_open s f)
