-- ===== src/Tests/Machine.antt =====
-- An operating system for the tests: its state is the interest lists, every other call has a fixed
-- result, and the result of read depends on the descriptor.
use librapid.Prelude.{
  length, List, ◌==◌, ℕ, ℤ, pos, minus_one, ◌≡◌, ◌≢◌, ◌⊎◌, inl, inr, ◌&&◌, Option, none, some, [],
  ◌∷◌, arith, int_eq, int_eq_iff, if◌then◌else◌, replicate,
}
use librapid.Kernel.{
  SockAddr, host_address, Kernel, CtlOp, ctl_add, ctl_mod, ctl_del, EpollEvent, Filled, filled,
  EpollCtl,
}

abbrev pub Table : Type 0
Table = ℤ → ℤ → Option EpollEvent

abbrev pub put : Table → ℤ → ℤ → Option EpollEvent → Table
put s ep fd o e f = if int_eq ep e && int_eq fd f then o else s e f

abbrev pub ctl : ℤ → CtlOp → ℤ → EpollEvent → Table → ℤ × Table
ctl ep ctl_add fd ev s = elim (s ep fd) [
  | none ↦ (pos 0, put s ep fd (some ev))
  | some old ↦ (minus_one, s)
]
ctl ep ctl_mod fd ev s = elim (s ep fd) [
  | none ↦ (minus_one, s)
  | some old ↦ (pos 0, put s ep fd (some ev))
]
ctl ep ctl_del fd ev s = elim (s ep fd) [
  | none ↦ (minus_one, s)
  | some old ↦ (pos 0, put s ep fd none)
]

-- Descriptor 5 has two bytes, every other one is at its end.
abbrev pub bytes_of : ℤ → Filled ℕ
bytes_of fd = if int_eq fd (pos 5) then filled (b'h' ∷ b'i' ∷ []) else filled []

-- The host 1 does not answer at once.
abbrev pub connect_result : SockAddr → ℤ
connect_result (host_address host port) = if host == 1 then minus_one else pos 0
connect_result _ = pos 0

-- An event without a channel, and one for the channel 20.
abbrev pub two_events : List EpollEvent
two_events = record { events = 1; ptr = 0 } ∷ record { events = 5; ptr = 20 } ∷ []

abbrev pub machine : Kernel
machine = record {
  State = Table;
  epoll_create = λ s. (pos 3, s);
  eventfd = λ flags s. (pos 4, s);
  epoll_ctl = ctl;
  epoll_wait = λ ep n s. (filled two_events, s);
  read = λ fd n s. (bytes_of fd, s);
  write = λ fd bytes s. (pos (length bytes), s);
  shutdown_write = λ fd s. s;
  close = λ fd s. s;
  accept4 = λ fd s. (pos 9, s);
  listen = λ fd s. (pos 0, s);
  socket = λ s. (pos 10, s);
  set_reuse_addr = λ fd s. (pos 0, s);
  bind = λ fd a s. (pos 0, s);
  resolve = λ host port s. (none, s);
  lookup_family = λ host s. (some 2, s);
  tcp_socket = λ s. (pos 11, s);
  connect = λ fd a s. (connect_result a, s);
  errno = λ s. 115;
  so_error = λ fd s. (some 0, s);
  uuid_generate = λ s. (replicate 16 7, s);
}

put_here : (s : Table) (ep fd : ℤ) (o : Option EpollEvent) → put s ep fd o ep fd ≡ o
put_here s ep fd o = ground (arith, int_eq_iff ep ep, int_eq_iff fd fd)

put_others :
    (s : Table) (ep fd e f : ℤ) (o : Option EpollEvent)
    → (e ≢ ep) ⊎ (f ≢ fd)
    → put s ep fd o e f ≡ s e f
put_others s ep fd e f o (inl h) = ground (arith, int_eq_iff ep e)
put_others s ep fd e f o (inr h) = ground (arith, int_eq_iff fd f)

pub ctl-refused :
    (ep fd : ℤ) (op : CtlOp) (ev : EpollEvent) (s : Table)
    → (ctl ep op fd ev s).0 ≢ pos 0
    → (e f : ℤ) → (ctl ep op fd ev s).1 e f ≡ s e f
ctl-refused ep fd ctl_add ev s h e f = ground arith
ctl-refused ep fd ctl_mod ev s h e f = ground arith
ctl-refused ep fd ctl_del ev s h e f = ground arith

pub ctl-others :
    (ep fd : ℤ) (op : CtlOp) (ev : EpollEvent) (s : Table) (e f : ℤ)
    → (e ≢ ep) ⊎ (f ≢ fd)
    → (ctl ep op fd ev s).1 e f ≡ s e f
ctl-others ep fd ctl_add ev s e f h = ground (arith, put_others s ep fd e f (some ev) h)
ctl-others ep fd ctl_mod ev s e f h = ground (arith, put_others s ep fd e f (some ev) h)
ctl-others ep fd ctl_del ev s e f h = ground (arith, put_others s ep fd e f none h)

pub ctl_add-done :
    (ep fd : ℤ) (ev : EpollEvent) (s : Table)
    → (ctl ep ctl_add fd ev s).0 ≡ pos 0
    → (ctl ep ctl_add fd ev s).1 ep fd ≡ some ev
ctl_add-done ep fd ev s h = ground (arith, put_here s ep fd (some ev))

pub ctl_mod-done :
    (ep fd : ℤ) (ev : EpollEvent) (s : Table)
    → (ctl ep ctl_mod fd ev s).0 ≡ pos 0
    → (ctl ep ctl_mod fd ev s).1 ep fd ≡ some ev
ctl_mod-done ep fd ev s h = ground (arith, put_here s ep fd (some ev))

pub ctl_del-done :
    (ep fd : ℤ) (ev : EpollEvent) (s : Table)
    → (ctl ep ctl_del fd ev s).0 ≡ pos 0
    → (ctl ep ctl_del fd ev s).1 ep fd ≡ none
ctl_del-done ep fd ev s h = ground (arith, put_here s ep fd none)

pub ctl-add_known :
    (ep fd : ℤ) (ev : EpollEvent) (s : Table) (old : EpollEvent)
    → s ep fd ≡ some old
    → (ctl ep ctl_add fd ev s).0 ≡ minus_one
ctl-add_known ep fd ev s old h = ground arith

pub ctl-mod_known :
    (ep fd : ℤ) (ev : EpollEvent) (s : Table) (old : EpollEvent)
    → s ep fd ≡ some old
    → (ctl ep ctl_mod fd ev s).0 ≡ pos 0
ctl-mod_known ep fd ev s old h = ground arith

pub ctl-mod_unknown :
    (ep fd : ℤ) (ev : EpollEvent) (s : Table)
    → s ep fd ≡ none
    → (ctl ep ctl_mod fd ev s).0 ≡ minus_one
ctl-mod_unknown ep fd ev s h = ground arith

pub ctl-del_known :
    (ep fd : ℤ) (ev : EpollEvent) (s : Table) (old : EpollEvent)
    → s ep fd ≡ some old
    → (ctl ep ctl_del fd ev s).0 ≡ pos 0
ctl-del_known ep fd ev s old h = ground arith

pub ctl-del_unknown :
    (ep fd : ℤ) (ev : EpollEvent) (s : Table)
    → s ep fd ≡ none
    → (ctl ep ctl_del fd ev s).0 ≡ minus_one
ctl-del_unknown ep fd ev s h = ground arith

abbrev pub machine_laws : EpollCtl machine
machine_laws = record {
  interest = λ s. s;
  add_known = ctl-add_known;
  mod_known = ctl-mod_known;
  mod_unknown = ctl-mod_unknown;
  del_known = ctl-del_known;
  del_unknown = ctl-del_unknown;
  add_done = ctl_add-done;
  mod_done = ctl_mod-done;
  del_done = ctl_del-done;
  refused = ctl-refused;
  others = ctl-others;
}
