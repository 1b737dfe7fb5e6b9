-- ===== src/Connector/Leaks.antt =====
-- src/connector.cpp, connect: which descriptors it leaves open.
use librapid.Prelude.{
  ℕ, suc, ℤ, pos, ◌≡◌, ◌∙◌, Bool, Bool-cases, inl, inr, true, false, not, ◌&&◌, ◌||◌, ◌==◌, Option,
  Option-cases, none, some, arith, int_eq, int_eq_iff, ==_iff, if◌then◌else◌,
}
use librapid.Kernel.{Kernel, SockAddr, CtlOp, ctl_add, EpollEvent, Descriptors}
use librapid.Handle.{handle}
use librapid.Outcome.{thrown, assert_failed}
use librapid.Outcome.Laws.{Leaves}
use librapid.World.{
  World, Connector, EventLoop, connector, put_connector, put_channel, channel, allocate, on_site,
}
use librapid.Channel.{Channel, make_channel, connector_write, set_write}
use librapid.Poller.{registration, enable_write}
use librapid.Acceptor.{is_fd, drop_fd, sys_close}
use librapid.Connector.{sys_tcp_socket, connecting, connect, set_channel, destroy_channel}
use librapid.Connector.Pending.{dialled_fd, dialled, connect-pending, connect-connecting}

-- socket(2), connect(2) and epoll_ctl(2), by what they leave open.
pub record Dials (K : Kernel) (D : Descriptors K) : Type 0 where
  pub socket_new :
      (s : K.State) → is_fd (K.tcp_socket s).0 ≡ true → D.is_open s (K.tcp_socket s).0 ≡ false
  pub socket_made :
      (s : K.State)
      → is_fd (K.tcp_socket s).0 ≡ true
      → (f : ℤ)
      → D.is_open (K.tcp_socket s).1 f
        ≡ (if int_eq f (K.tcp_socket s).0 then true else D.is_open s f)
  pub socket_failed :
      (s : K.State)
      → is_fd (K.tcp_socket s).0 ≡ false
      → (f : ℤ) → D.is_open (K.tcp_socket s).1 f ≡ D.is_open s f
  pub connect_keeps :
      (fd : ℤ) (a : SockAddr) (s : K.State) (f : ℤ)
      → D.is_open (K.connect fd a s).1 f ≡ D.is_open s f
  pub ctl_keeps :
      (ep fd : ℤ) (op : CtlOp) (ev : EpollEvent) (s : K.State) (f : ℤ)
      → D.is_open (K.epoll_ctl ep op fd ev s).1 f ≡ D.is_open s f

-- The descriptor f is that of this channel.
abbrev pub holds : Option Channel → ℤ → Bool
holds none f = false
holds (some ch) f = is_fd ch.fd.value && int_eq f ch.fd.value

abbrev pub channel_at : {K : Kernel} → World K → Option ℕ → Option Channel
channel_at w none = none
channel_at w (some p) = w.channels p

abbrev pub slot : Option Connector → Option ℕ
slot none = none
slot (some c) = c.channel

-- The connector owns f by its channel_.
abbrev pub owns : {K : Kernel} → World K → ℕ → ℤ → Bool
owns w self f = holds (channel_at w (slot (w.connectors self))) f

module _ {K : Kernel} (D : Descriptors K) (S : Dials K D) (self : ℕ) (c : Connector) (l : EventLoop)
    (f : ℤ) where
  -- f is open afterwards if the connector owns it then, or if it was open before and the
  -- connector did not own it.
  abbrev pub Accounts : Bool → World K → World K → Type 0
  Accounts before w w' = D.is_open w'.kernel f ≡ (owns w' self f || (before && not (owns w self f)))

  module _ (w : World K) (fd : ℤ) (before : Bool) (is : w.connectors self ≡ some c)
      (is_loop : w.loops c.loop ≡ some l) (valid : is_fd fd ≡ true)
      (now : D.is_open w.kernel f ≡ (if int_eq f fd then true else before)) where
    abbrev dialling : Channel
    dialling = record (make_channel w.fresh c.loop (handle fd)) {
      write_handler = some (connector_write self);
    }

    connecting-empty : c.channel ≡ none → Leaves (Accounts before w) (connecting self fd w)
    unfolding connecting connector allocate put_channel make_channel set_channel put_connector
        destroy_channel on_site enable_write
    connecting-empty empty = ground (
      arith,
      ==_iff self self,
      ==_iff w.fresh w.fresh,
      int_eq_iff f fd,
      S.ctl_keeps l.epollfd fd ctl_add (registration (set_write dialling)) w.kernel f,
    )

    connecting-full :
        (p : ℕ) (ch : Channel)
        → c.channel ≡ some p
        → w.channels p ≡ some ch
        → (w.fresh == p) ≡ false
        → int_eq fd ch.fd.value ≡ false
        → Leaves (Accounts before w) (connecting self fd w)
    unfolding connecting connector allocate put_channel make_channel set_channel put_connector
        destroy_channel channel drop_fd sys_close on_site enable_write
    connecting-full p ch full is_channel apart other = ground (
      arith,
      ==_iff self self,
      ==_iff w.fresh w.fresh,
      ==_iff p w.fresh,
      ==_iff w.fresh p,
      int_eq_iff f fd,
      int_eq_iff f ch.fd.value,
      int_eq_iff fd ch.fd.value,
      D.closed ch.fd.value w.kernel f,
      S.ctl_keeps l.epollfd fd ctl_add (registration (set_write dialling)) w.kernel f,
      S.ctl_keeps l.epollfd fd ctl_add (registration (set_write dialling))
          (K.close ch.fd.value w.kernel) f,
    )

  module _ (n : ℕ) (w : World K) (is : w.connectors self ≡ some c) where
    abbrev fresh_fd : ℤ
    fresh_fd = dialled_fd n self w c

    connect-no_socket :
        is_fd fresh_fd ≡ false
        → connect (suc n) self w
          ≡ thrown
              (assert_failed "socket() return fail!")
              (record w { kernel = (K.tcp_socket w.kernel).1 })
    unfolding connect connector sys_tcp_socket
    connect-no_socket bad = ground arith

    -- After socket(2) and connect(2).
    dialled-is_open :
        is_fd fresh_fd ≡ true
        → D.is_open (dialled n self w c).1 f
          ≡ (if int_eq f fresh_fd then true else D.is_open w.kernel f)
    dialled-is_open valid =
        S.connect_keeps fresh_fd c.server_addr (K.tcp_socket w.kernel).1 f
        ∙ S.socket_made w.kernel valid f

    no_socket-Accounts :
        (owns w self f ≡ true → D.is_open w.kernel f ≡ true)
        → is_fd fresh_fd ≡ false
        → Leaves (Accounts (D.is_open w.kernel f) w) (connect (suc n) self w)
    no_socket-Accounts sound bad =
        rw (connect-no_socket bad) (ground (arith, sound, S.socket_failed w.kernel bad f))

    pending-Accounts :
        (owns w self f ≡ true → D.is_open w.kernel f ≡ true)
        → is_fd fresh_fd ≡ true
        → int_eq (dialled n self w c).0 (pos 0) ≡ false
        → Leaves (Accounts (D.is_open w.kernel f) w) (connect (suc n) self w)
    pending-Accounts sound valid bad = rw (connect-pending n self w c is valid bad) (
        ground (
          arith,
          sound,
          dialled-is_open valid,
          S.socket_new w.kernel valid,
          int_eq_iff f fresh_fd,
          D.closed fresh_fd (dialled n self w c).1 f,
        ))

    -- The descriptor that the connector owns is open, so that a new one is another.
    other-fd :
        (ch : Channel)
        → (is_fd ch.fd.value ≡ true → D.is_open w.kernel ch.fd.value ≡ true)
        → is_fd fresh_fd ≡ true
        → int_eq fresh_fd ch.fd.value ≡ false
    other-fd ch sound valid =
        ground (arith, sound, int_eq_iff fresh_fd ch.fd.value, S.socket_new w.kernel valid)

    -- Connector::connect leaks no descriptor and closes no other: on a connector whose loop is
    -- there and whose channel, if it has one, is there, not at the address that the next
    -- allocation gives, and has a descriptor that is open or invalid, it returns or throws; a
    -- descriptor is open then exactly if the connector owns it by its channel, or it was open
    -- before and the connector did not own it. So it is for a failed socket(2), a failed
    -- connect(2), and a connect that succeeds, whether epoll then takes the descriptor or not.
    pub connect-Accounts :
        w.loops c.loop ≡ some l
        → ((p : ℕ)
            → c.channel ≡ some p
            → ((w.fresh == p) ≡ false) × ((ch : Channel) × (w.channels p ≡ some ch)))
        → ((g : ℤ) → owns w self g ≡ true → D.is_open w.kernel g ≡ true)
        → Leaves (Accounts (D.is_open w.kernel f) w) (connect (suc n) self w)
    connect-Accounts is_loop alive sound = elim (Bool-cases (is_fd fresh_fd)) [
      | inr bad ↦ no_socket-Accounts (sound f) bad
      | inl valid ↦ elim (Bool-cases (int_eq (dialled n self w c).0 (pos 0))) [
        | inr bad ↦ pending-Accounts (sound f) valid bad
        | inl done ↦
            let w1 : World K = record w { kernel = (dialled n self w c).1 } in
            let now = dialled-is_open valid in
            rw (connect-connecting n self w c is valid done) (elim (Option-cases c.channel) [
              | inl empty ↦
                  connecting-empty w1 fresh_fd (D.is_open w.kernel f) is is_loop valid now empty
              | inr (p, full) ↦
                  let (apart, (ch, is_channel)) = alive p full in
                  connecting-full w1 fresh_fd (D.is_open w.kernel f) is is_loop valid now p ch full
                    is_channel apart
                    (other-fd ch
                      (λ h. sound ch.fd.value (
                        ground
                          (arith, is, full, is_channel, h, int_eq_iff ch.fd.value ch.fd.value)))
                      valid)
            ])
      ]
    ]
