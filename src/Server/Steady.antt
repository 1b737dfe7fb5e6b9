-- ===== src/Server/Steady.antt =====
-- src/tcpserver.cpp with src/tcpconnection.cpp and src/acceptor.cpp: what no member function does to the clients and the
-- mutex of a server.
use librapid.Prelude.{
  ℕ, ℤ, ◌≡◌, sym, subst, Bool, true, false, Option, none, some, List, [], ◌∷◌, if◌then◌else◌, arith,
  Option-cases, inl, inr,
}
use librapid.Kernel.{Kernel, failed, filled, Filled}
use librapid.Outcome.{Outcome, ok, thrown, stuck, M, pure, dangling, invoke, ◌>>=◌}
use librapid.Outcome.Laws.{Keeps, Keeps-and_then}
use librapid.Channel.{Channel}
use librapid.World.{
  World, Handler, TcpConnection, ConnectionState, disconnected, connected, connection, channel,
  put_connection, on_site, settle, deref,
}
use librapid.Connection
use librapid.Connection.{
  descriptor, sys_read, sys_write, sys_shutdown, send, shutdown, set_connection_state, detach,
  construct, run_handler, connect_established, connect_destroyed, take_bytes, on_read, copy_from,
  clear, is_disconnected, is_disconnecting, is_positive,
}
use librapid.Poller.{disable_all, remove_channel, enable_read}
use librapid.Server.Clients.{IsMap}

module _ {K : Kernel} (held : Bool) where
  -- Each id is in the clients once, and the mutex is held or free.
  abbrev pub Safe : World K → Type 0
  Safe w = IsMap w.server.clients × (w.server.locked ≡ held)

  pub record Steady {A : Type 0} (m : M (World K) A) : Type 0 where
    pub keeps : (w : World K) → Safe w → Keeps Safe (m w)

  pub Steady-bind :
      {A B : Type 0} {m : M (World K) A} {k : A → M (World K) B}
      → Steady m
      → ((a : A) → Steady (k a))
      → Steady (m >>= k)
  Steady-bind {m = m} {k = k} sm sk = record {
    keeps = λ w h. Keeps-and_then Safe (m w) k (sm.keeps w h) (λ a w' h'. (sk a).keeps w' h');
  }

  deref-Safe : {A : Type 0} (o : Option A) (w : World K) → Safe w → Keeps Safe (deref o w)
  deref-Safe none w h = tt
  deref-Safe (some a) w h = h

  pub deref-Steady : {A : Type 0} (f : World K → Option A) → Steady (λ w. deref (f w) w)
  deref-Steady f = record { keeps = λ w h. deref-Safe (f w) w h }

  pub connection-Steady : (p : ℕ) → Steady (connection p)
  unfolding connection
  connection-Steady p = deref-Steady (λ w. w.connections p)

  pub channel-Steady : (p : ℕ) → Steady (channel p)
  unfolding channel
  channel-Steady p = deref-Steady (λ w. w.channels p)

  pub put_connection-Steady : (p : ℕ) (c : TcpConnection) → Steady (put_connection p c)
  unfolding put_connection
  put_connection-Steady p c = record { keeps = λ w h. h }

  settle-Safe :
      {A : Type 0} (p : ℕ) (w : World K) (r : Outcome (Channel × K.State) A)
      → Safe w
      → Keeps Safe (settle p w r)
  settle-Safe p w (ok a (c, k)) h = h
  settle-Safe p w (thrown e (c, k)) h = h
  settle-Safe p w (stuck f) h = tt

  on_site-Safe :
      {A : Type 0} (p : ℕ) (m : ℤ → M (Channel × K.State) A) (w : World K)
      → Safe w
      → Keeps Safe (on_site p m w)
  unfolding on_site
  on_site-Safe p m w h = elim (Option-cases (w.channels p)) [
    | inl gone ↦
        let run : on_site p m w ≡ stuck dangling = ground arith in subst (Keeps Safe) (sym run) tt
    | inr (c, is) ↦ elim (Option-cases (w.loops c.loop)) [
      | inl gone ↦
          let run : on_site p m w ≡ stuck dangling = ground arith in subst (Keeps Safe) (sym run) tt
      | inr (l, at) ↦
          let run : on_site p m w ≡ settle p w (m l.epollfd (c, w.kernel)) = ground arith in
          subst (Keeps Safe) (sym run) (settle-Safe p w (m l.epollfd (c, w.kernel)) h)
    ]
  ]

  pub on_site-Steady : {A : Type 0} (p : ℕ) (m : ℤ → M (Channel × K.State) A) → Steady (on_site p m)
  on_site-Steady p m = record { keeps = on_site-Safe p m }

  pub detach-Steady : (p : ℕ) → Steady (detach p)
  unfolding detach
  detach-Steady p = Steady-bind (connection-Steady p) λ c.
      Steady-bind (on_site-Steady c.channel (disable_all K))
        λ _. on_site-Steady c.channel (remove_channel K)

  pub kernel-Steady :
      {A : Type 0} (f : K.State → A × K.State)
      → Steady (λ (w : World K). ok (f w.kernel).0 (record w { kernel = (f w.kernel).1 }))
  kernel-Steady f = record { keeps = λ w h. h }

  pub sys_read-Steady : (fd : ℤ) (n : ℕ) → Steady (sys_read fd n)
  unfolding sys_read
  sys_read-Steady fd n = kernel-Steady (K.read fd n)

  pub sys_write-Steady : (fd : ℤ) (bytes : List ℕ) → Steady (sys_write fd bytes)
  unfolding sys_write
  sys_write-Steady fd bytes = kernel-Steady (K.write fd bytes)

  pub pure-Steady : {A : Type 0} (a : A) → Steady (pure a)
  pure-Steady a = record { keeps = λ w h. h }

  pub if-Steady :
      {A : Type 0} {x y : M (World K) A} (c : Bool)
      → Steady x
      → Steady y
      → Steady (if c then x else y)
  if-Steady true sx sy = sx
  if-Steady false sx sy = sy

  pub invoke-Steady :
      {H : Type 0} (f : H → M (World K) (Unit {0})) (o : Option H)
      → ((h : H) → Steady (f h))
      → Steady (invoke f o)
  invoke-Steady f none s = pure-Steady tt
  invoke-Steady f (some h) s = s h

  pub descriptor-Steady : (p : ℕ) → Steady (descriptor p)
  unfolding descriptor
  descriptor-Steady p =
      Steady-bind (connection-Steady p)
        λ c. Steady-bind (channel-Steady c.channel) λ ch. pure-Steady ch.fd.value

  pub shutdown-Steady : (p : ℕ) → Steady (shutdown p)
  unfolding shutdown sys_shutdown
  shutdown-Steady p = Steady-bind (descriptor-Steady p) λ fd. record { keeps = λ w h. h }

  pub send-Steady : (p : ℕ) (message : List ℕ) → Steady (send p message)
  unfolding send
  send-Steady p message =
      Steady-bind (descriptor-Steady p)
        λ fd. Steady-bind (sys_write-Steady fd message) λ _. pure-Steady tt

  pub set_connection_state-Steady :
      (p : ℕ) (s : ConnectionState) → Steady (set_connection_state p s)
  unfolding set_connection_state
  set_connection_state-Steady p s =
      Steady-bind (connection-Steady p) λ c. put_connection-Steady p (record c { state = s })

  module _ (call : Handler → ℕ → M (World K) (Unit {0}))
      (calls : (h : Handler) (p : ℕ) → Steady (call h p)) where
    run_handler-Steady :
        (p : ℕ) (field : TcpConnection → Option Handler) → Steady (run_handler call p field)
    unfolding run_handler
    run_handler-Steady p field =
        Steady-bind (connection-Steady p)
          λ c. invoke-Steady (λ h. call h p) (field c) λ h. calls h p

    pub handle_close-Steady : (p : ℕ) → Steady (Connection.handle_close call p)
    unfolding Connection.handle_close
    handle_close-Steady p = Steady-bind (detach-Steady p) λ _.
        Steady-bind (set_connection_state-Steady p disconnected)
          λ _. run_handler-Steady p λ c. c.close_handler

    pub connect_established-Steady : (p : ℕ) → Steady (connect_established call p)
    unfolding connect_established
    connect_established-Steady p = Steady-bind (set_connection_state-Steady p connected) λ _.
        Steady-bind (connection-Steady p) λ c.
          Steady-bind (on_site-Steady c.channel (enable_read K))
            λ _. run_handler-Steady p λ c. c.connected_handler

    pub connect_destroyed-Steady : (p : ℕ) → Steady (connect_destroyed call p)
    unfolding connect_destroyed
    connect_destroyed-Steady p =
        Steady-bind (set_connection_state-Steady p disconnected) λ _. handle_close-Steady p

    take_bytes-Steady : (p : ℕ) (bytes : List ℕ) → Steady (take_bytes call p bytes)
    unfolding take_bytes
    take_bytes-Steady p bytes = Steady-bind (connection-Steady p) λ c.
        Steady-bind
          (put_connection-Steady p (record c { read_buffer = copy_from c.read_buffer bytes }))
          λ _. Steady-bind (run_handler-Steady p λ c. c.read_handler) λ _.
            Steady-bind (connection-Steady p)
              λ c'. put_connection-Steady p (record c' { read_buffer = clear c'.read_buffer })

    on_read-Steady : (p : ℕ) (r : Filled ℕ) → Steady (on_read call p r)
    unfolding on_read
    on_read-Steady p (failed e) = pure-Steady tt
    on_read-Steady p (filled []) = handle_close-Steady p
    on_read-Steady p (filled (b ∷ bs)) = take_bytes-Steady p (b ∷ bs)

    pub handle_read-Steady : (p : ℕ) → Steady (Connection.handle_read call p)
    unfolding Connection.handle_read
    handle_read-Steady p = Steady-bind (connection-Steady p) λ c.
        if-Steady (is_disconnected c.state) (pure-Steady tt) (
          Steady-bind (descriptor-Steady p)
            λ fd. Steady-bind (sys_read-Steady fd 4096) λ r. on_read-Steady p r)

    pub handle_write-Steady : (p : ℕ) → Steady (Connection.handle_write call p)
    unfolding Connection.handle_write
    handle_write-Steady p = Steady-bind (connection-Steady p) λ c.
        Steady-bind (descriptor-Steady p) λ fd.
          Steady-bind (sys_write-Steady fd c.write_buffer) λ written.
            if-Steady (is_positive call written) (run_handler-Steady p λ c. c.write_handler) (
              Steady-bind (connection-Steady p)
                λ c'. if-Steady (is_disconnecting c'.state) (shutdown-Steady p) (pure-Steady tt))
