-- ===== src/Connection/Stream.antt =====
-- src/tcpconnection.cpp, handleRead called once after the other: the bytes of the stream between
-- read(2) and the read handler.
use mathlib.Core.List.{append_assoc, append-nil}
use librapid.Prelude.{ℕ, ◌≡◌, sym, ap, ◌∙◌, true, false, Option, some, List, [], ◌∷◌, ◌++◌, arith}
use librapid.Kernel.{Kernel, failed, filled}
use librapid.Outcome.{ok, thrown, M, Exception}
use librapid.Outcome.Laws.{ok_state, thrown_state}
use librapid.Channel.{Channel}
use librapid.World.{World, Handler, TcpConnection, update}
use librapid.Connection.{is_disconnected, handle_read}
use librapid.Connection.Read.{
  fed, handle_read-data, handle_read-thrown, handle_read-failed, handle_read-disconnected,
}

-- The bytes of all turns, one after the other.
abbrev pub all_got : List (List ℕ × List ℕ) → List ℕ
all_got [] = []
all_got (t ∷ ts) = t.0 ++ all_got ts

abbrev pub all_given : List (List ℕ × List ℕ) → List ℕ
all_given [] = []
all_given (t ∷ ts) = t.1 ++ all_given ts

module _ {K : Kernel} (call : Handler → ℕ → M (World K) (Unit {0})) (self : ℕ) where
  -- One turn of the loop thread: what it has read for the connection, and what of it a read
  -- handler that returned was given. The handlers have the buffer as a const reference.
  pub data Turn (w : World K) (w' : World K) (got : List ℕ) (given : List ℕ) : Type 0 where
    handled :
        (c : TcpConnection) (ch : Channel) (is : w.connections self ≡ some c) (b : ℕ) (bs : List ℕ)
        (h : Handler) (w1 : World K) (c1 : TcpConnection)
        → w.channels c.channel ≡ some ch
        → is_disconnected c.state ≡ false
        → (K.read ch.fd.value 4096 w.kernel).0 ≡ filled (b ∷ bs)
        → c.read_handler ≡ some h
        → call h self (
            fed call self
              (record w { kernel = (K.read ch.fd.value 4096 w.kernel).1 })
              c
              is
              (b ∷ bs))
          ≡ ok tt w1
        → w1.connections self ≡ some c1
        → c1.read_buffer ≡ c.read_buffer ++ (b ∷ bs)
        → handle_read call self w ≡ ok tt w'
        → got ≡ b ∷ bs
        → given ≡ c1.read_buffer
        → Turn w w' got given
    not_handled :
        (c : TcpConnection) (ch : Channel) (is : w.connections self ≡ some c) (b : ℕ) (bs : List ℕ)
        (h : Handler) (x : Exception) (w1 : World K) (c1 : TcpConnection)
        → w.channels c.channel ≡ some ch
        → is_disconnected c.state ≡ false
        → (K.read ch.fd.value 4096 w.kernel).0 ≡ filled (b ∷ bs)
        → c.read_handler ≡ some h
        → call h self (
            fed call self
              (record w { kernel = (K.read ch.fd.value 4096 w.kernel).1 })
              c
              is
              (b ∷ bs))
          ≡ thrown x w1
        → w1.connections self ≡ some c1
        → c1.read_buffer ≡ c.read_buffer ++ (b ∷ bs)
        → handle_read call self w ≡ thrown x w'
        → got ≡ b ∷ bs
        → given ≡ []
        → Turn w w' got given
    not_read :
        (c : TcpConnection) (ch : Channel) (e : ℕ)
        → w.connections self ≡ some c
        → w.channels c.channel ≡ some ch
        → is_disconnected c.state ≡ false
        → (K.read ch.fd.value 4096 w.kernel).0 ≡ failed e
        → handle_read call self w ≡ ok tt w'
        → got ≡ []
        → given ≡ []
        → Turn w w' got given
    over :
        (c : TcpConnection) (ch : Channel)
        → w.connections self ≡ some c
        → w.channels c.channel ≡ some ch
        → is_disconnected c.state ≡ true
        → handle_read call self w ≡ ok tt w'
        → got ≡ []
        → given ≡ []
        → Turn w w' got given

  -- Turns one after the other, each with what it has read and what of it was given; between two
  -- the rest of the program leaves the connection alone.
  abbrev pub Turns : World K → World K → List (List ℕ × List ℕ) → Type 0
  Turns w w' [] = w'.connections self ≡ w.connections self
  Turns w w' (t ∷ ts) =
      (v : World K) × (v' : World K) × (v.connections self ≡ w.connections self)
      × Turn v v' t.0 t.1
      × Turns v' w' ts

  -- What was given and what is left, against what was there and what was read.
  abbrev pub Conserves : TcpConnection → World K → List ℕ → List ℕ → Type 0
  Conserves c w' got given =
      (c' : TcpConnection) × (w'.connections self ≡ some c')
      × (given ++ c'.read_buffer ≡ c.read_buffer ++ got)

  some_eq : {c d : TcpConnection} → ◌≡◌ {A = Option TcpConnection} (some c) (some d) → c ≡ d
  some_eq e = cc

  -- The connection after a turn, as its buffer is.
  holds :
      (w w' w1 : World K) (c c1 : TcpConnection) (got given : List ℕ)
      → w' ≡ w1
      → w.connections self ≡ some c
      → w1.connections self ≡ some c1
      → given ++ c1.read_buffer ≡ c.read_buffer ++ got
      → (d : TcpConnection) → w.connections self ≡ some d
      → Conserves d w' got given
  holds w w' w1 c c1 got given worlds is is1 bytes d d_is = (
    c1,
    ap (λ (v : World K). v.connections self) worlds ∙ is1,
    bytes ∙ ap (λ (e : TcpConnection). e.read_buffer ++ got) (some_eq (sym is ∙ d_is)),
  )

  Turn-Conserves :
      (w w' : World K) (got given : List ℕ)
      → Turn w w' got given
      → (d : TcpConnection) → w.connections self ≡ some d
      → Conserves d w' got given
  Turn-Conserves w w' got given
        (handled c ch is b bs h w1 c1 chan live read set run is1 same code g1 g2) =
      holds w w'
        (record w1 { connections = update w1.connections self (record c1 { read_buffer = [] }) }) c
        (record c1 { read_buffer = [] }) got given
        (ok_state
          (sym code ∙ handle_read-data call self w c ch is chan b bs h w1 c1 live read set run is1))
        is (ground arith) (append-nil given ∙ g2 ∙ same ∙ ap (λ g. c.read_buffer ++ g) (sym g1))
  Turn-Conserves w w' got given
        (not_handled c ch is b bs h x w1 c1 chan live read set run is1 same code g1 g2) =
      holds w w' w1 c c1 got given
        (thrown_state
          (sym code ∙ handle_read-thrown call self w c ch is chan b bs h x w1 live read set run))
        is is1 (ap (λ g. g ++ c1.read_buffer) g2 ∙ same ∙ ap (λ g. c.read_buffer ++ g) (sym g1))
  Turn-Conserves w w' got given (not_read c ch e is chan live read code g1 g2) =
      holds w w' (record w { kernel = (K.read ch.fd.value 4096 w.kernel).1 }) c c got given
        (ok_state (sym code ∙ handle_read-failed call self w c ch is chan e live read)) is is
        (ap (λ g. g ++ c.read_buffer) g2
          ∙ sym (append-nil c.read_buffer)
          ∙ ap (λ g. c.read_buffer ++ g) (sym g1))
  Turn-Conserves w w' got given (over c ch is chan dead code g1 g2) =
      holds w w' w c c got given
        (ok_state (sym code ∙ handle_read-disconnected call self w c ch is chan dead)) is is
        (ap (λ g. g ++ c.read_buffer) g2
          ∙ sym (append-nil c.read_buffer)
          ∙ ap (λ g. c.read_buffer ++ g) (sym g1))

  joined :
      (given1 given2 after between got2 before got1 : List ℕ)
      → given1 ++ between ≡ before ++ got1
      → given2 ++ after ≡ between ++ got2
      → (given1 ++ given2) ++ after ≡ before ++ (got1 ++ got2)
  joined given1 given2 after between got2 before got1 first later =
      append_assoc given1 given2 after
      ∙ ap (λ s. given1 ++ s) later
      ∙ sym (append_assoc given1 between got2)
      ∙ ap (λ s. s ++ got2) first
      ∙ append_assoc before got1 got2

  -- No byte of a stream is lost, doubled or put out of order on its way to the read handler:
  -- over any number of turns, in which read(2) gives bytes or fails, the handler returns or
  -- throws and leaves the buffer as it was given it, and the connection may be Disconnected,
  -- what the handlers that returned were given, one after the other, and then what is left in
  -- the buffer, is what was in the buffer at first and then all that was read. So the bytes of a
  -- handler that threw are given once more.
  pub Turns-Conserves :
      (ts : List (List ℕ × List ℕ)) (w w' : World K) (c : TcpConnection)
      → w.connections self ≡ some c
      → Turns w w' ts
      → Conserves c w' (all_got ts) (all_given ts)
  Turns-Conserves [] w w' c is same = (c, same ∙ is, sym (append-nil c.read_buffer))
  Turns-Conserves (t ∷ ts) w w' c is (v, v', same, turn, rest) =
      let (c1, is1, first) = Turn-Conserves v v' t.0 t.1 turn c (same ∙ is) in
      let (c2, is2, later) = Turns-Conserves ts v' w' c1 is1 rest in
      (
        c2,
        is2,
        joined t.1 (all_given ts) c2.read_buffer c1.read_buffer (all_got ts) c.read_buffer t.0 first
            later,
      )
