-- ===== src/Program/Echo.antt =====
-- src/main.cpp with src/tcpconnection.cpp: a request and its answer.
use librapid.Prelude.{
  ℕ, ℤ, zero, suc, ◌≡◌, refl, sym, subst, ap, ◌∙◌, false, Option, some, ==_iff, List, [], ◌∷◌, ◌++◌,
  arith,
}
use librapid.Kernel.{Kernel, filled}
use librapid.Outcome.{ok, M, pure, ◌>>◌}
use librapid.Outcome.Laws.{Returns, Returns-and_then, Returns-mono}
use librapid.Channel.{Channel}
use librapid.World.{World, TcpConnection, user, connection, channel, update}
use librapid.Connection.{is_disconnected, descriptor, sys_write, send, handle_read}
use librapid.Connection.Read.{after_read, fed, handle_read-data}
use librapid.Handlers.{call}
use librapid.Program.{handlers, answers, response}

module _ {K : Kernel} (self : ℕ) (message : List ℕ) (w : World K) (c : TcpConnection)
    (ch : Channel) where
  send_lem :
      w.connections self ≡ some c
      → w.channels c.channel ≡ some ch
      → send self message w ≡ ok tt (record w { kernel = (K.write ch.fd.value message w.kernel).1 })
  unfolding send descriptor sys_write connection channel
  send_lem is is_channel = rw (is, is_channel) refl

module _ {A : Type 0} (f : ℕ → Option A) (p : ℕ) (u v : A) where
  update_same : update f p u p ≡ some u
  update_same = ground (arith, ==_iff p p)

  update-update : (q : ℕ) → update (update f p u) p v q ≡ update f p v q
  update-update q = ground (arith, ==_iff p q)

module _ {K : Kernel} (n self : ℕ) (w : World K) (c : TcpConnection) (ch : Channel)
    (is : w.connections self ≡ some c) (is_channel : w.channels c.channel ≡ some ch) where
  abbrev received : List ℕ → World K
  received bytes =
      fed (call handlers (suc n)) self
        (after_read (call handlers (suc n)) self w c ch is is_channel) c is bytes

  abbrev answered : List ℕ → World K
  answered bytes = record (received bytes) {
    kernel = (K.write ch.fd.value response (K.read ch.fd.value 4096 w.kernel).1).1;
  }

  call-answers :
      (bytes : List ℕ)
      → call handlers (suc n) (user answers) self (received bytes) ≡ ok tt (answered bytes)
  unfolding call handlers
  call-answers bytes =
      let c1 : TcpConnection = record c { read_buffer = c.read_buffer ++ bytes } in
      send_lem self response (received bytes) c1 ch (update_same w.connections self c1 c1)
        is_channel

  -- One request.
  pub handle_read-response :
      (b : ℕ) (bs : List ℕ)
      → is_disconnected c.state ≡ false
      → (K.read ch.fd.value 4096 w.kernel).0 ≡ filled (b ∷ bs)
      → c.read_handler ≡ some (user answers)
      → Returns
          (λ _ w'.
            (w'.kernel ≡ (K.write ch.fd.value response (K.read ch.fd.value 4096 w.kernel).1).1)
            × (w'.channels ≡ w.channels)
            × ((p : ℕ)
                → w'.connections p ≡ update w.connections self (record c { read_buffer = [] }) p))
          (handle_read (call handlers (suc n)) self w)
  handle_read-response b bs live got set =
      let c1 : TcpConnection = record c { read_buffer = c.read_buffer ++ b ∷ bs } in
      subst (Returns _)
        (sym (
          handle_read-data (call handlers (suc n)) self w c ch is is_channel b bs (user answers)
            (answered (b ∷ bs)) c1 live got set (call-answers (b ∷ bs))
            (update_same w.connections self c1 c1)))
        (refl, refl, update-update w.connections self c1 (record c { read_buffer = [] }))

module _ (K : Kernel) where
  -- The system after m requests on a descriptor, each read and then answered.
  abbrev pub exchanged : ℤ → ℕ → K.State → K.State
  exchanged fd zero k = k
  exchanged fd (suc m) k = exchanged fd m (K.write fd response (K.read fd 4096 k).1).1

  -- A read gives at least one byte, now and after each of m - 1 answers.
  abbrev pub Talks : ℤ → ℕ → K.State → Type 0
  Talks fd zero k = Unit
  Talks fd (suc m) k =
      (b : ℕ) × (bs : List ℕ) × ((K.read fd 4096 k).0 ≡ filled (b ∷ bs))
      × Talks fd m (K.write fd response (K.read fd 4096 k).1).1

module _ {K : Kernel} (n self : ℕ) where
  -- The read events of a connection, one after the other.
  unfoldable pub requests : ℕ → M (World K) (Unit {0})
  requests zero = pure tt
  requests (suc m) = handle_read (call handlers (suc n)) self >> requests m

  abbrev pub Answered : World K → TcpConnection → Channel → ℕ → World K → Type 0
  Answered w c ch m w' =
      (w'.kernel ≡ exchanged K ch.fd.value m w.kernel)
      × (w'.channels ≡ w.channels)
      × ((p : ℕ) → w'.connections p ≡ update w.connections self (record c { read_buffer = [] }) p)

  one_request :
      (w : World K) (c : TcpConnection) (ch : Channel)
      → w.connections self ≡ some c
      → w.channels c.channel ≡ some ch
      → is_disconnected c.state ≡ false
      → c.read_handler ≡ some (user answers)
      → Talks K ch.fd.value 1 w.kernel
      → Returns (λ _ w'. Answered w c ch 1 w') (handle_read (call handlers (suc n)) self w)
  one_request w c ch is chan live set (b, bs, got, talks) =
      handle_read-response n self w c ch is chan b bs live got set

  -- The further requests follow the first one.
  Answered-trans :
      (m : ℕ) (w w1 w2 : World K) (c : TcpConnection) (ch : Channel)
      → Answered w c ch 1 w1
      → Answered w1 (record c { read_buffer = [] }) ch m w2
      → Answered w c ch (suc m) w2
  Answered-trans m w w1 w2 c ch (k1, ch1, conns1) (k2, ch2, conns2) =
      (k2 ∙ ap (exchanged K ch.fd.value m) k1, ch2 ∙ ch1, λ p. ground (arith, conns1 p, conns2 p))

  -- Requests to the example program over one connection, which is not Disconnected and has the
  -- read handler of the program, each of at least one byte and read in a turn of its own: each
  -- handleRead returns, the system is what the reads and one write of the response after each of
  -- them have made of it, the read buffer is empty, and nothing else about any connection has
  -- changed.
  pub requests_lem :
      (m : ℕ) (w : World K) (c : TcpConnection) (ch : Channel)
      → w.connections self ≡ some c
      → w.channels c.channel ≡ some ch
      → is_disconnected c.state ≡ false
      → c.read_handler ≡ some (user answers)
      → Talks K ch.fd.value (suc m) w.kernel
      → Returns (λ _ w'. Answered w c ch (suc m) w') (requests (suc m) w)
  unfolding requests
  requests_lem zero w c ch is chan live set talks =
      Returns-and_then (λ _ v. Answered w c ch 1 v) (λ _ v. Answered w c ch 1 v)
        (handle_read (call handlers (suc n)) self w) (λ _. pure tt)
        (one_request w c ch is chan live set talks) λ _ w1 h. h
  requests_lem (suc m) w c ch is chan live set (b, bs, got, talks) =
      let after : TcpConnection = record c { read_buffer = [] } in
      Returns-and_then (λ _ v. Answered w c ch 1 v) (λ _ v. Answered w c ch (suc (suc m)) v)
        (handle_read (call handlers (suc n)) self w) (λ _. requests (suc m))
        (one_request w c ch is chan live set (b, bs, got, tt))
        λ _ w1 h.
          Returns-mono (λ _ v. Answered w1 after ch (suc m) v)
            (λ _ v. Answered w c ch (suc (suc m)) v) (requests (suc m) w1)
            (requests_lem m w1 after ch (h.2 self ∙ update_same w.connections self after after)
              (ap (λ f. f c.channel) h.1 ∙ chan) live set
              (subst (Talks K ch.fd.value (suc m)) (sym h.0) talks))
            λ _ w2 later. Answered-trans (suc m) w w1 w2 c ch h later
