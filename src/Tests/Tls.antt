-- ===== src/Tests/Tls.antt =====
-- A TLS library of one answer each, with contexts that are counted.
use librapid.Prelude.{
  ℕ, suc, ◌+◌, pos, minus_one, ◌≡◌, refl, not, ◌&&◌, Option, none, some, List, [], ◌∷◌, ◌==◌,
  length, if◌then◌else◌, arith,
}
use librapid.Outcome.Laws.{Returns}
use librapid.Openssl.{
  Openssl, SslContext, want_read, want_write, is_negative, construct, destroy, write,
}
use librapid.Openssl.Transfer.{told, documented, retries, over, write-told}
use librapid.Openssl.Contexts.{References, destroy-construct}

-- The contexts that the SSLs were made of, the last one first.
abbrev pub Live : Type 0
Live = List ℕ

abbrev pub free_last : ℕ → Live → Live
free_last ssl [] = []
free_last ssl (c ∷ s) = if ssl == length s then s else c ∷ s

abbrev pub context : Live → ℕ → Option ℕ
context [] ssl = none
context (c ∷ s) ssl = if ssl == length s then some c else none

abbrev pub uses : Live → ℕ → ℕ
uses [] c = 0
uses (d ∷ s) c = if d == c then suc (uses s c) else uses s c

-- A read fails for want of bytes, a write because the buffer is full.
abbrev pub tls : Openssl
tls = record {
  State = Live;
  ssl_ctx_new = λ s. (5, []);
  ssl_new = λ c s. (length s, c ∷ s);
  ssl_set_mode = λ ssl m s. s;
  bio_new_bio_pair = λ m n s. ((1, 2), s);
  ssl_set_bio = λ ssl r w s. s;
  bio_free = λ b s. s;
  ssl_free = free_last;
  ssl_set_accept_state = λ ssl s. s;
  ssl_do_handshake = λ ssl s. (minus_one, s);
  ssl_get_error = λ ssl r s. (want_write, s);
  ssl_read = λ ssl n s. ((pos 2, 1 ∷ 2 ∷ []), s);
  ssl_write = λ ssl m n s. (minus_one, s);
}

pub freed :
    (ssl c : ℕ) (s : Live)
    → context s ssl ≡ some c
    → 1 + uses (free_last ssl s) c + 1 ≡ 1 + uses s c
freed ssl c [] h = ground arith
freed ssl c (d ∷ s) h = ground arith

pub made : (c : ℕ) (s : Live) → 1 + uses (c ∷ s) c ≡ 1 + uses s c + 1
made c s = ground arith

pub made_of : (c : ℕ) (s : Live) → context (c ∷ s) (length s) ≡ some c
made_of c s = ground arith

abbrev counted : References tls
counted = record {
  refs = λ s c. 1 + uses s c;
  context_of = context;
  ctx_new_refs = λ s. refl;
  ssl_new_refs = made;
  ssl_new_context = made_of;
  ssl_free_refs = freed;
  set_mode_refs = λ ssl m c s. refl;
  set_mode_context = λ ssl m x s. refl;
  bio_pair_refs = λ m n c s. refl;
  bio_pair_context = λ m n x s. refl;
  set_bio_refs = λ ssl r w c s. refl;
  set_bio_context = λ ssl r w x s. refl;
  bio_free_refs = λ b c s. refl;
  bio_free_context = λ b x s. refl;
}

abbrev a_context : SslContext
a_context = record { ext_bio = 2; ctx = 5; ssl = 0 }

write-told_example :
    Returns
      (λ a _. told a ≡ (
        if is_negative minus_one && retries want_write && not (want_write == want_read)
        then over
        else documented minus_one want_write))
      (write tls a_context (7 ∷ []) 1 (5 ∷ []))
write-told_example = write-told tls a_context (7 ∷ []) 1 (5 ∷ []) λ e. ground arith

destroy-construct_example :
    Returns
      (λ self s1. Returns (λ _ s2. 1 + uses s2 self.ctx ≡ 1) (destroy tls self s1))
      (construct tls [])
destroy-construct_example = destroy-construct tls counted []
