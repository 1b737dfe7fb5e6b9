-- ===== src/Openssl.antt =====
-- src/openssl.cpp: a TLS connection of OpenSSL beside a channel. OpenSSL is a parameter.
pub mod Transfer
pub mod Locks
pub mod Contexts
pub mod Handshake
pub mod Init
use librapid.Prelude.{
  ℕ, ◌%◌, ◌^◌, ◌+◌, ℤ, pos, negsuc, ◌-◌, Bool, true, false, not, ◌&&◌, List, [], Option, none, some,
  ◌==◌, ltb, int_eq, bit_and, if◌then◌else◌, ◌≡◌, get_elem?, set, replicate,
}
use librapid.Kernel.{Kernel}
use librapid.Outcome.{Outcome, ok, M, pure, fault, within, relock, unlocked, dangling, ◌>>=◌, ◌>>◌}
use librapid.World.{World, on_site}
use librapid.Poller.{enable_write, enable_read}

-- An SSL_CTX, an SSL and a BIO are handles. What a call writes to memory comes with its result.
pub record Openssl : Type 1 where
  pub State : Type 0
  pub ssl_ctx_new : State → ℕ × State
  pub ssl_new : (ctx : ℕ) → State → ℕ × State
  pub ssl_set_mode : (ssl mode : ℕ) → State → State
  -- BIO_new_bio_pair: the inner one and the outer one
  pub bio_new_bio_pair : (size1 size2 : ℕ) → State → (ℕ × ℕ) × State
  pub ssl_set_bio : (ssl rbio wbio : ℕ) → State → State
  pub bio_free : (bio : ℕ) → State → State
  pub ssl_free : (ssl : ℕ) → State → State
  pub ssl_set_accept_state : (ssl : ℕ) → State → State
  pub ssl_do_handshake : (ssl : ℕ) → State → ℤ × State
  pub ssl_get_error : (ssl : ℕ) → (result : ℤ) → State → ℕ × State
  pub ssl_read : (ssl : ℕ) → (num : ℤ) → State → (ℤ × List ℕ) × State
  pub ssl_write : (ssl : ℕ) → List ℕ → (num : ℤ) → State → ℤ × State

-- The numbers that SSL_get_error gives.
abbrev pub want_read : ℕ
want_read = 2

abbrev pub want_write : ℕ
want_write = 3

abbrev pub zero_return : ℕ
zero_return = 6

abbrev ssl_buf_size : ℕ
ssl_buf_size = 8192

-- class SSLContextImpl
pub record SslContext : Type 0 where
  pub ext_bio : ℕ
  pub ctx : ℕ
  pub ssl : ℕ

abbrev pub is_negative : ℤ → Bool
is_negative (pos n) = false
is_negative (negsuc n) = true

-- The conversion of a size_t to int.
abbrev pub to_int : ℕ → ℤ
to_int len = let n = len % 2 ^ 32 in if ltb n (2 ^ 31) then pos n else negsuc (2 ^ 32 - 1 - n)

module _ {S : Type 0} where
  abbrev pub call : {A : Type 0} → (S → A × S) → M S A
  call f s = let (a, s') = f s in ok a s'

  abbrev pub perform : (S → S) → M S (Unit {0})
  perform f s = ok tt (f s)

module _ (O : Openssl) where
  -- SSLContextImpl::SSLContextImpl. The modes are PARTIAL_WRITE and MOVING_WRITE_BUFFER.
  unfoldable pub construct : M O.State SslContext
  construct = do
    ctx ← call O.ssl_ctx_new
    ssl ← call (O.ssl_new ctx)
    perform (O.ssl_set_mode ssl 1)
    perform (O.ssl_set_mode ssl 2)
    bios ← call (O.bio_new_bio_pair ssl_buf_size ssl_buf_size)
    perform (O.ssl_set_bio ssl bios.0 bios.0)
    pure (record { ext_bio = bios.1; ctx = ctx; ssl = ssl })

  -- SSLContextImpl::~SSLContextImpl
  unfoldable pub destroy : SslContext → M O.State (Unit {0})
  destroy self = do perform (O.bio_free self.ext_bio); perform (O.ssl_free self.ssl)

  -- SSLContextImpl::read: the result, and what SSL_read left in the buffer.
  unfoldable pub read : SslContext → ℕ → M O.State (ℤ × List ℕ)
  read self len = do
    got ← call (O.ssl_read self.ssl (to_int len))
    error ← call (O.ssl_get_error self.ssl got.0)
    if is_negative got.0 && not (error == want_read)
        then pure (pos 0, got.1)
        else if int_eq got.0 (pos 0) && (error == zero_return)
        then pure (pos 0, got.1)
        else pure got

  -- SSLContextImpl::write
  unfoldable pub write : SslContext → List ℕ → ℕ → M O.State ℤ
  write self message len = do
    result ← call (O.ssl_write self.ssl message (to_int len))
    error ← call (O.ssl_get_error self.ssl result)
    if is_negative result && not (error == want_read)
        then pure (pos 0)
        else if int_eq result (pos 0) && (error == zero_return)
        then pure (pos 0)
        else pure result

  -- The state of the program beside that of OpenSSL.
  abbrev pub Both : Kernel → Type 0
  Both K = World K × O.State

  abbrev pub in_ssl : {K : Kernel} {A : Type 0} → M O.State A → M (Both K) A
  in_ssl m = within (λ s. s.1) (λ s o. (s.0, o)) m

  abbrev pub in_world : {K : Kernel} {A : Type 0} → M (World K) A → M (Both K) A
  in_world m = within (λ s. s.0) (λ s w. (w, s.1)) m

  -- SSLContextImpl::handshake
  unfoldable pub handshake : {K : Kernel} → SslContext → ℕ → M (Both K) (Unit {0})
  unfolding on_site enable_write enable_read
  handshake {K} self channel = do
    in_ssl (perform (O.ssl_set_accept_state self.ssl))
    result ← in_ssl (call (O.ssl_do_handshake self.ssl))
    error ← in_ssl (call (O.ssl_get_error self.ssl result))
    if error == want_write
        then in_world (on_site channel (enable_write K))
        else if error == want_read
        then in_world (on_site channel (enable_read K))
        else pure tt

-- SSLLibInit: its mutexes, by whether they are locked; all calls come from one thread.
unfoldable pub init_locks : ℕ → List Bool
init_locks num_locks = replicate num_locks false

-- SSLLibInit::locking. CRYPTO_LOCK is 1.
unfoldable pub locking : ℕ → ℕ → M (List Bool) (Unit {0})
locking mode n mutexes = elim (get_elem? mutexes n) [
  | none ↦ fault dangling mutexes
  | some locked ↦
      if bit_and mode 1 == 1
      then (if locked then fault relock mutexes else ok tt (set mutexes n true))
      else (if locked then ok tt (set mutexes n false) else fault unlocked mutexes)
]
