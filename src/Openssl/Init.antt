-- ===== src/Openssl/Init.antt =====
-- src/openssl.cpp: SSLLibInit, the one object that starts OpenSSL and lends it its mutexes.
use librapid.Prelude.{ℕ, Bool, true, false, Option, none, some, List}
use librapid.Outcome.{ok, M, pure, within, modify, ◌>>=◌, ◌>>◌}
use librapid.Openssl.{init_locks, call, perform}

-- What the library calls of OpenSSL; a callback is set, or taken away with the null pointer.
pub record Crypto : Type 1 where
  pub State : Type 0
  pub ssl_library_init : State → State
  pub ssl_load_error_strings : State → State
  pub openssl_add_ssl_algorithms : State → State
  pub crypto_num_locks : State → ℕ × State
  pub crypto_set_locking_callback : (set : Bool) → State → State
  pub crypto_set_id_callback : (set : Bool) → State → State
  pub err_free_strings : State → State
  pub err_remove_state : (pid : ℕ) → State → State
  pub evp_cleanup : State → State
  pub crypto_cleanup_all_ex_data : State → State
  pub conf_modules_unload : (all : ℕ) → State → State
  pub engine_cleanup : State → State

-- SSLLibInit::genId; std::hash of a thread id is a parameter.
unfoldable pub gen_id : {Thread : Type 0} → (hash : Thread → ℕ) → Thread → ℕ
gen_id hash this_thread = hash this_thread

module _ (C : Crypto) where
  -- SSLLibInit::SSLLibInit, with the mutexes it makes.
  unfoldable pub construct : M C.State (List Bool)
  unfolding init_locks
  construct = do
    perform C.ssl_library_init
    perform C.ssl_load_error_strings
    perform C.openssl_add_ssl_algorithms
    num_locks ← call C.crypto_num_locks
    perform (C.crypto_set_locking_callback true)
    perform (C.crypto_set_id_callback true)
    pure (init_locks num_locks)

  -- SSLLibInit::~SSLLibInit
  unfoldable pub destroy : M C.State (Unit {0})
  destroy = do
    perform (C.crypto_set_id_callback false)
    perform (C.crypto_set_locking_callback false)
    perform C.err_free_strings
    perform (C.err_remove_state 0)
    perform C.evp_cleanup
    perform C.crypto_cleanup_all_ex_data
    perform (C.conf_modules_unload 1)
    perform C.engine_cleanup

  -- OpenSSL beside the static variable of SSLLibInit::get(), which has its mutexes.
  pub record Library : Type 0 where
    pub crypto : C.State
    pub init : Option (List Bool)

  abbrev pub in_crypto : {A : Type 0} → M C.State A → M Library A
  in_crypto m = within (λ s. s.crypto) (λ s t. record s { crypto = t }) m

  -- SSLLibInit::get
  unfoldable pub get : M Library (List Bool)
  unfolding construct
  get s = elim s.init [
    | some mutexes ↦ ok mutexes s
    | none ↦
        (do
          mutexes ← in_crypto construct
          modify (λ s. record s { init = some mutexes })
          pure mutexes)
          s
  ]
