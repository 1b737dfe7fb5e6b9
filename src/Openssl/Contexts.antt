-- ===== src/Openssl/Contexts.antt =====
-- src/openssl.cpp: the constructor and the destructor, by the references to the SSL_CTX.
use librapid.Prelude.{ℕ, Option, some, ◌+◌, ◌≡◌, ◌∙◌, arith}
use librapid.Outcome.Laws.{Returns, Returns-mono}
use librapid.Openssl.{Openssl, SslContext, construct, destroy}

-- SSL_CTX_new(3), SSL_new(3) and SSL_free(3): a context lives as long as it has references, one of
-- its creator and one of each SSL that was made of it.
pub record References (O : Openssl) : Type 0 where
  pub refs : O.State → ℕ → ℕ
  pub context_of : O.State → ℕ → Option ℕ
  pub ctx_new_refs : (s : O.State) → refs (O.ssl_ctx_new s).1 (O.ssl_ctx_new s).0 ≡ 1
  pub ssl_new_refs : (ctx : ℕ) (s : O.State) → refs (O.ssl_new ctx s).1 ctx ≡ refs s ctx + 1
  pub ssl_new_context :
      (ctx : ℕ) (s : O.State) → context_of (O.ssl_new ctx s).1 (O.ssl_new ctx s).0 ≡ some ctx
  pub ssl_free_refs :
      (ssl ctx : ℕ) (s : O.State)
      → context_of s ssl ≡ some ctx
      → refs (O.ssl_free ssl s) ctx + 1 ≡ refs s ctx
  pub set_mode_refs : (ssl mode c : ℕ) (s : O.State) → refs (O.ssl_set_mode ssl mode s) c ≡ refs s c
  pub set_mode_context :
      (ssl mode x : ℕ) (s : O.State) → context_of (O.ssl_set_mode ssl mode s) x ≡ context_of s x
  pub bio_pair_refs : (m n c : ℕ) (s : O.State) → refs (O.bio_new_bio_pair m n s).1 c ≡ refs s c
  pub bio_pair_context :
      (m n x : ℕ) (s : O.State) → context_of (O.bio_new_bio_pair m n s).1 x ≡ context_of s x
  pub set_bio_refs : (ssl r w c : ℕ) (s : O.State) → refs (O.ssl_set_bio ssl r w s) c ≡ refs s c
  pub set_bio_context :
      (ssl r w x : ℕ) (s : O.State) → context_of (O.ssl_set_bio ssl r w s) x ≡ context_of s x
  pub bio_free_refs : (bio c : ℕ) (s : O.State) → refs (O.bio_free bio s) c ≡ refs s c
  pub bio_free_context :
      (bio x : ℕ) (s : O.State) → context_of (O.bio_free bio s) x ≡ context_of s x

module _ (O : Openssl) (L : References O) where
  abbrev pub IsBuilt : SslContext → O.State → Type 0
  IsBuilt self s = (L.refs s self.ctx ≡ 2) × (L.context_of s self.ssl ≡ some self.ctx)

  construct-IsBuilt : (s : O.State) → Returns IsBuilt (construct O s)
  unfolding construct
  construct-IsBuilt s =
      let (ctx, s1) = O.ssl_ctx_new s in
      let (ssl, s2) = O.ssl_new ctx s1 in
      let s3 = O.ssl_set_mode ssl 1 s2 in
      let s4 = O.ssl_set_mode ssl 2 s3 in
      let (bios, s5) = O.bio_new_bio_pair 8192 8192 s4 in
      (
        L.set_bio_refs ssl bios.0 bios.0 ctx s5
            ∙ L.bio_pair_refs 8192 8192 ctx s4
            ∙ L.set_mode_refs ssl 2 ctx s3
            ∙ L.set_mode_refs ssl 1 ctx s2
            ∙ omega (arith, L.ssl_new_refs ctx s1, L.ctx_new_refs s),
        L.set_bio_context ssl bios.0 bios.0 ssl s5
            ∙ L.bio_pair_context 8192 8192 ssl s4
            ∙ L.set_mode_context ssl 2 ssl s3
            ∙ L.set_mode_context ssl 1 ssl s2
            ∙ L.ssl_new_context ctx s1,
      )

  destroy-refs :
      (self : SslContext) (s : O.State)
      → IsBuilt self s
      → Returns (λ _ s'. L.refs s' self.ctx ≡ 1) (destroy O self s)
  unfolding destroy
  destroy-refs self s (two, of_ctx) =
      let freed =
        L.ssl_free_refs self.ssl self.ctx (O.bio_free self.ext_bio s)
          (L.bio_free_context self.ext_bio self.ssl s ∙ of_ctx) in
      omega (arith, freed, L.bio_free_refs self.ext_bio self.ctx s)

  -- After the constructor and the destructor of the SSL context, both of which return, the
  -- SSL_CTX that the constructor made has one reference left: nothing frees it.
  pub destroy-construct :
      (s : O.State)
      → Returns
          (λ self s1. Returns (λ _ s2. L.refs s2 self.ctx ≡ 1) (destroy O self s1))
          (construct O s)
  destroy-construct s =
      Returns-mono IsBuilt (λ self s1. Returns (λ _ s2. L.refs s2 self.ctx ≡ 1) (destroy O self s1))
        (construct O s) (construct-IsBuilt s) destroy-refs
