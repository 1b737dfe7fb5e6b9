-- ===== src/Logger/Names.antt =====
-- src/logger.cpp: one logger for a name.
use librapid.Prelude.{
  ℕ, ◌≡◌, ◌≢◌, refl, sym, ◌∙◌, subst, Bool, true, false, Option-cases, inl, inr, none, some, List,
  codes,
}
use librapid.Outcome.{ok, M, pure, ◌>>◌}
use librapid.Outcome.Laws.{Returns, Returns-and_then, Returns-mono}
use librapid.Logger.{Spdlog, Log, get_logger, make_logger, configure, register_logger}

-- The registry of spdlog: a logger has the name that it was made with, a name without a logger can
-- be registered, and a registered logger is found.
pub record Registry (S : Spdlog) : Type 0 where
  pub name_of : S.State → ℕ → List ℕ
  pub async_name :
      (n sinks : List ℕ) (s : S.State)
      → name_of (S.make_async n sinks s).1 (S.make_async n sinks s).0 ≡ n
  pub sync_name :
      (n sinks : List ℕ) (s : S.State)
      → name_of (S.make_sync n sinks s).1 (S.make_sync n sinks s).0 ≡ n
  pub async_get :
      (n sinks m : List ℕ) (s : S.State) → S.get m (S.make_async n sinks s).1 ≡ S.get m s
  pub sync_get : (n sinks m : List ℕ) (s : S.State) → S.get m (S.make_sync n sinks s).1 ≡ S.get m s
  pub level_name : (l v k : ℕ) (s : S.State) → name_of (S.set_level l v s) k ≡ name_of s k
  pub level_get : (l v : ℕ) (m : List ℕ) (s : S.State) → S.get m (S.set_level l v s) ≡ S.get m s
  pub pattern_name :
      (l : ℕ) (p : List ℕ) (k : ℕ) (s : S.State) → name_of (S.set_pattern l p s) k ≡ name_of s k
  pub pattern_get : (l : ℕ) (p m : List ℕ) (s : S.State) → S.get m (S.set_pattern l p s) ≡ S.get m s
  pub flush_name : (l v k : ℕ) (s : S.State) → name_of (S.flush_on l v s) k ≡ name_of s k
  pub flush_get : (l v : ℕ) (m : List ℕ) (s : S.State) → S.get m (S.flush_on l v s) ≡ S.get m s
  pub register_free :
      (l : ℕ) (s : S.State) → S.get (name_of s l) s ≡ none → S.register_logger l s ≢ none
  pub register_get :
      (l : ℕ) (s s' : S.State) → S.register_logger l s ≡ some s' → S.get (name_of s l) s' ≡ some l

module _ (S : Spdlog) (L : Registry S) where
  -- A logger of this name that is not registered.
  abbrev IsNew : List ℕ → ℕ → Log S → Type 0
  IsNew name l (sinks, s) = (L.name_of s l ≡ name) × (S.get name s ≡ none)

  make_logger-IsNew :
      (name : List ℕ) (async_logging : Bool) (sinks : List ℕ) (s : S.State)
      → S.get name s ≡ none
      → Returns (IsNew name) (make_logger S name async_logging (sinks, s))
  unfolding make_logger
  make_logger-IsNew name true sinks s free =
      (L.async_name name sinks s, L.async_get name sinks name s ∙ free)
  make_logger-IsNew name false sinks s free =
      (L.sync_name name sinks s, L.sync_get name sinks name s ∙ free)

  configure-IsNew :
      (name : List ℕ) (l : ℕ) (sinks : List ℕ) (s : S.State)
      → IsNew name l (sinks, s)
      → Returns (λ _ w. IsNew name l w) (configure S l (sinks, s))
  unfolding configure
  configure-IsNew name l sinks s (named, free) =
      let p = codes "[%H:%M:%S.%e][%l][%n] %v" in
      let s1 = S.set_level l 1 s in
      let s2 = S.set_pattern l p s1 in
      (
        L.flush_name l 1 l s2 ∙ L.pattern_name l p l s1 ∙ L.level_name l 1 l s ∙ named,
        L.flush_get l 1 name s2 ∙ L.pattern_get l p name s1 ∙ L.level_get l 1 name s ∙ free,
      )

  register_logger-get :
      (name : List ℕ) (l : ℕ) (sinks : List ℕ) (s : S.State)
      → IsNew name l (sinks, s)
      → Returns (λ _ (w : Log S). S.get name w.1 ≡ some l) (register_logger S l (sinks, s))
  unfolding register_logger
  register_logger-get name l sinks s (named, free) = elim (Option-cases (S.register_logger l s)) [
    | inl refused ↦ absurd (L.register_free l s (rw named free) refused)
    | inr (s', done) ↦
        rw (done, register_logger)
          (subst (λ n. S.get n s' ≡ some l) named (L.register_get l s s' done))
  ]

  get_logger-known :
      (name : List ℕ) (async_logging : Bool) (l : ℕ) (sinks : List ℕ) (s : S.State)
      → S.get name s ≡ some l
      → get_logger S name async_logging (sinks, s) ≡ ok l (sinks, s)
  unfolding get_logger
  get_logger-known name async_logging l sinks s known = rw (known, get_logger) refl

  abbrev Gives : List ℕ → ℕ → Log S → Type 0
  Gives name l (sinks, s) = S.get name s ≡ some l

  -- What follows the making of a logger.
  abbrev settle : ℕ → M (Log S) ℕ
  settle l = configure S l >> (register_logger S l >> pure l)

  settle-Gives :
      (name : List ℕ) (l : ℕ) (w : Log S) → IsNew name l w → Returns (Gives name) (settle l w)
  settle-Gives name l (sinks, s) new =
      Returns-and_then (λ _. IsNew name l) (Gives name) (configure S l (sinks, s))
        (λ _. register_logger S l >> pure l) (configure-IsNew name l sinks s new)
        λ _ (sinks1, s1) new1.
          Returns-and_then (λ _. Gives name l) (Gives name) (register_logger S l (sinks1, s1))
            (λ _. pure l) (register_logger-get name l sinks1 s1 new1) λ _ _ got. got

  get_logger-Gives :
      (name : List ℕ) (async_logging : Bool) (sinks : List ℕ) (s : S.State)
      → Returns (Gives name) (get_logger S name async_logging (sinks, s))
  unfolding get_logger
  get_logger-Gives name async_logging sinks s = elim (Option-cases (S.get name s)) [
    | inr (l, known) ↦
        subst (Returns (Gives name)) (sym (get_logger-known name async_logging l sinks s known))
          known
    | inl free ↦
        rw (free, get_logger)
          (Returns-and_then (IsNew name) (Gives name) (make_logger S name async_logging (sinks, s))
            settle (make_logger-IsNew name async_logging sinks s free) (settle-Gives name))
  ]

  -- After getLogger of a name, which returns, getLogger of that name gives the same logger and
  -- changes nothing, whatever its flag and the sinks that were added in between.
  pub get_logger-again :
      (name : List ℕ) (async_logging : Bool) (sinks : List ℕ) (s : S.State)
      → Returns
          (λ l (w : Log S).
            (other : Bool) (later : List ℕ)
            → get_logger S name other (later, w.1) ≡ ok l (later, w.1))
          (get_logger S name async_logging (sinks, s))
  get_logger-again name async_logging sinks s =
      Returns-mono (Gives name) _ (get_logger S name async_logging (sinks, s))
        (get_logger-Gives name async_logging sinks s)
        λ l w known other later. get_logger-known name other l later w.1 known
