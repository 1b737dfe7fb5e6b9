-- ===== src/Acceptor/Leaks.antt =====
-- src/acceptor.cpp, bindAddress: which descriptors its loop leaves open.
use librapid.Prelude.{
  ℤ, pos, minus_one, ◌≡◌, refl, subst, ◌∙◌, Bool, Bool-cases, inl, inr, true, false, ◌&&◌, List, [],
  ◌∷◌, arith, int_eq, int_eq_iff, if◌then◌else◌,
}
use librapid.Kernel.{Kernel, SockAddr, Descriptors}
use librapid.Outcome.{Outcome, ok, thrown, stuck, assert_failed}
use librapid.World.{World}
use librapid.Acceptor.{is_fd, sys_socket, sys_bind, sys_close, sys_reuse_addr, drop_fd, bind_first}

module _ {K : Kernel} (D : Descriptors K) where
  -- f is open afterwards if it is the result, or was open before.
  abbrev pub Accounts : Bool → ℤ → Outcome (World K) ℤ → Type 0
  Accounts before f (ok fd w) =
      D.is_open w.kernel f ≡ (if is_fd fd && int_eq f fd then true else before)
  Accounts before f (thrown e w) = D.is_open w.kernel f ≡ before
  Accounts before f (stuck x) = ⊥

  module _ (a : SockAddr) (rest : List SockAddr) (w : World K) where
    abbrev tried : ℤ
    tried = (K.socket w.kernel).0

    abbrev prepared : K.State
    prepared = (K.set_reuse_addr tried (K.set_reuse_addr tried (K.socket w.kernel).1).1).1

    abbrev bound : ℤ × K.State
    bound = K.bind tried a prepared

    bound-is_open : (f : ℤ) → D.is_open bound.1 f ≡ D.is_open (K.socket w.kernel).1 f
    bound-is_open f =
        D.bind_keeps tried a prepared f
        ∙ D.set_reuse_addr_keeps tried (K.set_reuse_addr tried (K.socket w.kernel).1).1 f
        ∙ D.set_reuse_addr_keeps tried (K.socket w.kernel).1 f

    -- A socket that was made and closed leaves everything as it was.
    closed-is_open :
        int_eq tried minus_one ≡ false
        → (f : ℤ) → D.is_open (K.close tried bound.1) f ≡ D.is_open w.kernel f
    closed-is_open valid f = ground (
      arith,
      D.closed tried bound.1 f,
      bound-is_open f,
      D.socket_made w.kernel valid f,
      D.socket_new w.kernel valid,
      int_eq_iff f tried,
    )

    bind_first-next :
        int_eq tried minus_one ≡ false
        → int_eq bound.0 (pos 0) ≡ false
        → bind_first (a ∷ rest) w ≡ bind_first rest (record w { kernel = K.close tried bound.1 })
    unfolding bind_first sys_socket sys_reuse_addr sys_bind drop_fd sys_close
    bind_first-next valid bad = ground arith

    bind_first-bound :
        int_eq tried minus_one ≡ false
        → int_eq bound.0 (pos 0) ≡ true
        → bind_first (a ∷ rest) w ≡ ok tried (record w { kernel = bound.1 })
    unfolding bind_first sys_socket sys_reuse_addr sys_bind
    bind_first-bound valid good = ground arith

    bind_first-no_socket :
        int_eq tried minus_one ≡ true
        → bind_first (a ∷ rest) w
          ≡ thrown
              (assert_failed "socket() return fail!")
              (record w { kernel = (K.socket w.kernel).1 })
    unfolding bind_first sys_socket
    bind_first-no_socket bad = ground arith

    bound-Accounts :
        int_eq tried minus_one ≡ false
        → (f : ℤ) → Accounts (D.is_open w.kernel f) f (ok tried (record w { kernel = bound.1 }))
    bound-Accounts valid f = ground (arith, bound-is_open f, D.socket_made w.kernel valid f)

  -- The loop of Acceptor::bindAddress leaks no descriptor: after it, whether it returned or
  -- threw, a descriptor is open exactly if it is the valid result or was open before.
  pub bind_first-Accounts :
      (addresses : List SockAddr) (w : World K) (f : ℤ)
      → Accounts (D.is_open w.kernel f) f (bind_first addresses w)
  bind_first-Accounts [] w f = unfold bind_first in refl
  bind_first-Accounts (a ∷ rest) w f = elim (Bool-cases (int_eq (tried a rest w) minus_one)) [
    | inl bad ↦ rw (bind_first-no_socket a rest w bad) (D.socket_failed w.kernel bad f)
    | inr valid ↦ elim (Bool-cases (int_eq (bound a rest w).0 (pos 0))) [
      | inl good ↦ rw (bind_first-bound a rest w valid good) (bound-Accounts a rest w valid f)
      | inr refused ↦ rw (bind_first-next a rest w valid refused) (
          subst
            (λ b.
              Accounts b f (
                bind_first rest
                  (record w { kernel = K.close (tried a rest w) (bound a rest w).1 })))
            (closed-is_open a rest w valid f)
            (bind_first-Accounts rest
              (record w { kernel = K.close (tried a rest w) (bound a rest w).1 }) f))
    ]
  ]
