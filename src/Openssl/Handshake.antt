-- ===== src/Openssl/Handshake.antt =====
-- src/openssl.cpp, handshake, with src/epollpoller.cpp: the channel stays in step with epoll.
use librapid.Prelude.{ℕ, ℤ, ◌≡◌, refl, sym, subst, Bool-cases, inl, inr, some, ◌==◌, ==_iff, arith}
use librapid.Kernel.{Kernel, EpollCtl}
use librapid.Outcome.{Outcome, ok, thrown, stuck, embed}
use librapid.Outcome.Laws.{Leaves}
use librapid.Channel.{Channel}
use librapid.World.{World, EventLoop, on_site, settle}
use librapid.Poller.{Site, enable_write, enable_read}
use librapid.Poller.Sync.{Call, enables_write, enables_read, perform, IsSynced, perform-IsSynced}
use librapid.Openssl.{Openssl, SslContext, Both, want_read, want_write, handshake}

module _ {K : Kernel} (L : EpollCtl K) (epfd : ℤ) (p : ℕ) where
  -- The channel at p is in step with the epoll instance.
  abbrev pub InStep : World K → Type 0
  InStep w = (c : Channel) × (w.channels p ≡ some c) × IsSynced K epfd L (c, w.kernel)

  settle-InStep :
      {A : Type 0} (w : World K) (r : Outcome (Site K epfd) A)
      → Leaves (IsSynced K epfd L) r
      → Leaves InStep (settle p w r)
  settle-InStep w (ok a (c, k)) h = (c, ground (arith, ==_iff p p), h)
  settle-InStep w (thrown e (c, k)) h = (c, ground (arith, ==_iff p p), h)
  settle-InStep w (stuck f) h = absurd h

  on_site-InStep :
      (m : Call) (w : World K) (c : Channel) (l : EventLoop)
      → w.channels p ≡ some c
      → w.loops c.loop ≡ some l
      → l.epollfd ≡ epfd
      → IsSynced K epfd L (c, w.kernel)
      → Leaves InStep (on_site p (λ ep. perform K ep m) w)
  unfolding on_site
  on_site-InStep m w c l is_channel is_loop same h =
      let run : on_site p (λ ep. perform K ep m) w ≡ settle p w (perform K epfd m (c, w.kernel)) =
        ground (arith, is_channel, is_loop, same) in
      subst (Leaves InStep) (sym run) (
        settle-InStep w (perform K epfd m (c, w.kernel))
          (perform-IsSynced K epfd L m (c, w.kernel) h))

module _ {K : Kernel} (L : EpollCtl K) (O : Openssl) where
  embed-InStep :
      (epfd : ℤ) (p : ℕ) (s : Both O K) (r : Outcome (World K) (Unit {0}))
      → Leaves (InStep L epfd p) r
      → Leaves (λ t. InStep L epfd p t.0) (embed (λ (s : Both O K) w. (w, s.1)) s r)
  embed-InStep epfd p s (ok a w) h = h
  embed-InStep epfd p s (thrown e w) h = h
  embed-InStep epfd p s (stuck f) h = absurd h

  -- handshake of an SSL context, whatever OpenSSL answers, leaves the channel in step with the
  -- epoll instance of its loop, whether it returns or throws.
  pub handshake-InStep :
      (self : SslContext) (p : ℕ) (w : World K) (o : O.State) (c : Channel) (l : EventLoop)
      → w.channels p ≡ some c
      → w.loops c.loop ≡ some l
      → IsSynced K l.epollfd L (c, w.kernel)
      → Leaves (λ t. InStep L l.epollfd p t.0) (handshake O self p (w, o))
  unfolding handshake perform
  handshake-InStep self p w o c l is_channel is_loop h =
      let (r, s2) = O.ssl_do_handshake self.ssl (O.ssl_set_accept_state self.ssl o) in
      let (e, s3) = O.ssl_get_error self.ssl r s2 in
      elim (Bool-cases (e == want_write)) [
        | inl wants ↦
            rw (wants, handshake)
              (embed-InStep l.epollfd p (w, s3) (on_site p (enable_write K) w)
                (on_site-InStep L l.epollfd p enables_write w c l is_channel is_loop refl h))
        | inr other ↦ elim (Bool-cases (e == want_read)) [
          | inl wants ↦
              rw (other, wants, handshake)
                (embed-InStep l.epollfd p (w, s3) (on_site p (enable_read K) w)
                  (on_site-InStep L l.epollfd p enables_read w c l is_channel is_loop refl h))
          | inr neither ↦ rw (other, neither, handshake) (c, is_channel, h)
        ]
      ]
