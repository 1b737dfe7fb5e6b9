-- ===== src/Openssl/Transfer.antt =====
-- src/openssl.cpp: what the results of read and write tell of those of SSL_read and SSL_write.
use librapid.Prelude.{
  ℕ, zero, suc, ℤ, pos, negsuc, ◌≡◌, Bool, false, not, ◌&&◌, ◌||◌, ◌==◌, leb, if◌then◌else◌, List,
  arith,
}
use librapid.Outcome.Laws.{Returns}
use librapid.Openssl.{Openssl, SslContext, want_read, is_negative, to_int, read, write}

-- What became of a transfer: bytes went over, it is to be tried again, or the connection is over.
pub data Verdict : Type 0 where
  progress : ℕ → Verdict
  again : Verdict
  over : Verdict

-- The errors after which SSL_get_error(3) has the call made again: SSL_ERROR_WANT_READ and
-- WANT_WRITE, 2 and 3, WANT_X509_LOOKUP, 4, WANT_CONNECT and WANT_ACCEPT, 7 and 8, WANT_ASYNC and
-- WANT_ASYNC_JOB, 9 and 10, and WANT_CLIENT_HELLO_CB, 11.
abbrev pub retries : ℕ → Bool
retries error = (leb 2 error && leb error 4) || (leb 7 error && leb error 11)

-- By the documentation of SSL_get_error(3).
abbrev pub documented : ℤ → ℕ → Verdict
documented (pos (suc n)) error = progress (suc n)
documented (pos zero) error = if retries error then again else over
documented (negsuc n) error = if retries error then again else over

-- By the result that the wrapper gives, where 0 is the end of the connection.
abbrev pub told : ℤ → Verdict
told (pos (suc n)) = progress (suc n)
told (pos zero) = over
told (negsuc n) = again

module _ (O : Openssl) (self : SslContext) (len : ℕ) (s : O.State) where
  abbrev pub read_result : ℤ
  read_result = (O.ssl_read self.ssl (to_int len) s).0.0

  abbrev pub read_error : ℕ
  read_error = (O.ssl_get_error self.ssl read_result (O.ssl_read self.ssl (to_int len) s).1).0

  -- The result of SSLContext read tells its caller what SSL_get_error(3) documents of the
  -- SSL_read (so many bytes, to be tried again, or over), except that a negative one that is to
  -- be tried again for another reason than a read counts as over, provided that an SSL_read of 0
  -- is not to be tried again.
  pub read-told :
      (read_result ≡ pos 0 → retries read_error ≡ false)
      → Returns
          (λ a _. told a.0 ≡ (
            if is_negative read_result && retries read_error && not (read_error == want_read)
            then over
            else documented read_result read_error))
          (read O self len s)
  unfolding read
  read-told h = ground arith

module _ (O : Openssl) (self : SslContext) (message : List ℕ) (len : ℕ) (s : O.State) where
  abbrev pub write_result : ℤ
  write_result = (O.ssl_write self.ssl message (to_int len) s).0

  abbrev pub write_error : ℕ
  write_error =
      (O.ssl_get_error self.ssl write_result (O.ssl_write self.ssl message (to_int len) s).1).0

  -- The result of SSLContext write tells its caller what SSL_get_error(3) documents of the
  -- SSL_write (so many bytes, to be tried again, or over), except that a negative one that is to
  -- be tried again for another reason than a read counts as over, provided that an SSL_write of
  -- 0 is not to be tried again.
  pub write-told :
      (write_result ≡ pos 0 → retries write_error ≡ false)
      → Returns
          (λ a _. told a ≡ (
            if is_negative write_result && retries write_error && not (write_error == want_read)
            then over
            else documented write_result write_error))
          (write O self message len s)
  unfolding write
  write-told h = ground arith
