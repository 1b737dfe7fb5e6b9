-- ===== src/Utility.antt =====
-- include/rapid/core/utility.h: getNanoTime. The rest of the file is in Connector.antt and
-- StackTrace.antt.
use librapid.Prelude.{ℕ, ◌+◌, ◌*◌, ◌/◌, ◌%◌, ◌^◌, ◌<◌, ◌≡◌, arith}

-- What gettimeofday(2) writes, after 1970.
pub record Timeval : Type 0 where
  pub tv_sec : ℕ
  pub tv_usec : ℕ

-- The sum is one of long, and it is cast to uint64_t.
unfoldable pub get_nano_time : {S : Type 0} → (gettimeofday : S → Timeval × S) → S → ℕ × S
get_nano_time gettimeofday s =
    let (tv, s') = gettimeofday s in ((tv.tv_sec * 1000 + tv.tv_usec / 1000) % 2 ^ 64, s')

-- Where the sum does not overflow, getNanoTime gives the time in whole milliseconds.
pub get_nano_time-milliseconds :
    {S : Type 0} (gettimeofday : S → Timeval × S) (s : S)
    → ((gettimeofday s).0).tv_sec * 1000 + 1000 < 2 ^ 63
    → ((gettimeofday s).0).tv_usec < 1000000
    → (get_nano_time gettimeofday s).0
      ≡ (((gettimeofday s).0).tv_sec * 1000000 + ((gettimeofday s).0).tv_usec) / 1000
unfolding get_nano_time
get_nano_time-milliseconds gettimeofday s small micro = omega arith
