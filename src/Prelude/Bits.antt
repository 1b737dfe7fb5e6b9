-- ===== src/Prelude/Bits.antt =====
-- `&`, `|` and `^` at variables: the law for the lowest digit, and the masks of one bit.
use Prim.Native.Nat.{
  ℕ, zero, suc, ◌+◌, ◌*◌, ◌/◌, ◌%◌, ◌^◌, ◌<◌, ◌≤◌, min, bit_and, bit_xor, digits, bitwise, differ,
  bit_and-bitwise, bit_xor-bitwise,
}
use mathlib.Core.Path.{◌≡◌, refl, ap}
use native.Mathlib.Nat.{pow-suc}
use native.Mathlib.Omega.{arith}

-- The native `&` and `^` go through the digits of the first number; any fuel from that number on
-- gives the same.
module _ (rest : ℕ → ℕ) (digit : ℕ → ℕ → ℕ) where
  drop_fuel : (b a m n : ℕ) → (a ≤ m) × (a ≤ n) → digits rest digit m a b ≡ digits rest digit n a b
  drop_fuel b zero zero zero h = refl
  drop_fuel b zero zero (suc n) h = refl
  drop_fuel b zero (suc m) zero h = refl
  drop_fuel b zero (suc m) (suc n) h = refl
  drop_fuel b (suc a) zero n h = absurd (omega arith)
  drop_fuel b (suc a) (suc m) zero h = absurd (omega arith)
  drop_fuel b (suc a) (suc m) (suc n) h =
      ap (λ high. high * 2 + digit (suc a % 2) (b % 2))
        (drop_fuel (b / 2) (suc a / 2) m n (omega arith, omega arith))

  lowest_digit :
      (b a : ℕ)
      → bitwise rest digit (suc a) b
        ≡ bitwise rest digit (suc a / 2) (b / 2) * 2 + digit (suc a % 2) (b % 2)
  lowest_digit b a =
      ap (λ high. high * 2 + digit (suc a % 2) (b % 2))
        (drop_fuel (b / 2) (suc a / 2) a (suc a / 2) (omega arith, omega arith))

pub bit_and_step :
    (mask e : ℕ) → bit_and mask e ≡ bit_and (mask / 2) (e / 2) * 2 + min (mask % 2) (e % 2)
bit_and_step zero e = simp bit_and-bitwise (omega arith)
bit_and_step (suc m) e = simp bit_and-bitwise (lowest_digit (λ y. 0) min e m)

pub zero-bit_and : (b : ℕ) → bit_and 0 b ≡ 0
zero-bit_and b = simp bit_and-bitwise

bit_and-zero_below : (e n : ℕ) → e < suc n → bit_and e 0 ≡ 0
bit_and-zero_below zero n h = zero-bit_and 0
bit_and-zero_below (suc e) zero h = absurd (omega arith)
bit_and-zero_below (suc e) (suc n) h =
    let half = bit_and-zero_below (suc e / 2) n (omega arith) in
    omega (arith, bit_and_step (suc e) 0, half)

pub bit_and-zero : (e : ℕ) → bit_and e 0 ≡ 0
bit_and-zero e = bit_and-zero_below e e (omega arith)

-- The four masks that the program tests an event by, as binary digits.
pub bit_and_one : (a : ℕ) → bit_and a 1 ≡ a % 2
bit_and_one a = omega (arith, bit_and_step a 1, bit_and-zero (a / 2))

pub bit_and_four : (a : ℕ) → bit_and a 4 ≡ a / 4 % 2 * 4
bit_and_four a = omega (arith, bit_and_step a 4, bit_and_step (a / 2) 2, bit_and_one (a / 2 / 2))

pub bit_and_sixteen : (a : ℕ) → bit_and a 16 ≡ a / 16 % 2 * 16
bit_and_sixteen a =
    omega (arith, bit_and_step a 16, bit_and_step (a / 2) 8, bit_and_four (a / 2 / 2))

bit_and_256 : (a : ℕ) → bit_and a 256 ≡ a / 256 % 2 * 256
bit_and_256 a = omega (
  arith,
  bit_and_step a 256,
  bit_and_step (a / 2) 128,
  bit_and_step (a / 2 / 2) 64,
  bit_and_step (a / 2 / 2 / 2) 32,
  bit_and_sixteen (a / 2 / 2 / 2 / 2),
)

bit_and_2048 : (a : ℕ) → bit_and a 2048 ≡ a / 2048 % 2 * 2048
bit_and_2048 a = omega (
  arith,
  bit_and_step a 2048,
  bit_and_step (a / 2) 1024,
  bit_and_step (a / 2 / 2) 512,
  bit_and_256 (a / 2 / 2 / 2),
)

pub bit_and_8195 : (a : ℕ) → bit_and a 0x2003 ≡ a % 2 + a / 2 % 2 * 2 + a / 0x2000 % 2 * 0x2000
bit_and_8195 a =
    omega (arith, bit_and_step a 0x2003, bit_and_step (a / 2) 0x1001, bit_and_2048 (a / 2 / 2))

pub bit_xor_step :
    (seed x : ℕ) → bit_xor seed x ≡ bit_xor (seed / 2) (x / 2) * 2 + differ (seed % 2) (x % 2)
bit_xor_step zero x = simp bit_xor-bitwise (omega arith)
bit_xor_step (suc s) x = simp bit_xor-bitwise (lowest_digit (λ y. y) differ x s)

differ-le : (a b : ℕ) → a < 2 → b < 2 → differ a b ≤ 1
differ-le zero b h k = omega arith
differ-le (suc zero) zero h k = omega arith
differ-le (suc zero) (suc b) h k = omega arith
differ-le (suc (suc a)) b h k = absurd (omega arith)

-- `^` of two words is a word.
pub bit_xor-lt : (k a b : ℕ) → a < 2 ^ k → b < 2 ^ k → bit_xor a b < 2 ^ k
bit_xor-lt zero zero zero p q = omega (arith, bit_xor_step 0 0)
bit_xor-lt zero zero (suc b) p q = absurd (omega arith)
bit_xor-lt zero (suc a) b p q = absurd (omega arith)
bit_xor-lt (suc k) a b p q = omega (
  arith,
  pow-suc 2 k,
  bit_xor_step a b,
  differ-le (a % 2) (b % 2) (omega arith) (omega arith),
  bit_xor-lt k (a / 2) (b / 2) (omega (arith, pow-suc 2 k)) (omega (arith, pow-suc 2 k)),
)

differ-cancel : (s x y : ℕ) → s < 2 → x < 2 → y < 2 → differ s x ≡ differ s y → x ≡ y
differ-cancel zero x y hs hx hy e = e
differ-cancel (suc zero) zero zero hs hx hy e = refl
differ-cancel (suc zero) zero (suc y) hs hx hy e = omega arith
differ-cancel (suc zero) (suc x) zero hs hx hy e = omega arith
differ-cancel (suc zero) (suc x) (suc y) hs hx hy e = omega arith
differ-cancel (suc (suc s)) x y hs hx hy e = absurd (omega arith)

-- `^` with a word loses nothing.
pub bit_xor-cancel :
    (k s x y : ℕ) → s < 2 ^ k → x < 2 ^ k → y < 2 ^ k → bit_xor s x ≡ bit_xor s y → x ≡ y
bit_xor-cancel zero s x y hs hx hy e = omega arith
bit_xor-cancel (suc k) s x y hs hx hy e =
    let dx = differ-le (s % 2) (x % 2) (omega arith) (omega arith) in
    let dy = differ-le (s % 2) (y % 2) (omega arith) (omega arith) in
    let low =
      differ-cancel (s % 2) (x % 2) (y % 2) (omega arith) (omega arith) (omega arith)
        (omega (arith, bit_xor_step s x, bit_xor_step s y)) in
    let high =
      bit_xor-cancel k (s / 2) (x / 2) (y / 2) (omega (arith, pow-suc 2 k))
        (omega (arith, pow-suc 2 k)) (omega (arith, pow-suc 2 k))
        (omega (arith, bit_xor_step s x, bit_xor_step s y)) in
    omega arith
