-- ===== src/Prelude/Bits.antt =====
-- `x | y` where the bits of `y` lie below those of `x` is a sum.
use Prim.Native.Nat.{
  ℕ, zero, suc, ◌+◌, ◌*◌, ◌/◌, ◌%◌, ◌^◌, ◌≤◌, ◌<◌, max, min, bit_or, bit_and, digits,
  bit_or-bitwise, bit_and-bitwise,
}
use mathlib.Core.Path.{◌≡◌, refl, ap}
use native.Mathlib.Nat.{pow-suc}
use native.Mathlib.Omega.{arith}

-- The native operation goes through the digits with its first argument for fuel; any fuel that is
-- not below that argument gives the same.
abbrev or_digits : ℕ → ℕ → ℕ → ℕ
or_digits fuel a b = digits (λ b. b) max fuel a b

or_digits_less : (f g a b : ℕ) → a ≤ f → a ≤ g → or_digits f a b ≡ or_digits g a b
or_digits_less zero zero a b h k = refl
or_digits_less zero (suc g) zero b h k = refl
or_digits_less zero (suc g) (suc a) b h k = absurd (omega arith)
or_digits_less (suc f) zero zero b h k = refl
or_digits_less (suc f) zero (suc a) b h k = absurd (omega arith)
or_digits_less (suc f) (suc g) zero b h k = refl
or_digits_less (suc f) (suc g) (suc a) b h k =
    omega (arith, or_digits_less f g (suc a / 2) (b / 2) (omega arith) (omega arith))

-- One binary digit at a time.
pub bit_or_halves : (a b : ℕ) → bit_or a b ≡ bit_or (a / 2) (b / 2) * 2 + max (a % 2) (b % 2)
bit_or_halves zero b = omega (arith, bit_or-bitwise 0 b, bit_or-bitwise 0 (b / 2))
bit_or_halves (suc a) b = omega (
  arith,
  bit_or-bitwise (suc a) b,
  bit_or-bitwise (suc a / 2) (b / 2),
  or_digits_less a (suc a / 2) (suc a / 2) (b / 2) (omega arith) (omega arith),
)

bit_or_zero_below : (n a : ℕ) → a ≤ n → bit_or a 0 ≡ a
bit_or_zero_below n zero h = refl
bit_or_zero_below zero (suc a) h = absurd (omega arith)
bit_or_zero_below (suc n) (suc a) h =
    omega (arith, bit_or_halves (suc a) 0, bit_or_zero_below n (suc a / 2) (omega arith))

pub bit_or-zero : (a : ℕ) → bit_or a 0 ≡ a
bit_or-zero a = bit_or_zero_below a a (omega arith)

-- `(q << k) | r` is `q * 2 ^ k + r` if `r` has at most `k` bits.
pub bit_or_low : (k q r : ℕ) → r < 2 ^ k → bit_or (q * 2 ^ k) r ≡ q * 2 ^ k + r
bit_or_low zero q r h = ground (arith, bit_or-zero q)
bit_or_low (suc k) q r h = ground (
  arith,
  bit_or_halves (q * 2 ^ suc k) r,
  twice,
  pow-suc 2 k,
  bit_or_low k q (r / 2) (omega (arith, pow-suc 2 k)),
)
  where
    twice : q * 2 ^ suc k ≡ 2 * (q * 2 ^ k)
    twice = omega (arith, ap (λ (t : ℕ). q * t) (pow-suc 2 k))

-- `x & 0`, by the digits of `x`.
and_digits_zero : (f a : ℕ) → digits (λ c. 0) min f a 0 ≡ 0
and_digits_zero zero a = refl
and_digits_zero (suc f) zero = refl
and_digits_zero (suc f) (suc a) = omega (arith, and_digits_zero f (suc a / 2))

pub bit_and-zero : (a : ℕ) → bit_and a 0 ≡ 0
bit_and-zero a = omega (arith, bit_and-bitwise a 0, and_digits_zero a a)

pub zero-bit_and : (a : ℕ) → bit_and 0 a ≡ 0
zero-bit_and a = omega (arith, bit_and-bitwise 0 a)
