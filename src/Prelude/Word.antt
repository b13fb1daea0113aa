-- ===== src/Prelude/Word.antt =====
-- Fixed-width integers as in include/otsys/types.h: casts, and the bytes of a word.
use Prim.Native.Nat.{ℕ, ◌+◌, ◌-◌, ◌/◌, ◌%◌, ◌^◌, ◌<◌, ◌≤◌}
use mathlib.Core.Path.{◌≡◌}
use native.Mathlib.Omega.{arith}
use libotfs.Prelude.Tests.{ltb, if◌then◌else◌}
use libotfs.Prelude.Int.{ℤ, pos, negsuc, sub_ℕ}

abbrev pub u8 : ℕ → ℕ
u8 n = n % 2 ^ 8

abbrev pub u16 : ℕ → ℕ
u16 n = n % 2 ^ 16

abbrev pub u32 : ℕ → ℕ
u32 n = n % 2 ^ 32

abbrev pub u64 : ℕ → ℕ
u64 n = n % 2 ^ 64

-- The integer that a 16-bit pattern stands for.
abbrev pub signed16 : ℕ → ℤ
signed16 w = if ltb w (2 ^ 15) then pos w else negsuc (2 ^ 16 - 1 - w)

-- `(ot_s16)z` and `(ot_u16)z`.
abbrev pub u16_of : ℤ → ℕ
u16_of (pos n) = n % 2 ^ 16
u16_of (negsuc n) = 2 ^ 16 - 1 - n % 2 ^ 16

abbrev pub s16 : ℤ → ℤ
s16 z = signed16 (u16_of z)

-- `p + z` for a pointer.
abbrev pub shift_by : ℕ → ℤ → ℕ
shift_by p (pos n) = p + n
shift_by p (negsuc n) = p - (n + 1)

-- Byte `k` of a word, the lowest first, as a little-endian union shows it.
abbrev pub byte : ℕ → ℕ → ℕ
byte k w = w / 256 ^ k % 256

pub s16_small : (n : ℕ) → n < 2 ^ 15 → s16 (pos n) ≡ pos n
s16_small n h = ground arith

-- A difference of pointers that fits is what C computes.
pub s16-sub_ℕ : (a b : ℕ) → b ≤ a → a - b < 2 ^ 15 → s16 (sub_ℕ a b) ≡ pos (a - b)
s16-sub_ℕ a b le fits = ground arith

pub u16_of-sub_ℕ : (a b : ℕ) → b ≤ a → a - b < 2 ^ 15 → u16_of (sub_ℕ a b) ≡ a - b
u16_of-sub_ℕ a b le fits = ground arith
