-- ===== src/Utils/Timeout.antt =====
-- The compressed timeouts of otlib/utils.c.
use libotfs.Prelude.{
  ℕ, zero, suc, ◌+◌, ◌-◌, ◌*◌, ◌/◌, ◌%◌, ◌^◌, ◌≤◌, ◌<◌, ◌≡◌, ◌∙◌, ◌⊎◌, inl, inr, refl, ap, Bool,
  true, false, ◌==◌, if◌then◌else◌, arith, ◌&&◌, ==_iff,
}
use native.Mathlib.Decide.{dec_le}
use libotfs.Utils.{calc_timeout, encode_timeout, encode_loop}

-- A test of every number below a bound.
all_below : ℕ → (ℕ → Bool) → Bool
all_below zero test = true
all_below (suc n) test = test n && all_below n test

below_all : (n : ℕ) (test : ℕ → Bool) (k : ℕ) → all_below n test ≡ true → k < n → test k ≡ true
unfolding all_below
below_all zero test k all lt = absurd (omega arith)
below_all (suc n) test k all lt = elim (dec_le n k) [
  | yes last ↦ ap test (both last) ∙ ground (arith, all)
  | no before ↦ below_all n test k (ground (arith, all)) (omega arith)
]
  where
    both : n ≤ k → k ≡ n
    both last = omega arith

-- What a 7-bit code stands for, without its masks.
expanded : ℕ → ℕ
expanded c = (c % 16 + (if c / 16 == 0 then 0 else 1)) * 4 ^ (c / 16)

calc_timeout-expanded : (c : ℕ) → c < 128 → calc_timeout c ≡ expanded c
unfolding calc_timeout expanded all_below
calc_timeout-expanded c small =
    (==_iff (calc_timeout c) (expanded c)).0
      (below_all 128 (λ k. calc_timeout k == expanded k) c refl small)

calc_code : (e t : ℕ) → 0 < e → e < 8 → 0 < t → t ≤ 16 → calc_timeout (16 * e + (t - 1)) ≡ t * 4 ^ e
unfolding expanded
calc_code e t pos_e small pos_t le =
    calc_timeout-expanded (16 * e + (t - 1)) (omega arith)
    ∙ rw (low, high, nonzero) (ap (λ x. x * 4 ^ e) whole)
  where
    low : (16 * e + (t - 1)) % 16 ≡ t - 1
    low = omega arith

    high : (16 * e + (t - 1)) / 16 ≡ e
    high = omega arith

    nonzero : (e == 0) ≡ false
    nonzero = ground arith

    whole : t - 1 + 1 ≡ t
    whole = omega arith

small_code : (c : ℕ) → c < 16 → calc_timeout c ≡ c
unfolding expanded
small_code c small = calc_timeout-expanded c (omega arith) ∙ rw (low, high) (omega arith)
  where
    low : c % 16 ≡ c
    low = omega arith

    high : c / 16 ≡ 0
    high = omega arith

encode_cases :
    (ticks : ℕ)
    → ticks < 2 ^ 16
    → (ticks < 16) × (encode_timeout ticks ≡ ticks)
      ⊎ (16 ≤ ticks) × (ticks / 4 ≤ 16) × (encode_timeout ticks ≡ 16 * 1 + (ticks / 4 - 1))
      ⊎ (16 < ticks / 4)
        × (ticks / 4 / 16 ≤ 16)
        × (encode_timeout ticks ≡ 16 * 3 + (ticks / 4 / 16 - 1))
      ⊎ (16 < ticks / 4 / 16)
        × (ticks / 4 / 16 / 16 ≤ 16)
        × (encode_timeout ticks ≡ 16 * 5 + (ticks / 4 / 16 / 16 - 1))
      ⊎ (16 < ticks / 4 / 16 / 16)
        × (ticks / 4 / 16 / 16 / 16 ≤ 16)
        × (encode_timeout ticks ≡ 16 * 7 + (ticks / 4 / 16 / 16 / 16 - 1))
unfolding encode_timeout encode_loop
encode_cases ticks fits = ground arith

-- The encoding of a timeout drops its lower bits: what it stands for is not above the timeout, and
-- more than half of it. Below 16 it is exact.
pub calc_timeout-encode_timeout :
    (ticks : ℕ)
    → ticks < 2 ^ 16
    → let t = calc_timeout (encode_timeout ticks) in
      (t ≤ ticks) × ((ticks < 2 * t) ⊎ (ticks < 16) × (t ≡ ticks))
calc_timeout-encode_timeout ticks fits = elim (encode_cases ticks fits) [
  | inl (small, e) ↦ rw (e, small_code ticks small) (omega arith, inr (small, refl))
  | inr (inl (a, b, e)) ↦
      rw (e, calc_code 1 (ticks / 4) (omega arith) (omega arith) (omega arith) b) (ground arith)
  | inr (inr (inl (a, b, e))) ↦
      rw (e, calc_code 3 (ticks / 4 / 16) (omega arith) (omega arith) (omega arith) b)
        (ground arith)
  | inr (inr (inr (inl (a, b, e)))) ↦
      rw (e, calc_code 5 (ticks / 4 / 16 / 16) (omega arith) (omega arith) (omega arith) b)
        (ground arith)
  | inr (inr (inr (inr (a, b, e)))) ↦
      rw (e, calc_code 7 (ticks / 4 / 16 / 16 / 16) (omega arith) (omega arith) (omega arith) b)
        (ground arith)
]
