-- ===== src/Utils/Hex.antt =====
-- The text of binary data of otlib/utils.c.
use libotfs.Prelude.{
  ℕ, zero, suc, ◌+◌, ◌-◌, ◌*◌, ◌/◌, ◌%◌, ◌^◌, ◌≤◌, ◌<◌, ◌≡◌, ◌∙◌, ◌⊎◌, inl, refl, ap, ltb,
  if◌then◌else◌, arith, s16_small,
}
use libotfs.Memory.{Memory, store}
use libotfs.Utils.{hexlut, hex_loop, bin2hex}
use libotfs.Prelude.Int.{pos}

-- The digit that a character stands for.
abbrev digit : ℕ → ℕ
digit c = if ltb c 58 then c - 48 else c - 55

hex_loop_outside :
    (n dst src x : ℕ) (m : Memory) → (x < dst) ⊎ (dst + 2 * n ≤ x) → hex_loop n dst src m x ≡ m x
unfolding hex_loop
hex_loop_outside zero dst src x m out = refl
hex_loop_outside (suc n) dst src x m out =
    hex_loop_outside n (dst + 2) (src + 1) x
      (store (store m dst (hexlut (m src / 16))) (dst + 1)
        (hexlut (store m dst (hexlut (m src / 16)) src % 16)))
      (ground arith)
    ∙ ground arith

digit-hexlut : (d : ℕ) → d < 16 → digit (hexlut d) ≡ d
unfolding hexlut
digit-hexlut d small = ground arith

-- The two characters of the octet `k`, where the text does not run into what is still to be read.
hex_loop_inside :
    (n dst src k : ℕ) (m : Memory)
    → (dst + 2 * n ≤ src) ⊎ (src + n ≤ dst)
    → k < n
    → (hex_loop n dst src m (dst + 2 * k) ≡ hexlut (m (src + k) / 16))
      × (hex_loop n dst src m (dst + 2 * k + 1) ≡ hexlut (m (src + k) % 16))
unfolding hex_loop
hex_loop_inside zero dst src k m apart lt = absurd (omega arith)
hex_loop_inside (suc n) dst src zero m apart lt =
    let m2 =
      store (store m dst (hexlut (m src / 16))) (dst + 1)
        (hexlut (store m dst (hexlut (m src / 16)) src % 16)) in
    (
      hex_loop_outside n (dst + 2) (src + 1) (dst + 2 * 0) m2 (inl (omega arith)) ∙ ground arith,
      hex_loop_outside n (dst + 2) (src + 1) (dst + 2 * 0 + 1) m2 (inl (omega arith))
          ∙ ground arith,
    )
hex_loop_inside (suc n) dst src (suc k) m apart lt =
    let m2 =
      store (store m dst (hexlut (m src / 16))) (dst + 1)
        (hexlut (store m dst (hexlut (m src / 16)) src % 16)) in
    let later = hex_loop_inside n (dst + 2) (src + 1) k m2 (omega arith) (omega arith) in
    (
      ap (hex_loop n (dst + 2) (src + 1) m2) (omega arith)
          ∙ later.0
          ∙ ap (λ c. hexlut (c / 16)) (ground arith),
      ap (hex_loop n (dst + 2) (src + 1) m2) (omega arith)
          ∙ later.1
          ∙ ap (λ c. hexlut (c % 16)) (ground arith),
    )

-- `otutils_bin2hex` to a place of its own returns the number of characters; the digits of the two
-- characters of each octet give the octet back.
digit-bin2hex :
    (dst src n k : ℕ) (m : Memory)
    → (dst + 2 * n ≤ src) ⊎ (src + n ≤ dst)
    → n < 2 ^ 14
    → k < n
    → m (src + k) < 256
    → let (written, m') = bin2hex dst src n m in
      (written ≡ pos (n * 2))
      × (digit (m' (dst + 2 * k)) * 16 + digit (m' (dst + 2 * k + 1)) ≡ m (src + k))
unfolding bin2hex
digit-bin2hex dst src n k m apart fits lt small =
    let h = hex_loop_inside n dst src k m apart lt in
    (
      s16_small (n * 2) (omega arith),
      rw
          (
            h.0,
            h.1,
            digit-hexlut (m (src + k) / 16) (omega arith),
            digit-hexlut (m (src + k) % 16) (omega arith),
          )
          (omega arith),
    )
