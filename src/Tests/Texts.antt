-- ===== src/Tests/Texts.antt =====
-- Runs of otlib/utils.c.
use libotfs.Prelude.{ℕ, ◌+◌, ◌*◌, ◌≤◌, ◌<◌, ◌≡◌, ◌≢◌, ◌⊎◌, arith, u8}
use libotfs.Prelude.Int.{pos, negsuc, neg_part}
use libotfs.Memory.{Memory, bytes}
use libotfs.Utils.{int2dec}
use libotfs.Utils.Decimal.{read_number, read_number-int2dec}

abbrev ram : Memory
ram x = u8 (x * 7)

-- The number -305.
read_number-int2dec_example :
    let (len, m') = int2dec 100 (negsuc 304) ram in
    (n : ℕ) × (len ≡ pos n)
    × (n ≤ 7)
    × (m' 100 ≡ 32)
    × (read_number (bytes m' 100 n) ≡ negsuc 304)
    × ((x : ℕ) → (x < 100) ⊎ (100 + n ≤ x) → m' x ≡ ram x)
    × ((x : ℕ)
        → 100 < x
        → x < 100 + n
        → (48 ≤ m' x) × (m' x < 58) ⊎ (x ≡ 100 + 1) × (m' x ≡ 45) × (neg_part (negsuc 304) ≢ 0))
read_number-int2dec_example = read_number-int2dec 100 (negsuc 304) ram (omega arith)
