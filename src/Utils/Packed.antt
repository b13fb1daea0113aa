-- ===== src/Utils/Packed.antt =====
-- platform/c2000/otlib_utils.c: octets, one in each 16-bit unit, are packed two to a unit. A memory
-- has units of 16 bits here.
use libotfs.Prelude.{
  ℕ, zero, suc, ◌+◌, ◌*◌, ◌/◌, ◌%◌, ◌^◌, ◌≤◌, ◌<◌, ◌≡◌, ◌≢◌, ◌∙◌, ◌⊎◌, inl, refl, ap, bit_or, u16,
  ◌==◌, if◌then◌else◌, arith,
}
use mathlib.Core.Path.{ap₂}
use native.Mathlib.Decide.{dec_le}
use libotfs.Prelude.Bits.{bit_or_low}
use libotfs.Memory.{Memory, store}

-- The loop of `otutils_pack2` over `n` pairs.
unfoldable pub pack_loop : ℕ → ℕ → ℕ → Memory → Memory
pack_loop zero dst src m = m
pack_loop (suc n) dst src m =
    let m1 = store m dst (u16 (m src * 256)) in
    let m2 = store m1 dst (bit_or (m1 dst) (m1 (src + 1) % 256)) in
    pack_loop n (dst + 1) (src + 2) m2

unfoldable pub pack2 : ℕ → ℕ → ℕ → Memory → Memory
unfolding pack_loop
pack2 dst src size m =
    let m' = pack_loop (size / 2) dst src m in
    if size % 2 == 0 then m' else store m' (dst + size / 2) (u16 (m' (src + 2 * (size / 2)) * 256))

-- The loop of `otutils_unpack2` over `n` pairs.
unfoldable pub unpack_loop : ℕ → ℕ → ℕ → Memory → Memory
unpack_loop zero dst src m = m
unpack_loop (suc n) dst src m =
    let m1 = store m dst (m src / 256 % 256) in
    let m2 = store m1 (dst + 1) (m1 src % 256) in unpack_loop n (dst + 2) (src + 1) m2

unfoldable pub unpack2 : ℕ → ℕ → ℕ → Memory → Memory
unfolding unpack_loop
unpack2 dst src size m =
    let m' = unpack_loop (size / 2) dst src m in
    if size % 2 == 0 then m' else store m' (dst + 2 * (size / 2)) (m' (src + size / 2) / 256 % 256)

pack_outside :
    (n dst src x : ℕ) (m : Memory) → (x < dst) ⊎ (dst + n ≤ x) → pack_loop n dst src m x ≡ m x
unfolding pack_loop
pack_outside zero dst src x m out = refl
pack_outside (suc n) dst src x m out =
    pack_outside n (dst + 1) (src + 2) x _ (omega (arith, out)) ∙ ground (arith, out)

unpack_outside :
    (n dst src x : ℕ) (m : Memory) → (x < dst) ⊎ (dst + 2 * n ≤ x) → unpack_loop n dst src m x ≡ m x
unfolding unpack_loop
unpack_outside zero dst src x m out = refl
unpack_outside (suc n) dst src x m out =
    unpack_outside n (dst + 2) (src + 1) x _ (omega (arith, out)) ∙ ground (arith, out)

-- The memory after a turn.
abbrev pair : Memory → ℕ → ℕ → Memory
pair m dst src =
    let m1 = store m dst (u16 (m src * 256)) in store m1 dst (bit_or (m1 dst) (m1 (src + 1) % 256))

pair_here :
    (m : Memory) (dst src : ℕ)
    → m src < 256
    → m (src + 1) < 256
    → dst ≢ src + 1
    → pair m dst src dst ≡ m src * 256 + m (src + 1)
pair_here m dst src a b other =
    ground arith ∙ ap₂ bit_or upper lower ∙ bit_or_low 8 (m src) (m (src + 1)) b
  where
    upper : u16 (m src * 256) ≡ m src * 2 ^ 8
    upper = omega (arith, a)

    lower : m (src + 1) % 256 ≡ m (src + 1)
    lower = omega (arith, b)

upper_octet : (x y : ℕ) → x < 256 → y < 256 → (x * 256 + y) / 256 % 256 ≡ x
upper_octet x y a b = omega (arith, a, b)

lower_octet : (x y : ℕ) → y < 256 → (x * 256 + y) % 256 ≡ y
lower_octet x y b = omega (arith, b)

-- The unit `k` has the upper octet from the first one of its pair, and the lower from the second.
pack_inside :
    (n dst src k : ℕ) (m : Memory)
    → (dst + n ≤ src) ⊎ (src + 2 * n ≤ dst)
    → ((j : ℕ) → j < 2 * n → m (src + j) < 256)
    → k < n
    → (pack_loop n dst src m (dst + k) / 256 % 256 ≡ m (src + 2 * k))
      × (pack_loop n dst src m (dst + k) % 256 ≡ m (src + 2 * k + 1))
unfolding pack_loop
pack_inside zero dst src k m apart small lt = absurd (omega arith)
pack_inside (suc n) dst src zero m apart small lt =
    let a : m src < 256 = ground (arith, small 0 (omega arith)) in
    let b = small 1 (omega arith) in
    let whole =
      pack_outside n (dst + 1) (src + 2) dst (pair m dst src) (inl (omega arith))
      ∙ pair_here m dst src a b (λ e. omega (arith, apart, e)) in
    let at : pack_loop n (dst + 1) (src + 2) (pair m dst src) (dst + 0)
        ≡ m src * 256 + m (src + 1) =
      ap (pack_loop n (dst + 1) (src + 2) (pair m dst src)) (omega arith) ∙ whole in
    (
      ap (λ c. c / 256 % 256) at ∙ upper_octet (m src) (m (src + 1)) a b ∙ ground arith,
      ap (λ c. c % 256) at ∙ lower_octet (m src) (m (src + 1)) b ∙ ground arith,
    )
pack_inside (suc n) dst src (suc k) m apart small lt =
    let later =
      pack_inside n (dst + 1) (src + 2) k (pair m dst src) (omega (arith, apart))
        (λ j lt. ground (arith, apart, small (j + 2) (omega arith))) (omega arith) in
    (
      ap (λ a. pack_loop n (dst + 1) (src + 2) (pair m dst src) a / 256 % 256) (omega arith)
          ∙ later.0
          ∙ ground (arith, apart, lt),
      ap (λ a. pack_loop n (dst + 1) (src + 2) (pair m dst src) a % 256) (omega arith)
          ∙ later.1
          ∙ ground (arith, apart, lt),
    )

-- The two octets of the unit `k`.
unpack_inside :
    (n dst src k : ℕ) (m : Memory)
    → (dst + 2 * n ≤ src) ⊎ (src + n ≤ dst)
    → k < n
    → (unpack_loop n dst src m (dst + 2 * k) ≡ m (src + k) / 256 % 256)
      × (unpack_loop n dst src m (dst + 2 * k + 1) ≡ m (src + k) % 256)
unfolding unpack_loop
unpack_inside zero dst src k m apart lt = absurd (omega arith)
unpack_inside (suc n) dst src zero m apart lt =
    let m2 =
      store (store m dst (m src / 256 % 256)) (dst + 1)
        (store m dst (m src / 256 % 256) src % 256) in
    (
      unpack_outside n (dst + 2) (src + 1) (dst + 2 * 0) m2 (inl (omega arith)) ∙ ground arith,
      unpack_outside n (dst + 2) (src + 1) (dst + 2 * 0 + 1) m2 (inl (omega arith))
          ∙ ground (arith, apart),
    )
unpack_inside (suc n) dst src (suc k) m apart lt =
    let m2 =
      store (store m dst (m src / 256 % 256)) (dst + 1)
        (store m dst (m src / 256 % 256) src % 256) in
    let later = unpack_inside n (dst + 2) (src + 1) k m2 (omega (arith, apart)) (omega arith) in
    let kept : m2 (src + 1 + k) ≡ m (src + suc k) = ground (arith, apart, lt) in
    (
      ap (unpack_loop n (dst + 2) (src + 1) m2) (omega arith)
          ∙ later.0
          ∙ ap (λ c. c / 256 % 256) kept,
      ap (unpack_loop n (dst + 2) (src + 1) m2) (omega arith) ∙ later.1 ∙ ap (λ c. c % 256) kept,
    )

unpack2-at :
    (back dst size k : ℕ) (m : Memory)
    → (back + size ≤ dst) ⊎ (dst + (size + 1) / 2 ≤ back)
    → k < size
    → unpack2 back dst size m (back + k)
      ≡ (if k % 2 == 0 then m (dst + k / 2) / 256 % 256 else m (dst + k / 2) % 256)
unfolding unpack2
unpack2-at back dst size k m apart lt = elim (dec_le (2 * (size / 2)) k) [
  | yes last ↦
      let half : k / 2 ≡ size / 2 = omega arith in
      let same = unpack_outside (size / 2) back dst (dst + size / 2) m (omega (arith, apart)) in
      ground (arith, last, same, ap (λ j. m (dst + j)) half)
  | no pairs ↦
      let (upper, lower) =
        unpack_inside (size / 2) back dst (k / 2) m (omega (arith, apart)) (omega (arith, pairs)) in
      elim (dec_le (k % 2) 0) [
        | yes even ↦
            (let place : back + 2 * (k / 2) ≡ back + k = omega (arith, even) in
              ground (arith, pairs, even, upper, ap (unpack_loop (size / 2) back dst m) place))
        | no odd ↦
            (let place : back + 2 * (k / 2) + 1 ≡ back + k = omega (arith, odd) in
              ground (arith, pairs, odd, lower, ap (unpack_loop (size / 2) back dst m) place))
      ]
]

pack2-at :
    (dst src size j : ℕ) (m : Memory)
    → (dst + (size + 1) / 2 ≤ src) ⊎ (src + size ≤ dst)
    → ((i : ℕ) → i < size → m (src + i) < 256)
    → 2 * j < size
    → (pack2 dst src size m (dst + j) / 256 % 256 ≡ m (src + 2 * j))
      × ((2 * j + 1 < size) → pack2 dst src size m (dst + j) % 256 ≡ m (src + 2 * j + 1))
unfolding pack2
pack2-at dst src size j m apart small lt = elim (dec_le (size / 2) j) [
  | yes last ↦
      let here : size / 2 ≡ j = omega arith in
      let same = pack_outside (size / 2) dst src (src + 2 * (size / 2)) m (omega (arith, apart)) in
      (
        ground (arith, here, same, small (2 * j) lt, ap (λ i. m (src + 2 * i)) here),
        λ more. absurd (omega arith),
      )
  | no pairs ↦
      let (upper, lower) =
        pack_inside (size / 2) dst src j m (omega (arith, apart)) (λ i below. small i (omega arith))
          (omega (arith, pairs)) in
      (ground (arith, pairs, upper), λ more. ground (arith, pairs, lower))
]

-- What `otutils_pack2` has packed, `otutils_unpack2` gives back, for octets in any number, where the
-- packed units lie apart from both.
unpack2-pack2 :
    (dst src back size k : ℕ) (m : Memory)
    → (dst + (size + 1) / 2 ≤ src) ⊎ (src + size ≤ dst)
    → (back + size ≤ dst) ⊎ (dst + (size + 1) / 2 ≤ back)
    → ((j : ℕ) → j < size → m (src + j) < 256)
    → k < size
    → unpack2 back dst size (pack2 dst src size m) (back + k) ≡ m (src + k)
unpack2-pack2 dst src back size k m from to small lt =
    let (upper, lower) = pack2-at dst src size (k / 2) m from small (omega (arith, lt)) in
    unpack2-at back dst size k (pack2 dst src size m) to lt ∙ elim (dec_le (k % 2) 0) [
      | yes even ↦
          (let place : src + 2 * (k / 2) ≡ src + k = omega (arith, even) in
            ground (arith, even, upper, ap m place))
      | no odd ↦
          (let place : src + 2 * (k / 2) + 1 ≡ src + k = omega (arith, odd) in
            ground (arith, odd, lower (omega (arith, odd, lt)), ap m place))
    ]
