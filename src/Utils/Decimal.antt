-- ===== src/Utils/Decimal.antt =====
-- The decimal text of otlib/utils.c.
use libotfs.Prelude.{
  ℕ, zero, suc, ◌+◌, ◌-◌, ◌*◌, ◌/◌, ◌^◌, ◌≤◌, ◌<◌, ◌≡◌, ◌≢◌, ◌∙◌, ◌⊎◌, inl, inr, refl, sym, ap,
  Bool, true, false, ◌||◌, not, ◌==◌, if◌then◌else◌, arith, List, [], ◌∷◌, Bool-cases, s16, u8,
  s16-sub_ℕ,
}
use mathlib.Core.Path.{subst}
use native.Mathlib.Decide.{dec_le}
use native.Mathlib.Nat.{pow-suc, div-add-mod', zero-mul, mod-lt, div-lt_iff_lt-mul}
use libotfs.Memory.{Memory, store, bytes}
use libotfs.Utils.{dec_loop, int2dec}
use libotfs.Prelude.Int.{ℤ, pos, negsuc, sub_ℕ, pos_part, neg_part}

-- The number that digits stand for, behind `acc`.
abbrev number : ℕ → List ℕ → ℕ
number acc [] = acc
number acc (c ∷ cs) = number (acc * 10 + (c - 48)) cs

module _ (n dst value : ℕ) (force : Bool) (m : Memory) where
  abbrev top : ℕ
  top = value / 10 ^ n

  -- A turn that puts its digit, and one that does not.
  dec_loop_put :
      (force || not (top == 0)) ≡ true
      → dec_loop (suc n) false force dst value m
        ≡ dec_loop n false true (dst + 1) (value - top * 10 ^ n) (store m dst (u8 (48 + top)))
  unfolding dec_loop
  dec_loop_put e = rw e refl

  dec_loop_skip :
      (force || not (top == 0)) ≡ false
      → dec_loop (suc n) false force dst value m ≡ dec_loop n false false dst value m
  unfolding dec_loop
  dec_loop_skip e = rw e refl

-- The characters between `dst` and the end stand for the number, and all else is as it was.
abbrev Shows : ℕ → ℕ → ℕ → ℕ → Memory → ℕ × Memory → Type 0
Shows n acc dst value m (end, m') =
    (dst ≤ end)
    × (end ≤ dst + n)
    × ((x : ℕ) → (x < dst) ⊎ (end ≤ x) → m' x ≡ m x)
    × (number acc (bytes m' dst (end - dst)) ≡ acc * 10 ^ n + value)
    × ((x : ℕ) → dst ≤ x → x < end → (48 ≤ m' x) × (m' x < 58))

bytes_head :
    (m : Memory) (dst end : ℕ)
    → dst < end
    → bytes m dst (end - dst) ≡ m dst ∷ bytes m (dst + 1) (end - (dst + 1))
unfolding bytes
bytes_head m dst end lt = ap (bytes m dst) (there lt)
  where
    there : dst < end → end - dst ≡ suc (end - (dst + 1))
    there lt = omega arith

-- 10 * acc + d, and the digits behind it.
regroup :
    (n acc d rest : ℕ) → (acc * 10 + d) * 10 ^ n + rest ≡ acc * 10 ^ suc n + (d * 10 ^ n + rest)
regroup n acc d rest = rw (pow-suc 10 n) (grind arith)

put-Shows :
    (n acc dst value d : ℕ) (m : Memory) (r : ℕ × Memory)
    → d < 10
    → d * 10 ^ n ≤ value
    → Shows n (acc * 10 + d) (dst + 1) (value - d * 10 ^ n) (store m dst (u8 (48 + d))) r
    → Shows (suc n) acc dst value m r
put-Shows n acc dst value d m (end, m') digit le (low, high, same, shown, digits) = (
  omega arith,
  omega arith,
  λ x out. same x (omega arith) ∙ ground (arith, out, low),
  ap (number acc) (bytes_head m' dst end (omega arith))
      ∙ ap (λ c. number (acc * 10 + (c - 48)) (bytes m' (dst + 1) (end - (dst + 1))))
          (same dst (inl (omega arith)))
      ∙ ap (λ c. number (acc * 10 + c) (bytes m' (dst + 1) (end - (dst + 1))))
          (ground (arith, digit))
      ∙ shown
      ∙ regroup n acc d (value - d * 10 ^ n)
      ∙ omega arith,
  λ x from to. elim (dec_le x dst) [
    | yes first ↦ ground (arith, same dst (inl (omega arith)), digit, ap m' (first_is x from first))
    | no later ↦ digits x (omega arith) to
  ],
)
  where
    first_is : (x : ℕ) → dst ≤ x → x ≤ dst → x ≡ dst
    first_is x from first = omega arith

skip-Shows :
    (n dst value : ℕ) (m : Memory) (r : ℕ × Memory)
    → Shows n 0 dst value m r
    → Shows (suc n) 0 dst value m r
skip-Shows n dst value m (end, m') (low, high, same, shown, digits) =
    (low, omega arith, same, shown ∙ rw (zero-mul (10 ^ n), zero-mul (10 ^ suc n)) refl, digits)

ten_pos : (n : ℕ) → 0 < 10 ^ n
ten_pos zero = omega arith
ten_pos (suc n) = omega (arith, pow-suc 10 n, ten_pos n)

module _ (n value : ℕ) where
  digit_small : value < 10 ^ suc n → value / 10 ^ n < 10
  digit_small small = (div-lt_iff_lt-mul (ten_pos n)).1 (omega (arith, pow-suc 10 n, small))

  digit_le : value / 10 ^ n * 10 ^ n ≤ value
  digit_le = omega (arith, div-add-mod' value (10 ^ n))

  rest_small : value - value / 10 ^ n * 10 ^ n < 10 ^ n
  rest_small = omega (arith, div-add-mod' value (10 ^ n), mod-lt value (ten_pos n))

none_left : (dst : ℕ) → dst - dst ≡ 0
none_left dst = omega arith

no_digit :
    (n value : ℕ) (force : Bool) → (force || not (value / 10 ^ n == 0)) ≡ false → value / 10 ^ n ≡ 0
no_digit n value true e = absurd (cc)
no_digit n value false e = ground (arith, e)

-- What a turn that puts nothing says.
nothing_put :
    (n acc value : ℕ) (force : Bool)
    → (force || not (value / 10 ^ n == 0)) ≡ false
    → (force ≡ true) ⊎ (acc ≡ 0)
    → (0 ≡ acc) × (value < 10 ^ n)
nothing_put n acc value true e start = absurd (cc)
nothing_put n acc value false e start = (
  ground (arith, start),
  omega (
    arith,
    rest_small n value,
    ap (λ d. d * 10 ^ n) (no_digit n value false e) ∙ zero-mul (10 ^ n),
  ),
)

loop-Shows :
    (n acc dst value : ℕ) (force : Bool) (m : Memory)
    → value < 10 ^ n
    → (force ≡ true) ⊎ (acc ≡ 0)
    → Shows n acc dst value m (dec_loop n false force dst value m)
loop-Shows zero acc dst value force m small start =
    unfold dec_loop in
    (
      omega arith,
      omega arith,
      λ x out. refl,
      ap (λ k. number acc (bytes m dst k)) (none_left dst) ∙ unfold bytes in omega arith,
      λ x from to. absurd (omega arith),
    )
loop-Shows (suc n) acc dst value force m small start =
    elim (Bool-cases (force || not (value / 10 ^ n == 0))) [
      | inl e ↦ subst (Shows (suc n) acc dst value m) (sym (dec_loop_put n dst value force m e)) (
          put-Shows n acc dst value (value / 10 ^ n) m _ (digit_small n value small)
            (digit_le n value)
            (loop-Shows n (acc * 10 + value / 10 ^ n) (dst + 1) (value - value / 10 ^ n * 10 ^ n)
              true (store m dst (u8 (48 + value / 10 ^ n))) (rest_small n value) (inl refl)))
      | inr e ↦ subst (Shows (suc n) acc dst value m) (sym (dec_loop_skip n dst value force m e)) (
          let (nought, less) = nothing_put n acc value force e start in
          subst (λ a. Shows (suc n) a dst value m (dec_loop n false false dst value m)) nought
            (skip-Shows n dst value m _ (loop-Shows n 0 dst value false m less (inr refl))))
    ]

-- A text as a reader takes it: a space, a minus sign or none, and digits.
abbrev pub read_number : List ℕ → ℤ
read_number [] = pos 0
read_number (s ∷ []) = pos 0
read_number (s ∷ c ∷ cs) = if c == 45 then sub_ℕ 0 (number 0 cs) else pos (number 0 (c ∷ cs))

-- What `otutils_int2dec` has left behind.
abbrev IsText : ℕ → ℤ → Memory → ℤ × Memory → Type 0
IsText dst value m (len, m') =
    (n : ℕ) × (len ≡ pos n)
    × (n ≤ 7)
    × (m' dst ≡ 32)
    × (read_number (bytes m' dst n) ≡ value)
    × ((x : ℕ) → (x < dst) ⊎ (dst + n ≤ x) → m' x ≡ m x)
    × ((x : ℕ)
        → dst < x
        → x < dst + n
        → (48 ≤ m' x) × (m' x < 58) ⊎ (x ≡ dst + 1) × (m' x ≡ 45) × (neg_part value ≢ 0))

abbrev NoMinus : List ℕ → Type 0
NoMinus [] = Unit {0}
NoMinus (c ∷ cs) = c ≢ 45

read_plain : (s : ℕ) (cs : List ℕ) → NoMinus cs → read_number (s ∷ cs) ≡ pos (number 0 cs)
read_plain s [] h = refl
read_plain s (c ∷ cs) h = ground (arith, h)

bytes-NoMinus : (m : Memory) (p n : ℕ) → (0 < n → 48 ≤ m p) → NoMinus (bytes m p n)
unfolding bytes
bytes-NoMinus m p zero h = tt
bytes-NoMinus m p (suc n) h = λ minus. absurd (omega (arith, h (omega arith), minus))

read_minus :
    (s c : ℕ) (cs : List ℕ) (k : ℕ)
    → c ≡ 45
    → number 0 cs ≡ k + 1
    → read_number (s ∷ c ∷ cs) ≡ negsuc k
read_minus s c cs k e shown = ground (arith, e, shown)

IsText-pos :
    (dst v : ℕ) (m : Memory) (r : ℕ × Memory)
    → Shows 5 0 (dst + 1) v (store m dst 32) r
    → IsText dst (pos v) m (s16 (sub_ℕ r.0 dst), r.1)
IsText-pos dst v m (end, m') (low, high, same, shown, digits) = (
  end - dst,
  s16-sub_ℕ end dst (omega arith) (omega arith),
  omega arith,
  same dst (inl (omega arith)) ∙ ground arith,
  ap read_number (bytes_head m' dst end (omega arith))
      ∙ read_plain (m' dst) (bytes m' (dst + 1) (end - (dst + 1))) (
          bytes-NoMinus m' (dst + 1) (end - (dst + 1))
            (λ some. (digits (dst + 1) (omega arith) (omega arith)).0))
      ∙ ap pos (shown ∙ omega arith),
  λ x out. same x (omega arith) ∙ ground (arith, out, low),
  λ x from to. inl (digits x (omega arith) (omega arith)),
)

IsText-neg :
    (dst k : ℕ) (m : Memory) (r : ℕ × Memory)
    → Shows 5 0 (dst + 2) (k + 1) (store (store m dst 32) (dst + 1) 45) r
    → IsText dst (negsuc k) m (s16 (sub_ℕ r.0 dst), r.1)
IsText-neg dst k m (end, m') (low, high, same, shown, digits) = (
  end - dst,
  s16-sub_ℕ end dst (omega arith) (omega arith),
  omega arith,
  same dst (inl (omega arith)) ∙ ground arith,
  ap read_number (bytes_head m' dst end (omega arith) ∙ ap (λ l. m' dst ∷ l) (second low))
      ∙ read_minus (m' dst) (m' (dst + 1)) (bytes m' (dst + 2) (end - (dst + 2))) k
          (same (dst + 1) (inl (omega arith)) ∙ ground arith) (shown ∙ omega arith),
  λ x out. same x (omega arith) ∙ ground (arith, out, low),
  λ x from to. elim (dec_le x (dst + 1)) [
    | yes here ↦
        let at : x ≡ dst + 1 = omega (arith, from, here) in
        inr
          (at, ap m' at ∙ same (dst + 1) (inl (omega arith)) ∙ ground arith, λ z. omega (arith, z))
    | no later ↦ inl (digits x (omega (arith, later)) (omega (arith, to, low)))
  ],
)
  where
    second :
        dst + 2 ≤ end
        → bytes m' (dst + 1) (end - (dst + 1)) ≡ m' (dst + 1) ∷ bytes m' (dst + 2) (end - (dst + 2))
    second low =
        bytes_head m' (dst + 1) end (omega arith)
        ∙ ap (λ p. m' (dst + 1) ∷ bytes m' p (end - p)) (omega arith)

-- `otutils_int2dec` of a number that is not the least one returns the length of its text, at most 7
-- characters, and changes nothing beside it. The text is a space, a minus sign exactly before a
-- negative number, and digits, which a reader takes for the number; a text without digits, a space
-- alone, is that of 0.
pub read_number-int2dec :
    (dst : ℕ) (value : ℤ) (m : Memory)
    → pos_part value + neg_part value < 2 ^ 15
    → IsText dst value m (int2dec dst value m)
unfolding int2dec
read_number-int2dec dst (pos v) m small =
    IsText-pos dst v m _
      (loop-Shows 5 0 (dst + 1) v false (store m dst 32) (omega arith) (inr refl))
read_number-int2dec dst (negsuc k) m small =
    let m2 = store (store m dst 32) (dst + 1) 45 in
    let plain : (k + 1 == 2 ^ 15) ≡ false = ground (arith, small) in
    subst
      (λ b.
        IsText dst (negsuc k) m
          (let (end, m') = dec_loop 5 b false (dst + 2) (k + 1) m2 in (s16 (sub_ℕ end dst), m')))
      (sym plain)
      (IsText-neg dst k m _ (loop-Shows 5 0 (dst + 2) (k + 1) false m2 (omega arith) (inr refl)))
