-- ===== src/Memory.antt =====
-- Byte-addressed memory, and the copying of platform/posix_c/otlib_memcpy.c.
use libotfs.Prelude.{
  u8, u16, ◌*◌, inl, ℕ, zero, suc, ◌+◌, ◌-◌, ◌≤◌, ◌<◌, ◌≡◌, ◌⊎◌, refl, arith, ◌&&◌, List,
}
use libotfs.Prelude.{[], ◌∷◌, ◌++◌, ltb, leb, ◌==◌, if◌then◌else◌, length, ap, ◌∙◌}
use mathlib.Core.Path.{ap₂}

-- The byte at each address.
abbrev pub Memory : Type 0
Memory = ℕ → ℕ

-- `*p = v`
abbrev pub store : Memory → ℕ → ℕ → Memory
store m p v x = if x == p then v else m x

-- `ot_memcpy(dst, src, length)`. C leaves a copy between overlapping regions undefined; this
-- is the result where they are disjoint.
abbrev pub ot_memcpy : Memory → ℕ → ℕ → ℕ → Memory
ot_memcpy m dst src n x = if leb dst x && ltb x (dst + n) then m (src + (x - dst)) else m x

-- `ot_memcpy_2` and `ot_memcpy_4` count in half-words and in words.
abbrev pub ot_memcpy_2 : Memory → ℕ → ℕ → ℕ → Memory
ot_memcpy_2 m dst src n = ot_memcpy m dst src (n * 2)

abbrev pub ot_memcpy_4 : Memory → ℕ → ℕ → ℕ → Memory
ot_memcpy_4 m dst src n = ot_memcpy m dst src (n * 4)

abbrev pub ot_memset : Memory → ℕ → ℕ → ℕ → Memory
ot_memset m dst value n x = if leb dst x && ltb x (dst + n) then value else m x

-- The length is an `ot_uint`, and of the value only the lowest octet is taken.
abbrev pub ot_memset_2 : Memory → ℕ → ℕ → ℕ → Memory
ot_memset_2 m dst value n = ot_memset m dst (u8 value) (u16 (n * 2))

abbrev pub ot_memset_4 : Memory → ℕ → ℕ → ℕ → Memory
ot_memset_4 m dst value n = ot_memset m dst (u8 value) (u16 (n * 4))

-- The `n` bytes from `p` on.
unfoldable pub bytes : Memory → ℕ → ℕ → List ℕ
bytes m p zero = []
bytes m p (suc n) = m p ∷ bytes m (p + 1) n

pub length-bytes : (m : Memory) (p n : ℕ) → length (bytes m p n) ≡ n
unfolding bytes
length-bytes m p zero = refl
length-bytes m p (suc n) = ap suc (length-bytes m (p + 1) n)

-- Two memories that agree on a region, maybe moved, hold the same bytes there.
pub bytes_ext :
    (m m' : Memory) (p q n : ℕ)
    → ((k : ℕ) → k < n → m (p + k) ≡ m' (q + k))
    → bytes m p n ≡ bytes m' q n
unfolding bytes
bytes_ext m m' p q zero h = refl
bytes_ext m m' p q (suc n) h =
    ap₂ ◌∷◌ (ground (arith, h 0))
      (bytes_ext m m' (p + 1) (q + 1) n (λ k lt. ground (arith, h (k + 1))))

pub bytes-store :
    (m : Memory) (p n x v : ℕ) → (x < p) ⊎ (p + n ≤ x) → bytes (store m x v) p n ≡ bytes m p n
bytes-store m p n x v out = bytes_ext (store m x v) m p p n (λ k lt. ground arith)

-- The bytes up to `n` and the one after them.
pub bytes-suc : (m : Memory) (p n : ℕ) → bytes m p (suc n) ≡ bytes m p n ++ (m (p + n) ∷ [])
unfolding bytes
bytes-suc m p zero = ground arith
bytes-suc m p (suc n) =
    ap (λ l. m p ∷ l) (bytes-suc m (p + 1) n)
    ∙ ap (λ a. m p ∷ (bytes m (p + 1) n ++ (m a ∷ []))) (omega arith)

pub bytes-append : (m : Memory) (p n k : ℕ) → bytes m p (n + k) ≡ bytes m p n ++ bytes m (p + n) k
unfolding bytes
bytes-append m p zero k = ground arith
bytes-append m p (suc n) k = ground (
  arith,
  bytes-append m (p + 1) n k,
  ap (λ a. bytes m p a) (the_suc n k),
  ap (λ a. bytes m a k) (move p n),
)
  where
    the_suc : (a b : ℕ) → suc a + b ≡ suc (a + b)
    the_suc a b = omega arith

    move : (a b : ℕ) → a + suc b ≡ a + 1 + b
    move a b = omega arith

-- A copy to a place of its own holds the bytes of its source.
pub bytes-ot_memcpy :
    (m : Memory) (dst src n : ℕ) → bytes (ot_memcpy m dst src n) dst n ≡ bytes m src n
bytes-ot_memcpy m dst src n = bytes_ext (ot_memcpy m dst src n) m dst src n (λ k lt. ground arith)

-- A copy changes nothing outside its destination.
pub bytes-ot_memcpy_outside :
    (m : Memory) (dst src n p k : ℕ)
    → (p + k ≤ dst) ⊎ (dst + n ≤ p)
    → bytes (ot_memcpy m dst src n) p k ≡ bytes m p k
bytes-ot_memcpy_outside m dst src n p k out =
    bytes_ext (ot_memcpy m dst src n) m p p k (λ j lt. ground arith)

-- A copy behind a region extends it.
pub bytes-ot_memcpy_behind :
    (m : Memory) (start end src n : ℕ)
    → start ≤ end
    → bytes (ot_memcpy m end src n) start (end + n - start)
      ≡ bytes m start (end - start) ++ bytes m src n
bytes-ot_memcpy_behind m start end src n le =
    ap (bytes m' start) the_length
    ∙ bytes-append m' start (end - start) n
    ∙ ap₂ ◌++◌ (bytes-ot_memcpy_outside m end src n start (end - start) (inl (omega arith)))
        (ap (λ p. bytes m' p n) the_end ∙ bytes-ot_memcpy m end src n)
  where
    m' : Memory
    m' = ot_memcpy m end src n

    the_length : end + n - start ≡ end - start + n
    the_length = omega arith

    the_end : start + (end - start) ≡ end
    the_end = omega arith
