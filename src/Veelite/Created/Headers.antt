-- ===== src/Veelite/Created/Headers.antt =====
-- otlib/veelite.c with VLNEW: the search for a free header, and the header that is written there.
use libotfs.Prelude.{
  ℕ, zero, suc, ◌+◌, ◌*◌, ◌%◌, ◌^◌, ◌<◌, ◌≡◌, ◌≢◌, ◌∙◌, ◌⊎◌, inl, inr, refl, sym, ap, Bool, true,
  false, Bool-cases, Option, none, some, u16, ◌==◌, if◌then◌else◌, arith,
}
use libotfs.Vworm.{Fsram, vworm_read, vworm_write}
use libotfs.Veelite.{VlHeader, header_size, null_vaddr, sub_write_header}
use libotfs.Veelite.New.{empty_scan, header_words}

pub empty_sound :
    (n h : ℕ) (m : Fsram)
    → h + n * header_size < 2 ^ 16
    → (empty_scan n h m ≡ null_vaddr)
      ⊎ (k : ℕ) × (k < n)
        × (empty_scan n h m ≡ h + k * header_size)
        × (vworm_read (h + k * header_size + 6) m ≡ null_vaddr)
unfolding empty_scan
empty_sound zero h m fits = inl refl
empty_sound (suc n) h m fits = elim (Bool-cases (vworm_read (h + 6) m == null_vaddr)) [
  | inl free ↦ inr (
    0,
    omega arith,
    rw free (omega arith),
    ap (λ x. vworm_read (x + 6) m) here ∙ ground (arith, free),
  )
  | inr used ↦ elim (empty_sound n (h + header_size) m (omega arith)) [
    | inl none_left ↦ inl (rw (used, next) none_left)
    | inr (k, lt, at, free) ↦ inr (
      k + 1,
      omega arith,
      rw (used, next) (at ∙ omega arith),
      ap (λ x. vworm_read (x + 6) m) (next_place k) ∙ free,
    )
  ]
]
  where
    next : u16 (h + header_size) ≡ h + header_size
    next = omega arith

    here : h + 0 * header_size ≡ h
    here = omega arith

    next_place : (k : ℕ) → h + (k + 1) * header_size ≡ h + header_size + k * header_size
    next_place k = omega arith

-- The header that was written reads as its fields.
pub header_written :
    (h : ℕ) (f : VlHeader) (m : Fsram)
    → h + header_size < 2 ^ 16
    → h % 2 ≡ 0
    → let m' = sub_write_header h (header_words f) m in
      (vworm_read (h + 2) m' ≡ f.alloc)
      × (vworm_read (h + 4) m' ≡ f.idmod)
      × (vworm_read (h + 6) m' ≡ f.base)
      × (vworm_read h m' ≡ f.length)
      × (vworm_read (h + 8) m' ≡ f.mirror)
unfolding sub_write_header vworm_write vworm_read
header_written h f m fits even = ground arith

pub none_opened : (i : ℕ) → none ≢ some i
none_opened i e = cc

-- The results of a creation.
abbrev pub made {ℓ} :
    {S : Type ℓ} → Bool → Bool → Bool → Option ℕ → Option ℕ → S → S → (ℕ → S) → ℕ × Option ℕ × S
made refused bad there fp fp_new s1 s6 s0 =
    if refused
    then (0x04, fp_new, s1)
    else if bad
    then (0xFF, fp_new, s1)
    else if there
    then (0x02, fp_new, s1)
    else (elim fp [ none ↦ (0x06, none, s6) | some i ↦ (0, some i, s0 i) ])

pub made_cases {ℓ} :
    {S : Type ℓ} (refused bad there : Bool) (fp fp_new out : Option ℕ) (s1 s6 : S) (s0 : ℕ → S)
    (s' : S)
    → made refused bad there fp fp_new s1 s6 s0 ≡ (0, out, s')
    → (refused ≡ false)
      × (bad ≡ false)
      × (there ≡ false)
      × (i : ℕ) × (fp ≡ some i)
      × (out ≡ some i)
      × (s0 i ≡ s')
made_cases true bad there fp fp_new out s1 s6 s0 s' e = absurd (ground (arith, ap (λ x. x.0) e))
made_cases false true there fp fp_new out s1 s6 s0 s' e = absurd (ground (arith, ap (λ x. x.0) e))
made_cases false false true fp fp_new out s1 s6 s0 s' e = absurd (ground (arith, ap (λ x. x.0) e))
made_cases false false false none fp_new out s1 s6 s0 s' e =
    absurd (ground (arith, ap (λ x. x.0) e))
made_cases false false false (some i) fp_new out s1 s6 s0 s' e =
    (refl, refl, refl, i, refl, sym (ap (λ x. x.1) e), ap (λ x. x.2) e)
