-- ===== src/Veelite/Opened/Headers.antt =====
-- otlib/veelite.c: what a search in one of the blocks says of its headers.
use libotfs.Prelude.{
  ℕ, ◌+◌, ◌*◌, ◌^◌, ◌≤◌, ◌<◌, ◌≡◌, ◌≢◌, ◌∙◌, ◌⊎◌, inl, inr, sym, ap, true, false, u16, byte, ◌==◌,
  if◌then◌else◌, arith, Bool-cases,
}
use mathlib.Core.Path.{subst}
use libotfs.Vworm.{Fsram, fshdr, vworm_read}
use libotfs.Veelite.{
  null_vaddr, header_size, header_start, sub_header_search, sub_gfb_search, sub_isf_search,
}
use libotfs.Veelite.Search.{live, has_id, sub_header_search_lem}
use libotfs.Veelite.Layout.{headers, search}

-- The header `k` of a block, and how many there are.
abbrev pub header_at : ℕ → Fsram → ℕ → ℕ
header_at block_id m k =
    let before = if block_id == 1 then 0 else (fshdr m).gfb.files + (fshdr m).iss.files in
    header_start + (before + k) * header_size

abbrev pub count : ℕ → Fsram → ℕ
count block_id m = if block_id == 1 then (fshdr m).gfb.files else (fshdr m).isf.files

-- A header of the block that carries the ID.
abbrev pub IsHeader : ℕ → ℕ → Fsram → ℕ → Type 0
IsHeader block_id id m h =
    (j : ℕ) × (j < count block_id m)
    × (h ≡ header_at block_id m j)
    × (byte 0 (vworm_read (h + 4) m) ≡ id)

-- No header of the block holds a file with the ID.
abbrev pub IsMissing : ℕ → ℕ → Fsram → Type 0
IsMissing block_id id m =
    (k : ℕ) → k < count block_id m → live m id (header_at block_id m k) ≡ false

abbrev SearchLem : ℕ → ℕ → ℕ → Fsram → ℕ → Type 0
SearchLem n i id m k =
    let r = sub_header_search (32 + i * header_size) id n m in
    (r ≡ null_vaddr) × ((n ≤ k) ⊎ (live m id (32 + i * header_size + k * header_size) ≡ false))
    ⊎ (j : ℕ) × (j < n) × (r ≡ 32 + i * header_size + j * header_size) × (has_id m id r ≡ true)

searched :
    (n i id : ℕ) (m : Fsram)
    → 32 + (i + n) * header_size < 2 ^ 16
    → let r = sub_header_search (32 + i * header_size) id n m in
      (r ≡ null_vaddr) × ((k : ℕ) → k < n → live m id (32 + (i + k) * header_size) ≡ false)
      ⊎ (j : ℕ) × (j < n) × (r ≡ 32 + (i + j) * header_size) × (byte 0 (vworm_read (r + 4) m) ≡ id)
searched n i id m fits =
    elim (Bool-cases (sub_header_search (32 + i * header_size) id n m == null_vaddr)) [
      | inl e ↦ inl (ground (arith, e), λ k lt. dead (ground (arith, e)) k lt (lem k))
      | inr e ↦ elim (lem 0) [
        | inl (is_null, l) ↦ absurd (ground (arith, e, is_null))
        | inr (j, lt, at, has) ↦ inr (j, lt, at ∙ omega arith, ground (arith, has))
      ]
    ]
  where
    lem : (k : ℕ) → SearchLem n i id m k
    lem k =
        sub_header_search_lem (32 + i * header_size) id n k m (omega arith) (omega arith)
          (omega arith)

    dead :
        sub_header_search (32 + i * header_size) id n m ≡ null_vaddr
        → (k : ℕ) → k < n
        → SearchLem n i id m k
        → live m id (32 + (i + k) * header_size) ≡ false
    dead e k lt (inl (is_null, inl out)) = absurd (omega (arith, lt, out))
    dead e k lt (inl (is_null, inr gone)) = ap (live m id) (omega arith) ∙ gone
    dead e k lt (inr (j, less, at, has)) = absurd (omega (arith, e, at, less))

of_searched :
    (block_id id n i r : ℕ) (m : Fsram)
    → 32 + (i + n) * header_size < 2 ^ 16
    → r ≡ sub_header_search (32 + i * header_size) id n m
    → count block_id m ≡ n
    → ((k : ℕ) → header_at block_id m k ≡ 32 + (i + k) * header_size)
    → (r ≡ null_vaddr) × IsMissing block_id id m ⊎ (r ≢ null_vaddr) × IsHeader block_id id m r
of_searched block_id id n i r m fits e counted place = elim (searched n i id m fits) [
  | inl (is_null, dead) ↦
      inl (e ∙ is_null, λ k lt. ap (live m id) (place k) ∙ dead k (subst (λ c. k < c) counted lt))
  | inr (j, lt, at, has) ↦ inr (
    λ is_null. omega (arith, sym e ∙ is_null, at, lt),
    (
      j,
      subst (λ c. j < c) (sym counted) lt,
      e ∙ at ∙ sym (place j),
      ap (λ x. byte 0 (vworm_read (x + 4) m)) e ∙ has,
    ),
  )
]

pub search_cases :
    (block_id id : ℕ) (m : Fsram)
    → 32 + headers m * header_size < 2 ^ 16
    → let r = search block_id id m in
      (r ≡ null_vaddr) × IsMissing block_id id m ⊎ (r ≢ null_vaddr) × IsHeader block_id id m r
unfolding sub_gfb_search sub_isf_search
search_cases block_id id m fits = elim (Bool-cases (block_id == 1)) [
  | inl gfb ↦
      of_searched block_id id (m 5) 0 (search block_id id m) m (omega arith) (ground (arith, gfb))
        (ground (arith, gfb)) (λ k. ground (arith, gfb))
  | inr isf ↦
      of_searched block_id id (m 11) (m 5 + m 8) (search block_id id m) m (omega arith)
        (ground (arith, isf, isf_start)) (ground (arith, isf)) (λ k. ground (arith, isf))
]
  where
    isf_start : u16 (header_start + (m 5 + m 8) * header_size) ≡ 32 + (m 5 + m 8) * header_size
    isf_start = omega arith
