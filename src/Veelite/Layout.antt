-- ===== src/Veelite/Layout.antt =====
-- The table of headers of otlib/veelite.c: where a search can end, and what it depends on.
use libotfs.Prelude.{
  ℕ, zero, suc, ◌+◌, ◌*◌, ◌/◌, ◌^◌, ◌<◌, ◌≡◌, ◌≢◌, ◌∙◌, inl, inr, refl, sym, ap, u16, ◌==◌,
  if◌then◌else◌, arith, Bool-cases,
}
use native.Mathlib.Decide.{dec_le}
use libotfs.Vworm.{Fsram, fshdr, vworm_read}
use libotfs.Veelite.{
  header_scan, sub_header_search, sub_gfb_search, sub_isf_search, null_vaddr, header_start,
  header_size,
}
use libotfs.Veelite.Search.{sub_header_search_lem}

-- The number of headers, of all three blocks.
abbrev pub headers : Fsram → ℕ
headers m = (fshdr m).gfb.files + (fshdr m).iss.files + (fshdr m).isf.files

-- The search for a file, in the block of generic files or that of indexed short files.
abbrev pub search : ℕ → ℕ → Fsram → ℕ
search block_id id m = if block_id == 1 then sub_gfb_search id m else sub_isf_search id m

-- The second memory has the same number of files, and in every header the ID and the base of the
-- first one.
pub record SameHeaders (m m' : Fsram) : Type 0 where
  pub gfb : m' 5 ≡ m 5
  pub iss : m' 8 ≡ m 8
  pub isf : m' 11 ≡ m 11
  pub id : (k : ℕ) → k < headers m → m' (18 + 8 * k) ≡ m (18 + 8 * k)
  pub base : (k : ℕ) → k < headers m → m' (19 + 8 * k) ≡ m (19 + 8 * k)

-- The half-word `k` of the header `i`.
word :
    (i k : ℕ) (m m' : Fsram)
    → 32 + (i + 1) * header_size < 2 ^ 16
    → k < 8
    → m' (16 + k + 8 * i) ≡ m (16 + k + 8 * i)
    → vworm_read (32 + i * header_size + 2 * k) m' ≡ vworm_read (32 + i * header_size + 2 * k) m
unfolding vworm_read
word i k m m' fits lt e = ap m' place ∙ e ∙ ap m (sym place)
  where
    place : u16 (32 + i * header_size + 2 * k) / 2 ≡ 16 + k + 8 * i
    place = omega arith

scan_same :
    (n i id : ℕ) (m m' : Fsram)
    → 32 + (i + n) * header_size < 2 ^ 16
    → ((k : ℕ) → k < i + n → m' (18 + 8 * k) ≡ m (18 + 8 * k))
    → ((k : ℕ) → k < i + n → m' (19 + 8 * k) ≡ m (19 + 8 * k))
    → header_scan n (32 + i * header_size) id m' ≡ header_scan n (32 + i * header_size) id m
unfolding header_scan vworm_read
scan_same zero i id m m' fits ids bases = refl
scan_same (suc n) i id m m' fits ids bases =
    let next : u16 (32 + i * header_size + header_size) ≡ 32 + (i + 1) * header_size =
      omega arith in
    let later =
      ap (λ a. header_scan n a id m') next
      ∙ scan_same n (i + 1) id m m' (omega arith) (λ k lt. ids k (omega arith))
          (λ k lt. bases k (omega arith))
      ∙ ap (λ a. header_scan n a id m) (sym next) in
    ground (
      arith,
      word i 2 m m' (omega arith) (omega arith) (ids i (omega arith)),
      word i 3 m m' (omega arith) (omega arith) (bases i (omega arith)),
      later,
    )

search_same :
    (n i id : ℕ) (m m' : Fsram)
    → 32 + (i + n) * header_size < 2 ^ 16
    → ((k : ℕ) → k < i + n → m' (18 + 8 * k) ≡ m (18 + 8 * k))
    → ((k : ℕ) → k < i + n → m' (19 + 8 * k) ≡ m (19 + 8 * k))
    → sub_header_search (32 + i * header_size) id n m'
      ≡ sub_header_search (32 + i * header_size) id n m
unfolding sub_header_search
search_same n i id m m' fits ids bases = elim (dec_le n id) [
  | yes out ↦ ground (arith, later)
  | no inside ↦ ground (arith, later, indexed (omega arith))
]
  where
    later : header_scan n (32 + i * header_size) id m' ≡ header_scan n (32 + i * header_size) id m
    later = scan_same n i id m m' fits ids bases

    indexed :
        id < n
        → m' ((32 + i * header_size + id * header_size + 4) / 2)
          ≡ m ((32 + i * header_size + id * header_size + 4) / 2)
    indexed lt = ap m' (place lt) ∙ ids (i + id) (omega arith) ∙ ap m (sym (place lt))
      where
        place : id < n → (32 + i * header_size + id * header_size + 4) / 2 ≡ 18 + 8 * (i + id)
        place small = omega arith

-- A search looks at nothing but the numbers of files, the IDs and the bases.
pub search-SameHeaders :
    (block_id id : ℕ) (m m' : Fsram)
    → 32 + headers m * header_size < 2 ^ 16
    → SameHeaders m m'
    → search block_id id m' ≡ search block_id id m
unfolding sub_gfb_search sub_isf_search
search-SameHeaders block_id id m m' fits same = ground (
  arith,
  same.gfb,
  same.iss,
  same.isf,
  isf_start,
  search_same (m 5) 0 id m m' (omega arith) (λ k lt. same.id k (omega arith))
      (λ k lt. same.base k (omega arith)),
  search_same (m 11) (m 5 + m 8) id m m' (omega arith) (λ k lt. same.id k (omega arith))
      (λ k lt. same.base k (omega arith)),
)
  where
    isf_start : u16 (header_start + (m 5 + m 8) * header_size) ≡ 32 + (m 5 + m 8) * header_size
    isf_start = omega arith

place_of :
    (n i id : ℕ) (m : Fsram)
    → 32 + (i + n) * header_size < 2 ^ 16
    → sub_header_search (32 + i * header_size) id n m ≢ null_vaddr
    → (j : ℕ) × (j < n)
      × (sub_header_search (32 + i * header_size) id n m ≡ header_start + (i + j) * header_size)
place_of n i id m fits found =
    elim (sub_header_search_lem (32 + i * header_size) id n 0 m (omega arith) (omega arith)
      (omega arith)) [
        | inl (missing, l) ↦ absurd (found missing)
        | inr (j, lt, e, l) ↦ (j, lt, e ∙ omega arith)
      ]

-- A search ends at one of the headers, or at none.
pub search_place :
    (block_id id : ℕ) (m : Fsram)
    → 32 + headers m * header_size < 2 ^ 16
    → search block_id id m ≢ null_vaddr
    → (j : ℕ) × (j < headers m) × (search block_id id m ≡ header_start + j * header_size)
unfolding sub_gfb_search sub_isf_search
search_place block_id id m fits found = elim (Bool-cases (block_id == 1)) [
  | inl gfb ↦
      (let (j, lt, e) = place_of (m 5) 0 id m (omega arith) (ground (arith, gfb, found)) in
        (j, omega arith, ground (arith, gfb, e)))
  | inr isf ↦
      (let (j, lt, e) =
          place_of (m 11) (m 5 + m 8) id m (omega arith) (ground (arith, isf, found, isf_start)) in
        (m 5 + m 8 + j, omega arith, ground (arith, isf, e, isf_start)))
]
  where
    isf_start : u16 (header_start + (m 5 + m 8) * header_size) ≡ 32 + (m 5 + m 8) * header_size
    isf_start = omega arith
