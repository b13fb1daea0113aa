-- ===== src/Veelite/Search.antt =====
-- The search for a header in otlib/veelite.c: what `sub_header_search` finds among `num` headers.
use libotfs.Prelude.{
  ℕ, zero, suc, ◌+◌, ◌*◌, ◌%◌, ◌^◌, ◌≤◌, ◌<◌, ◌≡◌, ◌≢◌, ◌∙◌, ◌⊎◌, inl, inr, refl, ap, sym, Bool,
  true, false, not, ◌&&◌, u16, byte, ◌==◌, arith, Bool-cases,
}
use native.Mathlib.Decide.{dec_le}
use libotfs.Vworm.{Fsram, vworm_read}
use libotfs.Veelite.{header_scan, sub_header_search, null_vaddr, header_size}

-- A header at `h` that holds a file with this ID: its base is neither 0 nor 0xFFFF.
abbrev pub live : Fsram → ℕ → ℕ → Bool
live m id h =
    not (vworm_read (h + 6) m == 0)
    && not (vworm_read (h + 6) m == 0xFFFF)
    && byte 0 (vworm_read (h + 4) m) == id

-- The header at `h` carries this ID.
abbrev pub has_id : Fsram → ℕ → ℕ → Bool
has_id m id h = byte 0 (vworm_read (h + 4) m) == id

live-has_id : (m : Fsram) (id h : ℕ) → live m id h ≡ true → has_id m id h ≡ true
live-has_id m id h l = ground arith

scan-step :
    (n h id : ℕ) (m : Fsram)
    → h + header_size < 2 ^ 16
    → (live m id h ≡ true) × (header_scan (suc n) h id m ≡ h)
      ⊎ (live m id h ≡ false) × (header_scan (suc n) h id m ≡ header_scan n (h + header_size) id m)
unfolding header_scan
scan-step n h id m fits = elim (Bool-cases (live m id h)) [
  | inl l ↦ inl (l, rw l)
  | inr l ↦ inr (l, rw (l, next))
]
  where
    next : u16 (h + header_size) ≡ h + header_size
    next = omega arith

next_place : (h k : ℕ) → h + (k + 1) * header_size ≡ h + header_size + k * header_size
next_place h k = omega arith

place_after : (h k : ℕ) → h + header_size + k * header_size ≡ h + suc k * header_size
place_after h k = omega arith

pub scan_sound :
    (n h id : ℕ) (m : Fsram)
    → h + n * header_size < 2 ^ 16
    → (header_scan n h id m ≡ null_vaddr)
      ⊎ (k : ℕ) × (k < n)
        × (header_scan n h id m ≡ h + k * header_size)
        × (live m id (h + k * header_size) ≡ true)
unfolding header_scan
scan_sound zero h id m fits = inl refl
scan_sound (suc n) h id m fits = elim (scan-step n h id m (omega arith)) [
  | inl (l, e) ↦ inr (0, omega arith, e ∙ omega arith, ground (arith, l))
  | inr (l, e) ↦ elim (scan_sound n (h + header_size) id m (omega arith)) [
    | inl none_left ↦ inl (e ∙ none_left)
    | inr (k, lt, at, alive) ↦
        inr (k + 1, omega arith, e ∙ at ∙ omega arith, ap (live m id) (next_place h k) ∙ alive)
  ]
]

pub scan_complete :
    (n h id k : ℕ) (m : Fsram)
    → h + n * header_size < 2 ^ 16
    → k < n
    → live m id (h + k * header_size) ≡ true
    → header_scan n h id m ≢ null_vaddr
scan_complete zero h id k m fits lt alive is_null = absurd (omega arith)
scan_complete (suc n) h id zero m fits lt alive is_null = elim (scan-step n h id m (omega arith)) [
  | inl (l, e) ↦ omega (arith, e, is_null)
  | inr (l, e) ↦ absurd (ground (arith, alive, l))
]
scan_complete (suc n) h id (suc j) m fits lt alive is_null =
    elim (scan-step n h id m (omega arith)) [
      | inl (l, e) ↦ omega (arith, e, is_null)
      | inr (l, e) ↦
          scan_complete n (h + header_size) id j m (omega arith) (omega arith)
            (ap (live m id) (place_after h j) ∙ alive) (sym e ∙ is_null)
    ]

-- The test of the indexed place, and what follows it.
search_cases :
    (header id num : ℕ) (m : Fsram)
    → num < 2 ^ 15
    → header % 2 ≡ 0
    → header + num * header_size < 2 ^ 16
    → (id < num)
        × (has_id m id (header + id * header_size) ≡ true)
        × (sub_header_search header id num m ≡ header + id * header_size)
      ⊎ (sub_header_search header id num m ≡ header_scan num header id m)
unfolding sub_header_search
search_cases header id num m few even fits = ground arith

-- The search among headers within the address space returns `NULL_vaddr` or the address of one of
-- them, which carries the ID; if any of them holds a file with the ID, it returns an address.
pub sub_header_search_lem :
    (header id num k : ℕ) (m : Fsram)
    → num < 2 ^ 15
    → header % 2 ≡ 0
    → header + num * header_size < 2 ^ 16
    → let r = sub_header_search header id num m in
      ((r ≡ null_vaddr) × ((num ≤ k) ⊎ (live m id (header + k * header_size) ≡ false))
        ⊎ (j : ℕ) × (j < num) × (r ≡ header + j * header_size) × (has_id m id r ≡ true))
sub_header_search_lem header id num k m few even fits =
    elim (search_cases header id num m few even fits) [
      | inl (small, has, e) ↦ inr (id, small, e, ap (has_id m id) e ∙ has)
      | inr e ↦ elim (scan_sound num header id m fits) [
        | inl is_null ↦ inl (e ∙ is_null, dead (e ∙ is_null) e)
        | inr (j, lt, at, alive) ↦ inr (
          j,
          lt,
          e ∙ at,
          ap (has_id m id) (e ∙ at) ∙ live-has_id m id (header + j * header_size) alive,
        )
      ]
    ]
  where
    dead :
        sub_header_search header id num m ≡ null_vaddr
        → sub_header_search header id num m ≡ header_scan num header id m
        → (num ≤ k) ⊎ (live m id (header + k * header_size) ≡ false)
    dead is_null e = elim (dec_le num k) [
      | yes out ↦ inl out
      | no inside ↦ elim (Bool-cases (live m id (header + k * header_size))) [
        | inl l ↦ absurd (scan_complete num header id k m fits (omega arith) l (sym e ∙ is_null))
        | inr d ↦ inr d
      ]
    ]
