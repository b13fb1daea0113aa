-- ===== src/Veelite/Open.antt =====
-- otlib/veelite.c: the opening of files, `vl_open`, and what `vl_chmod` and the actions write in a
-- header.
use libotfs.Prelude.{
  ℕ, zero, suc, ◌+◌, ◌*◌, ◌/◌, ◌≤◌, ◌<◌, ◌≡◌, ◌≢◌, ◌∙◌, ◌⊎◌, inl, inr, refl, none, some, u16, byte,
  ◌==◌, if◌then◌else◌, arith, Bool-cases, Option-cases,
}
use native.Mathlib.Decide.{dec_le}
use mathlib.Core.Path.{subst}
use libotfs.Auth.{User}
use libotfs.Vworm.{Fsram, vworm_read, vsram_read, vworm_write, vworm, vsram}
use libotfs.Veelite.{
  Veelite, VlFile, Guard, put, vlfps, null_vaddr, sub_new_fp, free_fp, file_at, vl_open_file,
  vl_open, vl_getheader_vaddr, vl_chmod, vl_access_rw, sub_gfb_search, sub_isf_search,
  sub_write_header,
}

-- Every file pointer from `i` up to `end` is in use.
InUse : (ℕ → VlFile) → ℕ → ℕ → Type 0
InUse vlfile i end = (k : ℕ) → i ≤ k → k < end → (vlfile k).read ≢ none

InUse-step :
    (vlfile : ℕ → VlFile) (i end : ℕ)
    → (vlfile i).read ≢ none
    → InUse vlfile (i + 1) end
    → InUse vlfile i end
unfolding InUse
InUse-step vlfile i end used later k le lt = elim (dec_le k i) [
  | yes here ↦ subst (λ j. (vlfile j).read ≢ none) (both here) used
  | no beyond ↦ later k (omega arith) lt
]
  where
    both : k ≤ i → i ≡ k
    both here = omega arith

free_fp_lem :
    (n i : ℕ) (vlfile : ℕ → VlFile)
    → (free_fp n i vlfile ≡ none) × InUse vlfile i (i + n)
      ⊎ (fd : ℕ) × (free_fp n i vlfile ≡ some fd)
        × (fd < i + n)
        × ((vlfile fd).read ≡ none)
        × InUse vlfile i fd
unfolding free_fp InUse
free_fp_lem zero i vlfile = inl (refl, λ k le lt. absurd (omega arith))
free_fp_lem (suc n) i vlfile = elim (Option-cases (vlfile i).read) [
  | inl free ↦ inr (i, rw (free_fp, free) refl, omega arith, free, λ k le lt. absurd (omega arith))
  | inr (d, used) ↦ elim (free_fp_lem n (i + 1) vlfile) [
    | inl (e, all) ↦ inl (
      rw (free_fp, used) e,
      λ k le lt. InUse-step vlfile i (i + 1 + n) (ground (arith, used)) all k le (omega arith),
    )
    | inr (fd, e, lt, free, all) ↦ inr (
      fd,
      rw (free_fp, used) e,
      omega arith,
      free,
      InUse-step vlfile i fd (ground (arith, used)) all,
    )
  ]
]

-- `sub_new_fp` finds the lowest file pointer that is free, and none exactly if all are in use.
pub sub_new_fp_lem :
    (vlfile : ℕ → VlFile) (k : ℕ)
    → k < vlfps
    → (sub_new_fp vlfile ≡ none) × ((vlfile k).read ≢ none)
      ⊎ (fd : ℕ) × (sub_new_fp vlfile ≡ some fd)
        × (fd < vlfps)
        × ((vlfile fd).read ≡ none)
        × ((fd ≤ k) ⊎ ((vlfile k).read ≢ none))
unfolding sub_new_fp InUse
sub_new_fp_lem vlfile k lt = elim (free_fp_lem vlfps 0 vlfile) [
  | inl (e, all) ↦ inl (e, all k (omega arith) lt)
  | inr (fd, e, small, free, all) ↦ inr (
    fd,
    e,
    small,
    free,
    (elim (dec_le fd k) [ yes le ↦ inl le | no before ↦ inr (all k (omega arith) (omega arith)) ]),
  )
]

pub file_at-open :
    (header : ℕ) (m : Fsram)
    → ((file_at header m).read ≢ none)
      × ((file_at header m).write ≢ none)
      × ((file_at header m).header ≡ header)
unfolding file_at
file_at-open header m = ground arith

-- The open file of the header at `h`, by the half-words of the header. A mirror has the length
-- before its data.
abbrev pub IsFile : Fsram → ℕ → VlFile → Type 0
IsFile m h f =
    let mirror = vworm_read (h + 8) m in
    (f.header ≡ h)
    × (f.alloc ≡ vworm_read (h + 2) m)
    × (f.idmod ≡ vworm_read (h + 4) m)
    × (f.flags ≡ 1)
    × ((mirror ≡ null_vaddr)
          × (f.start ≡ vworm_read (h + 6) m)
          × (f.length ≡ vworm_read h m)
          × (f.read ≡ some vworm)
          × (f.write ≡ some vworm)
        ⊎ (mirror ≢ null_vaddr)
          × (f.start ≡ u16 (mirror + 2))
          × (f.length ≡ vworm_read mirror m)
          × (f.read ≡ some vsram)
          × (f.write ≡ some vsram))

pub file_at-IsFile : (h : ℕ) (m : Fsram) → IsFile m h (file_at h m)
unfolding file_at vsram_read
file_at-IsFile h m = ground arith

module _ {A : Type 0} (g : Guard A) where
  -- The four results of the look-up of a header, and their conditions. It changes nothing but the
  -- state of the check of the request, which it calls for a user on a header that it found.
  pub vl_getheader_vaddr_lem :
      (header block_id data_id mode : ℕ) (user : User) (v : Veelite A)
      → let found =
          if block_id == 1
          then sub_gfb_search data_id v.fsram
          else sub_isf_search data_id v.fsram in
        let check = g.check (byte 1 (vworm_read (found + 4) v.fsram)) mode user v.auth in
        let (r, h, v') = vl_getheader_vaddr g header block_id data_id mode user v in
        (v' ≡ record v { auth = v'.auth })
        × ((r ≡ 255) × (block_id ≢ 1) × (block_id ≢ 3) × (h ≡ header)
            ⊎ (r ≡ 1) × (found ≡ null_vaddr) × (h ≡ found)
            ⊎ (r ≡ 4) × (user ≢ none) × (check.0 ≡ 0) × (v'.auth ≡ check.1)
            ⊎ (r ≡ 0) × (found ≢ null_vaddr) × (h ≡ found) × ((user ≡ none) ⊎ (check.0 ≢ 0)))
  unfolding vl_getheader_vaddr
  vl_getheader_vaddr_lem header block_id data_id mode user v = ground arith

  -- The result of a look-up.
  abbrev looked_up : ℕ → ℕ → ℕ → User → Veelite A → ℕ × ℕ × Veelite A
  looked_up block_id data_id mode user v =
      vl_getheader_vaddr g null_vaddr block_id data_id mode user v

  open-failed :
      (block_id data_id mode : ℕ) (user : User) (v : Veelite A)
      → let l = looked_up block_id data_id mode user v in
        (l.0 ≢ 0) × (vl_open g block_id data_id mode user v ≡ (none, l.2))
        ⊎ (l.0 ≡ 0) × (vl_open g block_id data_id mode user v ≡ vl_open_file l.1 l.2)
  unfolding vl_open
  open-failed block_id data_id mode user v =
      elim (Bool-cases ((looked_up block_id data_id mode user v).0 == 0)) [
        | inl e ↦ inr (ground (arith, e), rw (vl_open, e) refl)
        | inr e ↦ inl (ground (arith, e), rw (vl_open, e) refl)
      ]

  abbrev pub opened_at : ℕ → ℕ → Veelite A → Veelite A
  opened_at i header v = record v { vlfile = put v.vlfile i (file_at header v.fsram) }

  pub open_file_cases :
      (header : ℕ) (v : Veelite A)
      → (sub_new_fp v.vlfile ≡ none) × (vl_open_file header v ≡ (none, v))
        ⊎ (i : ℕ) × (sub_new_fp v.vlfile ≡ some i)
          × (vl_open_file header v ≡ (some i, opened_at i header v))
  unfolding vl_open_file
  open_file_cases header v = elim (Option-cases (sub_new_fp v.vlfile)) [
    | inl e ↦ inl (e, rw (vl_open_file, e) refl)
    | inr (i, e) ↦ inr (i, e, rw (vl_open_file, e) refl)
  ]

  -- `vl_open` gives no file pointer if the look-up fails or if all are in use, and changes nothing
  -- more then. Else it gives the one that `sub_new_fp` finds, and sets that one alone, to the file
  -- of the header that was found.
  pub vl_open_lem :
      (block_id data_id mode : ℕ) (user : User) (v : Veelite A)
      → let (r, h, v1) = vl_getheader_vaddr g null_vaddr block_id data_id mode user v in
        let o = vl_open g block_id data_id mode user v in
        ((r ≢ 0) ⊎ (sub_new_fp v1.vlfile ≡ none)) × (o ≡ (none, v1))
        ⊎ (i : ℕ) × (r ≡ 0)
          × (sub_new_fp v1.vlfile ≡ some i)
          × (o ≡ (some i, record v1 { vlfile = put v1.vlfile i (file_at h v1.fsram) }))
  vl_open_lem block_id data_id mode user v =
      let l = looked_up block_id data_id mode user v in
      elim (open-failed block_id data_id mode user v) [
        | inl (failed, e) ↦ inl (inl failed, e)
        | inr (found, e) ↦ elim (open_file_cases l.1 l.2) [
          | inl (full, e') ↦ inl (inr full, e ∙ e')
          | inr (i, free, e') ↦ inr (i, found, free, e ∙ e')
        ]
      ]

  -- `vl_chmod` fails as the look-up for reading and writing does, and then writes nothing; else the
  -- header, at an even address, has the ID and the new mode, and no other half-word is changed.
  vl_chmod_lem :
      (block_id data_id mode x : ℕ) (user : User) (v : Veelite A)
      → let (r, h, v1) = vl_getheader_vaddr g null_vaddr block_id data_id vl_access_rw user v in
        let (c, v') = vl_chmod g block_id data_id mode user v in
        (c ≡ r)
        × ((r ≢ 0) × (v' ≡ v1)
            ⊎ (r ≡ 0)
              × (vworm_read (h + 4) v'.fsram ≡ data_id + 256 * mode)
              × ((v'.fsram x ≡ v1.fsram x) ⊎ (x ≡ u16 (h + 4) / 2)))
  unfolding vl_chmod sub_write_header vworm_write vworm_read
  vl_chmod_lem block_id data_id mode x user v = ground arith
