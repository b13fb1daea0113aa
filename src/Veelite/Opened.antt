-- ===== src/Veelite/Opened.antt =====
-- otlib/veelite.c: when `vl_open` gives a file pointer, which one, and what it is then.
mod Headers
use libotfs.Prelude.{
  ℕ, ◌+◌, ◌*◌, ◌^◌, ◌<◌, ◌≡◌, ◌≢◌, ◌∙◌, ◌⊎◌, inl, inr, sym, ap, Option, none, some, byte, ◌==◌,
  arith, Bool-cases, Option-cases,
}
use mathlib.Core.Option.{some-injective}
use mathlib.Core.Path.{subst}
use libotfs.Auth.{User}
use libotfs.Vworm.{vworm_read}
use libotfs.Veelite.{
  Veelite, VlFile, Guard, put, vlfps, null_vaddr, header_size, file_at, sub_new_fp, vl_open,
  vl_getheader_vaddr,
}
use libotfs.Veelite.Open.{
  IsFile, file_at-IsFile, sub_new_fp_lem, vl_open_lem, vl_getheader_vaddr_lem,
}
use libotfs.Veelite.Layout.{headers, search}
use libotfs.Veelite.Opened.Headers.{IsHeader, IsMissing, search_cases}

-- The first file pointer that is free.
first_free :
    (vlfile : ℕ → VlFile)
    → (sub_new_fp vlfile ≡ none) × ((k : ℕ) → k < vlfps → (vlfile k).read ≢ none)
      ⊎ (i : ℕ) × (sub_new_fp vlfile ≡ some i)
        × (i < vlfps)
        × ((vlfile i).read ≡ none)
        × ((k : ℕ) → k < i → (vlfile k).read ≢ none)
first_free vlfile = elim (Option-cases (sub_new_fp vlfile)) [
  | inl e ↦ inl (
    e,
    λ k lt. elim (sub_new_fp_lem vlfile k lt) [
      | inl (full, used) ↦ used
      | inr (i, new, small, free, rest) ↦ absurd (ground (arith, sym e ∙ new))
    ],
  )
  | inr (i, e) ↦ inr (i, e, (found i e).0, (found i e).1, λ k lt. before i e k lt)
]
  where
    found : (i : ℕ) → sub_new_fp vlfile ≡ some i → (i < vlfps) × ((vlfile i).read ≡ none)
    found i e = elim (sub_new_fp_lem vlfile 0 (omega arith)) [
      | inl (full, used) ↦ absurd (ground (arith, sym full ∙ e))
      | inr (j, new, small, free, rest) ↦
          subst (λ x. (x < vlfps) × ((vlfile x).read ≡ none)) (some-injective j i (sym new ∙ e))
            (small, free)
    ]

    before : (i : ℕ) → sub_new_fp vlfile ≡ some i → (k : ℕ) → k < i → (vlfile k).read ≢ none
    before i e k lt = elim (sub_new_fp_lem vlfile k (omega (arith, lt, (found i e).0))) [
      | inl (full, used) ↦ used
      | inr (j, new, small, free, inl le) ↦
          absurd (omega (arith, le, lt, some-injective j i (sym new ∙ e)))
      | inr (j, new, small, free, inr used) ↦ used
    ]

module _ {A : Type 0} (g : Guard A) where
  -- The answer of the check of a request on the file at `h`.
  abbrev pub checked : ℕ → ℕ → User → Veelite A → ℕ × A
  checked h mode user v = g.check (byte 1 (vworm_read (h + 4) v.fsram)) mode user v.auth

  -- Why no file pointer is given: an unknown block, no file with the ID, a header whose mode does
  -- not allow the request, or no file pointer that is free.
  abbrev pub Fails : ℕ → ℕ → ℕ → User → Veelite A → Type 0
  Fails block_id id mode user v =
      (block_id ≢ 1) × (block_id ≢ 3)
      ⊎ IsMissing block_id id v.fsram
      ⊎ ((h : ℕ) × IsHeader block_id id v.fsram h × (user ≢ none) × ((checked h mode user v).0 ≡ 0))
      ⊎ ((k : ℕ) → k < vlfps → (v.vlfile k).read ≢ none)

  -- What an opening as the file pointer `i` is.
  abbrev pub Opens : ℕ → ℕ → ℕ → User → Veelite A → ℕ → Veelite A → Type 0
  Opens block_id id mode user v i v' =
      ((block_id ≡ 1) ⊎ (block_id ≡ 3))
      × (h : ℕ) × IsHeader block_id id v.fsram h
      × ((user ≡ none) ⊎ ((checked h mode user v).0 ≢ 0))
      × (i < vlfps)
      × ((v.vlfile i).read ≡ none)
      × ((k : ℕ) → k < i → (v.vlfile k).read ≢ none)
      × IsFile v.fsram h (v'.vlfile i)
      × ((k : ℕ) → k ≢ i → v'.vlfile k ≡ v.vlfile k)

  -- The look-up, by its answer.
  looked :
      (block_id id mode : ℕ) (user : User) (v : Veelite A)
      → let h = search block_id id v.fsram in
        let l = vl_getheader_vaddr g null_vaddr block_id id mode user v in
        ((l.0 ≢ 0)
            × ((block_id ≢ 1) × (block_id ≢ 3)
                ⊎ (h ≡ null_vaddr)
                ⊎ (h ≢ null_vaddr) × (user ≢ none) × ((checked h mode user v).0 ≡ 0))
          ⊎ (l.0 ≡ 0)
            × ((block_id ≡ 1) ⊎ (block_id ≡ 3))
            × (l.1 ≡ h)
            × (h ≢ null_vaddr)
            × ((user ≡ none) ⊎ ((checked h mode user v).0 ≢ 0)))
        × ((user ≢ none) ⊎ (l.2.auth ≡ v.auth))
  unfolding vl_getheader_vaddr
  looked block_id id mode user v =
      elim (Bool-cases ((vl_getheader_vaddr g null_vaddr block_id id mode user v).0 == 0)) [
        | inl ok ↦ (
          inr (
            ground (arith, ok),
            ground (arith, ok),
            ground (arith, ok),
            ground (arith, ok),
            ground (arith, ok),
          ),
          ground arith,
        )
        | inr bad ↦ (inl (ground (arith, bad), ground (arith, bad)), ground arith)
      ]

  all_used :
      (block_id id mode : ℕ) (user : User) (v : Veelite A)
      → sub_new_fp v.vlfile ≡ none
      → Fails block_id id mode user v
  all_used block_id id mode user v full = elim (first_free v.vlfile) [
    | inl (e, used) ↦ inr (inr (inr used))
    | inr (i, e, small, free, before) ↦ absurd (ground (arith, sym full ∙ e))
  ]

  refused :
      (block_id id mode : ℕ) (user : User) (v : Veelite A)
      → 32 + headers v.fsram * header_size < 2 ^ 16
      → let h = search block_id id v.fsram in
        (block_id ≢ 1) × (block_id ≢ 3)
          ⊎ (h ≡ null_vaddr)
          ⊎ (h ≢ null_vaddr) × (user ≢ none) × ((checked h mode user v).0 ≡ 0)
        → Fails block_id id mode user v
  refused block_id id mode user v fits (inl unknown) = inl unknown
  refused block_id id mode user v fits (inr (inl is_null)) =
      elim (search_cases block_id id v.fsram fits) [
        | inl (e, missing) ↦ inr (inl missing)
        | inr (found, header) ↦ absurd (found is_null)
      ]
  refused block_id id mode user v fits (inr (inr (found, some_user, zero))) =
      elim (search_cases block_id id v.fsram fits) [
        | inl (is_null, missing) ↦ absurd (found is_null)
        | inr (there, header) ↦
            inr (inr (inl (search block_id id v.fsram, header, some_user, zero)))
      ]

  search-Opens :
      (block_id id mode i : ℕ) (user : User) (v v' : Veelite A)
      → 32 + headers v.fsram * header_size < 2 ^ 16
      → (block_id ≡ 1) ⊎ (block_id ≡ 3)
      → let h = search block_id id v.fsram in
        h ≢ null_vaddr
        → (user ≡ none) ⊎ ((checked h mode user v).0 ≢ 0)
        → sub_new_fp v.vlfile ≡ some i
        → v'.vlfile ≡ put v.vlfile i (file_at h v.fsram)
        → Opens block_id id mode user v i v'
  search-Opens block_id id mode i user v v' fits block found grant new files =
      let h = search block_id id v.fsram in
      elim (search_cases block_id id v.fsram fits) [
        | inl (is_null, missing) ↦ absurd (found is_null)
        | inr (there, header) ↦ elim (first_free v.vlfile) [
          | inl (full, used) ↦ absurd (ground (arith, sym full ∙ new))
          | inr (j, e, small, free, before) ↦
              let same : j ≡ i = some-injective j i (sym e ∙ new) in
              (
                block,
                h,
                header,
                grant,
                subst (λ x. x < vlfps) same small,
                subst (λ x. (v.vlfile x).read ≡ none) same free,
                λ k lt. before k (subst (λ x. k < x) (sym same) lt),
                subst (IsFile v.fsram h) (sym (ap (λ (f : ℕ → VlFile). f i) files ∙ ground arith))
                    (file_at-IsFile h v.fsram),
                λ k other. ap (λ (f : ℕ → VlFile). f k) files ∙ ground (arith, other),
              )
        ]
      ]

  -- `vl_open`, where the headers lie below 2^16. It changes no half-word of the files, and without a
  -- user not the state of the check either. It gives no file pointer, and changes none, only if the
  -- block is none of the two, no header of the block holds a file with the ID, the check of the
  -- user's request on a header of the block with the ID answers 0, or all file pointers are in use.
  -- When it gives one, that is the first that is free, which now is the file of a header of the
  -- block with the ID, field by field, that the check allows if there is a user; all others are as
  -- before.
  pub vl_open-IsFile :
      (block_id id mode : ℕ) (user : User) (v : Veelite A)
      → 32 + headers v.fsram * header_size < 2 ^ 16
      → let (fp, v') = vl_open g block_id id mode user v in
        (v'.fsram ≡ v.fsram)
        × ((user ≢ none) ⊎ (v'.auth ≡ v.auth))
        × ((fp ≡ none) × (v'.vlfile ≡ v.vlfile) × Fails block_id id mode user v
            ⊎ (i : ℕ) × (fp ≡ some i) × Opens block_id id mode user v i v')
  vl_open-IsFile block_id id mode user v fits =
      let l = vl_getheader_vaddr g null_vaddr block_id id mode user v in
      let kept = (vl_getheader_vaddr_lem g null_vaddr block_id id mode user v).0 in
      let (cases, silent) = looked block_id id mode user v in
      let disk : l.2.fsram ≡ v.fsram = ap (λ (w : Veelite A). w.fsram) kept in
      let fps : l.2.vlfile ≡ v.vlfile = ap (λ (w : Veelite A). w.vlfile) kept in
      let quiet : (w : Veelite A) → w.auth ≡ l.2.auth → (user ≢ none) ⊎ (w.auth ≡ v.auth) =
        λ w e. elim silent [ inl some_user ↦ inl some_user | inr same ↦ inr (e ∙ same) ] in
      elim (vl_open_lem g block_id id mode user v) [
        | inl (why, o) ↦ (
          ap (λ x. x.1.fsram) o ∙ disk,
          quiet (vl_open g block_id id mode user v).1 (ap (λ x. x.1.auth) o),
          inl (
            ap (λ x. x.0) o,
            ap (λ x. x.1.vlfile) o ∙ fps,
            elim why [
              | inl bad ↦ elim cases [
                | inl (failed, reason) ↦ refused block_id id mode user v fits reason
                | inr (ok, block, at, found, grant) ↦ absurd (bad ok)
              ]
              | inr full ↦ all_used block_id id mode user v (ap sub_new_fp (sym fps) ∙ full)
            ],
          ),
        )
        | inr (i, ok, new, o) ↦ (
          ap (λ x. x.1.fsram) o ∙ disk,
          quiet (vl_open g block_id id mode user v).1 (ap (λ x. x.1.auth) o),
          inr (
            i,
            ap (λ x. x.0) o,
            elim cases [
              | inl (bad, reason) ↦ absurd (bad ok)
              | inr (fine, block, at, found, grant) ↦
                  search-Opens block_id id mode i user v (vl_open g block_id id mode user v).1 fits
                    block found grant (ap sub_new_fp (sym fps) ∙ new)
                    (ap (λ x. x.1.vlfile) o
                      ∙ ap (λ x. put x i (file_at l.1 l.2.fsram)) fps
                      ∙ ap (λ c. put v.vlfile i (file_at l.1 c)) disk
                      ∙ ap (λ h. put v.vlfile i (file_at h v.fsram)) at)
            ],
          ),
        )
      ]
