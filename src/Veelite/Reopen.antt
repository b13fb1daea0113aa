-- ===== src/Veelite/Reopen.antt =====
-- otlib/veelite.c: what an opening of a file has done, and an opening that succeeds.
use libotfs.Prelude.{ℕ, ◌≡◌, ◌≢◌, ◌∙◌, ◌<◌, ◌⊎◌, inl, inr, sym, ap, none, some, arith}
use mathlib.Core.Option.{some-injective}
use libotfs.Auth.{User}
use libotfs.Veelite.{
  Veelite, VlFile, Guard, put, vlfps, null_vaddr, file_at, sub_new_fp, vl_open, vl_open_file,
  vl_getheader_vaddr,
}
use libotfs.Veelite.Open.{vl_open_lem, sub_new_fp_lem}
use libotfs.Veelite.Layout.{search}

new_small : (vlfile : ℕ → VlFile) (i : ℕ) → sub_new_fp vlfile ≡ some i → i < vlfps
new_small vlfile i e = elim (sub_new_fp_lem vlfile 0 (omega arith)) [
  | inl (full, used) ↦ absurd (ground (arith, sym full ∙ e))
  | inr (j, new, small, free, rest) ↦ ground (arith, small, some-injective j i (sym new ∙ e))
]

-- What an opening of a file that succeeds has done.
module _ {A : Type 0} (g : Guard A) where
  looked :
      (block_id id mode : ℕ) (user : User) (v : Veelite A)
      → let l = vl_getheader_vaddr g null_vaddr block_id id mode user v in
        l.0 ≡ 0
        → ((block_id ≡ 1) ⊎ (block_id ≡ 3))
          × (search block_id id v.fsram ≢ null_vaddr)
          × (l.1 ≡ search block_id id v.fsram)
          × (l.2.fsram ≡ v.fsram)
  unfolding vl_getheader_vaddr
  looked block_id id mode user v e =
      (ground (arith, e), ground (arith, e), ground (arith, e), ground (arith, e))

  looked_su :
      (block_id id mode : ℕ) (v : Veelite A)
      → (block_id ≡ 1) ⊎ (block_id ≡ 3)
      → search block_id id v.fsram ≢ null_vaddr
      → vl_getheader_vaddr g null_vaddr block_id id mode none v ≡ (0, search block_id id v.fsram, v)
  unfolding vl_getheader_vaddr
  looked_su block_id id mode v block found = ground (arith, block, found)

  pub opened_cases :
      (block_id id mode fp : ℕ) (user : User) (v v1 : Veelite A)
      → vl_open g block_id id mode user v ≡ (some fp, v1)
      → ((block_id ≡ 1) ⊎ (block_id ≡ 3))
        × (search block_id id v1.fsram ≢ null_vaddr)
        × (v1.vlfile fp ≡ file_at (search block_id id v1.fsram) v1.fsram)
        × (fp < vlfps)
  opened_cases block_id id mode fp user v v1 e =
      let l = vl_getheader_vaddr g null_vaddr block_id id mode user v in
      elim (vl_open_lem g block_id id mode user v) [
        | inl (failed, o) ↦ absurd (ground (arith, ap (λ r. r.0) (sym o ∙ e)))
        | inr (i, ok, new, o) ↦
            let (block, found, at, same) = looked block_id id mode user v ok in
            let fd : i ≡ fp = some-injective i fp (ap (λ r. r.0) (sym o ∙ e)) in
            let state = ap (λ r. r.1) (sym o ∙ e) in
            let kept : v1.fsram ≡ v.fsram = sym (ap (λ (w : Veelite A). w.fsram) state) ∙ same in
            (
              block,
              rw kept found,
              sym (ap (λ (w : Veelite A). w.vlfile fp) state)
                  ∙ ground (arith, fd, at, same)
                  ∙ ap (λ c. file_at (search block_id id c) c) (sym kept),
              new_small (l.2).vlfile fp (new ∙ ap some fd),
            )
      ]

  -- An opening by no user, which is not checked, of a file that a search finds.
  pub open_su :
      (block_id id mode fp : ℕ) (v : Veelite A)
      → (block_id ≡ 1) ⊎ (block_id ≡ 3)
      → search block_id id v.fsram ≢ null_vaddr
      → (v.vlfile fp).read ≡ none
      → fp < vlfps
      → (i : ℕ) × (vl_open g block_id id mode none v ≡ (
        some i,
        record v { vlfile = put v.vlfile i (file_at (search block_id id v.fsram) v.fsram) },
      ))
  open_su block_id id mode fp v block found free lt = elim (sub_new_fp_lem v.vlfile fp lt) [
    | inl (full, used) ↦ absurd (used free)
    | inr (i, new, small, unused, rest) ↦ (i, opens i new)
  ]
    where
      opens :
          (i : ℕ)
          → sub_new_fp v.vlfile ≡ some i
          → vl_open g block_id id mode none v ≡ (
            some i,
            record v { vlfile = put v.vlfile i (file_at (search block_id id v.fsram) v.fsram) },
          )
      opens i new =
          unfold vl_open vl_open_file in
          ground (arith, looked_su block_id id mode v block found, new)
