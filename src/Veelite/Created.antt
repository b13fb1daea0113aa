-- ===== src/Veelite/Created.antt =====
-- otlib/veelite.c with VLNEW: what the creation of a file leaves in its header.
mod Headers
use libotfs.Prelude.{
  ℕ, ◌+◌, ◌*◌, ◌%◌, ◌^◌, ◌<◌, ◌≡◌, ◌≢◌, ◌∙◌, ◌⊎◌, inl, inr, refl, sym, ap, Bool, true, false, not,
  ◌&&◌, ◌||◌, Bool-cases, Option, none, some, u16, ◌==◌, if◌then◌else◌, arith,
}
use mathlib.Core.Option.{some-injective}
use mathlib.Core.Path.{subst}
use libotfs.Auth.{User}
use libotfs.Vworm.{vworm_read}
use libotfs.Veelite.{
  Veelite, VlHeader, Guard, header_size, null_vaddr, count16, vl_open_file, sub_write_header,
  file_at,
}
use libotfs.Veelite.Open.{open_file_cases, IsFile, file_at-IsFile}
use libotfs.Veelite.New.{
  Layout, Volume, sub_find_empty_header, sub_find_empty_heap, header_words, sub_new_file,
  sub_gfb_new, sub_isf_new, create_file, search_fn, count_files,
}
use libotfs.Veelite.Created.Headers.{empty_sound, header_written, none_opened, made_cases}

module _ {A : Type 0} (g : Guard A) (c : Layout) where
  opened_fsram : (h : ℕ) (v : Veelite A) → (vl_open_file h v).1.fsram ≡ v.fsram
  opened_fsram h v = elim (open_file_cases g h v) [
    | inl (e, r) ↦ ap (λ x. x.1.fsram) r
    | inr (i, e, r) ↦ ap (λ x. x.1.fsram) r
  ]

  opened_file :
      (h i : ℕ) (v : Veelite A)
      → (vl_open_file h v).0 ≡ some i
      → (vl_open_file h v).1.vlfile i ≡ file_at h v.fsram
  opened_file h i v opened = elim (open_file_cases g h v) [
    | inl (e, r) ↦ absurd (none_opened i (sym (ap (λ x. x.0) r) ∙ opened))
    | inr (j, e, r) ↦
        let same : j ≡ i = some-injective j i (sym (ap (λ x. x.0) r) ∙ opened) in
        ap (λ x. x.1.vlfile i) r ∙ ground (arith, same)
  ]

  -- What a new file that is open has left.
  new_cases :
      (f : VlHeader) (heap_base heap_end base window i : ℕ) (v : Veelite A)
      → (sub_new_file f heap_base heap_end base window v).0 ≡ some i
      → let h = sub_find_empty_header base window v.fsram in
        (b : ℕ) × (h ≢ null_vaddr)
        × (b ≢ null_vaddr)
        × ((sub_new_file f heap_base heap_end base window v).1.fsram
            ≡ sub_write_header h (header_words (record f { base = b })) v.fsram)
        × ((sub_new_file f heap_base heap_end base window v).1.vlfile i
            ≡ file_at h (sub_write_header h (header_words (record f { base = b })) v.fsram))
  unfolding sub_new_file
  new_cases f heap_base heap_end base window i v e =
      let h = sub_find_empty_header base window v.fsram in
      let b = sub_find_empty_heap heap_base heap_end base f.alloc window v.fsram in
      let w : Veelite A = record v {
        fsram = sub_write_header h (header_words (record f { base = b })) v.fsram;
      } in
      let choice : Bool → Option ℕ × Veelite A = λ x. if x then (none, v) else vl_open_file h w in
      elim (Bool-cases (h == null_vaddr || b == null_vaddr)) [
        | inl full ↦ absurd (none_opened i (sym (ap (λ x. (choice x).0) full) ∙ e))
        | inr free ↦ (
          b,
          ground (arith, free),
          ground (arith, free),
          ap (λ x. (choice x).1.fsram) free ∙ opened_fsram h w,
          ap (λ x. (choice x).1.vlfile i) free
              ∙ opened_file h i w (sym (ap (λ x. (choice x).0) free) ∙ e),
        )
      ]

  -- Its header, one of those that were searched.
  new_header :
      (f : VlHeader) (heap_base heap_end base window i : ℕ) (v : Veelite A)
      → base + count16 window * header_size < 2 ^ 16
      → base % 2 ≡ 0
      → (sub_new_file f heap_base heap_end base window v).0 ≡ some i
      → let m' = (sub_new_file f heap_base heap_end base window v).1.fsram in
        (k : ℕ) × (k < count16 window)
        × (vworm_read (base + k * header_size + 6) v.fsram ≡ null_vaddr)
        × (vworm_read (base + k * header_size + 4) m' ≡ f.idmod)
        × (vworm_read (base + k * header_size + 6) m' ≢ null_vaddr)
        × (vworm_read (base + k * header_size) m' ≡ f.length)
        × (vworm_read (base + k * header_size + 8) m' ≡ f.mirror)
        × IsFile m'
            (base + k * header_size)
            ((sub_new_file f heap_base heap_end base window v).1.vlfile i)
  unfolding sub_find_empty_header
  new_header f heap_base heap_end base window i v fits even e =
      let (b, there, some_base, m', file) = new_cases f heap_base heap_end base window i v e in
      let new_disk = (sub_new_file f heap_base heap_end base window v).1.fsram in
      elim (empty_sound (count16 window) base v.fsram fits) [
        | inl full ↦ absurd (there full)
        | inr (k, lt, at, free) ↦
            let h = base + k * header_size in
            let w = header_written h (record f { base = b }) v.fsram (omega arith) (omega arith) in
            let written =
              m' ∙ ap (λ x. sub_write_header x (header_words (record f { base = b })) v.fsram) at in
            (
              k,
              lt,
              free,
              ap (vworm_read (h + 4)) written ∙ w.1,
              λ is_null. some_base (sym w.2 ∙ sym (ap (vworm_read (h + 6)) written) ∙ is_null),
              ap (vworm_read h) written ∙ w.3,
              ap (vworm_read (h + 8)) written ∙ w.4,
              subst (IsFile new_disk h)
                  (sym (
                    file
                    ∙ ap
                        (λ x.
                          file_at x
                            (sub_write_header x (header_words (record f { base = b })) v.fsram))
                        at
                    ∙ ap (file_at h) (sym written)))
                  (file_at-IsFile h new_disk),
            )
      ]

  abbrev fresh : Bool → VlHeader → ℕ → ℕ → ℕ → Veelite A → Option ℕ × Veelite A
  fresh first stack id mode max_length v =
      if first then sub_gfb_new c stack id mode v else sub_isf_new c stack id mode max_length v

  fresh_header :
      (first : Bool) (stack : VlHeader) (id mode max_length i : ℕ) (v : Veelite A)
      → let base = if first then c.gfb_header_start_user else c.isf_header_start_user in
        let window = if first then c.gfb_num_user_files else c.isf_num_user_files in
        base + count16 window * header_size < 2 ^ 16
        → base % 2 ≡ 0
        → (fresh first stack id mode max_length v).0 ≡ some i
        → let m' = (fresh first stack id mode max_length v).1.fsram in
          (k : ℕ) × (k < count16 window)
          × (vworm_read (base + k * header_size + 6) v.fsram ≡ null_vaddr)
          × (vworm_read (base + k * header_size + 4) m' ≡ id + 256 * mode)
          × (vworm_read (base + k * header_size + 6) m' ≢ null_vaddr)
          × (vworm_read (base + k * header_size) m' ≡ 0)
          × (vworm_read (base + k * header_size + 8) m' ≡ null_vaddr)
          × IsFile m' (base + k * header_size) ((fresh first stack id mode max_length v).1.vlfile i)
  unfolding sub_gfb_new sub_isf_new
  fresh_header true stack id mode max_length i v fits even e = new_header _ _ _ _ _ i v fits even e
  fresh_header false stack id mode max_length i v fits even e = new_header _ _ _ _ _ i v fits even e

  -- The headers for the files of a block that are made at run time.
  abbrev new_headers : ℕ → ℕ
  new_headers block_id = if block_id == 1 then c.gfb_header_start_user else c.isf_header_start_user

  abbrev new_window : ℕ → ℕ
  new_window block_id = if block_id == 1 then c.gfb_num_user_files else c.isf_num_user_files

  -- A creation that returns 0, where the headers of the block's user files lie below 2^16 from an
  -- even address on, was for one of the two blocks and for a file that the search had not found.
  -- One of those headers, which was free, now has the ID, the mode, a base, no mirror and the length
  -- 0, and the file pointer that is given is the file of that header, field by field.
  pub create_file-search :
      (stack : VlHeader) (block_id id mode max_length : ℕ) (user : User) (fp_new fp : Option ℕ)
      (s s' : Volume A)
      → new_headers block_id + count16 (new_window block_id) * header_size < 2 ^ 16
      → new_headers block_id % 2 ≡ 0
      → create_file g c stack block_id id mode max_length user fp_new s ≡ (0, fp, s')
      → ((block_id ≡ 1) ⊎ (block_id ≡ 3))
        × (search_fn c block_id id s.veelite.fsram ≡ null_vaddr)
        × (i : ℕ) × (fp ≡ some i)
        × (k : ℕ) × (k < count16 (new_window block_id))
        × (let h = new_headers block_id + k * header_size in
            (vworm_read (h + 6) s.veelite.fsram ≡ null_vaddr)
            × (vworm_read (h + 4) s'.veelite.fsram ≡ id + 256 * mode)
            × (vworm_read (h + 6) s'.veelite.fsram ≢ null_vaddr)
            × (vworm_read h s'.veelite.fsram ≡ 0)
            × (vworm_read (h + 8) s'.veelite.fsram ≡ null_vaddr)
            × IsFile s'.veelite.fsram h (s'.veelite.vlfile i))
  unfolding create_file
  create_file-search stack block_id id mode max_length user fp_new fp s s' fits even e =
      let f = fresh (block_id == 1) stack id mode max_length (after user) in
      let (allowed, good, absent, i, opened, out, done) =
        made_cases (refused user) (not (block_id == 1) && not (block_id == 3))
          (not (search_fn c block_id id (after user).fsram == null_vaddr)) f.0 fp_new fp
          (record s { veelite = after user }) (record s { veelite = f.1 })
          (λ i. record { veelite = f.1; vlfs = count_files (λ n. u16 (n + 1)) block_id s.vlfs }) s'
          e in
      let (k, lt, free, ids, based, empty, plain, file) =
        fresh_header (block_id == 1) stack id mode max_length i (after user) fits even opened in
      let disk : f.1.fsram ≡ s'.veelite.fsram = ap (λ (x : Volume A). x.veelite.fsram) done in
      let h = new_headers block_id + k * header_size in
      (
        ground (arith, good),
        ap (search_fn c block_id id) (sym (same user)) ∙ ground (arith, absent),
        i,
        out,
        k,
        lt,
        (
          ap (vworm_read (h + 6)) (sym (same user)) ∙ free,
          ap (vworm_read (h + 4)) (sym disk) ∙ ids,
          λ is_null. based (ap (vworm_read (h + 6)) disk ∙ is_null),
          ap (vworm_read h) (sym disk) ∙ empty,
          ap (vworm_read (h + 8)) (sym disk) ∙ plain,
          subst (λ (x : Volume A). IsFile x.veelite.fsram h (x.veelite.vlfile i)) done file,
        ),
      )
    where
      checks : ℕ × A
      checks = g.check 0x38 0x12 user s.veelite.auth

      after : User → Veelite A
      after none = s.veelite
      after (some u) = record s.veelite { auth = checks.1 }

      refused : User → Bool
      refused none = false
      refused (some u) = checks.0 == 0

      same : (u : User) → (after u).fsram ≡ s.veelite.fsram
      same none = refl
      same (some u) = refl
