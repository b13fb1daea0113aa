-- ===== src/Veelite/Deleted.antt =====
-- otlib/veelite.c with VLNEW: what the deletion of a file leaves for the searches.
use libotfs.Prelude.{
  ℕ, ◌+◌, ◌-◌, ◌*◌, ◌^◌, ◌<◌, ◌≡◌, ◌≢◌, ◌∙◌, ◌⊎◌, inl, inr, refl, sym, ap, Bool, true, false, not,
  ◌&&◌, none, some, u16, byte, ◌==◌, if◌then◌else◌, arith,
}
use libotfs.Auth.{User}
use libotfs.Vworm.{Fsram, vworm_read, vworm_mark, vworm_write}
use libotfs.Veelite.{Veelite, Guard, header_scan, header_size, null_vaddr, count16, vl_access_rw}
use libotfs.Veelite.Search.{scan_sound, live}
use libotfs.Veelite.New.{
  Layout, Volume, sub_delete_file, delete_file, gfb_search, isf_search, sub_isf_delete_check,
  search_fn, check_fn, count_files,
}

deleted_base : (h : ℕ) (m : Fsram) → vworm_read (h + 6) (sub_delete_file h m) ≡ null_vaddr
unfolding sub_delete_file vworm_mark vworm_write vworm_read
deleted_base h m = ground arith

-- A header that was deleted is none that a later search gives.
scan_deleted :
    (n start id h : ℕ) (m : Fsram)
    → start + n * header_size < 2 ^ 16
    → h ≢ null_vaddr
    → header_scan n start id (sub_delete_file h m) ≢ h
scan_deleted n start id h m fits there found =
    elim (scan_sound n start id (sub_delete_file h m) fits) [
      | inl gone ↦ there (sym found ∙ gone)
      | inr (k, lt, at, alive) ↦ dead (ap (live (sub_delete_file h m) id) (sym found ∙ at) ∙ alive)
    ]
  where
    dead : live (sub_delete_file h m) id h ≢ true
    dead l = absurd (ground (arith, deleted_base h m, l))

-- The results of a deletion, by its three tests.
abbrev outcome {ℓ} : {S : Type ℓ} → Bool → Bool → Bool → S → S → S → ℕ × S
outcome bad free refused s w t =
    if bad then (255, s) else if free then (0x01, s) else if refused then (0x04, w) else (0, t)

outcome_cases {ℓ} :
    {S : Type ℓ} (bad free refused : Bool) (s w t s' : S)
    → outcome bad free refused s w t ≡ (0, s')
    → (bad ≡ false) × (free ≡ false) × (t ≡ s')
outcome_cases true free refused s w t s' e = absurd (ground (arith, ap (λ x. x.0) e))
outcome_cases false true refused s w t s' e = absurd (ground (arith, ap (λ x. x.0) e))
outcome_cases false false true s w t s' e = absurd (ground (arith, ap (λ x. x.0) e))
outcome_cases false false false s w t s' e = (refl, refl, ap (λ x. x.1) e)

checked_header :
    (allowed : Bool) (found : ℕ)
    → ((if allowed then found else null_vaddr) == null_vaddr) ≡ false
    → (allowed ≡ true) × (found ≢ null_vaddr)
checked_header true found e = (refl, ground (arith, e))
checked_header false found e = absurd (cc)

module _ {A : Type 0} (g : Guard A) (c : Layout) where
  abbrev checked : ℕ → ℕ → Volume A → ℕ
  checked block_id id s =
      if check_fn c block_id id then search_fn c block_id id s.veelite.fsram else null_vaddr

  -- What a deletion that returns 0 has done.
  deleted_cases :
      (block_id id : ℕ) (user : User) (s s' : Volume A)
      → delete_file g c block_id id user s ≡ (0, s')
      → ((block_id ≡ 1) ⊎ (block_id ≡ 3))
        × (check_fn c block_id id ≡ true)
        × (search_fn c block_id id s.veelite.fsram ≢ null_vaddr)
        × (s'.veelite.fsram ≡ sub_delete_file (checked block_id id s) s.veelite.fsram)
  unfolding delete_file
  deleted_cases block_id id user s s' e =
      let o =
        outcome_cases (not (block_id == 1) && not (block_id == 3))
          (checked block_id id s == null_vaddr) (refused user) s (record s { veelite = after user })
          (deletion user) s' e in
      let h =
        checked_header (check_fn c block_id id) (search_fn c block_id id s.veelite.fsram) o.1 in
      (
        ground (arith, o.0),
        h.0,
        h.1,
        ap (λ (x : Volume A). x.veelite.fsram) (sym o.2)
            ∙ ap (sub_delete_file (checked block_id id s)) (same user),
      )
    where
      checks : ℕ × A
      checks =
          g.check (byte 1 (vworm_read (checked block_id id s + 4) s.veelite.fsram)) vl_access_rw
            user s.veelite.auth

      after : User → Veelite A
      after none = s.veelite
      after (some u) = record s.veelite { auth = checks.1 }

      refused : User → Bool
      refused none = false
      refused (some u) = checks.0 == 0

      deletion : User → Volume A
      deletion u = record {
        veelite = record (after u) {
          fsram = sub_delete_file (checked block_id id s) (after u).fsram;
        };
        vlfs = count_files (λ n. u16 (n + 2 ^ 16 - 1)) block_id s.vlfs;
      }

      same : (u : User) → (after u).fsram ≡ s.veelite.fsram
      same none = refl
      same (some u) = refl

  pub isf_user :
      (id : ℕ) (m : Fsram)
      → sub_isf_delete_check c id ≡ true
      → isf_search c id m ≡ header_scan (count16 c.isf_num_user_files) c.isf_header_start_user id m
  unfolding isf_search
  isf_user id m e = rw (isf_search, e) refl

  -- A deletion that returns 0 has been asked for a file of one of the two blocks that may be
  -- deleted and that the search found: its header is free for a new file, and no later search gives
  -- it again, for any ID in the first block and any ID in the second that may be deleted. The
  -- headers of both blocks lie below 2^16.
  pub delete_file-search :
      (block_id id id1 id3 : ℕ) (user : User) (s s' : Volume A)
      → c.gfb_header_start + count16 c.gfb_num_user_files * header_size < 2 ^ 16
      → c.isf_header_start_user + count16 c.isf_num_user_files * header_size < 2 ^ 16
      → check_fn c 3 id3 ≡ true
      → delete_file g c block_id id user s ≡ (0, s')
      → let h = search_fn c block_id id s.veelite.fsram in
        ((block_id ≡ 1) ⊎ (block_id ≡ 3))
        × (check_fn c block_id id ≡ true)
        × (h ≢ null_vaddr)
        × (vworm_read (h + 6) s'.veelite.fsram ≡ null_vaddr)
        × (search_fn c 1 id1 s'.veelite.fsram ≢ h)
        × (search_fn c 3 id3 s'.veelite.fsram ≢ h)
  unfolding gfb_search isf_search
  delete_file-search block_id id id1 id3 user s s' gfb isf user_file e =
      let d = deleted_cases block_id id user s s' e in
      let h = search_fn c block_id id s.veelite.fsram in
      let m = s.veelite.fsram in
      let gone = d.3 ∙ ap (λ x. sub_delete_file (if x then h else null_vaddr) m) d.1 in
      (
        d.0,
        d.1,
        d.2,
        ap (vworm_read (h + 6)) gone ∙ deleted_base h m,
        λ found. scan_deleted (count16 c.gfb_num_user_files) c.gfb_header_start id1 h m gfb d.2 (
            ap (header_scan (count16 c.gfb_num_user_files) c.gfb_header_start id1) (sym gone)
            ∙ found),
        λ found.
            scan_deleted (count16 c.isf_num_user_files) c.isf_header_start_user id3 h m isf d.2 (
              ap (header_scan (count16 c.isf_num_user_files) c.isf_header_start_user id3) (sym gone)
              ∙ sym (isf_user id3 s'.veelite.fsram user_file)
              ∙ found),
      )
