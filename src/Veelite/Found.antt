-- ===== src/Veelite/Found.antt =====
-- otlib/veelite.c with VLNEW: the search for a file that was created.
use libotfs.Prelude.{
  ℕ, ◌+◌, ◌*◌, ◌%◌, ◌^◌, ◌<◌, ◌≡◌, ◌≢◌, ◌∙◌, ◌⊎◌, inl, inr, sym, true, false, Bool-cases, Option,
  ◌==◌, arith,
}
use libotfs.Auth.{User}
use libotfs.Vworm.{Fsram, vworm_read}
use libotfs.Veelite.{VlHeader, Guard, header_size, null_vaddr, count16}
use libotfs.Veelite.Search.{live, scan_complete}
use libotfs.Veelite.Deleted.{isf_user}
use libotfs.Veelite.New.{check_fn, Layout, Volume, create_file, search_fn}
use libotfs.Veelite.Created.{create_file-search}

module _ {A : Type 0} (g : Guard A) (c : Layout) where
  -- After a creation that returns 0 of a file in the block whose IDs may be deleted, where the
  -- headers of the block's user files lie below 2^16 from an even address on, the search finds its
  -- ID, which it had not found before, unless the heap gave the base 0: a header that was free has
  -- the new ID and mode and that base.
  pub create_file-found :
      (stack : VlHeader) (id mode max_length : ℕ) (user : User) (fp_new fp : Option ℕ)
      (s s' : Volume A)
      → c.isf_header_start_user + count16 c.isf_num_user_files * header_size < 2 ^ 16
      → c.isf_header_start_user % 2 ≡ 0
      → id < 256
      → check_fn c 3 id ≡ true
      → create_file g c stack 3 id mode max_length user fp_new s ≡ (0, fp, s')
      → (search_fn c 3 id s.veelite.fsram ≡ null_vaddr)
        × ((search_fn c 3 id s'.veelite.fsram ≢ null_vaddr)
            ⊎ (k : ℕ) × (k < count16 c.isf_num_user_files)
              × (let h = c.isf_header_start_user + k * header_size in
                  (vworm_read (h + 6) s.veelite.fsram ≡ null_vaddr)
                  × (vworm_read (h + 4) s'.veelite.fsram ≡ id + 256 * mode)
                  × (vworm_read (h + 6) s'.veelite.fsram ≡ 0)))
  create_file-found stack id mode max_length user fp_new fp s s' fits even small user_file e =
      let (block, absent, i, out, k, lt, at_header) =
        create_file-search g c stack 3 id mode max_length user fp_new fp s s' fits even e in
      let h = c.isf_header_start_user + k * header_size in
      let m = s'.veelite.fsram in
      (
        absent,
        elim (Bool-cases (vworm_read (h + 6) m == 0)) [
          | inl z ↦ inr (k, lt, (at_header.0, at_header.1, ground (arith, z)))
          | inr z ↦ inl (λ gone.
              scan_complete (count16 c.isf_num_user_files) c.isf_header_start_user id k m fits lt
                (alive h m z at_header.1 at_header.2) (sym (isf_user g c id m user_file) ∙ gone))
        ],
      )
    where
      alive :
          (h : ℕ) (m : Fsram)
          → (vworm_read (h + 6) m == 0) ≡ false
          → vworm_read (h + 4) m ≡ id + 256 * mode
          → vworm_read (h + 6) m ≢ null_vaddr
          → live m id h ≡ true
      alive h m z ids based = ground (arith, z, ids, based, small)
