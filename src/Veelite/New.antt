-- ===== src/Veelite/New.antt =====
-- otlib/veelite.c with VLNEW, which compiles without MULTIFS only: the creation and deletion of
-- files, where both blocks have files of the user and the first has a heap. The bounds of the build's
-- filesystem, constants of its fs_config.h, are a record.
use libotfs.Prelude.{
  ℕ, zero, suc, ◌+◌, ◌-◌, ◌*◌, ◌/◌, ◌%◌, ◌^◌, Bool, false, ◌&&◌, ◌||◌, not, Option, none, some,
  List, [], ◌∷◌, u8, u16, s16, byte, ltb, leb, ◌==◌, if◌then◌else◌,
}
use libotfs.Prelude.Int.{ℤ, pos, sub_ℕ, ltb_ℤ}
use libotfs.Auth.{User}
use libotfs.Vworm.{Fsram, FsHeader, vworm_read, vworm_mark}
use libotfs.Veelite.{
  Veelite, Guard, VlHeader, header_scan, header_size, sub_write_header, vl_open_file, null_vaddr,
  vl_access_rw, count16,
}

-- For a block: where its headers and its heap begin and end, and the counts of its files.
pub record Layout : Type 0 where
  pub gfb_header_start : ℕ
  pub gfb_header_start_user : ℕ
  pub gfb_num_stock_files : ℕ
  pub gfb_num_user_files : ℕ
  pub gfb_file_bytes : ℕ
  pub gfb_heap_user_start : ℕ
  pub gfb_heap_end : ℕ
  pub isf_header_start : ℕ
  pub isf_header_start_user : ℕ
  pub isf_num_mirrored_files : ℕ
  pub isf_num_stock_files : ℕ
  pub isf_num_ext_files : ℕ
  pub isf_num_user_files : ℕ
  pub isf_heap_user_start : ℕ
  pub isf_heap_end : ℕ

-- The first of `n` headers from `header` on that is free.
unfoldable pub empty_scan : ℕ → ℕ → Fsram → ℕ
unfolding vworm_read
empty_scan zero header m = null_vaddr
empty_scan (suc n) header m =
    let later = empty_scan n (u16 (header + header_size)) m in
    if vworm_read (header + 6) m == null_vaddr then header else later

unfoldable pub sub_find_empty_header : ℕ → ℕ → Fsram → ℕ
unfolding empty_scan
sub_find_empty_header header num_headers m = empty_scan (count16 num_headers) header m

-- The inner loop of `sub_find_empty_heap`: the gap between `heap_base` and a file behind it, if it
-- is the closest.
unfoldable pub closest_scan : ℕ → ℕ → ℕ → ℤ → Fsram → ℤ
unfolding vworm_read
closest_scan zero loop2 heap_base closest_gap m = closest_gap
closest_scan (suc n) loop2 heap_base closest_gap m =
    let loop2_base = vworm_read (loop2 + 6) m in
    let gap = s16 (sub_ℕ loop2_base heap_base) in
    closest_scan n (u16 (loop2 + header_size)) heap_base
      (if not (loop2_base == null_vaddr) && ltb heap_base loop2_base && ltb_ℤ gap closest_gap
        then gap
        else closest_gap)
      m

-- The outer loop, with its variables `heap_base`, `closest_gap`, `bestfit_alloc` and `bestfit_base`.
unfoldable pub heap_scan : ℕ → ℕ → ℕ → ℕ → ℕ → ℕ → ℤ → ℤ → ℕ → Fsram → ℕ
unfolding vworm_read closest_scan
heap_scan zero loop1 header num new_alloc heap_base closest_gap bestfit_alloc bestfit_base m =
    bestfit_base
heap_scan (suc n) loop1 header num new_alloc heap_base closest_gap bestfit_alloc bestfit_base m =
    let loop1_alloc = vworm_read (loop1 + 2) m in
    let loop1_base = vworm_read (loop1 + 6) m in
    let used = not (loop1_base == null_vaddr) in
    let base = if used then u16 (loop1_base + loop1_alloc) else heap_base in
    let gap = if used then closest_scan num header base closest_gap m else closest_gap in
    let fits = not (ltb_ℤ gap (pos new_alloc)) && ltb_ℤ gap bestfit_alloc in
    heap_scan n (u16 (loop1 + header_size)) header num new_alloc base gap
      (if fits then gap else bestfit_alloc) (if fits then base else bestfit_base) m

unfoldable pub sub_find_empty_heap : ℕ → ℕ → ℕ → ℕ → ℕ → Fsram → ℕ
unfolding heap_scan
sub_find_empty_heap heap_base heap_end header new_alloc num_headers m =
    let num = count16 num_headers in
    heap_scan num header header num new_alloc heap_base (s16 (sub_ℕ heap_end heap_base)) (pos 32767)
      null_vaddr m

-- The half-words of a `vl_header_t`.
abbrev pub header_words : VlHeader → List ℕ
header_words h =
    h.length
    ∷ h.alloc
    ∷ h.idmod
    ∷ h.base
    ∷ h.mirror
    ∷ h.actioncode
    ∷ h.modtime % 2 ^ 16
    ∷ h.modtime / 2 ^ 16
    ∷ []

-- The state of the file calls, and the counts of files in the variable `vlfs`.
pub record Volume (A : Type 0) : Type 0 where
  pub veelite : Veelite A
  pub vlfs : FsHeader

-- `block[block_id].files += 1` and `-= 1`
abbrev pub count_files : (ℕ → ℕ) → ℕ → FsHeader → FsHeader
count_files f block_id fs =
    if block_id == 1
    then record fs { gfb = record fs.gfb { files = f fs.gfb.files } }
    else record fs { isf = record fs.isf { files = f fs.isf.files } }

unfoldable pub sub_gfb_delete_check : Layout → ℕ → Bool
sub_gfb_delete_check c id = ltb c.gfb_num_stock_files id

unfoldable pub sub_isf_delete_check : Layout → ℕ → Bool
sub_isf_delete_check c id = leb c.isf_num_mirrored_files id && ltb id (256 - c.isf_num_ext_files)

-- The searches of this build.
unfoldable pub gfb_search : Layout → ℕ → Fsram → ℕ
unfolding header_scan
gfb_search c id m = header_scan (count16 c.gfb_num_user_files) c.gfb_header_start id m

unfoldable pub isf_search : Layout → ℕ → Fsram → ℕ
unfolding header_scan sub_isf_delete_check
isf_search c id m =
    let place =
      if ltb (255 - c.isf_num_ext_files) id then u8 (c.isf_num_stock_files + (255 - id)) else id in
    if sub_isf_delete_check c id
    then header_scan (count16 c.isf_num_user_files) c.isf_header_start_user id m
    else u16 (header_size * place + c.isf_header_start)

-- `search_fn`, and `check_fn` for it.
abbrev pub search_fn : Layout → ℕ → ℕ → Fsram → ℕ
search_fn c block_id id m = if block_id == 1 then gfb_search c id m else isf_search c id m

abbrev pub check_fn : Layout → ℕ → ℕ → Bool
check_fn c block_id id =
    if block_id == 1 then sub_gfb_delete_check c id else sub_isf_delete_check c id

-- `vworm_wipeblock` does nothing on this platform.
unfoldable pub sub_delete_file : ℕ → Fsram → Fsram
unfolding vworm_mark
sub_delete_file del_header m =
    (vworm_mark (del_header + 6) null_vaddr (vworm_mark (del_header + 2) 0 m).1).1

module _ {A : Type 0} where
  unfoldable pub sub_new_file : VlHeader → ℕ → ℕ → ℕ → ℕ → Veelite A → Option ℕ × Veelite A
  sub_new_file new_header heap_base heap_end header_base header_window v =
      let header_addr = sub_find_empty_header header_base header_window v.fsram in
      let base =
        sub_find_empty_heap heap_base heap_end header_base new_header.alloc header_window v.fsram in
      if header_addr == null_vaddr || base == null_vaddr
      then (none, v)
      else vl_open_file header_addr (record v {
        fsram =
            sub_write_header header_addr (header_words (record new_header { base = base })) v.fsram;
      })

  -- The fields that the source leaves unset, the action and the time, are those of `stack`.
  unfoldable pub sub_gfb_new : Layout → VlHeader → ℕ → ℕ → Veelite A → Option ℕ × Veelite A
  sub_gfb_new c stack id mode v =
      sub_new_file
        (record stack {
          length = 0;
          alloc = c.gfb_file_bytes;
          idmod = id + 256 * mode;
          mirror = null_vaddr;
        })
        c.gfb_heap_user_start c.gfb_heap_end c.gfb_header_start_user c.gfb_num_user_files v

  -- `max_length` is an `ot_u8` here; it is made even.
  unfoldable pub sub_isf_new : Layout → VlHeader → ℕ → ℕ → ℕ → Veelite A → Option ℕ × Veelite A
  sub_isf_new c stack id mode max_length v =
      sub_new_file
        (record stack {
          length = 0;
          alloc = (u8 max_length + 1) / 2 * 2;
          idmod = id + 256 * mode;
          mirror = null_vaddr;
        })
        c.isf_heap_user_start c.isf_heap_end c.isf_header_start_user c.isf_num_user_files v

  -- A block of number 2 is one that was removed. The second part of the result is `*fp_new`.
  unfoldable pub create_file :
      Guard A
      → Layout
      → VlHeader
      → ℕ
      → ℕ
      → ℕ
      → ℕ
      → User
      → Option ℕ
      → Volume A
      → ℕ × Option ℕ × Volume A
  create_file g c stack block_id data_id mode max_length user_id fp_new s =
      let (test, auth) = g.check 0x38 0x12 user_id s.veelite.auth in
      let v : Veelite A = elim user_id [
        | none ↦ s.veelite
        | some u ↦ record s.veelite { auth = auth }
      ] in
      let refused : Bool = elim user_id [ none ↦ false | some u ↦ test == 0 ] in
      let header = search_fn c block_id data_id v.fsram in
      let (fp, w) =
        if block_id == 1
        then sub_gfb_new c stack data_id mode v
        else sub_isf_new c stack data_id mode max_length v in
      if refused
      then (0x04, fp_new, record s { veelite = v })
      else if not (block_id == 1) && not (block_id == 3)
      then (0xFF, fp_new, record s { veelite = v })
      else if not (header == null_vaddr)
      then (0x02, fp_new, record s { veelite = v })
      else (elim fp [
        | none ↦ (0x06, none, record s { veelite = w })
        | some i ↦ (
          0,
          some i,
          record { veelite = w; vlfs = count_files (λ n. u16 (n + 1)) block_id s.vlfs },
        )
      ])

  unfoldable pub delete_file : Guard A → Layout → ℕ → ℕ → User → Volume A → ℕ × Volume A
  delete_file g c block_id data_id user_id s =
      let v = s.veelite in
      let header =
        if check_fn c block_id data_id then search_fn c block_id data_id v.fsram else null_vaddr in
      let (test, auth) =
        g.check (byte 1 (vworm_read (header + 4) v.fsram)) vl_access_rw user_id v.auth in
      let w : Veelite A = elim user_id [ none ↦ v | some u ↦ record v { auth = auth } ] in
      let refused : Bool = elim user_id [ none ↦ false | some u ↦ test == 0 ] in
      if not (block_id == 1) && not (block_id == 3)
      then (255, s)
      else if header == null_vaddr
      then (0x01, s)
      else if refused
      then (0x04, record s { veelite = w })
      else (
        0,
        record {
          veelite = record w { fsram = sub_delete_file header w.fsram };
          vlfs = count_files (λ n. u16 (n + 2 ^ 16 - 1)) block_id s.vlfs;
        },
      )
