-- ===== src/Tests/Volumes.antt =====
-- Runs of otlib/veelite.c with VLNEW on a volume with one file.
use libotfs.Prelude.{◌*◌, ◌<◌, Option, some, ℕ, ◌+◌, ◌≡◌, ◌≢◌, ◌⊎◌, refl, true, none, arith}
use libotfs.Auth.{Table}
use libotfs.Vworm.{fshdr, vworm_read}
use libotfs.Veelite.{null_vaddr, header_scan, VlHeader, count16, header_size, vl_open_file}
use libotfs.Veelite.Open.{IsFile}
use libotfs.Veelite.New.{
  create_file, sub_isf_new, sub_new_file, sub_find_empty_header, sub_find_empty_heap, empty_scan,
  Layout, Volume, search_fn, check_fn, sub_isf_delete_check, isf_search, sub_delete_file,
  delete_file,
}
use libotfs.Veelite.Deleted.{delete_file-search}
use libotfs.Veelite.Created.{create_file-search}
use libotfs.Veelite.Found.{create_file-found}
use libotfs.Tests.Samples.{guard, volume, disk}

-- The second block has one header, at 32, for files that are made at run time.
abbrev layout : Layout
layout = record {
  gfb_header_start = 32;
  gfb_header_start_user = 32;
  gfb_num_stock_files = 1;
  gfb_num_user_files = 1;
  gfb_file_bytes = 8;
  gfb_heap_user_start = 64;
  gfb_heap_end = 128;
  isf_header_start = 32;
  isf_header_start_user = 32;
  isf_num_mirrored_files = 0;
  isf_num_stock_files = 0;
  isf_num_ext_files = 0;
  isf_num_user_files = 1;
  isf_heap_user_start = 64;
  isf_heap_end = 128;
}

abbrev whole : Volume (Table ℕ)
whole = record {
  veelite = volume 0;
  vlfs = record (fshdr (disk 0)) { isf = record { alloc = 8; used = 8; files = 1 } };
}

abbrev emptied : Volume (Table ℕ)
emptied = record {
  veelite = record (volume 0) { fsram = sub_delete_file 32 (disk 0) };
  vlfs = record whole.vlfs { isf = record { alloc = 8; used = 8; files = 0 } };
}

delete_file-search_example :
    let h = search_fn layout 3 0 whole.veelite.fsram in
    let id : ℕ = 3 in
    ((id ≡ 1) ⊎ (id ≡ 3))
    × (check_fn layout 3 0 ≡ true)
    × (h ≢ null_vaddr)
    × (vworm_read (h + 6) emptied.veelite.fsram ≡ null_vaddr)
    × (search_fn layout 1 3 emptied.veelite.fsram ≢ h)
    × (search_fn layout 3 0 emptied.veelite.fsram ≢ h)
unfolding delete_file isf_search sub_isf_delete_check header_scan vworm_read
delete_file-search_example =
    delete_file-search guard layout 3 0 3 0 none whole emptied (omega arith) (omega arith) refl refl

abbrev stack : VlHeader
stack = record {
  length = 7;
  alloc = 7;
  idmod = 7;
  base = 7;
  mirror = 7;
  actioncode = 7;
  modtime = 7;
}

abbrev created : Volume (Table ℕ)
created = (create_file guard layout stack 3 5 0x24 8 none none emptied).2

create_file-search_example :
    let block_id : ℕ = 3 in
    let fp : Option ℕ = some 1 in
    ((block_id ≡ 1) ⊎ (block_id ≡ 3))
    × (search_fn layout 3 5 emptied.veelite.fsram ≡ null_vaddr)
    × (i : ℕ) × (fp ≡ some i)
    × (k : ℕ) × (k < count16 1)
    × (let h = 32 + k * header_size in
        (vworm_read (h + 6) emptied.veelite.fsram ≡ null_vaddr)
        × (vworm_read (h + 4) created.veelite.fsram ≡ 5 + 256 * 0x24)
        × (vworm_read (h + 6) created.veelite.fsram ≢ null_vaddr)
        × (vworm_read h created.veelite.fsram ≡ 0)
        × (vworm_read (h + 8) created.veelite.fsram ≡ null_vaddr)
        × IsFile created.veelite.fsram h (created.veelite.vlfile i))
unfolding create_file sub_isf_new sub_new_file sub_find_empty_header sub_find_empty_heap empty_scan
    vl_open_file isf_search sub_isf_delete_check header_scan vworm_read sub_delete_file
create_file-search_example =
    create_file-search guard layout stack 3 5 0x24 8 none none (some 1) emptied created
      (omega arith) refl refl

create_file-found_example :
    (search_fn layout 3 5 emptied.veelite.fsram ≡ null_vaddr)
    × ((search_fn layout 3 5 created.veelite.fsram ≢ null_vaddr)
        ⊎ (k : ℕ) × (k < count16 1)
          × (let h = 32 + k * header_size in
              (vworm_read (h + 6) emptied.veelite.fsram ≡ null_vaddr)
              × (vworm_read (h + 4) created.veelite.fsram ≡ 5 + 256 * 0x24)
              × (vworm_read (h + 6) created.veelite.fsram ≡ 0)))
unfolding create_file sub_isf_new sub_new_file sub_find_empty_header sub_find_empty_heap empty_scan
    vl_open_file isf_search sub_isf_delete_check header_scan vworm_read sub_delete_file
create_file-found_example =
    create_file-found guard layout stack 5 0x24 8 none none (some 1) emptied created (omega arith)
      refl (omega arith) refl refl
