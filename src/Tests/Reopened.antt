-- ===== src/Tests/Reopened.antt =====
-- A file of otlib/veelite.c that is opened, stored, closed and opened again.
use libotfs.Prelude.{ℕ, ◌≡◌, refl, some, none, arith}
use libotfs.Auth.{Table}
use libotfs.Memory.{Memory, bytes}
use libotfs.Vworm.{vworm_read}
use libotfs.Veelite.{
  Veelite, vl_open, vl_getheader_vaddr, sub_gfb_search, sub_header_search, vl_open_file, sub_new_fp,
  free_fp, file_at,
}
use libotfs.Veelite.Data.{vl_load, vl_store, vl_close}
use libotfs.Veelite.Persist.{IsLaid, vl_load-vl_close}
use libotfs.Tests.Samples.{guard, invoke, volume, buffer}

abbrev Vol : Type 0
Vol = Veelite (Table ℕ)

-- The file pointer 0 is in use already.
abbrev in_use : Vol
in_use = (vl_open guard 1 0 0x3F none (volume 0)).1

in_use-IsLaid : IsLaid in_use.fsram (in_use.vlfile 1)
unfolding vl_open vl_getheader_vaddr sub_gfb_search sub_header_search vl_open_file sub_new_fp
    free_fp file_at vworm_read
in_use-IsLaid = record {
  before = omega arith;
  even = omega arith;
  fits = omega arith;
  no_mirror = refl;
  no_action = refl;
}

vl_load-vl_close_example :
    (v2 : Vol) × (v3 : Vol) × (i : ℕ) × (v4 : Vol) × (m' : Memory) × (vl_store 1 3 500 buffer in_use
      ≡ some (0, v2))
    × (vl_close invoke 100 (some 1) v2 ≡ some (0, v3))
    × (vl_open guard 1 0 0x24 none v3 ≡ (some i, v4))
    × (vl_load 0 i 3 600 buffer v4 ≡ some (3, m'))
    × (bytes m' 600 3 ≡ bytes buffer 500 3)
unfolding vl_open vl_getheader_vaddr sub_gfb_search sub_header_search vl_open_file sub_new_fp
    free_fp file_at vworm_read
vl_load-vl_close_example =
    vl_load-vl_close guard invoke 1 0 0x3F 0x24 1 3 500 600 0 100 none buffer buffer (volume 0)
      in_use refl in_use-IsLaid (omega arith) (λ k lt. ground arith)
