-- ===== src/Tests/Files.antt =====
-- Runs of otlib/veelite.c on a volume with one file.
use libotfs.Prelude.{
  ℕ, ◌+◌, ◌*◌, ◌/◌, ◌≤◌, ◌<◌, ◌≡◌, ◌≢◌, ◌⊎◌, refl, true, false, some, none, arith,
}
use libotfs.Auth.{Table}
use libotfs.Memory.{Memory, bytes}
use libotfs.Vworm.{vworm, vworm_read}
use libotfs.Veelite.{
  vl_init, Veelite, put, null_vaddr, header_size, sub_header_search, sub_gfb_search, sub_new_fp,
  free_fp, file_at, vl_getheader_vaddr, vl_open, vl_open_file,
}
use libotfs.Veelite.Data.{vl_load, vl_store, vl_append, vl_write}
use libotfs.Veelite.Search.{sub_header_search_lem, live, has_id}
use libotfs.Veelite.Opened.{Fails, Opens, vl_open-IsFile}
use libotfs.Veelite.Transfer.{vl_load-vl_store, vl_store_outside}
use libotfs.Veelite.Append.{vl_append-overrun}
use libotfs.Veelite.Session.{begin, next, opens, vl_write-Session}
use libotfs.Tests.Samples.{guard, invoke, volume, disk, buffer, alice, keys}

abbrev Vol : Type 0
Vol = Veelite (Table ℕ)

abbrev gfb : ℕ
gfb = 1

abbrev second : ℕ
second = 2

vl_load-vl_store_example :
    (v' : Vol) × (m' : Memory) × (vl_store 0 3 500 buffer (volume 0) ≡ some (0, v'))
    × (vl_load 0 0 3 600 buffer v' ≡ some (3, m'))
    × (bytes m' 600 3 ≡ bytes buffer 500 3)
vl_load-vl_store_example =
    vl_load-vl_store 0 0 3 500 600 buffer buffer (volume 0) vworm vworm refl refl (omega arith)
      (omega arith) (omega arith) (λ k lt. ground arith)

vl_store_outside_example :
    (v' : Vol) × (vl_store 0 20 500 buffer (volume 0) ≡ some (0, v'))
    × (v'.fsram 36 ≡ (volume 0).fsram 36)
    × ((v'.vlfile 0).length ≤ 8)
vl_store_outside_example =
    vl_store_outside 0 20 500 36 buffer (volume 0) vworm refl (omega arith) (omega arith)
      (omega arith)

-- Two octets are appended to four: the third half-word, behind the file's new end, is written too.
vl_append-overrun_example :
    (v' : Vol) × (vl_append 0 2 500 buffer (volume 0) ≡ some (0, v'))
    × ((v'.vlfile 0).length ≡ 4 + 2)
    × (v'.fsram ((64 + 4) / 2 + 2) ≡ buffer (500 + 2 * 2) + 256 * buffer (500 + 2 * 2 + 1))
    × (v'.fsram 33 ≡ (volume 0).fsram 33)
vl_append-overrun_example =
    vl_append-overrun 0 2 500 2 33 buffer (volume 0) vworm refl (omega arith) (omega arith)
      (omega arith) (omega arith) (omega arith) (omega arith)

sub_header_search_lem_example :
    let r = sub_header_search 32 0 1 (disk 0) in
    (r ≡ null_vaddr) × ((1 ≤ 0) ⊎ (live (disk 0) 0 (32 + 0 * header_size) ≡ false))
    ⊎ (j : ℕ) × (j < 1) × (r ≡ 32 + j * header_size) × (has_id (disk 0) 0 r ≡ true)
sub_header_search_lem_example =
    sub_header_search_lem 32 0 1 0 (disk 0) (omega arith) (omega arith) (omega arith)

vl_open-IsFile_example :
    let (fp, v') = vl_open guard 1 0 0x24 alice (volume 0) in
    (v'.fsram ≡ disk 0)
    × ((alice ≢ none) ⊎ (v'.auth ≡ keys 3))
    × ((fp ≡ none) × (v'.vlfile ≡ (volume 0).vlfile) × Fails guard 1 0 0x24 alice (volume 0)
        ⊎ (i : ℕ) × (fp ≡ some i) × Opens guard 1 0 0x24 alice (volume 0) i v')
vl_open-IsFile_example = vl_open-IsFile guard 1 0 0x24 alice (volume 0) (omega arith)

-- The file as after a write of two half-words.
abbrev touched : Vol
touched = record (volume 0) { vlfile = put (volume 0).vlfile 1 (file_at 32 (disk 0)) }

abbrev begun : Vol
begun = (vl_init (volume 0)).1

abbrev in_use : Vol
in_use = (vl_open guard 1 0 0x3F none begun).1

vl_write-Session_example : vl_write 0 6 0xABCD in_use ≢ none
unfolding vl_init vl_open vl_getheader_vaddr sub_gfb_search sub_header_search vl_open_file
    sub_new_fp free_fp file_at vworm_read
vl_write-Session_example =
    vl_write-Session guard invoke (volume 0) in_use 0 6 0xABCD (λ a i u h. h)
      (next begun begun in_use (begin begun) (opens 1 0 0x3F none begun)) (λ e. absurd (cc))
