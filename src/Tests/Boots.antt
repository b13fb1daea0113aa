-- ===== src/Tests/Boots.antt =====
-- Runs of `auth_init` of otlib/auth.c, and of `otfs_load_defaults` of main/otfs.c.
use libotfs.Prelude.{ℕ, ◌+◌, ◌≡◌, ◌⊎◌, refl, none, some, ◌==◌, if◌then◌else◌, arith, u16}
use libotfs.Prelude.Int.{pos}
use libotfs.Auth.{Table, mod_root, mod_user}
use libotfs.Vworm.{Fsram}
use libotfs.Vworm.Defaults.{Images, IsBuilt, stock}
use libotfs.Veelite.{Veelite}
use libotfs.Veelite.Boot.{Boot, auth_init, load_key, use_file}
use libotfs.Veelite.Data.{isf_open_su, vl_load, vl_close}
use libotfs.Veelite.Boot.Kept.{auth_init_keeps}
use libotfs.Multifs.{Multi, block}
use libotfs.Multifs.Front.{Otfs}
use libotfs.Multifs.Load.{otfs_load_defaults, otfs_load_defaults-stock, total}
use libotfs.Tests.Samples.{eax, guard, volume, disk, buffer}

-- A key file of the root with ID 0 at 80, behind the GFB file of the sample; the user has none.
abbrev key_disk : Fsram
key_disk x =
    if x == 11
    then 1
    else if x == 24
    then 22
    else if x == 25
    then 24
    else if x == 26
    then 0x3F00
    else if x == 27
    then 80
    else if x == 28
    then 0xFFFF
    else if x == 41
    then 5000
    else disk 0 x

abbrev boot : Boot ℕ
boot = record {
  eax = eax;
  guard = guard;
  invoke = λ a fp v. (a, v);
  epoch_s = 100;
  prn = 7;
  root_key_id = 0;
  kfile = 300;
  scratch = 0;
}

abbrev before : Veelite (Table ℕ)
before = record (volume 0) { fsram = key_disk }

abbrev after : Veelite (Table ℕ)
after = elim (auth_init boot buffer before) as (λ o. Veelite (Table ℕ)) [
  | none ↦ before
  | some v ↦ v
]

auth_init_keeps_example :
    (after.auth.size ≡ 3)
    × (after.auth.info 2 ≡ before.auth.info 2)
    × (after.auth.ctx 2 ≡ before.auth.ctx 2)
    × ((after.auth.info 0 ≡ before.auth.info 0)
        ⊎ ((after.auth.info 0).id ≡ 0) × ((after.auth.info 0).mflags ≡ mod_root))
    × ((after.auth.info 1 ≡ before.auth.info 1)
        ⊎ ((after.auth.info 1).id ≡ 1) × ((after.auth.info 1).mflags ≡ mod_user))
unfolding auth_init load_key use_file isf_open_su vl_load vl_close
auth_init_keeps_example =
    auth_init_keeps boot (λ a fp v. refl) 2 buffer before after (omega arith) refl

-- Each section has as many octets as its number says.
abbrev images : Images
images = record {
  overhead_files = λ x. if x == 0 then 32 else if x == 3 then 8 else if x == 9 then 16 else 0;
  gfb_stock_files = λ x. 0x1100 + x;
  iss_stock_files = λ x. 0;
  isf_stock_files = λ x. 0x2200 + x;
  overhead_total_bytes = 32;
  gfb_total_bytes = 8;
  iss_total_bytes = 0;
  iss_stock_bytes = 0;
  isf_total_bytes = 16;
  isf_stock_bytes = 16;
}

abbrev images-IsBuilt : IsBuilt images
images-IsBuilt = omega arith

abbrev one_disk : Multi (Table ℕ) ℕ
one_disk = record { judy = 0; fstab = 0; base = 200; memory = λ b x. 0; veelite = volume 0 }

abbrev no_disk : Otfs
no_disk = record { uid = 5; base = 0; alloc = 0 }

otfs_load_defaults-stock_example :
    let (size, fs', s') = otfs_load_defaults images (λ n s. 300) (some no_disk) 1000 one_disk in
    (size ≡ pos (u16 (total images)))
    × (fs' ≡ some (record no_disk { alloc = total images; base = 300 }))
    × (block s' 300 18 ≡ stock images (block one_disk 300) 18)
otfs_load_defaults-stock_example =
    otfs_load_defaults-stock (λ n s. 300) images images-IsBuilt no_disk 1000 300 18 one_disk
      (omega arith) (omega arith) (omega arith)
