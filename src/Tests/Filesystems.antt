-- ===== src/Tests/Filesystems.antt =====
-- Runs of otlib/veelite_multifs.c and main/otfs.c with two filesystems in the table.
use libotfs.Prelude.{
  ℕ, ◌≡◌, ◌≢◌, refl, Option, none, some, true, List, [], ◌∷◌, ◌==◌, if◌then◌else◌, arith,
}
use libotfs.Prelude.Int.{ℤ, pos}
use libotfs.Auth.{Table}
use libotfs.Vworm.{vworm_write}
use libotfs.Veelite.{Veelite}
use libotfs.Multifs.{Multi, vl_multifs_add}
use libotfs.Multifs.Judies.{find, get_or_zero}
use libotfs.Multifs.Front.{Otfs, otfs_new, otfs_del, otfs_setfs, otfs_deinit}
use libotfs.Multifs.Visits.{Work, run, replay, disks, run-replay}
use libotfs.Multifs.Table.{Selected, otfs_setfs-otfs_new, otfs_setfs-otfs_del}
use libotfs.Multifs.Deinit.{otfs_deinit-bases}
use libotfs.Tests.Samples.{disk, volume}
use libotfs.Tests.Lists.{Store, lists, lists-IsJudy}

-- The IDs 7 and 9, at 100 and 200; the second is selected.
abbrev shelf : Store
shelf = record { pairs = (7, 100) ∷ (9, 200) ∷ []; rest = []; place = none; value = 0 }

abbrev two_disks : Multi (Table ℕ) Store
two_disks = record {
  judy = shelf;
  fstab = 0;
  base = 200;
  memory = λ b. if b == 100 then disk 1 else λ x. 0;
  veelite = volume 0;
}

-- A client that writes a word at the vaddr 64.
abbrev write_word : ℕ → Work (Table ℕ)
write_word w v = record v { fsram = (vworm_write 64 w v.fsram).1 }

abbrev client : List (ℕ × Work (Table ℕ))
client = (7, write_word 11) ∷ (9, write_word 22) ∷ (8, write_word 33) ∷ (7, write_word 44) ∷ []

run-replay_example :
    disks (run lists 1 client two_disks) ≡ replay (λ k. find k shelf.pairs) client (disks two_disks)
run-replay_example =
    run-replay lists-IsJudy (omega arith) client (λ k. find k shelf.pairs) two_disks (λ k. refl)
      (λ k e. ground (arith, e))

abbrev third : Otfs
third = record { uid = 5; base = 300; alloc = 0 }

abbrev booted : Veelite (Table ℕ) → Option (Veelite (Table ℕ))
booted v = some v

abbrev three_disks : Multi (Table ℕ) Store
three_disks = (elim (otfs_new lists booted 1 third two_disks) as (λ o. Multi (Table ℕ) Store) [
  | none ↦ two_disks
  | some (r, s) ↦ s
])

otfs_setfs-otfs_new_example :
    (get_or_zero (find 5 shelf.pairs) ≡ 0)
    × Selected 5 300 three_disks (otfs_setfs lists 1 (some third) 5 three_disks)
unfolding otfs_new vl_multifs_add
otfs_setfs-otfs_new_example =
    otfs_setfs-otfs_new lists-IsJudy (omega arith) booted third third two_disks three_disks
      three_disks (omega arith) (omega arith) (omega arith) refl refl

abbrev old_disk : Otfs
old_disk = record { uid = 9; base = 200; alloc = 0 }

abbrev after_del : ℤ × List ℕ × Multi (Table ℕ) Store
after_del = otfs_del lists 1 (some old_disk) true two_disks

otfs_setfs-otfs_del_example :
    let (rc, freed, s1) = after_del in
    let (rc', fs', s2) = otfs_setfs lists 1 (some third) 9 s1 in
    (rc ≡ pos 0)
    × (freed ≡ 200 ∷ [])
    × ((j : ℕ) → j ≢ 9 → find j s1.judy.pairs ≡ find j shelf.pairs)
    × (rc' ≡ pos 0x11)
    × (fs' ≡ some third)
    × (s2.base ≡ 200)
    × (s2.veelite ≡ two_disks.veelite)
    × (s2.memory ≡ two_disks.memory)
otfs_setfs-otfs_del_example =
    otfs_setfs-otfs_del lists-IsJudy (omega arith) old_disk third true 200 two_disks refl

otfs_deinit-bases_example :
    (s' : Multi (Table ℕ) Store) × (otfs_deinit lists 3 third 1 true two_disks
      ≡ some (pos 0, 100 ∷ 200 ∷ [], record s' { judy = lists.judy_close 1 s'.judy }))
    × (s'.judy.pairs ≡ shelf.pairs)
otfs_deinit-bases_example =
    otfs_deinit-bases lists-IsJudy (omega arith) 3 third two_disks (omega arith) (omega arith)
