-- ===== src/Multifs/Load.antt =====
-- `otfs_load_defaults` of main/otfs.c. `malloc` is a parameter: what it returns for a size, 0 for
-- `NULL`.
use libotfs.Prelude.{
  ℕ, ◌+◌, ◌^◌, ◌<◌, ◌≡◌, ◌≢◌, ◌∙◌, ap, Option, none, some, leb, u16, ◌==◌, if◌then◌else◌, arith,
}
use libotfs.Prelude.Int.{ℤ, pos}
use libotfs.Vworm.{Fsram, vworm_fsalloc}
use libotfs.Vworm.Defaults.{
  Images, IsBuilt, stock, vworm_fsheader_defload, vworm_fsdata_defload, vworm_fsdata_defload-stock,
}
use libotfs.Veelite.{put}
use libotfs.Multifs.{Multi, block}
use libotfs.Multifs.Front.{Otfs, minus}

module _ {A W : Type 0} where
  -- The block at `b` gets the contents `m`.
  abbrev write_block : ℕ → Fsram → Multi A W → Multi A W
  write_block b m s = record s {
    memory = put s.memory b m;
    veelite = record s.veelite { fsram = if s.base == b then m else s.veelite.fsram };
  }

  unfoldable pub otfs_load_defaults :
      Images → (ℕ → Multi A W → ℕ) → Option Otfs → ℕ → Multi A W → ℤ × Option Otfs × Multi A W
  otfs_load_defaults d malloc none maxalloc s = (minus 1, none, s)
  otfs_load_defaults d malloc (some fs) maxalloc s =
      let header = vworm_fsheader_defload d in
      let alloc = vworm_fsalloc (some header) in
      let base = malloc alloc s in
      let (size, m) = vworm_fsdata_defload d (some header) (block s base) in
      if leb maxalloc alloc
      then (minus 2, some (record fs { alloc = alloc }), s)
      else if base == 0
      then (minus 3, some (record fs { alloc = alloc; base = 0 }), s)
      else (pos size, some (record fs { alloc = alloc; base = base }), write_block base m s)

  write_block-block :
      (b c : ℕ) (m : Fsram) (s : Multi A W)
      → block (write_block b m s) c ≡ (if c == b then m else block s c)
  write_block-block b c m s = ground arith

abbrev pub total : Images → ℕ
total d = d.overhead_total_bytes + d.gfb_total_bytes + d.iss_stock_bytes + d.isf_stock_bytes

alloc-total :
    (d : Images)
    → IsBuilt d
    → total d < 2 ^ 32
    → vworm_fsalloc (some (vworm_fsheader_defload d)) ≡ total d
unfolding vworm_fsalloc vworm_fsheader_defload
alloc-total d built small = omega (arith, built.ftab, built.gfb, built.iss, built.isf)

module _ {A W : Type 0} (malloc : ℕ → Multi A W → ℕ) (d : Images) (built : IsBuilt d) where
  loaded :
      (fs : Otfs) (maxalloc : ℕ) (s : Multi A W)
      → total d < 2 ^ 32
      → total d < maxalloc
      → malloc (total d) s ≢ 0
      → let b = malloc (total d) s in
        let (size, m) = vworm_fsdata_defload d (some (vworm_fsheader_defload d)) (block s b) in
        otfs_load_defaults d malloc (some fs) maxalloc s
        ≡ (pos size, some (record fs { alloc = total d; base = b }), write_block b m s)
  unfolding otfs_load_defaults
  loaded fs maxalloc s small below given =
      rw (alloc-total d built small) (ground (arith, below, given))

  -- `otfs_load_defaults` in a build where each block is as large as its stock files and a number of
  -- words of four octets: if their sum is below `maxalloc` and `malloc` gives a block, it returns
  -- the sum, cut to 16 bits, and `fs` names the block and its size; the block holds the stock
  -- files, and every other block is as it was.
  pub otfs_load_defaults-stock :
      (fs : Otfs) (maxalloc c x : ℕ) (s : Multi A W)
      → total d < 2 ^ 32
      → total d < maxalloc
      → malloc (total d) s ≢ 0
      → let b = malloc (total d) s in
        let (size, fs', s') = otfs_load_defaults d malloc (some fs) maxalloc s in
        (size ≡ pos (u16 (total d)))
        × (fs' ≡ some (record fs { alloc = total d; base = b }))
        × (block s' c x ≡ (if c == b then stock d (block s b) x else block s c x))
  otfs_load_defaults-stock fs maxalloc c x s small below given =
      let b = malloc (total d) s in
      let (size, m) = vworm_fsdata_defload d (some (vworm_fsheader_defload d)) (block s b) in
      let e = loaded fs maxalloc s small below given in
      let (held, sized) = vworm_fsdata_defload-stock d (block s b) x built in
      (
        ap (λ r. r.0) e ∙ ap pos sized,
        ap (λ r. r.1) e,
        ap (λ r. block r.2 c x) e
            ∙ ap (λ (f : Fsram). f x) (write_block-block b c m s)
            ∙ ground (arith, held),
      )
