-- ===== src/Vworm/Words.antt =====
-- platform/c2000/otsys_veelite_generic.c: the memory below the files on a machine whose smallest
-- unit has 16 bits. `word_f` is `vworm_f` of that file; `fsram` is counted in those units.
use libotfs.Prelude.{
  ℕ, ◌+◌, ◌-◌, ◌*◌, ◌/◌, ◌≤◌, ◌≡◌, Option, none, some, u16, ltb, not, min, ap, ◌&&◌, ◌==◌,
  if◌then◌else◌, arith, refl,
}
use libotfs.Vworm.{Fsram, FsHeader, fshdr, sub_copy_section}
use libotfs.Vworm.Defaults.{
  Images, IsBuilt, load_block, vworm_fsheader_defload, vworm_fsdata_defload,
}

unfoldable pub word_read : ℕ → Fsram → ℕ
word_read addr m = m (u16 addr / 2)

unfoldable pub word_write : ℕ → ℕ → Fsram → ℕ × Fsram
word_write addr value m = (0, λ x. if x == u16 addr / 2 then value else m x)

unfoldable pub word_mark : ℕ → ℕ → Fsram → ℕ × Fsram
unfolding word_write
word_mark addr value m = word_write addr value m

-- The pointer, in units from the base.
unfoldable pub word_get : ℕ → ℕ
word_get addr = u16 addr / 2

-- `sub_copy_section`: a count of words is compared with `input_size`, which counts octets.
unfoldable pub copy_section : Fsram → ℕ → (ℕ → ℕ) → ℕ → ℕ → ℕ × Fsram
copy_section m section defaults defaults_size input_size =
    let words = (defaults_size + 3) / 4 in
    let copylen = if ltb words input_size then words else input_size in
    (
      copylen,
      λ x.
          if ltb x section
          then m x
          else if ltb x (section + (copylen + copylen))
          then defaults (x - section)
          else m x,
    )

-- One of the blocks, as `load_block`.
unfoldable pub copy_block : ℕ → ℕ → (ℕ → ℕ) → ℕ → ℕ × Fsram → ℕ × Fsram
unfolding copy_section
copy_block total_bytes alloc files stock_bytes (section, m) =
    if ltb 0 total_bytes && not (alloc == 0)
    then (section + 2 * (alloc / 4), (copy_section m section files stock_bytes alloc).1)
    else (section, m)

unfoldable pub word_fsdata_defload : Images → Option FsHeader → Fsram → ℕ × Fsram
unfolding copy_section
word_fsdata_defload d none m = (0, m)
word_fsdata_defload d (some fs) m =
    let m1 = (copy_section m 0 d.overhead_files d.overhead_total_bytes fs.ftab_alloc).1 in
    let s1 : ℕ × Fsram = (2 * (fs.ftab_alloc / 4), m1) in
    let s2 = copy_block d.gfb_total_bytes fs.gfb.alloc d.gfb_stock_files d.gfb_total_bytes s1 in
    let s3 = copy_block d.iss_total_bytes fs.iss.alloc d.iss_stock_files d.iss_stock_bytes s2 in
    let (section, m') =
      copy_block d.isf_total_bytes fs.isf.alloc d.isf_stock_files d.isf_stock_bytes s3 in
    (u16 (section * 2), m')

copy_same :
    (m : Fsram) (section : ℕ) (files : ℕ → ℕ) (size input : ℕ)
    → size ≤ input
    → copy_section m section files size input ≡ sub_copy_section m section files size input
unfolding copy_section sub_copy_section
copy_same m section files size input le =
    ap
      (λ (n : ℕ).
        let r : ℕ × Fsram = (
          n,
          λ x.
              if ltb x section
              then m x
              else if ltb x (section + (n + n))
              then files (x - section)
              else m x,
        ) in
        r)
      count
  where
    count :
        (if ltb ((size + 3) / 4) input then (size + 3) / 4 else input) ≡ (min size input + 3) / 4
    count = ground (arith, le)

block_same :
    (total alloc size : ℕ) (files : ℕ → ℕ) (at : ℕ × Fsram)
    → size ≤ alloc
    → copy_block total alloc files size at ≡ load_block total alloc files size at
unfolding copy_block load_block
block_same total alloc size files (section, m) le =
    ap
      (λ (c : ℕ × Fsram).
        if ltb 0 total && not (alloc == 0) then (section + 2 * (alloc / 4), c.1) else (section, m))
      (copy_same m section files size alloc le)

-- In a build where each block is as large as its stock files, both platforms give a filesystem the
-- same default contents and return the same size.
pub word_fsdata_defload-vworm_fsdata_defload :
    (d : Images) (m : Fsram)
    → IsBuilt d
    → word_fsdata_defload d (some (vworm_fsheader_defload d)) m
      ≡ vworm_fsdata_defload d (some (vworm_fsheader_defload d)) m
unfolding word_fsdata_defload vworm_fsdata_defload vworm_fsheader_defload
word_fsdata_defload-vworm_fsdata_defload d m built =
    let fs = fshdr d.overhead_files in
    let s1 : ℕ × Fsram = (
      2 * (fs.ftab_alloc / 4),
      (sub_copy_section m 0 d.overhead_files d.overhead_total_bytes fs.ftab_alloc).1,
    ) in
    let s2 = load_block d.gfb_total_bytes fs.gfb.alloc d.gfb_stock_files d.gfb_total_bytes s1 in
    let s3 = load_block d.iss_total_bytes fs.iss.alloc d.iss_stock_files d.iss_stock_bytes s2 in
    rw
      (
        copy_same m 0 d.overhead_files d.overhead_total_bytes fs.ftab_alloc
            (omega (arith, built.ftab)),
        block_same d.gfb_total_bytes fs.gfb.alloc d.gfb_total_bytes d.gfb_stock_files s1
            (omega (arith, built.gfb)),
        block_same d.iss_total_bytes fs.iss.alloc d.iss_stock_bytes d.iss_stock_files s2
            (omega (arith, built.iss)),
        block_same d.isf_total_bytes fs.isf.alloc d.isf_stock_bytes d.isf_stock_files s3
            (omega (arith, built.isf)),
      )
      refl
