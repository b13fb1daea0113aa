-- ===== src/Vworm/Defaults.antt =====
-- platform/posix_c/otsys_veelite_generic.c: the default contents of a filesystem. The stock files,
-- arrays of the build's fs_defaults.h, are a record.
use libotfs.Prelude.{
  ℕ, ◌+◌, ◌-◌, ◌*◌, ◌/◌, ◌%◌, ◌≤◌, ◌≡◌, not, ◌&&◌, Option, none, some, u16, ltb, ◌==◌,
  if◌then◌else◌, arith,
}
use libotfs.Vworm.{Fsram, FsHeader, fshdr, sub_copy_section}

-- The arrays in half-words, their sizes, which the source calls OVERHEAD_TOTAL_BYTES,
-- GFB_TOTAL_BYTES, ISS_STOCK_BYTES and ISF_STOCK_BYTES, and the two totals that are no size of an
-- array.
pub record Images : Type 0 where
  pub overhead_files : ℕ → ℕ
  pub gfb_stock_files : ℕ → ℕ
  pub iss_stock_files : ℕ → ℕ
  pub isf_stock_files : ℕ → ℕ
  pub overhead_total_bytes : ℕ
  pub gfb_total_bytes : ℕ
  pub iss_total_bytes : ℕ
  pub iss_stock_bytes : ℕ
  pub isf_total_bytes : ℕ
  pub isf_stock_bytes : ℕ

-- `*fs`, for a pointer that is not `NULL`.
unfoldable pub vworm_fsheader_defload : Images → FsHeader
vworm_fsheader_defload d = fshdr d.overhead_files

-- One of the blocks: where the next section begins, and the memory.
unfoldable pub load_block : ℕ → ℕ → (ℕ → ℕ) → ℕ → ℕ × Fsram → ℕ × Fsram
unfolding sub_copy_section
load_block total_bytes alloc files stock_bytes (section, m) =
    if ltb 0 total_bytes && not (alloc == 0)
    then (section + 2 * (alloc / 4), (sub_copy_section m section files stock_bytes alloc).1)
    else (section, m)

-- `fs_base` that is not `NULL` is a block with the contents `m`; `section` is counted in half-words.
unfoldable pub vworm_fsdata_defload : Images → Option FsHeader → Fsram → ℕ × Fsram
unfolding sub_copy_section
vworm_fsdata_defload d none m = (0, m)
vworm_fsdata_defload d (some fs) m =
    let m1 = (sub_copy_section m 0 d.overhead_files d.overhead_total_bytes fs.ftab_alloc).1 in
    let s1 : ℕ × Fsram = (2 * (fs.ftab_alloc / 4), m1) in
    let s2 = load_block d.gfb_total_bytes fs.gfb.alloc d.gfb_stock_files d.gfb_total_bytes s1 in
    let s3 = load_block d.iss_total_bytes fs.iss.alloc d.iss_stock_files d.iss_stock_bytes s2 in
    let (section, m') =
      load_block d.isf_total_bytes fs.isf.alloc d.isf_stock_files d.isf_stock_bytes s3 in
    (u16 (section * 2), m')

-- The sizes that a filesystem of the build has: each block is its stock files, in words of four
-- octets.
pub record IsBuilt (d : Images) : Type 0 where
  pub ftab : (fshdr d.overhead_files).ftab_alloc ≡ d.overhead_total_bytes
  pub gfb : (fshdr d.overhead_files).gfb.alloc ≡ d.gfb_total_bytes
  pub iss : (fshdr d.overhead_files).iss.alloc ≡ d.iss_stock_bytes
  pub isf : (fshdr d.overhead_files).isf.alloc ≡ d.isf_stock_bytes
  pub iss_total : d.iss_stock_bytes ≤ d.iss_total_bytes
  pub isf_total : d.isf_stock_bytes ≤ d.isf_total_bytes
  pub ftab_words : d.overhead_total_bytes % 4 ≡ 0
  pub gfb_words : d.gfb_total_bytes % 4 ≡ 0
  pub iss_words : d.iss_stock_bytes % 4 ≡ 0
  pub isf_words : d.isf_stock_bytes % 4 ≡ 0

-- A block of whole words.
block_lem :
    (total alloc stock section x : ℕ) (files : ℕ → ℕ) (m : Fsram)
    → alloc ≡ stock
    → stock ≤ total
    → stock % 4 ≡ 0
    → let (next, m') = load_block total alloc files stock (section, m) in
      (next ≡ section + stock / 2)
      × (m' x ≡ (
          if ltb x section
          then m x
          else if ltb x (section + stock / 2)
          then files (x - section)
          else m x))
unfolding load_block sub_copy_section
block_lem total alloc stock section x files m e le words =
    (ground (arith, e, le, words), ground (arith, e, le, words))

-- What a filesystem of the build holds: its sections one behind the other.
abbrev pub stock : Images → Fsram → ℕ → ℕ
stock d m x =
    let a = d.overhead_total_bytes / 2 in
    let b = a + d.gfb_total_bytes / 2 in
    let c = b + d.iss_stock_bytes / 2 in
    if ltb x a
    then d.overhead_files x
    else if ltb x b
    then d.gfb_stock_files (x - a)
    else if ltb x c
    then d.iss_stock_files (x - b)
    else if ltb x (c + d.isf_stock_bytes / 2)
    then d.isf_stock_files (x - c)
    else m x

-- `vworm_fsdata_defload` with the default header of a build, where each block is as large as its
-- stock files and a number of words of four octets: every half-word of the four sections is that of
-- the stock files, what lies behind is as before, and the result is the sum of the sizes, cut to 16
-- bits.
pub vworm_fsdata_defload-stock :
    (d : Images) (m : Fsram) (x : ℕ)
    → IsBuilt d
    → let (size, m') = vworm_fsdata_defload d (some (vworm_fsheader_defload d)) m in
      (m' x ≡ stock d m x)
      × (size
          ≡ u16
              (d.overhead_total_bytes + d.gfb_total_bytes + d.iss_stock_bytes + d.isf_stock_bytes))
unfolding vworm_fsdata_defload vworm_fsheader_defload sub_copy_section
vworm_fsdata_defload-stock d m x built =
    let fs = fshdr d.overhead_files in
    let m1 = (sub_copy_section m 0 d.overhead_files d.overhead_total_bytes fs.ftab_alloc).1 in
    let s1 = 2 * (fs.ftab_alloc / 4) in
    let (s2, m2) =
      load_block d.gfb_total_bytes fs.gfb.alloc d.gfb_stock_files d.gfb_total_bytes (s1, m1) in
    let (s3, m3) =
      load_block d.iss_total_bytes fs.iss.alloc d.iss_stock_files d.iss_stock_bytes (s2, m2) in
    let b2 =
      block_lem d.gfb_total_bytes fs.gfb.alloc d.gfb_total_bytes s1 x d.gfb_stock_files m1 built.gfb
        (omega arith) built.gfb_words in
    let b3 =
      block_lem d.iss_total_bytes fs.iss.alloc d.iss_stock_bytes s2 x d.iss_stock_files m2 built.iss
        built.iss_total built.iss_words in
    let b4 =
      block_lem d.isf_total_bytes fs.isf.alloc d.isf_stock_bytes s3 x d.isf_stock_files m3 built.isf
        built.isf_total built.isf_words in
    let first : m1 x ≡ (if ltb x (d.overhead_total_bytes / 2) then d.overhead_files x else m x) =
      ground (arith, built.ftab, built.ftab_words) in
    let start : s1 ≡ d.overhead_total_bytes / 2 = omega (arith, built.ftab, built.ftab_words) in
    (
      ground (arith, first, start, b2, b3, b4),
      omega (
        arith, start, b2.0, b3.0, b4.0, built.ftab_words, built.gfb_words, built.iss_words,
        built.isf_words,
      ),
    )
