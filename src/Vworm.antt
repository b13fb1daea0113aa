-- ===== src/Vworm.antt =====
-- platform/posix_c/otsys_veelite_generic.c: the memory below the files. `fsram` is its array of
-- half-words; VWORM_BASE_VADDR is 0 and VSRAM is the same memory. A pointer into it, as `vworm_get`
-- gives one, is its address.
pub mod Defaults
pub mod Words
use libotfs.Prelude.{
  ℕ, ◌+◌, ◌-◌, ◌/◌, ◌<◌, ◌≡◌, u16, u32, ltb, leb, ◌&&◌, Bool, true, if◌then◌else◌, min, Option,
  none, some, ◌==◌, arith,
}

abbrev pub Fsram : Type 0
Fsram = ℕ → ℕ

-- `vlBLOCKHEADER` and `vlFSHEADER`, less the words that are kept free.
pub record BlockHeader : Type 0 where
  pub alloc : ℕ
  pub used : ℕ
  pub files : ℕ

pub record FsHeader : Type 0 where
  pub ftab_alloc : ℕ
  pub gfb : BlockHeader
  pub iss : BlockHeader
  pub isf : BlockHeader

-- The header that stands at the base of the filesystem.
abbrev pub fshdr : Fsram → FsHeader
fshdr m = record {
  ftab_alloc = m 0;
  gfb = record { alloc = m 3; used = m 4; files = m 5 };
  iss = record { alloc = m 6; used = m 7; files = m 8 };
  isf = record { alloc = m 9; used = m 10; files = m 11 };
}

unfoldable pub vworm_fsalloc : Option FsHeader → ℕ
vworm_fsalloc none = 0
vworm_fsalloc (some fs) =
    u32 (u32 (u32 (fs.ftab_alloc + fs.gfb.alloc) + fs.iss.alloc) + fs.isf.alloc)

-- `sub_copy_section`: the words of `defaults` go to `section`, both counted in half-words here.
unfoldable pub sub_copy_section : Fsram → ℕ → (ℕ → ℕ) → ℕ → ℕ → ℕ × Fsram
sub_copy_section m section defaults defaults_size input_size =
    let copylen = (min defaults_size input_size + 3) / 4 in
    (
      copylen,
      λ x.
          if ltb x section
          then m x
          else if ltb x (section + (copylen + copylen))
          then defaults (x - section)
          else m x,
    )

unfoldable pub vworm_read : ℕ → Fsram → ℕ
vworm_read addr m = m (u16 addr / 2)

unfoldable pub vworm_write : ℕ → ℕ → Fsram → ℕ × Fsram
vworm_write addr value m = (0, λ x. if x == u16 addr / 2 then value else m x)

unfoldable pub vworm_mark : ℕ → ℕ → Fsram → ℕ × Fsram
unfolding vworm_write
vworm_mark addr value m = vworm_write addr value m

-- The build's sizes and bases of the two address spaces.
pub record Spaces : Type 0 where
  pub vworm_base : ℕ
  pub vworm_size : ℕ
  pub vsram_base : ℕ
  pub vsram_size : ℕ

pub data VasLoc : Type 0 where
  vas_error in_vworm in_veeprom in_vsram : VasLoc

abbrev inside : ℕ → ℕ → ℕ → Bool
inside base size addr = leb base addr && ltb (addr - base) size

unfoldable pub vas_check : Spaces → ℕ → VasLoc
vas_check c addr =
    if inside c.vworm_base c.vworm_size addr
    then in_vworm
    else if inside c.vsram_base c.vsram_size addr
    then in_vsram
    else vas_error

-- A pointer to a half-word is the address of its lower octet; `vlnvwrite` is the feature's switch.
unfoldable pub vworm_mark_physical : Spaces → Bool → ℕ → ℕ → Fsram → ℕ × Fsram
vworm_mark_physical c vlnvwrite addr value m =
    (0, if ltb 0 c.vworm_size && vlnvwrite then (λ x. if x == addr / 2 then value else m x) else m)

unfoldable pub vworm_get : ℕ → ℕ
vworm_get addr = u16 addr

unfoldable pub vworm_format : ℕ
vworm_format = 0

unfoldable pub vworm_save : ℕ
vworm_save = 0

unfoldable pub vworm_wipeblock : ℕ → ℕ → ℕ
vworm_wipeblock addr wipe_span = 0

unfoldable pub vsram_mark_physical : Spaces → Bool → ℕ → ℕ → Fsram → ℕ × Fsram
unfolding vworm_mark_physical
vsram_mark_physical c vlnvwrite addr value m = vworm_mark_physical c vlnvwrite addr value m

unfoldable pub vsram_get : ℕ → ℕ
unfolding vworm_get
vsram_get addr = vworm_get addr

-- What is marked through a pointer is what is read at its address, in a build that has the memory
-- and writes to it.
pub vworm_read-vworm_mark_physical :
    (c : Spaces) (addr addr' value : ℕ) (m : Fsram)
    → 0 < c.vworm_size
    → let m' = (vworm_mark_physical c true (vworm_get addr) value m).1 in
      vworm_read addr' m' ≡ (if u16 addr / 2 == u16 addr' / 2 then value else vworm_read addr' m)
unfolding vworm_mark_physical vworm_get vworm_read
vworm_read-vworm_mark_physical c addr addr' value m some_size = ground (arith, some_size)

unfoldable pub vsram_read : ℕ → Fsram → ℕ
unfolding vworm_read
vsram_read addr m = vworm_read addr m

unfoldable pub vsram_mark : ℕ → ℕ → Fsram → ℕ × Fsram
unfolding vworm_mark
vsram_mark addr value m = vworm_mark addr value m

-- What a `vlread_fn` and a `vlwrite_fn` that is not `NULL` points to.
pub data Driver : Type 0 where
  vworm vsram : Driver

-- A call by such a pointer: `none` if it is `NULL`.
unfoldable pub call_read : Option Driver → ℕ → Fsram → Option ℕ
unfolding vworm_read vsram_read
call_read none addr m = none
call_read (some vworm) addr m = some (vworm_read addr m)
call_read (some vsram) addr m = some (vsram_read addr m)

unfoldable pub call_write : Option Driver → ℕ → ℕ → Fsram → Option (ℕ × Fsram)
unfolding vworm_write vsram_mark
call_write none addr value m = none
call_write (some vworm) addr value m = some (vworm_write addr value m)
call_write (some vsram) addr value m = some (vsram_mark addr value m)
