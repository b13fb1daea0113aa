-- ===== src/Veelite.antt =====
-- otlib/veelite.c with MULTIFS, VLACTIONS and VLMODTIME, without VLNEW, VLACCTIME, DATAFLASH and
-- the C2000 branches: the state, the search for headers, the opening of files and the actions. A
-- `vlFILE*` is its index in `vlfile`, an address of a header is a `vaddr`. The check of a request
-- comes through `Guard`; an action is a number, and `invoke` says what a call of it does.
pub mod Data
pub mod Search
pub mod Open
pub mod Loops
pub mod Transfer
pub mod Words
pub mod Close
pub mod Append
mod Paired
pub mod Session
pub mod New
pub mod Deleted
pub mod Created
pub mod Found
pub mod Boot
pub mod Layout
pub mod Persist
pub mod Opened
mod Reopen
use libotfs.Prelude.{
  ℕ, zero, suc, ◌+◌, ◌-◌, ◌*◌, ◌/◌, ◌^◌, ◌&&◌, not, Option, none, some, List, [], ◌∷◌, u8, u16,
  byte, ltb, ◌==◌, if◌then◌else◌,
}
use libotfs.Auth.{User, Table, Eax, auth_check}
use libotfs.Vworm.{Fsram, fshdr, vworm_read, vworm_write, vsram_read, Driver, vworm, vsram}

abbrev pub null_vaddr : ℕ
null_vaddr = 0xFFFF

-- VLFPS and VLACTIONS
abbrev pub vlfps : ℕ
vlfps = 3

abbrev pub vlactions : ℕ
vlactions = 16

-- The sizes of `vlFSHEADER` and `vl_header_t` in octets.
abbrev pub header_start : ℕ
header_start = 32

abbrev pub header_size : ℕ
header_size = 16

abbrev pub vl_access_su : ℕ
vl_access_su = 0x3F

abbrev pub vl_access_rw : ℕ
vl_access_rw = 0x36

-- The modes of a file: `vl_header_t`
pub record VlHeader : Type 0 where
  pub length : ℕ
  pub alloc : ℕ
  pub idmod : ℕ
  pub base : ℕ
  pub mirror : ℕ
  pub actioncode : ℕ
  pub modtime : ℕ

-- `vlFILE`
pub record VlFile : Type 0 where
  pub header : ℕ
  pub start : ℕ
  pub alloc : ℕ
  pub idmod : ℕ
  pub length : ℕ
  pub flags : ℕ
  pub read : Option Driver
  pub write : Option Driver

abbrev pub no_file : VlFile
no_file = record {
  header = null_vaddr;
  start = 0;
  alloc = 0;
  idmod = 0;
  length = 0;
  flags = 0;
  read = none;
  write = none;
}

-- The module's variables, the memory, and the state `A` of the check.
pub record Veelite (A : Type 0) : Type 0 where
  pub fsram : Fsram
  pub vlfile : ℕ → VlFile
  pub vlaction : ℕ → Option ℕ
  pub vlaction_users : ℕ → ℕ
  pub auth : A

-- What the files take from the module of keys.
pub record Guard (A : Type 0) : Type 0 where
  pub check : ℕ → ℕ → User → A → ℕ × A

abbrev pub auth_guard : {Ctx : Type 0} → Eax Ctx → ℕ → Guard (Table Ctx)
auth_guard eax now = record { check = auth_check eax now }

abbrev pub put {ℓ} : {B : Type ℓ} → (ℕ → B) → ℕ → B → ℕ → B
put f i b j = if j == i then b else f j

-- The scan of `sub_header_search`: `n` headers from `header` on.
unfoldable pub header_scan : ℕ → ℕ → ℕ → Fsram → ℕ
unfolding vworm_read
header_scan zero header search_id m = null_vaddr
header_scan (suc n) header search_id m =
    let later = header_scan n (u16 (header + header_size)) search_id m in
    let base = vworm_read (header + 6) m in
    if not (base == 0) && not (base == 0xFFFF) && byte 0 (vworm_read (header + 4) m) == search_id
    then header
    else later

-- `num_headers` as the signed 16-bit integer that it is: a loop down to 0 is not run for a negative
-- one.
abbrev pub count16 : ℕ → ℕ
count16 num_headers = if ltb num_headers (2 ^ 15) then num_headers else 0

unfoldable pub sub_header_search : ℕ → ℕ → ℕ → Fsram → ℕ
unfolding header_scan
sub_header_search header search_id num_headers m =
    if ltb search_id (count16 num_headers)
      && byte 0 (m ((header + search_id * header_size + 4) / 2)) == search_id
    then u16 (header + search_id * header_size)
    else header_scan (count16 num_headers) header search_id m

unfoldable pub sub_gfb_search : ℕ → Fsram → ℕ
unfolding sub_header_search
sub_gfb_search id m = sub_header_search header_start id (fshdr m).gfb.files m

unfoldable pub sub_isf_search : ℕ → Fsram → ℕ
unfolding sub_header_search
sub_isf_search id m =
    sub_header_search
      (u16 (header_start + ((fshdr m).gfb.files + (fshdr m).iss.files) * header_size)) id
      (fshdr m).isf.files m

-- The free file pointer that is found first, with `n` left from `fd` on.
unfoldable pub free_fp : ℕ → ℕ → (ℕ → VlFile) → Option ℕ
free_fp zero fd vlfile = none
free_fp (suc n) fd vlfile =
    let later = free_fp n (fd + 1) vlfile in
    elim (vlfile fd).read [ none ↦ some fd | some d ↦ later ]

unfoldable pub sub_new_fp : (ℕ → VlFile) → Option ℕ
unfolding free_fp
sub_new_fp vlfile = free_fp vlfps 0 vlfile

unfoldable pub sub_copy_header : ℕ → Fsram → VlHeader
unfolding vworm_read
sub_copy_header header m = record {
  length = vworm_read header m;
  alloc = vworm_read (header + 2) m;
  idmod = vworm_read (header + 4) m;
  base = vworm_read (header + 6) m;
  mirror = vworm_read (header + 8) m;
  actioncode = vworm_read (header + 10) m;
  modtime = vworm_read (header + 12) m + vworm_read (header + 14) m * 2 ^ 16;
}

-- `sub_write_header`, the half-words of its block as a list.
unfoldable pub sub_write_header : ℕ → List ℕ → Fsram → Fsram
unfolding vworm_write
sub_write_header header [] m = m
sub_write_header header (w ∷ ws) m = sub_write_header (header + 2) ws (vworm_write header w m).1

-- `ISF_loadmirror` without a mirror heap does nothing, and returns 0.
unfoldable pub vl_init : {A : Type 0} → Veelite A → ℕ × Veelite A
vl_init v = (0, record v { vlfile = λ fd. no_file; vlaction = λ i. none; vlaction_users = λ i. 0 })

-- `vl_open_file`
unfoldable pub file_at : ℕ → Fsram → VlFile
unfolding vworm_read vsram_read
file_at header m =
    let mirror = vworm_read (header + 8) m in
    if mirror == null_vaddr
    then (record {
      header = header;
      start = vworm_read (header + 6) m;
      alloc = vworm_read (header + 2) m;
      idmod = vworm_read (header + 4) m;
      length = vworm_read header m;
      flags = 1;
      read = some vworm;
      write = some vworm;
    })
    else (record {
      header = header;
      start = u16 (mirror + 2);
      alloc = vworm_read (header + 2) m;
      idmod = vworm_read (header + 4) m;
      length = vsram_read mirror m;
      flags = 1;
      read = some vsram;
      write = some vsram;
    })

unfoldable pub vl_open_file : {A : Type 0} → ℕ → Veelite A → Option ℕ × Veelite A
unfolding sub_new_fp file_at
vl_open_file header v = elim (sub_new_fp v.vlfile) [
  | none ↦ (none, v)
  | some fp ↦ (some fp, record v { vlfile = put v.vlfile fp (file_at header v.fsram) })
]

abbrev or_else : Option ℕ → ℕ → Option ℕ
or_else none i = some i
or_else (some s) i = some s

-- `i` is the first place of `n` that are left; an action is not `NULL`.
unfoldable pub action_slot : ℕ → ℕ → Option ℕ → ℕ → (ℕ → Option ℕ) → Option ℕ
action_slot zero i select action vlaction = select
action_slot (suc n) i select action vlaction =
    let after_free = action_slot n (i + 1) (or_else select i) action vlaction in
    let after_other = action_slot n (i + 1) select action vlaction in
    elim (vlaction i) [ none ↦ after_free | some a ↦ (if a == action then some i else after_other) ]

-- The vaddr is an argument and a part of the result: the caller's variable, which an unknown
-- block leaves as it was.
module _ {A : Type 0} (g : Guard A) where
  unfoldable pub vl_getheader_vaddr : ℕ → ℕ → ℕ → ℕ → User → Veelite A → ℕ × ℕ × Veelite A
  unfolding sub_gfb_search sub_isf_search vworm_read
  vl_getheader_vaddr header block_id data_id mode user_id v =
      let found =
        if block_id == 1 then sub_gfb_search data_id v.fsram else sub_isf_search data_id v.fsram in
      let (test, auth) = g.check (byte 1 (vworm_read (found + 4) v.fsram)) mode user_id v.auth in
      if not (block_id == 1) && not (block_id == 3)
      then (255, header, v)
      else if found == null_vaddr
      then (1, found, v)
      else (elim user_id [
        | none ↦ (0, found, v)
        | some u ↦ ((if test == 0 then 4 else 0), found, record v { auth = auth })
      ])

  unfoldable pub vl_getheader : VlHeader → ℕ → ℕ → ℕ → User → Veelite A → ℕ × VlHeader × Veelite A
  unfolding vl_getheader_vaddr sub_copy_header
  vl_getheader header block_id data_id mode user_id v =
      let (output, header_vaddr, v') =
        vl_getheader_vaddr null_vaddr block_id data_id mode user_id v in
      (output, (if output == 0 then sub_copy_header header_vaddr v'.fsram else header), v')

  unfoldable pub vl_open : ℕ → ℕ → ℕ → User → Veelite A → Option ℕ × Veelite A
  unfolding vl_getheader_vaddr vl_open_file
  vl_open block_id data_id mode user_id v =
      let (output, header, v') = vl_getheader_vaddr null_vaddr block_id data_id mode user_id v in
      if output == 0 then vl_open_file header v' else (none, v')

  unfoldable pub vl_chmod : ℕ → ℕ → ℕ → User → Veelite A → ℕ × Veelite A
  unfolding vl_getheader_vaddr sub_write_header
  vl_chmod block_id data_id mode user_id v =
      let (output, header, v') =
        vl_getheader_vaddr null_vaddr block_id data_id vl_access_rw user_id v in
      (
        output,
        if output == 0
            then (record v' {
              fsram = sub_write_header (header + 4) ((data_id + 256 * mode) ∷ []) v'.fsram;
            })
            else v',
      )

  unfoldable pub vl_add_action : ℕ → ℕ → ℕ → ℕ → Veelite A → Option ℕ × Veelite A
  unfolding vl_getheader_vaddr action_slot vworm_write
  vl_add_action block_id data_id condition action v =
      let (output, header, v') =
        vl_getheader_vaddr null_vaddr block_id data_id vl_access_su none v in
      if output == 0
      then (elim (action_slot vlactions 0 none action v'.vlaction) [
        | none ↦ (none, v')
        | some s ↦ (
          some s,
          record v' {
            fsram = (vworm_write (header + 10) (condition + 256 * s) v'.fsram).1;
            vlaction = put v'.vlaction s (some action);
            vlaction_users = put v'.vlaction_users s (u8 (v'.vlaction_users s + 1));
          },
        )
      ])
      else (none, v')

  unfoldable pub vl_remove_action : ℕ → ℕ → Veelite A → Veelite A
  unfolding vl_getheader_vaddr vworm_read vworm_write
  vl_remove_action block_id data_id v =
      let (output, header, v') =
        vl_getheader_vaddr null_vaddr block_id data_id vl_access_su none v in
      let select = vworm_read (header + 10) v'.fsram / 256 in
      let users = v'.vlaction_users select in
      let wiped = record v' { fsram = (vworm_write (header + 10) 0 v'.fsram).1 } in
      if not (output == 0)
      then v'
      else if ltb select vlactions && not (users == 0)
      then (record wiped {
        vlaction_users = put v'.vlaction_users select (users - 1);
        vlaction = if users == 1 then put v'.vlaction select none else v'.vlaction;
      })
      else wiped
