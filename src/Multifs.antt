-- ===== src/Multifs.antt =====
-- otlib/veelite_multifs.c: the table of filesystems. libjudy, which holds it, is a parameter, as
-- are the cells that its functions return pointers to. A pointer is a number, 0 for `NULL`;
-- `fsid->value` is the number that its octets stand for. The block of memory that `fsram` points to
-- is the `fsram` of the files; the blocks that it does not point to are in `memory`.
pub mod Judies
pub mod Front
pub mod Switch
pub mod Visits
pub mod Table
pub mod Deinit
pub mod Load
use libotfs.Prelude.{ℕ, ◌+◌, ◌-◌, ◌*◌, ◌/◌, Option, none, some, ◌==◌, if◌then◌else◌}
use libotfs.Vworm.{Fsram}
use libotfs.Veelite.{Veelite, vl_init}

-- What the table takes from libjudy, whose objects and cells are in `W`.
pub record Judy (W : Type 0) : Type 0 where
  pub judy_open : ℕ → ℕ → W → ℕ × W
  pub judy_close : ℕ → W → W
  pub judy_cell : ℕ → ℕ → ℕ → W → ℕ × W
  pub judy_slot : ℕ → ℕ → ℕ → W → ℕ × W
  pub judy_del : ℕ → W → W
  pub judy_key : ℕ → ℕ → ℕ → W → ℕ
  pub judy_strt : ℕ → ℕ → ℕ → W → ℕ × W
  pub judy_nxt : ℕ → W → ℕ × W
  pub load_cell : ℕ → W → ℕ
  pub store_cell : ℕ → ℕ → W → W
  pub key_size : ℕ

-- `id_tmpl`
pub record Fsid : Type 0 where
  pub length : ℕ
  pub value : ℕ

-- `fstab` of veelite_multifs.c, the pointer `fsram`, and what they point to.
pub record Multi (A W : Type 0) : Type 0 where
  pub judy : W
  pub fstab : ℕ
  pub base : ℕ
  pub memory : ℕ → Fsram
  pub veelite : Veelite A

module _ {A W : Type 0} where
  -- The block at `b`.
  abbrev pub block : Multi A W → ℕ → Fsram
  block s b = if b == s.base then s.veelite.fsram else s.memory b

  -- `fsram = fs_base`
  abbrev pub point_at : ℕ → Multi A W → Multi A W
  point_at fs_base s = record s {
    base = fs_base;
    memory = block s;
    veelite = record s.veelite { fsram = block s fs_base };
  }

  -- `vworm_init` where its second argument is `NULL`.
  unfoldable pub vworm_init : ℕ → Multi A W → ℕ × Multi A W
  vworm_init fs_base s = if fs_base == 0 then (1, s) else (0, point_at fs_base s)

  -- The call of `vworm_init` and that of `vl_init` after it.
  unfoldable pub switch_context : ℕ → Multi A W → Multi A W
  unfolding vworm_init vl_init
  switch_context fs_base s =
      let (r, s1) = vworm_init fs_base s in record s1 { veelite = (vl_init s1.veelite).1 }

  -- `obj = (handle != NULL) ? handle : fstab`
  abbrev pub object : ℕ → Multi A W → ℕ
  object handle s = if handle == 0 then s.fstab else handle

-- JUDYKEYS_PER_UID
abbrev pub keys_per_uid : {W : Type 0} → Judy W → ℕ
keys_per_uid lib = (8 + lib.key_size - 1) / lib.key_size

module _ {A W : Type 0} (lib : Judy W) where
  -- `*new_handle` is an option: `none` is a `new_handle` that is `NULL`.
  unfoldable pub vl_multifs_init : Option ℕ → Multi A W → ℕ × Option ℕ × Multi A W
  vl_multifs_init new_handle s =
      let (obj, w) = lib.judy_open (4 * keys_per_uid lib) (keys_per_uid lib) s.judy in
      elim new_handle [
        | none ↦ (0, none, record s { judy = w; fstab = obj })
        | some h ↦ (0, some obj, record s { judy = w })
      ]

  unfoldable pub vl_multifs_deinit : ℕ → Multi A W → ℕ × Multi A W
  vl_multifs_deinit handle s = (0, record s { judy = lib.judy_close (object handle s) s.judy })

  unfoldable pub vl_multifs_add : ℕ → ℕ → Fsid → Multi A W → ℕ × Multi A W
  vl_multifs_add handle newfsbase fsid s =
      let (new_value, w) = lib.judy_cell (object handle s) fsid.value fsid.length s.judy in
      if new_value == 0
      then (0x15, record s { judy = w })
      else if lib.load_cell new_value w == 0
      then (0, record s { judy = lib.store_cell new_value newfsbase w })
      else (0x12, record s { judy = w })

  unfoldable pub vl_multifs_del : ℕ → Fsid → Multi A W → ℕ × Multi A W
  vl_multifs_del handle fsid s =
      let obj = object handle s in
      let (val, w) = lib.judy_slot obj fsid.value fsid.length s.judy in
      if val == 0
      then (0x11, record s { judy = w })
      else (0, record s { judy = lib.judy_del obj w })

  -- The variable that `getfsbase` points to is an option: `none` is a `getfsbase` that is `NULL`.
  unfoldable pub vl_multifs_switch : ℕ → Option ℕ → Fsid → Multi A W → ℕ × Option ℕ × Multi A W
  unfolding switch_context
  vl_multifs_switch handle getfsbase fsid s =
      let (val, w) = lib.judy_slot (object handle s) fsid.value fsid.length s.judy in
      let fsbase = lib.load_cell val w in
      if val == 0 then (0x11, getfsbase, record s { judy = w }) else elim getfsbase [
        | none ↦ (255, none, record s { judy = w })
        | some b ↦ (0, some fsbase, switch_context fsbase (record s { judy = w }))
      ]

  -- The result, and the value that is left in `fsid`.
  unfoldable pub vl_multifs_activeid : ℕ → Fsid → Multi A W → ℕ × Fsid
  vl_multifs_activeid obj fsid s =
      let id = lib.judy_key obj fsid.value (keys_per_uid lib) s.judy in
      ((if id == 0 then 255 else 0), record fsid { value = id })

  -- `sub_pullfs`, for a `fsid` and a `getfsbase` that are not `NULL`, as every call has them.
  unfoldable pub sub_pullfs : ℕ → ℕ → ℕ → Fsid → Multi A W → ℕ × ℕ × Fsid × Multi A W
  unfolding switch_context
  sub_pullfs obj val getfsbase fsid s =
      let id = lib.judy_key obj fsid.value (keys_per_uid lib) s.judy in
      let fsbase = lib.load_cell val s.judy in
      if val == 0
      then (0x11, getfsbase, fsid, s)
      else if id == 0
      then (255, getfsbase, record fsid { value = id }, s)
      else (0, fsbase, record { length = 8; value = id }, switch_context fsbase s)

  unfoldable pub vl_multifs_start : ℕ → ℕ → Fsid → Multi A W → ℕ × ℕ × Fsid × Multi A W
  vl_multifs_start handle getfsbase fsid s =
      let obj = object handle s in
      let (val, w) = lib.judy_strt obj 0 0 s.judy in
      sub_pullfs obj val getfsbase fsid (record s { judy = w })

  unfoldable pub vl_multifs_next : ℕ → ℕ → Fsid → Multi A W → ℕ × ℕ × Fsid × Multi A W
  vl_multifs_next handle getfsbase fsid s =
      let obj = object handle s in
      let (val, w) = lib.judy_nxt obj s.judy in
      sub_pullfs obj val getfsbase fsid (record s { judy = w })
