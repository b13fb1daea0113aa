-- ===== src/Multifs/Front.antt =====
-- main/otfs.c: the front end of the library, on the table of filesystems.
use libotfs.Prelude.{
  ℕ, zero, suc, ◌+◌, ◌*◌, ◌/◌, ◌%◌, ◌^◌, Option, none, some, Bool, not, ◌&&◌, List, [], ◌∷◌, ◌==◌,
  if◌then◌else◌,
}
use libotfs.Prelude.Int.{ℤ, pos, sub_ℕ}
use libotfs.Vworm.{FsHeader, fshdr, vworm_fsalloc}
use libotfs.Veelite.{Veelite, vl_init}
use libotfs.Multifs.{
  Judy, Fsid, Multi, block, vworm_init, vl_multifs_init, vl_multifs_deinit, vl_multifs_add,
  vl_multifs_del, vl_multifs_switch, vl_multifs_activeid, vl_multifs_start, vl_multifs_next,
}

-- `otfs_t`; `uid` is the number that its octets stand for.
pub record Otfs : Type 0 where
  pub uid : ℕ
  pub base : ℕ
  pub alloc : ℕ

unfoldable pub vl_get_fsalloc : Option FsHeader → ℕ
unfolding vworm_fsalloc
vl_get_fsalloc fs = vworm_fsalloc fs

module _ {A W : Type 0} where
  -- The calls that take `fs` see it as an option, `none` for `NULL`. The variable of the block's
  -- base.
  unfoldable pub sub_loadfs : Option Otfs → ℕ → Fsid → Multi A W → Option Otfs
  unfolding vl_get_fsalloc
  sub_loadfs none loadbase user_id s = none
  sub_loadfs (some dst) loadbase user_id s =
      let size = 256 ^ user_id.length in
      some (record {
        uid = user_id.value % size + dst.uid / size * size;
        base = loadbase;
        alloc = vl_get_fsalloc (if loadbase == 0 then none else some (fshdr (block s loadbase)));
      })

-- `-rc`
abbrev pub minus : ℕ → ℤ
minus rc = sub_ℕ 0 rc

module _ {A W : Type 0} where
  -- The end of both iterator calls: what the table gave, as the result, `fs`, the ID and the state.
  abbrev pub iterated : Option Otfs → ℕ × ℕ × Fsid × Multi A W → ℤ × Option Otfs × ℕ × Multi A W
  iterated fs (rc, fsbase, user_id, s) =
      if rc == 0 && user_id.length == 8
      then (pos 0, sub_loadfs fs fsbase user_id s, user_id.value, s)
      else (pos 1, fs, user_id.value, s)

module _ {A W : Type 0} (lib : Judy W) where
  unfoldable pub otfs_init : Option ℕ → Multi A W → ℤ × Option ℕ × Multi A W
  unfolding vl_multifs_init
  otfs_init none s = (minus 1, none, s)
  otfs_init (some handle) s =
      let (rc, h, s') = vl_multifs_init lib (some handle) s in (pos rc, h, s')

  -- `auth_init` is that of the files' keys, on the files of the filesystem that was switched to;
  -- `none` is a call that does not return.
  unfoldable pub otfs_new :
      (Veelite A → Option (Veelite A)) → ℕ → Otfs → Multi A W → Option (ℤ × Multi A W)
  unfolding vworm_init vl_init
  otfs_new auth_init handle fs s =
      let (rc, s1) = vl_multifs_add lib handle fs.base (record { length = 8; value = fs.uid }) s in
      let (r, s2) = vworm_init fs.base s1 in
      if handle == 0
      then some (minus 1, s)
      else if not (rc == 0)
      then some (minus rc, s1)
      else elim (auth_init (vl_init s2.veelite).1) [
        | none ↦ none
        | some v ↦ some (pos 0, record s2 { veelite = v })
      ]

  -- The second part of the result is the list of what `free_fn` is called with.
  unfoldable pub otfs_del : ℕ → Option Otfs → Bool → Multi A W → ℤ × List ℕ × Multi A W
  otfs_del handle none free_fn s = (minus 1, [], s)
  otfs_del handle (some fs) free_fn s =
      let (rc, s') = vl_multifs_del lib handle (record { length = 8; value = fs.uid }) s in
      if handle == 0
      then (minus 1, [], s)
      else (pos rc, (if rc == 0 && free_fn && not (fs.base == 0) then fs.base ∷ [] else []), s')

  unfoldable pub otfs_setfs : ℕ → Option Otfs → ℕ → Multi A W → ℤ × Option Otfs × Multi A W
  otfs_setfs handle fs eui64 s =
      let user_id : Fsid = record { length = 8; value = eui64 } in
      let (rc, fsbase, s') = vl_multifs_switch lib handle (some 0) user_id s in
      if handle == 0 then (minus 1, fs, s) else (
        pos rc,
        (if rc == 0 then elim fsbase [ none ↦ fs | some b ↦ sub_loadfs fs b user_id s' ] else fs),
        s',
      )

  unfoldable pub otfs_activeuid : ℕ → ℕ → Multi A W → ℤ × ℕ
  unfolding vl_multifs_activeid
  otfs_activeuid handle eui64 s =
      let (rc, id) = vl_multifs_activeid lib handle (record { length = 8; value = eui64 }) s in
      if handle == 0 then (minus 1, eui64) else (pos rc, id.value)

  unfoldable pub otfs_iterator_start :
      ℕ → Option Otfs → ℕ → Multi A W → ℤ × Option Otfs × ℕ × Multi A W
  otfs_iterator_start handle fs eui64 s =
      if handle == 0
      then (minus 1, fs, eui64, s)
      else iterated fs (vl_multifs_start lib handle 0 (record { length = 0; value = eui64 }) s)

  unfoldable pub otfs_iterator_next :
      ℕ → Option Otfs → ℕ → Multi A W → ℤ × Option Otfs × ℕ × Multi A W
  otfs_iterator_next handle fs eui64 s =
      if handle == 0
      then (minus 1, fs, eui64, s)
      else iterated fs (vl_multifs_next lib handle 0 (record { length = 0; value = eui64 }) s)

  -- The loop of `otfs_deinit`: what it frees, on fuel; `none` if that runs out.
  unfoldable pub free_loop : ℕ → ℕ → ℤ × Option Otfs × ℕ × Multi A W → Option (List ℕ × Multi A W)
  free_loop zero handle at = none
  free_loop (suc n) handle (rc, fs, uid, s) =
      let base : ℕ = elim fs [ none ↦ 0 | some f ↦ f.base ] in
      elim rc [
        | pos zero ↦ elim (free_loop n handle (otfs_iterator_next handle fs uid s)) [
          | none ↦ none
          | some (freed, s') ↦ some (base ∷ freed, s')
        ]
        | _ ↦ some ([], s)
      ]

  -- `fs` of the loop is a variable of `otfs_deinit`, with the value `stack` at first.
  unfoldable pub otfs_deinit : ℕ → Otfs → ℕ → Bool → Multi A W → Option (ℤ × List ℕ × Multi A W)
  unfolding vl_multifs_deinit
  otfs_deinit fuel stack handle free_fn s =
      let walked : Option (List ℕ × Multi A W) =
        if free_fn
        then free_loop fuel handle (otfs_iterator_start handle (some stack) 0 s)
        else some ([], s) in
      if handle == 0 then some (minus 1, [], s) else elim walked [
        | none ↦ none
        | some (freed, s') ↦
            (let (rc, s'') = vl_multifs_deinit lib handle s' in some (pos rc, freed, s''))
      ]
