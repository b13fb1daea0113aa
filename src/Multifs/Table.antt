-- ===== src/Multifs/Table.antt =====
-- main/otfs.c: what the table of filesystems holds after a call.
use libotfs.Prelude.{
  ℕ, ◌^◌, ◌<◌, ◌≡◌, ◌≢◌, ◌∙◌, sym, ap, Option, none, some, Bool, [], ◌∷◌, ◌==◌, if◌then◌else◌,
  arith, not, ◌&&◌,
}
use libotfs.Prelude.Int.{ℤ, pos}
use libotfs.Vworm.{fshdr}
use libotfs.Veelite.{Veelite, vl_init}
use libotfs.Multifs.{Judy, Multi, block, switch_context, vworm_init, vl_multifs_add, vl_multifs_del}
use libotfs.Multifs.Judies.{Pairs, find, IsJudy, get_or_zero}
use libotfs.Multifs.Front.{Otfs, minus, otfs_new, otfs_del, otfs_setfs, sub_loadfs, vl_get_fsalloc}
use libotfs.Multifs.Switch.{
  switch_block, switch_base, switch_veelite, setfs_missing, setfs_found, after_slot,
}

module _ {A W : Type 0} where
  -- What a selection of the filesystem at `b` has done.
  abbrev pub Selected : ℕ → ℕ → Multi A W → ℤ × Option Otfs × Multi A W → Type 0
  Selected uid b s (rc, fs, s') =
      (rc ≡ pos 0)
      × (fs
          ≡ some
              (record { uid = uid; base = b; alloc = vl_get_fsalloc (some (fshdr (block s b))) }))
      × (s'.base ≡ b)
      × (s'.veelite.fsram ≡ block s b)
      × ((c : ℕ) → block s' c ≡ block s c)

module _ {A W : Type 0} {lib : Judy W} {handle : ℕ} {pairs rest : W → Pairs} {place : W → Option ℕ}
    (laws : IsJudy lib handle pairs rest place) (some_handle : handle ≢ 0) where
  -- An addition that succeeds, by the two tests.
  add_cases :
      (base uid : ℕ) (s : Multi A W)
      → let (rc, s') = vl_multifs_add lib handle base (record { length = 8; value = uid }) s in
        let (c, w) = lib.judy_cell handle uid 8 s.judy in
        rc ≡ 0 → (c ≢ 0) × (lib.load_cell c w ≡ 0) × (s'.judy ≡ lib.store_cell c base w)
  unfolding vl_multifs_add
  add_cases base uid s e = (
    ground (arith, e, some_handle),
    ground (arith, e, some_handle),
    ground (arith, e, some_handle),
  )

  added :
      (base uid : ℕ) (s : Multi A W)
      → let (rc, s') = vl_multifs_add lib handle base (record { length = 8; value = uid }) s in
        rc ≡ 0
        → (get_or_zero (find uid (pairs s.judy)) ≡ 0)
          × ((j : ℕ)
              → find j (pairs s'.judy) ≡ (if j == uid then some base else find j (pairs s.judy)))
  added base uid s e =
      let (some_cell, empty, done) = add_cases base uid s e in
      let made = laws.cell_made uid s.judy some_cell in
      (sym made.0 ∙ empty, λ j. ap (λ w. find j (pairs w)) done ∙ made.2 j base)

  deleted :
      (fs : Otfs) (free_fn : Bool) (b : ℕ) (s : Multi A W)
      → find fs.uid (pairs s.judy) ≡ some b
      → otfs_del lib handle (some fs) free_fn s ≡ (
        pos 0,
        (if free_fn && not (fs.base == 0) then fs.base ∷ [] else []),
        record s { judy = lib.judy_del handle (after_slot lib handle fs.uid s).judy },
      )
  unfolding otfs_del vl_multifs_del
  deleted fs free_fn b s e = ground (arith, laws.slot_found fs.uid b s.judy e, some_handle)

  new_cases :
      (auth_init : Veelite A → Option (Veelite A)) (fs : Otfs) (s s1 : Multi A W)
      → let (rc, s') =
          vl_multifs_add lib handle fs.base (record { length = 8; value = fs.uid }) s in
        otfs_new lib auth_init handle fs s ≡ some (pos 0, s1) → (rc ≡ 0) × (s1.judy ≡ s'.judy)
  unfolding otfs_new vworm_init vl_init
  new_cases auth_init fs s s1 e = (ground (arith, e), ground (arith, e))

  loaded_whole :
      (dst : Otfs) (uid b : ℕ) (s : Multi A W)
      → b ≢ 0
      → uid < 2 ^ 64
      → dst.uid < 2 ^ 64
      → sub_loadfs (some dst) b (record { length = 8; value = uid }) s
        ≡ some (record { uid = uid; base = b; alloc = vl_get_fsalloc (some (fshdr (block s b))) })
  unfolding sub_loadfs
  loaded_whole dst uid b s some_base small dst_small = ground arith

  selected :
      (dst : Otfs) (uid b : ℕ) (s : Multi A W)
      → b ≢ 0
      → uid < 2 ^ 64
      → dst.uid < 2 ^ 64
      → find uid (pairs s.judy) ≡ some b
      → Selected uid b s (otfs_setfs lib handle (some dst) uid s)
  selected dst uid b s some_base small dst_small e =
      let s1 = after_slot lib handle uid s in
      let s2 = switch_context b s1 in
      let r = setfs_found laws some_handle (some dst) uid b s e in
      (
        ap (λ x. x.0) r,
        ap (λ x. x.1) r
            ∙ loaded_whole dst uid b s2 some_base small dst_small
            ∙ ap
                (λ m.
                  some (record { uid = uid; base = b; alloc = vl_get_fsalloc (some (fshdr m)) }))
                (switch_block b b s1),
        ap (λ x. x.2.base) r ∙ switch_base b s1 some_base,
        ap (λ x. x.2.veelite.fsram) r
            ∙ ap (λ (v : Veelite A). v.fsram) (switch_veelite b s1 some_base),
        λ c. ap (λ x. block x.2 c) r ∙ switch_block b c s1,
      )

  -- A filesystem that `otfs_new` has added with 0, under an ID of 64 bits and with a base: its ID
  -- was free. As long as the table is not changed, whatever else is done, `otfs_setfs` for its ID
  -- returns 0 and tells the ID, the base and the sum of the allocations in its header; it makes its
  -- memory that of the files and leaves the contents of every block as they were.
  pub otfs_setfs-otfs_new :
      (auth_init : Veelite A → Option (Veelite A)) (fs dst : Otfs) (s s1 s2 : Multi A W)
      → fs.base ≢ 0
      → fs.uid < 2 ^ 64
      → dst.uid < 2 ^ 64
      → otfs_new lib auth_init handle fs s ≡ some (pos 0, s1)
      → pairs s2.judy ≡ pairs s1.judy
      → (get_or_zero (find fs.uid (pairs s.judy)) ≡ 0)
        × Selected fs.uid fs.base s2 (otfs_setfs lib handle (some dst) fs.uid s2)
  otfs_setfs-otfs_new auth_init fs dst s s1 s2 some_base small dst_small e same =
      let (ok, kept) = new_cases auth_init fs s s1 e in
      let (free, held) = added fs.base fs.uid s ok in
      (
        free,
        selected dst fs.uid fs.base s2 some_base small dst_small
            (ap (find fs.uid) (same ∙ ap pairs kept) ∙ held fs.uid ∙ ground arith),
      )

  -- `otfs_new` under an ID that the table has with a base returns -0x12, where the table has room,
  -- and changes nothing that a search finds; neither does it select the filesystem.
  pub otfs_new_twice :
      (auth_init : Veelite A → Option (Veelite A)) (fs : Otfs) (b j : ℕ) (s : Multi A W)
      → find fs.uid (pairs s.judy) ≡ some b
      → b ≢ 0
      → let (c, w) = lib.judy_cell handle fs.uid 8 s.judy in
        c ≢ 0
        → (otfs_new lib auth_init handle fs s ≡ some (minus 0x12, record s { judy = w }))
          × (find j (pairs w) ≡ find j (pairs s.judy))
  otfs_new_twice auth_init fs b j s e some_base some_cell =
      let made = laws.cell_made fs.uid s.judy some_cell in
      let full = made.0 ∙ ap get_or_zero e in (refused full, made.1 j ∙ ground (arith, full, e))
    where
      refused :
          lib.load_cell
              (lib.judy_cell handle fs.uid 8 s.judy).0
              (lib.judy_cell handle fs.uid 8 s.judy).1
            ≡ b
          → otfs_new lib auth_init handle fs s
            ≡ some (minus 0x12, record s { judy = (lib.judy_cell handle fs.uid 8 s.judy).1 })
      refused full = unfold otfs_new vl_multifs_add in ground (arith, full)

  -- `otfs_del` of a filesystem that the table has returns 0, frees the base that the caller names,
  -- once, if he names one and a function, and leaves every other ID as it was; a selection of that
  -- ID then returns 0x11 and changes neither the selected filesystem nor any memory.
  pub otfs_setfs-otfs_del :
      (fs dst : Otfs) (free_fn : Bool) (b : ℕ) (s : Multi A W)
      → find fs.uid (pairs s.judy) ≡ some b
      → let (rc, freed, s1) = otfs_del lib handle (some fs) free_fn s in
        let (rc', fs', s2) = otfs_setfs lib handle (some dst) fs.uid s1 in
        (rc ≡ pos 0)
        × (freed ≡ (if free_fn && not (fs.base == 0) then fs.base ∷ [] else []))
        × ((j : ℕ) → j ≢ fs.uid → find j (pairs s1.judy) ≡ find j (pairs s.judy))
        × (rc' ≡ pos 0x11)
        × (fs' ≡ some dst)
        × (s2.base ≡ s.base)
        × (s2.veelite ≡ s.veelite)
        × (s2.memory ≡ s.memory)
  otfs_setfs-otfs_del fs dst free_fn b s e =
      let r = deleted fs free_fn b s e in
      let w = (after_slot lib handle fs.uid s).judy in
      let s1 : Multi A W = record s { judy = lib.judy_del handle w } in
      let found = laws.slot_found fs.uid b s.judy e in
      let gone : find fs.uid (pairs s1.judy) ≡ none =
        laws.deleted fs.uid fs.uid w found.2 ∙ ground arith in
      let missed =
        ap (λ x. otfs_setfs lib handle (some dst) fs.uid x.2) r
        ∙ setfs_missing laws some_handle (some dst) fs.uid s1 gone in
      (
        ap (λ x. x.0) r,
        ap (λ x. x.1) r,
        λ j other.
            ap (λ x. find j (pairs x.2.judy)) r
            ∙ laws.deleted j fs.uid w found.2
            ∙ ground (arith, found.3 j, other),
        ap (λ x. x.0) missed,
        ap (λ x. x.1) missed,
        ap (λ x. x.2.base) missed,
        ap (λ x. x.2.veelite) missed,
        ap (λ x. x.2.memory) missed,
      )
