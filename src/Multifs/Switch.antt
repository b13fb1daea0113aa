-- ===== src/Multifs/Switch.antt =====
-- otlib/veelite_multifs.c and main/otfs.c: one filesystem after another.
use libotfs.Prelude.{ℕ, ◌≡◌, ◌≢◌, Option, none, some, arith}
use libotfs.Prelude.Int.{pos}
use libotfs.Vworm.{Fsram}
use libotfs.Veelite.{Veelite, vl_init, no_file}
use libotfs.Multifs.{Judy, Multi, block, vworm_init, switch_context, vl_multifs_switch}
use libotfs.Multifs.Judies.{Pairs, find, IsJudy}
use libotfs.Multifs.Front.{Otfs, otfs_setfs, sub_loadfs}

-- What the files see when a filesystem has just been switched to: its memory, and no open file.
abbrev pub fresh : {A : Type 0} → Fsram → A → Veelite A
fresh m a = record {
  fsram = m;
  vlfile = λ fd. no_file;
  vlaction = λ i. none;
  vlaction_users = λ i. 0;
  auth = a;
}

module _ {A W : Type 0} where
  -- A block is the same before and after the switch, whichever it is.
  pub switch_block : (b c : ℕ) (s : Multi A W) → block (switch_context b s) c ≡ block s c
  unfolding switch_context vworm_init vl_init
  switch_block b c s = ground arith

  pub switch_base : (b : ℕ) (s : Multi A W) → b ≢ 0 → (switch_context b s).base ≡ b
  unfolding switch_context vworm_init vl_init
  switch_base b s h = ground arith

  pub switch_judy : (b : ℕ) (s : Multi A W) → (switch_context b s).judy ≡ s.judy
  unfolding switch_context vworm_init vl_init
  switch_judy b s = ground arith

  pub switch_veelite :
      (b : ℕ) (s : Multi A W)
      → b ≢ 0
      → (switch_context b s).veelite ≡ fresh (block s b) s.veelite.auth
  unfolding switch_context vworm_init vl_init
  switch_veelite b s h = ground arith

-- What is left of the search for an ID.
abbrev pub after_slot : {A W : Type 0} → Judy W → ℕ → ℕ → Multi A W → Multi A W
after_slot lib handle uid s = record s { judy = (lib.judy_slot handle uid 8 s.judy).1 }

module _ {A W : Type 0} {lib : Judy W} {handle : ℕ} {pairs rest : W → Pairs} {place : W → Option ℕ}
    (laws : IsJudy lib handle pairs rest place) (some_handle : handle ≢ 0) where
  pub setfs_missing :
      (fs : Option Otfs) (uid : ℕ) (s : Multi A W)
      → find uid (pairs s.judy) ≡ none
      → otfs_setfs lib handle fs uid s ≡ (pos 0x11, fs, after_slot lib handle uid s)
  unfolding otfs_setfs vl_multifs_switch
  setfs_missing fs uid s e = ground (arith, laws.slot_missing uid s.judy e, some_handle)

  pub setfs_found :
      (fs : Option Otfs) (uid b : ℕ) (s : Multi A W)
      → find uid (pairs s.judy) ≡ some b
      → let s' = switch_context b (after_slot lib handle uid s) in
        otfs_setfs lib handle fs uid s
        ≡ (pos 0, sub_loadfs fs b (record { length = 8; value = uid }) s', s')
  unfolding otfs_setfs vl_multifs_switch
  setfs_found fs uid b s e = ground (arith, laws.slot_found uid b s.judy e, some_handle)
