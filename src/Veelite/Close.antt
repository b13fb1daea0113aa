-- ===== src/Veelite/Close.antt =====
-- otlib/veelite.c: the end of an open file, `vl_close` and `vl_touch`, and its times.
use libotfs.Prelude.{
  ℕ, ◌+◌, ◌/◌, ◌%◌, ◌^◌, ◌<◌, ◌≡◌, ◌≢◌, ◌∙◌, ◌⊎◌, ap, refl, false, Option, none, some, bit_and,
  bit_or, u8, byte, ◌==◌, arith, lt→ltb,
}
use libotfs.Prelude.Bits.{bit_and-zero}
use libotfs.Auth.{User}
use libotfs.Vworm.{Fsram, vworm_read, vworm_write}
use libotfs.Veelite.{
  file_at, null_vaddr, Veelite, VlFile, Guard, put, vl_open, sub_write_header, vlactions,
  vl_access_rw,
}
use libotfs.Veelite.Data.{
  with_file, opened, modded, vl_close, vl_touch, vl_getmodtime, vl_setmodtime, close_header, kill,
  sub_action,
}

module _ {A : Type 0} where
  -- `vl_getmodtime` reads what `vl_setmodtime` wrote, for a header at an even address.
  pub vl_getmodtime-vl_setmodtime :
      (fp newtime : ℕ) (v : Veelite A)
      → newtime < 2 ^ 32
      → (v.vlfile fp).header % 2 ≡ 0
      → (v.vlfile fp).header + 16 < 2 ^ 16
      → vl_getmodtime (some fp) ((vl_setmodtime (some fp) newtime v).1) ≡ newtime
  unfolding vl_getmodtime vl_setmodtime vworm_read vworm_write
  vl_getmodtime-vl_setmodtime fp newtime v small even fits = ground arith

-- The header that `vl_close` leaves: the length is the file's, the time is the clock's exactly if the
-- file was modified, and every half-word but those three is as before.
pub close_header_lem :
    (epoch_s x : ℕ) (f : VlFile) (s : Fsram)
    → f.header % 2 ≡ 0
    → f.header + 16 < 2 ^ 16
    → let s' = close_header epoch_s f s in
      (vworm_read f.header s' ≡ f.length)
      × ((bit_and f.flags 2 ≡ 0)
            × (vworm_read (f.header + 12) s' ≡ vworm_read (f.header + 12) s)
            × (vworm_read (f.header + 14) s' ≡ vworm_read (f.header + 14) s)
          ⊎ (bit_and f.flags 2 ≢ 0)
            × (vworm_read (f.header + 12) s' ≡ epoch_s % 2 ^ 16)
            × (vworm_read (f.header + 14) s' ≡ epoch_s / 2 ^ 16))
      × ((s' x ≡ s x) ⊎ (x ≡ f.header / 2) ⊎ (x ≡ f.header / 2 + 6) ⊎ (x ≡ f.header / 2 + 7))
unfolding close_header vworm_read sub_write_header vworm_write
close_header_lem epoch_s x f s even fits = ground arith

-- The action of a header stays.
pub close_header-action :
    (epoch_s : ℕ) (f : VlFile) (s : Fsram)
    → f.header % 2 ≡ 0
    → f.header + 16 < 2 ^ 16
    → vworm_read (f.header + 10) (close_header epoch_s f s) ≡ vworm_read (f.header + 10) s
unfolding close_header vworm_read sub_write_header vworm_write
close_header-action epoch_s f s even fits = ground arith

-- The file that is opened again after a close, where the header names no mirror, is the file of the
-- header as it was before, with the length that the closed file had.
pub file_at-close_header :
    (epoch_s : ℕ) (f : VlFile) (s : Fsram)
    → f.header % 2 ≡ 0
    → f.header + 16 < 2 ^ 16
    → vworm_read (f.header + 8) s ≡ null_vaddr
    → file_at f.header (close_header epoch_s f s)
      ≡ record (file_at f.header s) { length = f.length }
unfolding file_at close_header vworm_read sub_write_header vworm_write
file_at-close_header epoch_s f s even fits no_mirror = ground arith

-- Without a modification only the length is written.
close_header-kept :
    (epoch_s x : ℕ) (f : VlFile) (s : Fsram)
    → f.header % 2 ≡ 0
    → f.header + 16 < 2 ^ 16
    → bit_and f.flags modded ≡ 0
    → x ≢ f.header / 2
    → close_header epoch_s f s x ≡ s x
unfolding close_header vworm_read sub_write_header vworm_write
close_header-kept epoch_s x f s even fits same other = ground arith

module _ {A : Type 0} (invoke : ℕ → ℕ → Veelite A → ℕ × Veelite A) where
  abbrev with_header : ℕ → ℕ → Veelite A → Veelite A
  with_header epoch_s fp v = record v { fsram = close_header epoch_s (v.vlfile fp) v.fsram }

  abbrev freed : ℕ → Veelite A → Veelite A
  freed fp v = record v { vlfile = put v.vlfile fp (kill (v.vlfile fp)) }

  close-plain :
      (epoch_s fp : ℕ) (v : Veelite A)
      → bit_and
          (byte 0 (vworm_read ((v.vlfile fp).header + 10) (with_header epoch_s fp v).fsram))
          (u8 (v.vlfile fp).flags)
        ≡ 0
      → vl_close invoke epoch_s (some fp) v ≡ some (0, freed fp (with_header epoch_s fp v))
  unfolding vl_close
  close-plain epoch_s fp v e = rw (vl_close, e) refl

  close-acts :
      (epoch_s fp a : ℕ) (v : Veelite A)
      → bit_and
          (byte 0 (vworm_read ((v.vlfile fp).header + 10) (with_header epoch_s fp v).fsram))
          (u8 (v.vlfile fp).flags)
        ≢ 0
      → vworm_read ((v.vlfile fp).header + 10) (with_header epoch_s fp v).fsram / 256 < vlactions
      → v.vlaction (vworm_read ((v.vlfile fp).header + 10) (with_header epoch_s fp v).fsram / 256)
        ≡ some a
      → let r = invoke a fp (with_header epoch_s fp v) in
        vl_close invoke epoch_s (some fp) v ≡ some (r.0, freed fp r.1)
  unfolding vl_close sub_action
  close-acts epoch_s fp a v e lt act =
      rw (vl_close, nonzero, sub_action, lt→ltb (action / 256) vlactions lt, act) refl
    where
      action : ℕ
      action = vworm_read ((v.vlfile fp).header + 10) (with_header epoch_s fp v).fsram

      nonzero : (bit_and (byte 0 action) (u8 (v.vlfile fp).flags) == 0) ≡ false
      nonzero = ground (arith, e)

  -- `vl_close` of a file whose header has no condition for an action returns 0, leaves the header of
  -- `close_header` and frees this file pointer alone.
  pub vl_close_plain :
      (epoch_s fp k : ℕ) (v : Veelite A)
      → (v.vlfile fp).header % 2 ≡ 0
      → (v.vlfile fp).header + 16 < 2 ^ 16
      → bit_and (byte 0 (vworm_read ((v.vlfile fp).header + 10) v.fsram)) (u8 (v.vlfile fp).flags)
        ≡ 0
      → (v' : Veelite A) × (vl_close invoke epoch_s (some fp) v ≡ some (0, v'))
        × (v'.fsram ≡ close_header epoch_s (v.vlfile fp) v.fsram)
        × ((v'.vlfile fp).read ≡ none)
        × ((v'.vlfile fp).write ≡ none)
        × ((k ≡ fp) ⊎ (v'.vlfile k ≡ v.vlfile k))
  vl_close_plain epoch_s fp k v even fits no_action = (
    freed fp (with_header epoch_s fp v),
    close-plain epoch_s fp v
        (rw (close_header-action epoch_s (v.vlfile fp) v.fsram even fits) no_action),
    refl,
    ground arith,
    ground arith,
    ground arith,
  )

  -- A file pointer that is closed twice: the first close, where the header has no condition for an
  -- action, writes the length of the file to the header and returns 0. So does the second one, and
  -- leaves the length 0 there: the data of the file is lost, though nothing was written to the file
  -- and another pointer may have it open.
  pub vl_close_twice :
      (epoch_s epoch_s' fp : ℕ) (v : Veelite A)
      → (v.vlfile fp).header % 2 ≡ 0
      → (v.vlfile fp).header + 16 < 2 ^ 16
      → bit_and (byte 0 (vworm_read ((v.vlfile fp).header + 10) v.fsram)) (u8 (v.vlfile fp).flags)
        ≡ 0
      → (v' v'' : Veelite A) × (vl_close invoke epoch_s (some fp) v ≡ some (0, v'))
        × (vl_close invoke epoch_s' (some fp) v' ≡ some (0, v''))
        × (vworm_read (v.vlfile fp).header v'.fsram ≡ (v.vlfile fp).length)
        × (vworm_read (v.vlfile fp).header v''.fsram ≡ 0)
  vl_close_twice epoch_s epoch_s' fp v even fits no_action = (
    v1,
    freed fp (with_header epoch_s' fp v1),
    close-plain epoch_s fp v
        (rw (close_header-action epoch_s (v.vlfile fp) v.fsram even fits) no_action),
    close-plain epoch_s' fp v1 (killed (v1.vlfile fp) there),
    (close_header_lem epoch_s 0 (v.vlfile fp) v.fsram even fits).0,
    ap (λ f. vworm_read (v.vlfile fp).header (close_header epoch_s' f v1.fsram)) there
        ∙ (close_header_lem epoch_s' 0 (kill (v.vlfile fp)) v1.fsram even fits).0,
  )
    where
      v1 : Veelite A
      v1 = freed fp (with_header epoch_s fp v)

      there : v1.vlfile fp ≡ kill (v.vlfile fp)
      there = ground arith

      killed :
          (f : VlFile)
          → f ≡ kill (v.vlfile fp)
          → bit_and
              (byte 0 (vworm_read (f.header + 10) (close_header epoch_s' f v1.fsram)))
              (u8 f.flags)
            ≡ 0
      killed f e = ap (λ (x : VlFile). bit_and word (u8 x.flags)) e ∙ bit_and-zero word
        where
          word : ℕ
          word = byte 0 (vworm_read (f.header + 10) (close_header epoch_s' f v1.fsram))

  -- Where the condition in the header meets the flags of the file, `vl_close` runs the action that
  -- the header names, on the file with its new header, returns its result and then frees the file
  -- pointer.
  vl_close_acts :
      (epoch_s fp a : ℕ) (v : Veelite A)
      → (v.vlfile fp).header % 2 ≡ 0
      → (v.vlfile fp).header + 16 < 2 ^ 16
      → bit_and (byte 0 (vworm_read ((v.vlfile fp).header + 10) v.fsram)) (u8 (v.vlfile fp).flags)
        ≢ 0
      → vworm_read ((v.vlfile fp).header + 10) v.fsram / 256 < vlactions
      → v.vlaction (vworm_read ((v.vlfile fp).header + 10) v.fsram / 256) ≡ some a
      → let r = invoke a fp (record v { fsram = close_header epoch_s (v.vlfile fp) v.fsram }) in
        (v' : Veelite A) × (vl_close invoke epoch_s (some fp) v ≡ some (r.0, v'))
        × (v'.fsram ≡ r.1.fsram)
        × ((v'.vlfile fp).read ≡ none)
        × ((v'.vlfile fp).write ≡ none)
  vl_close_acts epoch_s fp a v even fits cond lt act = (
    freed fp (invoke a fp (with_header epoch_s fp v)).1,
    close-acts epoch_s fp a v (rw same cond) (rw same lt) (rw same act),
    refl,
    ground arith,
    ground arith,
  )
    where
      same :
          vworm_read ((v.vlfile fp).header + 10) (with_header epoch_s fp v).fsram
          ≡ vworm_read ((v.vlfile fp).header + 10) v.fsram
      same = close_header-action epoch_s (v.vlfile fp) v.fsram even fits

  abbrev touched : ℕ → Option ℕ × Veelite A → Option (ℕ × Veelite A)
  touched epoch_s o = elim o.0 [
    | none ↦ some (255, o.1)
    | some i ↦ vl_close invoke epoch_s (some i) (
        with_file o.1 i
          (record (o.1.vlfile i) { flags = bit_and (o.1.vlfile i).flags (bit_or opened modded) }))
  ]

  touch_lem :
      (g : Guard A) (epoch_s block_id data_id flags : ℕ) (user : User) (v : Veelite A)
      (fp : Option ℕ) (v1 : Veelite A)
      → vl_open g block_id data_id vl_access_rw user v ≡ (fp, v1)
      → vl_touch invoke g epoch_s block_id data_id flags user v ≡ touched epoch_s (fp, v1)
  unfolding vl_touch
  touch_lem g epoch_s block_id data_id flags user v fp v1 e = ap (touched epoch_s) e

  -- `vl_touch` of a file that opens without an action for it returns 0 and changes no half-word of
  -- the memory but that of the file's length: the time of the file is as before, whatever the
  -- flags.
  vl_touch-modtime :
      (g : Guard A) (epoch_s block_id data_id flags i x : ℕ) (user : User) (v v1 : Veelite A)
      → vl_open g block_id data_id vl_access_rw user v ≡ (some i, v1)
      → (v1.vlfile i).flags ≡ 1
      → (v1.vlfile i).header % 2 ≡ 0
      → (v1.vlfile i).header + 16 < 2 ^ 16
      → bit_and (byte 0 (vworm_read ((v1.vlfile i).header + 10) v1.fsram)) 1 ≡ 0
      → x ≢ (v1.vlfile i).header / 2
      → (v' : Veelite A) × (vl_touch invoke g epoch_s block_id data_id flags user v ≡ some (0, v'))
        × (v'.fsram x ≡ v1.fsram x)
  vl_touch-modtime g epoch_s block_id data_id flags i x user v v1 o fl even fits no_action other = (
    freed i (with_header epoch_s i v2),
    touch_lem g epoch_s block_id data_id flags user v (some i) v1 o
        ∙ close-plain epoch_s i v2 (
            rw (same_header, close_header-action epoch_s f2 v1.fsram even fits, the_flags)
              no_action),
    rw same_header (close_header-kept epoch_s x f2 v1.fsram even fits (rw the_flags refl) other),
  )
    where
      f2 : VlFile
      f2 = record (v1.vlfile i) { flags = bit_and (v1.vlfile i).flags (bit_or opened modded) }

      v2 : Veelite A
      v2 = with_file v1 i f2

      same_header : v2.vlfile i ≡ f2
      same_header = ground arith

      the_flags : bit_and (v1.vlfile i).flags (bit_or opened modded) ≡ 1
      the_flags = rw fl refl
