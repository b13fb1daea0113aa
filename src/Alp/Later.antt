-- ===== src/Alp/Later.antt =====
-- otlib/alp_filedata.c: the turns of `sub_filedata` after the first one, whose `file_mod` is 0 or 1.
use libotfs.Prelude.{
  ℕ, zero, suc, ◌+◌, ◌%◌, ◌≡◌, ◌∙◌, inl, inr, refl, sym, ap, Bool, true, false, not, Bool-cases,
  Option, none, some, Option-cases, ltb, ◌==◌, if◌then◌else◌, bit_and, u16, u16_of,
}
use mathlib.Core.Path.{subst}
use mathlib.Core.Option.{some-injective}
use libotfs.Auth.{User}
use libotfs.Queue.{readbyte, readshort, writebyte, writeshort, writeshort_be, writespace}
use libotfs.Veelite.{Veelite, Guard, vl_getheader_vaddr, vl_open_file, null_vaddr}
use libotfs.Veelite.Data.{vl_read}
use libotfs.Veelite.Open.{vl_getheader_vaddr_lem, open_file_cases}
use libotfs.Alp.State.{Alp, in_byte, in_short, out_short_be, is_full, minus16, access_w}
use libotfs.Alp.Perms.{block_of}
use libotfs.Alp.FileData.{
  Turn, read_loop, read_header, read_stage, write_stage, file_stage, with_read, clip_read,
  overhead_of, begin_turn, as_mod,
}

module _ {A : Type 0} where
  read_loop-files :
      (n fp offset limit span d : ℕ) (a : Alp A) (r : Bool × ℕ × ℕ × Alp A)
      → read_loop n fp offset limit span d a ≡ some r
      → r.3.files ≡ a.files
  unfolding read_loop writeshort_be
  read_loop-files zero fp offset limit span d a r e = absurd (cc)
  read_loop-files (suc n) fp offset limit span d a r e = elim (Bool-cases (ltb offset limit)) [
    | inr done ↦ ended (rw (done, read_loop) at e)
    | inl more ↦ elim (Bool-cases (is_full 2 a.outq)) [
      | inl full ↦ ended (rw (more, full, read_loop) at e)
      | inr free ↦ elim (Option-cases (vl_read fp offset a.files)) [
        | inl stuck ↦ absurd (cc (rw (more, free, stuck, read_loop) at e))
        | inr (w, rd) ↦
            read_loop-files n fp (u16 (offset + 2)) limit (minus16 span 2) (d + 2)
              (out_short_be w a) r (rw (more, free, rd, read_loop) at e)
      ]
    ]
  ]
    where
      ended : {o : Bool} {s : ℕ} → some (o, s, d, a) ≡ some r → r.3.files ≡ a.files
      ended {o} {s} same =
          ap (λ (x : Bool × ℕ × ℕ × Alp A). x.3.files) (sym (some-injective (o, s, d, a) r same))

  read_header-files :
      (inc : Bool) (header offset span : ℕ) (a : Alp A)
      → (read_header inc header offset span a).files ≡ a.files
  unfolding read_header writeshort writeshort_be writebyte
  read_header-files true header offset span a = refl
  read_header-files false header offset span a = refl

  -- A turn that is to read, from the one that it comes from.
  abbrev Reads : Veelite A → Turn A → Type 0
  Reads v t = (t.alp.files ≡ v) × (t.file_mod ≡ false)

  same_turn : (v : Veelite A) (t u : Turn A) → Reads v t → some t ≡ some u → Reads v u
  same_turn v t u h e = subst (Reads v) (some-injective t u e) h

  read_cases :
      (v : Veelite A) (t u : Turn A) (o : Option (Bool × ℕ × ℕ × Alp A))
      → t.file_mod ≡ false
      → ((r : Bool × ℕ × ℕ × Alp A) → o ≡ some r → r.3.files ≡ v)
      → with_read t o ≡ some u
      → Reads v u
  read_cases v t u none reads kept e = absurd (cc)
  read_cases v t u (some (o, s, d, a)) reads kept e =
      same_turn v (record t { overrun = o; span = s; data_out = d; alp = a }) u
        (kept (o, s, d, a) refl, reads) e

  read_stage-Reads :
      (inc : Bool) (header fp offset limit : ℕ) (t u : Turn A)
      → t.file_mod ≡ false
      → read_stage inc header fp offset limit t ≡ some u
      → Reads t.alp.files u
  unfolding read_stage
  read_stage-Reads inc header fp offset limit t u reads e =
      elim (Bool-cases (is_full (overhead_of inc) t.alp.outq)) [
        | inl full ↦
            same_turn t.alp.files (record t { overrun = true }) u (refl, reads)
              (rw (full, read_stage) at e)
        | inr free ↦
            let c = clip_read (t.alp.files.vlfile fp).length offset t.span limit in
            let a = read_header inc header offset c.0 t.alp in
            let n = suc (u16_of (writespace a.outq)) in
            let d = t.data_out + overhead_of inc in
            read_cases t.alp.files t u (read_loop n fp offset c.1 c.0 d a) reads
              (λ r there.
                read_loop-files n fp offset c.1 c.0 d a r there
                ∙ read_header-files inc header offset c.0 t.alp)
              (rw (free, read_stage) at e)
      ]

  file_stage-Reads :
      (cmd_in header fp offset limit : ℕ) (t u : Turn A)
      → t.file_mod ≡ false
      → file_stage cmd_in header fp offset limit t ≡ some u
      → Reads t.alp.files u
  unfolding file_stage
  file_stage-Reads cmd_in header fp offset limit t u reads e =
      read_stage-Reads (cmd_in % 16 == 0x0C) header fp offset limit t u reads (
        ap
          (λ c.
            if c
            then write_stage (not (bit_and cmd_in 0x01 == 0)) fp offset limit t
            else read_stage (cmd_in % 16 == 0x0C) header fp offset limit t)
          (sym reads)
        ∙ e)

module _ {A : Type 0} (g : Guard A) (invoke : ℕ → ℕ → Veelite A → ℕ × Veelite A) (epoch_s : ℕ) where
  open_file-fsram : (header : ℕ) (v : Veelite A) → (vl_open_file header v).1.fsram ≡ v.fsram
  open_file-fsram header v = elim (open_file_cases g header v) [
    | inl (full, e) ↦ ap (λ (x : Option ℕ × Veelite A). x.1.fsram) e
    | inr (i, free, e) ↦ ap (λ (x : Option ℕ × Veelite A). x.1.fsram) e
  ]

  -- The input behind the ID, the offset and the span of a turn.
  abbrev entered : Alp A → Alp A
  entered a = (in_short (in_short (in_byte a).1).1).1

  turn-Reads :
      (m : ℕ) (user : User) (cmd_in : ℕ) (fp : Option ℕ) (data_in d : ℕ) (a : Alp A) (u : Turn A)
      → bit_and m access_w ≡ 0
      → begin_turn g invoke epoch_s user cmd_in fp m data_in d a ≡ some u
      → (u.file_mod ≡ false) × (u.alp.files.fsram ≡ a.files.fsram)
  unfolding begin_turn readbyte readshort
  turn-Reads m user cmd_in fp data_in d a u reads e =
      let file_id = (in_byte a).0 in
      let offset = (in_short (in_byte a).1).0 in
      let span = (in_short (in_short (in_byte a).1).1).0 in
      let limit = if ltb 65535 (offset + span) then 65535 else offset + span in
      let h = vl_getheader_vaddr g null_vaddr (block_of cmd_in) file_id m user (entered a).files in
      let o = vl_open_file h.1 h.2 in
      let looked =
        ap (λ (x : Veelite A). x.fsram)
          (vl_getheader_vaddr_lem g null_vaddr (block_of cmd_in) file_id m user
            (entered a).files).0 in
      let no_write = ap (λ x. not (x == 0)) reads in
      let t : Turn A = record {
        overrun = false;
        file_id = file_id;
        span = span;
        file_mod = not (bit_and m access_w == 0);
        err_code = h.0;
        fp = fp;
        data_in = data_in;
        data_out = d;
        alp = record (entered a) { files = h.2 };
      } in
      elim (Bool-cases (h.0 == 0)) [
        | inr err ↦
            finish u h.2 (same_turn h.2 t u (refl, no_write) (rw (err, begin_turn) at e)) looked
        | inl ok ↦ elim (Option-cases o.0) [
          | inl full ↦
              finish u h.2
                (same_turn h.2 (record t { err_code = 0xFF; fp = none }) u (refl, no_write)
                  (rw (ok, full, begin_turn) at e))
                looked
          | inr (i, there) ↦
              let opened = record t { fp = some i; alp = record (entered a) { files = o.1 } } in
              finish u o.1
                (file_stage-Reads cmd_in h.1 i offset limit opened u no_write
                  (rw (ok, there, begin_turn) at e))
                (open_file-fsram h.1 h.2 ∙ looked)
        ]
      ]
    where
      finish :
          (x : Turn A) (v : Veelite A)
          → Reads v x
          → v.fsram ≡ a.files.fsram
          → (x.file_mod ≡ false) × (x.alp.files.fsram ≡ a.files.fsram)
      finish x v r same = (r.1, ap (λ (y : Veelite A). y.fsram) r.0 ∙ same)

  -- Whatever the command, a turn of `sub_filedata` after the first one, up to the place where it
  -- closes its file, only reads: `file_mod` is by then the answer of the turn before, 0 or 1,
  -- neither of which has the bits of VL_ACCESS_W. Up to there no half-word of the files is changed,
  -- and what it leaves for the next turn is again not a write. What the closing does is not part of
  -- this.
  pub begin_turn-later :
      (before : Bool) (user : User) (cmd_in : ℕ) (fp : Option ℕ) (data_in d : ℕ) (a : Alp A)
      (u : Turn A)
      → begin_turn g invoke epoch_s user cmd_in fp (as_mod g invoke epoch_s before) data_in d a
        ≡ some u
      → (u.file_mod ≡ false) × (u.alp.files.fsram ≡ a.files.fsram)
  begin_turn-later true user cmd_in fp data_in d a u e =
      turn-Reads 1 user cmd_in fp data_in d a u refl e
  begin_turn-later false user cmd_in fp data_in d a u e =
      turn-Reads 0 user cmd_in fp data_in d a u refl e
