-- ===== src/Alp/FileData.antt =====
-- otlib/alp_filedata.c: `sub_filedata`, which reads and writes the data of files. `none` is a call
-- that does not return: a `NULL` pointer that `vl_close` calls, or a loop that goes on for ever.
-- `data_in` and `span` are 16-bit patterns, since the source takes from them below 0.
use libotfs.Prelude.{
  ℕ, zero, suc, ◌+◌, ◌-◌, ◌%◌, Bool, true, false, ◌&&◌, ◌||◌, not, Option, none, some, bit_and,
  bit_or, u16, u16_of, signed16, byte, ltb, leb, ◌==◌, if◌then◌else◌,
}
use libotfs.Auth.{User}
use libotfs.Vworm.{vworm_read}
use libotfs.Queue.{markbyte, writespace}
use libotfs.Veelite.{Veelite, Guard, vl_getheader_vaddr, vl_open_file, null_vaddr}
use libotfs.Veelite.Data.{vl_read, vl_write, vl_close, with_file}
use libotfs.Alp.State.{
  Alp, in_byte, in_short, in_short_be, out_byte, out_short, out_short_be, out_pair, is_full,
  minus16, is_positive16, access_w,
}
use libotfs.Alp.Perms.{block_of, mod_of, out_header}

-- `span = fp->length - offset` and the two other cases, with the new limit.
unfoldable pub clip_read : ℕ → ℕ → ℕ → ℕ → ℕ × ℕ
clip_read length offset span limit =
    if leb length offset
    then (0, 0)
    else if ltb length limit
    then (length - offset, length)
    else (span, limit)

-- What the two loops leave: whether they ran out of the queue, `span`, and the rest.
pub record Written (A : Type 0) : Type 0 where
  pub overrun : Bool
  pub span : ℕ
  pub data_in : ℕ
  pub err_code : ℕ
  pub alp : Alp A

-- The variables of `sub_filedata` between two stages of a turn.
pub record Turn (A : Type 0) : Type 0 where
  pub overrun : Bool
  pub file_id : ℕ
  pub span : ℕ
  pub file_mod : Bool
  pub err_code : ℕ
  pub fp : Option ℕ
  pub data_in : ℕ
  pub data_out : ℕ
  pub alp : Alp A

abbrev pub overhead_of : Bool → ℕ
overhead_of inc_header = if inc_header then 10 else 5

module _ {A : Type 0} where
  -- At the end of the input the loop stops, so that what is left of the queue is fuel enough.
  unfoldable pub write_loop : ℕ → ℕ → ℕ → ℕ → ℕ → ℕ → ℕ → Alp A → Option (Written A)
  unfolding vl_write
  write_loop zero fp offset limit span data_in err a = none
  write_loop (suc n) fp offset limit span data_in err a = elim (ltb offset limit) [
    | false ↦
        some (record { overrun = false; span = span; data_in = data_in; err_code = err; alp = a })
    | true ↦ elim (leb a.inq.back a.inq.getcursor) [
      | true ↦
          some (record { overrun = true; span = span; data_in = data_in; err_code = err; alp = a })
      | false ↦
          let (word, a1) = in_short_be a in
          elim (vl_write fp offset word a1.files) [
            | none ↦ none
            | some (r, v) ↦
                write_loop n fp (u16 (offset + 2)) limit (minus16 span 2) (minus16 data_in 2)
                  (bit_or err r) (record a1 { files = v })
          ]
    ]
  ]

  -- The other loop stops at the end of the output.
  unfoldable pub read_loop : ℕ → ℕ → ℕ → ℕ → ℕ → ℕ → Alp A → Option (Bool × ℕ × ℕ × Alp A)
  unfolding vl_read writespace
  read_loop zero fp offset limit span data_out a = none
  read_loop (suc n) fp offset limit span data_out a = elim (ltb offset limit) [
    | false ↦ some (false, span, data_out, a)
    | true ↦ elim (is_full 2 a.outq) [
      | true ↦ some (true, span, data_out, a)
      | false ↦ elim (vl_read fp offset a.files) [
        | none ↦ none
        | some word ↦
            read_loop n fp (u16 (offset + 2)) limit (minus16 span 2) (data_out + 2)
              (out_short_be word a)
      ]
    ]
  ]

  abbrev pub with_written : Turn A → Option (Written A) → Option (Turn A)
  with_written t none = none
  with_written t (some w) = some (record t {
    overrun = w.overrun;
    span = w.span;
    data_in = w.data_in;
    err_code = w.err_code;
    alp = w.alp;
  })

  -- Stage B of a write.
  unfoldable pub write_stage : Bool → ℕ → ℕ → ℕ → Turn A → Option (Turn A)
  unfolding write_loop
  write_stage insert fp offset limit t =
      let f = t.alp.files.vlfile fp in
      let cut = ltb f.alloc limit in
      let new = record f { length = if insert then f.length else 0 } in
      let a = record t.alp { files = with_file t.alp.files fp new } in
      if leb f.alloc offset
      then some (record t { err_code = 0x07 })
      else with_written t (
          write_loop (suc (a.inq.back - a.inq.getcursor)) fp offset (if cut then f.alloc else limit)
            t.span t.data_in (if cut then 0x08 else 0) a)

  abbrev pub with_read : Turn A → Option (Bool × ℕ × ℕ × Alp A) → Option (Turn A)
  with_read t none = none
  with_read t (some (overrun, span, data_out, a)) =
      some (record t { overrun = overrun; span = span; data_out = data_out; alp = a })

  -- What stands before the data that is read.
  unfoldable pub read_header : Bool → ℕ → ℕ → ℕ → Alp A → Alp A
  unfolding vworm_read
  read_header inc_header header offset span a = out_short span (
      out_short offset (
        if inc_header
        then out_header header a
        else out_byte (byte 0 (vworm_read (header + 4) a.files.fsram)) a))

  -- Stage B of a read.
  unfoldable pub read_stage : Bool → ℕ → ℕ → ℕ → ℕ → Turn A → Option (Turn A)
  unfolding read_loop read_header clip_read writespace
  read_stage inc_header header fp offset limit t =
      let f = t.alp.files.vlfile fp in
      let (span, end) = clip_read f.length offset t.span limit in
      let a = read_header inc_header header offset span t.alp in
      if is_full (overhead_of inc_header) t.alp.outq
      then some (record t { overrun = true })
      else with_read t (
          read_loop (suc (u16_of (writespace a.outq))) fp offset end span
            (t.data_out + overhead_of inc_header) a)

  -- Stage B.
  unfoldable pub file_stage : ℕ → ℕ → ℕ → ℕ → ℕ → Turn A → Option (Turn A)
  file_stage cmd_in header fp offset limit t =
      if t.file_mod
      then write_stage (not (bit_and cmd_in 0x01 == 0)) fp offset limit t
      else read_stage (cmd_in % 16 == 0x0C) header fp offset limit t

  -- Stage C after `vl_close` has returned `app_err`: the answer, and the count of what is left.
  unfoldable pub answer_turn : Bool → ℕ → ℕ → Turn A → Turn A
  unfolding markbyte writespace
  answer_turn respond outq_marker app_err t =
      let err = if not (app_err == 0) && t.err_code == 0 then 0x09 else t.err_code in
      let back = record t.alp {
        outq = record t.alp.outq { putcursor = outq_marker };
        outrec = record t.alp.outrec { cmd = bit_or t.alp.outrec.cmd 0x0F };
      } in
      let b = out_pair t.file_id err (if t.file_mod then t.alp else back) in
      let c = record b { inq = (markbyte b.inq (signed16 t.span)).1 } in
      if respond && is_full 2 t.alp.outq
      then record t { overrun = true; err_code = err }
      else if respond && (t.file_mod || not (err == 0))
      then (record t {
        err_code = err;
        data_in = minus16 (minus16 (if t.file_mod then t.data_in else 0) 5) t.span;
        data_out = t.data_out + 2;
        alp = c;
      })
      else (record t { err_code = err; data_in = minus16 (minus16 t.data_in 5) t.span })

  module _ (g : Guard A) (invoke : ℕ → ℕ → Veelite A → ℕ × Veelite A) (epoch_s : ℕ) where
    -- Stages A and B. The source's `file_mod` is the mode that a user needs in the first turn, and
    -- whether the turn before was a write, 0 or 1, in every later one; it is a Boolean after the
    -- look-up.
    unfoldable pub begin_turn : User → ℕ → Option ℕ → ℕ → ℕ → ℕ → Alp A → Option (Turn A)
    begin_turn user cmd_in fp file_mod data_in data_out a =
        let (file_id, a1) = in_byte a in
        let (offset, a2) = in_short a1 in
        let (span, a3) = in_short a2 in
        let limit = if ltb 65535 (offset + span) then 65535 else offset + span in
        let (err, header, v) =
          vl_getheader_vaddr g null_vaddr (block_of cmd_in) file_id file_mod user a3.files in
        let (new_fp, w) = vl_open_file header v in
        let write = not (bit_and file_mod access_w == 0) in
        let t : Turn A = record {
          overrun = false;
          file_id = file_id;
          span = span;
          file_mod = write;
          err_code = err;
          fp = fp;
          data_in = data_in;
          data_out = data_out;
          alp = record a3 { files = v };
        } in
        if not (err == 0) then some t else (elim new_fp [
          | none ↦ some (record t { err_code = 0xFF; fp = none })
          | some i ↦
              let opened = record t { fp = some i; alp = record a3 { files = w } } in
              file_stage cmd_in header i offset limit opened
        ])

    -- A turn up to the end of `vl_close`, which an overrun calls too.
    abbrev pub close_turn : Turn A → Option (ℕ × Turn A)
    close_turn t = elim (vl_close invoke epoch_s t.fp t.alp.files) [
      | none ↦ none
      | some (r, v) ↦ some (r, record t { alp = record t.alp { files = v } })
    ]

    unfoldable pub end_turn : Bool → ℕ → Turn A → Option (Turn A)
    unfolding vl_close answer_turn
    end_turn respond outq_marker t = elim (close_turn t) [
      | none ↦ none
      | some (r, u) ↦
          let v = answer_turn respond outq_marker r u in
          elim u.overrun [
            | true ↦ some u
            | false ↦ elim v.overrun [
              | false ↦ some v
              | true ↦ elim (close_turn v) [ none ↦ none | some (q, w) ↦ some w ]
            ]
          ]
    ]

    abbrev pub as_mod : Bool → ℕ
    as_mod b = if b then 1 else 0

    abbrev pub then_turn : Option (Turn A) → (Turn A → Option (Turn A)) → Option (Turn A)
    then_turn none f = none
    then_turn (some t) f = f t

    unfoldable pub filedata_loop :
        ℕ → User → Bool → ℕ → ℕ → Option ℕ → ℕ → ℕ → ℕ → Alp A → Option (ℕ × Alp A)
    unfolding begin_turn end_turn
    filedata_loop zero user respond cmd_in marker fp file_mod data_in data_out a = none
    filedata_loop (suc n) user respond cmd_in marker fp file_mod data_in data_out a =
        elim (is_positive16 data_in) [
          | false ↦ some (data_out, a)
          | true ↦
              let turn = begin_turn user cmd_in fp file_mod data_in data_out a in
              elim (then_turn turn (end_turn respond marker)) [
                | none ↦ none
                | some t ↦ elim t.overrun [
                  | true ↦ some (t.data_out, t.alp)
                  | false ↦
                      filedata_loop n user respond cmd_in marker t.fp (as_mod t.file_mod) t.data_in
                        t.data_out t.alp
                ]
              ]
        ]

    unfoldable pub sub_filedata : ℕ → User → Bool → ℕ → ℕ → Alp A → Option (ℕ × Alp A)
    unfolding filedata_loop
    sub_filedata fuel user respond cmd_in data_in a =
        filedata_loop fuel user respond cmd_in a.outq.putcursor none (mod_of cmd_in) data_in 0 a
