-- ===== src/Alp/Main.antt =====
-- otlib/alp_main.c: the table of processors, the treatment of one record, and the headers of records.
use libotfs.Prelude.{
  [], ◌∷◌, get_or, ℕ, ◌+◌, ◌-◌, Bool, true, ◌||◌, Option, none, some, List, bit_and, bit_or, u8,
  u16_of, leb, ◌==◌, if◌then◌else◌,
}
use libotfs.Prelude.Int.{ℤ, pos, ltb_ℤ}
use libotfs.Auth.{User}
use libotfs.Queue.{
  Queue, lock, unlock, readspace, writespace, getcursor_val, writebyte, writelong_be,
}
use libotfs.Veelite.{Veelite, Guard}
use libotfs.Alp.State.{
  Alp, flag_mb, flag_me, flag_cf, flag_sr, clear, set_flags, set_plength, inrec_id, inrec_flags,
  out_byte,
}
use libotfs.Alp.Files.{alp_proc_filedata}
use libotfs.Alp.Sensor.{alp_proc_sensor, alp_proc_logger}

unfoldable pub sub_get_headerlen : ℕ → ℕ
sub_get_headerlen tnf = 4

-- ALP_status, less the two values that no code returns.
pub data AlpStatus : Type 0 where
  msg_null msg_end : AlpStatus

-- The callbacks of `alp_table`; all its queues are `NULL`. The functions 3 and 5 are off.
pub data AlpElem : Type 0 where
  proc_null proc_filedata proc_sensor proc_logger : AlpElem

unfoldable pub alp_table : ℕ → AlpElem
alp_table i =
    get_or (proc_filedata ∷ proc_sensor ∷ proc_null ∷ proc_logger ∷ proc_null ∷ []) i proc_null

unfoldable pub sub_get_elem : ℕ → AlpElem
unfolding alp_table
sub_get_elem alp_id =
    if alp_id == 0
    then proc_null
    else if leb 5 (alp_id - 1)
    then proc_null
    else alp_table (alp_id - 1)

-- `alp_init`: the rest of `*alp` is as it was.
unfoldable pub alp_init : {A : Type 0} → Alp A → Queue → Queue → Alp A
alp_init alp inq outq = record alp {
  purge_id = 1;
  outrec = record alp.outrec { flags = 0xD0 };
  inq = inq;
  outq = outq;
}

abbrev moved_to : Option ℕ → Queue → Queue
moved_to none q = q
moved_to (some p) q = record q { putcursor = p }

-- The argument of `q_writelong_be` is the octet of the flags; a header position of `NULL` is `none`.
unfoldable pub sub_insert_header : {A : Type 0} → Option ℕ → ℕ → Alp A → Alp A
unfolding writelong_be
sub_insert_header hdr_position hdr_len a =
    let savedput = a.outq.putcursor + hdr_len in
    let at = moved_to hdr_position a.outq in
    let r = a.outrec in
    let (q, m) = writelong_be (at, a.ram) r.flags in
    set_flags (clear flag_mb r.flags)
      (record a { outq = record q { putcursor = savedput }; ram = m })

unfoldable pub alp_new_record : {A : Type 0} → ℕ → ℕ → ℤ → Alp A → Alp A
unfolding sub_insert_header sub_get_headerlen
alp_new_record flags payload_limit payload_remaining a =
    let kept = bit_and (bit_or (bit_or a.outrec.flags flags) flag_sr) (flag_mb + flag_sr) in
    let cut = ltb_ℤ (pos payload_limit) payload_remaining in
    sub_insert_header none (sub_get_headerlen kept) (record a {
      outrec = record a.outrec {
        flags = if cut then kept else bit_or kept flag_me;
        plength = if cut then u8 payload_limit else u8 (u16_of payload_remaining);
      };
    })

module _ {A : Type 0} where
  abbrev pub proc_end : Option (Bool × Alp A) → Option (Bool × Alp A)
  proc_end none = none
  proc_end (some (r, a)) = some (r, set_flags (bit_or a.outrec.flags flag_me) a)

  -- The record that the answer starts from: a new message takes over the input's header.
  unfoldable pub load_outrec : Alp A → Alp A
  unfolding getcursor_val
  load_outrec a = if bit_and a.outrec.flags flag_me == 0 then a else (record a {
    outrec = record {
      flags = getcursor_val a.inq a.ram (pos 0);
      plength = 0;
      id = getcursor_val a.inq a.ram (pos 2);
      cmd = getcursor_val a.inq a.ram (pos 3);
    };
  })

  -- The cursors behind both headers.
  unfoldable pub enter_record : Alp A → Alp A
  unfolding load_outrec
  enter_record a =
      let b = load_outrec a in
      record b {
        inq = record b.inq { getcursor = b.inq.getcursor + 4 };
        outq = record b.outq { putcursor = b.outq.putcursor + 4 };
      }

  -- The header of the answer, or no answer.
  unfoldable pub close_record : ℕ → Alp A → Alp A
  unfolding writebyte
  close_record hdr_position a =
      let r = a.outrec in
      let b = record a { outq = record a.outq { putcursor = hdr_position } } in
      let c = out_byte r.cmd (out_byte r.id (out_byte r.plength (out_byte r.flags b))) in
      if r.plength == 0
      then set_flags (clear flag_cf r.flags) b
      else set_flags (clear flag_mb r.flags)
          (record c { outq = record c.outq { putcursor = a.outq.putcursor } })

  abbrev pub parse_end : ℕ → ℕ → Option (Bool × Alp A) → Option (AlpStatus × Alp A)
  parse_end input_position hdr_position none = none
  parse_end input_position hdr_position (some (r, a)) =
      let b = close_record hdr_position a in
      some (
        msg_end,
        record b {
          inq = unlock (record b.inq { putcursor = input_position; getcursor = input_position });
          outq = unlock b.outq;
        },
      )

module _ {A : Type 0} (g : Guard A) (isroot : User → A → Bool × A)
    (invoke : ℕ → ℕ → Veelite A → ℕ × Veelite A) (epoch_s beside fuel : ℕ) where
  unfoldable pub callback : AlpElem → User → Alp A → Option (Bool × Alp A)
  unfolding alp_proc_filedata alp_proc_sensor alp_proc_logger
  callback proc_null user a = some (true, a)
  callback proc_filedata user a = alp_proc_filedata g invoke epoch_s fuel user a
  callback proc_sensor user a = alp_proc_sensor g invoke epoch_s beside a
  callback proc_logger user a = alp_proc_logger isroot user a

  unfoldable pub alp_proc : User → Alp A → Option (Bool × Alp A)
  unfolding callback inrec_flags inrec_id
  alp_proc user alp =
      let a = set_plength 0 alp in
      proc_end (
        if bit_and (inrec_flags a) flag_me == 0
        then some (true, a)
        else callback (sub_get_elem (inrec_id a)) user a)

  -- The two queues as `q_lock` leaves them, where it returns.
  unfoldable pub alp_parse_locked : User → Alp A → Option (AlpStatus × Alp A)
  unfolding enter_record alp_proc close_record readspace writespace
  alp_parse_locked user a =
      if ltb_ℤ (readspace a.inq) (pos 4) || ltb_ℤ (writespace a.outq) (pos 4)
      then some (msg_null, a)
      else parse_end a.inq.getcursor a.outq.putcursor (alp_proc user (enter_record a))

  -- What other threads leave in the options words while the call waits for them is `in_polls` and
  -- `out_polls`.
  unfoldable pub alp_parse_message : List ℕ → List ℕ → User → Alp A → Option (AlpStatus × Alp A)
  unfolding alp_parse_locked
  alp_parse_message in_polls out_polls user a = elim (lock a.inq in_polls) [
    | none ↦ none
    | some inq ↦ elim (lock a.outq out_polls) [
      | none ↦ none
      | some outq ↦ alp_parse_locked user (record a { inq = inq; outq = outq })
    ]
  ]
