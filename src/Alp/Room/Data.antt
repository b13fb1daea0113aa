-- ===== src/Alp/Room/Data.antt =====
-- The room of the output in the stages of a turn of `sub_filedata` of otlib/alp_filedata.c.
use libotfs.Prelude.{
  ℕ, zero, suc, ◌+◌, ◌-◌, ◌%◌, ◌<◌, ◌≡◌, ◌∙◌, inl, inr, refl, sym, ap, Bool, true, false, not,
  Bool-cases, Option, none, some, Option-cases, ltb, leb, ◌==◌, arith, if◌then◌else◌, byte, bit_or,
  bit_and, u16, u16_of,
}
use mathlib.Core.Path.{subst}
use mathlib.Core.Option.{some-injective}
use libotfs.Prelude.Int.{pos, ltb_ℤ}
use libotfs.Queue.{writebyte, writeshort, writeshort_be, readbyte, readshort_be, writespace}
use libotfs.Vworm.{vworm_read}
use libotfs.Veelite.Data.{vl_read, vl_write, with_file}
use libotfs.Alp.State.{Alp, out_byte, out_short_be, out_pair, in_short_be, is_full, minus16}
use libotfs.Alp.Perms.{out_header}
use libotfs.Alp.Room.{
  IsKept, same-IsKept, byte-IsKept, pair-IsKept, header-IsKept, writespace-IsKept,
}
use libotfs.Alp.FileData.{
  Written, Turn, write_loop, read_loop, write_stage, read_stage, file_stage, read_header,
  overhead_of, clip_read, with_written, with_read,
}

module _ {A : Type 0} where
  -- The room of a queue that is not full.
  pub free_room :
      (exact : Bool) (a0 : Alp A) (d size : ℕ) (a : Alp A)
      → IsKept exact a0 d a
      → is_full size a.outq ≡ false
      → a.outq.putcursor + size < a0.outq.back
  free_room exact a0 d size a k e = fits (rw (writespace-IsKept exact a0 d a k) at e)
    where
      fits :
          not (ltb_ℤ (pos size) (pos (a0.outq.back - a.outq.putcursor))) ≡ false
          → a.outq.putcursor + size < a0.outq.back
      fits h = ground (arith, k.within)

  -- A loop that writes to a file puts nothing out.
  write_loop-silent :
      (n fp offset limit span data_in err : ℕ) (a : Alp A) (w : Written A)
      → write_loop n fp offset limit span data_in err a ≡ some w
      → (w.alp.outq ≡ a.outq) × (w.alp.ram ≡ a.ram)
  unfolding write_loop readshort_be readbyte
  write_loop-silent zero fp offset limit span data_in err a w e = absurd (cc)
  write_loop-silent (suc n) fp offset limit span data_in err a w e =
      elim (Bool-cases (ltb offset limit)) [
        | inr done ↦ ended (rw (done, write_loop) at e)
        | inl more ↦ elim (Bool-cases (leb a.inq.back a.inq.getcursor)) [
          | inl over ↦ ended (rw (more, over, write_loop) at e)
          | inr inside ↦
              let a1 = (in_short_be a).1 in
              elim (Option-cases (vl_write fp offset (in_short_be a).0 a1.files)) [
                | inl stuck ↦ absurd (cc (rw (more, inside, stuck, write_loop) at e))
                | inr (r, wr) ↦
                    write_loop-silent n fp (u16 (offset + 2)) limit (minus16 span 2)
                      (minus16 data_in 2) (bit_or err r.0) (record a1 { files = r.1 }) w
                      (rw (more, inside, wr, write_loop) at e)
              ]
        ]
      ]
    where
      ended :
          {o : Bool}
          → some (record { overrun = o; span = span; data_in = data_in; err_code = err; alp = a })
            ≡ some w
          → (w.alp.outq ≡ a.outq) × (w.alp.ram ≡ a.ram)
      ended {o} same =
          let v : Written A = record {
            overrun = o;
            span = span;
            data_in = data_in;
            err_code = err;
            alp = a;
          } in
          let there = some-injective v w same in
          (ap (λ x. x.alp.outq) (sym there), ap (λ x. x.alp.ram) (sym there))

  read_loop-IsKept :
      (exact : Bool) (n fp offset limit span : ℕ) (a0 : Alp A) (d : ℕ) (a : Alp A)
      (r : Bool × ℕ × ℕ × Alp A)
      → IsKept exact a0 d a
      → read_loop n fp offset limit span d a ≡ some r
      → IsKept exact a0 r.2 r.3
  unfolding read_loop writeshort_be
  read_loop-IsKept exact zero fp offset limit span a0 d a r k e = absurd (cc)
  read_loop-IsKept exact (suc n) fp offset limit span a0 d a r k e =
      elim (Bool-cases (ltb offset limit)) [
        | inr done ↦ transport_by k (rw (done, read_loop) at e)
        | inl more ↦ elim (Bool-cases (is_full 2 a.outq)) [
          | inl full ↦ transport_by k (rw (more, full, read_loop) at e)
          | inr free ↦ elim (Option-cases (vl_read fp offset a.files)) [
            | inl stuck ↦ absurd (cc (rw (more, free, stuck, read_loop) at e))
            | inr (w, rd) ↦
                read_loop-IsKept exact n fp (u16 (offset + 2)) limit (minus16 span 2) a0 (d + 2)
                  (out_short_be w a) r
                  (pair-IsKept exact a0 d (byte 0 w) (byte 1 w) a k
                    (omega (arith, free_room exact a0 d 2 a k free)))
                  (rw (more, free, rd, read_loop) at e)
          ]
        ]
      ]
    where
      transport_by :
          {o : Bool} {s : ℕ}
          → IsKept exact a0 d a
          → some (o, s, d, a) ≡ some r
          → IsKept exact a0 r.2 r.3
      transport_by {o} {s} h same =
          subst (λ (x : Bool × ℕ × ℕ × Alp A). IsKept exact a0 x.2 x.3)
            (some-injective (o, s, d, a) r same) h

  -- The stages of a turn: the count and the output of a turn `t`.
  abbrev pub TurnIsKept : Bool → Alp A → Turn A → Type 0
  TurnIsKept exact a0 t = IsKept exact a0 t.data_out t.alp

  pub same_turn :
      (exact : Bool) (a0 : Alp A) (t u : Turn A)
      → TurnIsKept exact a0 t
      → some t ≡ some u
      → TurnIsKept exact a0 u
  same_turn exact a0 t u k e = subst (TurnIsKept exact a0) (some-injective t u e) k

  written_cases :
      (exact : Bool) (a0 : Alp A) (t u : Turn A) (o : Option (Written A))
      → TurnIsKept exact a0 t
      → ((w : Written A) → o ≡ some w → (w.alp.outq ≡ t.alp.outq) × (w.alp.ram ≡ t.alp.ram))
      → with_written t o ≡ some u
      → TurnIsKept exact a0 u
  written_cases exact a0 t u none k silent e = absurd (cc)
  written_cases exact a0 t u (some w) k silent e =
      same_turn exact a0
        (record t {
          overrun = w.overrun;
          span = w.span;
          data_in = w.data_in;
          err_code = w.err_code;
          alp = w.alp;
        })
        u (same-IsKept exact a0 t.data_out t.alp w.alp k (silent w refl).0 (silent w refl).1) e

  write_stage-IsKept :
      (exact insert : Bool) (fp offset limit : ℕ) (a0 : Alp A) (t u : Turn A)
      → TurnIsKept exact a0 t
      → write_stage insert fp offset limit t ≡ some u
      → TurnIsKept exact a0 u
  unfolding write_stage
  write_stage-IsKept exact insert fp offset limit a0 t u k e =
      elim (Bool-cases (leb (t.alp.files.vlfile fp).alloc offset)) [
        | inl over ↦
            same_turn exact a0 (record t { err_code = 0x07 }) u k (rw (over, write_stage) at e)
        | inr fits ↦
            let f = t.alp.files.vlfile fp in
            let cut = ltb f.alloc limit in
            let a = record t.alp {
              files =
                  with_file t.alp.files fp (record f { length = if insert then f.length else 0 });
            } in
            let end = if cut then f.alloc else limit in
            let err = if cut then 0x08 else 0 in
            let n = suc (a.inq.back - a.inq.getcursor) in
            written_cases exact a0 t u (write_loop n fp offset end t.span t.data_in err a) k
              (λ w. write_loop-silent n fp offset end t.span t.data_in err a w)
              (rw (fits, write_stage) at e)
      ]

  read_cases :
      (exact : Bool) (a0 : Alp A) (t u : Turn A) (o : Option (Bool × ℕ × ℕ × Alp A))
      → ((r : Bool × ℕ × ℕ × Alp A) → o ≡ some r → IsKept exact a0 r.2 r.3)
      → with_read t o ≡ some u
      → TurnIsKept exact a0 u
  read_cases exact a0 t u none kept e = absurd (cc)
  read_cases exact a0 t u (some (o, s, d, a)) kept e =
      same_turn exact a0 (record t { overrun = o; span = s; data_out = d; alp = a }) u
        (kept (o, s, d, a) refl) e

  read_header-IsKept :
      (exact inc : Bool) (header offset span : ℕ) (a0 : Alp A) (d : ℕ) (a : Alp A)
      → IsKept exact a0 d a
      → a.outq.putcursor + overhead_of inc < a0.outq.back
      → IsKept exact a0 (d + overhead_of inc) (read_header inc header offset span a)
  unfolding read_header writeshort writebyte writeshort_be
  read_header-IsKept exact true header offset span a0 d a k lt =
      let a1 = out_header header a in
      let k1 = header-IsKept exact a0 d header a k (omega arith) in
      let k2 = pair-IsKept exact a0 (d + 6) (byte 1 offset) (byte 0 offset) a1 k1 (omega arith) in
      sum d (
        pair-IsKept exact a0 (d + 6 + 2) (byte 1 span) (byte 0 span)
          (out_pair (byte 1 offset) (byte 0 offset) a1) k2 (omega arith))
    where
      sum :
          (n : ℕ)
          → IsKept exact a0 (n + 6 + 2 + 2) (read_header true header offset span a)
          → IsKept exact a0 (n + 10) (read_header true header offset span a)
      sum n h =
          subst (λ j. IsKept exact a0 j (read_header true header offset span a)) (omega arith) h
  read_header-IsKept exact false header offset span a0 d a k lt =
      let w = byte 0 (vworm_read (header + 4) a.files.fsram) in
      let k1 = byte-IsKept exact a0 d w a k (omega arith) in
      let a1 = out_byte w a in
      let k2 = pair-IsKept exact a0 (d + 1) (byte 1 offset) (byte 0 offset) a1 k1 (omega arith) in
      sum d (
        pair-IsKept exact a0 (d + 1 + 2) (byte 1 span) (byte 0 span)
          (out_pair (byte 1 offset) (byte 0 offset) a1) k2 (omega arith))
    where
      sum :
          (n : ℕ)
          → IsKept exact a0 (n + 1 + 2 + 2) (read_header false header offset span a)
          → IsKept exact a0 (n + 5) (read_header false header offset span a)
      sum n h =
          subst (λ j. IsKept exact a0 j (read_header false header offset span a)) (omega arith) h

  read_stage-IsKept :
      (exact inc : Bool) (header fp offset limit : ℕ) (a0 : Alp A) (t u : Turn A)
      → TurnIsKept exact a0 t
      → read_stage inc header fp offset limit t ≡ some u
      → TurnIsKept exact a0 u
  unfolding read_stage
  read_stage-IsKept exact inc header fp offset limit a0 t u k e =
      elim (Bool-cases (is_full (overhead_of inc) t.alp.outq)) [
        | inl full ↦
            same_turn exact a0 (record t { overrun = true }) u k (rw (full, read_stage) at e)
        | inr free ↦
            let c = clip_read (t.alp.files.vlfile fp).length offset t.span limit in
            let a = read_header inc header offset c.0 t.alp in
            let n = suc (u16_of (writespace a.outq)) in
            let d = t.data_out + overhead_of inc in
            read_cases exact a0 t u (read_loop n fp offset c.1 c.0 d a)
              (λ r. read_loop-IsKept exact n fp offset c.1 c.0 a0 d a r (
                read_header-IsKept exact inc header offset c.0 a0 t.data_out t.alp k
                  (free_room exact a0 t.data_out (overhead_of inc) t.alp k free)))
              (rw (free, read_stage) at e)
      ]

  pub file_stage-IsKept :
      (exact : Bool) (cmd_in header fp offset limit : ℕ) (a0 : Alp A) (t u : Turn A)
      → TurnIsKept exact a0 t
      → file_stage cmd_in header fp offset limit t ≡ some u
      → TurnIsKept exact a0 u
  unfolding file_stage
  file_stage-IsKept exact cmd_in header fp offset limit a0 t u k e = elim (Bool-cases t.file_mod) [
    | inl writes ↦
        write_stage-IsKept exact (not (bit_and cmd_in 0x01 == 0)) fp offset limit a0 t u k
          (chosen true writes)
    | inr reads ↦
        read_stage-IsKept exact (cmd_in % 16 == 0x0C) header fp offset limit a0 t u k
          (chosen false reads)
  ]
    where
      chosen :
          (b : Bool)
          → t.file_mod ≡ b
          → (if b
              then write_stage (not (bit_and cmd_in 0x01 == 0)) fp offset limit t
              else read_stage (cmd_in % 16 == 0x0C) header fp offset limit t)
            ≡ some u
      chosen b h =
          ap
            (λ c.
              if c
              then write_stage (not (bit_and cmd_in 0x01 == 0)) fp offset limit t
              else read_stage (cmd_in % 16 == 0x0C) header fp offset limit t)
            (sym h)
          ∙ e
