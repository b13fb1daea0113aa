-- ===== src/Alp/Room/Turn.antt =====
-- The room of the output in a whole turn of `sub_filedata` of otlib/alp_filedata.c, and in its loop.
use libotfs.Prelude.{
  ℕ, zero, suc, ◌+◌, ◌<◌, ◌≡◌, inl, inr, refl, Bool, true, false, ◌&&◌, ◌||◌, not, Bool-cases,
  Option, none, some, Option-cases, ltb, ◌==◌, arith, if◌then◌else◌, bit_or, bit_and, signed16,
}
use mathlib.Core.Path.{subst}
use mathlib.Core.Option.{some-injective}
use libotfs.Auth.{User}
use libotfs.Queue.{readbyte, readshort, markbyte}
use libotfs.Veelite.{Veelite, Guard, vl_getheader_vaddr, vl_open_file, null_vaddr}
use libotfs.Veelite.Data.{vl_close}
use libotfs.Alp.State.{Alp, out_pair, in_byte, in_short, is_full, is_positive16, access_w}
use libotfs.Alp.Perms.{block_of, mod_of}
use libotfs.Alp.Room.{IsKept, same-IsKept, pair-IsKept}
use libotfs.Alp.FileData.{
  Turn, begin_turn, answer_turn, close_turn, then_turn, as_mod, end_turn, filedata_loop,
  sub_filedata,
}
use libotfs.Alp.Room.Data.{TurnIsKept, free_room, same_turn, file_stage-IsKept}

module _ {A : Type 0} where
  answer_turn-IsKept :
      (respond : Bool) (app_err : ℕ) (a0 : Alp A) (t : Turn A)
      → TurnIsKept (not respond) a0 t
      → TurnIsKept (not respond) a0 (answer_turn respond a0.outq.putcursor app_err t)
  unfolding answer_turn markbyte
  answer_turn-IsKept false app_err a0 t k = k
  answer_turn-IsKept true app_err a0 t k =
      let err = if not (app_err == 0) && t.err_code == 0 then 0x09 else t.err_code in
      elim (Bool-cases (is_full 2 t.alp.outq)) [
        | inl full ↦ rw (answer_turn, full) k
        | inr free ↦ elim (Bool-cases (t.file_mod || not (err == 0))) [
          | inr quiet ↦ rw (answer_turn, free, quiet) k
          | inl loud ↦
              rw (answer_turn, free, loud)
                (answered err (free_room false a0 t.data_out 2 t.alp k free))
        ]
      ]
    where
      back : Alp A
      back = record t.alp {
        outq = record t.alp.outq { putcursor = a0.outq.putcursor };
        outrec = record t.alp.outrec { cmd = bit_or t.alp.outrec.cmd 0x0F };
      }

      -- The error of a read takes the place of the output.
      back-IsKept : IsKept false a0 t.data_out back
      back-IsKept = record {
        same_back = k.same_back;
        later = omega arith;
        within = omega (arith, k.later, k.within);
        small = k.small;
        counted = λ e. absurd (cc);
        outside = k.outside;
      }

      marked : ℕ → Alp A → Alp A
      marked err a =
          let b = out_pair t.file_id err a in
          record b { inq = (markbyte b.inq (signed16 t.span)).1 }

      answered :
          (err : ℕ)
          → t.alp.outq.putcursor + 2 < a0.outq.back
          → IsKept false a0 (t.data_out + 2) (marked err (if t.file_mod then t.alp else back))
      answered err lt = elim (Bool-cases t.file_mod) [
        | inl writes ↦ rw writes (marked-IsKept err t.alp k (omega arith))
        | inr reads ↦ rw reads (marked-IsKept err back back-IsKept (omega (arith, k.later)))
      ]
        where
          marked-IsKept :
              (e : ℕ) (a : Alp A)
              → IsKept false a0 t.data_out a
              → a.outq.putcursor + 1 < a0.outq.back
              → IsKept false a0 (t.data_out + 2) (marked e a)
          marked-IsKept e a h le =
              same-IsKept false a0 (t.data_out + 2) (out_pair t.file_id e a) (marked e a)
                (pair-IsKept false a0 t.data_out t.file_id e a h le) refl refl

  module _ (g : Guard A) (invoke : ℕ → ℕ → Veelite A → ℕ × Veelite A) (epoch_s : ℕ) where
    -- The input behind the ID, the offset and the span of a turn.
    abbrev entered : Alp A → Alp A
    entered a = (in_short (in_short (in_byte a).1).1).1

    entered-IsKept :
        (exact : Bool) (a0 : Alp A) (d : ℕ) (a : Alp A) (v : Veelite A)
        → IsKept exact a0 d a
        → IsKept exact a0 d (record (entered a) { files = v })
    unfolding readbyte readshort
    entered-IsKept exact a0 d a v k =
        same-IsKept exact a0 d a (record (entered a) { files = v }) k refl refl

    begin_turn-IsKept :
        (exact : Bool) (user : User) (cmd_in : ℕ) (fp : Option ℕ) (file_mod data_in : ℕ)
        (a0 : Alp A) (d : ℕ) (a : Alp A) (u : Turn A)
        → IsKept exact a0 d a
        → begin_turn g invoke epoch_s user cmd_in fp file_mod data_in d a ≡ some u
        → TurnIsKept exact a0 u
    unfolding begin_turn
    begin_turn-IsKept exact user cmd_in fp file_mod data_in a0 d a u k e =
        let file_id = (in_byte a).0 in
        let offset = (in_short (in_byte a).1).0 in
        let span = (in_short (in_short (in_byte a).1).1).0 in
        let limit = if ltb 65535 (offset + span) then 65535 else offset + span in
        let h =
          vl_getheader_vaddr g null_vaddr (block_of cmd_in) file_id file_mod user
            (entered a).files in
        let o = vl_open_file h.1 h.2 in
        let write = not (bit_and file_mod access_w == 0) in
        let t : Turn A = record {
          overrun = false;
          file_id = file_id;
          span = span;
          file_mod = write;
          err_code = h.0;
          fp = fp;
          data_in = data_in;
          data_out = d;
          alp = record (entered a) { files = h.2 };
        } in
        elim (Bool-cases (h.0 == 0)) [
          | inr err ↦
              same_turn exact a0 t u (entered-IsKept exact a0 d a h.2 k) (rw (err, begin_turn) at e)
          | inl ok ↦ elim (Option-cases o.0) [
            | inl full ↦
                same_turn exact a0 (record t { err_code = 0xFF; fp = none }) u
                  (entered-IsKept exact a0 d a h.2 k) (rw (ok, full, begin_turn) at e)
            | inr (i, there) ↦
                let opened = record t { fp = some i; alp = record (entered a) { files = o.1 } } in
                file_stage-IsKept exact cmd_in h.1 i offset limit a0 opened u
                  (entered-IsKept exact a0 d a o.1 k) (rw (ok, there, begin_turn) at e)
          ]
        ]

    closed_cases :
        (exact : Bool) (a0 : Alp A) (t : Turn A) (r : ℕ × Turn A)
        → TurnIsKept exact a0 t
        → close_turn g invoke epoch_s t ≡ some r
        → TurnIsKept exact a0 r.1
    closed_cases exact a0 t r k e = elim (Option-cases (vl_close invoke epoch_s t.fp t.alp.files)) [
      | inl stuck ↦ absurd (cc (rw (stuck, close_turn) at e))
      | inr (c, cl) ↦
          let u = record t { alp = record t.alp { files = c.1 } } in
          subst (λ x. TurnIsKept exact a0 x.1)
            (some-injective (c.0, u) r (rw (cl, close_turn) at e))
            (same-IsKept exact a0 t.data_out t.alp u.alp k refl refl)
    ]

    end_turn-IsKept :
        (respond : Bool) (a0 : Alp A) (t u : Turn A)
        → TurnIsKept (not respond) a0 t
        → end_turn g invoke epoch_s respond a0.outq.putcursor t ≡ some u
        → TurnIsKept (not respond) a0 u
    unfolding end_turn
    end_turn-IsKept respond a0 t u k e = elim (Option-cases (close_turn g invoke epoch_s t)) [
      | inl stuck ↦ absurd (cc (rw (stuck, end_turn) at e))
      | inr (r, cl) ↦
          let k1 = closed_cases (not respond) a0 t r k cl in
          let v = answer_turn respond a0.outq.putcursor r.0 r.1 in
          let k2 = answer_turn-IsKept respond r.0 a0 r.1 k1 in
          elim (Bool-cases r.1.overrun) [
            | inl over ↦ same_turn (not respond) a0 r.1 u k1 (rw (cl, over, end_turn) at e)
            | inr on ↦ elim (Bool-cases v.overrun) [
              | inr next ↦ same_turn (not respond) a0 v u k2 (rw (cl, on, next, end_turn) at e)
              | inl over ↦ elim (Option-cases (close_turn g invoke epoch_s v)) [
                | inl stuck ↦ absurd (cc (rw (cl, on, over, stuck, end_turn) at e))
                | inr (q, cl2) ↦
                    same_turn (not respond) a0 q.1 u (closed_cases (not respond) a0 v q k2 cl2)
                      (rw (cl, on, over, cl2, end_turn) at e)
              ]
            ]
          ]
    ]

    turn_cases :
        (o : Option (Turn A)) (f : Turn A → Option (Turn A)) (u : Turn A)
        → then_turn g invoke epoch_s o f ≡ some u
        → (t : Turn A) × (o ≡ some t) × (f t ≡ some u)
    turn_cases none f u e = absurd (cc)
    turn_cases (some t) f u e = (t, refl, e)

    filedata_loop-IsKept :
        (n : ℕ) (user : User) (respond : Bool) (cmd_in : ℕ) (fp : Option ℕ) (file_mod data_in : ℕ)
        (a0 : Alp A) (d : ℕ) (a : Alp A) (r : ℕ × Alp A)
        → IsKept (not respond) a0 d a
        → filedata_loop g invoke epoch_s n user respond cmd_in a0.outq.putcursor fp file_mod data_in
            d a
          ≡ some r
        → IsKept (not respond) a0 r.0 r.1
    unfolding filedata_loop
    filedata_loop-IsKept zero user respond cmd_in fp file_mod data_in a0 d a r k e = absurd (cc)
    filedata_loop-IsKept (suc n) user respond cmd_in fp file_mod data_in a0 d a r k e =
        elim (Bool-cases (is_positive16 data_in)) [
          | inr done ↦ result d a k (rw (done, filedata_loop) at e)
          | inl more ↦
              let turn = begin_turn g invoke epoch_s user cmd_in fp file_mod data_in d a in
              let end = end_turn g invoke epoch_s respond a0.outq.putcursor in
              elim (Option-cases (then_turn g invoke epoch_s turn end)) [
                | inl stuck ↦ absurd (cc (rw (more, stuck, filedata_loop) at e))
                | inr (t, there) ↦
                    let c = turn_cases turn end t there in
                    let k1 =
                      end_turn-IsKept respond a0 c.0 t
                        (begin_turn-IsKept (not respond) user cmd_in fp file_mod data_in a0 d a c.0
                          k c.1)
                        c.2 in
                    elim (Bool-cases t.overrun) [
                      | inl over ↦
                          result t.data_out t.alp k1 (rw (more, there, over, filedata_loop) at e)
                      | inr on ↦
                          filedata_loop-IsKept n user respond cmd_in t.fp
                            (as_mod g invoke epoch_s t.file_mod) t.data_in a0 t.data_out t.alp r k1
                            (rw (more, there, on, filedata_loop) at e)
                    ]
              ]
        ]
      where
        result :
            (c : ℕ) (b : Alp A)
            → IsKept (not respond) a0 c b
            → some (c, b) ≡ some r
            → IsKept (not respond) a0 r.0 r.1
        result c b h same =
            subst (λ (x : ℕ × Alp A). IsKept (not respond) a0 x.0 x.1)
              (some-injective (c, b) r same) h

    pub sub_filedata-IsKept :
        (fuel : ℕ) (user : User) (respond : Bool) (cmd_in data_in : ℕ) (a : Alp A) (r : ℕ × Alp A)
        → IsKept (not respond) a 0 a
        → sub_filedata g invoke epoch_s fuel user respond cmd_in data_in a ≡ some r
        → IsKept (not respond) a r.0 r.1
    unfolding sub_filedata
    sub_filedata-IsKept fuel user respond cmd_in data_in a r k e =
        filedata_loop-IsKept fuel user respond cmd_in none (mod_of cmd_in) data_in a 0 a r k e
