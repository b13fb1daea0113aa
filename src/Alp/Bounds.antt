-- ===== src/Alp/Bounds.antt =====
-- otlib/alp_filedata.c: no command of the file protocol puts anything out past its queue.
use libotfs.Prelude.{
  ℕ, ◌+◌, ◌-◌, ◌%◌, ◌^◌, ◌≤◌, ◌<◌, ◌≡◌, ◌⊎◌, inl, inr, refl, sym, ap, Bool, true, false, not,
  Bool-cases, Option, none, some, ◌==◌, arith, bit_and, u8,
}
use mathlib.Core.Path.{subst}
use mathlib.Core.Option.{some-injective}
use libotfs.Auth.{User}
use libotfs.Veelite.{Veelite, Guard}
use libotfs.Alp.State.{Alp, inrec_cmd, inrec_plen}
use libotfs.Alp.Perms.{
  sub_return, sub_fileperms, sub_fileheaders, sub_filedelete, sub_filecreate, sub_filerestore,
  mod_of, block_of,
}
use libotfs.Alp.Files.{
  FileCommand, perms, returns, filedata, headers, deletes, creates, restores, cmd_fn, set_answer,
  then_answer, run_command, alp_proc_filedata,
}
use libotfs.Alp.Room.{IsKept, start-IsKept}
use libotfs.Alp.Room.Loops.{
  perms_loop-IsKept, headers_loop-IsKept, delete_loop-IsKept, create_loop-IsKept,
  restore_loop-IsKept,
}
use libotfs.Alp.Room.Turn.{sub_filedata-IsKept}

module _ {A : Type 0} (g : Guard A) (invoke : ℕ → ℕ → Veelite A → ℕ × Veelite A)
    (epoch_s fuel : ℕ) where
  result :
      (exact : Bool) (a : Alp A) (x r : ℕ × Alp A)
      → IsKept exact a x.0 x.1
      → some x ≡ some r
      → IsKept exact a r.0 r.1
  result exact a x r k e =
      subst (λ (y : ℕ × Alp A). IsKept exact a y.0 y.1) (some-injective x r e) k

  headers-IsKept :
      (respond exact : Bool) (cmd_in data_in : ℕ) (a : Alp A)
      → IsKept exact a 0 a
      → let r = sub_fileheaders g respond cmd_in data_in a in IsKept exact a r.0 r.1
  unfolding sub_fileheaders
  headers-IsKept false exact cmd_in data_in a k = k
  headers-IsKept true exact cmd_in data_in a k =
      headers_loop-IsKept g exact (block_of cmd_in) data_in a 0 a k

  run_command-IsKept :
      (c : FileCommand) (user : User) (respond : Bool) (cmd_in data_in : ℕ) (a : Alp A)
      (r : ℕ × Alp A)
      → IsKept (not respond) a 0 a
      → run_command g invoke epoch_s fuel c user respond cmd_in data_in a ≡ some r
      → IsKept (not respond) a r.0 r.1
  unfolding run_command sub_return sub_filedelete sub_filecreate sub_filerestore sub_fileperms
  run_command-IsKept perms user respond cmd_in data_in a r k e =
      result (not respond) a (sub_fileperms g user respond cmd_in data_in a) r
        (perms_loop-IsKept g (not respond) respond data_in (block_of cmd_in) user (mod_of cmd_in)
          data_in a 0 a k)
        e
  run_command-IsKept returns user respond cmd_in data_in a r k e =
      result (not respond) a (sub_return a) r k e
  run_command-IsKept filedata user respond cmd_in data_in a r k e =
      sub_filedata-IsKept g invoke epoch_s fuel user respond cmd_in data_in a r k e
  run_command-IsKept headers user respond cmd_in data_in a r k e =
      result (not respond) a (sub_fileheaders g respond cmd_in data_in a) r
        (headers-IsKept respond (not respond) cmd_in data_in a k) e
  run_command-IsKept deletes user respond cmd_in data_in a r k e =
      result (not respond) a (sub_filedelete respond data_in a) r
        (delete_loop-IsKept (not respond) respond data_in a 0 a k) e
  run_command-IsKept creates user respond cmd_in data_in a r k e =
      result (not respond) a (sub_filecreate respond data_in a) r
        (create_loop-IsKept (not respond) respond data_in data_in a 0 a k) e
  run_command-IsKept restores user respond cmd_in data_in a r k e =
      result (not respond) a (sub_filerestore respond data_in a) r
        (restore_loop-IsKept (not respond) respond data_in a 0 a k) e

  -- What a command leaves, once its answer is set or taken back.
  Bounded : Bool → Alp A → Alp A → Type 0
  Bounded respond a b =
      (b.outq.back ≡ a.outq.back)
      × (b.outq.putcursor ≤ a.outq.back)
      × (respond ≡ false
          → a.outq.back - a.outq.putcursor < 256
          → b.outq.putcursor ≡ a.outq.putcursor)
      × ((x : ℕ) → (x < a.outq.putcursor) ⊎ (a.outq.back ≤ x) → b.ram x ≡ a.ram x)

  answer-Bounded :
      (cmd_in : ℕ) (a : Alp A) (r : ℕ × Alp A)
      → IsKept (not (not (bit_and cmd_in 0x80 == 0))) a r.0 r.1
      → Bounded (not (bit_and cmd_in 0x80 == 0)) a (set_answer cmd_in r)
  unfolding Bounded set_answer
  answer-Bounded cmd_in a r k = elim (Bool-cases (bit_and cmd_in 0x80 == 0)) [
    | inl silent ↦
        rw (silent, set_answer)
          (
            k.same_back,
            omega (arith, k.within),
            λ e small. taken_back (k.counted (rw silent refl)) small,
            k.outside,
          )
    | inr loud ↦ rw (loud, set_answer) (k.same_back, k.within, λ e. absurd (cc), k.outside)
  ]
    where
      taken_back :
          (r.1.outq.putcursor ≡ a.outq.putcursor + r.0)
          → a.outq.back - a.outq.putcursor < 256
          → r.1.outq.putcursor - u8 r.0 ≡ a.outq.putcursor
      taken_back c small = omega (arith, c, small, k.within)

  answered_cases :
      (cmd_in : ℕ) (o : Option (ℕ × Alp A)) (r : Bool × Alp A)
      → (elim (then_answer cmd_in o) as (λ x. Option (Bool × Alp A)) [
        | none ↦ none
        | some b ↦ some (true, b)
      ])
        ≡ some r
      → (q : ℕ × Alp A) × (o ≡ some q) × (r.1 ≡ set_answer cmd_in q)
  answered_cases cmd_in none r e = absurd (cc)
  answered_cases cmd_in (some q) r e =
      (q, refl, sym (ap (λ x. x.1) (some-injective (true, set_answer cmd_in q) r e)))

  -- Whatever the record says, and whoever sends it: a command of the file protocol that returns has
  -- put out nothing past the end of the output queue and has changed no octet outside its free
  -- room. A command without a response gives that room back, if it is less than 256 octets.
  pub alp_proc_filedata-outq :
      (user : User) (a : Alp A) (r : Bool × Alp A)
      → a.outq.putcursor ≤ a.outq.back
      → a.outq.back - a.outq.putcursor < 2 ^ 15
      → alp_proc_filedata g invoke epoch_s fuel user a ≡ some r
      → let b = r.1 in
        (b.outq.back ≡ a.outq.back)
        × (b.outq.putcursor ≤ a.outq.back)
        × ((not (bit_and (inrec_cmd a) 0x80 == 0)) ≡ false
            → a.outq.back - a.outq.putcursor < 256
            → b.outq.putcursor ≡ a.outq.putcursor)
        × ((x : ℕ) → (x < a.outq.putcursor) ⊎ (a.outq.back ≤ x) → b.ram x ≡ a.ram x)
  unfolding alp_proc_filedata Bounded
  alp_proc_filedata-outq user a r le small e =
      let cmd_in = inrec_cmd a in
      let respond = not (bit_and cmd_in 0x80 == 0) in
      let o =
        run_command g invoke epoch_s fuel (cmd_fn (cmd_in % 16)) user respond cmd_in (inrec_plen a)
          a in
      let c = answered_cases cmd_in o r e in
      let k =
        run_command-IsKept (cmd_fn (cmd_in % 16)) user respond cmd_in (inrec_plen a) a c.0
          (start-IsKept (not respond) a le small) c.1 in
      subst (Bounded respond a) (sym c.2) (answer-Bounded cmd_in a c.0 k)
