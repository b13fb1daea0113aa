-- ===== src/Alp/Turns.antt =====
-- otlib/alp_filedata.c: the loops over several files of one command. A loop over permissions ends
-- after at most `data_in` turns; what the turns after the first one do is not what they do in the
-- first.
use libotfs.Prelude.{
  ℕ, zero, suc, ◌+◌, ◌-◌, ◌≤◌, ◌<◌, ◌≡◌, ◌≢◌, ◌∙◌, ◌⊎◌, inl, inr, refl, sym, Bool, true, false,
  Bool-cases, ltb, ◌==◌, arith, bit_and,
}
use libotfs.Auth.{User}
use libotfs.Prelude.Int.{pos, ltb_ℤ}
use libotfs.Queue.{readbyte, writespace}
use libotfs.Veelite.{Guard, vl_chmod, null_vaddr, vl_access_rw}
use libotfs.Veelite.Open.{vl_getheader_vaddr_lem}
use libotfs.Alp.State.{Alp, in_byte, sub_qnotfull, access_w}
use libotfs.Alp.Perms.{perms_loop, sub_fileperms, read_mod, write_mod, answer, block_of, mod_of}

module _ {A : Type 0} (g : Guard A) where
  done_loop :
      (n block : ℕ) (user : User) (respond : Bool) (file_mod : ℕ) (r : ℕ × Alp A)
      → perms_loop g n block user respond file_mod 0 r ≡ r
  unfolding perms_loop
  done_loop zero block user respond file_mod r = refl
  done_loop (suc n) block user respond file_mod r = refl

  -- More turns than the octets that are left change nothing.
  more_turns :
      (n m block : ℕ) (user : User) (respond : Bool) (file_mod data_in : ℕ) (r : ℕ × Alp A)
      → data_in ≤ n
      → data_in ≤ m
      → perms_loop g n block user respond file_mod data_in r
        ≡ perms_loop g m block user respond file_mod data_in r
  unfolding perms_loop
  more_turns zero m block user respond file_mod zero r le lm =
      done_loop zero block user respond file_mod r ∙ sym (done_loop m block user respond file_mod r)
  more_turns zero m block user respond file_mod (suc data_in) r le lm = absurd (omega arith)
  more_turns (suc n) zero block user respond file_mod zero r le lm = refl
  more_turns (suc n) zero block user respond file_mod (suc data_in) r le lm = absurd (omega arith)
  more_turns (suc n) (suc m) block user respond file_mod data_in (d, a) le lm =
      elim (Bool-cases (ltb 0 data_in)) [
        | inr done ↦ rw (perms_loop, done) refl
        | inl more ↦ elim (Bool-cases (sub_qnotfull respond 2 a.outq)) [
          | inr full ↦ rw (perms_loop, more, full) refl
          | inl free ↦
              let id = (in_byte a).0 in
              let a1 = (in_byte a).1 in
              elim (Bool-cases (file_mod == access_w)) [
                | inl writes ↦
                    let w = write_mod g block id user a1 in
                    rw (perms_loop, more, free, writes)
                      (more_turns n m block user respond w.0 (data_in - 1 - 1)
                        (answer respond id w.0 (d, w.1)) (omega arith) (omega arith))
                | inr reads ↦
                    let w = read_mod g block id file_mod respond a1 in
                    rw (perms_loop, more, free, reads)
                      (more_turns n m block user respond w.0 (data_in - 1)
                        (answer w.1 id w.0 (d, w.2)) (omega arith) (omega arith))
              ]
        ]
      ]

  full_loop :
      (n block : ℕ) (user : User) (file_mod data_in : ℕ) (r : ℕ × Alp A)
      → ltb_ℤ (writespace r.1.outq) (pos 2) ≡ true
      → perms_loop g n block user true file_mod data_in r ≡ r
  unfolding perms_loop sub_qnotfull
  full_loop zero block user file_mod data_in r full = refl
  full_loop (suc n) block user file_mod data_in (d, a) full = elim (Bool-cases (ltb 0 data_in)) [
    | inr done ↦ rw (perms_loop, done) refl
    | inl more ↦ rw (perms_loop, more, full) refl
  ]

  full_cases :
      (n block : ℕ) (user : User) (respond : Bool) (file_mod data_in : ℕ) (r : ℕ × Alp A)
      → (respond ≡ false)
        ⊎ (ltb_ℤ (writespace r.1.outq) (pos 2) ≡ false)
        ⊎ (perms_loop g n block user respond file_mod data_in r ≡ r)
  full_cases n block user false file_mod data_in r = inl refl
  full_cases n block user true file_mod data_in r =
      elim (Bool-cases (ltb_ℤ (writespace r.1.outq) (pos 2))) [
        | inl full ↦ inr (inr (full_loop n block user file_mod data_in r full))
        | inr free ↦ inr (inl free)
      ]

  -- The loop over permissions ends: as many turns as `data_in` are enough, and a loop that is given
  -- more turns gives the same result. Where it is to respond and the output has no room for the two
  -- octets of an answer, it ends at once: it changes nothing and answers nothing more.
  pub perms_loop-turns :
      (n m block : ℕ) (user : User) (respond : Bool) (file_mod data_in : ℕ) (r : ℕ × Alp A)
      → data_in ≤ n
      → data_in ≤ m
      → (perms_loop g n block user respond file_mod data_in r
          ≡ perms_loop g m block user respond file_mod data_in r)
        × ((respond ≡ false)
            ⊎ (ltb_ℤ (writespace r.1.outq) (pos 2) ≡ false)
            ⊎ (perms_loop g n block user respond file_mod data_in r ≡ r))
  perms_loop-turns n m block user respond file_mod data_in r le lm = (
    more_turns n m block user respond file_mod data_in r le lm,
    full_cases n block user respond file_mod data_in r,
  )

  silent_reads :
      (n block : ℕ) (user : User) (file_mod data_in : ℕ) (r : ℕ × Alp A)
      → file_mod ≢ access_w
      → (perms_loop g n block user false file_mod data_in r).1.files ≡ r.1.files
  unfolding perms_loop read_mod readbyte
  silent_reads zero block user file_mod data_in r other = refl
  silent_reads (suc n) block user file_mod data_in (d, a) other =
      elim (Bool-cases (ltb 0 data_in)) [
        | inr done ↦ rw (perms_loop, done) refl
        | inl more ↦ elim (Bool-cases (sub_qnotfull false 2 a.outq)) [
          | inr full ↦ rw (perms_loop, more, full) refl
          | inl free ↦
              rw (perms_loop, more, free, reads)
                (silent_reads n block user file_mod (data_in - 1) (d, (in_byte a).1) other)
        ]
      ]
    where
      reads : (file_mod == access_w) ≡ false
      reads = ground (arith, other)

  silent_free : (size : ℕ) (a : Alp A) → sub_qnotfull false size a.outq ≡ true
  unfolding sub_qnotfull
  silent_free size a = ground arith

  chmod_code :
      (block id mode : ℕ) (user : User) (a : Alp A)
      → (vl_chmod g block id mode user a.files).0 ≢ access_w
  unfolding vl_chmod
  chmod_code block id mode user a =
      ground (arith, vl_getheader_vaddr_lem g null_vaddr block id vl_access_rw user a.files)

  first_write :
      (n block : ℕ) (user : User) (file_mod data_in : ℕ) (a : Alp A)
      → file_mod ≡ access_w
      → 0 < data_in
      → (perms_loop g (suc n) block user false file_mod data_in (0, a)).1.files
        ≡ (vl_chmod g block (a.ram a.inq.getcursor) (a.ram (a.inq.getcursor + 1)) user a.files).1
  unfolding perms_loop write_mod readbyte
  first_write n block user file_mod data_in a e some_file =
      rw (perms_loop, more, silent_free 2 a, writes)
        (silent_reads n block user w.0 (data_in - 1 - 1) (0, w.1)
          (chmod_code block (a.ram a.inq.getcursor) (a.ram (a.inq.getcursor + 1)) user a))
    where
      w : ℕ × Alp A
      w = write_mod g block (in_byte a).0 user (in_byte a).1

      more : ltb 0 data_in ≡ true
      more = ground arith

      writes : (file_mod == access_w) ≡ true
      writes = ground (arith, e)

  -- A command without a response that writes permissions sets the mode of its first file alone,
  -- with the result of `vl_chmod` for it: the files that follow in the record are as `vl_chmod`
  -- left them, whatever their modes in the record.
  pub sub_fileperms-vl_chmod :
      (user : User) (cmd_in data_in : ℕ) (a : Alp A)
      → bit_and cmd_in 0x02 ≢ 0
      → 0 < data_in
      → (sub_fileperms g user false cmd_in data_in a).1.files
        ≡ (vl_chmod g
            (block_of cmd_in)
            (a.ram a.inq.getcursor)
            (a.ram (a.inq.getcursor + 1))
            user
            a.files).1
  unfolding sub_fileperms
  sub_fileperms-vl_chmod user cmd_in zero a writes some_file = absurd (omega arith)
  sub_fileperms-vl_chmod user cmd_in (suc n) a writes some_file =
      first_write n (block_of cmd_in) user (mod_of cmd_in) (suc n) a (ground (arith, writes))
        some_file
