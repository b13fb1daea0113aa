-- ===== src/Alp/Room/Loops.antt =====
-- The room of the output in the loops over permissions, headers, deletions, creations and
-- restorations of otlib/alp_filedata.c.
use libotfs.Prelude.{
  ℕ, zero, suc, ◌+◌, ◌-◌, ◌≤◌, ◌≡◌, inl, inr, refl, Bool, true, false, Bool-cases, ltb, ◌==◌, arith,
  none,
}
use libotfs.Auth.{User}
use libotfs.Queue.{readbyte, readshort}
use libotfs.Veelite.{Guard, vl_getheader_vaddr, null_vaddr}
use libotfs.Alp.State.{Alp, sub_qnotfull, in_byte, in_short, access_w, access_r}
use libotfs.Alp.Perms.{
  answer, out_header, delete_loop, create_loop, restore_loop, perms_loop, headers_loop, read_mod,
  write_mod, vl_delete, vl_new,
}
use libotfs.Alp.Room.{IsKept, same-IsKept, pair-IsKept, header-IsKept, room}

module _ {A : Type 0} where
  answer-IsKept :
      (exact respond : Bool) (a0 : Alp A) (d b c : ℕ) (a : Alp A)
      → IsKept exact a0 d a
      → (respond ≡ true → a.outq.putcursor + 2 ≤ a0.outq.back)
      → let r = answer respond b c (d, a) in IsKept exact a0 r.0 r.1
  answer-IsKept exact true a0 d b c a k enough =
      pair-IsKept exact a0 d b c a k (omega (arith, enough refl))
  answer-IsKept exact false a0 d b c a k enough = k

  enough :
      (exact respond : Bool) (a0 : Alp A) (d : ℕ) (a : Alp A)
      → IsKept exact a0 d a
      → sub_qnotfull respond 2 a.outq ≡ true
      → respond ≡ true
      → a.outq.putcursor + 2 ≤ a0.outq.back
  enough exact true a0 d a k e on = room exact a0 d 2 a k e
  enough exact false a0 d a k e on = absurd (cc)

  pub delete_loop-IsKept :
      (exact respond : Bool) (data_in : ℕ) (a0 : Alp A) (d : ℕ) (a : Alp A)
      → IsKept exact a0 d a
      → let r = delete_loop respond data_in (d, a) in IsKept exact a0 r.0 r.1
  unfolding delete_loop readbyte
  delete_loop-IsKept exact respond zero a0 d a k = k
  delete_loop-IsKept exact respond (suc n) a0 d a k =
      elim (Bool-cases (sub_qnotfull respond 2 a.outq)) [
        | inr full ↦ rw (delete_loop, full) k
        | inl free ↦
            let a1 = (in_byte a).1 in
            let r = answer respond (in_byte a).0 vl_delete (d, a1) in
            rw (delete_loop, free)
              (delete_loop-IsKept exact respond n a0 r.0 r.1 (
                answer-IsKept exact respond a0 d (in_byte a).0 vl_delete a1
                  (same-IsKept exact a0 d a a1 k refl refl) (enough exact respond a0 d a k free)))
      ]

  pub restore_loop-IsKept :
      (exact respond : Bool) (data_in : ℕ) (a0 : Alp A) (d : ℕ) (a : Alp A)
      → IsKept exact a0 d a
      → let r = restore_loop respond data_in (d, a) in IsKept exact a0 r.0 r.1
  unfolding restore_loop readbyte
  restore_loop-IsKept exact respond zero a0 d a k = k
  restore_loop-IsKept exact respond (suc n) a0 d a k =
      elim (Bool-cases (sub_qnotfull respond 2 a.outq)) [
        | inr full ↦ rw (restore_loop, full) k
        | inl free ↦
            let a1 = (in_byte a).1 in
            let r = answer respond (in_byte a).0 0x03 (d, a1) in
            rw (restore_loop, free)
              (restore_loop-IsKept exact respond n a0 r.0 r.1 (
                answer-IsKept exact respond a0 d (in_byte a).0 0x03 a1
                  (same-IsKept exact a0 d a a1 k refl refl) (enough exact respond a0 d a k free)))
      ]

  -- The cursor of the input behind the six octets of a file to create.
  abbrev created : Alp A → Alp A
  created a =
      let a1 = (in_byte (in_byte a).1).1 in
      (in_short (record a1 { inq = record a1.inq { getcursor = a1.inq.getcursor + 2 } })).1

  pub create_loop-IsKept :
      (exact respond : Bool) (n data_in : ℕ) (a0 : Alp A) (d : ℕ) (a : Alp A)
      → IsKept exact a0 d a
      → let r = create_loop n respond data_in (d, a) in IsKept exact a0 r.0 r.1
  unfolding create_loop readbyte readshort
  create_loop-IsKept exact respond zero data_in a0 d a k = k
  create_loop-IsKept exact respond (suc n) data_in a0 d a k = elim (Bool-cases (ltb 0 data_in)) [
    | inr done ↦ rw (create_loop, done) k
    | inl more ↦ elim (Bool-cases (sub_qnotfull respond 2 a.outq)) [
      | inr full ↦ rw (create_loop, more, full) k
      | inl free ↦
          let r = answer respond (in_byte a).0 vl_new (d, created a) in
          rw (create_loop, more, free)
            (create_loop-IsKept exact respond n (data_in - 6) a0 r.0 r.1 (
              answer-IsKept exact respond a0 d (in_byte a).0 vl_new (created a)
                (same-IsKept exact a0 d a (created a) k refl refl)
                (enough exact respond a0 d a k free)))
    ]
  ]

  module _ (g : Guard A) where
    read_mod_lem :
        (block file_id file_mod : ℕ) (respond : Bool) (a : Alp A)
        → let (mode, allow, b) = read_mod g block file_id file_mod respond a in
          (b.outq ≡ a.outq) × (b.ram ≡ a.ram) × (allow ≡ true → respond ≡ true)
    unfolding read_mod
    read_mod_lem block file_id file_mod respond a = ground arith

    pub perms_loop-IsKept :
        (exact respond : Bool) (n block : ℕ) (user : User) (file_mod data_in : ℕ) (a0 : Alp A)
        (d : ℕ) (a : Alp A)
        → IsKept exact a0 d a
        → let r = perms_loop g n block user respond file_mod data_in (d, a) in
          IsKept exact a0 r.0 r.1
    unfolding perms_loop readbyte write_mod
    perms_loop-IsKept exact respond zero block user file_mod data_in a0 d a k = k
    perms_loop-IsKept exact respond (suc n) block user file_mod data_in a0 d a k =
        elim (Bool-cases (ltb 0 data_in)) [
          | inr done ↦ rw (perms_loop, done) k
          | inl more ↦ elim (Bool-cases (sub_qnotfull respond 2 a.outq)) [
            | inr full ↦ rw (perms_loop, more, full) k
            | inl free ↦
                let id = (in_byte a).0 in
                let a1 = (in_byte a).1 in
                elim (Bool-cases (file_mod == access_w)) [
                  | inl writes ↦
                      let w = write_mod g block id user a1 in
                      let r = answer respond id w.0 (d, w.1) in
                      rw (perms_loop, more, free, writes)
                        (perms_loop-IsKept exact respond n block user w.0 (data_in - 1 - 1) a0 r.0
                          r.1
                          (answer-IsKept exact respond a0 d id w.0 w.1
                            (same-IsKept exact a0 d a w.1 k refl refl)
                            (enough exact respond a0 d a k free)))
                  | inr reads ↦
                      let w = read_mod g block id file_mod respond a1 in
                      let l = read_mod_lem block id file_mod respond a1 in
                      let r = answer w.1 id w.0 (d, w.2) in
                      rw (perms_loop, more, free, reads)
                        (perms_loop-IsKept exact respond n block user w.0 (data_in - 1) a0 r.0 r.1 (
                          answer-IsKept exact w.1 a0 d id w.0 w.2
                            (same-IsKept exact a0 d a w.2 k l.0 l.1)
                            (λ allow. rw l.0 (enough exact respond a0 d a k free (l.2 allow)))))
                ]
          ]
        ]

    pub headers_loop-IsKept :
        (exact : Bool) (block data_in : ℕ) (a0 : Alp A) (d : ℕ) (a : Alp A)
        → IsKept exact a0 d a
        → let r = headers_loop g block true data_in (d, a) in IsKept exact a0 r.0 r.1
    unfolding headers_loop readbyte
    headers_loop-IsKept exact block zero a0 d a k = k
    headers_loop-IsKept exact block (suc n) a0 d a k =
        elim (Bool-cases (sub_qnotfull true 6 a.outq)) [
          | inr full ↦ rw (headers_loop, full) k
          | inl free ↦
              let id = (in_byte a).0 in
              let a1 = (in_byte a).1 in
              let h = vl_getheader_vaddr g null_vaddr block id access_r none a1.files in
              let a2 = record a1 { files = h.2 } in
              let k2 = same-IsKept exact a0 d a a2 k refl refl in
              elim (Bool-cases (h.0 == 0)) [
                | inl there ↦
                    rw (headers_loop, free, there)
                      (headers_loop-IsKept exact block n a0 (d + 6) (out_header h.1 a2)
                        (header-IsKept exact a0 d h.1 a2 k2 (room exact a0 d 6 a k free)))
                | inr missing ↦
                    rw (headers_loop, free, missing) (headers_loop-IsKept exact block n a0 d a2 k2)
              ]
        ]
