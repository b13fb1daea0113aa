-- ===== src/Alp/Room.antt =====
-- The output of a command of otlib/alp_filedata.c stays within the room of its queue: the invariant
-- that each step keeps.
pub mod Loops
pub mod Data
pub mod Turn
use libotfs.Prelude.{
  ℕ, ◌+◌, ◌-◌, ◌^◌, ◌≤◌, ◌<◌, ◌≡◌, ◌∙◌, ◌⊎◌, refl, ap, Bool, true, ◌||◌, not, arith, s16-sub_ℕ,
  byte,
}
use libotfs.Prelude.Int.{pos, ltb_ℤ}
use libotfs.Queue.{Queue, writebyte, writeshort, writeshort_be, writespace}
use libotfs.Vworm.{vworm_read}
use libotfs.Alp.State.{Alp, out_byte, out_pair, sub_qnotfull}
use libotfs.Alp.Perms.{out_header}

module _ {A : Type 0} where
  -- From `a0` on, output was only added, within the room that `a0` had: no octet of the memory
  -- outside that room was changed. Where the count is exact, the cursor went on by it.
  pub record IsKept (exact : Bool) (a0 : Alp A) (d : ℕ) (a : Alp A) : Type 0 where
    pub same_back : a.outq.back ≡ a0.outq.back
    pub later : a0.outq.putcursor ≤ a.outq.putcursor
    pub within : a.outq.putcursor ≤ a0.outq.back
    pub small : a0.outq.back - a0.outq.putcursor < 2 ^ 15
    pub counted : exact ≡ true → a.outq.putcursor ≡ a0.outq.putcursor + d
    pub outside : (x : ℕ) → (x < a0.outq.putcursor) ⊎ (a0.outq.back ≤ x) → a.ram x ≡ a0.ram x

  pub start-IsKept :
      (exact : Bool) (a : Alp A)
      → a.outq.putcursor ≤ a.outq.back
      → a.outq.back - a.outq.putcursor < 2 ^ 15
      → IsKept exact a 0 a
  start-IsKept exact a le small = record {
    same_back = refl;
    later = omega arith;
    within = le;
    small = small;
    counted = λ e. omega arith;
    outside = λ x out. refl;
  }

  -- A step that puts nothing out.
  pub same-IsKept :
      (exact : Bool) (a0 : Alp A) (d : ℕ) (a b : Alp A)
      → IsKept exact a0 d a
      → b.outq ≡ a.outq
      → b.ram ≡ a.ram
      → IsKept exact a0 d b
  same-IsKept exact a0 d a b k q m = record {
    same_back = ap (λ (o : Queue). o.back) q ∙ k.same_back;
    later = rw q k.later;
    within = rw q k.within;
    small = k.small;
    counted = λ e. ap (λ (o : Queue). o.putcursor) q ∙ k.counted e;
    outside = λ x out. ap (λ f. f x) m ∙ k.outside x out;
  }

  pub byte-IsKept :
      (exact : Bool) (a0 : Alp A) (d b : ℕ) (a : Alp A)
      → IsKept exact a0 d a
      → a.outq.putcursor < a0.outq.back
      → IsKept exact a0 (d + 1) (out_byte b a)
  unfolding writebyte
  byte-IsKept exact a0 d b a k lt = record {
    same_back = k.same_back;
    later = omega (arith, k.later);
    within = omega (arith, lt);
    small = k.small;
    counted = λ e. omega (arith, k.counted e);
    outside = λ x out. ground (arith, k.outside x out, k.later, lt, out);
  }

  pub pair-IsKept :
      (exact : Bool) (a0 : Alp A) (d b c : ℕ) (a : Alp A)
      → IsKept exact a0 d a
      → a.outq.putcursor + 1 < a0.outq.back
      → IsKept exact a0 (d + 2) (out_pair b c a)
  unfolding writebyte
  pair-IsKept exact a0 d b c a k lt = more d (
      byte-IsKept exact a0 (d + 1) c (out_byte b a) (byte-IsKept exact a0 d b a k (omega arith))
        (omega arith))
    where
      more :
          (n : ℕ)
          → IsKept exact a0 (n + 1 + 1) (out_pair b c a)
          → IsKept exact a0 (n + 2) (out_pair b c a)
      more n h = rw (twice n) at h
        where
          twice : (j : ℕ) → j + 1 + 1 ≡ j + 2
          twice j = omega arith

  pub writespace-IsKept :
      (exact : Bool) (a0 : Alp A) (d : ℕ) (a : Alp A)
      → IsKept exact a0 d a
      → writespace a.outq ≡ pos (a0.outq.back - a.outq.putcursor)
  unfolding writespace
  writespace-IsKept exact a0 d a k =
      s16-sub_ℕ a.outq.back a.outq.putcursor (omega (arith, k.within, k.same_back))
        (omega (arith, k.small, k.later, k.same_back))
      ∙ ap (λ n. pos (n - a.outq.putcursor)) k.same_back

  pub room :
      (exact : Bool) (a0 : Alp A) (d size : ℕ) (a : Alp A)
      → IsKept exact a0 d a
      → sub_qnotfull true size a.outq ≡ true
      → a.outq.putcursor + size ≤ a0.outq.back
  unfolding sub_qnotfull
  room exact a0 d size a k e = fits (rw (sub_qnotfull, writespace-IsKept exact a0 d a k) at e)
    where
      fits :
          (not (ltb_ℤ (pos (a0.outq.back - a.outq.putcursor)) (pos size)) || not true ≡ true)
          → a.outq.putcursor + size ≤ a0.outq.back
      fits h = ground (arith, k.within)

  pub header-IsKept :
      (exact : Bool) (a0 : Alp A) (d header : ℕ) (a : Alp A)
      → IsKept exact a0 d a
      → a.outq.putcursor + 6 ≤ a0.outq.back
      → IsKept exact a0 (d + 6) (out_header header a)
  unfolding writeshort writeshort_be writebyte
  header-IsKept exact a0 d header a k le =
      let s = a.files.fsram in
      let w4 = vworm_read (header + 4) s in
      let w0 = vworm_read header s in
      let w2 = vworm_read (header + 2) s in
      let a2 = out_pair (byte 0 w4) (byte 1 w4) a in
      let a4 = out_pair (byte 1 w0) (byte 0 w0) a2 in
      let k2 = pair-IsKept exact a0 d (byte 0 w4) (byte 1 w4) a k (omega arith) in
      let k4 = pair-IsKept exact a0 (d + 2) (byte 1 w0) (byte 0 w0) a2 k2 (omega arith) in
      more d (pair-IsKept exact a0 (d + 2 + 2) (byte 1 w2) (byte 0 w2) a4 k4 (omega arith))
    where
      more :
          (n : ℕ)
          → IsKept exact a0 (n + 2 + 2 + 2) (out_header header a)
          → IsKept exact a0 (n + 6) (out_header header a)
      more n h = rw (thrice n) at h
        where
          thrice : (j : ℕ) → j + 2 + 2 + 2 ≡ j + 6
          thrice j = omega arith
