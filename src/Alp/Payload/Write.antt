-- ===== src/Alp/Payload/Write.antt =====
-- otlib/alp_filedata.c: the loop of `sub_filedata` that writes a record's octets to a file.
use libotfs.Prelude.{
  ℕ, zero, suc, ◌+◌, ◌*◌, ◌/◌, ◌%◌, ◌^◌, ◌≤◌, ◌<◌, ◌≡◌, ◌∙◌, refl, ap, false, some, ltb, leb, ◌==◌,
  arith, if◌then◌else◌, u16, bit_or, lt→ltb,
}
use mathlib.Core.Path.{ap₂}
use libotfs.Queue.{readbyte, readshort_be}
use libotfs.Vworm.{Driver}
use libotfs.Veelite.{Veelite, VlFile}
use libotfs.Veelite.Data.{vl_write}
use libotfs.Veelite.Words.{write_in, after_write}
use libotfs.Veelite.Loops.{stored}
use libotfs.Alp.State.{Alp, minus16}
use libotfs.Alp.FileData.{Written, write_loop}

-- A file that was written: its place and its drivers are as before.
pub record IsSameFile (f f' : VlFile) : Type 0 where
  pub start : f'.start ≡ f.start
  pub alloc : f'.alloc ≡ f.alloc
  pub read : f'.read ≡ f.read
  pub write : f'.write ≡ f.write

same_file : (f : VlFile) → IsSameFile f f
same_file f = record { start = refl; alloc = refl; read = refl; write = refl }

joined : {f f' f'' : VlFile} → IsSameFile f f' → IsSameFile f' f'' → IsSameFile f f''
joined s t = record {
  start = t.start ∙ s.start;
  alloc = t.alloc ∙ s.alloc;
  read = t.read ∙ s.read;
  write = t.write ∙ s.write;
}

module _ {A : Type 0} where
  abbrev taken : Alp A → Veelite A → ℕ → Alp A
  taken a v n = record a { inq = record a.inq { getcursor = a.inq.getcursor + n }; files = v }

  write_loop-step :
      (n fp offset limit span data_in err : ℕ) (a : Alp A) (v : Veelite A)
      → offset < limit
      → a.inq.getcursor < a.inq.back
      → vl_write fp offset (a.ram a.inq.getcursor + 256 * a.ram (a.inq.getcursor + 1)) a.files
        ≡ some (0, v)
      → write_loop (suc n) fp offset limit span data_in err a
        ≡ write_loop n fp
            (u16 (offset + 2))
            limit
            (minus16 span 2)
            (minus16 data_in 2)
            (bit_or err 0)
            (taken a v 2)
  unfolding write_loop readshort_be readbyte
  write_loop-step n fp offset limit span data_in err a v lt inside w =
      rw (write_loop, lt→ltb offset limit lt, not_over, w, twice a.inq.getcursor) refl
    where
      not_over : leb a.inq.back a.inq.getcursor ≡ false
      not_over = ground arith

      twice : (x : ℕ) → x + 1 + 1 ≡ x + 2
      twice x = omega arith

  -- The loop of a write, over `n` words: what it leaves.
  abbrev Stored : ℕ → ℕ → ℕ → ℕ → ℕ → Alp A → Written A → Type 0
  Stored n fp offset span data_in a w =
      (w.overrun ≡ false)
      × (w.alp.inq ≡ record a.inq { getcursor = a.inq.getcursor + 2 * n })
      × (w.alp.outq ≡ a.outq)
      × (w.alp.files.fsram
          ≡ stored a.files.fsram ((offset + (a.files.vlfile fp).start) / 2) n a.ram a.inq.getcursor)
      × IsSameFile (a.files.vlfile fp) (w.alp.files.vlfile fp)

  pub write_loop-Stored :
      (n fuel fp offset span data_in err : ℕ) (a : Alp A) (d : Driver)
      → n < fuel
      → (a.files.vlfile fp).write ≡ some d
      → (offset + (a.files.vlfile fp).start) % 2 ≡ 0
      → offset + 2 * n ≤ (a.files.vlfile fp).alloc
      → (a.files.vlfile fp).start + offset + 2 * n < 2 ^ 16
      → a.inq.getcursor + 2 * n ≤ a.inq.back
      → (w : Written A) × (write_loop fuel fp offset (offset + 2 * n) span data_in err a ≡ some w)
        × Stored n fp offset span data_in a w
  unfolding write_loop stored
  write_loop-Stored zero zero fp offset span data_in err a d lt wr even fits small inside =
      absurd (omega arith)
  write_loop-Stored (suc n) zero fp offset span data_in err a d lt wr even fits small inside =
      absurd (omega arith)
  write_loop-Stored zero (suc fuel) fp offset span data_in err a d lt wr even fits small inside = (
    record { overrun = false; span = span; data_in = data_in; err_code = err; alp = a },
    rw (write_loop, stop) refl,
    (
      refl,
      ap (λ g. record a.inq { getcursor = g }) (omega arith),
      refl,
      refl,
      same_file (a.files.vlfile fp),
    ),
  )
    where
      stop : ltb offset (offset + 0) ≡ false
      stop = ground arith
  write_loop-Stored (suc n) (suc fuel) fp offset span data_in err a d lt wr even fits small inside =
      let later =
        write_loop-Stored n fuel fp (offset + 2) (minus16 span 2) (minus16 data_in 2) (bit_or err 0)
          b d (omega arith) (same.write ∙ wr) (rw same.start (omega arith))
          (rw same.alloc (omega arith)) (rw same.start (omega arith)) (omega arith) in
      (
        later.0,
        write_loop-step fuel fp offset (offset + 2 * suc n) span data_in err a v (omega arith)
              (omega arith) (write_in fp offset word a.files d wr (omega arith))
            ∙ ap₂
                (λ o l.
                  write_loop fuel fp o l (minus16 span 2) (minus16 data_in 2) (bit_or err 0) b)
                next_offset next_limit
            ∙ later.1,
        (
          later.2.0,
          later.2.1 ∙ ap (λ g. record a.inq { getcursor = g }) (omega arith),
          later.2.2,
          later.2.3 ∙ the_words,
          joined same later.2.4,
        ),
      )
    where
      word : ℕ
      word = a.ram a.inq.getcursor + 256 * a.ram (a.inq.getcursor + 1)

      v : Veelite A
      v = after_write fp offset word a.files

      b : Alp A
      b = taken a v 2

      same : IsSameFile (a.files.vlfile fp) (v.vlfile fp)
      same = record {
        start = ground arith;
        alloc = ground arith;
        read = ground arith;
        write = ground arith;
      }

      next_offset : u16 (offset + 2) ≡ offset + 2
      next_offset = omega arith

      next_limit : offset + 2 * suc n ≡ offset + 2 + 2 * n
      next_limit = omega arith

      h : ℕ
      h = (offset + (a.files.vlfile fp).start) / 2

      the_words :
          stored v.fsram ((offset + 2 + (v.vlfile fp).start) / 2) n a.ram (a.inq.getcursor + 2)
          ≡ stored a.files.fsram h (suc n) a.ram a.inq.getcursor
      the_words =
          ap₂
            (λ (x y : ℕ).
              stored (λ (k : ℕ). if k == x then word else a.files.fsram k) y n a.ram
                (a.inq.getcursor + 2))
            place (rw same.start next)
        where
          place : u16 (offset + (a.files.vlfile fp).start) / 2 ≡ h
          place = omega arith

          next : (offset + 2 + (a.files.vlfile fp).start) / 2 ≡ h + 1
          next = omega arith
