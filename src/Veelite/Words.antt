-- ===== src/Veelite/Words.antt =====
-- otlib/veelite.c: `vl_read` and `vl_write`, one word of an open file.
use libotfs.Prelude.{
  ℕ, ◌+◌, ◌/◌, ◌%◌, ◌^◌, ◌≤◌, ◌<◌, ◌≡◌, ◌∙◌, refl, ap, false, some, bit_or, u16, leb, ◌==◌,
  if◌then◌else◌, arith,
}
use native.Mathlib.Decide.{dec_le}
use libotfs.Vworm.{Driver, call_write}
use libotfs.Veelite.{Veelite, VlFile, put}
use libotfs.Veelite.Data.{vl_read, vl_write}
use libotfs.Veelite.Loops.{call_read-some, call_write-some}

abbrev pub written : VlFile → ℕ → VlFile
written f offset =
    let longer = record f { length = u16 (offset + 2); flags = bit_or f.flags 4 } in
    let f1 = if leb f.length offset then longer else f in record f1 { flags = bit_or f1.flags 2 }

module _ {A : Type 0} where
  write_over :
      (fp offset word : ℕ) (v : Veelite A)
      → (v.vlfile fp).alloc ≤ offset
      → vl_write fp offset word v ≡ some (255, v)
  unfolding vl_write
  write_over fp offset word v over = ground arith

  abbrev pub after_write : ℕ → ℕ → ℕ → Veelite A → Veelite A
  after_write fp offset word v = record v {
    vlfile = put v.vlfile fp (written (v.vlfile fp) offset);
    fsram = λ x. if x == u16 (offset + (v.vlfile fp).start) / 2 then word else v.fsram x;
  }

  pub write_in :
      (fp offset word : ℕ) (v : Veelite A) (d : Driver)
      → (v.vlfile fp).write ≡ some d
      → offset < (v.vlfile fp).alloc
      → vl_write fp offset word v ≡ some (0, after_write fp offset word v)
  unfolding vl_write
  write_in fp offset word v d w fits = rw (vl_write, not_over, the_call) refl
    where
      not_over : leb (v.vlfile fp).alloc offset ≡ false
      not_over = ground arith

      the_call :
          call_write (v.vlfile fp).write (u16 (offset + (v.vlfile fp).start)) word v.fsram
          ≡ some (0, λ x. if x == u16 (offset + (v.vlfile fp).start) / 2 then word else v.fsram x)
      the_call =
          ap (λ o. call_write o (u16 (offset + (v.vlfile fp).start)) word v.fsram) w
          ∙ call_write-some d (u16 (offset + (v.vlfile fp).start)) word v.fsram
          ∙ ap (λ (h : ℕ). some (0, λ (x : ℕ). if x == h then word else v.fsram x)) twice
        where
          twice :
              u16 (u16 (offset + (v.vlfile fp).start)) / 2 ≡ u16 (offset + (v.vlfile fp).start) / 2
          twice = omega arith

  pub read_at :
      (fp offset start : ℕ) (v : Veelite A) (d : Driver)
      → (v.vlfile fp).read ≡ some d
      → (v.vlfile fp).start ≡ start
      → vl_read fp offset v ≡ some (v.fsram (u16 (offset + start) / 2))
  unfolding vl_read
  read_at fp offset start v d r st =
      rw (vl_read, r, st) (call_read-some d (u16 (offset + start)) v.fsram)
      ∙ ap (λ h. some (v.fsram h)) twice
    where
      twice : u16 (u16 (offset + start)) / 2 ≡ u16 (offset + start) / 2
      twice = omega arith

  -- While offsets and allocations stay below the end of the address space, `vl_write` at an even
  -- offset keeps the length within an even allocation.
  pub vl_write-length :
      (fp offset word : ℕ) (v : Veelite A) (d : Driver)
      → (v.vlfile fp).write ≡ some d
      → (v.vlfile fp).alloc < 2 ^ 16
      → offset % 2 ≡ 0
      → (v.vlfile fp).alloc % 2 ≡ 0
      → (v.vlfile fp).length ≤ (v.vlfile fp).alloc
      → (r : ℕ) × (v' : Veelite A) × (vl_write fp offset word v ≡ some (r, v'))
        × ((v'.vlfile fp).alloc ≡ (v.vlfile fp).alloc)
        × ((v'.vlfile fp).length ≤ (v.vlfile fp).alloc)
        × ((v.vlfile fp).length ≤ (v'.vlfile fp).length)
  vl_write-length fp offset word v d w small even even_alloc le =
      elim (dec_le (v.vlfile fp).alloc offset) [
        | yes over ↦ (255, v, write_over fp offset word v over, refl, le, omega arith)
        | no fits ↦ (
          0,
          after_write fp offset word v,
          write_in fp offset word v d w (omega arith),
          ground arith,
          ground arith,
          ground arith,
        )
      ]
