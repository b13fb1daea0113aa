-- ===== src/Veelite/Append.antt =====
-- otlib/veelite.c: what `vl_append` writes.
use libotfs.Prelude.{
  ℕ, suc, ◌+◌, ◌-◌, ◌*◌, ◌/◌, ◌%◌, ◌^◌, ◌≤◌, ◌<◌, ◌≡◌, inl, refl, true, some, bit_or, u16, leb,
  arith,
}
use libotfs.Memory.{Memory}
use libotfs.Vworm.{Fsram, Driver}
use libotfs.Veelite.{Veelite, put}
use libotfs.Veelite.Data.{vl_append, store_loop}
use libotfs.Veelite.Loops.{stored, stored_inside, stored_outside, store_at}

module _ {A : Type 0} where
  abbrev pub after_append : ℕ → ℕ → Fsram → Veelite A → Veelite A
  after_append fp n s v = record v {
    vlfile =
        put v.vlfile fp
          (record (v.vlfile fp) { flags = bit_or (v.vlfile fp).flags (bit_or 4 2); length = n });
    fsram = s;
  }

  append_runs :
      (fp len p : ℕ) (m : Memory) (v : Veelite A) (s : Fsram)
      → let f = v.vlfile fp in
        let c = u16 (f.start + f.length) in
        let end = u16 (u16 (f.length + len) + c) in
        leb (u16 (f.length + len)) f.alloc ≡ true
        → store_loop (suc (end - c)) f.write c end m p 0 v.fsram ≡ some (0, s)
        → vl_append fp len p m v ≡ some (0, after_append fp (u16 (f.length + len)) s v)
  unfolding vl_append
  append_runs fp len p m v s fits e = rw (vl_append, fits, e) refl

  -- `vl_append` to an open file of even length that begins at an even address, where old and new
  -- bytes are within its allocation and the loop does not reach the end of the address space,
  -- returns 0 and puts the new bytes behind the old ones, the bytes before them as they were; but it
  -- goes on to write half-words until as many octets as the file now has are written.
  pub vl_append-overrun :
      (fp len p j x : ℕ) (m : Memory) (v : Veelite A) (d : Driver)
      → (v.vlfile fp).write ≡ some d
      → (v.vlfile fp).start % 2 ≡ 0
      → (v.vlfile fp).length % 2 ≡ 0
      → (v.vlfile fp).length + len ≤ (v.vlfile fp).alloc
      → (v.vlfile fp).start + 2 * (v.vlfile fp).length + len + 1 < 2 ^ 16
      → 2 * j < (v.vlfile fp).length + len
      → 2 * x < (v.vlfile fp).start + (v.vlfile fp).length
      → (v' : Veelite A) × (vl_append fp len p m v ≡ some (0, v'))
        × ((v'.vlfile fp).length ≡ (v.vlfile fp).length + len)
        × (v'.fsram (((v.vlfile fp).start + (v.vlfile fp).length) / 2 + j)
            ≡ m (p + 2 * j) + 256 * m (p + 2 * j + 1))
        × (v'.fsram x ≡ v.fsram x)
  vl_append-overrun fp len p j x m v d w even even_length room fits inside before = (
    after_append fp (u16 (length + len)) s' v,
    append_runs fp len p m v s' (rw the_length (ground arith)) (
        rw (the_length, the_cursor, the_end, w)
          (store_at ((length + len + 1) / 2) (start + length) (length + len + (start + length)) d m
            p v.fsram (omega arith) (omega arith) (omega arith) (omega arith) (omega arith))),
    ground arith,
    stored_inside v.fsram ((start + length) / 2) ((length + len + 1) / 2) m p j (omega arith),
    stored_outside v.fsram ((start + length) / 2) ((length + len + 1) / 2) m p x
        (inl (omega arith)),
  )
    where
      start : ℕ
      start = (v.vlfile fp).start

      length : ℕ
      length = (v.vlfile fp).length

      s' : Fsram
      s' = stored v.fsram ((start + length) / 2) ((length + len + 1) / 2) m p

      the_length : u16 (length + len) ≡ length + len
      the_length = omega arith

      the_cursor : u16 (start + length) ≡ start + length
      the_cursor = omega arith

      the_end : u16 (length + len + (start + length)) ≡ length + len + (start + length)
      the_end = omega arith
