-- ===== src/Veelite/Transfer.antt =====
-- otlib/veelite.c: `vl_load`, `vl_store` and `vl_execute` on the memory of an open file.
use libotfs.Prelude.{
  ℕ, suc, ◌+◌, ◌-◌, ◌*◌, ◌/◌, ◌%◌, ◌^◌, ◌≤◌, ◌<◌, ◌≡◌, ◌∙◌, ◌⊎◌, inl, refl, ap, some, bit_or, u16,
  ◌==◌, if◌then◌else◌, arith,
}
use native.Mathlib.Decide.{dec_le}
use libotfs.Memory.{Memory, bytes, bytes_ext}
use libotfs.Vworm.{Fsram, Driver}
use libotfs.Veelite.{Veelite, VlFile, put}
use libotfs.Veelite.Data.{vl_load, vl_store, vl_execute, load_loop, store_loop}
use libotfs.Veelite.Loops.{
  capped, capped_le, stored, stored_outside, stored_inside, store_at, load_loop-loaded, loaded_byte,
}

abbrev pub store_flags : VlFile → ℕ → ℕ
store_flags f len = if len == f.length then bit_or f.flags 2 else bit_or f.flags (bit_or 4 2)

module _ {A : Type 0} where
  abbrev pub after_store : ℕ → ℕ → Fsram → Veelite A → Veelite A
  after_store fp len s v = record v {
    vlfile =
        put v.vlfile fp
          (record (v.vlfile fp) { flags = store_flags (v.vlfile fp) len; length = len });
    fsram = s;
  }

  store_runs :
      (fp len p : ℕ) (m : Memory) (v : Veelite A) (s : Fsram)
      → store_loop
          (suc (u16 ((v.vlfile fp).start + capped (v.vlfile fp).alloc len) - (v.vlfile fp).start))
          (v.vlfile fp).write
          (v.vlfile fp).start
          (u16 ((v.vlfile fp).start + capped (v.vlfile fp).alloc len))
          m
          p
          0
          v.fsram
        ≡ some (0, s)
      → vl_store fp len p m v ≡ some (0, after_store fp (capped (v.vlfile fp).alloc len) s v)
  unfolding vl_store
  store_runs fp len p m v s e = rw (vl_store, e) refl

  load_runs :
      (scratch fp len p : ℕ) (m : Memory) (v : Veelite A) (m' : Memory) (n : ℕ)
      → load_loop
          (v.vlfile fp).read
          (u16 ((v.vlfile fp).start + capped (v.vlfile fp).length len) - (v.vlfile fp).start)
          (v.vlfile fp).start
          scratch
          p
          m
          v.fsram
        ≡ some m'
      → u16 (
          u16 ((v.vlfile fp).start + capped (v.vlfile fp).length len)
          + 2 ^ 16
          - (v.vlfile fp).start)
        ≡ n
      → vl_load scratch fp len p m v ≡ some (n, m')
  unfolding vl_load
  load_runs scratch fp len p m v m' n e r = rw (vl_load, e, r) refl

  -- What `vl_store` comes to where the file's memory does not reach over the address space.
  pub vl_store-stored :
      (fp len p : ℕ) (m : Memory) (v : Veelite A) (d : Driver)
      → (v.vlfile fp).write ≡ some d
      → (v.vlfile fp).start % 2 ≡ 0
      → (v.vlfile fp).start + len + 1 < 2 ^ 16
      → let n = capped (v.vlfile fp).alloc len in
        vl_store fp len p m v
        ≡ some (0, after_store fp n (stored v.fsram ((v.vlfile fp).start / 2) ((n + 1) / 2) m p) v)
  vl_store-stored fp len p m v d w even small =
      store_runs fp len p m v (stored v.fsram (start / 2) ((n + 1) / 2) m p) (
        rw (w, the_end)
          (store_at ((n + 1) / 2) start (start + n) d m p v.fsram even (omega arith) (omega arith)
            (omega arith) (omega (arith, n_le))))
    where
      start : ℕ
      start = (v.vlfile fp).start

      n : ℕ
      n = capped (v.vlfile fp).alloc len

      n_le : n ≤ len
      n_le = (capped_le (v.vlfile fp).alloc len).1

      the_end : u16 (start + n) ≡ start + n
      the_end = omega (arith, n_le)

  -- A load of a whole file.
  pub load_whole :
      (scratch fp len start p : ℕ) (m : Memory) (v : Veelite A) (d : Driver)
      → (v.vlfile fp).read ≡ some d
      → (v.vlfile fp).start ≡ start
      → (v.vlfile fp).length ≡ len
      → start % 2 ≡ 0
      → start + len < 2 ^ 16
      → (m' : Memory) × (vl_load scratch fp len p m v ≡ some (len, m'))
        × ((k : ℕ) → k < len → m' (p + k) ≡ loaded_byte v.fsram (start + k))
  load_whole scratch fp len start p m v d r st ln even small =
      let l = load_loop-loaded len start scratch d p m v.fsram small (inl even) in
      (
        l.0,
        load_runs scratch fp len p m v l.0 len (rw (r, st, ln, n_eq, the_end, the_count) l.1)
            (rw (st, ln, n_eq, the_end) the_result),
        l.3,
      )
    where
      n_eq : capped len len ≡ len
      n_eq = ground arith

      the_end : u16 (start + len) ≡ start + len
      the_end = omega arith

      the_count : start + len - start ≡ len
      the_count = omega arith

      the_result : u16 (start + len + 2 ^ 16 - start) ≡ len
      the_result = omega arith

-- The byte `k` of a buffer, in the half-words that were stored from it.
pub stored_byte :
    (s : Fsram) (start n : ℕ) (m : Memory) (p k : ℕ)
    → start % 2 ≡ 0
    → k < n
    → ((j : ℕ) → j < n → m (p + j) < 256)
    → loaded_byte (stored s (start / 2) ((n + 1) / 2) m p) (start + k) ≡ m (p + k)
stored_byte s start n m p k even lt small = elim (dec_le (k % 2) 0) [
  | yes e ↦ rw (half, word) (ground (arith, small k lt, low e, parity))
  | no o ↦
      rw (half, word)
        (ground (
          arith,
          small k lt,
          small (k - 1) (omega arith),
          high (omega arith),
          before (omega arith),
          parity,
          one,
        ))
]
  where
    half : (start + k) / 2 ≡ start / 2 + k / 2
    half = omega arith

    parity : (start + k) % 2 ≡ k % 2
    parity = omega arith

    word :
        stored s (start / 2) ((n + 1) / 2) m p (start / 2 + k / 2)
        ≡ m (p + 2 * (k / 2)) + 256 * m (p + 2 * (k / 2) + 1)
    word = stored_inside s (start / 2) ((n + 1) / 2) m p (k / 2) (omega arith)

    low : k % 2 ≤ 0 → p + 2 * (k / 2) ≡ p + k
    low e = omega arith

    high : 0 < k % 2 → p + 2 * (k / 2) + 1 ≡ p + k
    high o = omega arith

    before : 0 < k % 2 → p + 2 * (k / 2) ≡ p + (k - 1)
    before o = omega arith

    one : 0 < k % 2 → k % 2 ≡ 1
    one o = omega arith

module _ {A : Type 0} where
  -- What `vl_store` has stored in an open file that begins at an even address and does not reach
  -- over the end of the memory, within its allocation, `vl_load` gives back byte for byte: both
  -- calls return, the store with 0, the load with the length.
  pub vl_load-vl_store :
      (scratch fp len p q : ℕ) (m m1 : Memory) (v : Veelite A) (dw dr : Driver)
      → (v.vlfile fp).write ≡ some dw
      → (v.vlfile fp).read ≡ some dr
      → (v.vlfile fp).start % 2 ≡ 0
      → (v.vlfile fp).start + len + 1 < 2 ^ 16
      → len ≤ (v.vlfile fp).alloc
      → ((k : ℕ) → k < len → m (p + k) < 256)
      → (v' : Veelite A) × (m' : Memory) × (vl_store fp len p m v ≡ some (0, v'))
        × (vl_load scratch fp len q m1 v' ≡ some (len, m'))
        × (bytes m' q len ≡ bytes m p len)
  vl_load-vl_store scratch fp len p q m m1 v dw dr w r even fits room small =
      let l =
        load_whole scratch fp len start q m1 v' dr same_read same_start new_length even
          (omega arith) in
      (
        v',
        l.0,
        vl_store-stored fp len p m v dw w even fits
            ∙ ap (λ n. some (0, after_store fp n (stored v.fsram (start / 2) ((n + 1) / 2) m p) v))
                n_eq,
        l.1,
        bytes_ext l.0 m q p len
            (λ k lt. l.2 k lt ∙ stored_byte v.fsram start len m p k even lt small),
      )
    where
      start : ℕ
      start = (v.vlfile fp).start

      v' : Veelite A
      v' = after_store fp len (stored v.fsram (start / 2) ((len + 1) / 2) m p) v

      n_eq : capped (v.vlfile fp).alloc len ≡ len
      n_eq = ground arith

      same_read : (v'.vlfile fp).read ≡ some dr
      same_read = ground (arith, r)

      same_start : (v'.vlfile fp).start ≡ start
      same_start = ground arith

      new_length : (v'.vlfile fp).length ≡ len
      new_length = ground arith

  -- `vl_store` on an open file at an even address, where the length that is asked for does not reach
  -- over the end of the address space from there, returns 0 and cuts what it stores to the
  -- allocation: no half-word outside the file's allocation is changed.
  pub vl_store_outside :
      (fp len p x : ℕ) (m : Memory) (v : Veelite A) (d : Driver)
      → (v.vlfile fp).write ≡ some d
      → (v.vlfile fp).start % 2 ≡ 0
      → (v.vlfile fp).start + len + 1 < 2 ^ 16
      → (2 * x < (v.vlfile fp).start) ⊎ ((v.vlfile fp).start + (v.vlfile fp).alloc ≤ 2 * x)
      → (v' : Veelite A) × (vl_store fp len p m v ≡ some (0, v'))
        × (v'.fsram x ≡ v.fsram x)
        × ((v'.vlfile fp).length ≤ (v.vlfile fp).alloc)
  vl_store_outside fp len p x m v d w even fits out = (
    after_store fp n (stored v.fsram (start / 2) ((n + 1) / 2) m p) v,
    vl_store-stored fp len p m v d w even fits,
    stored_outside v.fsram (start / 2) ((n + 1) / 2) m p x
        (apart (capped_le (v.vlfile fp).alloc len)),
    ground (arith, capped_le (v.vlfile fp).alloc len),
  )
    where
      start : ℕ
      start = (v.vlfile fp).start

      n : ℕ
      n = capped (v.vlfile fp).alloc len

      apart :
          (n ≤ (v.vlfile fp).alloc) × (n ≤ len) → (x < start / 2) ⊎ (start / 2 + (n + 1) / 2 ≤ x)
      apart le = ground (arith, le.0, out, even)

  -- `vl_execute` on an open file at an even address runs no action: it is `vl_store`.
  vl_execute-vl_store :
      (invoke : ℕ → ℕ → Veelite A → ℕ × Veelite A) (fp len p : ℕ) (m : Memory) (v : Veelite A)
      (d : Driver)
      → (v.vlfile fp).write ≡ some d
      → (v.vlfile fp).start % 2 ≡ 0
      → (v.vlfile fp).start + len + 1 < 2 ^ 16
      → vl_execute invoke fp len p m v ≡ vl_store fp len p m v
  unfolding vl_execute
  vl_execute-vl_store invoke fp len p m v d w even fits =
      rw (vl_execute, vl_store-stored fp len p m v d w even fits) refl
