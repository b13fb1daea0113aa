-- ===== src/Queue/Strings.antt =====
-- The calls of otlib/queue.c that set a queue up, move its data or copy whole strings.
use libotfs.Prelude.{
  ℕ, ◌+◌, ◌-◌, ◌^◌, ◌≤◌, ◌<◌, ◌≡◌, ◌∙◌, ◌⊎◌, ap, refl, sym, [], ◌++◌, arith, min, none, some,
  s16-sub_ℕ, u16_of-sub_ℕ,
}
use libotfs.Prelude.Int.{pos}
use native.Mathlib.Decide.{dec_le}
use libotfs.Memory.{
  Memory, bytes, bytes-append, ot_memcpy, bytes-ot_memcpy, bytes-ot_memcpy_outside,
  bytes-ot_memcpy_behind,
}
use libotfs.Queue.{Queue, init, start, rewind, writestring, readstring, movedata, writespace}
use libotfs.Queue.Fifo.{IsValid, contents}

contents_empty : (m : Memory) (p n : ℕ) → n ≡ 0 → bytes m p n ≡ []
unfolding bytes
contents_empty m p n e = ap (λ k. bytes m p k) e

-- A fresh queue is valid and empty, and all of its buffer is free.
pub init-IsValid :
    (q : Queue) (buffer alloc : ℕ) (m : Memory)
    → alloc < 2 ^ 15
    → let r = init q buffer alloc in IsValid r × (contents (r, m) ≡ []) × (writespace r ≡ pos alloc)
unfolding init bytes writespace
init-IsValid q buffer alloc m small =
    (omega arith, contents_empty m buffer (buffer - buffer) (omega arith), ground arith)

-- `q_start` empties the queue, and refuses an offset past the allocation; else both cursors stand
-- at the offset.
pub start_lem :
    (q : Queue) (n options : ℕ) (m : Memory)
    → q.alloc < 2 ^ 15
    → let (p, r) = start q n options in
      IsValid r
      × (contents (r, m) ≡ [])
      × ((q.alloc ≤ n) × (p ≡ none) × (r.putcursor ≡ q.front)
          ⊎ (n < q.alloc)
            × (p ≡ some (q.front + n))
            × (r.putcursor ≡ q.front + n)
            × (r.options ≡ options))
unfolding start bytes
start_lem q n options m small = elim (dec_le q.alloc n) [
  | yes over ↦ ground (arith, contents_empty m q.front (q.front - q.front))
  | no fits ↦ ground (arith, contents_empty m (q.front + n) (q.front + n - (q.front + n)))
]

-- What `q_rewind` does once the read cursor has left the front.
rewind_moves :
    {q : Queue} (m : Memory)
    → IsValid q
    → q.front < q.getcursor
    → rewind q m ≡ (
      record q { putcursor = q.putcursor - (q.getcursor - q.front); getcursor = q.front },
      ot_memcpy m q.front q.getcursor (q.putcursor - q.getcursor),
    )
unfolding rewind
rewind_moves {q} m v moved =
    rw
      (
        s16-sub_ℕ q.getcursor q.front (omega arith) (omega arith),
        u16_of-sub_ℕ q.putcursor q.getcursor (omega arith) (omega arith),
      )
      (ground arith)

rewind_stays : {q : Queue} (m : Memory) → q.getcursor ≡ q.front → rewind q m ≡ (q, m)
unfolding rewind
rewind_stays {q} m e = ground arith

-- `q_rewind` keeps what is unread, moves it to the front and leaves the end of the buffer, if the
-- unread bytes do not overlap their new place.
pub rewind_lem :
    {q : Queue} (m : Memory)
    → IsValid q
    → q.putcursor + q.front ≤ q.getcursor + q.getcursor
    → let (r, m') = rewind q m in
      IsValid r × (contents (r, m') ≡ contents (q, m)) × (r.getcursor ≡ q.front) × (r.back ≡ q.back)
rewind_lem {q} m v apart = elim (dec_le q.getcursor q.front) [
  | yes stays ↦ rw (rewind_stays {q = q} m (omega arith)) (v, refl, omega arith, refl)
  | no moved ↦ rw (rewind_moves m v (omega arith)) (
    omega arith,
    ap (λ n. bytes (ot_memcpy m q.front q.getcursor (q.putcursor - q.getcursor)) q.front n)
          (omega arith)
        ∙ bytes-ot_memcpy m q.front q.getcursor (q.putcursor - q.getcursor),
    refl,
    refl,
  )
]

-- What `q_writestring` and `q_readstring` do with a positive length.
writestring_pos :
    {q : Queue} (m : Memory) (string n : ℕ)
    → IsValid q
    → 0 < n
    → n < 2 ^ 15
    → let k = min n (q.back - q.putcursor) in
      writestring q m string (pos n)
      ≡ (pos k, record q { putcursor = q.putcursor + k }, ot_memcpy m q.putcursor string k)
unfolding writestring
writestring_pos {q} m string n v some_bytes fits =
    rw (s16-sub_ℕ q.back q.putcursor (omega arith) (omega arith)) (ground arith)

readstring_pos :
    {q : Queue} (m : Memory) (string n : ℕ)
    → IsValid q
    → 0 < n
    → n < 2 ^ 15
    → let k = min n (q.back - q.getcursor) in
      readstring q m string (pos n)
      ≡ (pos k, record q { getcursor = q.getcursor + k }, ot_memcpy m string q.getcursor k)
unfolding readstring
readstring_pos {q} m string n v some_bytes fits =
    rw (s16-sub_ℕ q.back q.getcursor (omega arith) (omega arith)) (ground arith)

-- `q_writestring` with a length of `n` writes as many bytes of the string as fit before the back,
-- appends exactly those to what is unread and returns their number.
pub writestring_lem :
    {q : Queue} (m : Memory) (string n : ℕ)
    → IsValid q
    → 0 < n
    → n < 2 ^ 15
    → (string + n ≤ q.getcursor) ⊎ (q.back ≤ string)
    → let k = min n (q.back - q.putcursor) in
      let (c, r, m') = writestring q m string (pos n) in
      (c ≡ pos k)
      × IsValid r
      × (r.putcursor ≡ q.putcursor + k)
      × (contents (r, m') ≡ contents (q, m) ++ bytes m string k)
writestring_lem {q} m string n v some_bytes fits apart =
    rw (writestring_pos m string n v some_bytes fits) (
      refl,
      omega arith,
      refl,
      bytes-ot_memcpy_behind m q.getcursor q.putcursor string (min n (q.back - q.putcursor))
          v.get_le,
    )

-- `q_readstring` with a length of `n` copies as many bytes as lie between the read cursor and the
-- back, and advances the read cursor by their number, which it returns.
pub readstring_lem :
    {q : Queue} (m : Memory) (string n : ℕ)
    → IsValid q
    → 0 < n
    → n < 2 ^ 15
    → (string + n ≤ q.getcursor) ⊎ (q.back ≤ string)
    → let k = min n (q.back - q.getcursor) in
      let (c, r, m') = readstring q m string (pos n) in
      (c ≡ pos k) × (r.getcursor ≡ q.getcursor + k) × (bytes m' string k ≡ bytes m q.getcursor k)
readstring_lem {q} m string n v some_bytes fits apart =
    rw (readstring_pos m string n v some_bytes fits)
      (refl, refl, bytes-ot_memcpy m string q.getcursor (min n (q.back - q.getcursor)))

-- `q_movedata` where the data or the room is short: it moves nothing, and returns by how much, a
-- positive number.
movedata_short :
    {qdst qsrc : Queue} (m : Memory) (n : ℕ)
    → IsValid qdst
    → IsValid qsrc
    → n < 2 ^ 15
    → min (qdst.back - qdst.putcursor) (qsrc.back - qsrc.getcursor) < n
    → movedata qdst qsrc m (pos n)
      ≡ (pos (n - min (qdst.back - qdst.putcursor) (qsrc.back - qsrc.getcursor)), qdst, qsrc, m)
unfolding movedata
movedata_short {qdst} {qsrc} m n vd vs fits short =
    rw
      (
        s16-sub_ℕ qdst.back qdst.putcursor (omega arith) (omega arith),
        s16-sub_ℕ qsrc.back qsrc.getcursor (omega arith) (omega arith),
      )
      (ground arith)

movedata_pos :
    {qdst qsrc : Queue} (m : Memory) (n : ℕ)
    → IsValid qdst
    → IsValid qsrc
    → 0 < n
    → n < 2 ^ 15
    → n ≤ qdst.back - qdst.putcursor
    → n ≤ qsrc.back - qsrc.getcursor
    → movedata qdst qsrc m (pos n) ≡ (
      pos n,
      record qdst { putcursor = qdst.putcursor + n },
      record qsrc { getcursor = qsrc.getcursor + n },
      ot_memcpy m qdst.putcursor qsrc.getcursor n,
    )
unfolding movedata
movedata_pos {qdst} {qsrc} m n vd vs some_bytes fits room enough =
    rw
      (
        s16-sub_ℕ qdst.back qdst.putcursor (omega arith) (omega arith),
        s16-sub_ℕ qsrc.back qsrc.getcursor (omega arith) (omega arith),
      )
      (ground arith)

-- A region falls into its first `n` bytes and the rest.
bytes_split :
    (m : Memory) (start end n : ℕ)
    → n ≤ end - start
    → bytes m start (end - start) ≡ bytes m start n ++ bytes m (start + n) (end - (start + n))
bytes_split m start end n le =
    ap (bytes m start) the_length ∙ bytes-append m start n (end - (start + n))
  where
    the_length : end - start ≡ n + (end - (start + n))
    the_length = omega arith

-- `q_movedata` of `n` bytes that are unread in the source and have room in the destination, a buffer
-- apart, moves them from the front of the one to the end of the other and returns `n`.
movedata_full :
    {qdst qsrc : Queue} (m : Memory) (n : ℕ)
    → IsValid qdst
    → IsValid qsrc
    → 0 < n
    → n < 2 ^ 15
    → n ≤ qdst.back - qdst.putcursor
    → n ≤ qsrc.putcursor - qsrc.getcursor
    → (qdst.back ≤ qsrc.front) ⊎ (qsrc.back ≤ qdst.front)
    → let (c, d, s, m') = movedata qdst qsrc m (pos n) in
      (c ≡ pos n)
      × IsValid d
      × IsValid s
      × (contents (d, m') ≡ contents (qdst, m) ++ bytes m qsrc.getcursor n)
      × (contents (qsrc, m) ≡ bytes m qsrc.getcursor n ++ contents (s, m'))
movedata_full {qdst} {qsrc} m n vd vs some_bytes fits room enough apart =
    rw (movedata_pos m n vd vs some_bytes fits room (omega arith)) (
      refl,
      omega arith,
      omega arith,
      bytes-ot_memcpy_behind m qdst.getcursor qdst.putcursor qsrc.getcursor n vd.get_le,
      bytes_split m qsrc.getcursor qsrc.putcursor n enough
          ∙ ap (λ l. bytes m qsrc.getcursor n ++ l) (sym unmoved),
    )
  where
    unmoved :
        bytes
          (ot_memcpy m qdst.putcursor qsrc.getcursor n)
          (qsrc.getcursor + n)
          (qsrc.putcursor - (qsrc.getcursor + n))
        ≡ bytes m (qsrc.getcursor + n) (qsrc.putcursor - (qsrc.getcursor + n))
    unmoved =
        bytes-ot_memcpy_outside m qdst.putcursor qsrc.getcursor n (qsrc.getcursor + n)
          (qsrc.putcursor - (qsrc.getcursor + n)) (ground arith)
