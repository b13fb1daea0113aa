-- ===== src/Queue.antt =====
-- The queues of otlib/queue.c: a window on a buffer with a read and a write cursor. A function that
-- changes `*q` returns the new queue, one that writes through a cursor the new memory too. Pointers
-- are addresses. The build is the little-endian one without unaligned access (UPPER = 1, _B3 = 3).
pub mod Fifo
pub mod Refine
pub mod Strings
pub mod Words
use libotfs.Prelude.{
  ℕ, ◌+◌, ◌-◌, ◌*◌, Option, none, some, List, [], ◌∷◌, byte, s16, u16_of, shift_by, ◌==◌, leb,
  if◌then◌else◌,
}
use libotfs.Prelude.Int.{ℤ, pos, sub_ℕ, ◌-ℤ◌, ltb_ℤ}
use libotfs.Memory.{Memory, store, ot_memcpy}

-- `ot_queue`
pub record Queue : Type 0 where
  pub alloc : ℕ
  pub options : ℕ
  pub getcursor : ℕ
  pub putcursor : ℕ
  pub front : ℕ
  pub back : ℕ

-- `q_empty`
unfoldable pub empty : Queue → Queue
empty q = record q {
  options = 0;
  back = q.front + q.alloc;
  putcursor = q.front;
  getcursor = q.front;
}

unfoldable pub init : Queue → ℕ → ℕ → Queue
unfolding empty
init q buffer alloc = empty (record q { alloc = alloc; front = buffer; back = buffer + alloc })

unfoldable pub rebase : Queue → ℕ → Queue
rebase q buffer = record q { front = buffer; getcursor = buffer; putcursor = buffer; back = buffer }

-- `q_copy(q1, q2)`: the new `*q1`.
unfoldable pub copy : Queue → Queue → Queue
copy q1 q2 = q2

-- `q_getcursor_val` and its kin
unfoldable pub getcursor_val : Queue → Memory → ℤ → ℕ
getcursor_val q m offset = m (shift_by q.getcursor offset)

unfoldable pub getcursor_insert : Queue → Memory → ℤ → ℕ → Memory
getcursor_insert q m offset v = store m (shift_by q.getcursor offset) v

unfoldable pub putcursor_val : Queue → Memory → ℤ → ℕ
putcursor_val q m offset = m (shift_by q.putcursor offset)

unfoldable pub putcursor_insert : Queue → Memory → ℤ → ℕ → Memory
putcursor_insert q m offset v = store m (shift_by q.putcursor offset) v

unfoldable pub offset : Queue → ℤ → ℕ
offset q z = shift_by q.front z

-- Differences of pointers, cut to `ot_int`.
unfoldable pub length : Queue → ℤ
length q = s16 (sub_ℕ q.putcursor q.front)

unfoldable pub span : Queue → ℤ
span q = s16 (sub_ℕ q.putcursor q.getcursor)

unfoldable pub writespace : Queue → ℤ
writespace q = s16 (sub_ℕ q.back q.putcursor)

unfoldable pub readspace : Queue → ℤ
readspace q = s16 (sub_ℕ q.back q.getcursor)

unfoldable pub blocktime : Queue → ℕ
blocktime q = q.options

unfoldable pub blockwrite : Queue → ℕ → Queue
blockwrite q t = record q { options = t }

-- `q_lock` polls the options word. The list holds what other threads leave there during each delay;
-- `none` is a call that still waits when the list ends.
unfoldable pub lock : Queue → List ℕ → Option Queue
lock q [] = if q.options == 0 then some (record q { options = 1 }) else none
lock q (v ∷ vs) =
    let rest = lock (record q { options = v }) vs in
    if q.options == 0 then some (record q { options = 1 }) else rest

unfoldable pub unlock : Queue → Queue
unlock q = record q { options = 0 }

unfoldable pub rewind : Queue → Memory → Queue × Memory
rewind q m =
    let dist = s16 (sub_ℕ q.getcursor q.front) in
    if ltb_ℤ (pos 0) dist
    then (
      record q { putcursor = q.putcursor - u16_of dist; getcursor = q.front },
      ot_memcpy m q.front q.getcursor (u16_of (sub_ℕ q.putcursor q.getcursor)),
    )
    else (q, m)

-- The pointer that `q_start` returns is `none` for `NULL`.
unfoldable pub start : Queue → ℕ → ℕ → Option ℕ × Queue
unfolding empty
start q offset options =
    let e = empty q in
    if leb e.alloc offset then (none, e) else (
      some (e.getcursor + offset),
      record e {
        options = options;
        putcursor = e.putcursor + offset;
        getcursor = e.getcursor + offset;
      },
    )

unfoldable pub markbyte : Queue → ℤ → ℕ × Queue
markbyte q shift = (q.getcursor, record q { getcursor = shift_by q.getcursor shift })

-- `*q->putcursor++ = byte_in`
unfoldable pub writebyte : Queue × Memory → ℕ → Queue × Memory
writebyte (q, m) byte_in = (record q { putcursor = q.putcursor + 1 }, store m q.putcursor byte_in)

unfoldable pub writeshort : Queue × Memory → ℕ → Queue × Memory
unfolding writebyte
writeshort s short_in = writebyte (writebyte s (byte 1 short_in)) (byte 0 short_in)

unfoldable pub writeshort_be : Queue × Memory → ℕ → Queue × Memory
unfolding writebyte
writeshort_be s short_in = writebyte (writebyte s (byte 0 short_in)) (byte 1 short_in)

unfoldable pub writelong : Queue × Memory → ℕ → Queue × Memory
unfolding writebyte
writelong s long_in =
    writebyte
      (writebyte (writebyte (writebyte s (byte 3 long_in)) (byte 2 long_in)) (byte 1 long_in))
      (byte 0 long_in)

unfoldable pub writelong_be : Queue × Memory → ℕ → Queue × Memory
unfolding writebyte
writelong_be s long_in =
    writebyte
      (writebyte (writebyte (writebyte s (byte 0 long_in)) (byte 1 long_in)) (byte 2 long_in))
      (byte 3 long_in)

-- `*q->getcursor++`
unfoldable pub readbyte : Queue → Memory → ℕ × Queue
readbyte q m = (m q.getcursor, record q { getcursor = q.getcursor + 1 })

unfoldable pub readshort : Queue → Memory → ℕ × Queue
unfolding readbyte
readshort q m =
    let (upper, q1) = readbyte q m in let (lower, q2) = readbyte q1 m in (lower + 256 * upper, q2)

unfoldable pub readshort_be : Queue → Memory → ℕ × Queue
unfolding readbyte
readshort_be q m =
    let (b0, q1) = readbyte q m in let (b1, q2) = readbyte q1 m in (b0 + 256 * b1, q2)

unfoldable pub readlong : Queue → Memory → ℕ × Queue
unfolding readbyte
readlong q m =
    let (b3, q1) = readbyte q m in
    let (b2, q2) = readbyte q1 m in
    let (b1, q3) = readbyte q2 m in
    let (b0, q4) = readbyte q3 m in (b0 + 256 * b1 + 65536 * b2 + 16777216 * b3, q4)

unfoldable pub readlong_be : Queue → Memory → ℕ × Queue
unfolding readbyte
readlong_be q m =
    let (b0, q1) = readbyte q m in
    let (b1, q2) = readbyte q1 m in
    let (b2, q3) = readbyte q2 m in
    let (b3, q4) = readbyte q3 m in (b0 + 256 * b1 + 65536 * b2 + 16777216 * b3, q4)

-- `if (limit < length) length = limit;`
abbrev pub clip : ℤ → ℤ → ℤ
clip limit length = if ltb_ℤ limit length then limit else length

unfoldable pub writestring : Queue → Memory → ℕ → ℤ → ℤ × Queue × Memory
unfolding writespace
writestring q m string length =
    if ltb_ℤ (pos 0) length
    then (let n = clip (writespace q) length in
        (
          n,
          record q { putcursor = shift_by q.putcursor n },
          ot_memcpy m q.putcursor string (u16_of n),
        ))
    else (pos 0, q, m)

unfoldable pub readstring : Queue → Memory → ℕ → ℤ → ℤ × Queue × Memory
unfolding readspace
readstring q m string length =
    if ltb_ℤ (pos 0) length
    then (let n = clip (readspace q) length in
        (
          n,
          record q { getcursor = shift_by q.getcursor n },
          ot_memcpy m string q.getcursor (u16_of n),
        ))
    else (pos 0, q, m)

-- The new `*qdst` and `*qsrc` stand behind the result.
unfoldable pub movedata : Queue → Queue → Memory → ℤ → ℤ × Queue × Queue × Memory
unfolding writespace readspace ◌-ℤ◌
movedata qdst qsrc m length =
    if ltb_ℤ (pos 0) length
    then (let limit =
          if ltb_ℤ (writespace qdst) (readspace qsrc) then writespace qdst else readspace qsrc in
        if ltb_ℤ limit length then (s16 (length -ℤ limit), qdst, qsrc, m) else (
          length,
          record qdst { putcursor = shift_by qdst.putcursor length },
          record qsrc { getcursor = shift_by qsrc.getcursor length },
          ot_memcpy m qdst.putcursor qsrc.getcursor (u16_of length),
        ))
    else (pos 0, qdst, qsrc, m)
