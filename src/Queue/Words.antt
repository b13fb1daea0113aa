-- ===== src/Queue/Words.antt =====
-- platform/c2000/otlib_queue.c: the queues of a machine whose smallest word has 16 bits, two octets
-- to a word. The octet `__byte(front, n)` is octet `n` behind the word `front`, at `2 * front + n`
-- of the octets. Cursors are counts of octets from the front, in 16 bits.
pub mod Same
use libotfs.Prelude.{
  ℕ, zero, suc, ◌+◌, ◌*◌, ◌/◌, ◌^◌, Option, none, some, byte, s16, u8, u16, u16_of, leb,
  if◌then◌else◌,
}
use libotfs.Prelude.Int.{ℤ, pos, pos_part, sub_ℕ, ◌+ℤ◌, ◌-ℤ◌, ltb_ℤ}
use libotfs.Memory.{Memory, store}
use libotfs.Queue.{Queue, clip}

-- `__byte((int*)q->front, n)`
abbrev pub place : Queue → ℕ → ℕ
place q n = 2 * q.front + n

unfoldable pub q_empty : Queue → Queue
q_empty q = record q { options = 0; back = q.alloc; putcursor = 0; getcursor = 0 }

unfoldable pub q_init : Queue → ℕ → ℕ → Queue
unfolding q_empty
q_init q buffer alloc = q_empty (record q { alloc = alloc; front = buffer; back = alloc })

unfoldable pub q_rebase : Queue → ℕ → Queue
q_rebase q buffer = record q { front = buffer; getcursor = 0; putcursor = 0; back = 0 }

unfoldable pub q_copy : Queue → Queue → Queue
q_copy q1 q2 = q2

-- The cursor and an `ot_int`.
abbrev pub moved : ℕ → ℤ → ℕ
moved cursor offset = u16_of (pos cursor +ℤ offset)

unfoldable pub q_getcursor_val : Queue → Memory → ℤ → ℕ
unfolding ◌+ℤ◌
q_getcursor_val q m offset = m (place q (moved q.getcursor offset))

unfoldable pub q_getcursor_insert : Queue → Memory → ℤ → ℕ → Memory
unfolding ◌+ℤ◌
q_getcursor_insert q m offset v = store m (place q (moved q.getcursor offset)) (u8 v)

-- This reads at the other cursor, as the source does.
unfoldable pub q_putcursor_val : Queue → Memory → ℤ → ℕ
unfolding ◌+ℤ◌
q_putcursor_val q m offset = m (place q (moved q.getcursor offset))

unfoldable pub q_putcursor_insert : Queue → Memory → ℤ → ℕ → Memory
unfolding ◌+ℤ◌
q_putcursor_insert q m offset v = store m (place q (moved q.putcursor offset)) (u8 v)

unfoldable pub q_offset : Queue → ℤ → ℕ
q_offset q z = u16_of z

unfoldable pub q_length : Queue → ℤ
q_length q = s16 (pos q.putcursor)

unfoldable pub q_span : Queue → ℤ
q_span q = s16 (sub_ℕ q.putcursor q.getcursor)

unfoldable pub q_writespace : Queue → ℤ
q_writespace q = s16 (sub_ℕ q.back q.putcursor)

unfoldable pub q_readspace : Queue → ℤ
q_readspace q = s16 (sub_ℕ q.back q.getcursor)

-- Locks do nothing on this platform.
unfoldable pub q_blocktime : Queue → ℕ
q_blocktime q = 0

unfoldable pub q_blockwrite : Queue → ℕ → Queue
q_blockwrite q t = q

unfoldable pub q_lock : Queue → Queue
q_lock q = q

unfoldable pub q_unlock : Queue → Queue
q_unlock q = q

unfoldable pub q_writebyte : Queue × Memory → ℕ → Queue × Memory
q_writebyte (q, m) byte_in =
    (record q { putcursor = u16 (q.putcursor + 1) }, store m (place q q.putcursor) (u8 byte_in))

unfoldable pub q_readbyte : Queue → Memory → ℕ × Queue
q_readbyte q m = (m (place q q.getcursor), record q { getcursor = u16 (q.getcursor + 1) })

-- The loop of `q_rewind`: a byte is read and written, `span` times.
unfoldable pub rewind_loop : ℕ → Queue → Memory → Queue × Memory
unfolding q_readbyte q_writebyte
rewind_loop zero q m = (q, m)
rewind_loop (suc span) q m =
    let (b, q1) = q_readbyte q m in let (q2, m') = q_writebyte (q1, m) b in rewind_loop span q2 m'

unfoldable pub q_rewind : Queue → Memory → Queue × Memory
unfolding q_span
q_rewind q m =
    let (q1, m') = rewind_loop (pos_part (q_span q)) (record q { putcursor = 0 }) m in
    if ltb_ℤ (pos 0) (q_span q) then (record q1 { getcursor = 0 }, m') else (q, m)

-- The result is the word at the offset.
unfoldable pub q_start : Queue → ℕ → ℕ → Option ℕ × Queue
unfolding q_empty
q_start q offset options =
    let e = q_empty q in
    if leb e.alloc offset then (none, e) else (
      some (e.front + offset / 2),
      record e {
        options = options;
        putcursor = u16 (e.putcursor + offset);
        getcursor = u16 (e.getcursor + offset);
      },
    )

unfoldable pub q_markbyte : Queue → ℤ → ℕ × Queue
unfolding ◌+ℤ◌
q_markbyte q shift = (q.getcursor, record q { getcursor = moved q.getcursor shift })

unfoldable pub q_writeshort : Queue × Memory → ℕ → Queue × Memory
q_writeshort s short_in = q_writebyte (q_writebyte s (short_in / 256)) (byte 0 short_in)

unfoldable pub q_writeshort_be : Queue × Memory → ℕ → Queue × Memory
q_writeshort_be s short_in = q_writebyte (q_writebyte s (byte 0 short_in)) (short_in / 256)

unfoldable pub q_writelong : Queue × Memory → ℕ → Queue × Memory
q_writelong s long_in =
    q_writebyte
      (q_writebyte (q_writebyte (q_writebyte s (long_in / 256 ^ 3)) (byte 2 long_in))
        (byte 1 long_in))
      (byte 0 long_in)

unfoldable pub q_writelong_be : Queue × Memory → ℕ → Queue × Memory
q_writelong_be s long_in =
    q_writebyte
      (q_writebyte (q_writebyte (q_writebyte s (byte 0 long_in)) (byte 1 long_in)) (byte 2 long_in))
      (long_in / 256 ^ 3)

unfoldable pub q_readshort : Queue → Memory → ℕ × Queue
q_readshort q m =
    let (upper, q1) = q_readbyte q m in
    let (lower, q2) = q_readbyte q1 m in (lower + 256 * upper, q2)

unfoldable pub q_readshort_be : Queue → Memory → ℕ × Queue
q_readshort_be q m =
    let (b0, q1) = q_readbyte q m in let (b1, q2) = q_readbyte q1 m in (b0 + 256 * b1, q2)

unfoldable pub q_readlong : Queue → Memory → ℕ × Queue
q_readlong q m =
    let (b3, q1) = q_readbyte q m in
    let (b2, q2) = q_readbyte q1 m in
    let (b1, q3) = q_readbyte q2 m in
    let (b0, q4) = q_readbyte q3 m in (b0 + 256 * b1 + 65536 * b2 + 16777216 * b3, q4)

unfoldable pub q_readlong_be : Queue → Memory → ℕ × Queue
q_readlong_be q m =
    let (b0, q1) = q_readbyte q m in
    let (b1, q2) = q_readbyte q1 m in
    let (b2, q3) = q_readbyte q2 m in
    let (b3, q4) = q_readbyte q3 m in (b0 + 256 * b1 + 65536 * b2 + 16777216 * b3, q4)

-- The loops over a packed string, whose octet `i` is at `2 * string + i`.
unfoldable pub string_write_loop : ℕ → ℕ → Queue × Memory → Queue × Memory
string_write_loop zero p s = s
string_write_loop (suc n) p (q, m) = string_write_loop n (p + 1) (q_writebyte (q, m) (m p))

unfoldable pub string_read_loop : ℕ → ℕ → Queue → Memory → Queue × Memory
string_read_loop zero p q m = (q, m)
string_read_loop (suc n) p q m =
    let (b, q') = q_readbyte q m in string_read_loop n (p + 1) q' (store m p (u8 b))

unfoldable pub q_writestring : Queue → Memory → ℕ → ℤ → ℤ × Queue × Memory
unfolding q_writespace
q_writestring q m string length =
    let n = clip (q_writespace q) length in
    let (q', m') = string_write_loop (pos_part n) (2 * string) (q, m) in
    if ltb_ℤ (pos 0) length then (n, q', m') else (pos 0, q, m)

unfoldable pub q_readstring : Queue → Memory → ℕ → ℤ → ℤ × Queue × Memory
unfolding q_readspace
q_readstring q m string length =
    let n = clip (q_readspace q) length in
    let (q', m') = string_read_loop (pos_part n) (2 * string) q m in
    if ltb_ℤ (pos 0) length then (n, q', m') else (pos 0, q, m)

-- The loop of `q_movedata`, over both queues.
unfoldable pub move_loop : ℕ → Queue → Queue → Memory → Queue × Queue × Memory
move_loop zero qdst qsrc m = (qdst, qsrc, m)
move_loop (suc n) qdst qsrc m =
    let (b, qsrc') = q_readbyte qsrc m in
    let (qdst', m') = q_writebyte (qdst, m) b in move_loop n qdst' qsrc' m'

unfoldable pub q_movedata : Queue → Queue → Memory → ℤ → ℤ × Queue × Queue × Memory
unfolding q_writespace q_readspace ◌-ℤ◌
q_movedata qdst qsrc m length =
    let limit =
      if ltb_ℤ (q_writespace qdst) (q_readspace qsrc)
      then q_writespace qdst
      else q_readspace qsrc in
    let (qdst', qsrc', m') = move_loop (pos_part length) qdst qsrc m in
    if ltb_ℤ (pos 0) length
    then (if ltb_ℤ limit length
        then (s16 (length -ℤ limit), qdst, qsrc, m)
        else (length, qdst', qsrc', m'))
    else (pos 0, qdst, qsrc, m)
