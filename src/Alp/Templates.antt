-- ===== src/Alp/Templates.antt =====
-- otlib/alp_tmpl.c: values and templates in a queue. The value that a pointer leads to is an
-- argument or a part of the result.
use libotfs.Prelude.{ℕ, Option, none, some, u8, u16_of, s16, shift_by, ◌==◌, if◌then◌else◌}
use libotfs.Prelude.Int.{ℤ, pos}
use libotfs.Memory.{Memory}
use libotfs.Queue.{
  Queue, readbyte, readshort, readlong, writebyte, writeshort, markbyte, readstring, writestring,
  length, offset,
}

unfoldable pub breakdown_u8 : Queue → Memory → ℕ × Queue
unfolding readbyte
breakdown_u8 in_q m = readbyte in_q m

unfoldable pub breakdown_u16 : Queue → Memory → ℕ × Queue
unfolding readshort
breakdown_u16 in_q m = readshort in_q m

unfoldable pub breakdown_u32 : Queue → Memory → ℕ × Queue
unfolding readlong
breakdown_u32 in_q m = readlong in_q m

-- The argument of `q_writebyte` is an `ot_u8`.
unfoldable pub stream_u8 : Queue × Memory → ℕ → Queue × Memory
unfolding writebyte
stream_u8 s data_type = writebyte s data_type

unfoldable pub stream_u16 : Queue × Memory → ℕ → Queue × Memory
unfolding writebyte
stream_u16 s data_type = writebyte s (u8 data_type)

unfoldable pub stream_u32 : Queue × Memory → ℕ → Queue × Memory
unfolding writebyte
stream_u32 s data_type = writebyte s (u8 data_type)

-- A queue on a part of another one: the new `*data_type` and `*in_q`.
unfoldable pub breakdown_queue : Queue → Memory → Queue × Queue
unfolding readshort markbyte offset
breakdown_queue in_q m =
    let (queue_length, q1) = readshort in_q m in
    let (queue_front, q2) = markbyte q1 (s16 (pos queue_length)) in
    (
      record {
        alloc = queue_length;
        options = in_q.options;
        getcursor = queue_front;
        putcursor = queue_front;
        front = queue_front;
        back = shift_by queue_front (s16 (pos queue_length));
      },
      q2,
    )

-- A `NULL` is `none`.
unfoldable pub stream_queue : Queue × Memory → Option Queue → Queue × Memory
unfolding writeshort writestring length
stream_queue s none = s
stream_queue s (some d) =
    let s1 = writeshort (writeshort (writeshort s d.alloc) d.options) (u16_of (length d)) in
    let (n, q, m) = writestring s1.0 s1.1 d.front (length d) in (q, m)

unfoldable pub breakdown_session_tmpl : Queue → Memory → ℕ → ℤ × Queue × Memory
unfolding readstring
breakdown_session_tmpl in_q m data_type = readstring in_q m data_type (pos 6)

unfoldable pub stream_session_tmpl : Queue × Memory → Option ℕ → Queue × Memory
unfolding writestring
stream_session_tmpl s none = s
stream_session_tmpl (q, m) (some data_type) =
    let (n, q', m') = writestring q m data_type (pos 6) in (q', m')

-- `id_tmpl`, its value a pointer.
pub record IdTmpl : Type 0 where
  pub length : ℕ
  pub value : Option ℕ

unfoldable pub breakdown_id_tmpl : Queue → Memory → IdTmpl × Queue
unfolding readbyte markbyte
breakdown_id_tmpl in_q m =
    let (id_length, q1) = readbyte in_q m in
    let (marker, q2) = markbyte q1 (pos id_length) in
    if id_length == 0
    then (record { length = id_length; value = none }, q1)
    else (record { length = id_length; value = some marker }, q2)

-- The pointer of a template with octets leads to them.
unfoldable pub stream_id_tmpl : Queue × Memory → Option (ℕ × ℕ) → Queue × Memory
unfolding writebyte writestring
stream_id_tmpl s none = s
stream_id_tmpl s (some (length, value)) =
    let s1 = writebyte s length in
    let (n, q, m) = writestring s1.0 s1.1 value (pos length) in (q, m)
