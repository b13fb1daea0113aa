-- ===== src/Alp/Identity.antt =====
-- otlib/alp_tmpl.c: a user's template goes through a queue unchanged.
use libotfs.Prelude.{ℕ, ◌+◌, ◌-◌, ◌^◌, ◌≤◌, ◌<◌, ◌≡◌, ◌∙◌, ◌⊎◌, some, arith, s16-sub_ℕ}
use libotfs.Prelude.Int.{pos}
use libotfs.Memory.{Memory, store, ot_memcpy, bytes, bytes-store, bytes-ot_memcpy}
use libotfs.Queue.{Queue, writebyte, writestring, writespace, readbyte, markbyte}
use libotfs.Alp.Templates.{stream_id_tmpl, breakdown_id_tmpl}

fits_string :
    (q : Queue) (m : Memory) (string n : ℕ)
    → 0 < n
    → q.putcursor + n ≤ q.back
    → q.back - q.putcursor < 2 ^ 15
    → writestring q m string (pos n)
      ≡ (pos n, record q { putcursor = q.putcursor + n }, ot_memcpy m q.putcursor string n)
unfolding writestring writespace
fits_string q m string n some_octet fits small =
    rw (writestring, s16-sub_ℕ q.back q.putcursor (omega arith) small) (ground arith)

read_template :
    (in_q : Queue) (m : Memory) (p n : ℕ)
    → 0 < n
    → in_q.getcursor ≡ p
    → m p ≡ n
    → let (t, in_q') = breakdown_id_tmpl in_q m in
      (t.length ≡ n) × (t.value ≡ some (p + 1)) × (in_q'.getcursor ≡ p + 1 + n)
unfolding breakdown_id_tmpl readbyte markbyte
read_template in_q m p n some_octet here e = ground (arith, here, e)

-- A template with some octets, which lie apart from the room that they are written to, and a queue
-- with room for its length and all its octets, less than 2^15 in all: what `alp_stream_id_tmpl`
-- puts in that queue, `alp_breakdown_id_tmpl` on a queue that reads from there
-- takes for a template of the same length whose pointer leads to the same octets, and reads to the
-- end of what was put.
pub breakdown_id_tmpl-stream_id_tmpl :
    (q in_q : Queue) (m : Memory) (length value : ℕ)
    → 0 < length
    → q.putcursor + 1 + length ≤ q.back
    → q.back - q.putcursor < 2 ^ 15
    → (value + length ≤ q.putcursor) ⊎ (q.putcursor + 1 + length ≤ value)
    → in_q.getcursor ≡ q.putcursor
    → let (q', m') = stream_id_tmpl (q, m) (some (length, value)) in
      let (t, in_q') = breakdown_id_tmpl in_q m' in
      (t.length ≡ length)
      × (t.value ≡ some (q.putcursor + 1))
      × (bytes m' (q.putcursor + 1) length ≡ bytes m value length)
      × (in_q'.getcursor ≡ q'.putcursor)
unfolding stream_id_tmpl writebyte
breakdown_id_tmpl-stream_id_tmpl q in_q m length value some_octet fits small apart here =
    let r =
      read_template in_q (ot_memcpy m1 (q.putcursor + 1) value length) q.putcursor length some_octet
        here the_length in
    rw (fits_string q1 m1 value length some_octet fits (omega arith)) (
      r.0,
      r.1,
      bytes-ot_memcpy m1 (q.putcursor + 1) value length
          ∙ bytes-store m value length q.putcursor length (ground arith),
      r.2,
    )
  where
    q1 : Queue
    q1 = record q { putcursor = q.putcursor + 1 }

    m1 : Memory
    m1 = store m q.putcursor length

    the_length : ot_memcpy m1 (q.putcursor + 1) value length q.putcursor ≡ length
    the_length = ground arith
