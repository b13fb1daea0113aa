-- ===== src/Queue/Words/Same.antt =====
-- The queues of platform/c2000/otlib_queue.c do what those of otlib/queue.c do, as long as the
-- cursors fit in 16 bits.
use libotfs.Prelude.{
  ℕ, suc, ◌+◌, ◌*◌, ◌/◌, ◌^◌, ◌<◌, ◌≡◌, ◌∙◌, refl, ap, List, [], ◌∷◌, byte, u8, arith,
}
use libotfs.Memory.{Memory}
use libotfs.Queue
use libotfs.Queue.{Queue}
use libotfs.Queue.Fifo.{
  Form, one, two, four, two_be, four_be, Op, write, read, write_form, read_form,
}
use libotfs.Queue.Fifo
use libotfs.Queue.Words.{
  q_writebyte, q_writeshort, q_writeshort_be, q_writelong, q_writelong_be, q_readbyte, q_readshort,
  q_readshort_be, q_readlong, q_readlong_be,
}

-- The same queue with addresses for its cursors.
abbrev pub view : Queue → Queue
view q = record q {
  getcursor = 2 * q.front + q.getcursor;
  putcursor = 2 * q.front + q.putcursor;
  front = 2 * q.front;
  back = 2 * q.front + q.back;
}

abbrev pub view_both : Queue × Memory → Queue × Memory
view_both (q, m) = (view q, m)

-- The calls by their form.
unfoldable pub write_words : Form → Queue × Memory → ℕ → Queue × Memory
write_words one = q_writebyte
write_words two = q_writeshort
write_words four = q_writelong
write_words two_be = q_writeshort_be
write_words four_be = q_writelong_be

unfoldable pub read_words : Form → Queue → Memory → ℕ × Queue
read_words one = q_readbyte
read_words two = q_readshort
read_words four = q_readlong
read_words two_be = q_readshort_be
read_words four_be = q_readlong_be

unfoldable pub run_words : Queue × Memory → List Op → List ℕ
run_words s [] = []
run_words s (write f w ∷ ops) = run_words (write_words f s w) ops
run_words (q, m) (read f ∷ ops) = let (v, q') = read_words f q m in v ∷ run_words (q', m) ops

-- The octets of a form, and of all calls.
abbrev size : Form → ℕ
size one = 1
size two = 2
size four = 4
size two_be = 2
size four_be = 4

abbrev pub octets : List Op → ℕ
octets [] = 0
octets (write f w ∷ ops) = size f + octets ops
octets (read f ∷ ops) = size f + octets ops

-- The values that `q_writebyte` is given are octets.
abbrev pub AreBytes : List Op → Type 0
AreBytes [] = Unit {0}
AreBytes (write one w ∷ ops) = (w < 256) × AreBytes ops
AreBytes (_ ∷ ops) = AreBytes ops

abbrev Fits : Queue → ℕ → Type 0
Fits q n = (q.getcursor + n < 2 ^ 16) × (q.putcursor + n < 2 ^ 16)

writebyte-view :
    (s : Queue × Memory) (v w n : ℕ)
    → Fits s.0 (suc n)
    → u8 v ≡ w
    → Fits (q_writebyte s v).0 n × (view_both (q_writebyte s v) ≡ Queue.writebyte (view_both s) w)
unfolding q_writebyte Queue.writebyte
writebyte-view (q, m) v w n fits e = ((omega arith, omega arith), ground (arith, e, fits.1))

-- One after another.
both :
    (s : Queue × Memory) (a b c d n : ℕ)
    → Fits s.0 (suc (suc n))
    → u8 a ≡ c
    → u8 b ≡ d
    → Fits (q_writebyte (q_writebyte s a) b).0 n
      × (view_both (q_writebyte (q_writebyte s a) b)
          ≡ Queue.writebyte (Queue.writebyte (view_both s) c) d)
both s a b c d n fits ea eb =
    let (fit1, e1) = writebyte-view s a c (suc n) fits ea in
    let (fit2, e2) = writebyte-view (q_writebyte s a) b d n fit1 eb in
    (fit2, e2 ∙ ap (λ x. Queue.writebyte x d) e1)

write-view :
    (f : Form) (s : Queue × Memory) (w n : ℕ)
    → Fits s.0 (size f + n)
    → AreBytes (write f w ∷ [])
    → Fits (write_words f s w).0 n × (view_both (write_words f s w) ≡ write_form f (view_both s) w)
unfolding write_words write_form q_writeshort q_writeshort_be q_writelong q_writelong_be
    Queue.writeshort Queue.writeshort_be Queue.writelong Queue.writelong_be
write-view one s w n fits bytes =
    writebyte-view s w w n (omega (arith, fits.0), omega (arith, fits.1)) (omega (arith, bytes.0))
write-view two s w n fits bytes =
    both s (w / 256) (byte 0 w) (byte 1 w) (byte 0 w) n
      (omega (arith, fits.0), omega (arith, fits.1)) (omega arith) (omega arith)
write-view two_be s w n fits bytes =
    both s (byte 0 w) (w / 256) (byte 0 w) (byte 1 w) n
      (omega (arith, fits.0), omega (arith, fits.1)) (omega arith) (omega arith)
write-view four s w n fits bytes =
    let s2 = q_writebyte (q_writebyte s (w / 256 ^ 3)) (byte 2 w) in
    let (fit, e) =
      both s (w / 256 ^ 3) (byte 2 w) (byte 3 w) (byte 2 w) (suc (suc n))
        (omega (arith, fits.0), omega (arith, fits.1)) (omega arith) (omega arith) in
    let (fit', e') =
      both s2 (byte 1 w) (byte 0 w) (byte 1 w) (byte 0 w) n fit (omega arith) (omega arith) in
    (fit', e' ∙ ap (λ x. Queue.writebyte (Queue.writebyte x (byte 1 w)) (byte 0 w)) e)
write-view four_be s w n fits bytes =
    let s2 = q_writebyte (q_writebyte s (byte 0 w)) (byte 1 w) in
    let (fit, e) =
      both s (byte 0 w) (byte 1 w) (byte 0 w) (byte 1 w) (suc (suc n))
        (omega (arith, fits.0), omega (arith, fits.1)) (omega arith) (omega arith) in
    let (fit', e') =
      both s2 (byte 2 w) (w / 256 ^ 3) (byte 2 w) (byte 3 w) n fit (omega arith) (omega arith) in
    (fit', e' ∙ ap (λ x. Queue.writebyte (Queue.writebyte x (byte 2 w)) (byte 3 w)) e)

read-view :
    (f : Form) (q : Queue) (m : Memory) (n : ℕ)
    → Fits q (size f + n)
    → let (v, q') = read_words f q m in Fits q' n × ((v, view q') ≡ read_form f (view q) m)
unfolding read_words read_form q_readbyte q_readshort q_readshort_be q_readlong q_readlong_be
    Queue.readbyte Queue.readshort Queue.readshort_be Queue.readlong Queue.readlong_be
read-view one q m n fits = ((omega arith, omega arith), ground (arith, fits.0))
read-view two q m n fits = ((omega arith, omega arith), ground (arith, fits.0))
read-view two_be q m n fits = ((omega arith, omega arith), ground (arith, fits.0))
read-view four q m n fits = ((omega arith, omega arith), ground (arith, fits.0))
read-view four_be q m n fits = ((omega arith, omega arith), ground (arith, fits.0))

head_bytes :
    (f : Form) (w : ℕ) (ops : List Op) → AreBytes (write f w ∷ ops) → AreBytes (write f w ∷ [])
head_bytes one w ops b = (b.0, tt)
head_bytes two w ops b = tt
head_bytes four w ops b = tt
head_bytes two_be w ops b = tt
head_bytes four_be w ops b = tt

tail_bytes : (f : Form) (w : ℕ) (ops : List Op) → AreBytes (write f w ∷ ops) → AreBytes ops
tail_bytes one w ops b = b.1
tail_bytes two w ops b = b
tail_bytes four w ops b = b
tail_bytes two_be w ops b = b
tail_bytes four_be w ops b = b

-- Any sequence of byte and word calls on a queue of the C2000 platform gives what it gives on the
-- queue of the other platforms that stands at the same place: the same answers, whatever the memory
-- holds. The cursors and all octets of the calls stay below 2^16, and `q_writebyte` is given
-- octets.
pub run_words-run :
    (ops : List Op) (q : Queue) (m : Memory)
    → q.getcursor + octets ops < 2 ^ 16
    → q.putcursor + octets ops < 2 ^ 16
    → AreBytes ops
    → run_words (q, m) ops ≡ Fifo.run (view q, m) ops
unfolding run_words Fifo.run
run_words-run [] q m get put bytes = refl
run_words-run (write f w ∷ ops) q m get put bytes =
    let (fit, e) = write-view f (q, m) w (octets ops) (get, put) (head_bytes f w ops bytes) in
    let (q', m') = write_words f (q, m) w in
    run_words-run ops q' m' fit.0 fit.1 (tail_bytes f w ops bytes) ∙ ap (λ s. Fifo.run s ops) e
run_words-run (read f ∷ ops) q m get put bytes =
    let (fit, e) = read-view f q m (octets ops) (get, put) in
    let (v, q') = read_words f q m in
    ap (λ l. v ∷ l) (run_words-run ops q' m fit.0 fit.1 bytes)
    ∙ ap (λ (x : ℕ × Queue). x.0 ∷ Fifo.run (x.1, m) ops) e
