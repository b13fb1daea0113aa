-- ===== src/Queue/Fifo.antt =====
-- otlib/queue.c as a first-in first-out list of bytes: the bytes between the two cursors.
use libotfs.Prelude.{
  Option, none, some, sym, append-nil, ℕ, zero, suc, ◌+◌, ◌-◌, ◌*◌, ◌^◌, ◌≤◌, ◌<◌, ◌≡◌, ◌∙◌, ap,
  List, [], ◌∷◌, ◌++◌, append_assoc, arith, byte, inr,
}
use libotfs.Memory.{Memory, bytes, store, bytes-store, bytes-suc}
use libotfs.Queue.{
  Queue, writebyte, writeshort, writelong, writeshort_be, writelong_be, readbyte, readshort,
  readlong, readshort_be, readlong_be,
}

-- The order of the cursors. `alloc` is small enough that a difference of cursors is an `ot_int`.
pub record IsValid (q : Queue) : Type 0 where
  pub front_le : q.front ≤ q.getcursor
  pub get_le : q.getcursor ≤ q.putcursor
  pub put_le : q.putcursor ≤ q.back
  pub back_le : q.back ≤ q.front + q.alloc
  pub small : q.alloc < 2 ^ 15

-- What a reader has before it.
abbrev pub contents : Queue × Memory → List ℕ
contents (q, m) = bytes m q.getcursor (q.putcursor - q.getcursor)

-- The wire forms of a word: the highest byte first.
abbrev pub short_bytes : ℕ → List ℕ
short_bytes w = byte 1 w ∷ byte 0 w ∷ []

abbrev pub long_bytes : ℕ → List ℕ
long_bytes w = byte 3 w ∷ byte 2 w ∷ byte 1 w ∷ byte 0 w ∷ []

abbrev pub Ordered : Queue → Type 0
Ordered q = q.getcursor ≤ q.putcursor

pub writebyte-Ordered : (s : Queue × Memory) (b : ℕ) → Ordered s.0 → Ordered (writebyte s b).0
unfolding writebyte
writebyte-Ordered (q, m) b h = omega arith

pub contents-writebyte :
    (s : Queue × Memory) (b : ℕ) → Ordered s.0 → contents (writebyte s b) ≡ contents s ++ (b ∷ [])
unfolding writebyte
contents-writebyte (q, m) b h =
    ap (λ n. bytes (store m q.putcursor b) q.getcursor n) (omega arith)
    ∙ bytes-suc (store m q.putcursor b) q.getcursor (q.putcursor - q.getcursor)
    ∙ ground (
      arith,
      bytes-store m q.getcursor (q.putcursor - q.getcursor) q.putcursor b (inr (omega arith)),
      ap (store m q.putcursor b) (the_end h),
    )
  where
    the_end : q.getcursor ≤ q.putcursor → q.getcursor + (q.putcursor - q.getcursor) ≡ q.putcursor
    the_end h = omega arith

-- Several bytes in turn.
write_all : Queue × Memory → List ℕ → Queue × Memory
write_all s [] = s
write_all s (b ∷ bs) = write_all (writebyte s b) bs

contents-write_all :
    (s : Queue × Memory) (bs : List ℕ)
    → Ordered s.0
    → Ordered (write_all s bs).0 × (contents (write_all s bs) ≡ contents s ++ bs)
unfolding write_all
contents-write_all s [] h = (h, sym (append-nil (contents s)))
contents-write_all s (b ∷ bs) h =
    let later = contents-write_all (writebyte s b) bs (writebyte-Ordered s b h) in
    (
      later.0,
      later.1
          ∙ ap (λ l. l ++ bs) (contents-writebyte s b h)
          ∙ append_assoc (contents s) (b ∷ []) bs,
    )

-- `q_writeshort` and `q_writelong` append the bytes of the word, the highest first.
pub writeshort-contents :
    (s : Queue × Memory) (w : ℕ)
    → Ordered s.0
    → Ordered (writeshort s w).0 × (contents (writeshort s w) ≡ contents s ++ short_bytes w)
unfolding writeshort write_all
writeshort-contents s w h = contents-write_all s (short_bytes w) h

pub writelong-contents :
    (s : Queue × Memory) (w : ℕ)
    → Ordered s.0
    → Ordered (writelong s w).0 × (contents (writelong s w) ≡ contents s ++ long_bytes w)
unfolding writelong write_all
writelong-contents s w h = contents-write_all s (long_bytes w) h

-- The `_be` writers append the bytes the other way round.
pub writeshort_be-contents :
    (s : Queue × Memory) (w : ℕ)
    → Ordered s.0
    → Ordered (writeshort_be s w).0
      × (contents (writeshort_be s w) ≡ contents s ++ (byte 0 w ∷ byte 1 w ∷ []))
unfolding writeshort_be write_all
writeshort_be-contents s w h = contents-write_all s (byte 0 w ∷ byte 1 w ∷ []) h

pub writelong_be-contents :
    (s : Queue × Memory) (w : ℕ)
    → Ordered s.0
    → Ordered (writelong_be s w).0
      × (contents (writelong_be s w)
          ≡ contents s ++ (byte 0 w ∷ byte 1 w ∷ byte 2 w ∷ byte 3 w ∷ []))
unfolding writelong_be write_all
writelong_be-contents s w h =
    contents-write_all s (byte 0 w ∷ byte 1 w ∷ byte 2 w ∷ byte 3 w ∷ []) h

bytes-eq-cons :
    (m : Memory) (p n : ℕ) {b : ℕ} {bs : List ℕ}
    → bytes m p n ≡ b ∷ bs
    → (0 < n) × (m p ≡ b) × (bytes m (p + 1) (n - 1) ≡ bs)
unfolding bytes
bytes-eq-cons m p zero h = absurd (cc)
bytes-eq-cons m p (suc n) h = (omega arith, ground arith, ground arith)

-- Where a byte is there, `q_readbyte` returns it and leaves the rest.
pub readbyte-contents :
    (q : Queue) (m : Memory) {b : ℕ} {bs : List ℕ}
    → Ordered q
    → contents (q, m) ≡ b ∷ bs
    → let (v, q') = readbyte q m in Ordered q' × (v ≡ b) × (contents (q', m) ≡ bs)
unfolding readbyte
readbyte-contents q m h e =
    let head = bytes-eq-cons m q.getcursor (q.putcursor - q.getcursor) e in
    (omega (arith, head.0), head.1, ap (λ n. bytes m (q.getcursor + 1) n) (omega arith) ∙ head.2)

-- The calls of a client: each form of word is written by one function and read by another.
pub data Form : Type 0 where
  one two four two_be four_be : Form

pub data Op : Type 0 where
  write : Form → ℕ → Op
  read : Form → Op

-- How a word stands in a list of bytes, and how it is taken off the front of one.
unfoldable pub encode : Form → ℕ → List ℕ
encode one w = w ∷ []
encode two w = short_bytes w
encode four w = long_bytes w
encode two_be w = byte 0 w ∷ byte 1 w ∷ []
encode four_be w = byte 0 w ∷ byte 1 w ∷ byte 2 w ∷ byte 3 w ∷ []

unfoldable pub decode : Form → List ℕ → Option (ℕ × List ℕ)
decode one (a ∷ xs) = some (a, xs)
decode two (b ∷ a ∷ xs) = some (a + 256 * b, xs)
decode four (d ∷ c ∷ b ∷ a ∷ xs) = some (a + 256 * b + 65536 * c + 16777216 * d, xs)
decode two_be (a ∷ b ∷ xs) = some (a + 256 * b, xs)
decode four_be (a ∷ b ∷ c ∷ d ∷ xs) = some (a + 256 * b + 65536 * c + 16777216 * d, xs)
decode _ _ = none

-- The answers of a plain list of bytes: `none` where a read finds too few.
abbrev pub then_answer : ℕ → Option (List ℕ) → Option (List ℕ)
then_answer v none = none
then_answer v (some vs) = some (v ∷ vs)

unfoldable pub answers : List ℕ → List Op → Option (List ℕ)
answers xs [] = some []
answers xs (write f w ∷ ops) = answers (xs ++ encode f w) ops
answers xs (read f ∷ ops) = elim (decode f xs) [
  | none ↦ none
  | some (v, ys) ↦ then_answer v (answers ys ops)
]

-- The calls of the queue.
unfoldable pub write_form : Form → Queue × Memory → ℕ → Queue × Memory
write_form one = writebyte
write_form two = writeshort
write_form four = writelong
write_form two_be = writeshort_be
write_form four_be = writelong_be

unfoldable pub read_form : Form → Queue → Memory → ℕ × Queue
read_form one = readbyte
read_form two = readshort
read_form four = readlong
read_form two_be = readshort_be
read_form four_be = readlong_be

unfoldable pub run : Queue × Memory → List Op → List ℕ
run s [] = []
run s (write f w ∷ ops) = run (write_form f s w) ops
run (q, m) (read f ∷ ops) = let (v, q') = read_form f q m in v ∷ run (q', m) ops

-- A write in each form appends the bytes of the word.
pub write_form-contents :
    (f : Form) (s : Queue × Memory) (w : ℕ)
    → Ordered s.0
    → Ordered (write_form f s w).0 × (contents (write_form f s w) ≡ contents s ++ encode f w)
unfolding write_form encode
write_form-contents one s w h = (writebyte-Ordered s w h, contents-writebyte s w h)
write_form-contents two s w h = writeshort-contents s w h
write_form-contents four s w h = writelong-contents s w h
write_form-contents two_be s w h = writeshort_be-contents s w h
write_form-contents four_be s w h = writelong_be-contents s w h
