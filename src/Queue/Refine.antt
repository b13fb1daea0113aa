-- ===== src/Queue/Refine.antt =====
-- No sequence of byte and word calls on a queue of otlib/queue.c is told from a list of bytes.
use libotfs.Prelude.{
  ℕ, ◌+◌, ◌*◌, ◌≡◌, ◌∙◌, ap, refl, Option, none, some, List, [], ◌∷◌, ◌++◌, Option-cases, inl, inr,
  arith,
}
use libotfs.Memory.{Memory}
use libotfs.Queue.{Queue, readbyte, readshort, readlong, readshort_be, readlong_be}
use libotfs.Queue.Fifo.{
  contents, Ordered, write_form-contents, readbyte-contents, Form, one, two, four, two_be, four_be,
  Op, write, read, encode, decode, answers, run, then_answer, write_form, read_form,
}

-- The first two or four bytes, and the queue behind them.
abbrev Two : Queue → Memory → Queue → ℕ → ℕ → List ℕ → Type 0
Two q m q' b c rest =
    Ordered q' × (m q.getcursor ≡ b) × (m (q.getcursor + 1) ≡ c) × (contents (q', m) ≡ rest)

abbrev advance : Queue → ℕ → Queue
advance q n = record q { getcursor = n }

read_both :
    (q : Queue) (m : Memory) {b c : ℕ} {rest : List ℕ}
    → Ordered q
    → contents (q, m) ≡ b ∷ c ∷ rest
    → Two q m (advance q (q.getcursor + 1 + 1)) b c rest
unfolding readbyte
read_both q m h e =
    let one = readbyte-contents q m h e in
    let two = readbyte-contents (advance q (q.getcursor + 1)) m one.0 one.2 in
    (two.0, one.1, two.1, two.2)

module _ (q : Queue) (m : Memory) {b c : ℕ} {rest : List ℕ} (h : Ordered q)
    (e : contents (q, m) ≡ b ∷ c ∷ rest) where
  readshort-contents :
      let (v, q') = readshort q m in Ordered q' × (v ≡ c + 256 * b) × (contents (q', m) ≡ rest)
  unfolding readshort
  readshort-contents = let t = read_both q m h e in (t.0, omega (arith, t.1, t.2), t.3)

  readshort_be-contents :
      let (v, q') = readshort_be q m in Ordered q' × (v ≡ b + 256 * c) × (contents (q', m) ≡ rest)
  unfolding readshort_be
  readshort_be-contents = let t = read_both q m h e in (t.0, omega (arith, t.1, t.2), t.3)

module _ (q : Queue) (m : Memory) {b c d f : ℕ} {rest : List ℕ} (h : Ordered q)
    (e : contents (q, m) ≡ b ∷ c ∷ d ∷ f ∷ rest) where
  readlong-contents :
      let (v, q') = readlong q m in
      Ordered q' × (v ≡ f + 256 * d + 65536 * c + 16777216 * b) × (contents (q', m) ≡ rest)
  unfolding readlong
  readlong-contents =
      let t = read_both q m h e in
      let u = read_both (advance q (q.getcursor + 1 + 1)) m t.0 t.3 in
      (u.0, omega (arith, t.1, t.2, u.1, u.2), u.3)

  readlong_be-contents :
      let (v, q') = readlong_be q m in
      Ordered q' × (v ≡ b + 256 * c + 65536 * d + 16777216 * f) × (contents (q', m) ≡ rest)
  unfolding readlong_be
  readlong_be-contents =
      let t = read_both q m h e in
      let u = read_both (advance q (q.getcursor + 1 + 1)) m t.0 t.3 in
      (u.0, omega (arith, t.1, t.2, u.1, u.2), u.3)

-- A read in each form takes the word off the front.
abbrev Took : Memory → ℕ → List ℕ → ℕ × Queue → Type 0
Took m v ys (w, q') = Ordered q' × (w ≡ v) × (contents (q', m) ≡ ys)

read_form-Took :
    (f : Form) (q : Queue) (m : Memory) (xs : List ℕ) {v : ℕ} {ys : List ℕ}
    → Ordered q
    → contents (q, m) ≡ xs
    → decode f xs ≡ some (v, ys)
    → Took m v ys (read_form f q m)
unfolding read_form decode
read_form-Took one q m [] h e d = absurd (cc)
read_form-Took one q m (a ∷ xs) h e d =
    let t = readbyte-contents q m h e in (t.0, ground arith, ground arith)
read_form-Took two q m (b ∷ a ∷ xs) h e d =
    let t = readshort-contents q m h e in (t.0, ground arith, ground arith)
read_form-Took two_be q m (a ∷ b ∷ xs) h e d =
    let t = readshort_be-contents q m h e in (t.0, ground arith, ground arith)
read_form-Took four q m (a ∷ b ∷ c ∷ d' ∷ xs) h e d =
    let t = readlong-contents q m h e in (t.0, ground arith, ground arith)
read_form-Took four_be q m (a ∷ b ∷ c ∷ d' ∷ xs) h e d =
    let t = readlong_be-contents q m h e in (t.0, ground arith, ground arith)
read_form-Took _ q m _ h e d = absurd (cc)

some-then_answer :
    (v : ℕ) (o : Option (List ℕ)) {vs : List ℕ}
    → then_answer v o ≡ some vs
    → (ws : List ℕ) × (o ≡ some ws) × (v ∷ ws ≡ vs)
some-then_answer v none h = absurd (cc)
some-then_answer v (some ws) h = (ws, refl, ground arith)

-- What a list that answers a read answers after it.
answers-read :
    (f : Form) (xs : List ℕ) (ops : List Op) {vs : List ℕ}
    → answers xs (read f ∷ ops) ≡ some vs
    → (v : ℕ) × (ys : List ℕ) × (ws : List ℕ) × (decode f xs ≡ some (v, ys))
      × (answers ys ops ≡ some ws)
      × (v ∷ ws ≡ vs)
unfolding answers
answers-read f xs ops a = elim (Option-cases (decode f xs)) [
  | inl e ↦ absurd (ground arith)
  | inr ((v, ys), e) ↦
      let r = some-then_answer v (answers ys ops) (rw (e, answers) at a) in
      (v, ys, r.0, e, r.1, r.2)
]

-- While a list of bytes can answer every read of a sequence of calls, the queue that holds those
-- bytes gives the same answers.
pub run-answers :
    (ops : List Op) (s : Queue × Memory) (xs : List ℕ) {vs : List ℕ}
    → Ordered s.0
    → contents s ≡ xs
    → answers xs ops ≡ some vs
    → run s ops ≡ vs
unfolding run
run-answers [] s xs h e a = unfold answers in ground arith
run-answers (write f w ∷ ops) s xs h e a =
    let t = write_form-contents f s w h in
    run-answers ops (write_form f s w) (xs ++ encode f w) t.0 (t.1 ∙ ap (λ l. l ++ encode f w) e)
      (unfold answers in a)
run-answers (read f ∷ ops) (q, m) xs h e a =
    let r = answers-read f xs ops a in
    let t = read_form-Took f q m xs h e r.3 in
    cc (run-answers ops ((read_form f q m).1, m) r.1 t.0 t.2 r.4, t.1, r.5)
