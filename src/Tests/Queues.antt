-- ===== src/Tests/Queues.antt =====
-- Runs of otlib/queue.c.
use libotfs.Prelude.{◌≡◌, refl, List, [], ◌∷◌, arith, ◌*◌}
use libotfs.Memory.{Memory, bytes}
use libotfs.Queue.{Queue}
use libotfs.Queue.Fifo.{Op, write, read, one, two, four_be, run, answers, decode, encode}
use libotfs.Queue.Words.Same.{run_words, view, run_words-run}
use libotfs.Queue.Refine.{run-answers}

abbrev ram : Memory
ram x = x * 7

abbrev fresh : Queue
fresh = record {
  alloc = 64;
  options = 0;
  getcursor = 100;
  putcursor = 100;
  front = 100;
  back = 164;
}

-- Ten bytes of which six are read.
abbrev used : Queue
used = record { alloc = 64; options = 0; getcursor = 106; putcursor = 110; front = 100; back = 164 }

abbrev calls : List Op
calls =
    write two 0x1234
    ∷ write one 5
    ∷ read two
    ∷ write four_be 0xDEADBEEF
    ∷ read one
    ∷ read four_be
    ∷ []

run-answers_example : run (fresh, ram) calls ≡ 0x1234 ∷ 5 ∷ 0xDEADBEEF ∷ []
unfolding answers bytes decode encode
run-answers_example = run-answers calls (fresh, ram) [] (omega arith) refl refl

-- A queue of words, three octets behind its front.
abbrev words : Queue
words = record { alloc = 64; options = 0; getcursor = 3; putcursor = 3; front = 50; back = 64 }

run_words-run_example : run_words (words, ram) calls ≡ run (view words, ram) calls
run_words-run_example = run_words-run calls words ram (omega arith) (omega arith) (omega arith)
