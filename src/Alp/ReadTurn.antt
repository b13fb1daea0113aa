-- ===== src/Alp/ReadTurn.antt =====
-- otlib/alp_filedata.c: one file of a command that reads file data, from its entry in the record to
-- the answer.
use libotfs.Prelude.{ℕ, List, [], ◌∷◌, ◌++◌, byte}
use libotfs.Memory.{Memory, bytes}
use libotfs.Queue.{Queue}
use libotfs.Veelite.{Veelite}
use libotfs.Alp.State.{Alp}

-- The answer for a file: its ID, the offset, the count, and the octets at `c`.
abbrev pub file_answer : ℕ → ℕ → ℕ → Memory → ℕ → List ℕ
file_answer id offset span octets c =
    (id ∷ byte 1 offset ∷ byte 0 offset ∷ byte 1 span ∷ byte 0 span ∷ []) ++ bytes octets c span
