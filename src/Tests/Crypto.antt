-- ===== src/Tests/Crypto.antt =====
-- A run of the encryption of otlib/auth.c with a driver that only appends and checks a tag.
use libotfs.Prelude.{ℕ, ◌+◌, ◌*◌, true, ◌==◌}
use libotfs.Memory.{Memory, store}
use libotfs.Queue.{Queue}
use libotfs.Auth.Crypto.{EaxDrv}

abbrev tagged : EaxDrv ℕ
tagged = record {
  encrypt = λ nonce block n c m. (true, store m (block + n) c);
  decrypt = λ nonce block n c m. (m (block + n) == c, m);
}

abbrev message : Queue
message = record {
  alloc = 64;
  options = 0;
  getcursor = 100;
  putcursor = 120;
  front = 100;
  back = 164;
}

abbrev ram : Memory
ram x = x * 7
