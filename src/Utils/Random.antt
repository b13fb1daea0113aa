-- ===== src/Utils/Random.antt =====
-- platform/posix_c/otlib_rand.c. `rand` of the C library, which `rand_prnseed` seeds, is a parameter:
-- the number it returns and the state it leaves.
use libotfs.Prelude.{ℕ, zero, suc, ◌+◌, ◌<◌, ◌≡◌, ◌==◌, if◌then◌else◌, u8, u16, u32, arith}
use libotfs.Memory.{Memory, store}

pub record Generator (S : Type 0) : Type 0 where
  pub rand : S → ℕ × S
  pub srand : ℕ → S

module _ {S : Type 0} (g : Generator S) where
  -- `now` is what `time` returns.
  unfoldable pub rand_prnseed : ℕ → ℕ → S
  rand_prnseed now seed = g.srand (if seed == 0 then u32 now else seed)

  unfoldable pub rand_prn32 : S → ℕ × S
  rand_prn32 s = let (n, s') = g.rand s in (u32 n, s')

  unfoldable pub rand_prn8 : S → ℕ × S
  rand_prn8 s = let (n, s') = g.rand s in (u8 n, s')

  -- The result is cast to an `ot_u8`.
  unfoldable pub rand_prn16 : S → ℕ × S
  rand_prn16 s = let (n, s') = g.rand s in (u8 (u16 n), s')

  -- A count below 2 ^ 15; a negative one does nothing.
  unfoldable pub rand_stream : ℕ → ℕ → S → Memory → S × Memory
  unfolding rand_prn8
  rand_stream rand_out zero s m = (s, m)
  rand_stream rand_out (suc n) s m =
      let (v, s') = rand_prn8 s in rand_stream (rand_out + 1) n s' (store m rand_out v)

  -- `rand_prn16` gives the numbers of `rand_prn8`, and none above 255.
  rand_prn16-rand_prn8 : (s : S) → (rand_prn16 s ≡ rand_prn8 s) × ((rand_prn16 s).0 < 256)
  unfolding rand_prn16 rand_prn8
  rand_prn16-rand_prn8 s = (ground arith, omega arith)
