-- ===== src/Alp/Payload/Read.antt =====
-- otlib/alp_filedata.c: the loop of `sub_filedata` that puts a file's octets in the answer.
use libotfs.Prelude.{
  ℕ, zero, suc, ◌+◌, ◌-◌, ◌*◌, ◌/◌, ◌%◌, ◌^◌, ◌<◌, ◌≡◌, ◌∙◌, refl, ap, false, some, ltb, arith, u16,
  lt→ltb, s16-sub_ℕ,
}
use mathlib.Core.Path.{ap₂}
use libotfs.Queue.{writebyte, writeshort_be, writespace}
use libotfs.Vworm.{Fsram, Driver}
use libotfs.Veelite.Data.{vl_read}
use libotfs.Veelite.Words.{read_at}
use libotfs.Veelite.Loops.{loaded_byte}
use libotfs.Alp.State.{Alp, out_short_be, is_full, minus16}
use libotfs.Alp.FileData.{read_loop}

-- `k` words taken off a 16-bit count.
abbrev pub less_words : ℕ → ℕ → ℕ
less_words zero x = x
less_words (suc k) x = less_words k (minus16 x 2)

module _ {A : Type 0} where
  read_loop-step :
      (n fp offset limit span d word : ℕ) (a : Alp A)
      → offset < limit
      → is_full 2 a.outq ≡ false
      → vl_read fp offset a.files ≡ some word
      → read_loop (suc n) fp offset limit span d a
        ≡ read_loop n fp (u16 (offset + 2)) limit (minus16 span 2) (d + 2) (out_short_be word a)
  unfolding read_loop
  read_loop-step n fp offset limit span d word a lt free r =
      rw (read_loop, lt→ltb offset limit lt, free, r) refl

  free_queue :
      (a : Alp A)
      → a.outq.putcursor + 2 < a.outq.back
      → a.outq.back - a.outq.putcursor < 2 ^ 15
      → is_full 2 a.outq ≡ false
  unfolding writespace
  free_queue a lt small =
      rw (writespace, s16-sub_ℕ a.outq.back a.outq.putcursor (omega arith) small) (ground arith)

  -- The loop of a read, over `n` words: the octets that it puts out.
  abbrev pub Loaded : ℕ → ℕ → Alp A → Alp A → Type 0
  Loaded n c a b =
      (b.outq ≡ record a.outq { putcursor = a.outq.putcursor + 2 * n })
      × (b.files ≡ a.files)
      × ((x : ℕ) → x < a.outq.putcursor → b.ram x ≡ a.ram x)
      × ((k : ℕ) → k < 2 * n → b.ram (a.outq.putcursor + k) ≡ loaded_byte a.files.fsram (c + k))

  pub read_loop-Loaded :
      (n fuel fp offset span d : ℕ) (a : Alp A) (dr : Driver)
      → n < fuel
      → (a.files.vlfile fp).read ≡ some dr
      → (offset + (a.files.vlfile fp).start) % 2 ≡ 0
      → offset + (a.files.vlfile fp).start + 2 * n < 2 ^ 16
      → a.outq.putcursor + 2 * n < a.outq.back
      → a.outq.back - a.outq.putcursor < 2 ^ 15
      → (b : Alp A) × (read_loop fuel fp offset (offset + 2 * n) span d a
          ≡ some (false, less_words n span, d + 2 * n, b))
        × Loaded n (offset + (a.files.vlfile fp).start) a b
  unfolding read_loop writeshort_be writebyte
  read_loop-Loaded zero zero fp offset span d a dr lt r even fits room small = absurd (omega arith)
  read_loop-Loaded (suc n) zero fp offset span d a dr lt r even fits room small =
      absurd (omega arith)
  read_loop-Loaded zero (suc fuel) fp offset span d a dr lt r even fits room small = (
    a,
    rw (read_loop, stop) (ap (λ x. some (false, span, x, a)) (omega arith)),
    (
      ap (λ p. record a.outq { putcursor = p }) (omega arith),
      refl,
      λ x h. refl,
      λ k h. absurd (omega arith),
    ),
  )
    where
      stop : ltb offset (offset + 0) ≡ false
      stop = ground arith
  read_loop-Loaded (suc n) (suc fuel) fp offset span d a dr lt r even fits room small =
      let later =
        read_loop-Loaded n fuel fp (offset + 2) (minus16 span 2) (d + 2) b dr (omega arith) r
          (omega arith) (omega arith) (omega arith) (omega arith) in
      (
        later.0,
        read_loop-step fuel fp offset (offset + 2 * suc n) span d word a (omega arith)
              (free_queue a (omega arith) small)
              (read_at fp offset start a.files dr r refl ∙ ap (λ x. some (s x)) place)
            ∙ ap₂ (λ o l. read_loop fuel fp o l (minus16 span 2) (d + 2) b) next_offset next_limit
            ∙ later.1
            ∙ ap (λ x. some (false, less_words n (minus16 span 2), x, later.0)) (omega arith),
        (
          later.2.0 ∙ ap (λ p. record a.outq { putcursor = p }) (omega arith),
          later.2.1,
          λ x h. later.2.2 x (omega arith) ∙ ground arith,
          words later.0 later.2.2 later.2.3,
        ),
      )
    where
      start : ℕ
      start = (a.files.vlfile fp).start

      s : Fsram
      s = a.files.fsram

      word : ℕ
      word = s ((offset + start) / 2)

      b : Alp A
      b = out_short_be word a

      place : u16 (offset + start) / 2 ≡ (offset + start) / 2
      place = omega arith

      next_offset : u16 (offset + 2) ≡ offset + 2
      next_offset = omega arith

      next_limit : offset + 2 * suc n ≡ offset + 2 + 2 * n
      next_limit = omega arith

      words :
          (c : Alp A)
          → ((x : ℕ) → x < a.outq.putcursor + 1 + 1 → c.ram x ≡ b.ram x)
          → ((k : ℕ)
              → k < 2 * n
              → c.ram (a.outq.putcursor + 1 + 1 + k) ≡ loaded_byte s (offset + 2 + start + k))
          → (k : ℕ) → k < 2 * suc n
          → c.ram (a.outq.putcursor + k) ≡ loaded_byte s (offset + start + k)
      words c below above zero h = ground (arith, below a.outq.putcursor, even)
      words c below above (suc zero) h =
          ground (arith, below (a.outq.putcursor + 1), even, odd, half)
        where
          odd : (offset + start + 1) % 2 ≡ 1
          odd = omega arith

          half : (offset + start + 1) / 2 ≡ (offset + start) / 2
          half = omega arith
      words c below above (suc (suc k)) h =
          ap c.ram move_p ∙ above k (omega arith) ∙ ap (loaded_byte s) move_c
        where
          move_p : a.outq.putcursor + suc (suc k) ≡ a.outq.putcursor + 1 + 1 + k
          move_p = omega arith

          move_c : offset + 2 + start + k ≡ offset + start + suc (suc k)
          move_c = omega arith
