-- ===== src/Alp/Parse.antt =====
-- otlib/alp_main.c: what `alp_parse_message` and `alp_new_record` leave of the queues and the record.
use libotfs.Prelude.{
  ◌%◌, ◌/◌, min, ℕ, ◌+◌, ◌-◌, ◌^◌, ◌<◌, ◌≡◌, ◌≢◌, ◌∙◌, refl, Bool, true, ◌||◌, Option, none, some,
  List, [], ◌∷◌, bit_and, bit_or, ltb, if◌then◌else◌, arith,
}
use libotfs.Prelude.Int.{pos, ltb_ℤ}
use libotfs.Auth.{User}
use libotfs.Memory.{bytes}
use libotfs.Queue.{Queue, lock, readspace, writespace, writebyte, writelong_be}
use libotfs.Veelite.{Veelite, Guard}
use libotfs.Alp.State.{Alp}
use libotfs.Alp.Main.{
  AlpStatus, msg_null, alp_parse_locked, alp_parse_message, alp_new_record, sub_insert_header,
  sub_get_headerlen,
}

-- Each value that is left in the options word says that the queue is locked.
pub data AllLocked : List ℕ → Type 0 where
  idle : AllLocked []
  busy : (v : ℕ) (vs : List ℕ) → v ≢ 0 → AllLocked vs → AllLocked (v ∷ vs)

-- A queue that nobody unlocks is waited for to the end.
pub lock-none : (q : Queue) (vs : List ℕ) → q.options ≢ 0 → AllLocked vs → lock q vs ≡ none
unfolding lock
lock-none q [] locked all = ground arith
lock-none q (v ∷ vs) locked (busy _ _ nonzero all) =
    ground (arith, lock-none (record q { options = v }) vs nonzero all)

lock-free : (q : Queue) (vs : List ℕ) → q.options ≡ 0 → lock q vs ≡ some (record q { options = 1 })
unfolding lock
lock-free q [] free = ground arith
lock-free q (v ∷ vs) free = ground arith

module _ {A : Type 0} (g : Guard A) (isroot : User → A → Bool × A)
    (invoke : ℕ → ℕ → Veelite A → ℕ × Veelite A) (epoch_s beside fuel : ℕ) where
  abbrev short_queue : Alp A → Bool
  short_queue a = ltb_ℤ (readspace a.inq) (pos 4) || ltb_ℤ (writespace a.outq) (pos 4)

  locked-short :
      (user : User) (a : Alp A)
      → short_queue a ≡ true
      → alp_parse_locked g isroot invoke epoch_s beside fuel user a ≡ some (msg_null, a)
  unfolding alp_parse_locked
  locked-short user a e = rw (alp_parse_locked, e) refl

  abbrev locked : Alp A → Queue → Queue → Alp A
  locked a i o = record a { inq = i; outq = o }

  abbrev parse : List ℕ → List ℕ → User → Alp A → Option (AlpStatus × Alp A)
  parse = alp_parse_message g isroot invoke epoch_s beside fuel

  parse-free :
      (ins outs : List ℕ) (user : User) (a : Alp A)
      → a.inq.options ≡ 0
      → a.outq.options ≡ 0
      → parse ins outs user a
        ≡ alp_parse_locked g isroot invoke epoch_s beside fuel user
            (locked a (record a.inq { options = 1 }) (record a.outq { options = 1 }))
  unfolding alp_parse_message
  parse-free ins outs user a fi fo =
      rw (alp_parse_message, lock-free a.inq ins fi, lock-free a.outq outs fo) refl

  parse-none :
      (ins outs : List ℕ) (user : User) (a : Alp A)
      → a.inq.options ≢ 0
      → AllLocked ins
      → parse ins outs user a ≡ none
  unfolding alp_parse_message
  parse-none ins outs user a held all = rw (alp_parse_message, lock-none a.inq ins held all) refl

  abbrev held : Alp A → Alp A
  held a = locked a (record a.inq { options = 1 }) (record a.outq { options = 1 })

  -- On two queues that are not locked, of which one has no room for a header, `alp_parse_message`
  -- returns MSG_Null and leaves both locked: a next call on them, by any user, waits for ever
  -- unless another thread unlocks the input.
  pub alp_parse_message-waits :
      (ins outs ins' outs' : List ℕ) (user user' : User) (a : Alp A)
      → a.inq.options ≡ 0
      → a.outq.options ≡ 0
      → short_queue a ≡ true
      → AllLocked ins'
      → (b : Alp A) × (parse ins outs user a ≡ some (msg_null, b))
        × (b.inq.options ≡ 1)
        × (b.outq.options ≡ 1)
        × (parse ins' outs' user' b ≡ none)
  alp_parse_message-waits ins outs ins' outs' user user' a fi fo short all = (
    held a,
    parse-free ins outs user a fi fo
        ∙ locked-short user (held a) (unfold readspace writespace in short),
    refl,
    refl,
    parse-none ins' outs' user' (held a) (omega arith) all,
  )

module _ {A : Type 0} where
  -- `alp_new_record` writes as the header the flags as a long word, the lowest octet first, so that
  -- neither the length nor the ID nor the command of the record is in it, and puts the cursor
  -- behind it. Of the flags, SR is set, MB is set exactly if `outrec` or the caller has it, ME
  -- exactly if the payload is within the limit, and no other. `outrec` keeps these flags without MB,
  -- and the number of octets that the payload was cut to. The limit is an octet and the payload
  -- below 2^15.
  pub alp_new_record_lem :
      (flags payload_limit n : ℕ) (a : Alp A)
      → payload_limit < 256
      → n < 2 ^ 15
      → let b = alp_new_record flags payload_limit (pos n) a in
        let kept = bit_and (bit_or (bit_or a.outrec.flags flags) 0x10) 0x90 in
        let f = if ltb payload_limit n then kept else bit_or kept 0x40 in
        (bytes b.ram a.outq.putcursor 4
          ≡ f % 256 ∷ f / 256 % 256 ∷ f / 65536 % 256 ∷ f / 16777216 % 256 ∷ [])
        × (b.outq.putcursor ≡ a.outq.putcursor + 4)
        × (b.outrec.plength ≡ min n payload_limit)
        × (b.outrec.flags ≡ f - bit_and f 0x80)
  unfolding alp_new_record sub_insert_header sub_get_headerlen writelong_be writebyte bytes
  alp_new_record_lem flags payload_limit n a small fits = ground arith
