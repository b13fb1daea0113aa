-- ===== src/Time/Clock.antt =====
-- The clock of otsys/time.c as one 64-bit count of clocks.
use libotfs.Prelude.{
  ℕ, ◌+◌, ◌-◌, ◌*◌, ◌/◌, ◌%◌, ◌^◌, ◌≤◌, ◌<◌, ◌≡◌, ◌∙◌, refl, arith, Bool-cases, ltb, tests, inl,
  inr, u32, u64, bit_or,
}
use libotfs.Prelude.Bits.{bit_or_low}
use libotfs.Time.{
  OtTime, Clocks, time_set, time_set_utcprecise, time_get_utc, time_add, posix_load_now, ticks_of,
  of_utc, seconds,
}

abbrev pub IsTime : OtTime → Type 0
IsTime t = (t.upper < 2 ^ 32) × (t.clocks < 2 ^ 32)

abbrev pub value : OtTime → ℕ
value t = t.upper * 2 ^ 32 + t.clocks

-- `time_add` adds to the 64-bit count and leaves the start alone.
pub value-time_add :
    (n : ℕ) (c : Clocks)
    → n < 2 ^ 32
    → IsTime c.sys
    → (value (time_add n c).sys ≡ u64 (value c.sys + n))
      × IsTime (time_add n c).sys
      × ((time_add n c).start ≡ c.start)
unfolding time_add
value-time_add n c h t = ground arith

-- `time_set` sets the clock.  It moves the start by the same 64-bit difference if the lower word of
-- the new time is not below that of the old, so that the uptime is kept.
pub value-time_set :
    (now t : OtTime) (c : Clocks)
    → IsTime now
    → IsTime t
    → IsTime c.start
    → now.clocks ≤ t.clocks
    → ((time_set now t c).sys ≡ t)
      × (value (time_set now t c).start ≡ u64 (value c.start + value t + 2 ^ 64 - value now))
unfolding time_set
value-time_set now t c hn ht hc le = (refl, ground arith)

-- If the lower word of the new time is below that of the old, `time_set` moves the start by two upper
-- words, 2 ^ 33 clocks, more than the difference of the times.
value-time_set_borrow :
    (now t : OtTime) (c : Clocks)
    → IsTime now
    → IsTime t
    → IsTime c.start
    → t.clocks < now.clocks
    → value (time_set now t c).start ≡ u64 (value c.start + value t + 2 ^ 64 - value now + 2 ^ 33)
unfolding time_set
value-time_set_borrow now t c hn ht hc lt = ground arith

-- Both ways of taking the seconds off a time drop the lower ten bits of the 64-bit count.
pub seconds_of_value :
    (t : OtTime)
    → IsTime t
    → (time_get_utc t ≡ u32 (value t / 2 ^ 10)) × (seconds t ≡ u32 (value t / 2 ^ 10))
unfolding time_get_utc seconds
seconds_of_value t h = (
  rw (high, bit_or_low 22 (t.upper % 2 ^ 10) (t.clocks / 2 ^ 10) (omega arith)) (omega arith),
  omega arith,
)
  where
    high : u32 (t.upper * 2 ^ 22) ≡ t.upper % 2 ^ 10 * 2 ^ 22
    high = omega arith

-- A second with less than 1024 clocks in its lower bits.
abbrev stamp : ℕ → ℕ → OtTime
stamp utc clocks = record (of_utc utc) { clocks = bit_or (of_utc utc).clocks clocks }

value-stamp :
    (utc k : ℕ)
    → utc < 2 ^ 32
    → k < 2 ^ 10
    → IsTime (stamp utc k) × (value (stamp utc k) ≡ utc * 2 ^ 10 + k)
unfolding of_utc
value-stamp utc k h small =
    let low : bit_or (u32 (utc * 2 ^ 10)) k ≡ utc % 2 ^ 22 * 2 ^ 10 + k =
      rw shifted (bit_or_low 10 (utc % 2 ^ 22) k small) in
    (omega (arith, low), omega (arith, low))
  where
    shifted : u32 (utc * 2 ^ 10) ≡ utc % 2 ^ 22 * 2 ^ 10
    shifted = omega arith

-- After `time_set_utcprecise` with a whole second and less than 1024 clocks, `time_get_utc` of the
-- system time gives the second back, and the count is that of the second and the clocks.
pub time_get_utc-time_set_utcprecise :
    (now : OtTime) (utc subseconds : ℕ) (c : Clocks)
    → utc < 2 ^ 32
    → subseconds < 2 ^ 10
    → let t = (time_set_utcprecise now utc subseconds c).sys in
      (time_get_utc t ≡ utc) × (value t ≡ utc * 2 ^ 10 + subseconds)
unfolding time_set_utcprecise time_set
time_get_utc-time_set_utcprecise now utc subseconds c h k =
    let v = value-stamp utc subseconds h k in
    (omega (arith, seconds_of_value (stamp utc subseconds) v.0, v.1), v.1)

ticks_of-le : (nsec : ℕ) → nsec < 1000000000 → ticks_of nsec ≤ 2 ^ 10
unfolding ticks_of
ticks_of-le nsec h = omega arith

-- Half a second is 500000000 nanoseconds, and a clock is 1 / 1024 of a second.
ticks_of-nearest :
    (nsec : ℕ)
    → nsec < 1000000000
    → (2000000000 * ticks_of nsec ≤ 2048 * nsec + 1000000000)
      × (2048 * nsec < 2000000000 * ticks_of nsec + 1000000000)
unfolding ticks_of
ticks_of-nearest nsec h = (omega arith, omega arith)

load_now-ticks :
    (sec nsec : ℕ)
    → nsec < 1000000000
    → IsTime (posix_load_now sec nsec)
      × (value (posix_load_now sec nsec) ≡ (sec * 2 ^ 10 + ticks_of nsec) % 2 ^ 42)
unfolding posix_load_now
load_now-ticks sec nsec h = elim (Bool-cases (ltb 1023 (ticks_of nsec))) [
  | inl late ↦
      let v = value-stamp (u32 (u32 sec + 1)) 0 (omega arith) (omega arith) in
      rw late (v.0, v.1 ∙ omega (tests, ticks_of-le nsec h))
  | inr early ↦
      let v = value-stamp (u32 sec) (ticks_of nsec) (omega arith) (ground arith) in
      rw early (v.0, v.1 ∙ ground arith)
]

-- What the POSIX driver makes of a number of seconds and less than a second in nanoseconds is a
-- time, whose count is 1024 clocks for each second and for the rest the nearest number of clocks,
-- the upper one if two are as near, modulo 2^42: a whole second is carried over.
pub value-posix_load_now :
    (sec nsec : ℕ)
    → nsec < 1000000000
    → IsTime (posix_load_now sec nsec)
      × (c : ℕ) × (2000000000 * c ≤ 2048 * nsec + 1000000000)
      × (2048 * nsec < 2000000000 * c + 1000000000)
      × (value (posix_load_now sec nsec) ≡ (sec * 2 ^ 10 + c) % 2 ^ 42)
value-posix_load_now sec nsec h =
    let (time, counts) = load_now-ticks sec nsec h in
    let (low, high) = ticks_of-nearest nsec h in (time, ticks_of nsec, low, high, counts)
