-- ===== src/Time.antt =====
-- The system clock: otsys/time.c, and the driver of platform/posix_c/otsys_time.c. A time is an upper
-- and a lower word of clocks of 1/1024 s (OT_GPTIM_SHIFT is 0, so _UPPER_SHIFT is 22 and
-- _LOWER_SHIFT is 10). What `time_load_now` gave is the argument `now` of the functions that call it.
pub mod Clock
use libotfs.Prelude.{ℕ, ◌+◌, ◌-◌, ◌*◌, ◌/◌, ◌^◌, bit_or, u32, ltb, if◌then◌else◌}

-- `ot_time`
pub record OtTime : Type 0 where
  pub upper : ℕ
  pub clocks : ℕ

-- `time_sys` and `time_start`
pub record Clocks : Type 0 where
  pub sys : OtTime
  pub start : OtTime

-- A test as a C integer.
abbrev pub flag : ℕ → ℕ → ℕ
flag a b = if ltb a b then 1 else 0

-- `utc >> 22` and `utc << 10`
unfoldable pub of_utc : ℕ → OtTime
of_utc utc = record { upper = utc / 2 ^ 22; clocks = u32 (utc * 2 ^ 10) }

unfoldable pub time_init : OtTime → Clocks → Clocks
time_init t c = record { sys = t; start = t }

unfoldable pub time_init_utc : ℕ → Clocks → Clocks
unfolding of_utc
time_init_utc utc c = record { sys = of_utc utc; start = of_utc utc }

-- Steps 2 and 3 as written: the borrow of the lower words is added.
unfoldable pub time_set : OtTime → OtTime → Clocks → Clocks
time_set now t c =
    let upper = u32 (u32 (t.upper + 2 ^ 32 - now.upper) + flag t.clocks now.clocks) in
    let clocks = u32 (t.clocks + 2 ^ 32 - now.clocks) in
    let start_clocks = u32 (c.start.clocks + clocks) in
    record {
      sys = t;
      start = record {
        upper = u32 (c.start.upper + upper + flag start_clocks clocks);
        clocks = start_clocks;
      };
    }

unfoldable pub time_set_utcprecise : OtTime → ℕ → ℕ → Clocks → Clocks
unfolding of_utc time_set
time_set_utcprecise now utc subseconds c =
    time_set now (record (of_utc utc) { clocks = bit_or (of_utc utc).clocks subseconds }) c

unfoldable pub time_set_utc : OtTime → ℕ → Clocks → Clocks
unfolding time_set_utcprecise
time_set_utc now utc c = time_set_utcprecise now utc 0 c

unfoldable pub time_get : Clocks → OtTime
time_get c = c.sys

unfoldable pub time_get_utc : OtTime → ℕ
time_get_utc now = bit_or (u32 (now.upper * 2 ^ 22)) (now.clocks / 2 ^ 10)

-- `(t.upper << 22) + (t.clocks >> 10)`
unfoldable pub seconds : OtTime → ℕ
seconds t = u32 (u32 (t.upper * 2 ^ 22) + t.clocks / 2 ^ 10)

unfoldable pub time_uptime_secs : OtTime → Clocks → ℕ
unfolding seconds
time_uptime_secs now c = u32 (seconds now + 2 ^ 32 - seconds c.start)

unfoldable pub time_uptime : OtTime → Clocks → ℕ
time_uptime now c = u32 (now.clocks + 2 ^ 32 - c.start.clocks)

-- What `time_add`, `time_add_ti` and the default driver have in common.
unfoldable pub advance : OtTime → ℕ → OtTime
advance t n =
    let scratch = u32 (n + t.clocks) in
    record { upper = u32 (t.upper + flag scratch n); clocks = scratch }

unfoldable pub time_add : ℕ → Clocks → Clocks
unfolding advance
time_add n c = record c { sys = advance c.sys n }

-- `ticks << _SHIFT` with a shift of 0.
unfoldable pub time_add_ti : ℕ → Clocks → Clocks
unfolding advance
time_add_ti ticks c = record c { sys = advance c.sys (u32 (ticks * 2 ^ 0)) }

-- The default driver, given what `systim_get` returns.
unfoldable pub time_load_now : ℕ → Clocks → OtTime
unfolding advance
time_load_now systim c = advance c.sys systim

-- The POSIX driver, given `tv_sec` and `tv_nsec` of the real-time clock. `round` takes the quotient
-- by 976562.5 to the nearest whole number, a half upwards.
unfoldable pub ticks_of : ℕ → ℕ
ticks_of nsec = u32 ((4 * nsec + 1953125) / 3906250)

unfoldable pub posix_load_now : ℕ → ℕ → OtTime
unfolding ticks_of of_utc
posix_load_now sec nsec =
    let late = ltb 1023 (ticks_of nsec) in
    let s = if late then u32 (u32 sec + 1) else u32 sec in
    let ti = if late then 0 else ticks_of nsec in
    record (of_utc s) { clocks = bit_or (of_utc s).clocks ti }
