-- ===== src/Tests/Clocks.antt =====
-- Runs of otsys/time.c and platform/posix_c/otsys_time.c.
use libotfs.Prelude.{ℕ, ◌+◌, ◌*◌, ◌%◌, ◌^◌, ◌≤◌, ◌<◌, ◌≡◌, arith}
use libotfs.Time.{OtTime, Clocks, time_set_utcprecise, time_get_utc, posix_load_now}
use libotfs.Time.Clock.{IsTime, value, time_get_utc-time_set_utcprecise, value-posix_load_now}

abbrev early : OtTime
early = record { upper = 3; clocks = 500 }

abbrev late : OtTime
late = record { upper = 4; clocks = 70 }

abbrev booted : Clocks
booted = record { sys = early; start = record { upper = 1; clocks = 0xFFFFFFFF } }

time_get_utc-time_set_utcprecise_example :
    let t = (time_set_utcprecise early 1511654400 77 booted).sys in
    (time_get_utc t ≡ 1511654400) × (value t ≡ 1511654400 * 2 ^ 10 + 77)
time_get_utc-time_set_utcprecise_example =
    time_get_utc-time_set_utcprecise early 1511654400 77 booted (omega arith) (omega arith)

value-posix_load_now_example :
    IsTime (posix_load_now 12 999999999)
    × (c : ℕ) × (2000000000 * c ≤ 2048 * 999999999 + 1000000000)
    × (2048 * 999999999 < 2000000000 * c + 1000000000)
    × (value (posix_load_now 12 999999999) ≡ (12 * 2 ^ 10 + c) % 2 ^ 42)
value-posix_load_now_example = value-posix_load_now 12 999999999 (omega arith)
