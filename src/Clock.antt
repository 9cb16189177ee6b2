-- ===== src/Clock.antt =====
-- Points in time and durations as numbers of nanoseconds: a `time.Time` counts from 1970-01-01
-- UTC. The calendar functions are utcMidnight and sameUTCDate of
-- internal/service/goldpouch_service.go.
use dragon_market.Base.{ℕ, Bool, ◌+◌, ◌-◌, ◌*◌, ◌/◌, ◌%◌, ◌^◌, ltb, ◌==◌, if◌then◌else◌}

abbrev pub second : ℕ
second = 1_000_000_000

abbrev pub minute : ℕ
minute = 60_000_000_000

abbrev pub day : ℕ
day = 86_400_000_000_000

abbrev pub utc_midnight : ℕ → ℕ
utc_midnight t = t / day * day

abbrev pub same_utc_date : ℕ → ℕ → Bool
same_utc_date a b = a / day == b / day

-- `t.Truncate(time.Microsecond)`
abbrev pub truncate_us : ℕ → ℕ
truncate_us t = t / 1000 * 1000

-- `t.Add(time.Duration(seconds) * time.Second)`: the product is an int64 that wraps around, so a
-- long duration can come out negative. A sum before 1970 stands as 0.
abbrev pub add_seconds : ℕ → ℕ → ℕ
add_seconds t seconds =
    let ns = seconds * second % 2 ^ 64 in if ltb ns (2 ^ 63) then t + ns else t - (2 ^ 64 - ns)
