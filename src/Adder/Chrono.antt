-- ===== src/Adder/Chrono.antt =====
-- aula-05-11/chrono.c: times in microseconds. A `timespec` is seconds and nanoseconds; the times
-- that `clock_gettime` gives are arguments, and do not fall.
use so_1920v_li41n.Prelude.{ℕ, ◌+◌, ◌-◌, ◌*◌, ◌/◌, ◌≤◌, ◌<◌, ◌≡◌, arith, ◌==◌, if◌then◌else◌}

pub record Timespec : Type 0 where
  pub tv_sec : ℕ
  pub tv_nsec : ℕ

-- `ts` is the time now.
unfoldable pub chrono_micros : (ts c : Timespec) → ℕ
chrono_micros ts c =
    if ts.tv_sec == c.tv_sec
    then (ts.tv_nsec - c.tv_nsec) / 1000
    else (1000000000 - c.tv_nsec + (ts.tv_sec - c.tv_sec - 1) * 1000000000 + ts.tv_nsec) / 1000

abbrev pub nanos : Timespec → ℕ
nanos t = t.tv_sec * 1000000000 + t.tv_nsec

-- Between two times, the later one second, `chrono_micros` gives the whole microseconds that have
-- passed, on both branches, if the nanoseconds of the first are below a second.
pub chrono_micros_lem :
    (ts c : Timespec)
    → nanos c ≤ nanos ts
    → c.tv_nsec < 1000000000
    → ts.tv_nsec < 1000000000
    → chrono_micros ts c ≡ (nanos ts - nanos c) / 1000
unfolding chrono_micros
chrono_micros_lem ts c later small small2 = ground arith
