-- ===== src/Posix/Deadline/Laws.antt =====
-- How far away the deadline of DC_PAL_Posix/Threads.cpp lies.
use libdronecan.Prelude.{ℕ, ◌+◌, ◌*◌, ◌/◌, ◌%◌, ◌^◌, ◌≤◌, ◌<◌, ◌≡◌, arith}
use libdronecan.Posix.Deadline.{Timespec, deadline, micros64}

-- A time in nanoseconds.
abbrev pub ns : Timespec → ℕ
ns ts = ts.tv_sec * 1000000000 + ts.tv_nsec

pub deadline-ns :
    (timeout_us : ℕ) (ts : Timespec)
    → timeout_us < 4294968
    → (ns (deadline timeout_us ts) ≡ ns ts + timeout_us * 1000)
      × ((deadline timeout_us ts).tv_nsec < 1000000000)
unfolding deadline
deadline-ns timeout_us ts h = (omega arith, omega arith)

pub deadline_early :
    (timeout_us : ℕ) (ts : Timespec)
    → 4294968 ≤ timeout_us
    → ns (deadline timeout_us ts) + 2 ^ 32 ≤ ns ts + timeout_us * 1000
unfolding deadline
deadline_early timeout_us ts h = omega arith

pub micros64-ns : (ts : Timespec) → ts.tv_nsec < 1000000000 → micros64 ts ≡ ns ts / 1000 % 2 ^ 64
unfolding micros64
micros64-ns ts h = omega arith
