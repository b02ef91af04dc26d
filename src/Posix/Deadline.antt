-- ===== src/Posix/Deadline.antt =====
-- DC_PAL_Posix/Threads.cpp: the time until which `wait_any` and `wait_all` wait, and the clock of
-- DC_PAL_Posix/Utils.cpp. The members of `struct timespec` are 64 bits wide and do not wrap here.
pub mod Laws
mod Tests
use libdronecan.Prelude.{ℕ, ◌+◌, ◌*◌, ◌/◌, ◌%◌, ◌^◌}

pub record Timespec : Type 0 where
  pub tv_sec : ℕ
  pub tv_nsec : ℕ

-- `ts.tv_nsec += timeout_us * 1000;`, a product of 32 bits, and the carry into `tv_sec`.
pub deadline : (timeout_us : ℕ) → Timespec → Timespec
deadline timeout_us ts =
    let nsec = ts.tv_nsec + timeout_us * 1000 % 2 ^ 32 in
    record { tv_sec = ts.tv_sec + nsec / 1000000000; tv_nsec = nsec % 1000000000 }

-- `micros64`, of the time that `clock_gettime` returns.
pub micros64 : Timespec → ℕ
micros64 ts = (ts.tv_sec * 1000000 % 2 ^ 64 + ts.tv_nsec / 1000) % 2 ^ 64
