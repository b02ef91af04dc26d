-- ===== src/ChibiOs/Clock.antt =====
-- DC_PAL_ChibiOS/Utils.cpp: the microsecond clocks over the 32-bit system tick of ChibiOS, whose
-- value `systime` `chVTGetSystemTimeX` returns, at `CH_CFG_ST_FREQUENCY` ticks a second.
pub mod Tracks
mod Tests
use libdronecan.Prelude.{ℕ, ◌+◌, ◌*◌, ◌/◌, ◌%◌, ◌^◌, List, [], ◌∷◌, ltb, if◌then◌else◌, bit_or}

-- `time *= 1000000/CH_CFG_ST_FREQUENCY;` in 32 bits.
pub micros32 : (frequency systime : ℕ) → ℕ
micros32 frequency systime = systime * (1000000 / frequency) % 2 ^ 32

-- The static variables of `micros64`, both `uint32_t`.
pub record Clock : Type 0 where
  pub last_time : ℕ
  pub overflow_count : ℕ

pub micros64 : (frequency systime : ℕ) → Clock → ℕ × Clock
micros64 frequency systime c =
    let time = micros32 frequency systime in
    let count =
      if ltb time c.last_time then (c.overflow_count + 1) % 2 ^ 32 else c.overflow_count in
    (bit_or (count * 2 ^ 32 % 2 ^ 64) time, record { last_time = time; overflow_count = count })

-- The results of calls at the ticks `ts`, where the hardware counts modulo 2^32.
pub readings : ℕ → Clock → List ℕ → List ℕ
readings frequency c [] = []
readings frequency c (t ∷ ts) =
    let (r, c') = micros64 frequency (t % 2 ^ 32) c in r ∷ readings frequency c' ts
