-- ===== src/ChibiOs/Clock/Tests.antt =====
-- Runs of the clock at a million ticks a second.
use libdronecan.Prelude.{◌%◌, ◌^◌, ◌≡◌, refl, [], ◌∷◌, arith}
use libdronecan.ChibiOs.Clock.{Clock, micros64, readings}
use libdronecan.ChibiOs.Clock.Tracks.{IsAt, readings-us, micros64_loses}

abbrev start : Clock
start = record { last_time = 0; overflow_count = 0 }

start-IsAt : IsAt 1000000 0 start
start-IsAt = record { last = refl; count = refl }

readings-us_example :
    readings 1000000 start (4000000000 ∷ 5000000000 ∷ []) ≡ 4000000000 ∷ 5000000000 ∷ []
readings-us_example =
    readings-us 1000000 0 start (4000000000 ∷ 5000000000 ∷ []) start-IsAt
      (omega arith, omega arith, omega arith, (omega arith, omega arith, omega arith, tt))

micros64_loses_example : (micros64 1000000 (4294967296 % 2 ^ 32) start).0 ≡ 0
micros64_loses_example = micros64_loses 1000000 0 4294967296 start start-IsAt refl (omega arith)
