-- ===== src/Posix/Semaphore/Tests.antt =====
-- A mutex that is a count of the times it is held, and one that another thread keeps.
use libdronecan.Prelude.{ℕ, ◌+◌, ◌-◌, ◌≡◌, refl, true, arith}
use libdronecan.Prelude.Int.{ℤ, pos}
use libdronecan.Pal.Links.{out_of_fuel}
use libdronecan.Posix.Deadline.{Timespec}
use libdronecan.Posix.Semaphore.{AbsTime, timedlock_compat}
use libdronecan.Posix.Semaphore.Laws.{IsRecursive, IsHeld, timedlock_compat_spins}

abbrev now : Timespec
now = record { tv_sec = 7; tv_nsec = 999999000 }

abbrev lock : ℕ → ℕ × ℕ
lock n = (0, n + 1)

abbrev unlock : ℕ → ℕ × ℕ
unlock n = (0, n - 1)

-- What a thread gets that may not wait.
abbrev busy : ℕ → ℕ × ℕ
busy n = (16, n)

abbrev refuse : AbsTime → ℕ → ℕ × ℕ
refuse t n = (22, n)

abbrev clock : ℕ → Timespec × ℕ
clock n = (now, n)

recursive : IsRecursive lock busy unlock refuse clock (λ n. n)
recursive = record { locks = λ n. (refl, refl); unlocks = λ n h. (refl, refl) }

held : IsHeld lock busy unlock refuse clock (λ n. true)
held = record { reading = λ n. refl; invalid = λ t n h over. omega arith }

-- The time is past by a microsecond.
abbrev past : Timespec → Timespec → ℤ
past curr_ts ts = pos 1

timedlock_compat_spins_example : timedlock_compat busy clock (λ n. n) past 500 now 0 ≡ out_of_fuel
timedlock_compat_spins_example =
    timedlock_compat_spins busy clock (λ n. n) past now 500 0 (λ n. omega arith) (λ n. refl)
