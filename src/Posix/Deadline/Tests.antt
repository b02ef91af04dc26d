-- ===== src/Posix/Deadline/Tests.antt =====
-- A deadline from a time near the end of a second.
use libdronecan.Prelude.{◌≡◌, refl}
use libdronecan.Posix.Deadline.{Timespec, deadline}

abbrev now : Timespec
now = record { tv_sec = 7; tv_nsec = 999999000 }

carries : deadline 2000 now ≡ record { tv_sec = 8; tv_nsec = 1999000 }
unfolding deadline
carries = refl
