-- ===== src/ChibiOs/Board/Tests.antt =====
-- A boot of a flash that is busy for three readings after each start.
use libdronecan.Prelude.{
  ℕ, ◌+◌, ◌-◌, ◌*◌, ◌/◌, ◌^◌, ◌≡◌, refl, Bool, true, false, not, ◌&&◌, ◌==◌, if◌then◌else◌, bit_and,
  bit_or, arith,
}
use libdronecan.Prelude.Bits.{test_bit, test_bit-or, bit_and-pow}
use libdronecan.Pal.Links.{returns}
use libdronecan.ChibiOs.Board.{
  boot_cm4, Register, boot4_cur, boot4_prg, optcr, optkeyr, optsr_cur, goes_on, was_reset, Masks,
  early_init,
}
use libdronecan.ChibiOs.Board.Flash.{Options, IsFlash}
use libdronecan.ChibiOs.Board.Laws.{early_init_lem}

record Chip : Type 0 where
  options : Options
  keyed : Bool

abbrev masks : Masks
masks = record { optlock = 1; optstart = 2; opt_busy = 1; bcm4 = 0x400000 }

abbrev read : Register → Chip → ℕ × Chip
read boot4_cur c = (c.options.cur, c)
read optcr c = (if c.options.locked then 1 else 0, c)
read optsr_cur c = (
  if c.options.busy == 0 then 0 else 1,
  record c { options = record c.options { busy = c.options.busy - 1 } },
)
read _ c = (0, c)

abbrev start_if : Bool → Options → Options
start_if asked o = if asked && not o.locked then record o { cur = o.prg; busy = 3 } else o

abbrev lock_if : Bool → Options → Options
lock_if asked o = if asked then record o { locked = true } else o

abbrev write : Register → ℕ → Chip → Chip
write boot4_prg v c =
    if c.options.locked then c else record c { options = record c.options { prg = v } }
write optkeyr v c =
    if v == 0x08192A3B
    then record c { keyed = true }
    else if (v == 0x4C5D6E7F) && c.keyed
    then record { options = record c.options { locked = false }; keyed = false }
    else c
write optcr v c = record c {
  options = lock_if (not (bit_and v 1 == 0)) (start_if (not (bit_and v 2 == 0)) c.options);
}
write _ v c = c

abbrev reset : Chip → Chip
reset c = record { options = record c.options { locked = true; busy = 0 }; keyed = false }

-- The bits of a control word that is written back with one of them set.
start_set :
    (v : ℕ)
    → (bit_and v 1 == 0) ≡ true
    → ((bit_and (bit_or v 2) 1 == 0) ≡ true) × ((bit_and (bit_or v 2) 2 == 0) ≡ false)
unfolding test_bit
start_set v clear = (
  ground (arith, bit_and-pow 0 (bit_or v 2), bit_and-pow 0 v, test_bit-or 0 v 2),
  ground (arith, bit_and-pow 1 (bit_or v 2), test_bit-or 1 v 2),
)

lock_set :
    (v : ℕ)
    → (bit_and v 2 == 0) ≡ true
    → ((bit_and (bit_or v 1) 2 == 0) ≡ true) × ((bit_and (bit_or v 1) 1 == 0) ≡ false)
unfolding test_bit
lock_set v clear = (
  ground (arith, bit_and-pow 1 (bit_or v 1), bit_and-pow 1 v, test_bit-or 1 v 1),
  ground (arith, bit_and-pow 0 (bit_or v 1), test_bit-or 0 v 1),
)

lock_bit :
    (b : Bool)
    → ((bit_and (if b then 1 else 0) 1 == 0) ≡ not b)
      × ((bit_and (if b then 1 else 0) 2 == 0) ≡ true)
lock_bit true = (refl, refl)
lock_bit false = (refl, refl)

busy_bit : (b : Bool) → (bit_and (if b then 0 else 1) 1 == 0) ≡ b
busy_bit true = refl
busy_bit false = refl

chip-IsFlash : IsFlash read write masks (λ c. c) reset (λ c. c.options) 3
chip-IsFlash = record {
  clock_keeps = λ c. refl;
  reset_locks = λ c. refl;
  read_cur = λ c. record { state = c; gives = refl; leaves = refl };
  read_control = λ c. (
    if c.options.locked then 1 else 0,
    record { state = c; gives = refl; leaves = refl },
    (lock_bit c.options.locked).0,
    λ idle. (lock_bit c.options.locked).1,
  );
  read_prg_status = λ c. (0, record { state = c; gives = refl; leaves = refl });
  read_status = λ c. (
    if c.options.busy == 0 then 0 else 1,
    record { state = _; gives = refl; leaves = refl },
    busy_bit (c.options.busy == 0),
  );
  write_keys = λ c locked. refl;
  write_prg = λ v c unlocked. rw unlocked refl;
  write_prg_status = λ v c. refl;
  write_start = λ v c unlocked idle clear.
      (3, omega arith, rw ((start_set v clear).0, (start_set v clear).1, unlocked) refl);
  write_lock = λ v c idle clear. rw ((lock_set v clear).0, (lock_set v clear).1) refl;
}

-- Locked, and busy for two readings.
abbrev chip : Chip
chip = record {
  options = record { cur = 0x08100000; prg = 0; locked = true; busy = 2 };
  keyed = false;
}

early_init_lem_example :
    (c' c'' : Chip) × (early_init read write masks (λ c. c) reset 4 chip ≡ returns (was_reset c'))
    × (early_init read write masks (λ c. c) reset 0 c' ≡ returns (goes_on c''))
    × (c'.options.cur ≡ 2 ^ 16 * (0x08100000 / 2 ^ 16) + boot_cm4)
    × (c'.options.locked ≡ true)
    × (c''.options ≡ c'.options)
early_init_lem_example =
    early_init_lem chip-IsFlash 4 0 chip (omega arith) (λ e. omega (arith, e)) (omega arith)
      (omega arith)
