-- ===== src/ChibiOs/Board/Flash.antt =====
-- What board.c relies on of the option bytes of the flash, as the manual of the microcontroller
-- describes them.
use libdronecan.Prelude.{ℕ, ◌-◌, ◌≤◌, ◌≡◌, Bool, true, false, not, ◌==◌, bit_and, bit_or}
use libdronecan.ChibiOs.Board.{
  Register, boot4_cur, boot4_prg, optcr, optkeyr, optsr_cur, optsr_prg, Masks,
}

-- The boot address in force and the one to be programmed, whether the option bytes are locked, and
-- how many readings of the status will still find the flash busy.
pub record Options : Type 0 where
  pub cur : ℕ
  pub prg : ℕ
  pub locked : Bool
  pub busy : ℕ

-- A reading gives `v` and leaves the options `o`.
pub record Gives {S : Type 0} (view : S → Options) (r : ℕ × S) (v : ℕ) (o : Options) : Type 0 where
  pub state : S
  pub gives : r ≡ (v, state)
  pub leaves : view state ≡ o

pub record IsFlash {S : Type 0} (read : Register → S → ℕ × S) (write : Register → ℕ → S → S)
    (masks : Masks) (stm32_clock_init reset : S → S) (view : S → Options) (slowest : ℕ)
    : Type 0 where
  -- The clocks have nothing to do with the option bytes, and a reset locks them.
  pub clock_keeps : (s : S) → view (stm32_clock_init s) ≡ view s
  pub reset_locks : (s : S) → view (reset s) ≡ record (view s) { locked = true; busy = 0 }
  pub read_cur : (s : S) → Gives view (read boot4_cur s) (view s).cur (view s)
  -- The control register shows the lock, and the start bit only while the flash works.
  pub read_control :
      (s : S)
      → (v : ℕ) × Gives view (read optcr s) v (view s)
        × ((bit_and v masks.optlock == 0) ≡ not (view s).locked)
        × ((view s).busy ≡ 0 → (bit_and v masks.optstart == 0) ≡ true)
  pub read_prg_status : (s : S) → (v : ℕ) × Gives view (read optsr_prg s) v (view s)
  pub read_status :
      (s : S)
      → (v : ℕ) × Gives view (read optsr_cur s) v (record (view s) { busy = (view s).busy - 1 })
        × ((bit_and v masks.opt_busy == 0) ≡ ((view s).busy == 0))
  -- The two keys, one behind the other, unlock the options.
  pub write_keys :
      (s : S)
      → (view s).locked ≡ true
      → view (write optkeyr 0x4C5D6E7F (write optkeyr 0x08192A3B s))
        ≡ record (view s) { locked = false }
  -- The new values are taken while the options are unlocked.
  pub write_prg :
      (v : ℕ) (s : S)
      → (view s).locked ≡ false
      → view (write boot4_prg v s) ≡ record (view s) { prg = v }
  pub write_prg_status : (v : ℕ) (s : S) → view (write optsr_prg v s) ≡ view s
  -- The start bit programs them, which takes its time; the lock bit locks them.
  pub write_start :
      (v : ℕ) (s : S)
      → (view s).locked ≡ false
      → (view s).busy ≡ 0
      → (bit_and v masks.optlock == 0) ≡ true
      → (n : ℕ) × (n ≤ slowest)
        × (view (write optcr (bit_or v masks.optstart) s)
            ≡ record (view s) { cur = (view s).prg; busy = n })
  pub write_lock :
      (v : ℕ) (s : S)
      → (view s).busy ≡ 0
      → (bit_and v masks.optstart == 0) ≡ true
      → view (write optcr (bit_or v masks.optlock) s) ≡ record (view s) { locked = true }
