-- ===== src/DataIface/HwSemaphore.antt =====
-- `ShMemIface::HWSemaphore` of DC_DataIface/DataIface_ShMem.cpp. The hardware is a parameter: `rlr`
-- reads the register of a semaphore, which takes the semaphore if it is free, `lock` is the mask
-- HSEM_RLR_LOCK, and `wait_one` sleeps until the event of the semaphore. The constructor
-- around the loop is in Interrupts.
pub mod Laws
pub mod Turns
pub mod Exclusion
mod Tests
use libdronecan.Prelude.{
  ℕ, zero, suc, ◌/◌, ◌%◌, ◌^◌, Bool, true, false, ◌==◌, ltb, if◌then◌else◌, bit_and, Option, none,
  some,
}
use libdronecan.Pal.Links.{Run, returns, null_deref, out_of_fuel}
use libdronecan.DataIface.ShMem.{Core, hsem_core_id}

module _ {E : Type 0} (rlr : ℕ → E → ℕ × E) (wait_one : ℕ → E → E) (lock : ℕ) where
  -- The negation of the loop's condition; the second read is made only if the first has the lock bit.
  pub held : Core → ℕ → E → Bool × E
  held core i env =
      let (first, env1) = rlr i env in
      if bit_and first lock == 0
      then (false, env1)
      else (let (second, env2) = rlr i env1 in (second / 2 ^ 8 % 256 == hsem_core_id core, env2))

  pub acquire_loop : ℕ → Core → ℕ → E → Run E
  acquire_loop zero core i env = out_of_fuel
  acquire_loop (suc k) core i env =
      let (got, env') = held core i env in
      elim got [ true ↦ returns env' | false ↦ acquire_loop k core i (wait_one i env') ]
