-- ===== src/ChibiOs/Board.antt =====
-- DC_PAL_ChibiOS/cfg_stm32h7xx/board.c, the start of the first core, and the same file of
-- cfg_stm32h7xx_m4. `__early_init` programs the boot address of the second core into the option
-- bytes of the flash. The registers of the flash are a parameter, `read` and `write` over some
-- state, as are `stm32_clock_init`, the reset of the system and the masks of the register bits;
-- the loops that wait for the flash run on fuel.
pub mod Flash
mod Steps
mod Program
pub mod Laws
mod Tests
use libdronecan.Prelude.{ℕ, zero, suc, Bool, true, false, ◌==◌, if◌then◌else◌, bit_and, bit_or}
use libdronecan.Pal.Links.{Run, returns, and_then, out_of_fuel}

abbrev pub boot_cm4 : ℕ
boot_cm4 = 0x081F

-- `(FLASH->BOOT4_CUR & 0xFFFF0000LU) | 0x081FU`
pub boot4_value : ℕ → ℕ
boot4_value cur = bit_or (bit_and cur 0xFFFF0000) boot_cm4

-- The registers of `FLASH` that are used.
pub data Register : Type 0 where
  boot4_cur : Register
  boot4_prg : Register
  optcr : Register
  optkeyr : Register
  optsr_cur : Register
  optsr_prg : Register

-- How `__early_init` ends: it comes back, or NVIC_SystemReset has reset the system.
pub data Boot (S : Type 0) : Type 0 where
  goes_on : S → Boot S
  was_reset : S → Boot S

-- FLASH_OPTCR_OPTLOCK, FLASH_OPTCR_OPTSTART, FLASH_OPTSR_OPT_BUSY and FLASH_OPTSR_BCM4.
pub record Masks : Type 0 where
  pub optlock : ℕ
  pub optstart : ℕ
  pub opt_busy : ℕ
  pub bcm4 : ℕ

module _ {S : Type 0} (read : Register → S → ℕ × S) (write : Register → ℕ → S → S)
    (masks : Masks) where
  -- `while (FLASH->OPTSR_CUR & FLASH_OPTSR_OPT_BUSY) { }`
  pub wait_idle : ℕ → S → Run S
  wait_idle zero s = out_of_fuel
  wait_idle (suc k) s =
      let (status, s') = read optsr_cur s in
      elim (bit_and status masks.opt_busy == 0) [ true ↦ returns s' | false ↦ wait_idle k s' ]

  -- `if (FLASH->OPTCR & FLASH_OPTCR_OPTLOCK) { ... }`
  pub unlock : S → S
  unlock s =
      let (control, s') = read optcr s in
      if bit_and control masks.optlock == 0
      then s'
      else write optkeyr 0x4C5D6E7F (write optkeyr 0x08192A3B s')

  -- `FLASH->r |= mask;`
  pub set_bits : Register → ℕ → S → S
  set_bits r mask s = let (v, s') = read r s in write r (bit_or v mask) s'

  -- `FLASH->BOOT4_PRG = (FLASH->BOOT4_CUR & 0xFFFF0000LU) | 0x081FU;`
  pub set_boot4 : S → S
  set_boot4 s = let (cur, s') = read boot4_cur s in write boot4_prg (boot4_value cur) s'

  -- What is done before the system is reset.
  pub program : ℕ → S → Run S
  program fuel s = and_then (wait_idle fuel (unlock s)) λ s1.
      and_then
        (wait_idle fuel
          (set_bits optcr masks.optstart (set_bits optsr_prg masks.bcm4 (set_boot4 s1))))
        λ s2. wait_idle fuel (set_bits optcr masks.optlock s2)

  module _ (stm32_clock_init reset : S → S) where
    pub early_init : ℕ → S → Run (Boot S)
    early_init fuel s =
        let (cur, s') = read boot4_cur (stm32_clock_init s) in
        if bit_and cur boot_cm4 == boot_cm4
        then returns (goes_on s')
        else and_then (program fuel s') λ s''. returns (was_reset (reset s''))

-- `__early_init` of the second core.
pub early_init_m4 : {S : Type 0} → (stm32_clock_init : S → S) → S → S
early_init_m4 stm32_clock_init s = stm32_clock_init s

-- `sdc_lld_is_card_inserted` and the three others, whatever the driver.
pub sdc_lld_is_card_inserted : {D : Type 0} → D → Bool
sdc_lld_is_card_inserted sdcp = true

pub sdc_lld_is_write_protected : {D : Type 0} → D → Bool
sdc_lld_is_write_protected sdcp = false

pub mmc_lld_is_card_inserted : {D : Type 0} → D → Bool
mmc_lld_is_card_inserted mmcp = true

pub mmc_lld_is_write_protected : {D : Type 0} → D → Bool
mmc_lld_is_write_protected mmcp = false
