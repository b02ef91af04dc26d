-- ===== src/ChibiOs/Board/Laws.antt =====
-- `__early_init` of board.c on a flash that keeps to its manual, over a restart.
use libdronecan.Prelude.{
  ℕ, ◌+◌, ◌*◌, ◌/◌, ◌^◌, ◌<◌, ◌≡◌, ◌≢◌, ap, ◌∙◌, Bool, true, false, ◌==◌, if◌then◌else◌, bit_and,
  bit_or, arith, ==_ne, ==_self,
}
use libdronecan.Prelude.Bits.{test_bit-and, test_bit-or, eq_of_bits, bit_and-le, shift-bit_or}
use libdronecan.Prelude.Bits.High.{bit_and-high}
use libdronecan.Pal.Links.{Run, returns, and_then}
use libdronecan.ChibiOs.Board.{
  boot_cm4, boot4_value, Register, Boot, goes_on, was_reset, Masks, program, early_init,
}
use libdronecan.ChibiOs.Board.Flash.{Options, IsFlash}
use libdronecan.ChibiOs.Board.Program.{program-Ends}

boot4_value-parts : (cur : ℕ) → cur < 2 ^ 32 → boot4_value cur ≡ 2 ^ 16 * (cur / 2 ^ 16) + boot_cm4
unfolding boot4_value
boot4_value-parts cur h =
    ap (λ n. bit_or n boot_cm4) (bit_and-high cur h)
    ∙ shift-bit_or 16 (cur / 2 ^ 16) boot_cm4 (omega arith)

-- The guard of the next boot.
boot4_value-guard : (cur : ℕ) → cur < 2 ^ 32 → bit_and (boot4_value cur) boot_cm4 ≡ boot_cm4
unfolding boot4_value
boot4_value-guard cur h =
    eq_of_bits 32 (bit_and (boot4_value cur) boot_cm4) boot_cm4
      (bit_and-le 32 (boot4_value cur) boot_cm4 (omega (arith, boot4_value-parts cur h)))
      (omega arith)
      λ i lt. ground (
        arith,
        test_bit-and i (boot4_value cur) boot_cm4,
        test_bit-or i (bit_and cur 0xFFFF0000) boot_cm4,
      )

module _ {S : Type 0} {read : Register → S → ℕ × S} {write : Register → ℕ → S → S} {masks : Masks}
    {stm32_clock_init reset : S → S} {view : S → Options} {slowest : ℕ}
    (flash : IsFlash read write masks stm32_clock_init reset view slowest) where
  -- What `__early_init` does about the address that it reads.
  abbrev decide : ℕ → Bool → S → Run (Boot S)
  decide fuel set s =
      if set
      then returns (goes_on s)
      else and_then (program read write masks fuel s) (λ s'. returns (was_reset (reset s')))

  early_init-decide :
      (fuel : ℕ) (s : S) (set : Bool)
      → (bit_and (view s).cur boot_cm4 == boot_cm4) ≡ set
      → (s' : S) × (early_init read write masks stm32_clock_init reset fuel s ≡ decide fuel set s')
        × (view s' ≡ view s)
  unfolding early_init
  early_init-decide fuel s set test =
      let got = flash.read_cur (stm32_clock_init s) in
      let start = flash.clock_keeps s in
      (
        got.state,
        ap (λ (r : ℕ × S). decide fuel (bit_and r.0 boot_cm4 == boot_cm4) r.1) got.gives
            ∙ ap (λ (o : Options). decide fuel (bit_and o.cur boot_cm4 == boot_cm4) got.state) start
            ∙ ap (λ b. decide fuel b got.state) test,
        got.leaves ∙ start,
      )

  -- Where the address in force lacks a bit of 0x081F, `__early_init` programs and ends in a
  -- reset: the address in force is then 0x081F in its lower half and what it was in its upper
  -- half, the options are locked, and `__early_init` of the next boot comes back and leaves them
  -- so. The flash keeps to its manual, the address is of 32 bits, and each loop has more rounds
  -- than the flash is busy, when it starts and at the most.
  pub early_init_lem :
      (fuel fuel' : ℕ) (s : S)
      → (view s).cur < 2 ^ 32
      → bit_and (view s).cur boot_cm4 ≢ boot_cm4
      → (view s).busy < fuel
      → slowest < fuel
      → (s' s'' : S) × (early_init read write masks stm32_clock_init reset fuel s
          ≡ returns (was_reset s'))
        × (early_init read write masks stm32_clock_init reset fuel' s' ≡ returns (goes_on s''))
        × ((view s').cur ≡ 2 ^ 16 * ((view s).cur / 2 ^ 16) + boot_cm4)
        × ((view s').locked ≡ true)
        × (view s'' ≡ view s')
  early_init_lem fuel fuel' s fits lacks lt enough =
      let (at, first, same) = early_init-decide fuel s false (==_ne _ boot_cm4 lacks) in
      let done = program-Ends flash fuel at (rw same lt) enough in
      let after : view (reset done.state) ≡ record {
        cur = boot4_value (view s).cur;
        prg = boot4_value (view s).cur;
        locked = true;
        busy = 0;
      } =
        flash.reset_locks done.state
        ∙ ap (λ (o : Options). record o { locked = true; busy = 0 }) done.leaves
        ∙ ap
            (λ (o : Options). record {
              cur = boot4_value o.cur;
              prg = boot4_value o.cur;
              locked = true;
              busy = 0;
            })
            same in
      let address = ap (λ (o : Options). o.cur) after in
      let guard =
        ap (λ n. bit_and n boot_cm4 == boot_cm4) address
        ∙ ap (λ n. n == boot_cm4) (boot4_value-guard (view s).cur fits)
        ∙ ==_self boot_cm4 in
      let (next, second, kept) = early_init-decide fuel' (reset done.state) true guard in
      (
        reset done.state,
        next,
        first ∙ ap (λ r. and_then r (λ s'. returns (was_reset (reset s')))) done.result,
        second,
        address ∙ boot4_value-parts (view s).cur fits,
        ap (λ (o : Options). o.locked) after,
        kept,
      )
