-- ===== src/ChibiOs/Board/Program.antt =====
-- `program` of board.c, from its start to the reset of the system.
use libdronecan.Prelude.{ℕ, ◌≤◌, ◌<◌, ◌≡◌, ap, ◌∙◌, true, false, arith}
use libdronecan.Pal.Links.{Run, and_then}
use libdronecan.ChibiOs.Board.{
  boot4_value, Register, optcr, optsr_prg, Masks, unlock, set_bits, set_boot4, program,
}
use libdronecan.ChibiOs.Board.Flash.{Options, IsFlash}
use libdronecan.ChibiOs.Board.Steps.{
  Ends, wait_idle-Ends, set_boot4-view, unlock-view, bcm4-view, start-view, lock-view,
}

module _ {S : Type 0} {read : Register → S → ℕ × S} {write : Register → ℕ → S → S} {masks : Masks}
    {stm32_clock_init reset : S → S} {view : S → Options} {slowest : ℕ}
    (flash : IsFlash read write masks stm32_clock_init reset view slowest) where
  -- One part of the run behind the other.
  Ends-then :
      {m : Run S} {k : S → Run S} {o o' o'' : Options}
      → Ends flash m o
      → o ≡ o'
      → ((s : S) → view s ≡ o' → Ends flash (k s) o'')
      → Ends flash (and_then m k) o''
  Ends-then {k} first same next =
      let rest = next first.state (first.leaves ∙ same) in
      record {
        state = rest.state;
        result = ap (λ r. and_then r k) first.result ∙ rest.result;
        leaves = rest.leaves;
      }

  abbrev started : S → S
  started s =
      set_bits read write masks optcr masks.optstart
        (set_bits read write masks optsr_prg masks.bcm4 (set_boot4 read write masks s))

  -- The value is computed from the address in force, and programmed.
  started-view :
      (s : S)
      → (view s).locked ≡ false
      → (view s).busy ≡ 0
      → (n : ℕ) × (n ≤ slowest)
        × (view (started s) ≡ record {
          cur = boot4_value (view s).cur;
          prg = boot4_value (view s).cur;
          locked = false;
          busy = n;
        })
  started-view s unlocked idle =
      let s' = set_bits read write masks optsr_prg masks.bcm4 (set_boot4 read write masks s) in
      let set = bcm4-view flash (set_boot4 read write masks s) ∙ set_boot4-view flash s unlocked in
      let (n, bound, moved) =
        start-view flash s' (ap (λ (o : Options). o.locked) set ∙ unlocked)
          (ap (λ (o : Options). o.busy) set ∙ idle) in
      (
        n,
        bound,
        moved
            ∙ ap (λ (o : Options). record o { cur = o.prg; busy = n }) set
            ∙ ap
                (λ b. record {
                  cur = boot4_value (view s).cur;
                  prg = boot4_value (view s).cur;
                  locked = b;
                  busy = n;
                })
                unlocked,
      )

  pub program-Ends :
      (fuel : ℕ) (s : S)
      → (view s).busy < fuel
      → slowest < fuel
      → Ends flash (program read write masks fuel s) (record {
        cur = boot4_value (view s).cur;
        prg = boot4_value (view s).cur;
        locked = true;
        busy = 0;
      })
  unfolding program
  program-Ends fuel s lt enough =
      let v = boot4_value (view s).cur in
      let ready = unlock-view flash s in
      Ends-then (wait_idle-Ends flash fuel (unlock read write masks s) (rw ready lt))
        (ap (λ (o : Options). record o { busy = 0 }) ready)
        λ s1 at1.
          let (n, bound, at2) =
            started-view s1 (ap (λ (o : Options). o.locked) at1)
              (ap (λ (o : Options). o.busy) at1) in
          let same =
            at2
            ∙ ap
                (λ (o : Options). record {
                  cur = boot4_value o.cur;
                  prg = boot4_value o.cur;
                  locked = false;
                  busy = n;
                })
                at1 in
          Ends-then (wait_idle-Ends flash fuel (started s1) (rw same (omega (arith, bound))))
            (ap (λ (o : Options). record o { busy = 0 }) same)
            λ s2 at3.
              let shut =
                lock-view flash s2 (ap (λ (o : Options). o.busy) at3)
                ∙ ap (λ (o : Options). record o { locked = true }) at3 in
              let last =
                wait_idle-Ends flash fuel (set_bits read write masks optcr masks.optlock s2)
                  (rw shut (omega arith)) in
              record {
                state = last.state;
                result = last.result;
                leaves = last.leaves ∙ ap (λ (o : Options). record o { busy = 0 }) shut;
              }
