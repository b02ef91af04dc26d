-- ===== src/ChibiOs/Board/Steps.antt =====
-- What the parts of `__early_init` of board.c do to the option bytes.
use libdronecan.Prelude.{
  ℕ, zero, suc, ◌≤◌, ◌<◌, ◌≡◌, ap, ◌∙◌, Bool, true, false, not, ◌==◌, bit_and, bit_or, arith,
  Bool-cases, inl, inr,
}
use libdronecan.Pal.Links.{Run, returns}
use libdronecan.ChibiOs.Board.{
  boot4_value, Register, optcr, optsr_cur, optsr_prg, Masks, wait_idle, unlock, set_bits, set_boot4,
}
use libdronecan.ChibiOs.Board.Flash.{Options, IsFlash}

module _ {S : Type 0} {read : Register → S → ℕ × S} {write : Register → ℕ → S → S} {masks : Masks}
    {stm32_clock_init reset : S → S} {view : S → Options} {slowest : ℕ}
    (flash : IsFlash read write masks stm32_clock_init reset view slowest) where
  -- The run comes to its end and leaves the options `o`.
  pub record Ends (m : Run S) (o : Options) : Type 0 where
    pub state : S
    pub result : m ≡ returns state
    pub leaves : view state ≡ o

  -- What is made of a reading of the status.
  abbrev judge : ℕ → Bool → S → Run S
  judge k idle s = elim idle [ true ↦ returns s | false ↦ wait_idle read write masks k s ]

  judge-read :
      (k : ℕ) (s s' : S) (v : ℕ) (b : Bool)
      → read optsr_cur s ≡ (v, s')
      → (bit_and v masks.opt_busy == 0) ≡ b
      → wait_idle read write masks (suc k) s ≡ judge k b s'
  unfolding wait_idle
  judge-read k s s' v b got test =
      ap (λ (r : ℕ × S). judge k (bit_and r.0 masks.opt_busy == 0) r.1) got
      ∙ ap (λ t. judge k t s') test

  pub wait_idle-Ends :
      (k : ℕ) (s : S)
      → (view s).busy < k
      → Ends (wait_idle read write masks k s) (record (view s) { busy = 0 })
  unfolding wait_idle
  wait_idle-Ends zero s lt = absurd (omega arith)
  wait_idle-Ends (suc k) s lt =
      let (v, got, test) = flash.read_status s in
      elim (Bool-cases ((view s).busy == 0)) [
        | inl idle ↦
            let done : (bit_and v masks.opt_busy == 0) ≡ true = test ∙ idle in
            record {
              state = got.state;
              result = judge-read k s got.state v true got.gives done;
              leaves = got.leaves ∙ ap (λ n. record (view s) { busy = n }) (ground arith);
            }
        | inr busy ↦
            let goes : (bit_and v masks.opt_busy == 0) ≡ false = test ∙ busy in
            let fewer : (view got.state).busy < k = rw got.leaves (ground (arith, busy)) in
            let rest = wait_idle-Ends k got.state fewer in
            record {
              state = rest.state;
              result = judge-read k s got.state v false got.gives goes ∙ rest.result;
              leaves = rest.leaves ∙ ap (λ (o : Options). record o { busy = 0 }) got.leaves;
            }
      ]

  pub set_boot4-view :
      (s : S)
      → (view s).locked ≡ false
      → view (set_boot4 read write masks s) ≡ record (view s) { prg = boot4_value (view s).cur }
  unfolding set_boot4
  set_boot4-view s unlocked =
      let got = flash.read_cur s in
      let still : (view got.state).locked ≡ false =
        ap (λ (o : Options). o.locked) got.leaves ∙ unlocked in
      rw got.gives (flash.write_prg (boot4_value (view s).cur) got.state still)
      ∙ ap (λ (o : Options). record o { prg = boot4_value (view s).cur }) got.leaves

  pub unlock-view : (s : S) → view (unlock read write masks s) ≡ record (view s) { locked = false }
  unfolding unlock
  unlock-view s =
      let (v, got, test, idle) = flash.read_control s in
      elim (Bool-cases (view s).locked) [
        | inl locked ↦
            let shut : (bit_and v masks.optlock == 0) ≡ false = test ∙ ap not locked in
            let still : (view got.state).locked ≡ true =
              ap (λ (o : Options). o.locked) got.leaves ∙ locked in
            rw (got.gives, shut)
              (flash.write_keys got.state still
                ∙ ap (λ (o : Options). record o { locked = false }) got.leaves)
        | inr unlocked ↦
            let free : (bit_and v masks.optlock == 0) ≡ true = test ∙ ap not unlocked in
            rw (got.gives, free) (got.leaves ∙ ap (λ b. record (view s) { locked = b }) unlocked)
      ]

  pub bcm4-view : (s : S) → view (set_bits read write masks optsr_prg masks.bcm4 s) ≡ view s
  unfolding set_bits
  bcm4-view s =
      let (v, got) = flash.read_prg_status s in
      rw got.gives (flash.write_prg_status (bit_or v masks.bcm4) got.state ∙ got.leaves)

  pub start-view :
      (s : S)
      → (view s).locked ≡ false
      → (view s).busy ≡ 0
      → (n : ℕ) × (n ≤ slowest)
        × (view (set_bits read write masks optcr masks.optstart s)
            ≡ record (view s) { cur = (view s).prg; busy = n })
  unfolding set_bits
  start-view s unlocked idle =
      let (v, got, test, clear) = flash.read_control s in
      let (n, bound, after) =
        flash.write_start v got.state (ap (λ (o : Options). o.locked) got.leaves ∙ unlocked)
          (ap (λ (o : Options). o.busy) got.leaves ∙ idle) (test ∙ ap not unlocked) in
      (
        n,
        bound,
        rw got.gives (after ∙ ap (λ (o : Options). record o { cur = o.prg; busy = n }) got.leaves),
      )

  pub lock-view :
      (s : S)
      → (view s).busy ≡ 0
      → view (set_bits read write masks optcr masks.optlock s) ≡ record (view s) { locked = true }
  unfolding set_bits
  lock-view s idle =
      let (v, got, test, clear) = flash.read_control s in
      rw got.gives (
        flash.write_lock v got.state (ap (λ (o : Options). o.busy) got.leaves ∙ idle) (clear idle)
        ∙ ap (λ (o : Options). record o { locked = true }) got.leaves)
