-- ===== src/DataIface/Interrupts/Laws.antt =====
-- Which flags `sem_free_it` of DC_DataIface/DataIface_ShMem.cpp hands on and which it clears.
use libdronecan.Prelude.{ℕ, ◌-◌, ◌^◌, ◌<◌, ◌≡◌, ◌∙◌, ap, true, false, ◌||◌, arith, bit_and, bit_or}
use libdronecan.Prelude.Bits.{test_bit, test_bit-and, test_bit-or, test_bit-not, bit_or-lt}
use libdronecan.DataIface.Interrupts.{Hsem, sem_free_it}

-- The flags that are raised, those that the listeners were given, and those that come up while a
-- broadcast is under way.
pub record IsFlagged {E : Type 0} (hsem : Hsem E) (raised given rising : E → ℕ) : Type 0 where
  pub reads : (env : E) → hsem.read_isr env ≡ (raised env, env)
  pub broadcasts :
      (m : ℕ) (env : E)
      → (given (hsem.broadcast m env) ≡ bit_or (given env) m)
        × (raised (hsem.broadcast m env) ≡ bit_or (raised env) (rising env))
  pub clears :
      (m : ℕ) (env : E)
      → (raised (hsem.write_icr m env) ≡ bit_and (raised env) (2 ^ 32 - 1 - m))
        × (given (hsem.write_icr m env) ≡ given env)

module _ {E : Type 0} (hsem : Hsem E) (raised given rising : E → ℕ)
    (hw : IsFlagged hsem raised given rising) where
  -- The environment when the broadcast of the handler has ended.
  abbrev after : E → E
  after env = hsem.broadcast (raised env) env

  sem_free_it_lem :
      (env : E) → sem_free_it hsem env ≡ hsem.write_icr (raised (after env)) (after env)
  unfolding sem_free_it
  sem_free_it_lem env =
      ap
        (λ (r : ℕ × E). let r' = hsem.read_isr (hsem.broadcast r.0 r.1) in hsem.write_icr r'.0 r'.1)
        (hw.reads env)
      ∙ ap (λ (r : ℕ × E). hsem.write_icr r.0 r.1) (hw.reads (after env))

  -- The handler clears every flag, and gives the listeners those that were raised when it began.
  pub sem_free_it-flags :
      (env : E) (i : ℕ)
      → i < 32
      → raised env < 2 ^ 32
      → rising env < 2 ^ 32
      → (test_bit (raised (sem_free_it hsem env)) i ≡ false)
        × (test_bit (given (sem_free_it hsem env)) i
            ≡ (test_bit (given env) i || test_bit (raised env) i))
  sem_free_it-flags env i lt small small' =
      let env1 = after env in
      let (gave, rose) = hw.broadcasts (raised env) env in
      let (left, kept) = hw.clears (raised env1) env1 in
      let fits : raised env1 < 2 ^ 32 =
        rw rose (bit_or-lt 32 (raised env) (rising env) small small') in
      rw (sem_free_it_lem env) (
        ground (
          arith,
          ap (λ m. test_bit m i) left,
          test_bit-and i (raised env1) (2 ^ 32 - 1 - raised env1),
          test_bit-not 32 i (raised env1) fits lt,
        ),
        ap (λ m. test_bit m i) (kept ∙ gave) ∙ test_bit-or i (given env) (raised env),
      )

  -- A flag that comes up during the broadcast of `sem_free_it` is cleared by it and given to no
  -- listener. Reading, broadcasting and clearing do to the flags what their names say, and the
  -- masks fit 32 bits.
  pub sem_free_it_loses :
      (env : E) (i : ℕ)
      → i < 32
      → raised env < 2 ^ 32
      → rising env < 2 ^ 32
      → test_bit (raised env) i ≡ false
      → test_bit (given env) i ≡ false
      → test_bit (rising env) i ≡ true
      → (test_bit (raised (hsem.broadcast (raised env) env)) i ≡ true)
        × (test_bit (raised (sem_free_it hsem env)) i ≡ false)
        × (test_bit (given (sem_free_it hsem env)) i ≡ false)
  sem_free_it_loses env i lt small small' low fresh rises =
      let (cleared, given_on) = sem_free_it-flags env i lt small small' in
      let (gave, rose) = hw.broadcasts (raised env) env in
      (
        ap (λ m. test_bit m i) rose
            ∙ test_bit-or i (raised env) (rising env)
            ∙ ground (arith, rises),
        cleared,
        ground (arith, given_on, fresh, low),
      )
