-- ===== src/DataIface/Interrupts/Construct.antt =====
-- The constructor of `HWSemaphore` (DC_DataIface/DataIface_ShMem.cpp) with its interrupt.
use libdronecan.Prelude.{ℕ, ◌≡◌}
use libdronecan.DataIface.Interrupts.{Hsem}

-- The register of the interrupts reads as written, it and the semaphore have nothing to do with
-- each other, and the listener with neither.
pub record IsQuiet {E : Type 0} (hsem : Hsem E) (rlr : ℕ → E → ℕ × E) (wait_one : ℕ → E → E)
    (listen : ℕ → E → E) (unlisten : E → E) (ier left : E → ℕ) : Type 0 where
  pub reads : (env : E) → hsem.read_ier env ≡ (ier env, env)
  pub writes :
      (m : ℕ) (env : E)
      → (ier (hsem.write_ier m env) ≡ m) × (left (hsem.write_ier m env) ≡ left env)
  pub rlr_keeps : (i : ℕ) (env : E) → ier (rlr i env).1 ≡ ier env
  pub wait_keeps : (i : ℕ) (env : E) → ier (wait_one i env) ≡ ier env
  pub listens :
      (m : ℕ) (env : E) → (ier (listen m env) ≡ ier env) × (left (listen m env) ≡ left env)
  pub unlistens : (env : E) → (ier (unlisten env) ≡ ier env) × (left (unlisten env) ≡ left env)
