-- ===== src/DataIface/HwSemaphore/Laws.antt =====
-- How the loop in the constructor of `HWSemaphore` (DC_DataIface/DataIface_ShMem.cpp) comes to an end.
use libdronecan.Prelude.{
  ℕ, zero, suc, ◌/◌, ◌%◌, ◌^◌, ◌<◌, ◌≡◌, ◌≢◌, refl, ◌∙◌, true, false, ==_ne, ==_self, bit_and,
  arith, Bool-cases, inl, inr, ap, sym,
}
use libdronecan.Pal.Links.{returns}
use libdronecan.DataIface.ShMem.{Core, hsem_core_id}
use libdronecan.DataIface.HwSemaphore.{held, acquire_loop}

-- Semaphore `i` as `core` sees it: the other core gives it up after `left` events. Until then its
-- register names another core; from then on reading it takes or keeps it, and gives the lock bit
-- and the core's number.
pub record IsHsem {E : Type 0} (rlr : ℕ → E → ℕ × E) (wait_one : ℕ → E → E) (lock : ℕ) (core : Core)
    (i : ℕ) (left : E → ℕ) : Type 0 where
  pub taken :
      (env : E) (n : ℕ)
      → left env ≡ suc n
      → ((rlr i env).0 / 2 ^ 8 % 256 ≢ hsem_core_id core) × (left (rlr i env).1 ≡ suc n)
  pub ours :
      (env : E)
      → left env ≡ 0
      → (bit_and (rlr i env).0 lock ≢ 0)
        × ((rlr i env).0 / 2 ^ 8 % 256 ≡ hsem_core_id core)
        × (left (rlr i env).1 ≡ 0)
  pub wakes : (env : E) (n : ℕ) → left env ≡ suc n → left (wait_one i env) ≡ n

-- What neither reading the register nor sleeping changes, the loop does not change.
module _ {E : Type 0} (rlr : ℕ → E → ℕ × E) (wait_one : ℕ → E → E) (lock : ℕ) (core : Core) (i : ℕ)
    (part : E → ℕ) (read_keeps : (env : E) → part (rlr i env).1 ≡ part env)
    (wait_keeps : (env : E) → part (wait_one i env) ≡ part env) where
  held-keeps : (env : E) → part (held rlr wait_one lock core i env).1 ≡ part env
  unfolding held
  held-keeps env = ground (arith, read_keeps env, read_keeps (rlr i env).1)

  pub acquire_loop-keeps :
      (k : ℕ) (env env' : E)
      → acquire_loop rlr wait_one lock k core i env ≡ returns env'
      → part env' ≡ part env
  unfolding acquire_loop
  acquire_loop-keeps zero env env' e = cc e
  acquire_loop-keeps (suc k) env env' e =
      let env1 = (held rlr wait_one lock core i env).1 in
      elim (Bool-cases (held rlr wait_one lock core i env).0) [
        | inl got ↦
            let same : returns env1 ≡ returns env' = rw (acquire_loop, got) at e in
            let done : env1 ≡ env' = cc same in ap part (sym done) ∙ held-keeps env
        | inr not_yet ↦
            let again : acquire_loop rlr wait_one lock k core i (wait_one i env1) ≡ returns env' =
              rw (acquire_loop, not_yet) at e in
            acquire_loop-keeps k (wait_one i env1) env' again ∙ wait_keeps env1 ∙ held-keeps env
      ]

module _ {E : Type 0} (rlr : ℕ → E → ℕ × E) (wait_one : ℕ → E → E) (lock : ℕ) (core : Core) (i : ℕ)
    (left : E → ℕ) (hw : IsHsem rlr wait_one lock core i left) where
  held_ours :
      (env : E)
      → left env ≡ 0
      → ((held rlr wait_one lock core i env).0 ≡ true)
        × (left (held rlr wait_one lock core i env).1 ≡ 0)
  unfolding held
  held_ours env e =
      let (locked, id, free) = hw.ours env e in
      let (locked', id', free') = hw.ours (rlr i env).1 free in
      rw (==_ne (bit_and (rlr i env).0 lock) 0 locked, id', ==_self (hsem_core_id core))
        (refl, free')

  held_taken :
      (env : E) (n : ℕ)
      → left env ≡ suc n
      → ((held rlr wait_one lock core i env).0 ≡ false)
        × (left (held rlr wait_one lock core i env).1 ≡ suc n)
  unfolding held
  held_taken env n e =
      let (other, same) = hw.taken env n e in
      let (other', same') = hw.taken (rlr i env).1 n same in ground (arith, other', same', same)

  pub acquire_loop-ours :
      (n k : ℕ) (env : E)
      → left env ≡ n
      → n < k
      → (env' : E) × (acquire_loop rlr wait_one lock k core i env ≡ returns env') × (left env' ≡ 0)
  unfolding acquire_loop
  acquire_loop-ours n zero env e lt = absurd (omega arith)
  acquire_loop-ours zero (suc k) env e lt =
      let (got, free) = held_ours env e in
      ((held rlr wait_one lock core i env).1, rw (acquire_loop, got) refl, free)
  acquire_loop-ours (suc n) (suc k) env e lt =
      let (got, same) = held_taken env n e in
      let env1 = (held rlr wait_one lock core i env).1 in
      let (env', result, free) =
        acquire_loop-ours n k (wait_one i env1) (hw.wakes env1 n same) (omega arith) in
      (env', rw (acquire_loop, got) result, free)
