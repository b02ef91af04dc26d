-- ===== src/DataIface/Interrupts.antt =====
-- The interrupts of the hardware semaphores in DC_DataIface/DataIface_ShMem.cpp: the destructor of
-- `HWSemaphore`, the interrupt handler `sem_free_it`, `signal_rx`, and a round of the thread
-- `update_rx`; and the whole constructor, around the loop of HwSemaphore. The registers of HSEM and the events of ChibiOS are parameters.
pub mod Laws
pub mod Construct
mod Tests
use libdronecan.Prelude.{ℕ, ◌-◌, ◌%◌, ◌^◌, bit_and, bit_or, ltb, if◌then◌else◌, Option, none, some}
use libdronecan.Pal.Links.{Run, returns, and_then}
use libdronecan.DataIface.Frame.{CanFrame}
use libdronecan.DataIface.HwSemaphore.{acquire_loop}
use libdronecan.DataIface.ShMem.{Core, Shared, rx_hsem_index, drain}

pub record Hsem (E : Type 0) : Type 0 where
  -- `HSEM_COMMON->IER`, `ICR` and `ISR`
  pub read_ier : E → ℕ × E
  pub write_ier : ℕ → E → E
  pub read_icr : E → ℕ × E
  pub write_icr : ℕ → E → E
  pub read_isr : E → ℕ × E
  -- `HSEM->R[i] = key`
  pub write_r : ℕ → (key : ℕ) → E → E
  -- `evt_src.broadcastFlagsI` and `chEvtWaitAnyTimeout(mask, TIME_INFINITE)`
  pub broadcast : ℕ → E → E
  pub wait_any : ℕ → E → E

module _ {E : Type 0} (hsem : Hsem E) where
  -- The destructor of `HWSemaphore`.
  pub release : (sem_index unlock_key : ℕ) → E → E
  release sem_index unlock_key env =
      let (icr, env1) = hsem.read_icr (hsem.write_r sem_index unlock_key env) in
      hsem.write_icr (bit_or icr (2 ^ sem_index)) env1

  pub sem_free_it : E → E
  sem_free_it env =
      let (flags, env1) = hsem.read_isr env in
      let (cleared, env2) = hsem.read_isr (hsem.broadcast flags env1) in hsem.write_icr cleared env2

  pub signal_rx : Core → E → E
  signal_rx core env = hsem.broadcast (2 ^ rx_hsem_index core) env

  -- `HSEM_COMMON->IER |= (1U << i)` and `&= ~(1U << i)`
  pub enable : ℕ → E → E
  enable i env = let (ier, env1) = hsem.read_ier env in hsem.write_ier (bit_or ier (2 ^ i)) env1

  pub disable : ℕ → E → E
  disable i env =
      let (ier, env1) = hsem.read_ier env in hsem.write_ier (bit_and ier (2 ^ 32 - 1 - 2 ^ i)) env1

  -- One round of `update_rx`. What the other core does to the memory until the wait has ended is
  -- in the memory `m` that the round finds.
  pub rx_round : (CanFrame → E → E) → ℕ → Core → Shared → CanFrame → E → Run (Shared × E)
  rx_round rx_cbs fuel core m frame env =
      let i = rx_hsem_index core in
      drain rx_cbs fuel core m frame (disable i (hsem.wait_any (2 ^ i) (enable i env)))

  -- The constructor of `HWSemaphore`: the interrupt of the semaphore is on while it waits. `listen`
  -- and `unlisten` are `registerMask` and `unregister` of its event listener; the other parameters
  -- are those of `acquire_loop`.
  module _ (rlr : ℕ → E → ℕ × E) (wait_one : ℕ → E → E) (lock : ℕ) (listen : ℕ → E → E)
      (unlisten : E → E) where
    pub construct : ℕ → Core → ℕ → E → Run (Option ℕ × E)
    construct fuel core i env =
        if ltb i 32
        then and_then (acquire_loop rlr wait_one lock fuel core i (listen (2 ^ i) (enable i env)))
            (λ env1.
              let (r, env2) = rlr i (disable i (unlisten env1)) in
              returns (some (r % 2 ^ 16), env2))
        else returns (none, env)
