-- ===== src/DataIface/HwSemaphore/Turns.antt =====
-- Threads at one semaphore of DC_DataIface/DataIface_ShMem.cpp, step by step: the constructor of
-- `HWSemaphore` reads the register twice in each round of its loop, and other threads have their
-- turns between the readings. `rlr` is what reading the register gives a core, and `unlock` what
-- writing the key does.
use libdronecan.Prelude.{ℕ, ◌/◌, ◌%◌, ◌^◌, ◌==◌, if◌then◌else◌, bit_and}
use libdronecan.DataIface.ShMem.{Core, cm7, cm4, hsem_core_id}

-- Where a thread stands: before the constructor, before one of the two readings, between the
-- constructor and the destructor.
pub data Phase : Type 0 where
  outside : Phase
  first_read : Phase
  second_read : Phase
  inside : Phase

-- A thread of each core, and the hardware.
pub record Both (E : Type 0) : Type 0 where
  pub at_cm7 : Phase
  pub at_cm4 : Phase
  pub hw : E

module _ {E : Type 0} (rlr : Core → E → ℕ × E) (unlock : Core → E → E) (lock : ℕ) where
  -- `!(hw_sem->RLR[i] & HSEM_RLR_LOCK)` sends the thread to sleep and back.
  unfoldable pub after_first : ℕ → Phase
  after_first r = if bit_and r lock == 0 then first_read else second_read

  -- `((hw_sem->RLR[i] >> 8) & 0xFF) != HSEM_CORE_ID`
  unfoldable pub after_second : Core → ℕ → Phase
  after_second core r = if r / 2 ^ 8 % 256 == hsem_core_id core then inside else first_read

  -- One turn of a thread of `core`.
  unfoldable pub turn : Core → Phase → E → Phase × E
  turn core outside env = (first_read, env)
  turn core first_read env = let (r, env') = rlr core env in (after_first r, env')
  turn core second_read env = let (r, env') = rlr core env in (after_second core r, env')
  turn core inside env = (outside, unlock core env)

  -- The thread of one of the cores has its turn.
  unfoldable pub take_turn : Core → Both E → Both E
  take_turn cm7 s = let (p, env) = turn cm7 s.at_cm7 s.hw in record s { at_cm7 = p; hw = env }
  take_turn cm4 s = let (p, env) = turn cm4 s.at_cm4 s.hw in record s { at_cm4 = p; hw = env }
