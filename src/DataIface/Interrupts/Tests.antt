-- ===== src/DataIface/Interrupts/Tests.antt =====
-- A handler that runs for semaphore 0 while semaphore 1 is given up, and a constructor that waits.
use libdronecan.Prelude.{ℕ, zero, suc, ◌-◌, ◌^◌, ◌≡◌, refl, true, false, arith, bit_and, bit_or}
use libdronecan.Prelude.Bits.{test_bit}
use libdronecan.DataIface.Interrupts.{Hsem, sem_free_it}
use libdronecan.DataIface.Interrupts.Laws.{IsFlagged, sem_free_it_loses}

-- The raised flags, and those that the listeners were given.
record Flags : Type 0 where
  isr : ℕ
  seen : ℕ

-- Semaphore 1 is given up during each broadcast.
abbrev busy : Hsem Flags
busy = record {
  read_ier = λ e. (0, e);
  write_ier = λ m e. e;
  read_icr = λ e. (0, e);
  write_icr = λ m e. record e { isr = bit_and e.isr (2 ^ 32 - 1 - m) };
  read_isr = λ e. (e.isr, e);
  write_r = λ i key e. e;
  broadcast = λ m e. record { isr = bit_or e.isr 2; seen = bit_or e.seen m };
  wait_any = λ m e. e;
}

busy-IsFlagged : IsFlagged busy (λ e. e.isr) (λ e. e.seen) (λ e. 2)
busy-IsFlagged = record {
  reads = λ e. refl;
  broadcasts = λ m e. (refl, refl);
  clears = λ m e. (refl, refl);
}

abbrev first : Flags
first = record { isr = 1; seen = 0 }

sem_free_it_loses_example :
    (test_bit 3 1 ≡ true)
    × (test_bit (sem_free_it busy first).isr 1 ≡ false)
    × (test_bit (sem_free_it busy first).seen 1 ≡ false)
unfolding test_bit
sem_free_it_loses_example =
    sem_free_it_loses busy (λ e. e.isr) (λ e. e.seen) (λ e. 2) busy-IsFlagged first 1 (omega arith)
      (omega arith) (omega arith) refl refl refl

-- A semaphore that the other core gives up after some events, and the interrupts that are on.
record Waits : Type 0 where
  left : ℕ
  ier : ℕ

abbrev register : ℕ → ℕ
register zero = 0x80000300
register (suc n) = 0x80000100

abbrev rlr : ℕ → Waits → ℕ × Waits
rlr i e = (register e.left, e)

abbrev wait_one : ℕ → Waits → Waits
wait_one i e = record e { left = e.left - 1 }

abbrev quiet : Hsem Waits
quiet = record {
  read_ier = λ e. (e.ier, e);
  write_ier = λ m e. record e { ier = m };
  read_icr = λ e. (0, e);
  write_icr = λ m e. e;
  read_isr = λ e. (0, e);
  write_r = λ i key e. e;
  broadcast = λ m e. e;
  wait_any = λ m e. e;
}
