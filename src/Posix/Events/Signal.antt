-- ===== src/Posix/Events/Signal.antt =====
-- `signal` of DC_PAL_Posix/Threads.cpp.
use libdronecan.Prelude.{ℕ, ◌^◌, ◌<◌, ◌≡◌, true, ◌&&◌, ◌||◌, arith, bit_and, bit_or}
use libdronecan.Prelude.Bits.{test_bit, test_bit-or, bit_and-zero_of_bits, bits_of_bit_and-zero}
use libdronecan.Posix.Events.{EventState, meets, signal}

-- A signal posts all its events if one of them is registered, and none otherwise; what is posted
-- stays, and the registered events do not change.
pub signal-bits :
    (s : EventState) (events i : ℕ)
    → (test_bit (signal s events).signalled i
        ≡ (test_bit s.signalled i || (meets events s.registered && test_bit events i)))
      × ((signal s events).registered ≡ s.registered)
unfolding signal
signal-bits s events i = ground (arith, test_bit-or i s.signalled events)

-- More events meet what fewer events meet.
pub meets-or : (a e m : ℕ) → e < 2 ^ 32 → meets e m ≡ true → meets (bit_or a e) m ≡ true
meets-or a e m h hit = ground (arith, none_left)
  where
    none_left : bit_and (bit_or a e) m ≡ 0 → bit_and e m ≡ 0
    none_left z =
        bit_and-zero_of_bits 32 e m h
          λ i lt. ground (arith, bits_of_bit_and-zero i (bit_or a e) m z, test_bit-or i a e)
