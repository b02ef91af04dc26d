-- ===== src/Pal/EventMask.antt =====
-- `events` of DC_PAL/Threads.h: the mask of some events, at least one.
use libdronecan.Prelude.{ℕ, ◌%◌, ◌^◌, ◌<◌, ◌≡◌, ◌∙◌, ap, List, [], ◌∷◌, arith, ◌==◌, bit_or}
use native.Mathlib.Nat.{mod-eq_of_lt}
use libdronecan.Prelude.Bits.{test_bit, test_bit-or, test_bit-pow, pow_lt}
use libdronecan.Pal.Links.{has}

-- `((1 << args) | ...)`
unfoldable pub events : ℕ → List ℕ → ℕ
events a [] = 2 ^ a % 2 ^ 32
events a (b ∷ bs) = bit_or (2 ^ a % 2 ^ 32) (events b bs)

-- All are below 32.
abbrev pub InRange : List ℕ → Type 0
InRange [] = Unit
InRange (a ∷ bs) = (a < 32) × InRange bs

single-bit : (a i : ℕ) → a < 32 → test_bit (2 ^ a % 2 ^ 32) i ≡ (a == i)
single-bit a i lt =
    ap (λ m. test_bit m i) (mod-eq_of_lt {n = 2 ^ a} {m = 2 ^ 32} (pow_lt a lt)) ∙ test_bit-pow a i

-- An event is in the mask exactly if it is one of those that the mask was made of. All are below 32.
pub events-has :
    (a : ℕ) (bs : List ℕ) (i : ℕ) → InRange (a ∷ bs) → test_bit (events a bs) i ≡ has i (a ∷ bs)
unfolding events
events-has a [] i h = ground (arith, single-bit a i h.0)
events-has a (b ∷ bs) i h =
    ground (
      arith,
      test_bit-or i (2 ^ a % 2 ^ 32) (events b bs),
      single-bit a i h.0,
      events-has b bs i h.1,
    )
