-- ===== src/ChibiOs/Clock/Tracks.antt =====
-- `micros64` of DC_PAL_ChibiOS/Utils.cpp against a clock that does not overflow.
use native.Mathlib.Nat.{add-mul-mod_self_left}
use libdronecan.Prelude.{
  ℕ, ◌+◌, ◌*◌, ◌/◌, ◌%◌, ◌^◌, ◌≤◌, ◌<◌, ◌≡◌, refl, sym, ◌∙◌, ap, ap₂, List, [], ◌∷◌, map, arith,
  ltb, lt→ltb, le→not-ltb, if◌then◌else◌, bit_or, dec_lt,
}
use libdronecan.Prelude.Bits.{shift-bit_or}
use libdronecan.ChibiOs.Clock.{micros32, Clock, micros64, readings}

-- Microseconds in `t` ticks, as the code counts them.
abbrev pub us : ℕ → ℕ → ℕ
us frequency t = t * (1000000 / frequency)

-- The clock was last read after `t` ticks.
pub record IsAt (frequency t : ℕ) (c : Clock) : Type 0 where
  pub last : c.last_time ≡ us frequency t % 2 ^ 32
  pub count : c.overflow_count ≡ us frequency t / 2 ^ 32

mul_mod : (t k : ℕ) → t % 2 ^ 32 * k % 2 ^ 32 ≡ t * k % 2 ^ 32
mul_mod t k =
    let split : t ≡ t % 2 ^ 32 + 2 ^ 32 * (t / 2 ^ 32) = omega arith in
    let whole : t * k ≡ t % 2 ^ 32 * k + 2 ^ 32 * (t / 2 ^ 32 * k) =
      omega (arith, ap (λ (n : ℕ). n * k) split) in
    sym (
      ap (λ n. n % 2 ^ 32) whole ∙ add-mul-mod_self_left (t % 2 ^ 32 * k) (2 ^ 32) (t / 2 ^ 32 * k))

-- The overflow count is carried over when the low word has gone round.
carry :
    (a b : ℕ)
    → b ≤ a
    → a < b + 2 ^ 32
    → a < 2 ^ 64
    → (if ltb (a % 2 ^ 32) (b % 2 ^ 32) then (b / 2 ^ 32 + 1) % 2 ^ 32 else b / 2 ^ 32) ≡ a / 2 ^ 32
carry a b later near fits = elim (dec_lt (a % 2 ^ 32) (b % 2 ^ 32)) [
  | yes p ↦ rw (lt→ltb (a % 2 ^ 32) (b % 2 ^ 32) p) (omega arith)
  | no p ↦ rw (le→not-ltb (a % 2 ^ 32) (b % 2 ^ 32) (omega arith)) (omega arith)
]

join : (a : ℕ) → a < 2 ^ 64 → bit_or (a / 2 ^ 32 * 2 ^ 32 % 2 ^ 64) (a % 2 ^ 32) ≡ a
join a fits =
    let high : a / 2 ^ 32 * 2 ^ 32 % 2 ^ 64 ≡ 2 ^ 32 * (a / 2 ^ 32) = omega arith in
    rw (high, shift-bit_or 32 (a / 2 ^ 32) (a % 2 ^ 32) (omega arith)) (omega arith)

micros32_lem : (frequency t : ℕ) → micros32 frequency (t % 2 ^ 32) ≡ us frequency t % 2 ^ 32
unfolding micros32
micros32_lem frequency t = mul_mod t (1000000 / frequency)

-- A reading at the tick `t'`, less than 2^32 us after the one at `t`, is the number of
-- microseconds in `t'` ticks, and the clock keeps it for the next reading.
micros64-us :
    (frequency t t' : ℕ) (c : Clock)
    → IsAt frequency t c
    → us frequency t ≤ us frequency t'
    → us frequency t' < us frequency t + 2 ^ 32
    → us frequency t' < 2 ^ 64
    → let (r, c') = micros64 frequency (t' % 2 ^ 32) c in
      (r ≡ us frequency t') × IsAt frequency t' c'
unfolding micros64
micros64-us frequency t t' c at later near fits =
    let count : (if ltb (us frequency t' % 2 ^ 32) c.last_time
          then (c.overflow_count + 1) % 2 ^ 32
          else c.overflow_count)
        ≡ us frequency t' / 2 ^ 32 =
      rw (at.last, at.count) (carry (us frequency t') (us frequency t) later near fits) in
    rw (micros32_lem frequency t', count)
      (join (us frequency t') fits, record { last = refl; count = refl })

-- Each reading comes less than 2^32 us after the one before it, and none before it.
abbrev pub Close : ℕ → ℕ → List ℕ → Type 0
Close frequency t [] = Unit
Close frequency t (t' ∷ ts) =
    (us frequency t ≤ us frequency t')
    × (us frequency t' < us frequency t + 2 ^ 32)
    × (us frequency t' < 2 ^ 64)
    × Close frequency t' ts

-- A clock that is read at least once in every 2^32 us gives at each reading the microseconds
-- since the start, below 2^64, although the hardware counts modulo 2^32.
pub readings-us :
    (frequency t : ℕ) (c : Clock) (ts : List ℕ)
    → IsAt frequency t c
    → Close frequency t ts
    → readings frequency c ts ≡ map (us frequency) ts
unfolding readings
readings-us frequency t c [] at near = refl
readings-us frequency t c (t' ∷ ts) at near =
    let (now, at') = micros64-us frequency t t' c at near.0 near.1 near.2 in
    ap₂ ◌∷◌ now (readings-us frequency t' (micros64 frequency (t' % 2 ^ 32) c).1 ts at' near.3)

-- Two readings 2^32 us apart give the same value: the round in between is lost.
pub micros64_loses :
    (frequency t t' : ℕ) (c : Clock)
    → IsAt frequency t c
    → us frequency t' ≡ us frequency t + 2 ^ 32
    → us frequency t < 2 ^ 64
    → (micros64 frequency (t' % 2 ^ 32) c).0 ≡ us frequency t
unfolding micros64
micros64_loses frequency t t' c at far fits =
    let same : us frequency t' % 2 ^ 32 ≡ us frequency t % 2 ^ 32 = omega arith in
    rw
      (
        micros32_lem frequency t',
        same,
        at.last,
        at.count,
        le→not-ltb (us frequency t % 2 ^ 32) (us frequency t % 2 ^ 32) (omega arith),
      )
      (join (us frequency t) fits)
