-- ===== src/Prelude/Bits.antt =====
-- Masks as sets of bit positions: `test_bit m i` for `(m >> i) & 1`, with its laws over the
-- native `&`, `|`, the shifted one, and the complement within 32 bits.
pub mod Xor
pub mod High
use Prim.Native.Nat.{
  ℕ, zero, suc, ◌+◌, ◌-◌, ◌*◌, ◌/◌, ◌%◌, ◌^◌, ◌≤◌, ◌<◌, min, max, bit_and, bit_or, digits, bitwise,
  bit_and-bitwise, bit_or-bitwise,
}
use mathlib.Core.Path.{◌≡◌, refl, ap, ◌∙◌, sym}
use mathlib.Core.Bool.{Bool, false, ◌&&◌, ◌||◌, not}
use native.Mathlib.Nat.{le_refl, pow-suc, pow-le-pow_right, one-le-pow, mod-lt, mod-add-div}
use native.Mathlib.Decide.{dec_lt}
use native.Mathlib.Omega.{arith}
use libdronecan.Prelude.Tests.{◌==◌, if◌then◌else◌}

-- A round more than there are binary digits changes nothing, so the rounds can be told apart from
-- the number.
module _ (empty : ℕ → ℕ) (op : ℕ → ℕ → ℕ) where
  digits-suc : (k a b : ℕ) → a ≤ k → digits empty op (suc k) a b ≡ digits empty op k a b
  digits-suc zero zero b le = refl
  digits-suc zero (suc a) b le = absurd (omega arith)
  digits-suc (suc k) zero b le = refl
  digits-suc (suc k) (suc a) b le = ground (arith, digits-suc k (suc a / 2) (b / 2))

  digits-add : (d a b : ℕ) → digits empty op (d + a) a b ≡ bitwise empty op a b
  digits-add zero a b = ap (λ k. digits empty op k a b) (let e : 0 + a ≡ a = omega arith in e)
  digits-add (suc d) a b =
      ap (λ k. digits empty op k a b) (let e : suc d + a ≡ suc (d + a) = omega arith in e)
      ∙ digits-suc (d + a) a b (omega arith)
      ∙ digits-add d a b

  -- The lowest digits, and the halves.
  bitwise_halves :
      (n b : ℕ)
      → 0 < n
      → bitwise empty op n b ≡ op (n % 2) (b % 2) + 2 * bitwise empty op (n / 2) (b / 2)
  bitwise_halves zero b pos = absurd (omega arith)
  bitwise_halves (suc a) b pos =
      let split : a - suc a / 2 + suc a / 2 ≡ a = omega arith in
      let half : digits empty op a (suc a / 2) (b / 2) ≡ bitwise empty op (suc a / 2) (b / 2) =
        ap (λ k. digits empty op k (suc a / 2) (b / 2)) (sym split)
        ∙ digits-add (a - suc a / 2) (suc a / 2) (b / 2) in
      omega (arith, half)

-- `|` and `&` digit by digit.
bit_or_halves : (n b : ℕ) → bit_or n b ≡ max (n % 2) (b % 2) + 2 * bit_or (n / 2) (b / 2)
bit_or_halves n b = elim (dec_lt 0 n) [
  | yes pos ↦ simp bit_or-bitwise (bitwise_halves (λ y. y) max n b pos)
  | no low ↦ let e : n ≡ 0 = omega arith in rw e (simp bit_or-bitwise (omega arith))
]

bit_and_halves : (n b : ℕ) → bit_and n b ≡ min (n % 2) (b % 2) + 2 * bit_and (n / 2) (b / 2)
bit_and_halves n b = elim (dec_lt 0 n) [
  | yes pos ↦ simp bit_and-bitwise (bitwise_halves (λ y. 0) min n b pos)
  | no low ↦ let e : n ≡ 0 = omega arith in rw e (simp bit_and-bitwise (omega arith))
]

-- Bit `i` of the number `m`.
unfoldable pub test_bit : ℕ → ℕ → Bool
test_bit m zero = m % 2 == 1
test_bit m (suc i) = test_bit (m / 2) i

pub test_bit-and : (i a b : ℕ) → test_bit (bit_and a b) i ≡ (test_bit a i && test_bit b i)
unfolding test_bit
test_bit-and zero a b = ground (arith, bit_and_halves a b)
test_bit-and (suc i) a b =
    let e : bit_and a b / 2 ≡ bit_and (a / 2) (b / 2) = omega (arith, bit_and_halves a b) in
    rw e (test_bit-and i (a / 2) (b / 2))

pub test_bit-or : (i a b : ℕ) → test_bit (bit_or a b) i ≡ (test_bit a i || test_bit b i)
unfolding test_bit
test_bit-or zero a b = ground (arith, bit_or_halves a b)
test_bit-or (suc i) a b =
    let e : bit_or a b / 2 ≡ bit_or (a / 2) (b / 2) = omega (arith, bit_or_halves a b) in
    rw e (test_bit-or i (a / 2) (b / 2))

pub test_bit-zero : (i : ℕ) → test_bit 0 i ≡ false
unfolding test_bit
test_bit-zero zero = refl
test_bit-zero (suc i) = test_bit-zero i

-- `1 << k` has bit `k` alone.
pub test_bit-pow : (k i : ℕ) → test_bit (2 ^ k) i ≡ (k == i)
unfolding test_bit
test_bit-pow zero zero = refl
test_bit-pow zero (suc i) = ground (arith, test_bit-zero i)
test_bit-pow (suc k) zero = ground (arith, pow-suc 2 k)
test_bit-pow (suc k) (suc i) =
    let e : 2 ^ suc k / 2 ≡ 2 ^ k = omega (arith, pow-suc 2 k) in
    rw e (ground (arith, test_bit-pow k i))

-- `~m` on `w` bits, for `m` below `2 ^ w`.
pub test_bit-not : (w i m : ℕ) → m < 2 ^ w → i < w → test_bit (2 ^ w - 1 - m) i ≡ not (test_bit m i)
unfolding test_bit
test_bit-not zero i m h lt = absurd (omega arith)
test_bit-not (suc w) zero m h lt = ground (arith, pow-suc 2 w)
test_bit-not (suc w) (suc i) m h lt =
    let e : (2 ^ suc w - 1 - m) / 2 ≡ 2 ^ w - 1 - m / 2 = omega (arith, pow-suc 2 w) in
    rw e (test_bit-not w i (m / 2) (omega (arith, pow-suc 2 w)) (omega arith))

-- Two numbers with the same bits are equal.
pub eq_of_bits :
    (w a b : ℕ) → a < 2 ^ w → b < 2 ^ w → ((i : ℕ) → i < w → test_bit a i ≡ test_bit b i) → a ≡ b
unfolding test_bit
eq_of_bits zero a b ha hb h = omega arith
eq_of_bits (suc w) a b ha hb h =
    let high : a / 2 ≡ b / 2 =
      eq_of_bits w (a / 2) (b / 2) (omega (arith, pow-suc 2 w)) (omega (arith, pow-suc 2 w))
        (λ i lt. h (suc i) (omega arith)) in
    ground (arith, high, h 0 (omega arith))

-- The bounds that `&` and `|` keep.
pub bit_and-le : (w a b : ℕ) → a < 2 ^ w → bit_and a b < 2 ^ w
bit_and-le zero zero b h = omega (arith, ap (λ (t : ℕ). t) (bit_and-bitwise 0 b))
bit_and-le zero (suc a) b h = absurd (omega arith)
bit_and-le (suc w) a b h = omega (
  arith,
  pow-suc 2 w,
  bit_and_halves a b,
  bit_and-le w (a / 2) (b / 2) (omega (arith, pow-suc 2 w)),
)

pub bit_or-lt : (w a b : ℕ) → a < 2 ^ w → b < 2 ^ w → bit_or a b < 2 ^ w
bit_or-lt zero zero zero h k = omega arith
bit_or-lt zero (suc a) b h k = absurd (omega arith)
bit_or-lt zero zero (suc b) h k = absurd (omega arith)
bit_or-lt (suc w) a b h k = omega (
  arith,
  pow-suc 2 w,
  bit_or_halves a b,
  bit_or-lt w (a / 2) (b / 2) (omega (arith, pow-suc 2 w)) (omega (arith, pow-suc 2 w)),
)

bit_or-zero : (a : ℕ) → bit_or a 0 ≡ a
bit_or-zero a = go a a (le_refl a)
  where
    go : (n k : ℕ) → k ≤ n → bit_or k 0 ≡ k
    go n zero h = refl
    go zero (suc k) h = absurd (omega arith)
    go (suc n) (suc k) h = omega (arith, bit_or_halves (suc k) 0, go n (suc k / 2) (omega arith))

pub bit_and-zero : (a : ℕ) → bit_and a 0 ≡ 0
bit_and-zero a = go a a (le_refl a)
  where
    go : (n k : ℕ) → k ≤ n → bit_and k 0 ≡ 0
    go n zero h = refl
    go zero (suc k) h = absurd (omega arith)
    go (suc n) (suc k) h = omega (arith, bit_and_halves (suc k) 0, go n (suc k / 2) (omega arith))

double-shift : (k q : ℕ) → 2 ^ suc k * q ≡ 2 * (2 ^ k * q)
double-shift k q = omega (arith, ap (λ (t : ℕ). t * q) (pow-suc 2 k))

bit_and-low : (k q r : ℕ) → r < 2 ^ k → bit_and (r + 2 ^ k * q) (2 ^ k - 1) ≡ r
bit_and-low zero q r h = omega (arith, bit_and-zero (r + 2 ^ 0 * q))
bit_and-low (suc k) q r h = ground (
  arith,
  bit_and_halves (r + 2 ^ suc k * q) (2 ^ suc k - 1),
  double-shift k q,
  pow-suc 2 k,
  bit_and-low k q (r / 2) (omega (arith, pow-suc 2 k)),
)

-- `a & (2^k - 1)` keeps the low `k` bits.
pub bit_and-mask : (k a : ℕ) → bit_and a (2 ^ k - 1) ≡ a % 2 ^ k
bit_and-mask k a =
    let e : a ≡ a % 2 ^ k + 2 ^ k * (a / 2 ^ k) = sym (mod-add-div a (2 ^ k)) in
    ap (λ t. bit_and t (2 ^ k - 1)) e
    ∙ bit_and-low k (a / 2 ^ k) (a % 2 ^ k) (mod-lt a (one-le-pow k 2 (omega arith)))

bit_or-zero_left : (b : ℕ) → bit_or 0 b ≡ b
bit_or-zero_left b = bit_or-bitwise 0 b

-- `r | (q << k)` is a sum when `r` fits `k` bits.
pub bit_or-shift : (k q r : ℕ) → r < 2 ^ k → bit_or r (2 ^ k * q) ≡ r + 2 ^ k * q
bit_or-shift zero q zero h = omega (arith, bit_or-zero_left (2 ^ 0 * q))
bit_or-shift zero q (suc r) h = absurd (omega arith)
bit_or-shift (suc k) q r h = ground (
  arith,
  bit_or_halves r (2 ^ suc k * q),
  double-shift k q,
  bit_or-shift k q (r / 2) (omega (arith, pow-suc 2 k)),
)

-- `m & (1 << i)` is the bit itself.
pub bit_and-pow : (i m : ℕ) → bit_and m (2 ^ i) ≡ (if test_bit m i then 2 ^ i else 0)
unfolding test_bit
bit_and-pow zero m = ground (arith, bit_and-mask 1 m)
bit_and-pow (suc i) m =
    let e : 2 ^ suc i / 2 ≡ 2 ^ i = omega (arith, pow-suc 2 i) in
    let low : 2 ^ suc i % 2 ≡ 0 = omega (arith, pow-suc 2 i) in
    ground (
      arith,
      bit_and_halves m (2 ^ suc i),
      ap (bit_and (m / 2)) e,
      pow-suc 2 i,
      low,
      bit_and-pow i (m / 2),
    )

-- Masks that share no bit below `w` have the conjunction 0, and the other way round.
pub bit_and-zero_of_bits :
    (w a b : ℕ)
    → a < 2 ^ w
    → ((i : ℕ) → i < w → (test_bit a i && test_bit b i) ≡ false)
    → bit_and a b ≡ 0
bit_and-zero_of_bits w a b h none_shared =
    eq_of_bits w (bit_and a b) 0 (bit_and-le w a b h) (one-le-pow w 2 (omega arith))
      (λ i lt. test_bit-and i a b ∙ none_shared i lt ∙ sym (test_bit-zero i))

pub bits_of_bit_and-zero : (i a b : ℕ) → bit_and a b ≡ 0 → (test_bit a i && test_bit b i) ≡ false
bits_of_bit_and-zero i a b e = sym (test_bit-and i a b) ∙ ap (λ m. test_bit m i) e ∙ test_bit-zero i

-- The same with the shifted number in front.
pub shift-bit_or : (k q r : ℕ) → r < 2 ^ k → bit_or (2 ^ k * q) r ≡ 2 ^ k * q + r
shift-bit_or zero q zero h = omega (arith, bit_or-zero (2 ^ 0 * q))
shift-bit_or zero q (suc r) h = absurd (omega arith)
shift-bit_or (suc k) q r h = ground (
  arith,
  bit_or_halves (2 ^ suc k * q) r,
  double-shift k q,
  shift-bit_or k q (r / 2) (omega (arith, pow-suc 2 k)),
)

pub pow_lt : (i : ℕ) → i < 32 → 2 ^ i < 2 ^ 32
pow_lt i lt = omega (arith, pow-le-pow_right {n = 2} (omega arith) {i = i} {j = 31} (omega arith))
