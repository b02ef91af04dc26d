-- ===== src/Prelude/Bits/Xor.antt =====
-- The exclusive or of native numbers, digit by digit: its algebra, its bound, and how it meets
-- halving and sums of disjoint numbers.
use Prim.Native.Nat.{
  ℕ, zero, suc, ◌+◌, ◌*◌, ◌/◌, ◌%◌, ◌^◌, ◌≤◌, ◌<◌, bit_xor, bit_xor-bitwise, differ,
}
use mathlib.Core.Path.{◌≡◌, refl, ap}
use native.Mathlib.Nat.{pow-suc}
use native.Mathlib.Decide.{dec_lt}
use native.Mathlib.Omega.{arith}
use libdronecan.Prelude.Bits.{bitwise_halves, double-shift}

differ_digits : (x y : ℕ) → x < 2 → y < 2 → differ x y ≡ (x + y) % 2
differ_digits zero zero hx hy = refl
differ_digits zero (suc zero) hx hy = refl
differ_digits (suc zero) zero hx hy = refl
differ_digits (suc zero) (suc zero) hx hy = refl
differ_digits (suc (suc x)) y hx hy = absurd (omega arith)
differ_digits x (suc (suc y)) hx hy = absurd (omega arith)

pub bit_xor_halves : (n b : ℕ) → bit_xor n b ≡ (n % 2 + b % 2) % 2 + 2 * bit_xor (n / 2) (b / 2)
bit_xor_halves n b = elim (dec_lt 0 n) [
  | yes pos ↦
      let low : differ (n % 2) (b % 2) ≡ (n % 2 + b % 2) % 2 =
        differ_digits (n % 2) (b % 2) (omega arith) (omega arith) in
      omega (
        arith,
        low,
        bit_xor-bitwise n b,
        bitwise_halves (λ y. y) differ n b pos,
        bit_xor-bitwise (n / 2) (b / 2),
      )
  | no low ↦
      let e : n ≡ 0 = omega arith in
      let at_zero : bit_xor n b ≡ b = rw e (bit_xor-bitwise 0 b) in
      let half : bit_xor (n / 2) (b / 2) ≡ b / 2 = rw e (bit_xor-bitwise 0 (b / 2)) in
      omega (arith, at_zero, half, e)
]

pub bit_xor-half : (n b : ℕ) → bit_xor n b / 2 ≡ bit_xor (n / 2) (b / 2)
bit_xor-half n b = omega (arith, bit_xor_halves n b)

pub bit_xor-zero_left : (b : ℕ) → bit_xor 0 b ≡ b
bit_xor-zero_left b = bit_xor-bitwise 0 b

-- Numbers of `w` digits stay within them.
pub bit_xor-lt : (w a b : ℕ) → a < 2 ^ w → b < 2 ^ w → bit_xor a b < 2 ^ w
bit_xor-lt zero a b h k = let e : a ≡ 0 = omega arith in rw e (omega (arith, bit_xor-bitwise 0 b))
bit_xor-lt (suc w) a b h k = omega (
  arith,
  pow-suc 2 w,
  bit_xor_halves a b,
  bit_xor-lt w (a / 2) (b / 2) (omega (arith, pow-suc 2 w)) (omega (arith, pow-suc 2 w)),
)

-- The other operand tells the numbers apart.
pub bit_xor_cancel : (w a b c : ℕ) → a < 2 ^ w → b < 2 ^ w → bit_xor a c ≡ bit_xor b c → a ≡ b
bit_xor_cancel zero a b c ha hb e = omega arith
bit_xor_cancel (suc w) a b c ha hb e =
    let halves : bit_xor (a / 2) (c / 2) ≡ bit_xor (b / 2) (c / 2) =
      omega (arith, e, bit_xor_halves a c, bit_xor_halves b c) in
    let high : a / 2 ≡ b / 2 =
      bit_xor_cancel w (a / 2) (b / 2) (c / 2) (omega (arith, pow-suc 2 w))
        (omega (arith, pow-suc 2 w)) halves in
    omega (arith, high, e, halves, bit_xor_halves a c, bit_xor_halves b c)

-- `(a ^ b) ^ c` is `(a ^ c) ^ b`.
pub bit_xor_swap :
    (w a b c : ℕ)
    → a < 2 ^ w
    → b < 2 ^ w
    → c < 2 ^ w
    → bit_xor (bit_xor a b) c ≡ bit_xor (bit_xor a c) b
bit_xor_swap zero a b c ha hb hc =
    let eb : b ≡ 0 = omega arith in let ec : c ≡ 0 = omega arith in rw (eb, ec) refl
bit_xor_swap (suc w) a b c ha hb hc =
    let bound : (n : ℕ) → n < 2 ^ suc w → n / 2 < 2 ^ w = λ n h. omega (arith, pow-suc 2 w) in
    let halves : bit_xor (bit_xor a b / 2) (c / 2) ≡ bit_xor (bit_xor a c / 2) (b / 2) =
      rw (bit_xor-half a b, bit_xor-half a c)
        (bit_xor_swap w (a / 2) (b / 2) (c / 2) (bound a ha) (bound b hb) (bound c hc)) in
    omega (
      arith,
      halves,
      bit_xor_halves (bit_xor a b) c,
      bit_xor_halves (bit_xor a c) b,
      bit_xor_halves a b,
      bit_xor_halves a c,
    )

pub bit_xor_comm : (w a b : ℕ) → a < 2 ^ w → b < 2 ^ w → bit_xor a b ≡ bit_xor b a
bit_xor_comm zero a b ha hb =
    let ea : a ≡ 0 = omega arith in let eb : b ≡ 0 = omega arith in rw (ea, eb) refl
bit_xor_comm (suc w) a b ha hb =
    let halves =
      bit_xor_comm w (a / 2) (b / 2) (omega (arith, pow-suc 2 w)) (omega (arith, pow-suc 2 w)) in
    omega (arith, halves, bit_xor_halves a b, bit_xor_halves b a)

pub bit_xor_assoc :
    (w a b c : ℕ)
    → a < 2 ^ w
    → b < 2 ^ w
    → c < 2 ^ w
    → bit_xor (bit_xor a b) c ≡ bit_xor a (bit_xor b c)
bit_xor_assoc zero a b c ha hb hc =
    let ea : a ≡ 0 = omega arith in
    let eb : b ≡ 0 = omega arith in let ec : c ≡ 0 = omega arith in rw (ea, eb, ec) refl
bit_xor_assoc (suc w) a b c ha hb hc =
    let bound : (n : ℕ) → n < 2 ^ suc w → n / 2 < 2 ^ w = λ n h. omega (arith, pow-suc 2 w) in
    let halves : bit_xor (bit_xor a b / 2) (c / 2) ≡ bit_xor (a / 2) (bit_xor b c / 2) =
      rw (bit_xor-half a b, bit_xor-half b c)
        (bit_xor_assoc w (a / 2) (b / 2) (c / 2) (bound a ha) (bound b hb) (bound c hc)) in
    omega (
      arith,
      halves,
      bit_xor_halves (bit_xor a b) c,
      bit_xor_halves a (bit_xor b c),
      bit_xor_halves a b,
      bit_xor_halves b c,
    )

-- Numbers without a digit in common add up.
pub bit_xor_sum : (k q r : ℕ) → r < 2 ^ k → bit_xor r (2 ^ k * q) ≡ r + 2 ^ k * q
bit_xor_sum zero q r h =
    let e : r ≡ 0 = omega arith in rw e (omega (arith, bit_xor-zero_left (2 ^ 0 * q)))
bit_xor_sum (suc k) q r h = omega (
  arith,
  bit_xor_halves r (2 ^ suc k * q),
  double-shift k q,
  bit_xor_sum k q (r / 2) (omega (arith, pow-suc 2 k)),
  half,
)
  where
    half : bit_xor (r / 2) (2 ^ suc k * q / 2) ≡ bit_xor (r / 2) (2 ^ k * q)
    half =
        ap (bit_xor (r / 2))
          (let e : 2 ^ suc k * q / 2 ≡ 2 ^ k * q = omega (arith, double-shift k q) in e)

pub bit_xor-zero : (w a : ℕ) → a < 2 ^ w → bit_xor a 0 ≡ a
bit_xor-zero w a h =
    let none : 2 ^ w * 0 ≡ 0 = omega arith in
    omega (arith, ap (bit_xor a) none, bit_xor_sum w 0 a h)

-- A top digit that only one of the two has stays.
pub bit_xor-top : (w a b : ℕ) → a < 2 ^ w → 2 ^ w ≤ b → b < 2 ^ suc w → 2 ^ w ≤ bit_xor a b
bit_xor-top zero a b ha low high =
    let ea : a ≡ 0 = omega arith in rw ea (omega (arith, bit_xor-zero_left b))
bit_xor-top (suc w) a b ha low high = omega (
  arith,
  pow-suc 2 w,
  bit_xor_halves a b,
  bit_xor-top w (a / 2) (b / 2) (omega (arith, pow-suc 2 w)) (omega (arith, pow-suc 2 w))
      (omega (arith, pow-suc 2 w, pow-suc 2 (suc w))),
)
