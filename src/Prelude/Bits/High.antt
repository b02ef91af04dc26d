-- ===== src/Prelude/Bits/High.antt =====
-- Masks that keep the upper part of a number.
use Prim.Native.Nat.{ℕ, zero, suc, ◌+◌, ◌*◌, ◌/◌, ◌%◌, ◌^◌, ◌<◌, bit_and}
use mathlib.Core.Path.{◌≡◌, ap, ap₂, ◌∙◌, sym}
use native.Mathlib.Nat.{pow-suc}
use native.Mathlib.Omega.{arith}
use libdronecan.Prelude.Bits.{bit_and_halves, double-shift, bit_and-mask}

-- A mask without digits below `k` passes over those.
bit_and-up : (k q r p : ℕ) → r < 2 ^ k → bit_and (r + 2 ^ k * q) (2 ^ k * p) ≡ 2 ^ k * bit_and q p
bit_and-up zero q r p h =
    let e : r + 2 ^ 0 * q ≡ q = omega arith in
    let f : 2 ^ 0 * p ≡ p = omega arith in omega (arith, ap₂ bit_and e f)
bit_and-up (suc k) q r p h =
    let a = r + 2 ^ suc k * q in
    let half : a / 2 ≡ r / 2 + 2 ^ k * q = omega (arith, double-shift k q) in
    let mask : 2 ^ suc k * p / 2 ≡ 2 ^ k * p = omega (arith, double-shift k p) in
    omega (
      arith,
      bit_and_halves a (2 ^ suc k * p),
      double-shift k p,
      double-shift k (bit_and q p),
      ap₂ bit_and half mask,
      bit_and-up k q (r / 2) p (omega (arith, pow-suc 2 k)),
    )

-- The upper half of 32 bits.
pub bit_and-high : (a : ℕ) → a < 2 ^ 32 → bit_and a 0xFFFF0000 ≡ 2 ^ 16 * (a / 2 ^ 16)
bit_and-high a h =
    let e : a % 2 ^ 16 + 2 ^ 16 * (a / 2 ^ 16) ≡ a = omega arith in
    let fits : a / 2 ^ 16 % 2 ^ 16 ≡ a / 2 ^ 16 = omega arith in
    ap (λ n. bit_and n 0xFFFF0000) (sym e)
    ∙ bit_and-up 16 (a / 2 ^ 16) (a % 2 ^ 16) 0xFFFF (omega arith)
    ∙ ap (λ n. 2 ^ 16 * n) (bit_and-mask 16 (a / 2 ^ 16) ∙ fits)
