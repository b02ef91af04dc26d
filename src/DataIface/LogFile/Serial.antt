-- ===== src/DataIface/LogFile/Serial.antt =====
-- The checksum of DataIface_LogFile.cpp against its definition: the remainder register of the
-- reflected polynomial 0xEDB88320, fed with one bit of the message after the other.
use native.Mathlib.Nat.{pow-suc}
use libdronecan.Prelude.{
  ℕ, zero, suc, ◌+◌, ◌-◌, ◌*◌, ◌/◌, ◌%◌, ◌^◌, ◌<◌, ◌≡◌, refl, sym, ap, ◌∙◌, List, [], ◌∷◌, ◌++◌,
  arith, bit_xor, if◌then◌else◌, ◌==◌, ℕ_discrete,
}
use libdronecan.Prelude.Bits.Xor.{
  bit_xor-lt, bit_xor_assoc, bit_xor_sum, bit_xor-half, bit_xor-zero, bit_xor_halves,
}
use libdronecan.DataIface.LogFile.{crc_bit, crc_bits, crc_bytes, crc32}
use libdronecan.DataIface.LogFile.Crc.{
  AllBytes, crc_bit-lt, crc_bits-lt, crc_bit-shift, crc_bit_even, crc_bit_odd,
}

-- The bits of a byte, lowest first, and those of the bytes of a message.
pub bits_of_byte : ℕ → ℕ → List ℕ
bits_of_byte zero b = []
bits_of_byte (suc k) b = b % 2 ∷ bits_of_byte k (b / 2)

pub bits_of : List ℕ → List ℕ
bits_of [] = []
bits_of (b ∷ bytes) = bits_of_byte 8 b ++ bits_of bytes

-- The register moves down by a bit; if the bit that leaves it is other than the bit of the
-- message, the polynomial is subtracted.
pub divide_bit : ℕ → ℕ → ℕ
divide_bit register b =
    if register % 2 == b then register / 2 else bit_xor (register / 2) 0xEDB88320

pub divide : List ℕ → ℕ → ℕ
divide [] register = register
divide (b ∷ bits) register = divide bits (divide_bit register b)

divide-append :
    (xs ys : List ℕ) (register : ℕ) → divide (xs ++ ys) register ≡ divide ys (divide xs register)
unfolding divide
divide-append [] ys register = refl
divide-append (x ∷ xs) ys register = divide-append xs ys (divide_bit register x)

crc_bit-divide_bit : (c b : ℕ) → c < 2 ^ 32 → b < 2 → crc_bit (bit_xor c b) ≡ divide_bit c b
unfolding divide_bit
crc_bit-divide_bit c b hc hb =
    let x = bit_xor c b in
    let x_lt : x < 2 ^ 32 = bit_xor-lt 32 c b hc (omega arith) in
    let gone : b / 2 ≡ 0 = omega arith in
    let half : x / 2 ≡ c / 2 =
      bit_xor-half c b ∙ ap (bit_xor (c / 2)) gone ∙ bit_xor-zero 32 (c / 2) (omega arith) in
    let parity : x % 2 ≡ (c % 2 + b) % 2 = omega (arith, bit_xor_halves c b) in
    elim (ℕ_discrete (c % 2) b) [
      | yes same ↦ crc_bit_even x x_lt (omega (arith, parity, same)) ∙ half ∙ ground (arith, same)
      | no other ↦
          crc_bit_odd x (omega (arith, parity, other))
          ∙ ap (λ n. bit_xor n 0xEDB88320) half
          ∙ ground (arith, other)
    ]

-- The rounds of a byte take its bits one by one.
crc_bits-divide :
    (k b c : ℕ)
    → b < 2 ^ k
    → b < 2 ^ 31
    → c < 2 ^ 32
    → crc_bits k (bit_xor c b) ≡ divide (bits_of_byte k b) c
unfolding crc_bits divide bits_of_byte
crc_bits-divide zero b c low hb hc =
    ap (bit_xor c) (let e : b ≡ 0 = omega arith in e) ∙ bit_xor-zero 32 c hc
crc_bits-divide (suc k) b c low hb hc =
    let cb = bit_xor c (b % 2) in
    let cb_lt : cb < 2 ^ 32 = bit_xor-lt 32 c (b % 2) hc (omega arith) in
    let parts : bit_xor (b % 2) (2 ^ 1 * (b / 2)) ≡ b =
      bit_xor_sum 1 (b / 2) (b % 2) (omega arith) ∙ omega arith in
    let apart : bit_xor c b ≡ bit_xor cb (2 * (b / 2)) =
      ap (bit_xor c) (sym parts)
      ∙ sym (bit_xor_assoc 32 c (b % 2) (2 * (b / 2)) hc (omega arith) (omega arith)) in
    let once : crc_bit (bit_xor c b) ≡ bit_xor (divide_bit c (b % 2)) (b / 2) =
      ap crc_bit apart
      ∙ crc_bit-shift cb (b / 2) cb_lt (omega arith)
      ∙ ap (λ n. bit_xor n (b / 2)) (crc_bit-divide_bit c (b % 2) hc (omega arith)) in
    let next_lt : divide_bit c (b % 2) < 2 ^ 32 =
      rw (sym (crc_bit-divide_bit c (b % 2) hc (omega arith))) (crc_bit-lt cb cb_lt) in
    ap (crc_bits k) once
    ∙ crc_bits-divide k (b / 2) (divide_bit c (b % 2)) (omega (arith, pow-suc 2 k)) (omega arith)
        next_lt

crc_bytes-divide :
    (bytes : List ℕ) (c : ℕ)
    → AllBytes bytes
    → c < 2 ^ 32
    → crc_bytes bytes c ≡ divide (bits_of bytes) c
unfolding crc_bytes divide bits_of
crc_bytes-divide [] c h hc = refl
crc_bytes-divide (b ∷ bytes) c (hb, h) hc =
    let next_lt = crc_bits-lt 8 (bit_xor c b) (bit_xor-lt 32 c b hc (omega arith)) in
    crc_bytes-divide bytes (crc_bits 8 (bit_xor c b)) h next_lt
    ∙ ap (divide (bits_of bytes)) (crc_bits-divide 8 b c hb (omega arith) hc)
    ∙ sym (divide-append (bits_of_byte 8 b) (bits_of bytes) c)

-- The checksum of bytes is the complement of the remainder register after it has taken their
-- bits, one by one and the lowest of each byte first, from the state of all ones.
pub crc32-divide :
    (bytes : List ℕ)
    → AllBytes bytes
    → crc32 bytes ≡ 2 ^ 32 - 1 - divide (bits_of bytes) (2 ^ 32 - 1)
unfolding crc32
crc32-divide bytes h = ap (λ n. 2 ^ 32 - 1 - n) (crc_bytes-divide bytes 0xFFFFFFFF h (omega arith))
