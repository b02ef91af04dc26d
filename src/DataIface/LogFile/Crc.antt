-- ===== src/DataIface/LogFile/Crc.antt =====
-- The checksum of DataIface_LogFile.cpp as arithmetic on polynomials: a round of `crc32` loses
-- nothing, and up to four bytes go into the checksum as one word.
use native.Mathlib.Nat.{pow-suc, pow-le-pow_right}
use native.Mathlib.Numerals.{towards_suc}
use libdronecan.Prelude.{
  ℕ, zero, suc, ◌+◌, ◌*◌, ◌/◌, ◌%◌, ◌^◌, ◌≤◌, ◌<◌, ◌≡◌, sym, ap, ◌∙◌, List, [], ◌∷◌, arith, bit_and,
  bit_xor, dec_lt,
}
use libdronecan.Prelude.Bits.{bit_and-mask}
use libdronecan.Prelude.Bits.Xor.{
  bit_xor-lt, bit_xor_cancel, bit_xor_swap, bit_xor_assoc, bit_xor_sum, bit_xor-zero, bit_xor-top,
  bit_xor-half, bit_xor_halves,
}
use libdronecan.DataIface.LogFile.{crc_bit, crc_bits, crc_bytes}

pub crc_bit_even : (c : ℕ) → c < 2 ^ 32 → c % 2 ≡ 0 → crc_bit c ≡ c / 2
unfolding crc_bit
crc_bit_even c h even =
    let low : bit_and c 1 ≡ 0 = bit_and-mask 1 c ∙ even in
    rw low (bit_xor-zero 32 (c / 2) (omega arith))

pub crc_bit_odd : (c : ℕ) → c % 2 ≡ 1 → crc_bit c ≡ bit_xor (c / 2) 0xEDB88320
unfolding crc_bit
crc_bit_odd c odd = let low : bit_and c 1 ≡ 1 = bit_and-mask 1 c ∙ odd in rw low

pub crc_bit-lt : (c : ℕ) → c < 2 ^ 32 → crc_bit c < 2 ^ 32
crc_bit-lt c h = elim (dec_lt 0 (c % 2)) [
  | yes odd ↦
      rw (crc_bit_odd c (omega arith))
        (bit_xor-lt 32 (c / 2) 0xEDB88320 (omega arith) (omega arith))
  | no even ↦ rw (crc_bit_even c h (omega arith)) (omega arith)
]

-- The top bit of a round tells whether the bit shifted out was set.
crc_bit-odd_top : (c : ℕ) → c < 2 ^ 32 → c % 2 ≡ 1 → 2 ^ 31 ≤ crc_bit c
crc_bit-odd_top c h odd =
    rw (crc_bit_odd c odd)
      (bit_xor-top 31 (c / 2) 0xEDB88320 (omega arith) (omega arith) (omega arith))

crc_bit-even_top : (c : ℕ) → c < 2 ^ 32 → c % 2 ≡ 0 → crc_bit c < 2 ^ 31
crc_bit-even_top c h even = rw (crc_bit_even c h even) (omega arith)

-- A round loses nothing.
crc_bit_cancel : (c d : ℕ) → c < 2 ^ 32 → d < 2 ^ 32 → crc_bit c ≡ crc_bit d → c ≡ d
crc_bit_cancel c d hc hd e = elim (dec_lt 0 (c % 2)) [
  | yes odd ↦ elim (dec_lt 0 (d % 2)) [
    | yes odd' ↦
        let halves : c / 2 ≡ d / 2 =
          bit_xor_cancel 32 (c / 2) (d / 2) 0xEDB88320 (omega arith) (omega arith)
            (sym (crc_bit_odd c (omega arith)) ∙ e ∙ crc_bit_odd d (omega arith)) in
        omega arith
    | no even' ↦
        omega (arith, crc_bit-odd_top c hc (omega arith), crc_bit-even_top d hd (omega arith))
  ]
  | no even ↦ elim (dec_lt 0 (d % 2)) [
    | yes odd' ↦
        omega (arith, crc_bit-odd_top d hd (omega arith), crc_bit-even_top c hc (omega arith))
    | no even' ↦ omega (arith, crc_bit_even c hc (omega arith), crc_bit_even d hd (omega arith))
  ]
]

pub crc_bits-lt : (k c : ℕ) → c < 2 ^ 32 → crc_bits k c < 2 ^ 32
unfolding crc_bits
crc_bits-lt zero c h = h
crc_bits-lt (suc k) c h = crc_bits-lt k (crc_bit c) (crc_bit-lt c h)

pub crc_bits_cancel : (k c d : ℕ) → c < 2 ^ 32 → d < 2 ^ 32 → crc_bits k c ≡ crc_bits k d → c ≡ d
unfolding crc_bits
crc_bits_cancel zero c d hc hd e = e
crc_bits_cancel (suc k) c d hc hd e =
    crc_bit_cancel c d hc hd
      (crc_bits_cancel k (crc_bit c) (crc_bit d) (crc_bit-lt c hc) (crc_bit-lt d hd) e)

-- What lies above the bits of `k` rounds is only shifted by them.
pub crc_bit-shift :
    (c d : ℕ) → c < 2 ^ 32 → d < 2 ^ 31 → crc_bit (bit_xor c (2 * d)) ≡ bit_xor (crc_bit c) d
crc_bit-shift c d hc hd =
    let x = bit_xor c (2 * d) in
    let x_lt : x < 2 ^ 32 = bit_xor-lt 32 c (2 * d) hc (omega arith) in
    let doubled : 2 * d / 2 ≡ d = omega arith in
    let half : x / 2 ≡ bit_xor (c / 2) d = bit_xor-half c (2 * d) ∙ ap (bit_xor (c / 2)) doubled in
    let parity : x % 2 ≡ c % 2 = omega (arith, bit_xor_halves c (2 * d)) in
    elim (dec_lt 0 (c % 2)) [
      | yes odd ↦
          crc_bit_odd x (omega (arith, parity))
          ∙ ap (λ n. bit_xor n 0xEDB88320) half
          ∙ bit_xor_swap 32 (c / 2) d 0xEDB88320 (omega arith) (omega arith) (omega arith)
          ∙ ap (λ n. bit_xor n d) (sym (crc_bit_odd c (omega arith)))
      | no even ↦
          crc_bit_even x x_lt (omega (arith, parity))
          ∙ half
          ∙ ap (λ n. bit_xor n d) (sym (crc_bit_even c hc (omega arith)))
    ]

pub crc_bits-shift :
    (k c d : ℕ)
    → c < 2 ^ 32
    → 2 ^ k * d < 2 ^ 32
    → crc_bits k (bit_xor c (2 ^ k * d)) ≡ bit_xor (crc_bits k c) d
unfolding crc_bits
crc_bits-shift zero c d hc hd = ap (bit_xor c) (let e : 2 ^ 0 * d ≡ d = omega arith in e)
crc_bits-shift (suc k) c d hc hd =
    let doubled : 2 ^ suc k * d ≡ 2 * (2 ^ k * d) =
      omega (arith, ap (λ (t : ℕ). t * d) (pow-suc 2 k)) in
    let once : crc_bit (bit_xor c (2 ^ suc k * d)) ≡ bit_xor (crc_bit c) (2 ^ k * d) =
      ap (λ t. crc_bit (bit_xor c t)) doubled
      ∙ crc_bit-shift c (2 ^ k * d) hc (omega (arith, doubled)) in
    ap (crc_bits k) once ∙ crc_bits-shift k (crc_bit c) d (crc_bit-lt c hc) (omega (arith, doubled))

-- What the bytes of an array are.
abbrev pub AllBytes : List ℕ → Type 0
AllBytes [] = Unit
AllBytes (b ∷ bytes) = (b < 256) × AllBytes bytes

-- The bytes as one number, low byte first.
abbrev pub word : List ℕ → ℕ
word [] = 0
word (b ∷ bytes) = b + 2 ^ 8 * word bytes

-- The rounds that they take.
abbrev pub rounds : List ℕ → ℕ
rounds [] = 0
rounds (b ∷ bytes) = 8 + rounds bytes

byte_up : (k : ℕ) → 2 ^ (8 + k) ≡ 256 * 2 ^ k
byte_up k =
    ap (λ n. 2 ^ n) (let e : 8 + k ≡ k + 8 = omega arith in e) ∙ simp towards_suc (omega arith)

word-lt : (bytes : List ℕ) → AllBytes bytes → word bytes < 2 ^ rounds bytes
word-lt [] h = omega arith
word-lt (b ∷ bytes) (hb, h) = omega (arith, word-lt bytes h, byte_up (rounds bytes))

pub word-fits : (bytes : List ℕ) → AllBytes bytes → rounds bytes ≤ 32 → word bytes < 2 ^ 32
word-fits bytes h le =
    omega (
      arith,
      word-lt bytes h,
      pow-le-pow_right {n = 2} (omega arith) {i = rounds bytes} {j = 32} le,
    )

crc_bits-add : (k j c : ℕ) → crc_bits (k + j) c ≡ crc_bits j (crc_bits k c)
unfolding crc_bits
crc_bits-add zero j c = ap (λ n. crc_bits n c) (let e : 0 + j ≡ j = omega arith in e)
crc_bits-add (suc k) j c =
    ap (λ n. crc_bits n c) (let e : suc k + j ≡ suc (k + j) = omega arith in e)
    ∙ crc_bits-add k j (crc_bit c)

-- Up to four bytes go in as one word.
pub crc_bytes-word :
    (bytes : List ℕ) (c : ℕ)
    → AllBytes bytes
    → rounds bytes ≤ 32
    → c < 2 ^ 32
    → crc_bytes bytes c ≡ crc_bits (rounds bytes) (bit_xor c (word bytes))
unfolding crc_bytes crc_bits
crc_bytes-word [] c h le hc = sym (bit_xor-zero 32 c hc)
crc_bytes-word (b ∷ bytes) c (hb, h) le hc =
    let cb = bit_xor c b in
    let cb_lt : cb < 2 ^ 32 = bit_xor-lt 32 c b hc (omega arith) in
    let word_lt = word-fits (b ∷ bytes) (hb, h) le in
    let up_lt : 2 ^ 8 * word bytes < 2 ^ 32 = omega (arith, word_lt) in
    crc_bytes-word bytes (crc_bits 8 cb) h (omega arith) (crc_bits-lt 8 cb cb_lt)
    ∙ ap (crc_bits (rounds bytes)) (sym (crc_bits-shift 8 cb (word bytes) cb_lt up_lt))
    ∙ sym (crc_bits-add 8 (rounds bytes) (bit_xor cb (2 ^ 8 * word bytes)))
    ∙ ap (crc_bits (8 + rounds bytes)) (
        bit_xor_assoc 32 c b (2 ^ 8 * word bytes) hc (omega arith) up_lt
        ∙ ap (bit_xor c) (bit_xor_sum 8 (word bytes) b hb))
