-- ===== src/DataIface/LogFile/Burst.antt =====
-- What the checksum of DataIface_LogFile.cpp is, bit by bit, and the errors that it finds.
use libdronecan.Prelude.{
  ℕ, ◌*◌, ◌^◌, ◌≤◌, ◌<◌, ◌≡◌, ◌≢◌, refl, sym, ap, ap₂, ◌∙◌, List, [], ◌∷◌, ◌++◌, length, arith,
  bit_xor, Option, none, some,
}
use libdronecan.Prelude.Bits.Xor.{bit_xor-lt, bit_xor_cancel, bit_xor_comm}
use libdronecan.DataIface.Frame.{CanFrame}
use libdronecan.DataIface.LogFile.{crc_bits, crc_bytes, crc32, data_of, update_rx}
use libdronecan.DataIface.LogFile.Codec.{IsFile, entry_with, crc32-lt}
use libdronecan.DataIface.LogFile.RoundTrip.{NoHeader, update_rx-corrupt}
use libdronecan.DataIface.LogFile.Crc.{
  AllBytes, word, rounds, word-fits, crc_bits-lt, crc_bits_cancel, crc_bytes-word,
}

crc_bytes-lt : (bytes : List ℕ) (c : ℕ) → AllBytes bytes → c < 2 ^ 32 → crc_bytes bytes c < 2 ^ 32
unfolding crc_bytes
crc_bytes-lt [] c h hc = hc
crc_bytes-lt (b ∷ bytes) c (hb, h) hc =
    crc_bytes-lt bytes (crc_bits 8 (bit_xor c b)) h
      (crc_bits-lt 8 (bit_xor c b) (bit_xor-lt 32 c b hc (omega arith)))

crc_bytes-append : (xs ys : List ℕ) (c : ℕ) → crc_bytes (xs ++ ys) c ≡ crc_bytes ys (crc_bytes xs c)
unfolding crc_bytes
crc_bytes-append [] ys c = refl
crc_bytes-append (x ∷ xs) ys c = crc_bytes-append xs ys (crc_bits 8 (bit_xor c x))

-- Two states that differ still differ behind the same bytes.
crc_bytes_cancel :
    (bytes : List ℕ) (c d : ℕ)
    → AllBytes bytes
    → c < 2 ^ 32
    → d < 2 ^ 32
    → crc_bytes bytes c ≡ crc_bytes bytes d
    → c ≡ d
unfolding crc_bytes
crc_bytes_cancel [] c d h hc hd e = e
crc_bytes_cancel (b ∷ bytes) c d (hb, h) hc hd e =
    let lt : (x : ℕ) → x < 2 ^ 32 → bit_xor x b < 2 ^ 32 =
      λ x hx. bit_xor-lt 32 x b hx (omega arith) in
    let states =
      crc_bytes_cancel bytes (crc_bits 8 (bit_xor c b)) (crc_bits 8 (bit_xor d b)) h
        (crc_bits-lt 8 (bit_xor c b) (lt c hc)) (crc_bits-lt 8 (bit_xor d b) (lt d hd)) e in
    bit_xor_cancel 32 c d b hc hd
      (crc_bits_cancel 8 (bit_xor c b) (bit_xor d b) (lt c hc) (lt d hd) states)

-- Words of the same bytes.
word_cancel :
    (xs ys : List ℕ)
    → AllBytes xs
    → AllBytes ys
    → length xs ≡ length ys
    → word xs ≡ word ys
    → xs ≡ ys
word_cancel [] [] hx hy len e = refl
word_cancel [] (y ∷ ys) hx hy len e = absurd (omega arith)
word_cancel (x ∷ xs) [] hx hy len e = absurd (omega arith)
word_cancel (x ∷ xs) (y ∷ ys) (hx, hxs) (hy, hys) len e =
    ap₂ (λ a l. a ∷ l) (let first : x ≡ y = omega arith in first)
      (word_cancel xs ys hxs hys (omega arith) (omega arith))

rounds-length : (xs : List ℕ) → rounds xs ≡ 8 * length xs
rounds-length [] = refl
rounds-length (x ∷ xs) = omega (arith, rounds-length xs)

-- At the same state, other bytes of the same number, four at most, lead to another state.
crc_bytes_burst :
    (xs ys : List ℕ) (c : ℕ)
    → AllBytes xs
    → AllBytes ys
    → length xs ≡ length ys
    → length xs ≤ 4
    → c < 2 ^ 32
    → crc_bytes xs c ≡ crc_bytes ys c
    → xs ≡ ys
crc_bytes_burst xs ys c hx hy len le hc e =
    let lex : rounds xs ≤ 32 = omega (arith, rounds-length xs) in
    let ley : rounds ys ≤ 32 = omega (arith, rounds-length ys) in
    let same_rounds : rounds ys ≡ rounds xs = omega (arith, rounds-length xs, rounds-length ys) in
    let wx = word-fits xs hx lex in
    let wy = word-fits ys hy ley in
    let ends : crc_bits (rounds xs) (bit_xor c (word xs))
        ≡ crc_bits (rounds xs) (bit_xor c (word ys)) =
      sym (crc_bytes-word xs c hx lex hc)
      ∙ e
      ∙ crc_bytes-word ys c hy ley hc
      ∙ ap (λ n. crc_bits n (bit_xor c (word ys))) same_rounds in
    let mixed : bit_xor c (word xs) ≡ bit_xor c (word ys) =
      crc_bits_cancel (rounds xs) (bit_xor c (word xs)) (bit_xor c (word ys))
        (bit_xor-lt 32 c (word xs) hc wx) (bit_xor-lt 32 c (word ys) hc wy) ends in
    word_cancel xs ys hx hy len (
      bit_xor_cancel 32 (word xs) (word ys) c wx wy
        (bit_xor_comm 32 (word xs) c wx hc ∙ mixed ∙ bit_xor_comm 32 c (word ys) hc wy))

-- Data that differ within up to four neighbouring bytes, all else being equal, have different
-- checksums.
pub crc32_burst :
    (front xs ys back : List ℕ)
    → AllBytes front
    → AllBytes xs
    → AllBytes ys
    → AllBytes back
    → length xs ≡ length ys
    → length xs ≤ 4
    → xs ≢ ys
    → crc32 (front ++ (xs ++ back)) ≢ crc32 (front ++ (ys ++ back))
unfolding crc32
crc32_burst front xs ys back hf hx hy hb len le ne e =
    let c = crc_bytes front 0xFFFFFFFF in
    let hc : c < 2 ^ 32 = crc_bytes-lt front 0xFFFFFFFF hf (omega arith) in
    let sx_lt = crc_bytes-lt xs c hx hc in
    let sy_lt = crc_bytes-lt ys c hy hc in
    let split : (zs : List ℕ)
        → crc_bytes (front ++ (zs ++ back)) 0xFFFFFFFF ≡ crc_bytes back (crc_bytes zs c) =
      λ zs. crc_bytes-append front (zs ++ back) 0xFFFFFFFF ∙ crc_bytes-append zs back c in
    let ends : crc_bytes back (crc_bytes xs c) ≡ crc_bytes back (crc_bytes ys c) = omega (
      arith,
      e,
      split xs,
      split ys,
      crc_bytes-lt back (crc_bytes xs c) hb sx_lt,
      crc_bytes-lt back (crc_bytes ys c) hb sy_lt,
    ) in
    ne (
      crc_bytes_burst xs ys c hx hy len le hc
        (crc_bytes_cancel back (crc_bytes xs c) (crc_bytes ys c) hb sx_lt sy_lt ends))

-- An entry whose data were damaged within up to four neighbouring bytes after its checksum was
-- computed is read to its end and handed on to nobody, whatever became of its identifier. A
-- reading gives the bytes asked for, the data are bytes, those before the entry are no header
-- bytes, and the rounds given to the search for the header are more than those.
pub update_rx_burst :
    {F : Type 0} {read : ℕ → F → Option (List ℕ) × F} {write : List ℕ → F → Option ℕ × F}
    {contents : F → List ℕ} (file : IsFile read write contents) (fuel : ℕ)
    (sent damaged frame : CanFrame) (front xs ys back junk rest : List ℕ) (f : F)
    → data_of sent ≡ front ++ (xs ++ back)
    → data_of damaged ≡ front ++ (ys ++ back)
    → AllBytes front
    → AllBytes xs
    → AllBytes ys
    → AllBytes back
    → length xs ≡ length ys
    → length xs ≤ 4
    → xs ≢ ys
    → NoHeader junk
    → length junk < fuel
    → contents f ≡ junk ++ (entry_with (crc32 (data_of sent)) damaged ++ rest)
    → (f' : F) × (update_rx read fuel frame (some f) ≡ (none, some f')) × (contents f' ≡ rest)
update_rx_burst file fuel sent damaged frame front xs ys back junk rest f es ed hf hx hy hb len le
      ne clean lt h =
    update_rx-corrupt file fuel (crc32 (data_of sent)) damaged frame junk rest f clean lt
      (crc32-lt (data_of sent))
      (λ e.
        crc32_burst front xs ys back hf hx hy hb len le ne (ap crc32 (sym es) ∙ e ∙ ap crc32 ed))
      h
