-- ===== src/DataIface/Raw/RoundTrip.antt =====
-- `push` then `pop` on the ring of DataIface_Raw.cpp.
use libdronecan.Prelude.{
  ℕ, zero, suc, ◌+◌, ◌*◌, ◌/◌, ◌%◌, ◌^◌, ◌≤◌, ◌<◌, ◌≡◌, refl, sym, ◌∙◌, ap, ap₂, true, List, [],
  ◌∷◌, ◌++◌, length, get_or, set, length-append, length-set, get_or-set_self, get_or-set_ne, arith,
  ==_ne, bit_or, ℕ_discrete,
}
use mathlib.Core.List.{append_assoc}
use libdronecan.Prelude.Bits.{bit_or-shift}
use libdronecan.DataIface.Frame.{CanFrame, IsFrame, slice}
use libdronecan.DataIface.Raw.{
  Buffer, available, advance, peekbyte, store, pop_data, peek_frame, pop, frame_header1,
  frame_size_without_data,
}
use libdronecan.DataIface.Raw.Contents.{IsValid, contents, peekbyte-contents, length-window}
use libdronecan.DataIface.Raw.Push.{encode, header, length-encode}

-- The identifier is put together again from its four bytes.
id_bytes :
    (x : ℕ)
    → x < 2 ^ 32
    → bit_or
        (bit_or
          (bit_or (x % 256) (x / 2 ^ 8 % 256 * 2 ^ 8 % 2 ^ 32))
          (x / 2 ^ 16 % 256 * 2 ^ 16 % 2 ^ 32))
        (x / 2 ^ 24 % 256 * 2 ^ 24 % 2 ^ 32)
      ≡ x
id_bytes x h =
    let e1 : x / 2 ^ 8 % 256 * 2 ^ 8 % 2 ^ 32 ≡ 2 ^ 8 * (x / 2 ^ 8 % 256) = omega arith in
    let e2 : x / 2 ^ 16 % 256 * 2 ^ 16 % 2 ^ 32 ≡ 2 ^ 16 * (x / 2 ^ 16 % 256) = omega arith in
    let e3 : x / 2 ^ 24 % 256 * 2 ^ 24 % 2 ^ 32 ≡ 2 ^ 24 * (x / 2 ^ 24 % 256) = omega arith in
    rw
      (
        e1,
        e2,
        e3,
        bit_or-shift 8 (x / 2 ^ 8 % 256) (x % 256) (omega arith),
        bit_or-shift 16 (x / 2 ^ 16 % 256) (x % 256 + 2 ^ 8 * (x / 2 ^ 8 % 256)) (omega arith),
        bit_or-shift 24 (x / 2 ^ 24 % 256)
            (x % 256 + 2 ^ 8 * (x / 2 ^ 8 % 256) + 2 ^ 16 * (x / 2 ^ 16 % 256)) (omega arith),
      )
      (omega arith)

get_or-append_right : (xs ys : List ℕ) (i : ℕ) → get_or (xs ++ ys) (length xs + i) 0 ≡ get_or ys i 0
get_or-append_right [] ys i = ap (λ k. get_or ys k 0) (omega arith)
get_or-append_right (x ∷ xs) ys i =
    ap (λ k. get_or (x ∷ xs ++ ys) k 0)
      (let e : suc (length xs) + i ≡ suc (length xs + i) = omega arith in e)
    ∙ get_or-append_right xs ys i

get_or-slice :
    (n i j : ℕ) (bytes rest : List ℕ)
    → j < n
    → get_or (slice n i bytes ++ rest) j 0 ≡ get_or bytes (i + j) 0
get_or-slice zero i j bytes rest h = absurd (omega arith)
get_or-slice (suc n) i zero bytes rest h = ap (λ k. get_or bytes k 0) (omega arith)
get_or-slice (suc n) i (suc j) bytes rest h =
    get_or-slice n (i + 1) j bytes rest (omega arith) ∙ ap (λ k. get_or bytes k 0) (omega arith)

-- Two arrays that agree from `i` on for `n` bytes have one slice there.
slice-ext :
    (n i : ℕ) (xs ys : List ℕ)
    → ((j : ℕ) → i ≤ j → j < i + n → get_or xs j 0 ≡ get_or ys j 0)
    → slice n i xs ≡ slice n i ys
slice-ext zero i xs ys h = refl
slice-ext (suc n) i xs ys h =
    ap₂ ◌∷◌ (h i (omega arith) (omega arith))
      (slice-ext n (i + 1) xs ys (λ j p q. h j (omega arith) (omega arith)))

-- A write within the array.
store-set : (bytes : List ℕ) (i byte : ℕ) → i < length bytes → store bytes i byte ≡ set bytes i byte
unfolding store
store-set bytes i byte lt = ground arith

pop_data-step :
    (n i : ℕ) (b : Buffer) (bytes : List ℕ)
    → i < length bytes
    → pop_data (suc n) i b bytes ≡ pop_data n (i + 1) b (set bytes i (peekbyte b (6 + i)))
unfolding pop_data
pop_data-step n i b bytes lt = ap (pop_data n (i + 1) b) (store-set bytes i (peekbyte b (6 + i)) lt)

pop_data-before :
    (n i j : ℕ) (b : Buffer) (bytes : List ℕ)
    → j < i
    → i + n ≤ length bytes
    → get_or (pop_data n i b bytes) j 0 ≡ get_or bytes j 0
unfolding pop_data
pop_data-before zero i j b bytes h room = refl
pop_data-before (suc n) i j b bytes h room =
    ap (λ l. get_or l j 0) (pop_data-step n i b bytes (omega arith))
    ∙ pop_data-before n (i + 1) j b (set bytes i (peekbyte b (6 + i))) (omega arith)
        (omega (arith, length-set bytes i (peekbyte b (6 + i))))
    ∙ get_or-set_ne bytes i j (peekbyte b (6 + i)) 0 (omega arith)

pop_data_lem :
    (n i j : ℕ) (b : Buffer) (bytes : List ℕ)
    → i + n ≤ length bytes
    → i ≤ j
    → j < i + n
    → get_or (pop_data n i b bytes) j 0 ≡ peekbyte b (6 + j)
unfolding pop_data
pop_data_lem zero i j b bytes room p q = absurd (omega arith)
pop_data_lem (suc n) i j b bytes room p q = elim (ℕ_discrete i j) [
  | yes e ↦
      ap (λ l. get_or l j 0) (pop_data-step n i b bytes (omega arith))
      ∙ pop_data-before n (i + 1) j b (set bytes i (peekbyte b (6 + i))) (omega arith)
          (omega (arith, length-set bytes i (peekbyte b (6 + i))))
      ∙ ap (λ k. get_or (set bytes i (peekbyte b (6 + i))) k 0) (sym e)
      ∙ get_or-set_self bytes i (peekbyte b (6 + i)) 0 (omega arith)
      ∙ ap (λ k. peekbyte b (6 + k)) e
  | no ne ↦
      ap (λ l. get_or l j 0) (pop_data-step n i b bytes (omega arith))
      ∙ pop_data_lem n (i + 1) j b (set bytes i (peekbyte b (6 + i)))
          (omega (arith, length-set bytes i (peekbyte b (6 + i)))) (omega arith) (omega arith)
]

module _ {b : Buffer} (f g : CanFrame) (rest : List ℕ) (v : IsValid b) (w : IsFrame f)
    (unread : contents b ≡ encode f ++ rest) (room : f.data_len ≤ length g.payload) where
  pub count_unread : available b ≡ f.data_len + 6 + length rest
  count_unread =
      sym (length-window b.buffer b.size b.tail (available b))
      ∙ ap length unread
      ∙ length-append (encode f) rest
      ∙ ap (λ k. k + length rest) (length-encode f)

  peek : (i : ℕ) → i < f.data_len + 6 → peekbyte b i ≡ get_or (encode f ++ rest) i 0
  peek i lt =
      peekbyte-contents v i (omega (arith, w.len_fits)) (omega (arith, count_unread))
      ∙ ap (λ l. get_or l i 0) unread

  peek_len : peekbyte b 5 ≡ f.data_len
  unfolding encode
  peek_len = peek 5 (omega arith)

  id_lem : (peek_frame b g).id ≡ f.id
  unfolding peek_frame encode
  id_lem =
      rw (peek 1 (omega arith), peek 2 (omega arith), peek 3 (omega arith), peek 4 (omega arith))
        (id_bytes f.id w.id_fits)

  len_lem : (peek_frame b g).data_len ≡ f.data_len
  unfolding peek_frame
  len_lem = peek_len

  peek_data : (j : ℕ) → j < f.data_len → peekbyte b (6 + j) ≡ get_or f.payload j 0
  unfolding encode
  peek_data j lt =
      peek (6 + j) (omega arith)
      ∙ ap (λ l. get_or l (6 + j) 0) (append_assoc (header f) (slice f.data_len 0 f.payload) rest)
      ∙ get_or-append_right (header f) (slice f.data_len 0 f.payload ++ rest) j
      ∙ get_or-slice f.data_len 0 j f.payload rest lt
      ∙ ap (λ k. get_or f.payload k 0) (omega arith)

  data_lem : slice f.data_len 0 (peek_frame b g).payload ≡ slice f.data_len 0 f.payload
  unfolding peek_frame
  data_lem = rw peek_len (
      slice-ext f.data_len 0 (pop_data f.data_len 0 b g.payload) f.payload λ j p q.
        pop_data_lem f.data_len 0 j b g.payload (omega arith) p q ∙ peek_data j (omega arith))

  pub pop-accepts :
      pop b g ≡ (true, peek_frame b g, advance b (f.data_len + frame_size_without_data))
  unfolding pop
  pop-accepts =
      rw
        (
          ==_ne (available b) 0 (omega (arith, count_unread)),
          (let e : peekbyte b 0 ≡ frame_header1 = unfold encode in peek 0 (omega arith) in e),
          len_lem,
        )
        refl

  -- If the unread bytes of a valid ring begin with those of a frame that fits its C types, `pop`
  -- returns true and that frame's identifier, length and data, where the caller's array has room
  -- for the data.
  pub pop-encode :
      ((pop b g).0 ≡ true)
      × ((pop b g).1.id ≡ f.id)
      × ((pop b g).1.data_len ≡ f.data_len)
      × (slice f.data_len 0 (pop b g).1.payload ≡ slice f.data_len 0 f.payload)
  pop-encode = rw pop-accepts (refl, id_lem, len_lem, data_lem)
