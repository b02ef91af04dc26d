-- ===== src/DataIface/Raw/Push.antt =====
-- `RawIface::Buffer::push` of DataIface_Raw.cpp: what it appends, and when it refuses.
use mathlib.Core.List.{append_assoc, append-nil}
use libdronecan.Prelude.{
  ℕ, zero, suc, ◌+◌, ◌-◌, ◌/◌, ◌%◌, ◌^◌, ◌≤◌, ◌<◌, ◌≡◌, refl, sym, ◌∙◌, ap, true, false, List, [],
  ◌∷◌, ◌++◌, length, get_or, length-append, arith, lt→ltb, le→not-ltb,
}
use libdronecan.Prelude.Bits.{bit_and-mask}
use libdronecan.DataIface.Frame.{CanFrame, slice, length-slice}
use libdronecan.DataIface.Raw.{
  Buffer, available, txspace, pushbyte, push_data, push, frame_header1, frame_size_without_data,
}
use libdronecan.DataIface.Raw.Contents.{
  IsValid, contents, available-lt, pushbyte-IsValid, available-pushbyte, contents-pushbyte,
}

-- `b'` is `b` with the bytes `bs` behind its unread bytes, and nothing else changed.
pub record Pushed (b : Buffer) (bs : List ℕ) (b' : Buffer) : Type 0 where
  pub valid : IsValid b'
  pub size_same : b'.size ≡ b.size
  pub tail_same : b'.tail ≡ b.tail
  pub count : available b' ≡ available b + length bs
  pub bytes : contents b' ≡ contents b ++ bs

Pushed-nil : {b : Buffer} → IsValid b → Pushed b [] b
Pushed-nil {b} v = record {
  valid = v;
  size_same = refl;
  tail_same = refl;
  count = omega arith;
  bytes = sym (append-nil (contents b));
}

Pushed-snoc :
    {b b' : Buffer} {bs : List ℕ} (x : ℕ)
    → Pushed b bs b'
    → available b + length bs + 1 < b.size
    → Pushed b (bs ++ (x ∷ [])) (pushbyte b' x)
unfolding pushbyte
Pushed-snoc {b} {b'} {bs} x p room =
    let room' : available b' + 1 < b'.size = omega (arith, p.count, p.size_same) in
    record {
      valid = pushbyte-IsValid p.valid x;
      size_same = p.size_same;
      tail_same = p.tail_same;
      count = omega (arith, available-pushbyte p.valid x room', p.count, length-append bs (x ∷ []));
      bytes =
          contents-pushbyte p.valid x room'
          ∙ ap (λ l. l ++ (x ∷ [])) p.bytes
          ∙ append_assoc (contents b) bs (x ∷ []);
    }

push_data-Pushed :
    (n i : ℕ) (bytes : List ℕ) {b b' : Buffer} {bs : List ℕ}
    → Pushed b bs b'
    → available b + length bs + n < b.size
    → Pushed b (bs ++ slice n i bytes) (push_data n i bytes b')
unfolding push_data
push_data-Pushed zero i bytes {b} {b'} {bs} p room = rw (append-nil bs) p
push_data-Pushed (suc n) i bytes {b} {b'} {bs} p room =
    rw (append_assoc bs (get_or bytes i 0 ∷ []) (slice n (i + 1) bytes)) at (
      push_data-Pushed n (i + 1) bytes (Pushed-snoc (get_or bytes i 0) p (omega arith))
        (omega (arith, length-append bs (get_or bytes i 0 ∷ []))))

abbrev push_list : List ℕ → Buffer → Buffer
push_list [] b = b
push_list (x ∷ xs) b = push_list xs (pushbyte b x)

push_list-Pushed :
    (xs : List ℕ) {b b' : Buffer} {bs : List ℕ}
    → Pushed b bs b'
    → available b + length bs + length xs < b.size
    → Pushed b (bs ++ xs) (push_list xs b')
push_list-Pushed [] {bs} p room = rw (append-nil bs) p
push_list-Pushed (x ∷ xs) {bs} p room =
    rw (append_assoc bs (x ∷ []) xs) at (
      push_list-Pushed xs (Pushed-snoc x p (omega arith))
        (omega (arith, length-append bs (x ∷ []))))

-- The six bytes in front of the data.
abbrev pub header : CanFrame → List ℕ
header f =
    frame_header1
    ∷ f.id % 256
    ∷ f.id / 2 ^ 8 % 256
    ∷ f.id / 2 ^ 16 % 256
    ∷ f.id / 2 ^ 24 % 256
    ∷ f.data_len
    ∷ []

-- The bytes of a frame on the ring: header, identifier with the low byte first, length, data.
unfoldable pub encode : CanFrame → List ℕ
encode f = header f ++ slice f.data_len 0 f.payload

pub length-encode : (f : CanFrame) → length (encode f) ≡ f.data_len + 6
unfolding encode
length-encode f = omega (arith, length-slice f.data_len 0 f.payload)

pub txspace_lem : {b : Buffer} → IsValid b → txspace b ≡ b.size - available b
unfolding txspace
txspace_lem v = omega (arith, available-lt v, v.small)

-- A valid ring with less room than the frame's data and seven bytes refuses the frame and is left
-- as it was.
pub push_refused :
    {b : Buffer} (f : CanFrame)
    → IsValid b
    → b.size < available b + f.data_len + frame_size_without_data
    → push b f ≡ (false, b)
unfolding push
push_refused {b} f v h =
    rw (lt→ltb (txspace b) (f.data_len + 7) (omega (arith, txspace_lem v, available-lt v)))

-- On a valid ring with room for the data and seven bytes, `push` returns true, appends exactly
-- the bytes of the frame to the unread bytes, and leaves the ring valid.
pub push-encode :
    {b : Buffer} (f : CanFrame)
    → IsValid b
    → available b + f.data_len + frame_size_without_data ≤ b.size
    → ((push b f).0 ≡ true) × Pushed b (encode f) (push b f).1
unfolding push encode
push-encode {b} f v h =
    rw (le→not-ltb (txspace b) (f.data_len + 7) (omega (arith, txspace_lem v, available-lt v))) (
      refl,
      rw
          (
            bit_and-mask 8 f.id,
            bit_and-mask 8 (f.id / 2 ^ 8),
            bit_and-mask 8 (f.id / 2 ^ 16),
            bit_and-mask 8 (f.id / 2 ^ 24),
          )
          (push_data-Pushed f.data_len 0 f.payload
            (push_list-Pushed (header f) (Pushed-nil v) (omega arith)) (omega arith)),
    )
