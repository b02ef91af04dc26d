-- ===== src/DataIface/Raw/Keep.antt =====
-- What every call on a ring of DataIface_Raw.cpp keeps, whatever frame it is given.
use libdronecan.Prelude.{
  ℕ, zero, suc, ◌+◌, ◌/◌, ◌^◌, ◌≡◌, ◌∙◌, List, get_or, bit_and, ltb, Bool-cases, inl, inr,
}
use libdronecan.DataIface.Frame.{CanFrame}
use libdronecan.DataIface.Raw.{
  Buffer, pushbyte, push_data, push, pop, txspace, frame_size_without_data, frame_header1,
}
use libdronecan.DataIface.Raw.Contents.{IsValid, pushbyte-IsValid}
use libdronecan.DataIface.Raw.Pop.{pop-IsValid, size-pop}

-- A valid ring of the size that the layout gives it.
pub record IsRing (size : ℕ) (b : Buffer) : Type 0 where
  pub valid : IsValid b
  pub size_same : b.size ≡ size

pushbyte-IsRing : (size x : ℕ) (b : Buffer) → IsRing size b → IsRing size (pushbyte b x)
pushbyte-IsRing size x b is = record {
  valid = pushbyte-IsValid is.valid x;
  size_same = (unfold pushbyte in is.size_same);
}

push_data-IsRing :
    (n i : ℕ) (bytes : List ℕ) (size : ℕ) (b : Buffer)
    → IsRing size b
    → IsRing size (push_data n i bytes b)
unfolding push_data
push_data-IsRing zero i bytes size b is = is
push_data-IsRing (suc n) i bytes size b is =
    push_data-IsRing n (i + 1) bytes size (pushbyte b (get_or bytes i 0))
      (pushbyte-IsRing size (get_or bytes i 0) b is)

-- A frame of any length: it is refused, or its bytes are pushed one after the other.
pub push-IsRing : (size : ℕ) (b : Buffer) (f : CanFrame) → IsRing size b → IsRing size (push b f).1
unfolding push
push-IsRing size b f is =
    let b1 = pushbyte b frame_header1 in
    let b2 = pushbyte b1 (bit_and f.id 0xFF) in
    let b3 = pushbyte b2 (bit_and (f.id / 2 ^ 8) 0xFF) in
    let b4 = pushbyte b3 (bit_and (f.id / 2 ^ 16) 0xFF) in
    let b5 = pushbyte b4 (bit_and (f.id / 2 ^ 24) 0xFF) in
    let i1 = pushbyte-IsRing size frame_header1 b is in
    let i2 = pushbyte-IsRing size (bit_and f.id 0xFF) b1 i1 in
    let i3 = pushbyte-IsRing size (bit_and (f.id / 2 ^ 8) 0xFF) b2 i2 in
    let i4 = pushbyte-IsRing size (bit_and (f.id / 2 ^ 16) 0xFF) b3 i3 in
    let i5 = pushbyte-IsRing size (bit_and (f.id / 2 ^ 24) 0xFF) b4 i4 in
    let i6 = pushbyte-IsRing size f.data_len b5 i5 in
    let b6 = pushbyte b5 f.data_len in
    elim (Bool-cases (ltb (txspace b) (f.data_len + frame_size_without_data))) [
      | inl full ↦ rw full is
      | inr room ↦ rw room (push_data-IsRing f.data_len 0 f.payload size b6 i6)
    ]

pub pop-IsRing : (size : ℕ) (b : Buffer) (g : CanFrame) → IsRing size b → IsRing size (pop b g).2
pop-IsRing size b g is = record {
  valid = pop-IsValid g is.valid;
  size_same = size-pop b g ∙ is.size_same;
}
