-- ===== src/DataIface/Raw/Pop.antt =====
-- `RawIface::Buffer::pop` of DataIface_Raw.cpp: what it reads of the unread bytes, and what it
-- leaves.
use native.Mathlib.Nat.{mod-eq_of_lt, mod-lt, mod-add-mod, add-mod_right, add_comm, add_assoc}
use libdronecan.Prelude.{
  ℕ, ◌+◌, ◌-◌, ◌%◌, ◌≤◌, ◌<◌, ◌≡◌, ◌≢◌, ◌⊎◌, sym, ◌∙◌, ap, ap₂, false, drop, arith,
}
use libdronecan.DataIface.Frame.{CanFrame}
use libdronecan.DataIface.Raw.{
  Buffer, size_mod, available, advance, peekbyte, peek_frame, pop, frame_header1,
  frame_size_without_data,
}
use libdronecan.DataIface.Raw.Contents.{
  IsValid, contents, window, available-lt, available-head, drop-window, available_unique,
}

pub size-pop : (b : Buffer) (frame : CanFrame) → (pop b frame).2.size ≡ b.size
unfolding pop advance
size-pop b frame = ground arith

-- An empty ring gives nothing, and neither does one whose oldest byte is no header.
pub pop_nothing :
    (b : Buffer) (frame : CanFrame)
    → (available b ≡ 0) ⊎ (peekbyte b 0 ≢ frame_header1)
    → pop b frame ≡ (false, frame, b)
unfolding pop
pop_nothing b frame h = ground arith

-- `advance` keeps the ring valid, whatever the count.
pub advance-IsValid : {b : Buffer} (n : ℕ) → IsValid b → IsValid (advance b n)
unfolding advance
advance-IsValid {b} n v =
    ground (arith, mod-lt ((n + b.tail) % size_mod) {m = b.size} (omega (arith, v.tail_in)))

-- `pop` keeps a valid ring valid, whatever bytes it holds.
pub pop-IsValid : {b : Buffer} (frame : CanFrame) → IsValid b → IsValid (pop b frame).2
unfolding pop
pop-IsValid {b} frame v =
    ground (arith, advance-IsValid ((peek_frame b frame).data_len + frame_size_without_data) v)

module _ {b : Buffer} (v : IsValid b) where
  tail-advance : (n : ℕ) → n < 512 → (advance b n).tail ≡ (b.tail + n) % b.size
  unfolding advance
  tail-advance n small =
      ap (λ t. t % b.size) (mod-eq_of_lt (omega (arith, v.small, v.tail_in)) ∙ add_comm n b.tail)

  reach-head :
      (n a : ℕ)
      → n < 512
      → (b.tail + (n + a)) % b.size ≡ b.head
      → ((advance b n).tail + a) % b.size ≡ b.head
  reach-head n a small e =
      ap (λ t. (t + a) % b.size) (tail-advance n small)
      ∙ mod-add-mod (b.tail + n) b.size a
      ∙ ap (λ t. t % b.size) (add_assoc b.tail n a)
      ∙ e

  available-advance :
      (n a : ℕ)
      → n < 512
      → a < b.size
      → (b.tail + (n + a)) % b.size ≡ b.head
      → available (advance b n) ≡ a
  available-advance n a small lt e =
      available_unique (advance-IsValid n v) a (unfold advance in lt)
        (unfold advance in reach-head n a small e)

  -- Dropping unread bytes, where there are as many.
  available-advance_within :
      (n : ℕ) → n < 512 → n ≤ available b → available (advance b n) ≡ available b - n
  available-advance_within n small le =
      available-advance n (available b - n) small (omega (arith, available-lt v)) (
        ap (λ t. (b.tail + t) % b.size)
          (let e : n + (available b - n) ≡ available b = omega arith in e)
        ∙ available-head v)

  pub contents-advance :
      (n : ℕ) → n < 512 → n ≤ available b → contents (advance b n) ≡ drop n (contents b)
  unfolding advance
  contents-advance n small le =
      ap₂ (window b.buffer b.size) (tail-advance n small) (available-advance_within n small le)
      ∙ sym (drop-window b.buffer b.size n b.tail (available b) v.tail_in le)

  -- One byte too many turns an emptied ring into a nearly full one.
  pub available-advance_past :
      (n : ℕ) → n < 512 → n ≡ available b + 1 → available (advance b n) ≡ b.size - 1
  available-advance_past n small e =
      available-advance n (b.size - 1) small (omega (arith, v.tail_in)) (
        ap (λ t. t % b.size)
          (let q : b.tail + (n + (b.size - 1)) ≡ b.tail + available b + b.size =
              omega (arith, v.tail_in) in
            q)
        ∙ add-mod_self
        ∙ available-head v)
    where
      add-mod_self : (b.tail + available b + b.size) % b.size ≡ (b.tail + available b) % b.size
      add-mod_self = add-mod_right (b.tail + available b) b.size
