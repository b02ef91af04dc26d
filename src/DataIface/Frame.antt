-- ===== src/DataIface/Frame.antt =====
-- `CanardCANFrame`, the frame type of libcanard: the members that the interfaces read and write.
use libdronecan.Prelude.{
  ℕ, zero, suc, ◌+◌, ◌^◌, ◌<◌, ◌≡◌, refl, ap, List, [], ◌∷◌, Bool, length, get_or,
}

pub record CanFrame : Type 0 where
  pub id : ℕ
  pub data_len : ℕ
  pub payload : List ℕ
  pub canfd : Bool
  pub timestamp_usec : ℕ

-- The `n` bytes of `bytes` from index `i` on, zero where the array has none.
abbrev pub slice : ℕ → ℕ → List ℕ → List ℕ
slice zero i bytes = []
slice (suc n) i bytes = get_or bytes i 0 ∷ slice n (i + 1) bytes

pub length-slice : (n i : ℕ) (bytes : List ℕ) → length (slice n i bytes) ≡ n
length-slice zero i bytes = refl
length-slice (suc n) i bytes = ap suc (length-slice n (i + 1) bytes)

-- What the C types of a frame's members hold.
pub record IsFrame (f : CanFrame) : Type 0 where
  pub id_fits : f.id < 2 ^ 32
  pub len_fits : f.data_len < 256
