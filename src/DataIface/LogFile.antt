-- ===== src/DataIface/LogFile.antt =====
-- DC_DataIface/DataIface_LogFile.h and DataIface_LogFile.cpp: frames written to a file and read
-- back, each behind a header byte and before a checksum of its data. A file is what the class
-- `File` of DC_PAL/FileSystem.h promises: `read` and `write` over some state; a negative result
-- is `none`. The members of a frame are written as they lie in memory, low byte first.
pub mod Codec
pub mod RoundTrip
pub mod Replay
pub mod Cut
pub mod Crc
pub mod Burst
pub mod Serial
mod Tests
use libdronecan.Prelude.{
  ℕ, zero, suc, ◌+◌, ◌-◌, ◌*◌, ◌/◌, ◌%◌, ◌^◌, Bool, true, false, not, ◌&&◌, Option, none, some,
  List, [], ◌∷◌, ◌++◌, ◌==◌, if◌then◌else◌, bit_and, bit_xor, length, get_or, drop,
}
use libdronecan.DataIface.Frame.{CanFrame, slice}

-- `RawIface::FRAME_HEADER1`
abbrev pub frame_header1 : ℕ
frame_header1 = 0x34

-- `mask = -(crc & 1); crc = (crc >> 1) ^ (0xEDB88320 & mask);`
pub crc_bit : ℕ → ℕ
crc_bit crc =
    let mask = (2 ^ 32 - bit_and crc 1) % 2 ^ 32 in bit_xor (crc / 2) (bit_and 0xEDB88320 mask)

pub crc_bits : ℕ → ℕ → ℕ
crc_bits zero crc = crc
crc_bits (suc k) crc = crc_bits k (crc_bit crc)

pub crc_bytes : List ℕ → ℕ → ℕ
crc_bytes [] crc = crc
crc_bytes (byte ∷ rest) crc = crc_bytes rest (crc_bits 8 (bit_xor crc byte))

-- `crc32(data, len)`; the array is the list of its `len` bytes, and `~crc` is 32 bits wide.
pub crc32 : List ℕ → ℕ
crc32 bytes = 2 ^ 32 - 1 - crc_bytes bytes 0xFFFFFFFF

-- A `uint32_t` in memory.
abbrev pub le32 : ℕ → List ℕ
le32 x = x % 256 ∷ x / 2 ^ 8 % 256 ∷ x / 2 ^ 16 % 256 ∷ x / 2 ^ 24 % 256 ∷ []

abbrev pub of_le32 : List ℕ → ℕ
of_le32 bytes =
    get_or bytes 0 0
    + 2 ^ 8 * get_or bytes 1 0
    + 2 ^ 16 * get_or bytes 2 0
    + 2 ^ 24 * get_or bytes 3 0

-- Bytes read to the front of an array. Those behind its end, which hit what lies there in memory,
-- show as a longer list.
abbrev pub overlay : List ℕ → List ℕ → List ℕ
overlay bytes array = bytes ++ drop (length bytes) array

-- A function that works on a file and may return early.
abbrev pub Step : Type 0 → Type 0 → Type 0
Step F A = F → Option A × F

abbrev pub go_on : {F A B : Type 0} → Option A × F → (A → Step F B) → Option B × F
go_on (none, f) k = (none, f)
go_on (some a, f) k = k a f

abbrev pub bind : {F A B : Type 0} → Step F A → (A → Step F B) → Step F B
bind m k f = go_on (m f) k

-- `!= n` on the result of `read`, which counts the bytes that it has put into the buffer, and on
-- that of `write`.
abbrev pub check_read : {F : Type 0} → ℕ → Option (List ℕ) × F → Option (List ℕ) × F
check_read n (none, f) = (none, f)
check_read n (some bytes, f) = if length bytes == n then (some bytes, f) else (none, f)

abbrev pub check_write : {F : Type 0} → ℕ → Option ℕ × F → Option (Unit {0}) × F
check_write n (none, f) = (none, f)
check_write n (some k, f) = if k == n then (some tt, f) else (none, f)

abbrev pub data_of : CanFrame → List ℕ
data_of frame = slice frame.data_len 0 frame.payload

-- `if (crc != crc32(frame.data, frame.data_len)) return; rx_cbs(frame);`
abbrev pub check_crc : {F : Type 0} → CanFrame → List ℕ → ℕ → List ℕ → List ℕ → Step F CanFrame
check_crc frame id n bytes crc f =
    if of_le32 crc == crc32 bytes
    then (
      some (record frame { id = of_le32 id; data_len = n; payload = overlay bytes frame.payload }),
      f,
    )
    else (none, f)

module _ {F : Type 0} (read : ℕ → F → Option (List ℕ) × F) where
  -- `if (file->read(buf, n) != n) return;`
  unfoldable pub read_full : ℕ → Step F (List ℕ)
  read_full n f = check_read n (read n f)

  -- `while (true) { ... if (header == FRAME_HEADER1) break; }` on fuel.
  unfoldable pub find_header : ℕ → Step F (Unit {0})
  find_header zero f = (none, f)
  find_header (suc k) f = go_on (read_full 1 f) λ bytes f'.
      elim (get_or bytes 0 0 == frame_header1) [ true ↦ (some tt, f') | false ↦ find_header k f' ]

  -- What follows the header, into the local variable `frame`; the result is the frame for which
  -- the receive callbacks are called.
  pub read_frame : CanFrame → Step F CanFrame
  read_frame frame = bind (read_full 4) λ id. bind (read_full 1) λ len.
      bind (read_full (get_or len 0 0))
        λ bytes. bind (read_full 4) λ crc. check_crc frame id (get_or len 0 0) bytes crc

  unfoldable pub update_rx : ℕ → CanFrame → Option F → Option CanFrame × Option F
  update_rx fuel frame none = (none, none)
  update_rx fuel frame (some f) =
      let (r, f') = bind (find_header fuel) (λ _. read_frame frame) f in (r, some f')

module _ {F : Type 0} (write : List ℕ → F → Option ℕ × F) where
  -- `if (file->write(buf, n) != n) return false;`
  unfoldable pub write_full : List ℕ → Step F (Unit {0})
  write_full bytes f = check_write (length bytes) (write bytes f)

  -- `send` with a file to write to.
  unfoldable pub send_steps : CanFrame → Step F (Unit {0})
  send_steps frame = bind (write_full (frame_header1 ∷ [])) λ _.
      bind (write_full (le32 frame.id)) λ _.
        bind (write_full (frame.data_len ∷ []))
          λ _. bind (write_full (data_of frame)) λ _. write_full (le32 (crc32 (data_of frame)))

  -- `write_file`, null if there is none.
  unfoldable pub send : Option F → CanFrame → Bool × Option F
  send none frame = (false, none)
  send (some f) frame = sent (send_steps frame f)
    where
      sent : Option (Unit {0}) × F → Bool × Option F
      sent (none, f') = (false, some f')
      sent (some _, f') = (true, some f')

-- `init` wants both files.
unfoldable pub init : {F : Type 0} → Option F → Option F → Bool
init (some r) (some w) = true
init none w = false
init (some r) none = false
