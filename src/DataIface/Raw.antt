-- ===== src/DataIface/Raw.antt =====
-- DC_DataIface/DataIface_Raw.h and DataIface_Raw.cpp: the byte ring that carries frames between
-- two cores. `size_t` is 32 bits wide on the cores that share the memory.
pub mod Contents
pub mod Push
pub mod Pop
pub mod RoundTrip
pub mod Resync
pub mod Ahead
pub mod Keep
pub mod Overrun
mod Tests
use libdronecan.Prelude.{
  ℕ, zero, suc, ◌+◌, ◌-◌, ◌*◌, ◌/◌, ◌%◌, ◌^◌, bit_and, bit_or, Bool, true, false, List, [], ◌∷◌,
  ◌++◌, length, ltb, leb, ◌==◌, if◌then◌else◌, get_or, set,
}
use libdronecan.DataIface.Frame.{CanFrame}

-- `RawIface::Buffer`
pub record Buffer : Type 0 where
  pub buffer : List ℕ
  pub size : ℕ
  pub head : ℕ
  pub tail : ℕ

abbrev pub size_mod : ℕ
size_mod = 2 ^ 32

abbrev pub frame_header1 : ℕ
frame_header1 = 0x34

abbrev pub frame_size_without_data : ℕ
frame_size_without_data = 7

pub available : Buffer → ℕ
available b =
    if leb b.tail b.head then b.head - b.tail else (size_mod + b.size - b.tail + b.head) % size_mod

pub advance : Buffer → ℕ → Buffer
advance b bytes = record b { tail = (bytes + b.tail) % size_mod % b.size }

pub txspace : Buffer → ℕ
txspace b = (size_mod + b.size - available b) % size_mod

-- A write out of range changes nothing here; `IsValid` rules it out.
pub pushbyte : Buffer → ℕ → Buffer
pushbyte b byte =
    let next = (b.head + 1) % size_mod in
    record b { buffer = set b.buffer b.head byte; head = if leb b.size next then 0 else next }

unfoldable pub reset : Buffer → Buffer
reset b = record b { head = 0; tail = 0 }

-- `for (size_t i = 0; i < frame.data_len; i++) pushbyte(frame.data[i]);` with `n` rounds left.
pub push_data : ℕ → ℕ → List ℕ → Buffer → Buffer
push_data zero i bytes b = b
push_data (suc n) i bytes b = push_data n (i + 1) bytes (pushbyte b (get_or bytes i 0))

pub push : Buffer → CanFrame → Bool × Buffer
push b frame =
    if ltb (txspace b) (frame.data_len + frame_size_without_data)
    then (false, b)
    else let b1 = pushbyte b frame_header1 in
      let b2 = pushbyte b1 (bit_and frame.id 0xFF) in
      let b3 = pushbyte b2 (bit_and (frame.id / 2 ^ 8) 0xFF) in
      let b4 = pushbyte b3 (bit_and (frame.id / 2 ^ 16) 0xFF) in
      let b5 = pushbyte b4 (bit_and (frame.id / 2 ^ 24) 0xFF) in
      let b6 = pushbyte b5 frame.data_len in (true, push_data frame.data_len 0 frame.payload b6)

pub peekbyte : Buffer → ℕ → ℕ
peekbyte b byte = get_or b.buffer ((b.tail + byte) % size_mod % b.size) 0

-- `bytes[i] = byte`. A write behind the end of the array, which hits what lies there in memory,
-- shows as a longer list.
unfoldable pub store : List ℕ → ℕ → ℕ → List ℕ
store bytes i byte = if ltb i (length bytes) then set bytes i byte else bytes ++ (byte ∷ [])

-- `for (size_t i = 0; i < frame.data_len; i++) frame.data[i] = peekbyte(6 + i);`
pub pop_data : ℕ → ℕ → Buffer → List ℕ → List ℕ
pop_data zero i b bytes = bytes
pop_data (suc n) i b bytes = pop_data n (i + 1) b (store bytes i (peekbyte b (6 + i)))

-- The frame that `pop` reads behind a header byte.
pub peek_frame : Buffer → CanFrame → CanFrame
peek_frame b frame =
    let id1 = peekbyte b 1 in
    let id2 = bit_or id1 (peekbyte b 2 * 2 ^ 8 % 2 ^ 32) in
    let id3 = bit_or id2 (peekbyte b 3 * 2 ^ 16 % 2 ^ 32) in
    let id4 = bit_or id3 (peekbyte b 4 * 2 ^ 24 % 2 ^ 32) in
    let n = peekbyte b 5 in
    record frame { id = id4; data_len = n; payload = pop_data n 0 b frame.payload }

pub pop : Buffer → CanFrame → Bool × CanFrame × Buffer
pop b frame =
    if available b == 0
    then (false, frame, b)
    else if peekbyte b 0 == frame_header1
    then (let frame' = peek_frame b frame in
        (true, frame', advance b (frame'.data_len + frame_size_without_data)))
    else (false, frame, b)
