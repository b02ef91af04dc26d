-- ===== src/DataIface/Raw/Overrun.antt =====
-- How many bytes `pop` of DataIface_Raw.cpp writes to the caller's `frame.data`.
use libdronecan.Prelude.{
  ℕ, zero, suc, ◌+◌, ◌%◌, ◌≤◌, ◌<◌, ◌≡◌, refl, ◌∙◌, ap, true, List, [], ◌∷◌, ◌++◌, length, drop,
  get_or, length-append, length-set, arith, ltb, if◌then◌else◌,
}
use mathlib.Core.List.{append_assoc}
use libdronecan.DataIface.Frame.{CanFrame, IsFrame, slice, length-slice}
use libdronecan.DataIface.Raw.{
  Buffer, available, peekbyte, store, pop_data, peek_frame, pop, frame_header1,
}
use libdronecan.DataIface.Raw.Contents.{IsValid, contents, peekbyte-contents, length-window}
use libdronecan.DataIface.Raw.Push.{encode}
use libdronecan.DataIface.Raw.Pop.{pop-IsValid}
use libdronecan.DataIface.Raw.Resync.{pop_skips}

length-store :
    (bytes : List ℕ) (i byte : ℕ)
    → i ≤ length bytes
    → length (store bytes i byte) ≡ (if ltb i (length bytes) then length bytes else i + 1)
unfolding store
length-store bytes i byte le =
    ground (arith, length-set bytes i byte, length-append bytes (byte ∷ []))

length-pop_data :
    (n i : ℕ) (b : Buffer) (bytes : List ℕ)
    → i ≤ length bytes
    → length (pop_data n i b bytes) ≡ (if ltb (length bytes) (i + n) then i + n else length bytes)
unfolding pop_data
length-pop_data zero i b bytes le = ground arith
length-pop_data (suc n) i b bytes le =
    let grown = length-store bytes i (peekbyte b (6 + i)) le in
    length-pop_data n (i + 1) b (store bytes i (peekbyte b (6 + i))) (ground arith) ∙ ground arith

-- Where the oldest byte is a header, `pop` takes the frame that it reads, whose length is the
-- fifth byte behind the header.
pop-header :
    (b : Buffer) (g : CanFrame)
    → 0 < available b
    → peekbyte b 0 ≡ frame_header1
    → ((pop b g).0 ≡ true)
      × ((pop b g).1.data_len ≡ peekbyte b 5)
      × ((pop b g).1.payload ≡ pop_data (peekbyte b 5) 0 b g.payload)
unfolding pop peek_frame
pop-header b g some_left head = ground (arith, head)

-- A frame that fits the caller's array leaves the array as long as it was.
pub length-pop :
    (b : Buffer) (g : CanFrame)
    → (pop b g).1.data_len ≤ length g.payload
    → length (pop b g).1.payload ≡ length g.payload
unfolding pop peek_frame
length-pop b g fits = ground (arith, length-pop_data (peekbyte b 5) 0 b g.payload (omega arith))

first_byte :
    (n : ℕ) (bytes rest : List ℕ) → 0 < n → get_or (slice n 0 bytes ++ rest) 0 0 ≡ get_or bytes 0 0
first_byte zero bytes rest some_data = absurd (omega arith)
first_byte (suc n) bytes rest some_data = refl

-- Where the unread bytes of a valid ring begin with those of two frames, and the low byte of the
-- second one's identifier is the header byte, the `pop` behind the one that returns the first
-- frame accepts a frame whose length is the second one's first data byte; if that is more than
-- the caller's array holds, it writes so many bytes to it all the same. The first frame fits its
-- C types and the caller's array has room for it; the second has data.
pub pop-pop_overruns :
    {b : Buffer} (f g h k : CanFrame) (rest : List ℕ)
    → IsValid b
    → IsFrame f
    → f.data_len ≤ length g.payload
    → contents b ≡ encode f ++ encode h ++ rest
    → h.id % 256 ≡ frame_header1
    → 0 < h.data_len
    → length k.payload < get_or h.payload 0 0
    → let (got, out, b') = pop (pop b g).2 k in
      (got ≡ true)
      × (out.data_len ≡ get_or h.payload 0 0)
      × (length out.payload ≡ get_or h.payload 0 0)
unfolding encode
pop-pop_overruns {b} f g h k rest v w room unread low some_data long =
    let (got, len, bytes) = pop-header (pop b g).2 k (omega (arith, count)) first in
    (got, len ∙ sixth, ap length bytes ∙ grows)
  where
    tail : List ℕ
    tail = drop 1 (encode h) ++ rest

    left : contents (pop b g).2 ≡ tail
    left =
        pop_skips f g v w room frame_header1 tail (unread ∙ append_assoc (encode f) (encode h) rest)

    valid : IsValid (pop b g).2
    valid = pop-IsValid g v

    count : 6 ≤ available (pop b g).2
    count = omega (
      arith,
      length-window (pop b g).2.buffer (pop b g).2.size (pop b g).2.tail (available (pop b g).2),
      ap length left,
      length-append (slice h.data_len 0 h.payload) rest,
      length-slice h.data_len 0 h.payload,
    )

    first : peekbyte (pop b g).2 0 ≡ frame_header1
    first =
        peekbyte-contents valid 0 (omega arith) (omega (arith, count))
        ∙ ap (λ l. get_or l 0 0) left
        ∙ low

    sixth : peekbyte (pop b g).2 5 ≡ get_or h.payload 0 0
    sixth =
        peekbyte-contents valid 5 (omega arith) (omega (arith, count))
        ∙ ap (λ l. get_or l 5 0) left
        ∙ first_byte h.data_len h.payload rest some_data

    grows :
        length (pop_data (peekbyte (pop b g).2 5) 0 (pop b g).2 k.payload) ≡ get_or h.payload 0 0
    grows =
        length-pop_data (peekbyte (pop b g).2 5) 0 (pop b g).2 k.payload (omega arith)
        ∙ ground (arith, sixth)
