-- ===== src/DataIface/Raw/Resync.antt =====
-- Runs of `push` and `pop` of DataIface_Raw.cpp: one frame through an empty ring, and the calls
-- behind a `pop`.
use mathlib.Core.List.{append_assoc, append-nil}
use libdronecan.Prelude.{
  ℕ, ◌+◌, ◌-◌, ◌%◌, ◌≤◌, ◌≡◌, ◌≢◌, inr, refl, sym, ◌∙◌, ap, Bool, true, false, List, [], ◌∷◌, ◌++◌,
  length, drop, get_or, length-append, drop-length-append, arith,
}
use libdronecan.DataIface.Frame.{CanFrame, IsFrame, slice}
use libdronecan.DataIface.Raw.{
  Buffer, available, peekbyte, push, pop, frame_header1, frame_size_without_data,
}
use libdronecan.DataIface.Raw.Contents.{IsValid, contents, peekbyte-contents, length-window}
use libdronecan.DataIface.Raw.Push.{encode, length-encode, push-encode, push_refused}
use libdronecan.DataIface.Raw.Pop.{
  size-pop, pop_nothing, contents-advance, available-advance_past, pop-IsValid,
}
use libdronecan.DataIface.Raw.RoundTrip.{count_unread, pop-accepts, pop-encode}

pub contents_of_empty : (b : Buffer) → available b ≡ 0 → contents b ≡ []
contents_of_empty b e =
    nil_of_length (contents b) (length-window b.buffer b.size b.tail (available b) ∙ e)
  where
    nil_of_length : (l : List ℕ) → length l ≡ 0 → l ≡ []
    nil_of_length [] h = refl
    nil_of_length (x ∷ l) h = absurd (omega arith)

-- A frame that `push` puts on a ring is the frame that `pop` then returns: both calls return
-- true, and identifier, length and data are those of the frame. This holds on a valid ring that
-- is empty and of at least `data_len + 7` bytes, for a frame that fits its C types and a caller's
-- array with room for the data.
pub pop-push :
    {b : Buffer} (f g : CanFrame)
    → IsValid b
    → available b ≡ 0
    → IsFrame f
    → f.data_len + frame_size_without_data ≤ b.size
    → f.data_len ≤ length g.payload
    → let (sent, b') = push b f in
      let (got, out, b'') = pop b' g in
      (sent ≡ true)
      × (got ≡ true)
      × (out.id ≡ f.id)
      × (out.data_len ≡ f.data_len)
      × (slice f.data_len 0 out.payload ≡ slice f.data_len 0 f.payload)
pop-push {b} f g v empty w fits room =
    let pushed = push-encode f v (omega arith) in
    let unread : contents (push b f).1 ≡ encode f ++ [] =
      pushed.1.bytes
      ∙ ap (λ l. l ++ encode f) (contents_of_empty b empty)
      ∙ sym (append-nil (encode f)) in
    let popped = pop-encode f g [] pushed.1.valid w unread room in
    (pushed.0, popped.0, popped.1, popped.2, popped.3)

module _ {b : Buffer} (f g : CanFrame) (v : IsValid b) (w : IsFrame f)
    (room : f.data_len ≤ length g.payload) where
  -- Popping the only frame of a valid ring leaves a ring that counts `size - 1` unread bytes, for
  -- a frame that fits its C types and an array with room for its data.
  pub pop_only_frame : contents b ≡ encode f → available (pop b g).2 ≡ b.size - 1
  pop_only_frame unread =
      let unread' : contents b ≡ encode f ++ [] = unread ∙ sym (append-nil (encode f)) in
      rw (pop-accepts f g [] v w unread' room) (
        available-advance_past v (f.data_len + frame_size_without_data) (omega (arith, w.len_fits))
          (omega (arith, count_unread f g [] v w unread' room)))

  -- After popping the only frame of a valid ring every `push` is refused and leaves the ring as
  -- it is. The popped frame fits its C types, and the caller's array has room for its data.
  pub push_refused_after :
      (h : CanFrame) → contents b ≡ encode f → push (pop b g).2 h ≡ (false, (pop b g).2)
  push_refused_after h unread =
      push_refused h (pop-IsValid g v)
        (omega (arith, pop_only_frame unread, size-pop b g, v.tail_in))

  -- Popping a frame with bytes behind it drops the first of those bytes too, on a valid ring, for
  -- a frame that fits its C types and an array with room for its data.
  pub pop_skips :
      (x : ℕ) (rest : List ℕ) → contents b ≡ encode f ++ x ∷ rest → contents (pop b g).2 ≡ rest
  pop_skips x rest unread =
      let count = count_unread f g (x ∷ rest) v w unread room in
      let n : f.data_len + 7 ≡ length (encode f ++ (x ∷ [])) =
        omega (arith, length-append (encode f) (x ∷ []), length-encode f) in
      rw (pop-accepts f g (x ∷ rest) v w unread room) (
        contents-advance v (f.data_len + 7) (omega (arith, w.len_fits)) (omega arith)
        ∙ ap (λ l. drop (f.data_len + 7) l) (unread ∙ sym (append_assoc (encode f) (x ∷ []) rest))
        ∙ ap (λ k. drop k ((encode f ++ (x ∷ [])) ++ rest)) n
        ∙ drop-length-append (encode f ++ (x ∷ [])) rest)

  -- Where the unread bytes of a valid ring begin with those of two frames, the second is refused
  -- by the `pop` behind the one that returns the first, unless the low byte of its identifier is
  -- the header byte. The first frame fits its C types and the caller's array has room for it.
  pub second_frame_refused :
      (h k : CanFrame) (rest : List ℕ)
      → contents b ≡ encode f ++ encode h ++ rest
      → h.id % 256 ≢ frame_header1
      → (pop (pop b g).2 k).0 ≡ false
  unfolding encode
  second_frame_refused h k rest unread ne =
      ap (λ (r : Bool × CanFrame × Buffer). r.0) (pop_nothing (pop b g).2 k (inr low_byte))
    where
      tail : List ℕ
      tail = drop 1 (encode h) ++ rest

      left : contents (pop b g).2 ≡ tail
      left = pop_skips frame_header1 tail (unread ∙ append_assoc (encode f) (encode h) rest)

      low_byte : peekbyte (pop b g).2 0 ≢ frame_header1
      low_byte e = ne (
          sym (
            peekbyte-contents (pop-IsValid g v) 0 (omega arith) (
              omega (
                arith,
                length-window (pop b g).2.buffer (pop b g).2.size (pop b g).2.tail
                    (available (pop b g).2),
                ap length left,
              ))
            ∙ ap (λ l. get_or l 0 0) left)
          ∙ e)
