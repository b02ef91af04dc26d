-- ===== src/DataIface/Raw/Tests.antt =====
-- Runs of the ring of 20 bytes on a frame of two.
use libdronecan.Prelude.{◌≡◌, refl, true, false, [], ◌∷◌, ◌++◌, arith, ap, ◌∙◌, replicate, length}
use libdronecan.DataIface.Frame.{CanFrame, IsFrame, slice}
use libdronecan.DataIface.Raw.{Buffer, available, push, pop}
use libdronecan.DataIface.Raw.Contents.{IsValid, contents}
use libdronecan.DataIface.Raw.Push.{encode, length-encode, Pushed, push-encode}
use libdronecan.DataIface.Raw.Overrun.{pop-pop_overruns}
use libdronecan.DataIface.Raw.Resync.{pop-push, push_refused_after}

-- A ring of 20 bytes whose indices have gone nearly round.
abbrev ring : Buffer
ring = record { buffer = replicate 20 0; size = 20; head = 18; tail = 18 }

ring-IsValid : IsValid ring
ring-IsValid = record {
  storage = omega arith;
  small = omega arith;
  head_in = omega arith;
  tail_in = omega arith;
}

abbrev small : CanFrame
small = record {
  id = 0x80000301;
  data_len = 2;
  payload = 5 ∷ 6 ∷ [];
  canfd = false;
  timestamp_usec = 0;
}

small-IsFrame : IsFrame small
small-IsFrame = record { id_fits = omega arith; len_fits = omega arith }

-- What a caller hands to `pop`.
abbrev blank : CanFrame
blank = record { id = 0; data_len = 0; payload = replicate 8 0; canfd = false; timestamp_usec = 0 }

pop-push_example :
    ((push ring small).0 ≡ true)
    × ((pop (push ring small).1 blank).0 ≡ true)
    × ((pop (push ring small).1 blank).1.id ≡ 0x80000301)
    × ((pop (push ring small).1 blank).1.data_len ≡ 2)
    × (slice 2 0 (pop (push ring small).1 blank).1.payload ≡ 5 ∷ 6 ∷ [])
pop-push_example =
    pop-push {b = ring} small blank ring-IsValid (unfold available in refl) small-IsFrame
      (omega arith) (omega arith)

push-encode_example : ((push ring small).0 ≡ true) × Pushed ring (encode small) (push ring small).1
push-encode_example = push-encode {b = ring} small ring-IsValid (unfold available in omega arith)

-- A frame of one byte, 255, whose identifier begins with the header byte.
abbrev tricky : CanFrame
tricky = record {
  id = 0x80000334;
  data_len = 1;
  payload = 255 ∷ [];
  canfd = false;
  timestamp_usec = 0;
}

-- The ring with the bytes of two frames.
abbrev one : Buffer
one = (push ring small).1

abbrev two : Buffer
two = (push one tricky).1

once : Pushed ring (encode small) one
once = (push-encode {b = ring} small ring-IsValid (unfold available in omega arith)).1

one-contents : contents one ≡ encode small ++ []
one-contents = once.bytes ∙ (unfold encode available in refl)

twice : Pushed one (encode tricky) two
twice =
    (push-encode {b = one} tricky once.valid (
      omega (
        arith,
        once.count,
        once.size_same,
        (let e : available ring ≡ 0 = unfold available in refl in e),
        length-encode small,
      ))).1

two-contents : contents two ≡ encode small ++ encode tricky ++ []
two-contents = twice.bytes ∙ ap (λ l. l ++ encode tricky) one-contents ∙ (unfold encode in refl)

pop-pop_overruns_example :
    ((pop (pop two blank).2 blank).0 ≡ true)
    × ((pop (pop two blank).2 blank).1.data_len ≡ 255)
    × (length (pop (pop two blank).2 blank).1.payload ≡ 255)
pop-pop_overruns_example =
    pop-pop_overruns {b = two} small blank tricky blank [] twice.valid small-IsFrame (omega arith)
      two-contents refl (omega arith) (omega arith)

push_refused_after_example : push (pop one blank).2 small ≡ (false, (pop one blank).2)
push_refused_after_example =
    push_refused_after {b = one} small blank once.valid small-IsFrame (omega arith) small
      (one-contents ∙ (unfold encode in refl))
