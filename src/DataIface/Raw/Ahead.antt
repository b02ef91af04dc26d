-- ===== src/DataIface/Raw/Ahead.antt =====
-- The byte behind a pushed frame: which bytes of the ring `push` of DataIface_Raw.cpp leaves alone,
-- and what the `pop` behind the one that takes the frame finds there.
use native.Mathlib.Nat.{mod-eq_of_lt}
use mathlib.Core.List.{append-nil}
use libdronecan.Prelude.{
  ℕ, zero, suc, ◌+◌, ◌/◌, ◌%◌, ◌^◌, ◌≤◌, ◌<◌, ◌≡◌, ◌≢◌, inr, refl, sym, ◌∙◌, ap, Bool, false, List,
  [], ◌++◌, length, get_or, get_or-set_ne, arith, le→not-ltb, bit_and,
}
use libdronecan.DataIface.Frame.{CanFrame, IsFrame}
use libdronecan.DataIface.Raw.{
  Buffer, size_mod, available, txspace, advance, pushbyte, push_data, push, peekbyte, pop,
  frame_header1, frame_size_without_data,
}
use libdronecan.DataIface.Raw.Contents.{IsValid, contents, available-empty}
use libdronecan.DataIface.Raw.Push.{encode, Pushed, push-encode, txspace_lem}
use libdronecan.DataIface.Raw.Pop.{pop_nothing}
use libdronecan.DataIface.Raw.RoundTrip.{pop-accepts}
use libdronecan.DataIface.Raw.Resync.{contents_of_empty}

-- From `b` to `b'` the head has moved on by `n`, and neither the size nor the byte at `j` changed.
record Keeps (j n : ℕ) (b b' : Buffer) : Type 0 where
  moved : b'.head ≡ b.head + n
  size_same : b'.size ≡ b.size
  byte_same : get_or b'.buffer j 0 ≡ get_or b.buffer j 0

Keeps-pushbyte :
    (j n x : ℕ) {b b' : Buffer}
    → b.size + 512 ≤ size_mod
    → b.head + n < j
    → j < b.size
    → Keeps j n b b'
    → Keeps j (n + 1) b (pushbyte b' x)
unfolding pushbyte
Keeps-pushbyte j n x {b} {b'} small below fits k = record {
  moved = ground (arith, k.moved, k.size_same);
  size_same = k.size_same;
  byte_same = get_or-set_ne b'.buffer b'.head j x 0 (omega (arith, k.moved)) ∙ k.byte_same;
}

Keeps-push_data :
    (n i : ℕ) (bytes : List ℕ) (j m : ℕ) {b b' : Buffer}
    → b.size + 512 ≤ size_mod
    → b.head + m + n ≤ j
    → j < b.size
    → Keeps j m b b'
    → Keeps j (m + n) b (push_data n i bytes b')
unfolding push_data
Keeps-push_data zero i bytes j m {b} {b'} small below fits k = record {
  moved = omega (arith, k.moved);
  size_same = k.size_same;
  byte_same = k.byte_same;
}
Keeps-push_data (suc n) i bytes j m {b} {b'} small below fits k =
    let rest =
      Keeps-push_data n (i + 1) bytes j (m + 1) small (omega arith) fits
        (Keeps-pushbyte j m (get_or bytes i 0) small (omega arith) fits k) in
    record {
      moved = omega (arith, rest.moved);
      size_same = rest.size_same;
      byte_same = rest.byte_same;
    }

push-Keeps :
    {b : Buffer} (f : CanFrame) (j : ℕ)
    → IsValid b
    → available b + f.data_len + frame_size_without_data ≤ b.size
    → b.head + (f.data_len + 6) ≤ j
    → j < b.size
    → Keeps j (f.data_len + 6) b (push b f).1
unfolding push
push-Keeps {b} f j v room below fits =
    let k0 : Keeps j 0 b b = record { moved = omega arith; size_same = refl; byte_same = refl } in
    let k1 = Keeps-pushbyte j 0 frame_header1 v.small (omega arith) fits k0 in
    let k2 = Keeps-pushbyte j 1 (bit_and f.id 0xFF) v.small (omega arith) fits k1 in
    let k3 = Keeps-pushbyte j 2 (bit_and (f.id / 2 ^ 8) 0xFF) v.small (omega arith) fits k2 in
    let k4 = Keeps-pushbyte j 3 (bit_and (f.id / 2 ^ 16) 0xFF) v.small (omega arith) fits k3 in
    let k5 = Keeps-pushbyte j 4 (bit_and (f.id / 2 ^ 24) 0xFF) v.small (omega arith) fits k4 in
    let k6 = Keeps-pushbyte j 5 f.data_len v.small (omega arith) fits k5 in
    let k = Keeps-push_data f.data_len 0 f.payload j 6 v.small (omega arith) fits k6 in
    rw (le→not-ltb (txspace b) (f.data_len + 7) (omega (arith, txspace_lem v)))
      (record { moved = omega (arith, k.moved); size_same = k.size_same; byte_same = k.byte_same })

wrap_small : (i size : ℕ) → i < size → size < size_mod → i % size_mod % size ≡ i
wrap_small i size lt small =
    ap (λ k. k % size) (mod-eq_of_lt {n = i} {m = size_mod} (omega arith))
    ∙ mod-eq_of_lt {n = i} {m = size} lt

peekbyte-advance :
    (b : Buffer) (n : ℕ)
    → b.tail ≡ 0
    → b.size < size_mod
    → n < b.size
    → peekbyte (advance b n) 0 ≡ get_or b.buffer n 0
unfolding peekbyte advance
peekbyte-advance b n tail0 small fits =
    let start : n + b.tail ≡ n = omega (arith, tail0) in
    ap (λ i. get_or b.buffer i 0)
      (ap (λ i. (i % size_mod % b.size + 0) % size_mod % b.size) start
        ∙ ap (λ i. (i + 0) % size_mod % b.size) (wrap_small n b.size fits small)
        ∙ ap (λ i. i % size_mod % b.size) (let z : n + 0 ≡ n = omega arith in z)
        ∙ wrap_small n b.size fits small)

pub pop_stops :
    {b : Buffer} (f g h : CanFrame)
    → IsValid b
    → b.head ≡ 0
    → b.tail ≡ 0
    → IsFrame f
    → f.data_len + frame_size_without_data < b.size
    → f.data_len ≤ length g.payload
    → get_or b.buffer (f.data_len + frame_size_without_data) 0 ≢ frame_header1
    → pop (pop (push b f).1 g).2 h ≡ (false, h, (pop (push b f).1 g).2)
pop_stops {b} f g h v head0 tail0 w fits room clear =
    pop_nothing (pop (push b f).1 g).2 h (inr (λ e. clear (sym byte ∙ e)))
  where
    empty : available b ≡ 0
    empty = available-empty b (head0 ∙ sym tail0)

    pushed : Pushed b (encode f) (push b f).1
    pushed = (push-encode f v (omega (arith, empty))).1

    kept : Keeps (f.data_len + 7) (f.data_len + 6) b (push b f).1
    kept = push-Keeps f (f.data_len + 7) v (omega (arith, empty)) (omega arith) fits

    unread : contents (push b f).1 ≡ encode f ++ []
    unread =
        pushed.bytes
        ∙ ap (λ l. l ++ encode f) (contents_of_empty b empty)
        ∙ sym (append-nil (encode f))

    popped : (pop (push b f).1 g).2 ≡ advance (push b f).1 (f.data_len + 7)
    popped =
        ap (λ (r : Bool × CanFrame × Buffer). r.2) (pop-accepts f g [] pushed.valid w unread room)

    byte : peekbyte (pop (push b f).1 g).2 0 ≡ get_or b.buffer (f.data_len + 7) 0
    byte =
        ap (λ b'. peekbyte b' 0) popped
        ∙ peekbyte-advance (push b f).1 (f.data_len + 7) (pushed.tail_same ∙ tail0)
            (omega (arith, pushed.size_same, v.small)) (omega (arith, pushed.size_same))
        ∙ kept.byte_same
