-- ===== src/DataIface/ShMem/Laws.antt =====
-- The two rings of DataIface_ShMem.cpp after `init`, and a frame from one core to the other.
use libdronecan.Prelude.{
  ℕ, ◌+◌, ◌-◌, ◌/◌, ◌^◌, ◌≤◌, ◌<◌, ◌≡◌, refl, true, length, replicate, length-replicate, arith,
}
use libdronecan.DataIface.Frame.{CanFrame, IsFrame, slice}
use libdronecan.DataIface.Raw.{Buffer, reset, frame_size_without_data}
use libdronecan.DataIface.Raw.Contents.{IsValid, available-empty}
use libdronecan.DataIface.Raw.Resync.{pop-push}
use libdronecan.DataIface.ShMem.{
  Core, cm7, cm4, Layout, Shared, low_pointer, high_pointer, ring_size, place_rx, place_tx, init,
  send, receive,
}

-- The memory lies below 2^32, with 512 bytes to spare, and each half has room for a `Buffer` and
-- a byte.
pub record IsLayout (l : Layout) : Type 0 where
  pub in_range : l.base + l.shared_mem_size + 512 ≤ 2 ^ 32
  pub room : l.sizeof_buffer < l.shared_mem_size / 2

abbrev pub other : Core → Core
other cm7 = cm4
other cm4 = cm7

-- What both cores together leave: two empty rings.
abbrev pub empty_ring : Layout → Buffer
empty_ring l = record { buffer = replicate (ring_size l) 0; size = ring_size l; head = 0; tail = 0 }

abbrev pub fresh : Layout → Shared
fresh l = record {
  low = record { pointer = low_pointer l; ring = empty_ring l };
  high = record { pointer = high_pointer l; ring = empty_ring l };
}

pub init-fresh :
    (first : Core) (l : Layout) (m : Shared) → init (other first) l (init first l m) ≡ fresh l
unfolding init place_rx place_tx reset
init-fresh cm7 l m = refl
init-fresh cm4 l m = refl

ring_size_lem : (l : Layout) → IsLayout l → ring_size l ≡ l.shared_mem_size / 2 - l.sizeof_buffer
unfolding ring_size
ring_size_lem l is = omega (arith, is.in_range, is.room)

pub empty_ring-IsValid : (l : Layout) → IsLayout l → IsValid (empty_ring l)
empty_ring-IsValid l is =
    let n = ring_size_lem l is in
    record {
      storage = omega (arith, length-replicate {A = ℕ} (ring_size l) 0);
      small = omega (arith, n, is.in_range);
      head_in = omega (arith, n, is.room);
      tail_in = omega (arith, n, is.room);
    }

-- The bytes of the two rings lie in the first and the second half of the shared memory, where the
-- memory lies below 2^32 and each half has room for a `Buffer` and a byte.
pub halves_apart :
    (l : Layout)
    → IsLayout l
    → (l.base ≤ low_pointer l)
      × (low_pointer l + ring_size l ≤ l.base + l.shared_mem_size / 2)
      × (l.base + l.shared_mem_size / 2 ≤ high_pointer l)
      × (high_pointer l + ring_size l ≤ l.base + l.shared_mem_size)
unfolding low_pointer high_pointer
halves_apart l is =
    let n = ring_size_lem l is in
    (
      omega (arith, n, is.in_range, is.room),
      omega (arith, n, is.in_range, is.room),
      omega (arith, n, is.in_range, is.room),
      omega (arith, n, is.in_range, is.room),
    )

pub receive_from_fresh :
    (core : Core) (l : Layout) (f g : CanFrame)
    → IsLayout l
    → IsFrame f
    → f.data_len + frame_size_without_data ≤ ring_size l
    → f.data_len ≤ length g.payload
    → let (sent, m) = send core (fresh l) f in
      let (got, out, m') = receive (other core) m g in
      (sent ≡ true)
      × (got ≡ true)
      × (out.id ≡ f.id)
      × (out.data_len ≡ f.data_len)
      × (slice f.data_len 0 out.payload ≡ slice f.data_len 0 f.payload)
unfolding send receive
receive_from_fresh cm7 l f g is w fits room =
    pop-push {b = empty_ring l} f g (empty_ring-IsValid l is) (available-empty (empty_ring l) refl)
      w fits room
receive_from_fresh cm4 l f g is w fits room =
    pop-push {b = empty_ring l} f g (empty_ring-IsValid l is) (available-empty (empty_ring l) refl)
      w fits room

-- When both cores have called `init`, in either order and whatever the memory held, the first
-- frame that one core sends is the frame that the other receives: both calls return true, and
-- identifier, length and data are those of the frame. The frame fits its C types, the ring has
-- room for its data and seven bytes, and the receiver's array for its data; the memory lies below
-- 2^32, and each half has room for a `Buffer` and a byte.
pub receive-send :
    (first core : Core) (l : Layout) (before : Shared) (f g : CanFrame)
    → IsLayout l
    → IsFrame f
    → f.data_len + frame_size_without_data ≤ ring_size l
    → f.data_len ≤ length g.payload
    → let (sent, m) = send core (init (other first) l (init first l before)) f in
      let (got, out, m') = receive (other core) m g in
      (sent ≡ true)
      × (got ≡ true)
      × (out.id ≡ f.id)
      × (out.data_len ≡ f.data_len)
      × (slice f.data_len 0 out.payload ≡ slice f.data_len 0 f.payload)
receive-send first core l before f g is w fits room =
    rw (init-fresh first l before) (receive_from_fresh core l f g is w fits room)
