-- ===== src/DataIface/ShMem/Reach.antt =====
-- Whatever the two cores of DataIface_ShMem.cpp send and receive, in any order, once both have
-- called `init`.
use libdronecan.Prelude.{◌+◌, ◌/◌, ◌≤◌, ◌<◌, ◌≡◌, refl, length, arith}
use libdronecan.DataIface.Frame.{CanFrame}
use libdronecan.DataIface.Raw.Keep.{IsRing, push-IsRing, pop-IsRing}
use libdronecan.DataIface.Raw.Overrun.{length-pop}
use libdronecan.DataIface.ShMem.{
  Core, cm7, cm4, Layout, Shared, low_pointer, high_pointer, ring_size, init, send, receive,
}
use libdronecan.DataIface.ShMem.Laws.{
  IsLayout, other, empty_ring, fresh, init-fresh, empty_ring-IsValid, halves_apart,
}

-- The frame that a core receives into may hold anything. A `pop` that writes behind the array of that
-- frame is no step: what the program does then is undefined.
pub data Reachable (l : Layout) : Shared → Type 0 where
  starts :
      (first : Core) (before : Shared) → Reachable l (init (other first) l (init first l before))
  sends : {m : Shared} (core : Core) (f : CanFrame) → Reachable l m → Reachable l (send core m f).1
  receives :
      {m : Shared} (core : Core) (g : CanFrame)
      → Reachable l m
      → length (receive core m g).1.payload ≡ length g.payload
      → Reachable l (receive core m g).2

-- A frame that fits the array that it is received into.
pub receive-room :
    (core : Core) (m : Shared) (g : CanFrame)
    → (receive core m g).1.data_len ≤ length g.payload
    → length (receive core m g).1.payload ≡ length g.payload
unfolding receive
receive-room cm7 m g fits = length-pop m.low.ring g fits
receive-room cm4 m g fits = length-pop m.high.ring g fits

record IsShared (l : Layout) (m : Shared) : Type 0 where
  low : IsRing (ring_size l) m.low.ring
  high : IsRing (ring_size l) m.high.ring
  low_at : m.low.pointer ≡ low_pointer l
  high_at : m.high.pointer ≡ high_pointer l

fresh-IsShared : (l : Layout) → IsLayout l → IsShared l (fresh l)
fresh-IsShared l is =
    let ring : IsRing (ring_size l) (empty_ring l) = record {
      valid = empty_ring-IsValid l is;
      size_same = refl;
    } in
    record { low = ring; high = ring; low_at = refl; high_at = refl }

Reachable-IsShared : (l : Layout) {m : Shared} → IsLayout l → Reachable l m → IsShared l m
unfolding send receive
Reachable-IsShared l is (starts first before) = rw (init-fresh first l before) (fresh-IsShared l is)
Reachable-IsShared l is (sends {m = m} cm7 f r) =
    let i = Reachable-IsShared l is r in
    record {
      high = push-IsRing (ring_size l) m.high.ring f i.high;
      low = i.low;
      low_at = i.low_at;
      high_at = i.high_at;
    }
Reachable-IsShared l is (sends {m = m} cm4 f r) =
    let i = Reachable-IsShared l is r in
    record {
      low = push-IsRing (ring_size l) m.low.ring f i.low;
      high = i.high;
      low_at = i.low_at;
      high_at = i.high_at;
    }
Reachable-IsShared l is (receives {m = m} cm7 g r room) =
    let i = Reachable-IsShared l is r in
    record {
      low = pop-IsRing (ring_size l) m.low.ring g i.low;
      high = i.high;
      low_at = i.low_at;
      high_at = i.high_at;
    }
Reachable-IsShared l is (receives {m = m} cm4 g r room) =
    let i = Reachable-IsShared l is r in
    record {
      high = pop-IsRing (ring_size l) m.high.ring g i.high;
      low = i.low;
      low_at = i.low_at;
      high_at = i.high_at;
    }

-- When both cores have called `init`, in either order and whatever the memory held, then after
-- any sequence of frames that the cores send and receive, whatever these hold, both rings lie at
-- their places and all their indices in their own half of the shared memory. The memory lies
-- below 2^32, each half has room for a `Buffer` and a byte, and no `pop` writes behind the array
-- of the frame that it reads into.
pub Reachable-within :
    (l : Layout) (m : Shared)
    → IsLayout l
    → Reachable l m
    → (l.base ≤ m.low.pointer)
      × (m.low.pointer + m.low.ring.head < l.base + l.shared_mem_size / 2)
      × (m.low.pointer + m.low.ring.tail < l.base + l.shared_mem_size / 2)
      × (l.base + l.shared_mem_size / 2 ≤ m.high.pointer)
      × (m.high.pointer + m.high.ring.head < l.base + l.shared_mem_size)
      × (m.high.pointer + m.high.ring.tail < l.base + l.shared_mem_size)
Reachable-within l m is r =
    let i = Reachable-IsShared l is r in
    let (a, b, c, d) = halves_apart l is in
    let lv = i.low.valid in
    let hv = i.high.valid in
    (
      omega (arith, i.low_at, a),
      omega (arith, i.low_at, b, i.low.size_same, lv.head_in),
      omega (arith, i.low_at, b, i.low.size_same, lv.tail_in),
      omega (arith, i.high_at, c),
      omega (arith, i.high_at, d, i.high.size_same, hv.head_in),
      omega (arith, i.high_at, d, i.high.size_same, hv.tail_in),
    )
