-- ===== src/DataIface/ShMem/Tests.antt =====
-- Runs of two rings in 200 bytes of shared memory.
use mathlib.Core.List.{foldl}
use libdronecan.Prelude.{ℕ, List, ◌≡◌, false, [], ◌∷◌, replicate, length, arith}
use libdronecan.DataIface.Frame.{CanFrame, slice}
use libdronecan.DataIface.ShMem.{cm7, cm4, Layout, Placed, Shared, ring_size, init, send, receive}
use libdronecan.Pal.Links.{returns}
use libdronecan.DataIface.ShMem.{drain}
use libdronecan.Prelude.{◌<◌, ◌≤◌, ◌+◌}
use libdronecan.DataIface.ShMem.Reach.{starts, sends, receives, receive-room, Reachable-within}
use libdronecan.DataIface.ShMem.Drain.{drain-send, drain-route_frame}
use libdronecan.Router.{Iface, Slot, route_frame}
use libdronecan.Router.Route.{targets}
use libdronecan.DataIface.ShMem.Laws.{IsLayout}

abbrev layout : Layout
layout = record { base = 0x38000000; shared_mem_size = 200; sizeof_buffer = 16 }

layout-IsLayout : IsLayout layout
layout-IsLayout = record { in_range = omega arith; room = omega arith }

-- Memory that holds anything.
abbrev stale : Placed
stale = record { pointer = 3; ring = record { buffer = 1 ∷ []; size = 9; head = 77; tail = 5 } }

abbrev memory : Shared
memory = record { low = stale; high = stale }

abbrev small : CanFrame
small = record {
  id = 0x80000301;
  data_len = 2;
  payload = 5 ∷ 6 ∷ [];
  canfd = false;
  timestamp_usec = 0;
}

-- What the receiver's local variable holds.
abbrev blank : CanFrame
blank = record { id = 0; data_len = 0; payload = replicate 8 0; canfd = false; timestamp_usec = 0 }

abbrev both : Shared
both = init cm7 layout (init cm4 layout memory)

-- What `cm4` sends, `cm7` finds.
abbrev arrived : CanFrame
arrived = (receive cm7 (send cm4 both small).1 blank).1

abbrev after : Shared
after = (receive cm7 (send cm4 both small).1 blank).2

-- The router sits on the shared memory (5) and on one other interface (7).
abbrev slots : List Slot
slots = record { iface = 5; flags = 3 } ∷ record { iface = 7; flags = 3 } ∷ []

-- The interfaces and identifiers of what was sent, the last one first.
abbrev sent_on : CanFrame → Iface → List (Iface × ℕ) → List (Iface × ℕ)
sent_on frame a env = (a, frame.id) ∷ env

drain-route_frame_example :
    (drain (λ frame. route_frame (sent_on frame) 5 slots) 2 cm7 (send cm4 both small).1 blank []
      ≡ returns (after, foldl (λ e a. sent_on arrived a e) [] (targets 5 slots)))
    × (arrived.id ≡ 0x80000301)
    × (arrived.data_len ≡ 2)
    × (slice 2 0 arrived.payload ≡ 5 ∷ 6 ∷ [])
unfolding ring_size
drain-route_frame_example =
    drain-route_frame sent_on 5 slots 0 cm4 cm4 layout memory small blank [] layout-IsLayout
      (record { id_fits = omega arith; len_fits = omega arith }) (omega arith) (omega arith)

-- After a frame from `cm4`, and one that `cm7` has taken.
after_room : length (receive cm7 (send cm4 both small).1 blank).1.payload ≡ length blank.payload
unfolding ring_size
after_room = receive-room cm7 (send cm4 both small).1 blank (
    omega (
      arith,
      (drain-send (λ frame (n : ℕ). n) 0 cm4 cm4 layout memory small blank 0 layout-IsLayout
          (record { id_fits = omega arith; len_fits = omega arith }) (omega arith) (omega arith)).2,
    ))

Reachable-within_example :
    (0x38000000 ≤ after.low.pointer)
    × (after.low.pointer + after.low.ring.head < 0x38000000 + 100)
    × (after.low.pointer + after.low.ring.tail < 0x38000000 + 100)
    × (0x38000000 + 100 ≤ after.high.pointer)
    × (after.high.pointer + after.high.ring.head < 0x38000000 + 200)
    × (after.high.pointer + after.high.ring.tail < 0x38000000 + 200)
Reachable-within_example =
    Reachable-within layout after layout-IsLayout
      (receives cm7 blank (sends cm4 small (starts cm4 memory)) after_room)
