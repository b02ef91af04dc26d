-- ===== src/Bridge/Tests.antt =====
-- A frame from the shared memory into a log, in 200 bytes of memory and a file that is the list of
-- its bytes.
use libdronecan.Prelude.{
  ℕ, false, ◌≡◌, refl, Option, some, List, [], ◌∷◌, ◌++◌, length, take, drop, arith,
  take-length-append, drop-length-append, ap, ap₂, ◌∙◌, replicate,
}
use libdronecan.Pal.Links.{Ptr, null, Links, returns}
use libdronecan.DataIface.Frame.{CanFrame}
use libdronecan.DataIface.ShMem.{
  cm7, cm4, Layout, Placed, Shared, ring_size, init, send, receive, drain,
}
use libdronecan.DataIface.ShMem.Laws.{IsLayout}
use libdronecan.DataIface.LogFile.Codec.{IsFile, entry}
use libdronecan.Router.{construct_interface, route_frame}
use libdronecan.Bridge.{slots, send_on, call_rx, drain_logs}

abbrev layout : Layout
layout = record { base = 0x38000000; shared_mem_size = 200; sizeof_buffer = 16 }

layout-IsLayout : IsLayout layout
layout-IsLayout = record { in_range = omega arith; room = omega arith }

-- Memory that holds anything.
abbrev stale : Placed
stale = record { pointer = 3; ring = record { buffer = 1 ∷ []; size = 9; head = 77; tail = 5 } }

abbrev small : CanFrame
small = record {
  id = 0x80000301;
  data_len = 2;
  payload = 5 ∷ 6 ∷ [];
  canfd = false;
  timestamp_usec = 0;
}

abbrev blank : CanFrame
blank = record { id = 0; data_len = 0; payload = replicate 8 0; canfd = false; timestamp_usec = 0 }

abbrev sent : Shared
sent = (send cm4 (init cm7 layout (init cm4 layout (record { low = stale; high = stale }))) small).1

-- Reading takes from the front, writing adds at the end.
abbrev read_list : ℕ → List ℕ → Option (List ℕ) × List ℕ
read_list n f = (some (take n f), drop n f)

abbrev write_list : List ℕ → List ℕ → Option ℕ × List ℕ
write_list bytes f = (some (length bytes), f ++ bytes)

list-IsFile : IsFile read_list write_list (λ f. f)
list-IsFile = record {
  read_all = λ bytes rest f e. (
    rest,
    ap (λ l. (some (take (length bytes) l), drop (length bytes) l)) e
        ∙ ap₂ (λ a b. (some a, b)) (take-length-append bytes rest) (drop-length-append bytes rest),
    refl,
  );
  write_all = λ bytes f. (f ++ bytes, refl, refl);
}

-- No callback yet, and what a callback that is not the router's would do.
abbrev unlinked : Links
unlinked p = null

abbrev nothing : CanFrame → Ptr → Option (List ℕ) → Option (List ℕ)
nothing frame p file = file

drain_logs_example :
    (n' : Links) × (construct_interface 2 false unlinked 5 20 30 ≡ returns (5, n'))
    × (log_file' : List ℕ) × (drain
          (call_rx 2 20 30
            (λ frame.
              route_frame (send_on write_list (λ frame iface file. file) 7 frame) 5 (slots 5 7 1))
            nothing)
          2
          cm7
          sent
          blank
          (returns (n', some (9 ∷ [])))
        ≡ returns ((receive cm7 sent blank).2, returns (n', some log_file')))
    × (log_file' ≡ (9 ∷ []) ++ entry small)
unfolding ring_size
drain_logs_example =
    drain_logs list-IsFile (λ frame iface file. file) 5 7 1 0 cm4 cm4 layout
      (record { low = stale; high = stale }) small blank (9 ∷ []) 2 false unlinked 20 30 nothing
      (omega arith) (omega arith) (omega arith) layout-IsLayout
      (record { id_fits = omega arith; len_fits = omega arith }) (omega arith) (omega arith)
      (omega arith) (omega arith) (omega arith) refl (omega arith)
