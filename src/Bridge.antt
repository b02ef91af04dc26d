-- ===== src/Bridge.antt =====
-- The components in a row: shared memory (DC_DataIface/DataIface_ShMem.cpp), the router
-- (DC_Router/router.h and router.cpp) and the log file (DC_DataIface/DataIface_LogFile.cpp). The
-- router has an interface to the shared memory and one to a log, and a `RouterInterface` is
-- constructed on the shared memory. `CallbackList`, the type of `rx_cbs`, is declared nowhere: its
-- call is taken for `call_all` of DC_PAL/Callbacks.h.
mod Tests
use mathlib.Core.List.{foldl}
use libdronecan.Prelude.{
  ℕ, suc, ◌+◌, ◌≤◌, ◌<◌, ◌≡◌, ◌≢◌, refl, sym, ap, ap₂, ◌∙◌, true, Option, some, List, [], ◌∷◌, ◌++◌,
  length, arith, Bool, ==_ne, ==_self, ◌==◌, if◌then◌else◌,
}
use libdronecan.Pal.Links.{Ptr, Links, Run, returns, and_then}
use libdronecan.Pal.Callbacks.{call_all}
use libdronecan.Pal.Callbacks.Laws.{Registered, register_cb-Registered}
use libdronecan.Pal.Callbacks.CallAll.{call_all-foldl}
use libdronecan.Pal.Callbacks.History.{keeping}
use libdronecan.DataIface.Base.{iface_register_cb}
use libdronecan.DataIface.Frame.{CanFrame, IsFrame, slice}
use libdronecan.DataIface.Raw.{frame_size_without_data}
use libdronecan.DataIface.ShMem.{Core, Layout, Shared, ring_size, init, send, receive, drain}
use libdronecan.DataIface.ShMem.Laws.{IsLayout, other}
use libdronecan.DataIface.ShMem.Drain.{drain-send}
use libdronecan.DataIface.LogFile
use libdronecan.DataIface.LogFile.Codec.{IsFile, entry}
use libdronecan.DataIface.LogFile.RoundTrip.{send-entry}
use libdronecan.Router.{
  Iface, null, Slot, interface_tx, construct_interface, add_interface, route_frame, routes_to,
}
use libdronecan.Router.Route.{targets, route_frame-foldl}

abbrev pub free_slot : Slot
free_slot = record { iface = null; flags = 0 }

-- The router after `add_interface` of the shared memory, with any flags, and of the log.
abbrev pub slots : (shared log : Iface) (flags : ℕ) → List Slot
slots shared log flags =
    (add_interface log interface_tx (add_interface shared flags (free_slot ∷ free_slot ∷ [])).1).1

-- `send` on the log writes to its file; the other interfaces do something else to it.
abbrev pub send_on :
    {F : Type 0}
    → (List ℕ → F → Option ℕ × F)
    → (CanFrame → Iface → Option F → Option F)
    → Iface
    → CanFrame
    → Iface
    → Option F
    → Option F
send_on write elsewhere log frame iface file =
    if iface == log then (LogFile.send write file frame).1 else elsewhere frame iface file

targets-slots :
    (shared log : Iface) (flags : ℕ)
    → shared ≢ null
    → log ≢ null
    → shared ≢ log
    → targets shared (slots shared log flags) ≡ log ∷ []
unfolding add_interface routes_to
targets-slots shared log flags s l ne = ground arith

-- An entry is made of the identifier, the length and the data.
abbrev text : ℕ → ℕ → List ℕ → List ℕ
text id len bytes =
    LogFile.frame_header1
    ∷ (LogFile.le32 id ++ ((len ∷ []) ++ (bytes ++ LogFile.le32 (LogFile.crc32 bytes))))

entry-same :
    (out f : CanFrame)
    → out.id ≡ f.id
    → out.data_len ≡ f.data_len
    → slice f.data_len 0 out.payload ≡ slice f.data_len 0 f.payload
    → entry out ≡ entry f
entry-same out f same_id same_len same_data =
    ap (λ n. text out.id n (slice n 0 out.payload)) same_len
    ∙ ap₂ (λ n bytes. text n f.data_len bytes) same_id same_data

-- `rx_cbs(frame)` on the list of callbacks at `rx_cbs`: the callback at `cb` is the router's, and
-- `others` is what any other does.
abbrev pub call_rx :
    {F : Type 0}
    → (fuel : ℕ) → (rx_cbs cb : Ptr) → (route : CanFrame → Option F → Option F)
    → (others : CanFrame → Ptr → Option F → Option F) → CanFrame
    → Run (Links × Option F)
    → Run (Links × Option F)
call_rx fuel rx_cbs cb route others frame r = and_then r λ s.
    call_all (λ s. s.0) (keeping (λ p. if p == cb then route frame else others frame p)) fuel rx_cbs
      s

module _ {F : Type 0} (fuel : ℕ) (n : Links) (rx_cbs cb : Ptr) (there : rx_cbs ≢ null)
    (on : cb ≢ null) (ne : cb ≢ rx_cbs) (empty : n rx_cbs ≡ null) (enough : 1 < fuel) where
  -- A router's interface that is constructed on an interface without callbacks is called once for
  -- each frame.
  construct-call_rx :
      (ndebug : Bool) (shared : Iface)
      → shared ≢ null
      → (n' : Links) × (construct_interface fuel ndebug n shared rx_cbs cb ≡ returns (shared, n'))
        × ((route : CanFrame → Option F → Option F) (others : CanFrame → Ptr → Option F → Option F)
              (frame : CanFrame) (file : Option F)
            → call_rx fuel rx_cbs cb route others frame (returns (n', file))
              ≡ returns (n', route frame file))
  unfolding construct_interface iface_register_cb
  construct-call_rx ndebug shared s =
      let none_yet : Registered n rx_cbs [] = record {
        chain = empty;
        distinct = (refl, tt);
        this_ne = there;
      } in
      let (n', hung, r) = register_cb-Registered fuel n rx_cbs cb [] none_yet on ne (omega arith) in
      (
        n',
        rw (==_ne shared null s, hung) refl,
        λ route others frame file.
            call_all-foldl (λ s. s.0)
              (keeping (λ p. if p == cb then route frame else others frame p)) (λ p s. refl) fuel
              rx_cbs (n', file) (cb ∷ []) r enough
            ∙ rw (==_self cb) refl,
      )

-- When both cores have called `init`, one core sends a frame, the router of the other core got
-- the shared memory and a log by `add_interface`, and a `RouterInterface` is constructed on the
-- shared memory, which registers its callback there, then the inner loop of `update_rx` of the
-- shared memory calls the callbacks that are registered and ends with the entry of that frame
-- behind what the log's file held. The frame fits its C types, the ring has more bytes than its
-- data and seven, the receiver's array has room, and the file takes every write; the interfaces
-- are distinct and not null, the shared memory had no callback, the callback is neither null nor
-- the list itself, and the walks of the list have more than one round; the memory lies below
-- 2^32, and each half has room for a `Buffer` and a byte.
pub drain_logs :
    {F : Type 0} {read : ℕ → F → Option (List ℕ) × F} {write : List ℕ → F → Option ℕ × F}
    {contents : F → List ℕ} (file : IsFile read write contents)
    (elsewhere : CanFrame → Iface → Option F → Option F) (shared log : Iface) (flags k : ℕ)
    (first core : Core) (l : Layout) (before : Shared) (f g : CanFrame) (log_file : F) (fuel : ℕ)
    (ndebug : Bool) (n : Links) (rx_cbs cb : Ptr) (others : CanFrame → Ptr → Option F → Option F)
    → shared ≢ null
    → log ≢ null
    → shared ≢ log
    → IsLayout l
    → IsFrame f
    → f.data_len + frame_size_without_data < ring_size l
    → f.data_len ≤ length g.payload
    → rx_cbs ≢ null
    → cb ≢ null
    → cb ≢ rx_cbs
    → n rx_cbs ≡ null
    → 1 < fuel
    → let m = (send core (init (other first) l (init first l before)) f).1 in
      (n' : Links) × (construct_interface fuel ndebug n shared rx_cbs cb ≡ returns (shared, n'))
      × (log_file' : F) × (drain
            (call_rx fuel rx_cbs cb
              (λ frame.
                route_frame (send_on write elsewhere log frame) shared (slots shared log flags))
              others)
            (suc (suc k))
            (other core)
            m
            g
            (returns (n', some log_file))
          ≡ returns ((receive (other core) m g).2, returns (n', some log_file')))
      × (contents log_file' ≡ contents log_file ++ entry f)
drain_logs {F} {write} {contents} file elsewhere shared log flags k first core l before f g log_file
      fuel ndebug n rx_cbs cb others s o ne is w fits room there on apart empty enough =
    let m = (send core (init (other first) l (init first l before)) f).1 in
    let out = (receive (other core) m g).1 in
    let m' = (receive (other core) m g).2 in
    let route : CanFrame → Option F → Option F =
      λ frame. route_frame (send_on write elsewhere log frame) shared (slots shared log flags) in
    let (log_file', wrote, grown) = send-entry file out log_file in
    let sent : route out (some log_file) ≡ some log_file' =
      route_frame-foldl (send_on write elsewhere log out) shared (slots shared log flags)
        (some log_file)
      ∙ ap (foldl (λ e a. send_on write elsewhere log out a e) (some log_file))
          (targets-slots shared log flags s o ne)
      ∙ ground (arith, wrote) in
    let (n', hung, called) =
      construct-call_rx fuel n rx_cbs cb there on apart empty enough ndebug shared s in
    let d =
      drain-send (call_rx fuel rx_cbs cb route others) k first core l before f g
        (returns (n', some log_file)) is w fits room in
    (
      n',
      hung,
      log_file',
      d.0
          ∙ ap (λ o. returns (m', o)) (called route others out (some log_file))
          ∙ ap (λ o. returns (m', returns (n', o))) sent,
      grown ∙ ap (λ l. contents log_file ++ l) (entry-same out f d.1 d.2 d.3),
    )
