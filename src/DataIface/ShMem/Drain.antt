-- ===== src/DataIface/ShMem/Drain.antt =====
-- The inner loop of `update_rx` of DataIface_ShMem.cpp on a ring that holds one frame, and the
-- router's callback (DC_Router/router.cpp) on the frame that it finds.
use mathlib.Core.List.{foldl}
use libdronecan.Prelude.{
  ℕ, zero, suc, ◌+◌, ◌≤◌, ◌<◌, ◌≡◌, ◌≢◌, refl, ◌∙◌, ap, Bool, true, false, List, length, replicate,
  arith, get_or,
}
use libdronecan.Pal.Links.{Run, returns}
use libdronecan.DataIface.Frame.{CanFrame, IsFrame, slice}
use libdronecan.DataIface.Raw.{Buffer, frame_size_without_data, frame_header1}
use libdronecan.DataIface.Raw.Ahead.{pop_stops}
use libdronecan.DataIface.ShMem.{
  Core, cm7, cm4, Layout, Shared, ring_size, init, send, receive, drain,
}
use libdronecan.DataIface.ShMem.Laws.{
  IsLayout, other, empty_ring, fresh, init-fresh, empty_ring-IsValid, receive_from_fresh,
}
use libdronecan.Router.{Iface, Slot, route_frame}
use libdronecan.Router.Route.{targets, route_frame-foldl}

get_or-zeros : (n i : ℕ) → get_or {A = ℕ} (replicate n 0) i 0 ≡ 0
get_or-zeros zero i = refl
get_or-zeros (suc n) zero = refl
get_or-zeros (suc n) (suc i) = get_or-zeros n i

zeros_clear : (n i : ℕ) → get_or {A = ℕ} (replicate n 0) i 0 ≢ frame_header1
zeros_clear n i e = omega (arith, e, get_or-zeros n i)

-- Once the only frame is taken, the ring gives nothing.
second_refused :
    (core : Core) (l : Layout) (f g h : CanFrame)
    → IsLayout l
    → IsFrame f
    → f.data_len + frame_size_without_data < ring_size l
    → f.data_len ≤ length g.payload
    → let m = (receive (other core) (send core (fresh l) f).1 g).2 in
      receive (other core) m h ≡ (false, h, m)
unfolding send receive
second_refused cm7 l f g h is w fits room =
    ap
      (λ (r : Bool × CanFrame × Buffer).
        let m = (receive cm4 (send cm7 (fresh l) f).1 g).2 in
        (r.0, r.1, record m { high = record m.high { ring = r.2 } }))
      (pop_stops {b = empty_ring l} f g h (empty_ring-IsValid l is) refl refl w fits room
        (zeros_clear (ring_size l) (f.data_len + 7)))
second_refused cm4 l f g h is w fits room =
    ap
      (λ (r : Bool × CanFrame × Buffer).
        let m = (receive cm7 (send cm4 (fresh l) f).1 g).2 in
        (r.0, r.1, record m { low = record m.low { ring = r.2 } }))
      (pop_stops {b = empty_ring l} f g h (empty_ring-IsValid l is) refl refl w fits room
        (zeros_clear (ring_size l) (f.data_len + 7)))

module _ {E : Type 0} (rx_cbs : CanFrame → E → E) (core : Core) where
  drain_accepts :
      (k : ℕ) (m m' : Shared) (g out : CanFrame) (env : E)
      → receive core m g ≡ (true, out, m')
      → drain rx_cbs (suc k) core m g env ≡ drain rx_cbs k core m' out (rx_cbs out env)
  unfolding drain
  drain_accepts k m m' g out env e =
      ap
        (λ (r : Bool × CanFrame × Shared).
          let next : Run (Shared × E) = elim r.0 [
            | true ↦ drain rx_cbs k core r.2 r.1 (rx_cbs r.1 env)
            | false ↦ returns (r.2, env)
          ] in
          next)
        e

  drain_refuses :
      (k : ℕ) (m m' : Shared) (g out : CanFrame) (env : E)
      → receive core m g ≡ (false, out, m')
      → drain rx_cbs (suc k) core m g env ≡ returns (m', env)
  unfolding drain
  drain_refuses k m m' g out env e =
      ap
        (λ (r : Bool × CanFrame × Shared).
          let next : Run (Shared × E) = elim r.0 [
            | true ↦ drain rx_cbs k core r.2 r.1 (rx_cbs r.1 env)
            | false ↦ returns (r.2, env)
          ] in
          next)
        e

  drain_one :
      (k : ℕ) (m : Shared) (g : CanFrame) (env : E)
      → (receive core m g).0 ≡ true
      → ((h : CanFrame) → receive core (receive core m g).2 h ≡ (false, h, (receive core m g).2))
      → drain rx_cbs (suc (suc k)) core m g env
        ≡ returns ((receive core m g).2, rx_cbs (receive core m g).1 env)
  drain_one k m g env got stop =
      let r = receive core m g in
      drain_accepts (suc k) m r.2 g r.1 env (ap (λ t. (t, r.1, r.2)) got)
      ∙ drain_refuses k r.2 r.2 r.1 r.1 (rx_cbs r.1 env) (stop r.1)

-- The first frame that a core sends makes `update_rx` on the other core call its callbacks once,
-- with that frame.
pub drain-send :
    {E : Type 0} (rx_cbs : CanFrame → E → E) (k : ℕ) (first core : Core) (l : Layout)
    (before : Shared) (f g : CanFrame) (env : E)
    → IsLayout l
    → IsFrame f
    → f.data_len + frame_size_without_data < ring_size l
    → f.data_len ≤ length g.payload
    → let m = (send core (init (other first) l (init first l before)) f).1 in
      let (got, out, m') = receive (other core) m g in
      (drain rx_cbs (suc (suc k)) (other core) m g env ≡ returns (m', rx_cbs out env))
      × (out.id ≡ f.id)
      × (out.data_len ≡ f.data_len)
      × (slice f.data_len 0 out.payload ≡ slice f.data_len 0 f.payload)
drain-send rx_cbs k first core l before f g env is w fits room = rw (init-fresh first l before) (
    let r = receive_from_fresh core l f g is w (omega arith) room in
    (
      drain_one rx_cbs (other core) k (send core (fresh l) f).1 g env r.1
          (λ h. second_refused core l f g h is w fits room),
      r.2,
      r.3,
      r.4,
    ))

-- When both cores have called `init`, in either order and whatever the memory held, and one core
-- sends a frame, the loop of `update_rx` on the other core ends after two calls of `pop` and
-- calls its callbacks once; the router's callback sends the frame, with the identifier, length
-- and data that were sent, on each interface that the slots name for it, in order. The frame fits
-- its C types, the ring has more bytes than its data and seven, and the receiver's array has
-- room; the memory lies below 2^32, and each half has room for a `Buffer` and a byte.
pub drain-route_frame :
    {E : Type 0} (send_on : CanFrame → Iface → E → E) (iface : Iface) (slots : List Slot) (k : ℕ)
    (first core : Core) (l : Layout) (before : Shared) (f g : CanFrame) (env : E)
    → IsLayout l
    → IsFrame f
    → f.data_len + frame_size_without_data < ring_size l
    → f.data_len ≤ length g.payload
    → let m = (send core (init (other first) l (init first l before)) f).1 in
      let (got, out, m') = receive (other core) m g in
      (drain (λ frame. route_frame (send_on frame) iface slots) (suc (suc k)) (other core) m g env
        ≡ returns (m', foldl (λ e a. send_on out a e) env (targets iface slots)))
      × (out.id ≡ f.id)
      × (out.data_len ≡ f.data_len)
      × (slice f.data_len 0 out.payload ≡ slice f.data_len 0 f.payload)
drain-route_frame send_on iface slots k first core l before f g env is w fits room =
    let m = (send core (init (other first) l (init first l before)) f).1 in
    let out = (receive (other core) m g).1 in
    let m' = (receive (other core) m g).2 in
    let d =
      drain-send (λ frame. route_frame (send_on frame) iface slots) k first core l before f g env is
        w fits room in
    (
      d.0 ∙ ap (λ e. returns (m', e)) (route_frame-foldl (send_on out) iface slots env),
      d.1,
      d.2,
      d.3,
    )
