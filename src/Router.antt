-- ===== src/Router.antt =====
-- DC_Router/router.h and router.cpp: a router sends each frame that an interface receives to
-- the other interfaces. `interfaces` is an array of MAX_ROUTER_INTERFACES slots, taken for zeroed
-- at the start; a slot with no interface is free.
pub mod Slots
pub mod Route
mod Tests
use libdronecan.Prelude.{
  ℕ, zero, suc, Bool, true, false, not, ◌&&◌, List, [], ◌∷◌, ◌==◌, if◌then◌else◌, bit_and,
}
use libdronecan.Pal.Links.{Ptr, Links, Run, returns, null_deref, aborted, and_then}
use libdronecan.DataIface.Base.{iface_register_cb}

-- A `DataIface *`; 0 is null.
abbrev pub Iface : Type 0
Iface = ℕ

abbrev pub null : Iface
null = 0

-- `RouterInterface`
pub record Slot : Type 0 where
  pub iface : Iface
  pub flags : ℕ

abbrev pub interface_rx : ℕ
interface_rx = 1

abbrev pub interface_tx : ℕ
interface_tx = 2

-- The constructor `RouterInterface(DataIface *)`: its `iface`, and the links of the callbacks once
-- `route_frame_cb` is registered with the interface, whose list is at `rx_cbs`. It sets no flags.
unfoldable pub construct_interface :
    ℕ → (ndebug : Bool) → Links → (data_iface rx_cbs route_frame_cb : Ptr) → Run (Iface × Links)
construct_interface fuel ndebug n data_iface rx_cbs route_frame_cb =
    if data_iface == null
    then (if ndebug then null_deref else aborted)
    else and_then (iface_register_cb fuel n rx_cbs route_frame_cb) λ n'. returns (data_iface, n')

-- `Router::add_interface`: its result, and the slots afterwards.
unfoldable pub add_interface : Iface → ℕ → List Slot → Bool × List Slot
add_interface iface flags [] = (false, [])
add_interface iface flags (s ∷ slots) =
    let (added, rest) = add_interface iface flags slots in
    if s.iface == iface
    then (true, s ∷ slots)
    else if s.iface == null
    then (true, record { iface = iface; flags = flags } ∷ slots)
    else (added, s ∷ rest)

-- `i.iface != nullptr && i.flags & INTERFACE_TX && i.iface != iface`
unfoldable pub routes_to : Iface → Slot → Bool
routes_to iface s =
    not (s.iface == null) && (not (bit_and s.flags interface_tx == 0) && not (s.iface == iface))

-- `RouterInterface::route_frame` of a frame received from `iface`; `send` is what sending it on an
-- interface does.
pub route_frame : {E : Type 0} → (Iface → E → E) → Iface → List Slot → E → E
route_frame send iface [] env = env
route_frame send iface (s ∷ slots) env =
    route_frame send iface slots (if routes_to iface s then send s.iface env else env)
