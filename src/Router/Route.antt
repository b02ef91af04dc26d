-- ===== src/Router/Route.antt =====
-- `RouterInterface::route_frame` of DC_Router/router.cpp.
use mathlib.Core.List.{foldl}
use libdronecan.Prelude.{
  ◌≡◌, ◌≢◌, refl, Bool, false, not, ◌&&◌, ◌||◌, List, [], ◌∷◌, arith, ◌==◌, if◌then◌else◌,
  Bool-cases, inl, inr, bit_and,
}
use libdronecan.Router.{Iface, null, Slot, interface_tx, routes_to, route_frame}

-- The interfaces that a frame from `iface` goes to, in order.
abbrev pub targets : Iface → List Slot → List Iface
targets iface [] = []
targets iface (s ∷ slots) =
    if routes_to iface s then s.iface ∷ targets iface slots else targets iface slots

abbrev pub has : Iface → List Iface → Bool
has a [] = false
has a (x ∷ xs) = (x == a) || has a xs

-- Some slot holds the interface, and its flags allow sending.
abbrev pub transmits : Iface → List Slot → Bool
transmits a [] = false
transmits a (s ∷ slots) =
    ((s.iface == a) && not (bit_and s.flags interface_tx == 0)) || transmits a slots

-- Routing a frame sends it on the targets, one after the other, each slot once.
pub route_frame-foldl :
    {E : Type 0} (send : Iface → E → E) (iface : Iface) (slots : List Slot) (env : E)
    → route_frame send iface slots env ≡ foldl (λ e a. send a e) env (targets iface slots)
unfolding route_frame
route_frame-foldl send iface [] env = refl
route_frame-foldl send iface (s ∷ slots) env = elim (Bool-cases (routes_to iface s)) [
  | inl hit ↦ rw hit (route_frame-foldl send iface slots (send s.iface env))
  | inr miss ↦ rw miss (route_frame-foldl send iface slots env)
]

-- An interface other than null is one of those that a frame is sent to exactly if a slot of the
-- router has it with leave to transmit, and the frame did not come from it.
pub has-targets :
    (iface a : Iface) (slots : List Slot)
    → a ≢ null
    → has a (targets iface slots) ≡ (transmits a slots && not (a == iface))
unfolding routes_to
has-targets iface a [] ne = refl
has-targets iface a (s ∷ slots) ne = ground (arith, has-targets iface a slots ne)
