-- ===== src/Router/Tests.antt =====
-- Runs of a router with two interfaces that transmit and one that does not.
use libdronecan.Prelude.{◌≡◌, refl, true, List, [], ◌∷◌, ◌++◌, arith}
use libdronecan.Router.{Iface, Slot, add_interface, routes_to, route_frame}
use libdronecan.Router.Route.{route_frame-foldl}
use libdronecan.Router.Slots.{add_interface-spec}

abbrev slots : List Slot
slots =
    record { iface = 4; flags = 3 }
    ∷ record { iface = 6; flags = 1 }
    ∷ record { iface = 8; flags = 2 }
    ∷ []

abbrev free : List Slot
free = record { iface = 0; flags = 0 } ∷ []

add_interface-spec_example :
    add_interface 9 3 (slots ++ free) ≡ (true, slots ++ (record { iface = 9; flags = 3 } ∷ []))
add_interface-spec_example =
    add_interface-spec 9 3 slots free (omega arith) (omega arith, (omega arith, (omega arith, tt)))
      (refl, tt)

-- Sending notes the interface.
abbrev note : Iface → List Iface → List Iface
note iface seen = iface ∷ seen

route_frame-foldl_example : route_frame note 4 slots [] ≡ 8 ∷ []
unfolding routes_to
route_frame-foldl_example = route_frame-foldl note 4 slots []
