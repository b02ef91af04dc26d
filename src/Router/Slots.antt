-- ===== src/Router/Slots.antt =====
-- `Router::add_interface` of DC_Router/router.cpp against a bounded list of interfaces.
use libdronecan.Prelude.{
  ℕ, ◌≡◌, ◌≢◌, refl, Bool, true, false, ◌||◌, List, [], ◌∷◌, ◌++◌, arith, ◌==◌, if◌then◌else◌,
}
use mathlib.Core.List.{append-nil}
use libdronecan.Router.{Iface, null, Slot, add_interface}

abbrev pub is_added : Iface → List Slot → Bool
is_added iface [] = false
is_added iface (s ∷ slots) = (s.iface == iface) || is_added iface slots

-- Slots that are in use.
abbrev pub InUse : List Slot → Type 0
InUse [] = Unit
InUse (s ∷ slots) = (s.iface ≢ null) × InUse slots

-- Free slots.
abbrev pub Free : List Slot → Type 0
Free [] = Unit
Free (s ∷ slots) = (s.iface ≡ null) × Free slots

-- The specification: `used` interfaces in the order of their addition, and free slots behind.
abbrev pub add_spec : Iface → ℕ → List Slot → List Slot → Bool × List Slot
add_spec iface flags used [] = (is_added iface used, used)
add_spec iface flags used (s ∷ free) =
    if is_added iface used
    then (true, used ++ (s ∷ free))
    else (true, used ++ (record { iface = iface; flags = flags } ∷ free))

-- Adding an interface that the router has succeeds and changes nothing, its flags neither; a new
-- one takes the first free slot with its flags, and is refused, with nothing changed, if there is
-- none. The interface is not null, and the slots in use stand before the free ones.
pub add_interface-spec :
    (iface : Iface) (flags : ℕ) (used free : List Slot)
    → iface ≢ null
    → InUse used
    → Free free
    → add_interface iface flags (used ++ free) ≡ add_spec iface flags used free
unfolding add_interface
add_interface-spec iface flags [] [] ne u f = refl
add_interface-spec iface flags [] (s ∷ free) ne u f = ground arith
add_interface-spec iface flags (s ∷ used) [] ne u f =
    ground (arith, add_interface-spec iface flags used [] ne u.1, append-nil used)
add_interface-spec iface flags (s ∷ used) (t ∷ free) ne u f =
    ground (arith, add_interface-spec iface flags used (t ∷ free) ne u.1 f)
