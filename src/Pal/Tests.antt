-- ===== src/Pal/Tests.antt =====
-- Runs of the linked lists, the callbacks, the CAN port and the worker on a few objects.
use libdronecan.Prelude.{◌≡◌, refl, false, List, [], ◌∷◌, arith, ◌==◌, if◌then◌else◌}
use libdronecan.Pal.Links.{Ptr, null, Links, returns, Chain, Distinct, has}
use libdronecan.Pal.ObjList.{ObjList, remove, get}
use libdronecan.Pal.ObjList.Add.{IsList}
use libdronecan.Pal.ObjList.Get.{get-get_or}
use libdronecan.Pal.ObjList.Remove.{remove-erase}
use libdronecan.Pal.Callbacks.{call_all}
use libdronecan.Pal.Callbacks.History.{
  Change, registers, unregisters, apply_changes, is_in, keeping, call_all-order,
}
use libdronecan.Pal.Can.{CanPort, can_register_cb}
use libdronecan.Pal.Can.Laws.{IsPort, can_register_cb_again}

-- The links 3 → 5 → 7.
abbrev links : Links
links a = if a == 3 then 5 else if a == 5 then 7 else 0

abbrev three : List Ptr
three = 3 ∷ 5 ∷ 7 ∷ []

three-Chain : Chain links 3 three
three-Chain = (refl, omega arith, (refl, omega arith, (refl, omega arith, refl)))

three-Distinct : Distinct three
three-Distinct = (refl, (refl, (refl, tt)))

abbrev objects : ObjList
objects = record { head = 3; next = links }

objects-IsList : IsList objects three
objects-IsList = record { chain = three-Chain; distinct = three-Distinct }

remove-erase_example :
    (l' : ObjList) × (remove 3 objects 5 ≡ returns l') × IsList l' (3 ∷ 7 ∷ []) × (l'.next 5 ≡ null)
remove-erase_example = remove-erase 3 objects 5 three objects-IsList refl (omega arith)

get-get_or_example : get objects 2 ≡ 7
get-get_or_example = get-get_or objects 2 three objects-IsList

-- 5 and 7 are registered, 5 once more, and 7 is unregistered.
abbrev calls_made : List Change
calls_made = registers 5 ∷ registers 7 ∷ registers 5 ∷ unregisters 7 ∷ []

call_all-order_example :
    (n' : Links) × (apply_changes 5 3 calls_made (λ a. null) ≡ returns n')
    × (call_all (λ s. s.0) (keeping (λ cb called. cb ∷ called)) 5 3 (n', []) ≡ returns (n', 5 ∷ []))
    × Distinct (5 ∷ [])
    × ((a : Ptr) → has a (5 ∷ []) ≡ is_in a false calls_made)
call_all-order_example =
    call_all-order (λ cb called. cb ∷ called) 5 (λ a. null) 3 calls_made [] (omega arith) refl
      (
        omega arith,
        omega arith,
        (omega arith, omega arith, (omega arith, omega arith, (omega arith, omega arith, tt))),
      )
      (omega arith)

abbrev port : CanPort
port = record { rx_cbs = 3; next = links }

port-IsPort : IsPort port three
port-IsPort = record { chain = three-Chain; distinct = three-Distinct }

can_register_cb_again_example :
    (c' : CanPort) × (can_register_cb 4 port 3 ≡ returns c') × IsPort c' (3 ∷ [])
can_register_cb_again_example = can_register_cb_again 4 port 3 5 (7 ∷ []) port-IsPort (omega arith)
