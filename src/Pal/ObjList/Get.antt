-- ===== src/Pal/ObjList/Get.antt =====
-- `List::get` of DC_PAL/List.h.
use libdronecan.Prelude.{ℕ, zero, suc, ◌≡◌, List, [], ◌∷◌, get_or, arith}
use libdronecan.Pal.Links.{Ptr, null, Links, Chain}
use libdronecan.Pal.ObjList.{ObjList, get_loop, get}
use libdronecan.Pal.ObjList.Add.{IsList}

get_loop-get_or :
    (k : ℕ) (n : Links) (p : Ptr) (xs : List Ptr) → Chain n p xs → get_loop k n p ≡ get_or xs k null
unfolding get_loop
get_loop-get_or zero n p [] c = c
get_loop-get_or zero n p (x ∷ xs) c = c.0
get_loop-get_or (suc k) n p [] c = rw c
get_loop-get_or (suc k) n p (x ∷ xs) c = ground (arith, get_loop-get_or k n (n x) xs c.2)

-- `get(i)` is the object at position `i`, and null past the end.
pub get-get_or :
    (l : ObjList) (index : ℕ) (xs : List Ptr) → IsList l xs → get l index ≡ get_or xs index null
unfolding get
get-get_or l index xs is = get_loop-get_or index l.next l.head xs is.chain
