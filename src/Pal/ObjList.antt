-- ===== src/Pal/ObjList.antt =====
-- DC_PAL/List.h: the intrusive list of all objects of a class (threads, serial ports, CAN ports),
-- with one static `head`. Every member runs under the list's semaphore, so each is one step.
pub mod Add
pub mod Remove
pub mod Get
use libdronecan.Prelude.{
  ℕ, zero, suc, ◌+◌, ◌%◌, ◌^◌, Bool, true, false, not, ◌&&◌, List, [], ◌∷◌, ltb, ◌==◌,
  if◌then◌else◌,
}
use libdronecan.Pal.Links.{
  Ptr, null, Links, set_next, Run, returns, null_deref, out_of_fuel, aborted,
}

-- The static `head`, and the `next` member of every object.
pub record ObjList : Type 0 where
  pub head : Ptr
  pub next : Links

-- `while (tmp->next != nullptr) tmp = tmp->next; tmp->next = &obj;`
pub add_loop : ℕ → Links → (tmp obj : Ptr) → Run Links
add_loop zero n tmp obj = out_of_fuel
add_loop (suc k) n tmp obj = elim (n tmp == null) [
  | true ↦ returns (set_next n tmp obj)
  | false ↦ add_loop k n (n tmp) obj
]

abbrev pub with_head : Ptr → Run Links → Run ObjList
with_head h (returns n) = returns (record { head = h; next = n })
with_head h null_deref = null_deref
with_head h out_of_fuel = out_of_fuel
with_head h aborted = aborted

pub add : ℕ → ObjList → Ptr → Run ObjList
add fuel l obj =
    if l.head == null
    then returns (record l { head = obj })
    else with_head l.head (add_loop fuel l.next l.head obj)

-- The constructor clears `next` and adds the object.
pub construct : ℕ → ObjList → Ptr → Run ObjList
construct fuel l obj = add fuel (record l { next = set_next l.next obj null }) obj

-- `while (tmp->next != &obj) tmp = tmp->next; tmp->next = obj.next;`, then `obj.next = nullptr`.
pub remove_loop : ℕ → Links → (tmp obj : Ptr) → Run Links
remove_loop zero n tmp obj = out_of_fuel
remove_loop (suc k) n tmp obj = elim (tmp == null) [
  | true ↦ null_deref
  | false ↦ elim (n tmp == obj) [
    | true ↦ returns (set_next (set_next n tmp (n obj)) obj null)
    | false ↦ remove_loop k n (n tmp) obj
  ]
]

-- The destructor calls it too.
pub remove : ℕ → ObjList → Ptr → Run ObjList
remove fuel l obj =
    if l.head == null
    then returns l
    else if l.head == obj
    then returns (record { head = l.next obj; next = set_next l.next obj null })
    else with_head l.head (remove_loop fuel l.next l.head obj)

-- `for (uint8_t i = 0; (i < index) && (tmp != nullptr); i++) tmp = tmp->next;` with the rounds
-- `index - i` that are left; `i` stays below `index`, so `i++` does not wrap.
pub get_loop : ℕ → Links → Ptr → Ptr
get_loop zero n tmp = tmp
get_loop (suc k) n tmp = elim (tmp == null) [ true ↦ tmp | false ↦ get_loop k n (n tmp) ]

pub get : ObjList → ℕ → Ptr
get l index = get_loop index l.next l.head

-- `List::iterator`: the element and the one behind it.
pub record Iterator : Type 0 where
  pub ptr : Ptr
  pub next : Ptr

-- The constructor reads `next` ahead, so that the element may be removed meanwhile.
unfoldable pub iterator : Links → Ptr → Iterator
iterator n p = record { ptr = p; next = if p == null then null else n p }

pub increment : Links → Iterator → Iterator
increment n it = record { ptr = it.next; next = if it.next == null then it.next else n it.next }

-- `for (auto x : list) body(x)`: `begin()` starts it, `!= end()` tests it, `++` goes on.
pub for_loop : ℕ → (ObjList → Ptr → Run ObjList) → ObjList → Iterator → Run ObjList
for_loop zero body l it = out_of_fuel
for_loop (suc k) body l it = elim (it.ptr == null) [
  | true ↦ returns l
  | false ↦ elim (body l it.ptr) [
    | returns l' ↦ for_loop k body l' (increment l'.next it)
    | null_deref ↦ null_deref
    | out_of_fuel ↦ out_of_fuel
    | aborted ↦ aborted
  ]
]

pub for_each : ℕ → (ObjList → Ptr → Run ObjList) → ObjList → Run ObjList
for_each fuel body l = for_loop fuel body l (iterator l.next l.head)
