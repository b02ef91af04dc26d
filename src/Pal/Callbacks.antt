-- ===== src/Pal/Callbacks.antt =====
-- DC_PAL/Callbacks.h: a callback object is also the head of a list of other callbacks, which
-- hang on its `next` member.
pub mod Laws
pub mod CallAll
pub mod History
use libdronecan.Prelude.{ℕ, zero, suc, Bool, true, false, List, [], ◌∷◌, ◌==◌, if◌then◌else◌}
use libdronecan.Pal.Links.{Ptr, null, Links, set_next, Run, returns, null_deref, out_of_fuel}

-- `while (next_cb->next != nullptr) { ... }`, then the two writes behind the last callback.
unfoldable pub register_loop : ℕ → Links → (next_cb cb : Ptr) → Run Links
register_loop zero n next_cb cb = out_of_fuel
register_loop (suc k) n next_cb cb = elim (n next_cb == null) [
  | true ↦ returns (set_next (set_next n next_cb cb) cb null)
  | false ↦ elim (n next_cb == cb) [ true ↦ returns n | false ↦ register_loop k n (n next_cb) cb ]
]

-- It returns true on every path, so the result is left out.
unfoldable pub register_cb : ℕ → Links → (this cb : Ptr) → Run Links
register_cb fuel n this cb = if n this == cb then returns n else register_loop fuel n this cb

pub unregister_loop : ℕ → Links → (next_cb cb : Ptr) → Run Links
unregister_loop zero n next_cb cb = out_of_fuel
unregister_loop (suc k) n next_cb cb = elim (n next_cb == null) [
  | true ↦ returns n
  | false ↦ elim (n next_cb == cb) [
    | true ↦ returns (set_next n next_cb (n (n next_cb)))
    | false ↦ unregister_loop k n (n next_cb) cb
  ]
]

pub unregister_cb : ℕ → Links → (this cb : Ptr) → Run Links
unregister_cb fuel n this cb =
    if n this == cb then returns (set_next n this (n (n this))) else unregister_loop fuel n this cb

unfoldable pub get_next : Links → Ptr → Ptr
get_next n this = n this

-- `links` reads the `next` members out of the program's state, and `call` is what the
-- `operator()` of a callback does to that state.
module _ {S : Type 0} (links : S → Links) (call : Ptr → S → S) where
  pub call_loop : ℕ → Ptr → S → Run S
  call_loop zero next_cb s = out_of_fuel
  call_loop (suc k) next_cb s = elim (next_cb == null) [
    | true ↦ returns s
    | false ↦ let s' = call next_cb s in call_loop k (links s' next_cb) s'
  ]

  pub call_all : ℕ → Ptr → S → Run S
  call_all fuel this s = call_loop fuel (links s this) s

-- `ObjCallbackFunc::operator()`: the method runs on the object if there is one.
pub obj_callback : {S : Type 0} → (method : Ptr → S → S) → (obj : Ptr) → S → S
obj_callback method obj s = if obj == null then s else method obj s
