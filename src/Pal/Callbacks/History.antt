-- ===== src/Pal/Callbacks/History.antt =====
-- DC_PAL/Callbacks.h as the set that its users see: what any sequence of registrations and
-- unregistrations leaves for `call_all`.
use mathlib.Core.List.{foldl}
use libdronecan.Prelude.{
  ℕ, ◌+◌, ◌≤◌, ◌<◌, ◌≡◌, ◌≢◌, refl, ap, ◌∙◌, Bool, false, not, ◌&&◌, ◌||◌, List, [], ◌∷◌, ◌++◌,
  length, arith, ◌==◌, if◌then◌else◌, ℕ_discrete, length-append, Bool-cases, inl, inr,
}
use libdronecan.Pal.Links.{
  Ptr, null, Links, Run, returns, and_then, has, Distinct, erase, has-append, Distinct-erase,
  Distinct-snoc,
}
use libdronecan.Pal.Callbacks.{register_cb, unregister_cb, call_all}
use libdronecan.Pal.Callbacks.Laws.{Registered, register_cb-Registered, unregister_cb-Registered}
use libdronecan.Pal.Callbacks.CallAll.{call_all-foldl}

pub data Change : Type 0 where
  registers : Ptr → Change
  unregisters : Ptr → Change

abbrev pub subject : Change → Ptr
subject (registers cb) = cb
subject (unregisters cb) = cb

pub apply_change : ℕ → Ptr → Change → Links → Run Links
apply_change fuel this (registers cb) n = register_cb fuel n this cb
apply_change fuel this (unregisters cb) n = unregister_cb fuel n this cb

-- The calls on the callbacks of `this`, one after the other.
pub apply_changes : ℕ → Ptr → List Change → Links → Run Links
apply_changes fuel this [] n = returns n
apply_changes fuel this (op ∷ ops) n =
    and_then (apply_change fuel this op n) (apply_changes fuel this ops)

-- The abstract view: a list without repetitions, in the order of registration.
abbrev pub order_step : List Ptr → Change → List Ptr
order_step xs (registers cb) = if has cb xs then xs else xs ++ (cb ∷ [])
order_step xs (unregisters cb) = erase cb xs

abbrev pub order : List Change → List Ptr
order ops = foldl order_step [] ops

-- Whether the last call that names `a` registers it.
abbrev pub is_in : Ptr → Bool → List Change → Bool
is_in a before [] = before
is_in a before (registers cb ∷ ops) = is_in a (before || (a == cb)) ops
is_in a before (unregisters cb ∷ ops) = is_in a (before && not (a == cb)) ops

abbrev pub AllCallbacks : Ptr → List Change → Type 0
AllCallbacks this [] = Unit
AllCallbacks this (op ∷ ops) = (subject op ≢ null) × (subject op ≢ this) × AllCallbacks this ops

has-erase_exact :
    (a cb : Ptr) (xs : List Ptr) → Distinct xs → has a (erase cb xs) ≡ (has a xs && not (a == cb))
has-erase_exact a cb [] d = refl
has-erase_exact a cb (x ∷ xs) d = elim (ℕ_discrete a cb) [
  | yes e ↦ rw e (elim (ℕ_discrete cb x) [
    | yes hit ↦ rw hit (ground (arith, d.0))
    | no other ↦ ground (arith, has-erase_exact cb cb xs d.1)
  ])
  | no ne ↦ ground (arith, has-erase_exact a cb xs d.1)
]

has-order_step :
    (a : Ptr) (xs : List Ptr) (op : Change)
    → Distinct xs
    → has a (order_step xs op) ≡ is_in a (has a xs) (op ∷ [])
has-order_step a xs (registers cb) d = elim (ℕ_discrete a cb) [
  | yes e ↦ rw e (ground (arith, has-append cb xs (cb ∷ [])))
  | no ne ↦ ground (arith, has-append a xs (cb ∷ []))
]
has-order_step a xs (unregisters cb) d = has-erase_exact a cb xs d

length-erase : (cb : Ptr) (xs : List Ptr) → length (erase cb xs) ≤ length xs
length-erase cb [] = omega arith
length-erase cb (x ∷ xs) = ground (arith, length-erase cb xs)

length-order_step : (xs : List Ptr) (op : Change) → length (order_step xs op) ≤ length xs + 1
length-order_step xs (registers cb) = ground (arith, length-append xs (cb ∷ []))
length-order_step xs (unregisters cb) = omega (arith, length-erase cb xs)

apply_change-order_step :
    (fuel : ℕ) (n : Links) (this : Ptr) (op : Change) (xs : List Ptr)
    → Registered n this xs
    → subject op ≢ null
    → subject op ≢ this
    → length xs < fuel
    → (n' : Links) × (apply_change fuel this op n ≡ returns n')
      × Registered n' this (order_step xs op)
unfolding apply_change
apply_change-order_step fuel n this (registers cb) xs r on ne enough =
    register_cb-Registered fuel n this cb xs r on ne enough
apply_change-order_step fuel n this (unregisters cb) xs r on ne enough =
    unregister_cb-Registered fuel n this cb xs r on enough

apply_changes-order :
    (fuel : ℕ) (n : Links) (this : Ptr) (ops : List Change) (xs : List Ptr)
    → Registered n this xs
    → AllCallbacks this ops
    → length xs + length ops < fuel
    → (n' : Links) × (apply_changes fuel this ops n ≡ returns n')
      × Registered n' this (foldl order_step xs ops)
unfolding apply_changes
apply_changes-order fuel n this [] xs r valid enough = (n, refl, r)
apply_changes-order fuel n this (op ∷ ops) xs r valid enough =
    let (n1, once, r1) =
      apply_change-order_step fuel n this op xs r valid.0 valid.1 (omega arith) in
    let (n2, others, r2) =
      apply_changes-order fuel n1 this ops (order_step xs op) r1 valid.2
        (omega (arith, length-order_step xs op)) in
    (n2, rw once others, r2)

Distinct-order_step : (xs : List Ptr) (op : Change) → Distinct xs → Distinct (order_step xs op)
Distinct-order_step xs (unregisters cb) d = Distinct-erase cb xs d
Distinct-order_step xs (registers cb) d = elim (Bool-cases (has cb xs)) [
  | inl inside ↦ rw inside d
  | inr out ↦ rw out (Distinct-snoc xs cb d out)
]

is_in-cons :
    (a : Ptr) (before : Bool) (op : Change) (ops : List Change)
    → is_in a (is_in a before (op ∷ [])) ops ≡ is_in a before (op ∷ ops)
is_in-cons a before (registers cb) ops = refl
is_in-cons a before (unregisters cb) ops = refl

has-foldl :
    (a : Ptr) (ops : List Change) (xs : List Ptr)
    → Distinct xs
    → has a (foldl order_step xs ops) ≡ is_in a (has a xs) ops
has-foldl a [] xs d = refl
has-foldl a (op ∷ ops) xs d =
    has-foldl a ops (order_step xs op) (Distinct-order_step xs op d)
    ∙ ap (λ b. is_in a b ops) (has-order_step a xs op d)
    ∙ is_in-cons a (has a xs) op ops

-- Callbacks that keep the links do their part of the program's state.
abbrev pub keeping : {E : Type 0} → (Ptr → E → E) → Ptr → Links × E → Links × E
keeping call p (n, env) = (n, call p env)

foldl-keeping :
    {E : Type 0} (call : Ptr → E → E) (n : Links) (xs : List Ptr) (env : E)
    → foldl (λ s cb. keeping call cb s) (n, env) xs ≡ (n, foldl (λ e cb. call cb e) env xs)
foldl-keeping call n [] env = refl
foldl-keeping call n (x ∷ xs) env = foldl-keeping call n xs (call x env)

length-order :
    (ops : List Change) (xs : List Ptr) → length (foldl order_step xs ops) ≤ length xs + length ops
length-order [] xs = omega arith
length-order (op ∷ ops) xs =
    omega (arith, length-order ops (order_step xs op), length-order_step xs op)

-- After any sequence of registrations and unregistrations on an object without callbacks,
-- `call_all` calls exactly those callbacks whose last operation registered them, each once; they
-- are called in the order of registration. No callback is null or the owner, the callbacks do not
-- change the list, and each loop is given more rounds than there are operations.
pub call_all-order :
    {E : Type 0} (call : Ptr → E → E) (fuel : ℕ) (n : Links) (this : Ptr) (ops : List Change)
    (env : E)
    → this ≢ null
    → n this ≡ null
    → AllCallbacks this ops
    → length ops < fuel
    → (n' : Links) × (apply_changes fuel this ops n ≡ returns n')
      × (call_all (λ s. s.0) (keeping call) fuel this (n', env)
          ≡ returns (n', foldl (λ e cb. call cb e) env (order ops)))
      × Distinct (order ops)
      × ((a : Ptr) → has a (order ops) ≡ is_in a false ops)
call_all-order call fuel n this ops env there empty valid enough =
    let start : Registered n this [] = record {
      chain = empty;
      distinct = (refl, tt);
      this_ne = there;
    } in
    let (n', done, r) = apply_changes-order fuel n this ops [] start valid (omega arith) in
    (
      n',
      done,
      call_all-foldl (λ s. s.0) (keeping call) (λ p s. refl) fuel this (n', env) (order ops) r
            (omega (arith, length-order ops []))
          ∙ ap returns (foldl-keeping call n' (order ops) env),
      r.distinct.1,
      λ a. has-foldl a ops [] tt,
    )
