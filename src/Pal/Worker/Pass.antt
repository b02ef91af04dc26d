-- ===== src/Pal/Worker/Pass.antt =====
-- One round of `Worker::run` of DC_PAL/Worker.cpp over the worker's objects.
use mathlib.Core.List.{foldl}
use libdronecan.Prelude.{
  ℕ, zero, suc, ◌<◌, ◌≡◌, ◌≢◌, refl, ◌∙◌, ap, Bool, true, false, ◌||◌, List, [], ◌∷◌, length, arith,
  ◌==◌, ==_ne, if◌then◌else◌, Bool-cases, inl, inr, ==_self,
}
use libdronecan.Pal.Links.{Ptr, null, returns, has, Distinct, Chain, Chain-same}
use libdronecan.Pal.Worker.{
  Kind, periodic, event, Objects, put, links_of, periodic_due, after_time, event_due, run_time,
  run_event, pass_walk,
}

-- The objects whose functions a round at the time `t` with the events `mask` calls, in order.
unfoldable pub due_list : ℕ → ℕ → Objects → List Ptr → List Ptr
due_list t mask objs [] = []
due_list t mask objs (x ∷ xs) =
    if periodic_due t (objs x).kind || event_due mask (objs x).kind
    then x ∷ due_list t mask objs xs
    else due_list t mask objs xs

due_list-same :
    (t mask : ℕ) (objs objs' : Objects) (xs : List Ptr)
    → ((a : Ptr) → has a xs ≡ true → objs' a ≡ objs a)
    → due_list t mask objs' xs ≡ due_list t mask objs xs
unfolding due_list
due_list-same t mask objs objs' [] same = refl
due_list-same t mask objs objs' (x ∷ xs) same =
    rw (same x (ground arith), due_list-same t mask objs objs' xs (λ a h. same a (ground arith)))

-- What a round at the time `t` leaves of the object `x`.
abbrev after : ℕ → Objects → Ptr → Objects
after t objs x =
    if periodic_due t (objs x).kind
    then put objs x (record (objs x) { kind = after_time t t (objs x).kind })
    else objs

-- A round changes no link, and the kind of `x` alone.
next-after : (t : ℕ) (objs : Objects) (x a : Ptr) → (after t objs x a).next ≡ (objs a).next
next-after t objs x a = ground arith

idle : (t : ℕ) (k : Kind) → periodic_due t k ≡ false → after_time t t k ≡ k
unfolding periodic_due after_time
idle t (periodic p u) h = ground arith
idle t (event m any) h = refl

kind-after :
    (t : ℕ) (objs : Objects) (x a : Ptr)
    → (after t objs x a).kind ≡ (if a == x then after_time t t (objs a).kind else (objs a).kind)
kind-after t objs x a = ground (arith, idle t (objs a).kind)

event_due-after_time :
    (t mask : ℕ) (k : Kind) → event_due mask (after_time t t k) ≡ event_due mask k
unfolding event_due after_time
event_due-after_time t mask (periodic p u) = ground arith
event_due-after_time t mask (event m any) = refl

not_both : (t mask : ℕ) (k : Kind) → periodic_due t k ≡ true → event_due mask k ≡ false
unfolding event_due periodic_due
not_both t mask (periodic p u) h = refl
not_both t mask (event m any) h = cc

after_ne : (t : ℕ) (objs : Objects) (x a : Ptr) → a ≢ x → after t objs x a ≡ objs a
after_ne t objs x a h = ground arith

foldl_if {ℓ} :
    {E : Type ℓ} (f : E → Ptr → E) (env : E) (x : Ptr) (l : List Ptr) (b : Bool)
    → foldl f (if b then f env x else env) l ≡ foldl f env (if b then x ∷ l else l)
foldl_if f env x l true = refl
foldl_if f env x l false = refl

module _ {E : Type 0} (t : ℕ) (micros64 : E → ℕ × E) (invoke : Ptr → E → E)
    (still : (env : E) → micros64 env ≡ (t, env)) where
  run_time-after :
      (objs : Objects) (x : Ptr) (env : E)
      → run_time micros64 invoke objs x env
        ≡ (after t objs x, (if periodic_due t (objs x).kind then invoke x env else env))
  unfolding run_time
  run_time-after objs x env = elim (Bool-cases (periodic_due t (objs x).kind)) [
    | inl due ↦ rw (still env, due, still (invoke x env))
    | inr not_due ↦ rw (still env, not_due)
  ]

  -- Of the two calls that an object gets in a round at most one runs its function.
  run_event-after :
      (mask : ℕ) (objs : Objects) (x : Ptr) (env : E)
      → run_event micros64 invoke mask
          (after t objs x)
          x
          (if periodic_due t (objs x).kind then invoke x env else env)
        ≡ (if periodic_due t (objs x).kind || event_due mask (objs x).kind
            then invoke x env
            else env)
  unfolding run_event
  run_event-after mask objs x env =
      let same : event_due mask (after t objs x x).kind ≡ event_due mask (objs x).kind =
        ap (event_due mask) (kind-after t objs x x ∙ (rw (==_self x)))
        ∙ event_due-after_time t mask (objs x).kind in
      rw same (ground (arith, not_both t mask (objs x).kind))

  pass_walk-stop :
      (k mask : ℕ) (objs : Objects) (env : E)
      → pass_walk micros64 invoke (suc k) mask objs null env ≡ returns (objs, env)
  unfolding pass_walk
  pass_walk-stop k mask objs env = refl

  pass_walk-step :
      (k mask : ℕ) (objs : Objects) (x : Ptr) (env : E)
      → x ≢ null
      → pass_walk micros64 invoke (suc k) mask objs x env
        ≡ pass_walk micros64 invoke k mask (after t objs x) (objs x).next (
            if periodic_due t (objs x).kind || event_due mask (objs x).kind
            then invoke x env
            else env)
  unfolding pass_walk
  pass_walk-step k mask objs x env h =
      rw
        (
          ==_ne x null h,
          run_time-after objs x env,
          run_event-after mask objs x env,
          next-after t objs x x,
          pass_walk,
        )
        refl

  -- While the clock stands still, a round over a chain of distinct objects, given more rounds
  -- than there are objects, calls the functions of exactly those that are due, each once, in the
  -- order of registration. It starts the periods of the periodic ones anew, and leaves the other
  -- objects and all links as they were.
  pub pass_walk-due :
      (k mask : ℕ) (objs : Objects) (p : Ptr) (env : E) (xs : List Ptr)
      → Chain (links_of objs) p xs
      → Distinct xs
      → length xs < k
      → (objs' : Objects) × (pass_walk micros64 invoke k mask objs p env
          ≡ returns (objs', foldl (λ e a. invoke a e) env (due_list t mask objs xs)))
        × ((a : Ptr)
            → (objs' a).kind ≡ (if has a xs then after_time t t (objs a).kind else (objs a).kind))
        × ((a : Ptr) → (objs' a).next ≡ (objs a).next)
  unfolding due_list
  pass_walk-due zero mask objs p env xs c d fuel = absurd (omega arith)
  pass_walk-due (suc k) mask objs p env [] c d fuel = (
    objs,
    ap (λ q. pass_walk micros64 invoke (suc k) mask objs q env) c ∙ pass_walk-stop k mask objs env,
    λ a. refl,
    λ a. refl,
  )
  pass_walk-due (suc k) mask objs p env (x ∷ xs) c d fuel =
      let objs1 = after t objs x in
      let env1 =
        if periodic_due t (objs x).kind || event_due mask (objs x).kind
        then invoke x env
        else env in
      let (objs', result, kinds, nexts) =
        pass_walk-due k mask objs1 (objs x).next env1 xs
          (Chain-same (links_of objs) (links_of objs1) (objs x).next xs
            (λ a h. next-after t objs x a) c.2)
          d.1 (omega arith) in
      (
        objs',
        ap (λ q. pass_walk micros64 invoke (suc k) mask objs q env) c.0
            ∙ pass_walk-step k mask objs x env c.1
            ∙ result
            ∙ ap (λ e. returns (objs', e))
                (ap (λ l. foldl (λ e a. invoke a e) env1 l)
                    (due_list-same t mask objs objs1 xs
                      (λ a h. after_ne t objs x a (ground (arith, d.0))))
                  ∙ foldl_if (λ e a. invoke a e) env x (due_list t mask objs xs)
                      (periodic_due t (objs x).kind || event_due mask (objs x).kind)),
        λ a. kinds a ∙ (rw (kind-after t objs x a) (ground (arith, d.0))),
        λ a. nexts a ∙ next-after t objs x a,
      )
