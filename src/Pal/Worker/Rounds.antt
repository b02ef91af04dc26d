-- ===== src/Pal/Worker/Rounds.antt =====
-- Many rounds of `Worker::run` (DC_PAL/Worker.cpp): how often a periodic object is called.
use mathlib.Core.List.{foldl, foldl-append}
use libdronecan.Prelude.{
  ℕ, ◌+◌, ◌*◌, ◌%◌, ◌≤◌, ◌<◌, ◌≡◌, refl, sym, ◌∙◌, ap, true, false, ◌||◌, List, [], ◌∷◌, ◌++◌,
  length, arith, ◌==◌, leb, if◌then◌else◌, dec_le, ℕ_discrete,
}
use libdronecan.Pal.Links.{Ptr, Run, returns, and_then, has, Distinct, Chain, Chain-same}
use libdronecan.Pal.Worker.{
  periodic, Objects, Worker, links_of, periodic_due, after_time, event_due, restart, pass_walk,
  u64_mod,
}
use libdronecan.Pal.Worker.Register.{IsWorker}
use libdronecan.Pal.Worker.Pass.{due_list, pass_walk-due}

-- The time of a pass, and the events that it hands to the objects.
abbrev pub Pass : Type 0
Pass = ℕ × ℕ

-- The passes of the worker over its objects, one after the other; what it waits for between them
-- shows in their times.
pub passes : {E : Type 0} → (Ptr → E → E) → ℕ → List Pass → Objects → Ptr → E → Run (Objects × E)
passes invoke fuel [] objs head env = returns (objs, env)
passes invoke fuel ((t, mask) ∷ ps) objs head env =
    and_then (pass_walk (λ env'. (t, env')) invoke fuel mask objs head env)
      λ r. passes invoke fuel ps r.0 head r.1

abbrev pub count : Ptr → List Ptr → ℕ
count a [] = 0
count a (x ∷ xs) = (if x == a then 1 else 0) + count a xs

-- Passes that follow each other within `gap`, the first of them the time `before`; a period that
-- starts with them does not reach the end of the clock.
abbrev pub Spaced : (gap period before : ℕ) → List Pass → Type 0
Spaced gap period before [] = Unit
Spaced gap period before ((t, mask) ∷ ps) =
    (before ≤ t) × (t ≤ before + gap) × (period + t < u64_mod) × Spaced gap period t ps

abbrev pub last_time : ℕ → List Pass → ℕ
last_time before [] = before
last_time before ((t, mask) ∷ ps) = last_time t ps

count-append : (a : Ptr) (xs ys : List Ptr) → count a (xs ++ ys) ≡ count a xs + count a ys
count-append a [] ys = omega arith
count-append a (x ∷ xs) ys = omega (arith, count-append a xs ys)

count-absent :
    (a : Ptr) (t mask : ℕ) (objs : Objects) (xs : List Ptr)
    → has a xs ≡ false
    → count a (due_list t mask objs xs) ≡ 0
unfolding due_list
count-absent a t mask objs [] out = refl
count-absent a t mask objs (x ∷ xs) out = ground (arith, count-absent a t mask objs xs)

is_due :
    (t mask p u : ℕ) → (periodic_due t (periodic p u) || event_due mask (periodic p u)) ≡ leb u t
unfolding periodic_due event_due
is_due t mask p u = ground arith

-- One pass calls a periodic object once if its time has come.
count-due_list :
    (a : Ptr) (t mask p u : ℕ) (objs : Objects) (xs : List Ptr)
    → Distinct xs
    → has a xs ≡ true
    → (objs a).kind ≡ periodic p u
    → count a (due_list t mask objs xs) ≡ (if leb u t then 1 else 0)
unfolding due_list
count-due_list a t mask p u objs [] d inside e = ground arith
count-due_list a t mask p u objs (x ∷ xs) d inside e = elim (ℕ_discrete a x) [
  | yes here ↦
      let due : (periodic_due t (objs x).kind || event_due mask (objs x).kind) ≡ leb u t =
        rw (sym here) (rw e (is_due t mask p u)) in
      let once : count a (due_list t mask objs xs) ≡ 0 =
        count-absent a t mask objs xs (rw here d.0) in
      rw due (ground (arith, once, here))
  | no other ↦ ground (arith, count-due_list a t mask p u objs xs d.1)
]

one_more : (c n : ℕ) → (1 + c) * n ≡ n + c * n
one_more c n = omega arith

restarted :
    (t p u : ℕ) → u ≤ t → p + t < u64_mod → after_time t t (periodic p u) ≡ periodic p (t + p)
unfolding after_time
restarted t p u come fits =
    let same : (p + t) % u64_mod ≡ t + p = omega arith in ground (arith, same)

untouched : (t p u : ℕ) → t < u → after_time t t (periodic p u) ≡ periodic p u
unfolding after_time
untouched t p u early = ground arith

module _ {E : Type 0} (invoke : Ptr → E → E) (fuel gap period : ℕ) (head a : Ptr) where
  -- The calls of one pass and of those behind it.
  passes-cons :
      (t mask : ℕ) (ps : List Pass) (objs objs1 objs2 : Objects) (env : E) (ys1 ys2 : List Ptr)
      → pass_walk (λ env'. (t, env')) invoke fuel mask objs head env
        ≡ returns (objs1, foldl (λ e x. invoke x e) env ys1)
      → passes invoke fuel ps objs1 head (foldl (λ e x. invoke x e) env ys1)
        ≡ returns (objs2, foldl (λ e x. invoke x e) (foldl (λ e x. invoke x e) env ys1) ys2)
      → passes invoke fuel ((t, mask) ∷ ps) objs head env
        ≡ returns (objs2, foldl (λ e x. invoke x e) env (ys1 ++ ys2))
  unfolding passes
  passes-cons t mask ps objs objs1 objs2 env ys1 ys2 once others =
      ap (λ r. and_then r (λ q. passes invoke fuel ps q.0 head q.1)) once
      ∙ others
      ∙ ap (λ e. returns (objs2, e)) (sym (foldl-append (λ e x. invoke x e) env ys1 ys2))

  passes-count :
      (ps : List Pass) (objs : Objects) (env : E) (xs : List Ptr) (before u : ℕ)
      → Chain (links_of objs) head xs
      → Distinct xs
      → has a xs ≡ true
      → length xs < fuel
      → (objs a).kind ≡ periodic period u
      → 0 < period
      → before < u
      → u ≤ before + period
      → Spaced gap period before ps
      → (objs' : Objects) × (ys : List Ptr) × (passes invoke fuel ps objs head env
          ≡ returns (objs', foldl (λ e x. invoke x e) env ys))
        × (count a ys * period + u ≤ last_time before ps + period)
        × (last_time before ps < u + count a ys * (period + gap))
  unfolding passes
  passes-count [] objs env xs before u c d inside enough e pos lt le sp =
      (objs, [], refl, omega arith, omega arith)
  passes-count ((t, mask) ∷ ps) objs env xs before u c d inside enough e pos lt le sp =
      let (objs1, once, kinds, nexts) =
        pass_walk-due t (λ env'. (t, env')) invoke (λ env'. refl) fuel mask objs head env xs c d
          enough in
      let ys1 = due_list t mask objs xs in
      let c1 : Chain (links_of objs1) head xs =
        Chain-same (links_of objs) (links_of objs1) head xs (λ b h. nexts b) c in
      let kind1 : (objs1 a).kind ≡ after_time t t (periodic period u) =
        kinds a ∙ rw (inside, e) refl in
      let calls = count-due_list a t mask period u objs xs d inside e in
      elim (dec_le u t) [
        | yes come ↦
            let (objs2, ys2, others, most, least) =
              passes-count ps objs1 (foldl (λ e' x. invoke x e') env ys1) xs t (t + period) c1 d
                inside enough (kind1 ∙ restarted t period u come sp.2) pos (omega arith)
                (omega arith) sp.3 in
            let n : count a (ys1 ++ ys2) ≡ 1 + count a ys2 =
              ground (arith, count-append a ys1 ys2, calls) in
            (
              objs2,
              ys1 ++ ys2,
              passes-cons t mask ps objs objs1 objs2 env ys1 ys2 once others,
              rw n (omega (arith, most, one_more (count a ys2) period)),
              rw n (omega (arith, least, one_more (count a ys2) (period + gap))),
            )
        | no early ↦
            let (objs2, ys2, others, most, least) =
              passes-count ps objs1 (foldl (λ e' x. invoke x e') env ys1) xs t u c1 d inside enough
                (kind1 ∙ untouched t period u (omega arith)) pos (omega arith) (omega arith) sp.3 in
            let n : count a (ys1 ++ ys2) ≡ count a ys2 =
              ground (arith, count-append a ys1 ys2, calls) in
            (
              objs2,
              ys1 ++ ys2,
              passes-cons t mask ps objs objs1 objs2 env ys1 ys2 once others,
              rw n most,
              rw n least,
            )
      ]

-- An object that starts its period at the time `start` is called, by passes that follow each
-- other within `gap`, at most once in each period and at least once in each period and gap: the
-- calls times the period are no more than the time from `start` to the last pass, and that time
-- is less than a period and the calls times the period and the gap. Each pass comes to its end.
-- The object is one of the worker's, its period is not 0, the clock stands still during a pass,
-- does not go back and does not wrap around, and the rounds of a pass are more than the objects.
pub passes-rate :
    {E : Type 0} (invoke : Ptr → E → E) (fuel gap period start u : ℕ) (w : Worker) (a : Ptr)
    (xs : List Ptr) (ps : List Pass) (env : E)
    → IsWorker w xs
    → has a xs ≡ true
    → length xs < fuel
    → (w.objs a).kind ≡ restart start (periodic period u)
    → 0 < period
    → period + start < u64_mod
    → Spaced gap period start ps
    → (objs' : Objects) × (calls : List Ptr) × (passes invoke fuel ps w.objs w.head env
        ≡ returns (objs', foldl (λ e x. invoke x e) env calls))
      × (count a calls * period + start ≤ last_time start ps)
      × (last_time start ps < start + period + count a calls * (period + gap))
unfolding restart
passes-rate invoke fuel gap period start u w a xs ps env is inside enough e pos fits sp =
    let armed : (period + start) % u64_mod ≡ start + period = omega arith in
    let (objs', calls, ran, most, least) =
      passes-count invoke fuel gap period w.head a ps w.objs env xs start (start + period) is.chain
        is.distinct inside enough (e ∙ ap (periodic period) armed) pos (omega arith) (omega arith)
        sp in
    (objs', calls, ran, omega (arith, most), least)
