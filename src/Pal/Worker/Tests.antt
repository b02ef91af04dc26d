-- ===== src/Pal/Worker/Tests.antt =====
-- Runs of a worker with a periodic object, an event object and another periodic one.
use libdronecan.Prelude.{ℕ, ◌≡◌, ◌⊎◌, refl, true, List, [], ◌∷◌, arith, ◌==◌, if◌then◌else◌}
use libdronecan.Pal.Links.{Ptr, returns, out_of_fuel, has}
use libdronecan.Pal.Worker.{
  periodic, event, Objects, Worker, register_worker, unregister_worker, get_next_trigger_us,
  pass_walk, after_time, restart, periodic_due, event_due,
}
use libdronecan.Pal.Worker.Register.{IsWorker, register_worker-snoc}
use libdronecan.Pal.Worker.Unregister.{unregister_later_spins}
use libdronecan.Pal.Worker.Trigger.{
  kinds_of, NotBefore, DueAt, NoPeriodic, get_next_trigger_us-earliest,
}
use libdronecan.Pal.Worker.Pass.{due_list, pass_walk-due}
use mathlib.Core.List.{foldl}
use libdronecan.Prelude.{◌+◌, ◌*◌, ◌≤◌, ◌<◌}
use libdronecan.Pal.Worker.Rounds.{passes, count, last_time, passes-rate}
use libdronecan.Pal.Worker.Cycle.{register_again_spins}

-- 3 is due at 100, 5 waits for event 0, 7 is due at 90; 9 is registered nowhere.
abbrev objs : Objects
objs a =
    if a == 3
    then record { next = 5; worker = 1; kind = periodic 50 100 }
    else if a == 5
    then record { next = 7; worker = 1; kind = event 1 true }
    else if a == 7
    then record { next = 0; worker = 1; kind = periodic 20 90 }
    else record { next = 0; worker = 0; kind = periodic 10 0 }

abbrev three : List Ptr
three = 3 ∷ 5 ∷ 7 ∷ []

abbrev worker : Worker
worker = record { head = 3; objs = objs }

worker-IsWorker : IsWorker worker three
worker-IsWorker = record {
  chain = (refl, omega arith, (refl, omega arith, (refl, omega arith, refl)));
  distinct = (refl, (refl, (refl, tt)));
}

register_worker-snoc_example :
    (w' : Worker) × (register_worker 3 95 1 worker 9 ≡ returns w')
    × IsWorker w' (3 ∷ 5 ∷ 7 ∷ 9 ∷ [])
    × ((w'.objs 9).worker ≡ 1)
    × ((w'.objs 9).kind ≡ periodic 10 105)
unfolding restart
register_worker-snoc_example =
    register_worker-snoc 3 95 1 worker 9 three worker-IsWorker (omega arith) refl refl (omega arith)

unregister_later_spins_example : unregister_worker 1000 95 worker 7 ≡ out_of_fuel
unregister_later_spins_example =
    unregister_later_spins 1000 95 worker 3 7 (5 ∷ 7 ∷ []) worker-IsWorker (omega arith)
      (omega arith)

get_next_trigger_us-earliest_example :
    (r : ℕ) × (get_next_trigger_us 4 worker ≡ returns r)
    × NotBefore r (kinds_of objs three)
    × ((NoPeriodic (kinds_of objs three) × (r ≡ 0)) ⊎ DueAt r (kinds_of objs three))
get_next_trigger_us-earliest_example =
    get_next_trigger_us-earliest 4 worker three worker-IsWorker (omega arith, (omega arith, tt))
      (omega arith)

register_again_spins_example :
    (w1 w2 : Worker) × (unregister_worker 3 95 worker 3 ≡ returns w1)
    × (register_worker 3 96 1 w1 3 ≡ returns w2)
    × (get_next_trigger_us 1000 w2 ≡ out_of_fuel)
register_again_spins_example =
    register_again_spins 3 95 96 1000 1 worker 3 5 (7 ∷ []) worker-IsWorker (omega arith)

-- The clock stands at 95, and each call notes its object.
abbrev at_95 : List Ptr → ℕ × List Ptr
at_95 seen = (95, seen)

abbrev note : Ptr → List Ptr → List Ptr
note p seen = p ∷ seen

pass_walk-due_example :
    (objs' : Objects) × (pass_walk at_95 note 4 1 objs 3 [] ≡ returns (objs', 7 ∷ 5 ∷ []))
    × ((a : Ptr)
        → (objs' a).kind ≡ (if has a three then after_time 95 95 (objs a).kind else (objs a).kind))
    × ((a : Ptr) → (objs' a).next ≡ (objs a).next)
unfolding due_list periodic_due event_due
pass_walk-due_example =
    pass_walk-due 95 at_95 note (λ seen. refl) 4 1 objs 3 [] three worker-IsWorker.chain
      worker-IsWorker.distinct (omega arith)

-- 3 started its period at 50; the passes are at 60, 110, 130 and 170.
abbrev four_passes : List (ℕ × ℕ)
four_passes = (60, 0) ∷ (110, 1) ∷ (130, 0) ∷ (170, 0) ∷ []

passes-rate_example :
    (objs' : Objects) × (calls : List Ptr) × (passes note 4 four_passes objs 3 []
      ≡ returns (objs', foldl (λ e x. note x e) [] calls))
    × (count 3 calls * 50 + 50 ≤ last_time 50 four_passes)
    × (last_time 50 four_passes < 50 + 50 + count 3 calls * (50 + 50))
unfolding restart
passes-rate_example =
    passes-rate note 4 50 50 50 0 worker 3 three four_passes [] worker-IsWorker refl (omega arith)
      refl (omega arith) (omega arith)
      (
        omega arith,
        omega arith,
        omega arith,
        (
          omega arith,
          omega arith,
          omega arith,
          (omega arith, omega arith, omega arith, (omega arith, omega arith, omega arith, tt)),
        ),
      )
