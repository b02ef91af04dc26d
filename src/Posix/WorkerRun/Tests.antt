-- ===== src/Posix/WorkerRun/Tests.antt =====
-- A worker with a periodic object and two event objects; the events 0 and 1 are registered.
use libdronecan.Prelude.{ℕ, ◌≡◌, refl, true, false, List, [], ◌∷◌, arith, ◌==◌, if◌then◌else◌, some}
use libdronecan.Pal.Links.{Ptr, returns, has}
use libdronecan.Pal.Worker.{periodic, event, Objects, Worker}
use libdronecan.Pal.Worker.Register.{IsWorker}
use libdronecan.Posix.Events.{EventState, op_signal, apply_ops}
use libdronecan.Posix.WorkerRun.{Round, round}
use libdronecan.Posix.WorkerRun.Laws.{Calls, signal-Calls, posted-Calls_all}

abbrev objs : Objects
objs a =
    if a == 3
    then record { next = 5; worker = 1; kind = periodic 50 100 }
    else if a == 5
    then record { next = 7; worker = 1; kind = event 1 false }
    else record { next = 0; worker = 1; kind = event 2 false }

abbrev three : List Ptr
three = 3 ∷ 5 ∷ 7 ∷ []

abbrev worker : Worker
worker = record { head = 3; objs = objs }

worker-IsWorker : IsWorker worker three
worker-IsWorker = record {
  chain = (refl, omega arith, (refl, omega arith, (refl, omega arith, refl)));
  distinct = (refl, (refl, (refl, tt)));
}

-- Nothing is posted, or event 0.
abbrev quiet : EventState
quiet = record { registered = 3; signalled = 0; cond_signalled = false }

abbrev posted : EventState
posted = record { registered = 3; signalled = 1; cond_signalled = false }

-- The clock stands at 95, and each call notes its object.
abbrev at_95 : List Ptr → ℕ × List Ptr
at_95 seen = (95, seen)

abbrev note : Ptr → List Ptr → List Ptr
note p seen = p ∷ seen

signal-Calls_example :
    (next : Round (List Ptr)) × (round at_95 note 4 worker quiet 0 []
        (record { ops = op_signal 2 ∷ []; timed_out = false; spurious = false } ∷ [])
        []
      ≡ returns (some next))
    × (next.events.signalled ≡ 0)
    × (ys : List Ptr) × Calls 95 at_95 note (λ seen. refl) 4 3 next ys
    × (has 7 ys ≡ true)
unfolding apply_ops
signal-Calls_example =
    signal-Calls 95 at_95 note (λ seen. refl) 4 worker three quiet 0 [] [] 7 2 false worker-IsWorker
      (omega arith) refl refl 2 [] [] (omega arith) (omega arith) refl refl refl refl

posted-Calls_all_example :
    (next : Round (List Ptr)) × (round at_95 note 4 worker posted 0 [] [] [] ≡ returns (some next))
    × (ys : List Ptr) × Calls 95 at_95 note (λ seen. refl) 4 3 next ys
    × (has 7 ys ≡ true)
unfolding apply_ops
posted-Calls_all_example =
    posted-Calls_all 95 at_95 note (λ seen. refl) 4 worker three posted 0 [] [] 7 2 false
      worker-IsWorker (omega arith) refl refl [] (omega arith) refl refl
