-- ===== src/Posix/WorkerRun.antt =====
-- `Worker::run` of DC_PAL/Worker.cpp on a thread of DC_PAL_Posix/Threads.cpp: one round calls the
-- objects, then waits for the events of the thread. What other threads do to the events until the
-- worker waits is the list `meanwhile`, and what they do while it waits the schedule `ws`.
pub mod Laws
mod Tests
use libdronecan.Prelude.{ℕ, Bool, true, List, [], ◌∷◌, Option, none, some}
use libdronecan.Pal.Links.{Ptr, Run, returns, null_deref, out_of_fuel, aborted, and_then}
use libdronecan.Pal.Worker.{Objects, Worker, get_next_trigger_us, pass_walk, plan}
use libdronecan.Posix.Events.{
  EventState, Op, apply_ops, Wake, Waited, wait_any, register_evt, signal,
}

-- What a round leaves to the next: the objects, the events, `evt_msk`, and the environment.
pub record Round (E : Type 0) : Type 0 where
  pub objs : Objects
  pub events : EventState
  pub evt_msk : ℕ
  pub env : E

-- The end of a round; `none`: the worker still waits.
abbrev pub after_wait : {E : Type 0} → Objects → E → Option Waited → Option (Round E)
after_wait objs env none = none
after_wait objs env (some w) =
    some (record { objs = objs; events = w.state; evt_msk = w.evt_mask; env = env })

module _ {E : Type 0} (micros64 : E → ℕ × E) (invoke : Ptr → E → E) where
  -- The wait at the end of a round; the timeout shows in the schedule alone.
  pub wait_round : Objects → EventState → List Wake → (next_trigger_us : ℕ) → E → Option (Round E)
  wait_round objs events ws next_trigger_us env =
      let (mask, timeout_us, env') = plan micros64 invoke events.registered next_trigger_us env in
      after_wait objs env' (wait_any events mask ws)

  pub round :
      ℕ
      → Worker
      → EventState
      → (evt_msk : ℕ) → (meanwhile : List Op) → List Wake
      → E
      → Run (Option (Round E))
  round fuel w events evt_msk meanwhile ws env =
      elim (pass_walk micros64 invoke fuel evt_msk w.objs w.head env) [
        | returns (objs, env1) ↦ elim (get_next_trigger_us fuel (record w { objs = objs })) [
          | returns next ↦ returns (wait_round objs (apply_ops events meanwhile) ws next env1)
          | null_deref ↦ null_deref
          | out_of_fuel ↦ out_of_fuel
          | aborted ↦ aborted
        ]
        | null_deref ↦ null_deref
        | out_of_fuel ↦ out_of_fuel
        | aborted ↦ aborted
      ]

  -- The rounds of the endless loop, one for each entry of the list; `none`: the worker still waits.
  pub run_rounds : ℕ → Worker → Round E → List (List Op × List Wake) → Run (Option (Round E))
  run_rounds fuel w r [] = returns (some r)
  run_rounds fuel w r ((meanwhile, ws) ∷ rest) =
      and_then (round fuel (record w { objs = r.objs }) r.events r.evt_msk meanwhile ws r.env)
        λ o. elim o [ none ↦ returns none | some r' ↦ run_rounds fuel w r' rest ]

  -- `Worker::run`, which sets `running` and begins with no events.
  pub run : ℕ → Worker → EventState → List (List Op × List Wake) → E → Bool × Run (Option (Round E))
  run fuel w events rest env = (
    true,
    run_rounds fuel w (record { objs = w.objs; events = events; evt_msk = 0; env = env }) rest,
  )

-- `Worker::register_evt` and `Worker::signal` on the events of the worker's thread, `none` if that
-- is null.
pub worker_register_evt : Option EventState → Run (Option ℕ × EventState)
worker_register_evt none = null_deref
worker_register_evt (some events) = returns (register_evt events)

pub worker_signal : Option EventState → ℕ → Run EventState
worker_signal none event_mask = null_deref
worker_signal (some events) event_mask = returns (signal events event_mask)
