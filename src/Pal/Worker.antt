-- ===== src/Pal/Worker.antt =====
-- DC_PAL/Worker.h and Worker.cpp: a worker thread runs the functions of the worker objects that
-- are registered with it, periodic ones by the clock and event ones by an event mask.
pub mod Register
pub mod Unregister
pub mod Trigger
pub mod Pass
pub mod Cycle
pub mod Timer
pub mod Rounds
mod Tests
use libdronecan.Prelude.{
  ℕ, zero, suc, ◌+◌, ◌-◌, ◌%◌, ◌^◌, Bool, true, false, not, ◌&&◌, ◌||◌, List, [], ◌∷◌, ltb, leb,
  ◌==◌, if◌then◌else◌, bit_and,
}
use libdronecan.Pal.Links.{Ptr, null, Links, Run, returns, null_deref, out_of_fuel, aborted}

-- `PeriodicWorkerObject` and `EventWorkerObject`, with the members that each adds.
pub data Kind : Type 0 where
  periodic : (period_us next_trigger_time_us : ℕ) → Kind
  event : (evt_mask : ℕ) (trigger_any : Bool) → Kind

-- `WorkerObject`; its `worker_func` is called by the object's pointer.
pub record WorkerObject : Type 0 where
  pub next : Ptr
  pub worker : Ptr
  pub kind : Kind

abbrev pub Objects : Type 0
Objects = Ptr → WorkerObject

abbrev pub put : Objects → Ptr → WorkerObject → Objects
put objs p o a = if a == p then o else objs a

abbrev pub links_of : Objects → Links
links_of objs p = (objs p).next

-- `worker_obj_head`, and the objects that it leads to.
pub record Worker : Type 0 where
  pub head : Ptr
  pub objs : Objects

abbrev pub u64_mod : ℕ
u64_mod = 2 ^ 64

-- `set_worker`: the periodic object also starts its period anew, from the time `now`.
pub restart : ℕ → Kind → Kind
restart now (periodic p t) = periodic p ((p + now) % u64_mod)
restart now (event m any) = event m any

pub set_worker : ℕ → Objects → (obj worker : Ptr) → Objects
set_worker now objs obj worker =
    put objs obj (record (objs obj) { worker = worker; kind = restart now (objs obj).kind })

abbrev pub with_objs : Ptr → Run Objects → Run Worker
with_objs h (returns objs) = returns (record { head = h; objs = objs })
with_objs h null_deref = null_deref
with_objs h out_of_fuel = out_of_fuel
with_objs h aborted = aborted

-- `curr_worker_obj->next = worker_obj` behind the last object.
pub register_walk : ℕ → Objects → (curr obj : Ptr) → Run Objects
register_walk zero objs curr obj = out_of_fuel
register_walk (suc k) objs curr obj = elim ((objs curr).next == null) [
  | true ↦ returns (put objs curr (record (objs curr) { next = obj }))
  | false ↦ register_walk k objs (objs curr).next obj
]

-- `Worker::register_worker` at the worker `self`; it returns true on every path that ends.
pub register_worker : ℕ → ℕ → (self : Ptr) → Worker → Ptr → Run Worker
register_worker fuel now self w obj =
    let objs = set_worker now w.objs obj self in
    if w.head == null
    then returns (record { head = obj; objs = objs })
    else with_objs w.head (register_walk fuel objs w.head obj)

-- The loop of `unregister_worker` behind the first object: it compares the object behind
-- `curr_worker_obj`, and never moves on.
pub unregister_walk : ℕ → ℕ → Objects → (curr obj : Ptr) → Run Objects
unregister_walk zero now objs curr obj = out_of_fuel
unregister_walk (suc k) now objs curr obj = elim ((objs curr).next == obj) [
  | true ↦
      let objs' = set_worker now objs (objs curr).next null in
      returns (put objs' curr (record (objs' curr) { next = (objs' (objs' curr).next).next }))
  | false ↦ unregister_walk k now objs curr obj
]

pub unregister_worker : ℕ → ℕ → Worker → Ptr → Run Worker
unregister_worker fuel now w obj =
    if w.head == null
    then returns w
    else if w.head == obj
    then (let objs = set_worker now w.objs w.head null in
        returns (record { head = (objs w.head).next; objs = objs }))
    else with_objs w.head (unregister_walk fuel now w.objs w.head obj)

-- The loop of `~Worker`: it reads the next object before it unregisters the current one.
pub destroy_walk : ℕ → ℕ → ℕ → Worker → Ptr → Run Worker
destroy_walk zero fuel now w curr = out_of_fuel
destroy_walk (suc k) fuel now w curr = elim (curr == null) [
  | true ↦ returns w
  | false ↦
      let next = (w.objs curr).next in
      elim (unregister_worker fuel now w curr) [
        | returns w' ↦ destroy_walk k fuel now w' next
        | null_deref ↦ null_deref
        | out_of_fuel ↦ out_of_fuel
        | aborted ↦ aborted
      ]
]

-- `~Worker` of a worker with the thread `thread`, null if it was never started; freeing the thread
-- itself is the thread's own destructor.
pub destroy : ℕ → ℕ → (thread : Ptr) → Worker → Run Worker
destroy fuel now thread w =
    if thread == null then returns w else destroy_walk fuel fuel now w w.head

-- `get_next_trigger_us`: one object, and the loop over them.
pub earlier : ℕ → Kind → ℕ
earlier next_trigger_us (event m any) = next_trigger_us
earlier next_trigger_us (periodic p t) =
    if (next_trigger_us == 0) || ltb t next_trigger_us then t else next_trigger_us

pub trigger_walk : ℕ → Objects → Ptr → ℕ → Run ℕ
trigger_walk zero objs curr next_trigger_us = out_of_fuel
trigger_walk (suc k) objs curr next_trigger_us = elim (curr == null) [
  | true ↦ returns next_trigger_us
  | false ↦ trigger_walk k objs (objs curr).next (earlier next_trigger_us (objs curr).kind)
]

pub get_next_trigger_us : ℕ → Worker → Run ℕ
get_next_trigger_us fuel w = trigger_walk fuel w.objs w.head 0

-- The timeout that `run` hands to `wait_any`, a `uint32_t`; -1 is `2 ^ 32 - 1`.
pub wait_timeout_us : (next_trigger_us curr_time_us : ℕ) → ℕ
wait_timeout_us next_trigger_us curr_time_us =
    if ltb next_trigger_us curr_time_us
    then 2 ^ 32 - 1
    else (next_trigger_us - curr_time_us) % 2 ^ 32

-- `(*worker)(micros64())` on a periodic object at the time `curr_time`: whether the function is
-- called, and the object afterwards, `later` being the time when it has returned.
pub periodic_due : ℕ → Kind → Bool
periodic_due curr_time (periodic p t) = leb t curr_time
periodic_due curr_time (event m any) = false

unfoldable pub after_time : (curr_time later : ℕ) → Kind → Kind
after_time curr_time later (periodic p t) =
    if leb t curr_time then periodic p ((p + later) % u64_mod) else periodic p t
after_time curr_time later (event m any) = event m any

-- `(*worker)(evt_mask)`: whether an event object calls its function.
unfoldable pub event_due : ℕ → Kind → Bool
event_due mask (periodic p t) = false
event_due mask (event m any) =
    if bit_and m mask == m then true else not (bit_and m mask == 0) && any

-- The inner loop of `Worker::run`. `micros64` reads the clock of the environment, and `invoke`
-- is what the function of an object does to it; it registers and unregisters nothing.
module _ {E : Type 0} (micros64 : E → ℕ × E) (invoke : Ptr → E → E) where
  -- `(*curr_worker)(micros64())`
  pub run_time : Objects → Ptr → E → Objects × E
  run_time objs curr env =
      let (t, env1) = micros64 env in
      if periodic_due t (objs curr).kind
      then (let (later, env2) = micros64 (invoke curr env1) in
          (put objs curr (record (objs curr) { kind = after_time t later (objs curr).kind }), env2))
      else (objs, env1)

  -- `(*curr_worker)(evt_msk)`
  pub run_event : ℕ → Objects → Ptr → E → E
  run_event mask objs curr env = if event_due mask (objs curr).kind then invoke curr env else env

  pub pass_walk : ℕ → ℕ → Objects → Ptr → E → Run (Objects × E)
  pass_walk zero mask objs curr env = out_of_fuel
  pass_walk (suc k) mask objs curr env = elim (curr == null) [
    | true ↦ returns (objs, env)
    | false ↦
        let (objs', env1) = run_time objs curr env in
        pass_walk k mask objs' (objs' curr).next (run_event mask objs' curr env1)
  ]

  -- The rest of a round: the events to wait for and the timeout. `registered` is what
  -- `get_registered_events` returns.
  unfoldable pub plan : (registered : ℕ) → (next_trigger_us : ℕ) → E → ℕ × ℕ × E
  plan registered next_trigger_us env =
      let (curr_time_us, env1) = micros64 env in
      (registered, wait_timeout_us next_trigger_us curr_time_us, env1)
