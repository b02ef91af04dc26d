-- ===== src/Posix/Events.antt =====
-- DC_PAL_Posix/Threads.cpp, the events of a thread: `register_evt`, `unregister_evt`, `signal`,
-- `wait_any` and `wait_all`. Each runs under the thread's semaphore, which
-- `pthread_cond_timedwait` gives up while it waits. A mask is a number below 2^32.
pub mod Register
pub mod Signal
pub mod Wait
pub mod Owners
mod Tests
use libdronecan.Prelude.{
  ℕ, zero, suc, ◌+◌, ◌-◌, ◌*◌, ◌/◌, ◌%◌, ◌^◌, Bool, true, false, not, ◌&&◌, ◌||◌, Option, none,
  some, List, [], ◌∷◌, ltb, ◌==◌, if◌then◌else◌, bit_and, bit_or,
}

-- `registered_events`, `signalled_events`, and the state of `cond`: whether
-- `pthread_cond_signal` was called since the thread last began to wait for it. The constructor
-- sets none of the masks.
pub record EventState : Type 0 where
  pub registered : ℕ
  pub signalled : ℕ
  pub cond_signalled : Bool

abbrev pub all_events : ℕ
all_events = 0xFFFFFFFF

-- `~m` of an `event_mask_t`
abbrev pub not32 : ℕ → ℕ
not32 m = all_events - m

-- `a & b` as a condition
abbrev pub meets : ℕ → ℕ → Bool
meets a b = not (bit_and a b == 0)

pub signal : EventState → ℕ → EventState
signal s events =
    if meets events s.registered
    then record s { signalled = bit_or s.signalled events; cond_signalled = true }
    else s

-- `while ((registered_events & (1 << id)) && id < 32) id++;` with the rounds `32 - id` left.
pub first_free : ℕ → ℕ → ℕ → ℕ
first_free zero registered id = id
first_free (suc k) registered id = elim (meets registered (2 ^ id)) [
  | true ↦ first_free k registered (id + 1)
  | false ↦ id
]

-- `none` is the result -1.
pub register_evt : EventState → Option ℕ × EventState
register_evt s =
    if s.registered == all_events
    then (none, s)
    else (let id = first_free 32 s.registered 0 in
        if id == 32
        then (none, s)
        else (some id, record s { registered = bit_or s.registered (2 ^ id) }))

pub unregister_evt : EventState → ℕ → EventState
unregister_evt s id = record s { registered = bit_and s.registered (not32 (2 ^ id)) }

-- What other threads do to the events while the thread waits.
pub data Op : Type 0 where
  op_signal : ℕ → Op
  op_register : Op
  op_unregister : ℕ → Op

unfoldable pub apply_op : EventState → Op → EventState
apply_op s (op_signal events) = signal s events
apply_op s op_register = (register_evt s).1
apply_op s (op_unregister id) = unregister_evt s id

unfoldable pub apply_ops : EventState → List Op → EventState
apply_ops s [] = s
apply_ops s (op ∷ ops) = apply_ops (apply_op s op) ops

-- A time at which the thread that waits can have the semaphore: what the others have done until
-- then, and whether `pthread_cond_timedwait` returns for its timeout, with ETIMEDOUT, or with 0
-- though nobody called `pthread_cond_signal`. If it is for neither, the call returns only if `cond`
-- was signalled, and the thread sleeps on otherwise.
pub record Wake : Type 0 where
  pub ops : List Op
  pub timed_out : Bool
  pub spurious : Bool

-- The thread begins to wait: what was signalled before is lost.
abbrev pub asleep : EventState → EventState
asleep s = record s { cond_signalled = false }

-- `pthread_cond_timedwait` returns 0.
abbrev pub woken : EventState → Wake → Bool
woken s w = s.cond_signalled || w.spurious

-- A wait that has ended: its result, the mask that it reports, and the events it leaves.
pub record Waited : Type 0 where
  pub result : Bool
  pub evt_mask : ℕ
  pub state : EventState

-- `none`: the schedule has ended and the thread still waits.
pub wait_any_loop : EventState → ℕ → List Wake → Option Waited
wait_any_loop s evt_mask [] = none
wait_any_loop s evt_mask (w ∷ ws) =
    let s' = apply_ops s w.ops in
    let done : Waited = record {
      result = true;
      evt_mask = s'.signalled;
      state = record s' { signalled = 0 };
    } in
    let late : Waited = record {
      result = false;
      evt_mask = s'.signalled;
      state = record s' { signalled = 0 };
    } in
    let rest = wait_any_loop (asleep s') evt_mask ws in
    if w.timed_out
    then some late
    else if woken s' w && (meets s'.signalled evt_mask && not (evt_mask == 0))
    then some done
    else rest

pub wait_any : EventState → ℕ → List Wake → Option Waited
wait_any s evt_mask ws =
    if meets s.signalled evt_mask
    then some (record {
      result = true;
      evt_mask = evt_mask;
      state = record s { signalled = bit_and s.signalled (not32 evt_mask) };
    })
    else if meets s.signalled evt_mask && not (evt_mask == 0)
    then some (record { result = true; evt_mask = s.signalled; state = record s { signalled = 0 } })
    else wait_any_loop (asleep s) evt_mask ws

-- `((signalled_events & evt_mask) == evt_mask) && (evt_mask != 0)`
abbrev pub covers : ℕ → ℕ → Bool
covers signalled evt_mask = (bit_and signalled evt_mask == evt_mask) && not (evt_mask == 0)

-- The mask of `wait_all` is passed by value, so it reports none.
pub wait_all_loop : EventState → ℕ → List Wake → Option (Bool × EventState)
wait_all_loop s evt_mask [] = none
wait_all_loop s evt_mask (w ∷ ws) =
    let s' = apply_ops s w.ops in
    let rest = wait_all_loop (asleep s') evt_mask ws in
    if w.timed_out
    then some (false, record s' { signalled = 0 })
    else if woken s' w && covers s'.signalled evt_mask
    then some (true, record s' { signalled = 0 })
    else rest

pub wait_all : EventState → ℕ → List Wake → Option (Bool × EventState)
wait_all s evt_mask ws =
    if covers s.signalled evt_mask
    then some (true, record s { signalled = bit_and s.signalled (not32 evt_mask) })
    else if covers s.signalled evt_mask
    then some (true, record s { signalled = 0 })
    else wait_all_loop (asleep s) evt_mask ws

-- `Threads::wait` of DC_PAL/Threads.h waits for no event.
pub wait : EventState → List Wake → Option (Bool × EventState)
wait s ws = wait_all s 0 ws
