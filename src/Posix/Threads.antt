-- ===== src/Posix/Threads.antt =====
-- DC_PAL_Posix/Threads.cpp, the class `Threads`: threads are allocated, linked into the list of all
-- threads by the constructor of `List<Thread>` (DC_PAL/List.h), and stopped by their destructor.
-- `allocate` and `deallocate` are those of DC_PAL/Utils.h; the calls of pthread, `DC_MALLOC` and
-- `DC_FREE` are the parameters of `Platform`.
pub mod Destroy
pub mod Start
pub mod Main
mod Tests
use libdronecan.Prelude.{
  ℕ, zero, suc, Bool, true, false, ◌==◌, if◌then◌else◌, Option, none, some, List,
}
use libdronecan.Pal.Links.{Ptr, null, Run, returns, null_deref, out_of_fuel, and_then}
use libdronecan.Pal.ObjList.{ObjList, Iterator, iterator, increment, construct, remove}
use libdronecan.Posix.Events.{EventState, Wake, Waited, wait_any, wait_all}
use libdronecan.Posix.Thread.{Call, System, Thread, start, destroy}

pub record Platform (E : Type 0) : Type 0 where
  -- `DC_MALLOC`: null if there is no memory.
  pub malloc : E → Ptr × E
  pub free : Ptr → E → E
  -- A call that concerns the thread at a pointer.
  pub call : Ptr → Call → E → ℕ × E
  pub key_create : E → E
  pub key_delete : E → E

-- The list of all threads, what lies at each pointer, and `main_thread`.
pub record Pool (E : Type 0) : Type 0 where
  pub list : ObjList
  pub objs : Ptr → Thread
  pub events : Ptr → EventState
  pub main_thread : Ptr
  pub env : E

abbrev pub put_thread : (Ptr → Thread) → Ptr → Thread → Ptr → Thread
put_thread objs p thd a = if a == p then thd else objs a

abbrev pub put_events : (Ptr → EventState) → Ptr → EventState → Ptr → EventState
put_events events p s a = if a == p then s else events a

module _ {E : Type 0} (os : Platform E) where
  -- `allocate<Thread>(thread_func)`: the constructor sets the function alone, and links the thread.
  pub allocate : ℕ → (thread_func : Ptr) → Pool E → Run (Ptr × Pool E)
  allocate fuel thread_func pool =
      let (p, env1) = os.malloc pool.env in
      if p == null
      then returns (null, record pool { env = env1 })
      else and_then (construct fuel pool.list p) λ list. returns (
        p,
        record pool {
          list = list;
          objs = put_thread pool.objs p (record (pool.objs p) { thread_func = thread_func });
          env = env1;
        },
      )

  -- `deallocate(thd)`: `~Thread`, then `~List`, then `DC_FREE`.
  pub deallocate : ℕ → Ptr → Pool E → Run (Pool E)
  deallocate fuel p pool =
      let env1 = destroy (os.call p) (pool.objs p) pool.env in
      and_then (remove fuel pool.list p)
        λ list. returns (record pool { list = list; env = os.free p env1 })

  -- The constructor `Threads::Threads`.
  pub create_pool : Pool E → Pool E
  create_pool pool = record pool { env = os.key_create pool.env }

  -- `for (auto thd : *Thread::get_head()) deallocate(thd);`
  pub destroy_loop : (k fuel : ℕ) → Pool E → Iterator → Run (Pool E)
  destroy_loop zero fuel pool it = out_of_fuel
  destroy_loop (suc k) fuel pool it = elim (it.ptr == null) [
    | true ↦ returns pool
    | false ↦
        and_then (deallocate fuel it.ptr pool)
          λ pool'. destroy_loop k fuel pool' (increment pool'.list.next it)
  ]

  abbrev pub delete_key : Pool E → Run (Pool E)
  delete_key pool = returns (record pool { env = os.key_delete pool.env })

  -- `Threads::~Threads`
  pub destroy_pool : ℕ → Pool E → Run (Pool E)
  destroy_pool fuel pool =
      if pool.list.head == null
      then delete_key pool
      else and_then (destroy_loop fuel fuel pool (iterator pool.list.next pool.list.head))
          delete_key

  -- What `Threads::start` does when `Thread::start` has returned.
  pub finish_start : ℕ → Ptr → Pool E → Bool × Thread × E → Run (Ptr × Pool E)
  finish_start fuel p pool (started, thd, env) =
      let pool1 = record pool { objs = put_thread pool.objs p thd; env = env } in
      if started
      then returns (p, pool1)
      else and_then (deallocate fuel p pool1) λ pool2. returns (null, pool2)

  -- `Threads::start`: null if it fails.
  pub start_thread :
      ℕ → System → (thread_func stack_size priority : ℕ) → Pool E → Run (Ptr × Pool E)
  start_thread fuel sys thread_func stack_size priority pool =
      and_then (allocate fuel thread_func pool) λ (r : Ptr × Pool E).
        let (p, pool1) = r in
        if p == null
        then returns (null, pool1)
        else and_then (start (os.call p) sys stack_size priority (pool1.objs p) pool1.env)
            (finish_start fuel p pool1)

  -- `Threads::stop`
  pub stop : ℕ → Ptr → Pool E → Run (Pool E)
  stop fuel p pool = deallocate fuel p pool

  -- `Threads::register_main_thread`: its result, what `pthread_getspecific` then returns on this
  -- thread (null: as before), and the pool. A start that returns false goes unnoticed.
  pub register_main_thread : ℕ → System → Pool E → Run (Ptr × Pool E)
  register_main_thread fuel sys pool = and_then (allocate fuel null pool) λ (r : Ptr × Pool E).
      let (p, pool1) = r in
      let pool2 = record pool1 { main_thread = p } in
      if p == null
      then returns (null, pool2)
      else and_then (start (os.call p) sys 0 0 (pool2.objs p) pool2.env) λ (s : Bool × Thread × E).
        let (started, thd, env) = s in
        returns (p, record pool2 { objs = put_thread pool2.objs p thd; env = env })

abbrev after_any : {E : Type 0} → Pool E → Ptr → Option Waited → Option (Bool × ℕ × Pool E)
after_any pool thd none = none
after_any pool thd (some w) =
    some (w.result, w.evt_mask, record pool { events = put_events pool.events thd w.state })

abbrev after_all : {E : Type 0} → Pool E → Ptr → Option (Bool × EventState) → Option (Bool × Pool E)
after_all pool thd none = none
after_all pool thd (some r) = some (r.0, record pool { events = put_events pool.events thd r.1 })

-- `Threads::wait_any` and `wait_all` on a thread whose `pthread_getspecific(key)` is `current`:
-- the result, the caller's mask, and the pool.
pub wait_any_current :
    {E : Type 0} → (current : Ptr) → Pool E → ℕ → List Wake → Option (Bool × ℕ × Pool E)
wait_any_current current pool evt_mask ws =
    if current == null
    then some (false, evt_mask, pool)
    else after_any pool current (wait_any (pool.events current) evt_mask ws)

pub wait_all_current :
    {E : Type 0} → (current : Ptr) → Pool E → ℕ → List Wake → Option (Bool × Pool E)
wait_all_current current pool evt_mask ws =
    if current == null
    then some (false, pool)
    else after_all pool current (wait_all (pool.events current) evt_mask ws)
