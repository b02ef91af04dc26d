-- ===== src/Posix/Thread.antt =====
-- DC_PAL_Posix/Threads.cpp, the start and the end of a thread, with `constrain` of DC_PAL/Utils.h.
-- The functions of pthread are one parameter, `call`, which gives the result of a call in an
-- environment, 0 for success, and the environment afterwards. Priorities are not negative.
pub mod Laws
use libdronecan.Prelude.{
  ℕ, ◌+◌, ◌-◌, ◌*◌, ◌/◌, Bool, true, false, ◌==◌, ltb, if◌then◌else◌, Option, none, some,
}
use libdronecan.Pal.Links.{Ptr, null, Run, returns, aborted, and_then}

-- The calls that the code makes, with the arguments that it computes.
pub data Call : Type 0 where
  attr_init : Call
  cond_init : Call
  attr_setstacksize : ℕ → Call
  attr_setinheritsched : Call
  attr_setschedpolicy : Call
  attr_setschedparam : ℕ → Call
  create : Call
  cancel : Call
  join : Call
  attr_destroy : Call
  cond_destroy : Call
  setschedparam : ℕ → Call

-- What the code asks the system for, and whether it is built with `NDEBUG`, so that `assert` does
-- nothing.
pub record System : Type 0 where
  pub page_size : ℕ
  pub stack_min : ℕ
  pub euid : ℕ
  pub prio_min : ℕ
  pub prio_max : ℕ
  pub ndebug : Bool

-- The members of `Thread` that say what it holds; the constructor sets the first alone.
pub record Thread : Type 0 where
  pub thread_func : Ptr
  pub attr_ready : Bool
  pub cond_ready : Bool

-- `min(max(x, a), b)`
pub constrain : (x a b : ℕ) → ℕ
constrain x a b = let high = if ltb a x then x else a in if ltb high b then high else b

abbrev pub base_prio : ℕ
base_prio = 10

pub sched_priority : System → ℕ → ℕ
sched_priority sys priority = constrain (base_prio + priority) sys.prio_min sys.prio_max

-- `getpagesize()*ceil(stack_size/(double)getpagesize())`; a `double` is exact at such sizes.
pub round_up : (page n : ℕ) → ℕ
round_up page n = page * ((n + page - 1) / page)

module _ {E : Type 0} (call : Call → E → ℕ × E) where
  -- `ret = c; if (ret != 0) { dronecan_assert(false, ...); return false; }`
  unfoldable pub check :
      System → Call → Thread → E → (E → Run (Bool × Thread × E)) → Run (Bool × Thread × E)
  check sys c thd env next =
      let (ret, env') = call c env in
      if ret == 0 then next env' else if sys.ndebug then returns (false, thd, env') else aborted

  -- The scheduling, if the process is root's.
  unfoldable pub schedule :
      System → ℕ → Thread → E → (E → Run (Bool × Thread × E)) → Run (Bool × Thread × E)
  schedule sys priority thd env next =
      if sys.euid == 0
      then (check sys attr_setinheritsched thd env λ env1.
          check sys attr_setschedpolicy thd env1
            λ env2. check sys (attr_setschedparam (sched_priority sys priority)) thd env2 next)
      else next env

  -- `Thread::start`
  unfoldable pub start : System → (stack_size priority : ℕ) → Thread → E → Run (Bool × Thread × E)
  start sys stack_size priority thd env =
      if thd.thread_func == null
      then (check sys cond_init thd env
          λ env1. returns (true, record thd { cond_ready = true }, env1))
      else check sys attr_init thd env λ env1.
        let thd1 = record thd { attr_ready = true } in
        check sys cond_init thd1 env1 λ env2.
          let thd2 = record thd1 { cond_ready = true } in
          check sys (attr_setstacksize (sys.stack_min + round_up sys.page_size stack_size)) thd2
            env2
            λ env3.
              schedule sys priority thd2 env3
                λ env4. check sys create thd2 env4 λ env5. returns (true, thd2, env5)

  abbrev pub do_if : Bool → Call → E → E
  do_if b c env = if b then (call c env).1 else env

  -- `~Thread`
  unfoldable pub destroy : Thread → E → E
  destroy thd env =
      let env1 = if thd.thread_func == null then env else (call join (call cancel env).1).1 in
      do_if thd.cond_ready cond_destroy (do_if thd.attr_ready attr_destroy env1)

  -- `Threads::start`, where `fresh` is what `allocate` returns: nothing, or the thread with
  -- whatever its memory held.
  pub threads_start :
      System → (stack_size priority : ℕ) → Option Thread → E → Run (Option Thread × E)
  threads_start sys stack_size priority none env = returns (none, env)
  threads_start sys stack_size priority (some thd) env =
      and_then (start sys stack_size priority thd env) λ (r : Bool × Thread × E).
        let (started, thd', env') = r in
        returns (if started then (some thd', env') else (none, destroy thd' env'))

  -- `Thread::set_priority`
  pub set_priority : System → ℕ → E → Bool × E
  set_priority sys priority env =
      if sys.euid == 0
      then (let (ret, env') = call (setschedparam (sched_priority sys priority)) env in
          (ret == 0, env'))
      else (false, env)
