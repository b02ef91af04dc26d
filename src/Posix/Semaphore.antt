-- ===== src/Posix/Semaphore.antt =====
-- DC_PAL_Posix/Semaphore.cpp, with `WithSemaphore` of DC_PAL/Semaphore_Abstract.h: a mutex of
-- pthread. The mutex and the clock are parameters on an environment: `lock`, `trylock`, `unlock`
-- and `timedlock` give the result of the call, 0 for success, and `clock` what `clock_gettime`
-- reads. The members of `struct timespec` are 64 bits wide and do not wrap here.
pub mod Laws
mod Tests
use libdronecan.Prelude.{ℕ, zero, suc, ◌+◌, ◌-◌, Bool, true, false, ◌==◌, if◌then◌else◌}
use libdronecan.Prelude.Int.{ℤ, pos, negsuc, ◌+ℤ◌, ltb_ℤ, quot, rem, scale}
use libdronecan.Pal.Links.{Run, returns, null_deref, out_of_fuel}
use libdronecan.Posix.Deadline.{Timespec}

-- A time to wait until, as `take` computes it: its members may be out of range.
pub record AbsTime : Type 0 where
  pub tv_sec : ℤ
  pub tv_nsec : ℤ

-- `ts.tv_sec += timeout_us / 1000000; ts.tv_nsec += (timeout_us % 1000000) * 1000;`
pub take_deadline : (timeout_us : ℤ) → Timespec → AbsTime
take_deadline timeout_us ts = record {
  tv_sec = pos ts.tv_sec +ℤ quot timeout_us 1000000;
  tv_nsec = pos ts.tv_nsec +ℤ scale (rem timeout_us 1000000) 1000;
}

-- What a timeout asks for.
pub data TakeMode : Type 0 where
  block_forever : TakeMode
  non_blocking : TakeMode
  block_until : TakeMode

pub take_mode : ℤ → TakeMode
take_mode (negsuc zero) = block_forever
take_mode (pos zero) = non_blocking
take_mode _ = block_until

module _ {E : Type 0} (lock trylock unlock : E → ℕ × E) (timedlock : AbsTime → E → ℕ × E)
    (clock : E → Timespec × E) where
  abbrev pub succeeded : ℕ × E → Bool × E
  succeeded (ret, env) = (ret == 0, env)

  abbrev pub take_by : TakeMode → ℤ → E → Bool × E
  take_by block_forever timeout_us env = succeeded (lock env)
  take_by non_blocking timeout_us env = succeeded (trylock env)
  take_by block_until timeout_us env =
      let (ts, env') = clock env in succeeded (timedlock (take_deadline timeout_us ts) env')

  pub take : (timeout_us : ℤ) → E → Bool × E
  take timeout_us env = take_by (take_mode timeout_us) timeout_us env

  pub give : E → Bool × E
  give env = succeeded (unlock env)

  -- `WITH_SEMAPHORE(sem)` around the rest of a block; the result of `take` is not looked at.
  pub with_semaphore : (E → E) → E → E
  with_semaphore body env = (give (body (take (negsuc zero) env).1)).1

-- The replacement of `pthread_mutex_timedlock` for systems that have none. `time_diff_us` works
-- on floating-point numbers and is a parameter; `nanosleep` is what 200 us of sleep do.
module _ {E : Type 0} (trylock : E → ℕ × E) (clock : E → Timespec × E) (nanosleep : E → E)
    (time_diff_us : Timespec → Timespec → ℤ) where
  pub timedlock_loop : ℕ → (curr_ts ts : Timespec) → E → Run (ℕ × E)
  timedlock_loop zero curr_ts ts env = out_of_fuel
  timedlock_loop (suc k) curr_ts ts env = elim (ltb_ℤ (pos 0) (time_diff_us curr_ts ts)) [
    | true ↦
        let (ret, env1) = trylock env in
        elim (ret == 0) [
          | true ↦ returns (0, env1)
          | false ↦
              let (curr_ts', env2) = clock (nanosleep env1) in timedlock_loop k curr_ts' ts env2
        ]
    | false ↦ returns (trylock env)
  ]

  pub timedlock_compat : ℕ → Timespec → E → Run (ℕ × E)
  timedlock_compat fuel ts env =
      let (curr_ts, env1) = clock env in timedlock_loop fuel curr_ts ts env1

-- The constructor and the destructor, over the calls of pthread on the attributes and the mutex;
-- `set_recursive` is `pthread_mutexattr_settype` with PTHREAD_MUTEX_RECURSIVE. No result is looked
-- at.
module _ {E : Type 0} (attr_init set_recursive mutex_init mutex_destroy : E → ℕ × E) where
  pub make_mutex : E → E
  make_mutex env = (mutex_init (set_recursive (attr_init env).1).1).1

  pub end_mutex : E → E
  end_mutex env = (mutex_destroy env).1
