-- ===== src/Posix/Semaphore/Laws.antt =====
-- What the calls of DC_PAL_Posix/Semaphore.cpp come to.
use libdronecan.Prelude.{
  ℕ, zero, suc, ◌+◌, ◌-◌, ◌*◌, ◌/◌, ◌%◌, ◌≤◌, ◌<◌, ◌≡◌, ◌≢◌, refl, ◌∙◌, Bool, true, false, arith,
  ==_ne,
}
use libdronecan.Prelude.Int.{
  ℤ, pos, pos_part, neg_part, sub_ℕ-parts, ◌+ℤ◌, +ℤ_parts, ◌≤ℤ◌, ltb_ℤ, quot, rem, scale,
}
use libdronecan.Pal.Links.{returns, out_of_fuel}
use libdronecan.Posix.Deadline.{Timespec}
use libdronecan.Posix.Semaphore.{
  AbsTime, take_deadline, take_mode, take, give, with_semaphore, timedlock_loop, timedlock_compat,
}

-- A quotient and its remainder make up the number.
quot-rem :
    (a : ℤ)
    → pos_part (quot a 1000000) * 1000000 + pos_part (rem a 1000000) + neg_part a
      ≡ neg_part (quot a 1000000) * 1000000 + neg_part (rem a 1000000) + pos_part a
unfolding quot rem
quot-rem a = omega (
  arith,
  sub_ℕ-parts (pos_part a / 1000000) (neg_part a / 1000000),
  sub_ℕ-parts (pos_part a % 1000000) (neg_part a % 1000000),
)

scale_parts :
    (a : ℤ)
    → pos_part (scale a 1000) + neg_part a * 1000 ≡ neg_part (scale a 1000) + pos_part a * 1000
unfolding scale
scale_parts a = sub_ℕ-parts (pos_part a * 1000) (neg_part a * 1000)

-- The time until which `take` waits, seconds and nanoseconds together, is the current time and
-- the timeout, also for a timeout below zero.
pub take_deadline-ns :
    (timeout_us : ℤ) (ts : Timespec)
    → let t = take_deadline timeout_us ts in
      pos_part t.tv_sec * 1000000000 + pos_part t.tv_nsec + neg_part timeout_us * 1000
      ≡ neg_part t.tv_sec * 1000000000
        + neg_part t.tv_nsec
        + ts.tv_sec * 1000000000
        + ts.tv_nsec
        + pos_part timeout_us * 1000
unfolding take_deadline
take_deadline-ns timeout_us ts = omega (
  arith,
  +ℤ_parts (pos ts.tv_sec) (quot timeout_us 1000000),
  +ℤ_parts (pos ts.tv_nsec) (scale (rem timeout_us 1000000) 1000),
  quot-rem timeout_us,
  scale_parts (rem timeout_us 1000000),
)

-- The nanoseconds are out of range as soon as the parts of a second come to one.
pub take_deadline_overflow :
    (n : ℕ) (ts : Timespec)
    → 1000000000 ≤ ts.tv_nsec + n % 1000000 * 1000
    → pos 1000000000 ≤ℤ (take_deadline (pos n) ts).tv_nsec
unfolding take_deadline quot rem scale ◌+ℤ◌
take_deadline_overflow n ts h = ground arith

module _ {E : Type 0} (lock trylock unlock : E → ℕ × E) (timedlock : AbsTime → E → ℕ × E)
    (clock : E → Timespec × E) where
  -- A recursive mutex as the calling thread sees it, when it gets the mutex in the end: `depth`
  -- counts how often the thread holds it.
  pub record IsRecursive (depth : E → ℕ) : Type 0 where
    pub locks : (env : E) → ((lock env).0 ≡ 0) × (depth (lock env).1 ≡ depth env + 1)
    pub unlocks :
        (env : E) → 0 < depth env → ((unlock env).0 ≡ 0) × (depth (unlock env).1 ≡ depth env - 1)

  -- A member that runs under a recursive semaphore holds it as often afterwards as before, if
  -- locking succeeds and what it does under the semaphore leaves that as it is.
  pub with_semaphore-depth :
      (depth : E → ℕ) (body : E → E) (env : E)
      → IsRecursive depth
      → ((e : E) → 0 < depth e → depth (body e) ≡ depth e)
      → depth (with_semaphore lock trylock unlock timedlock clock body env) ≡ depth env
  unfolding with_semaphore take take_mode give
  with_semaphore-depth depth body env is keeps =
      let (ret, held) = is.locks env in
      let kept = keeps (lock env).1 (omega (arith, held)) in
      let (ret', left) = is.unlocks (body (lock env).1) (omega (arith, held, kept)) in
      omega (arith, left, kept, held)

  -- A mutex that another thread holds, as POSIX describes `pthread_mutex_timedlock`: it fails if
  -- the nanoseconds are out of range.
  pub record IsHeld (held : E → Bool) : Type 0 where
    pub reading : (env : E) → held (clock env).1 ≡ held env
    pub invalid :
        (t : AbsTime) (env : E)
        → held env ≡ true
        → pos 1000000000 ≤ℤ t.tv_nsec
        → (timedlock t env).0 ≢ 0

  -- If the nanoseconds of the current time and of a timeout above zero come to a second or more,
  -- `take` fails at once on a semaphore that another thread holds. `pthread_mutex_timedlock`
  -- refuses a time whose nanoseconds are out of range, and reading the clock does not change who
  -- holds the semaphore.
  pub take_gives_up :
      (held : E → Bool) (n : ℕ) (env : E)
      → IsHeld held
      → held env ≡ true
      → 1000000000 ≤ (clock env).0.tv_nsec + suc n % 1000000 * 1000
      → (take lock trylock unlock timedlock clock (pos (suc n)) env).0 ≡ false
  unfolding take take_mode
  take_gives_up held n env is busy over =
      ==_ne (timedlock (take_deadline (pos (suc n)) (clock env).0) (clock env).1).0 0 (
        is.invalid (take_deadline (pos (suc n)) (clock env).0) (clock env).1 (is.reading env ∙ busy)
          (take_deadline_overflow (suc n) (clock env).0 over))

module _ {E : Type 0} (trylock : E → ℕ × E) (clock : E → Timespec × E) (nanosleep : E → E)
    (time_diff_us : Timespec → Timespec → ℤ) (ts : Timespec) where
  timedlock_loop_spins :
      (k : ℕ) (curr_ts : Timespec) (env : E)
      → ltb_ℤ (pos 0) (time_diff_us curr_ts ts) ≡ true
      → ((e : E) → ltb_ℤ (pos 0) (time_diff_us (clock e).0 ts) ≡ true)
      → ((e : E) → (trylock e).0 ≢ 0)
      → timedlock_loop trylock clock nanosleep time_diff_us k curr_ts ts env ≡ out_of_fuel
  unfolding timedlock_loop
  timedlock_loop_spins zero curr_ts env late always busy = refl
  timedlock_loop_spins (suc k) curr_ts env late always busy =
      let env1 = (trylock env).1 in
      rw (timedlock_loop, late, ==_ne (trylock env).0 0 (busy env))
        (timedlock_loop_spins k (clock (nanosleep env1)).0 (clock (nanosleep env1)).1
          (always (nanosleep env1)) always busy)

  pub timedlock_compat_early :
      (k : ℕ) (env : E)
      → ltb_ℤ (pos 0) (time_diff_us (clock env).0 ts) ≡ false
      → timedlock_compat trylock clock nanosleep time_diff_us (suc k) ts env
        ≡ returns (trylock (clock env).1)
  unfolding timedlock_compat timedlock_loop
  timedlock_compat_early k env early = rw (timedlock_loop, early)

  -- While another thread holds the mutex and the time is past the deadline, the substitute for
  -- `pthread_mutex_timedlock` is still going after any number of rounds.
  pub timedlock_compat_spins :
      (k : ℕ) (env : E)
      → ((e : E) → (trylock e).0 ≢ 0)
      → ((e : E) → ltb_ℤ (pos 0) (time_diff_us (clock e).0 ts) ≡ true)
      → timedlock_compat trylock clock nanosleep time_diff_us k ts env ≡ out_of_fuel
  unfolding timedlock_compat
  timedlock_compat_spins k env busy late =
      timedlock_loop_spins k (clock env).0 (clock env).1 (late env) late busy
