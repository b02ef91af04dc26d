-- ===== src/Posix/Thread/Laws.antt =====
-- The start and the end of a thread of DC_PAL_Posix/Threads.cpp.
use native.Mathlib.Nat.{mod-lt, mod-add-div, mul-mod_right}
use libdronecan.Prelude.{
  ℕ, ◌+◌, ◌-◌, ◌/◌, ◌%◌, ◌≤◌, ◌<◌, ◌≡◌, ◌≢◌, ◌⊎◌, inl, inr, refl, Bool-cases, Bool, true, false,
  List, [], ◌∷◌, arith, ◌==◌, none, some,
}
use libdronecan.Pal.Links.{null, Run, returns, null_deref, out_of_fuel, aborted}
use libdronecan.Posix.Thread.{
  Call, attr_init, cancel, join, System, Thread, constrain, sched_priority, round_up, check,
  schedule, start, destroy, threads_start,
}

-- What `Thread::start` may come to: it returns false only if assertions are compiled out, and stops
-- the program only if they are not.
abbrev pub Verdict : {E : Type 0} → Bool → Run (Bool × Thread × E) → Type 0
Verdict ndebug (returns (ok, thd, env)) = (ok ≡ true) ⊎ (ndebug ≡ true)
Verdict ndebug null_deref = true ≡ false
Verdict ndebug out_of_fuel = true ≡ false
Verdict ndebug aborted = ndebug ≡ false

module _ {E : Type 0} (call : Call → E → ℕ × E) (sys : System) where
  check-Verdict :
      (c : Call) (thd : Thread) (env : E) (next : E → Run (Bool × Thread × E))
      → ((env' : E) → Verdict sys.ndebug (next env'))
      → Verdict sys.ndebug (check call sys c thd env next)
  unfolding check
  check-Verdict c thd env next good = elim (Bool-cases ((call c env).0 == 0)) [
    | inl ok ↦ rw ok (good (call c env).1)
    | inr bad ↦ elim (Bool-cases sys.ndebug) [
      | inl out ↦ rw (bad, out) (inr refl)
      | inr kept ↦ rw (bad, kept) refl
    ]
  ]

  schedule-Verdict :
      (priority : ℕ) (thd : Thread) (env : E) (next : E → Run (Bool × Thread × E))
      → ((env' : E) → Verdict sys.ndebug (next env'))
      → Verdict sys.ndebug (schedule call sys priority thd env next)
  unfolding schedule
  schedule-Verdict priority thd env next good = elim (Bool-cases (sys.euid == 0)) [
    | inl root ↦ rw root (
        check-Verdict _ thd env _
          λ env1. check-Verdict _ thd env1 _ λ env2. check-Verdict _ thd env2 next good)
    | inr other ↦ rw other (good env)
  ]

  pub start-Verdict :
      (stack_size priority : ℕ) (thd : Thread) (env : E)
      → Verdict sys.ndebug (start call sys stack_size priority thd env)
  unfolding start
  start-Verdict stack_size priority thd env = elim (Bool-cases (thd.thread_func == null)) [
    | inl unmanaged ↦ rw unmanaged (check-Verdict _ thd env _ λ env1. inl refl)
    | inr managed ↦ rw managed (
        check-Verdict _ _ env _ λ env1. check-Verdict _ _ env1 _ λ env2.
          check-Verdict _ _ env2 _ λ env3.
            schedule-Verdict priority _ env3 _ λ env4. check-Verdict _ _ env4 _ λ env5. inl refl)
  ]

-- For pages of at least one byte, the stack size is rounded to whole pages that hold at least as
-- many bytes as were asked for, and less than a page more.
pub round_up_lem :
    (page n : ℕ)
    → 0 < page
    → (n ≤ round_up page n) × (round_up page n < n + page) × (round_up page n % page ≡ 0)
unfolding round_up
round_up_lem page n h =
    let parts = mod-add-div (n + page - 1) page in
    let small = mod-lt (n + page - 1) {m = page} h in
    (
      omega (arith, parts, small),
      omega (arith, parts, small),
      mul-mod_right page ((n + page - 1) / page),
    )

pub sched_priority-range :
    (sys : System) (priority : ℕ)
    → sys.prio_min ≤ sys.prio_max
    → (sys.prio_min ≤ sched_priority sys priority) × (sched_priority sys priority ≤ sys.prio_max)
unfolding sched_priority constrain
sched_priority-range sys priority h = ground arith

-- An environment that notes the calls, where `ret` gives their results.
abbrev pub noted : (Call → ℕ) → Call → List Call → ℕ × List Call
noted ret c log = (ret c, c ∷ log)

-- Where assertions are compiled out: if the first call of the start of a thread that has a function
-- fails, and its flags happen to be clear, `Threads::start` returns null after cancelling and joining a thread that was never
-- created.
pub threads_start_cancels :
    (ret : Call → ℕ) (sys : System) (stack_size priority : ℕ) (thd : Thread)
    → thd.thread_func ≢ null
    → ret attr_init ≢ 0
    → thd.attr_ready ≡ false
    → thd.cond_ready ≡ false
    → sys.ndebug ≡ true
    → threads_start (noted ret) sys stack_size priority (some thd) []
      ≡ returns (none, join ∷ cancel ∷ attr_init ∷ [])
unfolding threads_start start check destroy
threads_start_cancels ret sys stack_size priority thd ne fails a c out = ground arith
