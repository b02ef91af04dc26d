-- ===== src/DataIface/HwSemaphore/Exclusion.antt =====
-- What the hardware semaphore of DC_DataIface/DataIface_ShMem.cpp keeps apart, and what not.
use mathlib.Core.List.{foldl}
use libdronecan.Prelude.{
  ℕ, ◌/◌, ◌%◌, ◌^◌, ◌≡◌, ◌≢◌, ◌⊎◌, refl, sym, ap, ◌∙◌, Bool, true, false, ◌&&◌, ◌==◌, bit_and,
  arith, Option, none, some, List, [], ◌∷◌, Bool-cases, inl, inr, ==_ne, ==_self, ℕ_discrete,
}
use libdronecan.DataIface.ShMem.{Core, cm7, cm4, hsem_core_id}
use libdronecan.DataIface.HwSemaphore.Turns.{
  Phase, Both, take_turn, outside, first_read, second_read, inside, after_first, after_second, turn,
}

-- What the manual says of a semaphore: a reading takes it for the core if it is free, and gives
-- the lock bit and the core that has it; the key of that core frees it.
pub record IsShared {E : Type 0} (rlr : Core → E → ℕ × E) (unlock : Core → E → E) (lock : ℕ)
    (owner : E → Option Core) : Type 0 where
  pub takes : (core : Core) (env : E) → owner env ≡ none → owner (rlr core env).1 ≡ some core
  pub keeps :
      (core other : Core) (env : E) → owner env ≡ some other → owner (rlr core env).1 ≡ some other
  pub names :
      (core other : Core) (env : E)
      → owner (rlr core env).1 ≡ some other
      → ((rlr core env).0 / 2 ^ 8 % 256 ≡ hsem_core_id other) × (bit_and (rlr core env).0 lock ≢ 0)
  pub frees : (core : Core) (env : E) → owner env ≡ some core → owner (unlock core env) ≡ none

core_id_cancel : (c d : Core) → hsem_core_id c ≡ hsem_core_id d → c ≡ d
unfolding hsem_core_id
core_id_cancel cm7 cm7 e = refl
core_id_cancel cm7 cm4 e = absurd (omega arith)
core_id_cancel cm4 cm7 e = absurd (omega arith)
core_id_cancel cm4 cm4 e = refl

abbrev pub is_inside : Phase → Bool
is_inside inside = true
is_inside _ = false

Option-cases : {A : Type 0} (o : Option A) → (o ≡ none) ⊎ ((a : A) × (o ≡ some a))
Option-cases none = inl refl
Option-cases (some a) = inr (a, refl)

distinct_cores : cm7 ≢ cm4
unfolding hsem_core_id
distinct_cores e = let ids = ap hsem_core_id e in omega (arith, ids)

module _ {E : Type 0} (rlr : Core → E → ℕ × E) (unlock : Core → E → E) (lock : ℕ)
    (owner : E → Option Core) (shared : IsShared rlr unlock lock owner) where
  abbrev Held : Core → Phase → E → Type 0
  Held core p env = is_inside p ≡ true → owner env ≡ some core

  -- Whoever reads, somebody has the semaphore then.
  owned : (core : Core) (env : E) → (other : Core) × (owner (rlr core env).1 ≡ some other)
  owned core env = elim (Option-cases (owner env)) [
    | inl free ↦ (core, shared.takes core env free)
    | inr (other, taken) ↦ (other, shared.keeps core other env taken)
  ]

  -- A second reading that lets a thread in was its core's.
  after_second-owner :
      (core : Core) (env : E)
      → is_inside (after_second rlr unlock lock core (rlr core env).0) ≡ true
      → owner (rlr core env).1 ≡ some core
  unfolding after_second
  after_second-owner core env e =
      let (other, has_it) = owned core env in
      let (named, locked) = shared.names core other env has_it in
      elim (ℕ_discrete (hsem_core_id other) (hsem_core_id core)) [
        | yes same ↦ has_it ∙ ap some (core_id_cancel other core same)
        | no differ ↦
            let refused : ((rlr core env).0 / 2 ^ 8 % 256 == hsem_core_id core) ≡ false =
              ==_ne _ (hsem_core_id core) (λ q. differ (sym named ∙ q)) in
            absurd (cc (refused, e))
      ]

  after_first-outside : (r : ℕ) → is_inside (after_first rlr unlock lock r) ≡ false
  unfolding after_first
  after_first-outside r = ground arith

  turn-Held :
      (core : Core) (p : Phase) (env : E)
      → Held core p env
      → Held core (turn rlr unlock lock core p env).0 (turn rlr unlock lock core p env).1
  unfolding turn
  turn-Held core outside env h e = cc e
  turn-Held core first_read env h e = cc (e, after_first-outside (rlr core env).0)
  turn-Held core second_read env h e = after_second-owner core env e
  turn-Held core inside env h e = cc e

  -- What the turn of a thread leaves the thread of the other core.
  turn-Held_other :
      (core other : Core) (p q : Phase) (env : E)
      → core ≢ other
      → Held core p env
      → Held other q env
      → Held other q (turn rlr unlock lock core p env).1
  unfolding turn
  turn-Held_other core other outside q env ne h k e = k e
  turn-Held_other core other first_read q env ne h k e = shared.keeps core other env (k e)
  turn-Held_other core other second_read q env ne h k e = shared.keeps core other env (k e)
  turn-Held_other core other inside q env ne h k e = absurd (ne (cc (h refl, k e)))

  abbrev BothHeld : Both E → Type 0
  BothHeld s = Held cm7 s.at_cm7 s.hw × Held cm4 s.at_cm4 s.hw

  take_turn-BothHeld :
      (core : Core) (s : Both E) → BothHeld s → BothHeld (take_turn rlr unlock lock core s)
  unfolding take_turn
  take_turn-BothHeld cm7 s (h7, h4) = (
    turn-Held cm7 s.at_cm7 s.hw h7,
    turn-Held_other cm7 cm4 s.at_cm7 s.at_cm4 s.hw distinct_cores h7 h4,
  )
  take_turn-BothHeld cm4 s (h7, h4) = (
    turn-Held_other cm4 cm7 s.at_cm4 s.at_cm7 s.hw (λ e. distinct_cores (sym e)) h4 h7,
    turn-Held cm4 s.at_cm4 s.hw h4,
  )

  foldl-BothHeld :
      (schedule : List Core) (s : Both E)
      → BothHeld s
      → BothHeld (foldl (λ s' core. take_turn rlr unlock lock core s') s schedule)
  foldl-BothHeld [] s h = h
  foldl-BothHeld (core ∷ schedule) s h =
      foldl-BothHeld schedule (take_turn rlr unlock lock core s) (take_turn-BothHeld core s h)

  -- A thread of each core tries for the semaphore and gives it up, any number of times and in
  -- turns that follow each other in any order: at no time are both between constructor and
  -- destructor. The threads start outside, and the hardware keeps to its manual.
  pub turns-exclusive :
      (schedule : List Core) (env : E)
      → let s =
          foldl
            (λ s' core. take_turn rlr unlock lock core s')
            (record { at_cm7 = outside; at_cm4 = outside; hw = env })
            schedule in
        (is_inside s.at_cm7 && is_inside s.at_cm4) ≡ false
  turns-exclusive schedule env =
      let start : Both E = record { at_cm7 = outside; at_cm4 = outside; hw = env } in
      let s = foldl (λ s' core. take_turn rlr unlock lock core s') start schedule in
      let held : BothHeld s = foldl-BothHeld schedule start ((λ e. cc e), (λ e. cc e)) in
      elim (Bool-cases (is_inside s.at_cm7)) [
        | inl first ↦ elim (Bool-cases (is_inside s.at_cm4)) [
          | inl second ↦ absurd (distinct_cores (cc (held.0 first, held.1 second)))
          | inr out ↦ rw (first, out) refl
        ]
        | inr out ↦ rw out refl
      ]

  -- A thread whose first reading has found or taken the semaphore for its core gets in.
  enters :
      (core : Core) (env : E)
      → owner (rlr core env).1 ≡ some core
      → turn rlr unlock lock core (after_first rlr unlock lock (rlr core env).0) (rlr core env).1
        ≡ (inside, (rlr core (rlr core env).1).1)
  unfolding turn after_first after_second
  enters core env has_it =
      let env1 = (rlr core env).1 in
      let locked = (shared.names core core env has_it).1 in
      let named = (shared.names core core env1 (shared.keeps core core env1 has_it)).0 in
      let second : after_first rlr unlock lock (rlr core env).0 ≡ second_read =
        rw (==_ne (bit_and (rlr core env).0 lock) 0 locked) refl in
      let hit : after_second rlr unlock lock core (rlr core env1).0 ≡ inside =
        rw (named, ==_self (hsem_core_id core)) refl in
      ap (λ p. turn rlr unlock lock core p env1) second ∙ ap (λ p. (p, (rlr core env1).1)) hit

  -- While a thread of a core has the semaphore, another thread of that core gets in by its first
  -- two readings; when the one that was there leaves, a thread of the other core gets in by two
  -- readings, beside the one that stayed. The hardware keeps to its manual.
  pub same_core_shares :
      (core other : Core) (env : E)
      → owner env ≡ some core
      → let (p1, env1) = turn rlr unlock lock core first_read env in
        let (p2, env2) = turn rlr unlock lock core p1 env1 in
        let (p3, env3) = turn rlr unlock lock core inside env2 in
        let (p4, env4) = turn rlr unlock lock other first_read env3 in
        let (p5, env5) = turn rlr unlock lock other p4 env4 in
        (p2 ≡ inside) × (p3 ≡ outside) × (p5 ≡ inside)
  unfolding turn
  same_core_shares core other env has_it =
      let read1 = shared.keeps core core env has_it in
      let env2 = (rlr core (rlr core env).1).1 in
      let gone : owner (unlock core env2) ≡ none =
        shared.frees core env2 (shared.keeps core core (rlr core env).1 read1) in
      let in1 = enters core env read1 in
      let left = ap (λ (r : Phase × E). unlock core r.1) in1 in
      let read3 = shared.takes other (unlock core env2) gone in
      let in2 = enters other (unlock core env2) read3 in
      (
        ap (λ (r : Phase × E). r.0) in1,
        refl,
        ap
              (λ e.
                (turn rlr unlock lock other (after_first rlr unlock lock (rlr other e).0)
                  (rlr other e).1).0)
              left
            ∙ ap (λ (r : Phase × E). r.0) in2,
      )
