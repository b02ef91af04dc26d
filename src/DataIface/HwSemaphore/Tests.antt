-- ===== src/DataIface/HwSemaphore/Tests.antt =====
-- Runs of a semaphore that both cores try for.
use mathlib.Core.List.{foldl}
use libdronecan.Prelude.{
  ℕ, ◌/◌, ◌%◌, ◌^◌, ◌≡◌, ◌≢◌, refl, sym, Option, none, some, arith, List, [], ◌∷◌, bit_and, false,
  ◌&&◌,
}
use libdronecan.DataIface.ShMem.{Core, cm7, cm4, hsem_core_id}
use libdronecan.DataIface.HwSemaphore.Turns.{
  outside, first_read, inside, turn, take_turn, after_first, after_second,
}
use libdronecan.DataIface.HwSemaphore.Exclusion.{
  IsShared, is_inside, turns-exclusive, same_core_shares,
}

-- A semaphore that both cores try for; the state is the core that has it.
abbrev word_of : Core → ℕ
word_of cm7 = 0x80000300
word_of cm4 = 0x80000100

abbrev read_lock : Core → Option Core → ℕ × Option Core
read_lock core none = (word_of core, some core)
read_lock core (some other) = (word_of other, some other)

abbrev unlock : Core → Option Core → Option Core
unlock core env = none

word_of-names :
    (core : Core)
    → (word_of core / 2 ^ 8 % 256 ≡ hsem_core_id core) × (bit_and (word_of core) (2 ^ 31) ≢ 0)
unfolding hsem_core_id
word_of-names cm7 = (refl, omega arith)
word_of-names cm4 = (refl, omega arith)

read_lock-names :
    (core other : Core) (env : Option Core)
    → (read_lock core env).1 ≡ some other
    → ((read_lock core env).0 / 2 ^ 8 % 256 ≡ hsem_core_id other)
      × (bit_and (read_lock core env).0 (2 ^ 31) ≢ 0)
read_lock-names core other none e =
    let same : core ≡ other = cc e in rw (sym same) (word_of-names core)
read_lock-names core other (some owner) e =
    let same : owner ≡ other = cc e in rw (sym same) (word_of-names owner)

both-IsShared : IsShared read_lock unlock (2 ^ 31) (λ env. env)
both-IsShared = record {
  takes = λ core env e. rw e refl;
  keeps = λ core other env e. rw e refl;
  names = read_lock-names;
  frees = λ core env e. refl;
}

-- The first core gets in, the second tries, the first leaves, the second gets in.
abbrev schedule : List Core
schedule = cm7 ∷ cm7 ∷ cm4 ∷ cm7 ∷ cm4 ∷ cm7 ∷ cm4 ∷ []

turns-exclusive_example :
    let s =
      foldl
        (λ s' core. take_turn read_lock unlock (2 ^ 31) core s')
        (record { at_cm7 = outside; at_cm4 = outside; hw = none })
        schedule in
    (is_inside s.at_cm7 && is_inside s.at_cm4) ≡ false
turns-exclusive_example =
    turns-exclusive read_lock unlock (2 ^ 31) (λ env. env) both-IsShared schedule none

same_core_shares_example :
    let (p1, env1) = turn read_lock unlock (2 ^ 31) cm7 first_read (some cm7) in
    let (p2, env2) = turn read_lock unlock (2 ^ 31) cm7 p1 env1 in
    let (p3, env3) = turn read_lock unlock (2 ^ 31) cm7 inside env2 in
    let (p4, env4) = turn read_lock unlock (2 ^ 31) cm4 first_read env3 in
    let (p5, env5) = turn read_lock unlock (2 ^ 31) cm4 p4 env4 in
    (p2 ≡ inside) × (p3 ≡ outside) × (p5 ≡ inside)
same_core_shares_example =
    same_core_shares read_lock unlock (2 ^ 31) (λ env. env) both-IsShared cm7 cm4 (some cm7) refl

second_gets_in :
    (foldl
      (λ s' core. take_turn read_lock unlock (2 ^ 31) core s')
      (record { at_cm7 = outside; at_cm4 = outside; hw = none })
      schedule).at_cm4
    ≡ inside
unfolding take_turn turn after_first after_second hsem_core_id
second_gets_in = refl
