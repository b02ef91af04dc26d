-- ===== src/Posix/WorkerRun/Laws.antt =====
-- What makes a worker call an event object: rounds of `Worker::run` (DC_PAL/Worker.cpp) over the
-- events of its thread.
use mathlib.Core.List.{foldl}
use libdronecan.Prelude.{
  ℕ, ◌^◌, ◌<◌, ◌≡◌, refl, sym, ap, ◌∙◌, Bool, true, false, List, [], ◌∷◌, ◌++◌, length, arith,
  ==_self, if◌then◌else◌, bit_and, bit_or, ℕ_discrete, some,
}
use libdronecan.Prelude.Bits.{test_bit, test_bit-and, test_bit-or, eq_of_bits, bit_and-le}
use libdronecan.Pal.Links.{Ptr, returns, Chain-same, has}
use libdronecan.Pal.Worker.{
  event, Objects, Worker, links_of, after_time, event_due, pass_walk, plan,
}
use libdronecan.Pal.Worker.Register.{IsWorker}
use libdronecan.Pal.Worker.Trigger.{get_next_trigger_us-returns}
use libdronecan.Pal.Worker.Pass.{due_list, pass_walk-due}
use libdronecan.Posix.Events.{
  EventState, meets, Op, op_signal, apply_ops, Wake, Waited, asleep, wait_any,
}
use libdronecan.Posix.Events.Wait.{wait_any-ready, wait_any-signal}
use libdronecan.Posix.WorkerRun.{Round, after_wait, wait_round, round}

-- `m` has no event but those of `e`.
abbrev pub Within : ℕ → ℕ → Type 0
Within m e = bit_and m e ≡ m

Within-or : (m a e : ℕ) → m < 2 ^ 32 → Within m e → Within m (bit_or a e)
Within-or m a e h within =
    eq_of_bits 32 (bit_and m (bit_or a e)) m (bit_and-le 32 m (bit_or a e) h) h λ i lt. ground (
      arith,
      test_bit-and i m (bit_or a e),
      test_bit-or i a e,
      test_bit-and i m e,
      ap (λ k. test_bit k i) within,
    )

-- An event object whose events are all reported is due.
event_due-Within : (m mask : ℕ) (any : Bool) → Within m mask → event_due mask (event m any) ≡ true
unfolding event_due
event_due-Within m mask any within = rw (within, ==_self m)

-- The objects that a round calls.
has-due_list :
    (t mask : ℕ) (objs : Objects) (y : Ptr) (xs : List Ptr)
    → has y xs ≡ true
    → event_due mask (objs y).kind ≡ true
    → has y (due_list t mask objs xs) ≡ true
unfolding due_list
has-due_list t mask objs y [] inside due = cc
has-due_list t mask objs y (x ∷ xs) inside due = elim (ℕ_discrete y x) [
  | yes e ↦
      let here : event_due mask (objs x).kind ≡ true =
        ap (λ a. event_due mask (objs a).kind) (sym e) ∙ due in
      ground (arith, here)
  | no other ↦ ground (arith, has-due_list t mask objs y xs)
]

module _ {E : Type 0} (t : ℕ) (micros64 : E → ℕ × E) (invoke : Ptr → E → E)
    (still : (env : E) → micros64 env ≡ (t, env)) where
  -- A round that ends as the wait ends, with the objects as the pass leaves them.
  round-wait :
      (fuel : ℕ) (w : Worker) (xs : List Ptr) (events : EventState) (evt_msk : ℕ)
      (meanwhile : List Op) (ws : List Wake) (env : E)
      → IsWorker w xs
      → length xs < fuel
      → (objs : Objects) × (env' : E) × (round micros64 invoke fuel w events evt_msk meanwhile ws
            env
          ≡ returns (
              after_wait objs env'
                (wait_any (apply_ops events meanwhile) (apply_ops events meanwhile).registered ws)))
        × IsWorker (record w { objs = objs }) xs
        × ((a : Ptr)
            → (objs a).kind
              ≡ (if has a xs then after_time t t (w.objs a).kind else (w.objs a).kind))
  unfolding round wait_round plan
  round-wait fuel w xs events evt_msk meanwhile ws env is enough =
      let (objs, passed, kinds, nexts) =
        pass_walk-due t micros64 invoke still fuel evt_msk w.objs w.head env xs is.chain is.distinct
          enough in
      let chain =
        Chain-same (links_of w.objs) (links_of objs) w.head xs (λ a h. nexts a) is.chain in
      let (next, found) =
        get_next_trigger_us-returns fuel (record w { objs = objs }) xs chain enough in
      let env1 = foldl (λ e a. invoke a e) env (due_list t evt_msk w.objs xs) in
      (
        objs,
        env1,
        rw (round, passed, found, wait_round, plan, still env1) refl,
        record { chain = chain; distinct = is.distinct },
        kinds,
      )

  -- The objects `ys` that the next pass calls.
  pub record Calls (fuel : ℕ) (head : Ptr) (r : Round E) (ys : List Ptr) : Type 0 where
    pub objs' : Objects
    pub passed :
        pass_walk micros64 invoke fuel r.evt_msk r.objs head r.env
        ≡ returns (objs', foldl (λ e a. invoke a e) r.env ys)

  -- A mask that has all events of an event object makes the next pass call it.
  Calls-Within :
      (fuel : ℕ) (w : Worker) (xs : List Ptr) (r : Round E) (y : Ptr) (m : ℕ) (any : Bool)
      → IsWorker (record w { objs = r.objs }) xs
      → length xs < fuel
      → has y xs ≡ true
      → (r.objs y).kind ≡ event m any
      → Within m r.evt_msk
      → (ys : List Ptr) × Calls fuel w.head r ys × (has y ys ≡ true)
  Calls-Within fuel w xs r y m any is enough inside kind within =
      let (objs', passed, kinds, nexts) =
        pass_walk-due t micros64 invoke still fuel r.evt_msk r.objs w.head r.env xs is.chain
          is.distinct enough in
      (
        due_list t r.evt_msk r.objs xs,
        record { objs' = objs'; passed = passed },
        has-due_list t r.evt_msk r.objs y xs inside
            (ap (event_due r.evt_msk) kind ∙ event_due-Within m r.evt_msk any within),
      )

  module _ (fuel : ℕ) (w : Worker) (xs : List Ptr) (events : EventState) (evt_msk : ℕ)
      (meanwhile : List Op) (env : E) (y : Ptr) (m : ℕ) (any : Bool) (is : IsWorker w xs)
      (enough : length xs < fuel) (inside : has y xs ≡ true)
      (kind : (w.objs y).kind ≡ event m any) where
    -- From the end of the wait to the next pass.
    Calls-after_wait :
        (ws : List Wake) (r : Waited)
        → wait_any (apply_ops events meanwhile) (apply_ops events meanwhile).registered ws ≡ some r
        → Within m r.evt_mask
        → (next : Round E) × (round micros64 invoke fuel w events evt_msk meanwhile ws env
            ≡ returns (some next))
          × (next.events ≡ r.state)
          × (ys : List Ptr) × Calls fuel w.head next ys
          × (has y ys ≡ true)
    unfolding after_time
    Calls-after_wait ws r waited within =
        let (objs, env', ended, is', kinds) =
          round-wait fuel w xs events evt_msk meanwhile ws env is enough in
        let next : Round E = record {
          objs = objs;
          events = r.state;
          evt_msk = r.evt_mask;
          env = env';
        } in
        let same : (objs y).kind ≡ event m any = rw (kinds y, inside, kind) refl in
        let (ys, calls, called) =
          Calls-Within fuel w xs next y m any is' enough inside same within in
        (next, ended ∙ ap (λ o. returns (after_wait objs env' o)) waited, refl, ys, calls, called)

    -- While a worker waits, a signal that has all events of one of its event objects wakes it:
    -- when the thread next has the semaphore, without a timeout or a spurious return, the round
    -- ends, leaves no event posted, and makes the next pass call that object, whatever the other
    -- threads did before the signal. No registered event is posted when the wait begins; some
    -- event of the signal is registered then, and when the signal comes. The masks fit 32 bits,
    -- the clock stands still, and the rounds are more than the objects.
    pub signal-Calls :
        (signalled : ℕ) (before : List Op) (ws : List Wake)
        → m < 2 ^ 32
        → signalled < 2 ^ 32
        → Within m signalled
        → meets (apply_ops events meanwhile).signalled (apply_ops events meanwhile).registered
          ≡ false
        → meets signalled (apply_ops events meanwhile).registered ≡ true
        → meets signalled (apply_ops (asleep (apply_ops events meanwhile)) before).registered ≡ true
        → (next : Round E) × (round micros64 invoke fuel w events evt_msk meanwhile
              (record {
                ops = before ++ (op_signal signalled ∷ []);
                timed_out = false;
                spurious = false;
              }
                ∷ ws)
              env
            ≡ returns (some next))
          × (next.events.signalled ≡ 0)
          × (ys : List Ptr) × Calls fuel w.head next ys
          × (has y ys ≡ true)
    signal-Calls signalled before ws small small' within quiet asked registered =
        let s1 = apply_ops events meanwhile in
        let s2 = apply_ops (asleep s1) before in
        let r : Waited = record {
          result = true;
          evt_mask = bit_or s2.signalled signalled;
          state = record s2 { signalled = 0; cond_signalled = true };
        } in
        let (next, ended, left, ys, calls, hit) =
          Calls-after_wait
            (record {
              ops = before ++ (op_signal signalled ∷ []);
              timed_out = false;
              spurious = false;
            }
              ∷ ws)
            r (wait_any-signal s1 s1.registered signalled before ws quiet small' registered asked)
            (Within-or m s2.signalled signalled small within) in
        (next, ended, ap (λ (s : EventState). s.signalled) left, ys, calls, hit)

    -- If an event that is registered was posted before the worker waits, the round ends and the
    -- next pass calls every event object of the worker whose events are all registered, whichever
    -- event was posted. The clock stands still, the mask of the registered events fits 32 bits,
    -- and the rounds are more than the objects.
    pub posted-Calls_all :
        (ws : List Wake)
        → (apply_ops events meanwhile).registered < 2 ^ 32
        → Within m (apply_ops events meanwhile).registered
        → meets (apply_ops events meanwhile).signalled (apply_ops events meanwhile).registered
          ≡ true
        → (next : Round E) × (round micros64 invoke fuel w events evt_msk meanwhile ws env
            ≡ returns (some next))
          × (ys : List Ptr) × Calls fuel w.head next ys
          × (has y ys ≡ true)
    posted-Calls_all ws small within hit =
        let s1 = apply_ops events meanwhile in
        let (r, waited, ok, mask, bits) =
          wait_any-ready s1 s1.registered 0 ws small (omega arith) hit in
        let (next, ended, left, ys, calls, called) =
          Calls-after_wait ws r waited (rw mask within) in
        (next, ended, ys, calls, called)
