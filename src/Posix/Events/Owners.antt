-- ===== src/Posix/Events/Owners.antt =====
-- Who holds the events of a thread: runs of `register_evt`, `unregister_evt`, `signal` and waits of
-- DC_PAL_Posix/Threads.cpp, each under the thread's semaphore, in any order.
use libdronecan.Prelude.{
  ℕ, suc, ◌+◌, Bool, ◌-◌, ◌^◌, ◌≤◌, ◌<◌, ◌≡◌, ◌≢◌, refl, sym, ◌∙◌, ap, not, ◌&&◌, some, List, [],
  ◌∷◌, arith, ◌==◌, if◌then◌else◌, ℕ_discrete, dec_lt,
}
use libdronecan.Prelude.Bits.{
  test_bit, test_bit-and, test_bit-pow, test_bit-not, bit_and-le, pow_lt,
}
use libdronecan.Posix.Events.{
  EventState, not32, signal, register_evt, unregister_evt, Waited, wait_any, wait_any_loop,
}
use libdronecan.Posix.Events.Signal.{signal-bits}
use libdronecan.Posix.Events.Register.{register_evt-bits}

-- The events of a thread, and those that `register_evt` gave and that were not given back.
pub record Owners : Type 0 where
  pub events : EventState
  pub owned : List ℕ

abbrev pub count : ℕ → List ℕ → ℕ
count i [] = 0
count i (x ∷ xs) = if x == i then suc (count i xs) else count i xs

-- The list without the first `i`.
abbrev pub erase : ℕ → List ℕ → List ℕ
erase i [] = []
erase i (x ∷ xs) = let rest = erase i xs in if x == i then xs else x ∷ rest

-- A thread starts with whatever the memory of its masks held, as the constructor sets neither;
-- `stale` is what it held as `registered_events`. Only an event that is held is given back. A wait that ends at once leaves what `wait_any` leaves, and one that had to wait leaves
-- nothing posted.
pub data Reachable (stale : ℕ) : Owners → Type 0 where
  start :
      (signalled : ℕ) (cond_signalled : Bool)
      → Reachable stale (record {
        events = record {
          registered = stale;
          signalled = signalled;
          cond_signalled = cond_signalled;
        };
        owned = [];
      })
  registers :
      {o : Owners} {s : EventState} (id : ℕ)
      → Reachable stale o
      → register_evt o.events ≡ (some id, s)
      → Reachable stale (record { events = s; owned = id ∷ o.owned })
  gives_back :
      {o : Owners} (id : ℕ)
      → Reachable stale o
      → 0 < count id o.owned
      → Reachable stale (record { events = unregister_evt o.events id; owned = erase id o.owned })
  signals :
      {o : Owners} (mask : ℕ)
      → Reachable stale o
      → Reachable stale (record o { events = signal o.events mask })
  ends_at_once :
      {o : Owners} (mask : ℕ) (r : Waited)
      → Reachable stale o
      → wait_any o.events mask [] ≡ some r
      → Reachable stale (record o { events = r.state })
  ends_later :
      {o : Owners}
      → Reachable stale o
      → Reachable stale (record o { events = record o.events { signalled = 0 } })

-- Event `i` is held as often as its bit says, unless the bit was there from the start.
abbrev expected : ℕ → ℕ → ℕ
expected m i = if test_bit m i then 1 else 0

record IsOwned (stale : ℕ) (o : Owners) : Type 0 where
  in_range : o.events.registered < 2 ^ 32
  below : (i : ℕ) → 32 ≤ i → count i o.owned ≡ 0
  held : (i : ℕ) → i < 32 → count i o.owned + expected stale i ≡ expected o.events.registered i

count-erase_self : (i : ℕ) (xs : List ℕ) → count i (erase i xs) ≡ count i xs - 1
count-erase_self i [] = refl
count-erase_self i (x ∷ xs) = ground (arith, count-erase_self i xs)

count-erase_other : (i j : ℕ) (xs : List ℕ) → j ≢ i → count i (erase j xs) ≡ count i xs
count-erase_other i j [] ne = refl
count-erase_other i j (x ∷ xs) ne = ground (arith, count-erase_other i j xs ne)

registers-IsOwned :
    (stale : ℕ) (o : Owners) (s : EventState) (id : ℕ)
    → IsOwned stale o
    → register_evt o.events ≡ (some id, s)
    → IsOwned stale (record { events = s; owned = id ∷ o.owned })
registers-IsOwned stale o s id v got =
    let bits = register_evt-bits o.events s id v.in_range got in
    record {
      in_range = (bits 0).4;
      below = λ i le. ground (arith, v.below i le, (bits i).0);
      held = λ i lt. ground (arith, v.held i lt, bits i, ap (test_bit o.events.registered));
    }

-- Taking an event out of the mask clears its bit alone.
unregister_evt-bits :
    (s : EventState) (id i : ℕ)
    → id < 32
    → i < 32
    → test_bit (unregister_evt s id).registered i ≡ (test_bit s.registered i && not (id == i))
unfolding unregister_evt
unregister_evt-bits s id i small lt = ground (
  arith,
  test_bit-and i s.registered (not32 (2 ^ id)),
  test_bit-not 32 i (2 ^ id) (pow_lt id small) lt,
  test_bit-pow id i,
)

gives_back-IsOwned :
    (stale : ℕ) (o : Owners) (id : ℕ)
    → IsOwned stale o
    → 0 < count id o.owned
    → IsOwned stale (record { events = unregister_evt o.events id; owned = erase id o.owned })
gives_back-IsOwned stale o id v some_held = record {
  in_range = unfold unregister_evt in bit_and-le 32 o.events.registered (not32 (2 ^ id)) v.in_range;
  below = λ i le. count-erase_other i id o.owned (λ e. omega (arith, e, small)) ∙ v.below i le;
  held = λ i lt. elim (ℕ_discrete id i) [
    | yes e ↦ ground (
      arith,
      e,
      count-erase_self id o.owned,
      v.held id small,
      unregister_evt-bits o.events id i small lt,
    )
    | no ne ↦ ground (
      arith,
      count-erase_other i id o.owned ne,
      v.held i lt,
      unregister_evt-bits o.events id i small lt,
    )
  ];
}
  where
    small : id < 32
    small = elim (dec_lt id 32) [
      | yes lt ↦ lt
      | no ge ↦ absurd (omega (arith, v.below id (omega arith)))
    ]

-- The posted events do not matter to who holds what.
IsOwned-signalled :
    (stale : ℕ) (o : Owners) (s : EventState)
    → s.registered ≡ o.events.registered
    → IsOwned stale o
    → IsOwned stale (record o { events = s })
IsOwned-signalled stale o s same v = record {
  in_range = omega (arith, same, v.in_range);
  below = v.below;
  held = λ i lt. v.held i lt ∙ ap (λ m. expected m i) (sym same);
}

wait_any-registered :
    (s : EventState) (mask : ℕ) (r : Waited)
    → wait_any s mask [] ≡ some r
    → r.state.registered ≡ s.registered
unfolding wait_any wait_any_loop
wait_any-registered s mask r e = ground arith

module _ {stale : ℕ} (small : stale < 2 ^ 32) where
  Reachable-IsOwned : {o : Owners} → Reachable stale o → IsOwned stale o
  Reachable-IsOwned (start signalled cond_signalled) = record {
    in_range = small;
    below = λ i le. refl;
    held = λ i lt. omega arith;
  }
  Reachable-IsOwned (registers {o = o} {s = s} id r got) =
      registers-IsOwned stale o s id (Reachable-IsOwned r) got
  Reachable-IsOwned (gives_back {o = o} id r h) =
      gives_back-IsOwned stale o id (Reachable-IsOwned r) h
  Reachable-IsOwned (signals {o = o} mask r) =
      IsOwned-signalled stale o (signal o.events mask) (signal-bits o.events mask 0).1
        (Reachable-IsOwned r)
  Reachable-IsOwned (ends_at_once {o = o} mask w r e) =
      IsOwned-signalled stale o w.state (wait_any-registered o.events mask w e)
        (Reachable-IsOwned r)
  Reachable-IsOwned (ends_later {o = o} r) =
      IsOwned-signalled stale o (record o.events { signalled = 0 }) refl (Reachable-IsOwned r)

  -- Whatever 32-bit mask the memory of `registered_events` held at first: after any sequence of
  -- registrations, signals, ended waits, and of giving back events that are held, each of the 32
  -- events whose bit was clear at first is held once if it is registered and by nobody if it is
  -- not, and each whose bit was set at first stays registered and is held by nobody.
  pub Reachable-held_once :
      (o : Owners) (i : ℕ)
      → Reachable stale o
      → i < 32
      → count i o.owned + (if test_bit stale i then 1 else 0)
        ≡ (if test_bit o.events.registered i then 1 else 0)
  Reachable-held_once o i r lt = (Reachable-IsOwned r).held i lt

  -- After any such sequence, `register_evt` gives an event that nobody holds.
  pub register_evt-unowned :
      (o : Owners) (s : EventState) (id : ℕ)
      → Reachable stale o
      → register_evt o.events ≡ (some id, s)
      → (id < 32) × (count id o.owned ≡ 0)
  register_evt-unowned o s id r got =
      let v = Reachable-IsOwned r in
      let bits = register_evt-bits o.events s id v.in_range got 0 in
      (bits.0, ground (arith, v.held id bits.0, bits.1))
