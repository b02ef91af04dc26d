-- ===== src/Posix/Events/Register.antt =====
-- `register_evt` and `unregister_evt` of DC_PAL_Posix/Threads.cpp.
use native.Mathlib.Nat.{one-le-pow}
use libdronecan.Prelude.{
  ℕ, zero, suc, ◌+◌, ◌^◌, ◌≤◌, ◌<◌, ◌≡◌, ◌≢◌, ◌↔◌, ◌⊎◌, inl, inr, refl, sym, ◌∙◌, ap, true, false,
  ◌||◌, Option, none, some, arith, ◌==◌, ==_iff, Bool-cases, ℕ_discrete, bit_and, bit_or,
}
use libdronecan.Prelude.Bits.{
  test_bit, bit_and-pow, test_bit-and, test_bit-or, test_bit-pow, test_bit-not, test_bit-zero,
  eq_of_bits, bit_and-le, bit_or-lt, pow_lt,
}
use libdronecan.Posix.Events.{
  EventState, all_events, not32, meets, first_free, register_evt, unregister_evt,
}

-- Bit `i` of a mask says whether event `i` is in it.
pub meets-pow : (m i : ℕ) → meets m (2 ^ i) ≡ test_bit m i
meets-pow m i = ground (arith, bit_and-pow i m, one-le-pow i 2)

-- The search stops at the first event that is not registered.
first_free_lem :
    (k m id : ℕ)
    → let r = first_free k m id in
      (id ≤ r)
      × (r ≤ id + k)
      × ((r ≡ id + k) ⊎ (test_bit m r ≡ false))
      × ((j : ℕ) → id ≤ j → j < r → test_bit m j ≡ true)
unfolding first_free
first_free_lem zero m id =
    (omega arith, omega arith, inl (omega arith), λ j p q. absurd (omega arith))
first_free_lem (suc k) m id = elim (Bool-cases (test_bit m id)) [
  | inl used ↦
      let (low, high, found, all_used) = first_free_lem k m (id + 1) in
      rw (meets-pow m id, used, first_free)
        (
          omega (arith, low),
          omega (arith, high),
          elim found [ inl e ↦ inl (omega arith) | inr f ↦ inr f ],
          λ j p q. elim (ℕ_discrete id j) [
            | yes e ↦ rw (sym e) used
            | no ne ↦ all_used j (omega arith) q
          ],
        )
  | inr free ↦
      rw (meets-pow m id, free, first_free)
        (omega arith, omega arith, inr free, λ j p q. absurd (omega arith))
]

test_bit-all_events : (i : ℕ) → i < 32 → test_bit all_events i ≡ true
test_bit-all_events i lt = ground (arith, test_bit-not 32 i 0 (omega arith) lt, test_bit-zero i)

-- A mask with all 32 events is `all_events`.
all_used-eq : (m : ℕ) → m < 2 ^ 32 → ((j : ℕ) → j < 32 → test_bit m j ≡ true) → m ≡ all_events
all_used-eq m h used =
    eq_of_bits 32 m all_events h (omega arith) (λ i lt. used i lt ∙ sym (test_bit-all_events i lt))

-- What a registration of the event `id` does.
record Granted (s : EventState) (id : ℕ) : Type 0 where
  in_range : id < 32
  was_free : test_bit s.registered id ≡ false
  lower_used : (j : ℕ) → j < id → test_bit s.registered j ≡ true
  outcome : register_evt s ≡ (some id, record s { registered = bit_or s.registered (2 ^ id) })

register_evt-cases :
    (s : EventState)
    → s.registered < 2 ^ 32
    → ((s.registered ≡ all_events) × (register_evt s ≡ (none, s))) ⊎ ((id : ℕ) × Granted s id)
unfolding register_evt
register_evt-cases s h = elim (ℕ_discrete s.registered all_events) [
  | yes e ↦ inl (e, rw (let q : (s.registered == all_events) ≡ true = ground arith in q))
  | no ne ↦
      let (low, high, found, used) = first_free_lem 32 s.registered 0 in
      elim (ℕ_discrete (first_free 32 s.registered 0) 32) [
        | yes full ↦
            absurd (ne (all_used-eq s.registered h (λ j lt. used j (omega arith) (omega arith))))
        | no below ↦ inr (
          first_free 32 s.registered 0,
          record {
            in_range = omega (arith, high);
            was_free = elim found [ inl full ↦ absurd (below full) | inr free ↦ free ];
            lower_used = λ j lt. used j (omega arith) lt;
            outcome = ground arith;
          },
        )
      ]
]

-- `register_evt` fails, and changes nothing, exactly when all 32 events of the mask are
-- registered.
pub register_evt-none_iff :
    (s : EventState)
    → s.registered < 2 ^ 32
    → (register_evt s ≡ (none, s)) ↔ (s.registered ≡ all_events)
register_evt-none_iff s h = elim (register_evt-cases s h) [
  | inl (full, e) ↦ (λ _. full, λ _. e)
  | inr (id, g) ↦ (
    λ e. absurd (some_ne_none (ap (λ (r : Option ℕ × EventState). r.0) (sym g.outcome ∙ e))),
    λ full.
        absurd
          (cc (sym g.was_free ∙ ap (λ m. test_bit m id) full ∙ test_bit-all_events id g.in_range)),
  )
]
  where
    some_ne_none : {id : ℕ} → some id ≢ none
    some_ne_none e = cc

same_bit : (m i j : ℕ) → (i == j) ≡ true → test_bit m i ≡ test_bit m j
same_bit m i j e = ap (test_bit m) ((==_iff i j).0 e)

module _ (s s' : EventState) (id : ℕ) (h : s.registered < 2 ^ 32)
    (got : register_evt s ≡ (some id, s')) where
  granted : Granted s id × (s' ≡ record s { registered = bit_or s.registered (2 ^ id) })
  granted = elim (register_evt-cases s h) [
    | inl (full, e) ↦ absurd (cc (sym e ∙ got))
    | inr (id', g) ↦
        let both : (some id', record s { registered = bit_or s.registered (2 ^ id') })
            ≡ (some id, s') =
          sym g.outcome ∙ got in
        let e : id' ≡ id = cc both in
        let left : s' ≡ record s { registered = bit_or s.registered (2 ^ id') } =
          ap (λ (r : Option ℕ × EventState). r.1) (sym both) in
        (rw e at g, rw e at left)
  ]

  -- An event that `register_evt` gives is below 32 and was not registered, and the 32-bit mask
  -- then has it beside those that it had; what is posted does not change.
  pub register_evt-bits :
      (i : ℕ)
      → (id < 32)
        × (test_bit s.registered id ≡ false)
        × (test_bit s'.registered i ≡ (test_bit s.registered i || id == i))
        × (s'.signalled ≡ s.signalled)
        × (s'.registered < 2 ^ 32)
  register_evt-bits i =
      let small : 2 ^ id < 2 ^ 32 = pow_lt id granted.0.in_range in
      rw granted.1 (
        granted.0.in_range,
        granted.0.was_free,
        test_bit-or i s.registered (2 ^ id)
            ∙ ap (λ b. test_bit s.registered i || b) (test_bit-pow id i),
        refl,
        bit_or-lt 32 s.registered (2 ^ id) h small,
      )

  -- The event that `register_evt` gives is the lowest one that is free.
  pub register_evt-lowest : (j : ℕ) → j < id → test_bit s.registered j ≡ true
  register_evt-lowest j lt = granted.0.lower_used j lt

  -- Unregistering the event that `register_evt` gave restores the 32-bit mask and what is posted.
  pub unregister-register : unregister_evt s' id ≡ s
  unfolding unregister_evt
  unregister-register =
      let small : 2 ^ id < 2 ^ 32 = pow_lt id granted.0.in_range in
      rw granted.1 (
        ap (λ m. record s { registered = m })
          (eq_of_bits 32 (bit_and (bit_or s.registered (2 ^ id)) (not32 (2 ^ id))) s.registered
            (bit_and-le 32 (bit_or s.registered (2 ^ id)) (not32 (2 ^ id))
              (bit_or-lt 32 s.registered (2 ^ id) h small))
            h
            λ i lt. ground (
              arith,
              test_bit-and i (bit_or s.registered (2 ^ id)) (not32 (2 ^ id)),
              test_bit-or i s.registered (2 ^ id),
              test_bit-not 32 i (2 ^ id) small lt,
              test_bit-pow id i,
              granted.0.was_free,
              same_bit s.registered id i,
            )))
