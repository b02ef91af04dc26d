-- ===== src/Pal/Callbacks/Laws.antt =====
-- `register_cb` and `unregister_cb` of DC_PAL/Callbacks.h on the list of callbacks of an object.
use libdronecan.Prelude.{
  ℕ, zero, suc, ◌<◌, ◌≡◌, ◌≢◌, refl, ◌∙◌, true, false, List, [], ◌∷◌, ◌++◌, length, arith, ◌==◌,
  ==_ne, if◌then◌else◌, ℕ_discrete, Bool-cases, inl, inr,
}
use libdronecan.Pal.Links.{
  Ptr, null, Links, set_next, Run, returns, has, Distinct, Chain, erase, Chain-set_next,
  Distinct-erase, Distinct-snoc, has-append, has-erase,
}
use libdronecan.Pal.Callbacks.{register_loop, register_cb, unregister_loop, unregister_cb}

-- The callbacks `xs` hang on `this`, in order, all distinct and none of them `this`.
pub record Registered (n : Links) (this : Ptr) (xs : List Ptr) : Type 0 where
  pub chain : Chain n (n this) xs
  pub distinct : Distinct (this ∷ xs)
  pub this_ne : this ≢ null

record Appended (n : Links) (p : Ptr) (xs : List Ptr) (cb : Ptr) (r : Run Links) : Type 0 where
  links : Links
  result : r ≡ returns links
  chain : Chain links (links p) (xs ++ (cb ∷ []))
  same : (a : Ptr) → has a (p ∷ xs) ≡ false → a ≢ cb → links a ≡ n a

register_loop-Appended :
    (k : ℕ) (n : Links) (p cb : Ptr) (xs : List Ptr)
    → Chain n (n p) xs
    → Distinct (p ∷ xs)
    → cb ≢ null
    → has cb (p ∷ xs) ≡ false
    → length xs < k
    → Appended n p xs cb (register_loop k n p cb)
unfolding register_loop
register_loop-Appended zero n p cb xs c d on out fuel = absurd (omega arith)
register_loop-Appended (suc k) n p cb [] c d on out fuel = record {
  links = set_next (set_next n p cb) cb null;
  result = ground arith;
  chain = (ground arith, on, ground arith);
  same = λ a h ne. ground arith;
}
register_loop-Appended (suc k) n p cb (x ∷ xs) c d on out fuel =
    let rest = register_loop-Appended k n x cb xs c.2 d.1 on (ground arith) (omega arith) in
    let at : rest.links p ≡ x = rest.same p d.0 (ground arith) ∙ c.0 in
    record {
      links = rest.links;
      result = ground (arith, rest.result);
      chain = (at, c.1, rest.chain);
      same = λ a h ne. rest.same a (ground arith) ne;
    }

register_loop-present :
    (k : ℕ) (n : Links) (p cb : Ptr) (xs : List Ptr)
    → Chain n (n p) xs
    → has cb xs ≡ true
    → length xs < k
    → register_loop k n p cb ≡ returns n
unfolding register_loop
register_loop-present zero n p cb xs c inside fuel = absurd (omega arith)
register_loop-present (suc k) n p cb [] c inside fuel = cc
register_loop-present (suc k) n p cb (x ∷ xs) c inside fuel =
    ground (arith, register_loop-present k n x cb xs c.2)

-- Registering a callback, neither null nor the owner, hangs it behind the others if it is not
-- there, and changes the list in no way if it is; each callback stands in the list once. The loop
-- is given more rounds than there are callbacks.
pub register_cb-Registered :
    (fuel : ℕ) (n : Links) (this cb : Ptr) (xs : List Ptr)
    → Registered n this xs
    → cb ≢ null
    → cb ≢ this
    → length xs < fuel
    → (n' : Links) × (register_cb fuel n this cb ≡ returns n')
      × Registered n' this (if has cb xs then xs else xs ++ (cb ∷ []))
unfolding register_cb
register_cb-Registered fuel n this cb xs r on ne enough = elim (Bool-cases (has cb xs)) [
  | inl inside ↦ (
    n,
    ground (arith, register_loop-present fuel n this cb xs r.chain inside enough),
    rw inside r,
  )
  | inr out ↦
      let more =
        register_loop-Appended fuel n this cb xs r.chain r.distinct on (ground arith) enough in
      (
        more.links,
        ground (arith, more.result, head_ne xs r.chain out),
        rw out (record {
          chain = more.chain;
          distinct = (
            ground (arith, has-append this xs (cb ∷ []), r.distinct),
            Distinct-snoc xs cb r.distinct.1 out,
          );
          this_ne = r.this_ne;
        }),
      )
]
  where
    head_ne : (ys : List Ptr) → Chain n (n this) ys → has cb ys ≡ false → n this ≢ cb
    head_ne [] c out = omega arith
    head_ne (y ∷ ys) c out = ground arith

unregister_loop-absent :
    (k : ℕ) (n : Links) (p cb : Ptr) (xs : List Ptr)
    → Chain n (n p) xs
    → has cb xs ≡ false
    → length xs < k
    → unregister_loop k n p cb ≡ returns n
unfolding unregister_loop
unregister_loop-absent zero n p cb xs c out fuel = absurd (omega arith)
unregister_loop-absent (suc k) n p cb [] c out fuel = ground arith
unregister_loop-absent (suc k) n p cb (x ∷ xs) c out fuel =
    ground (arith, unregister_loop-absent k n x cb xs c.2)

record Removed (n : Links) (p : Ptr) (xs : List Ptr) (cb : Ptr) (r : Run Links) : Type 0 where
  links : Links
  result : r ≡ returns links
  chain : Chain links (links p) (erase cb xs)
  same : (a : Ptr) → has a (p ∷ xs) ≡ false → links a ≡ n a

unregister_loop-Removed :
    (k : ℕ) (n : Links) (p cb : Ptr) (xs : List Ptr)
    → Chain n (n p) xs
    → Distinct (p ∷ xs)
    → has cb xs ≡ true
    → length xs < k
    → Removed n p xs cb (unregister_loop k n p cb)
unfolding unregister_loop
unregister_loop-Removed zero n p cb xs c d inside fuel = absurd (omega arith)
unregister_loop-Removed (suc k) n p cb [] c d inside fuel = cc
unregister_loop-Removed (suc k) n p cb (x ∷ xs) c d inside fuel = elim (ℕ_discrete cb x) [
  | yes e ↦
      let hit : (cb == x) ≡ true = ground arith in
      record {
        links = set_next n p (n (n p));
        result = ground arith;
        chain = rw hit (
            let s : set_next n p (n (n p)) p ≡ n x = ground arith in
            rw s (Chain-set_next n (n x) p (n (n p)) xs (ground arith) c.2));
        same = λ a h. ground arith;
      }
  | no ne ↦
      let rest = unregister_loop-Removed k n x cb xs c.2 d.1 (ground arith) (omega arith) in
      let at : rest.links p ≡ x = rest.same p d.0 ∙ c.0 in
      record {
        links = rest.links;
        result = ground (arith, rest.result);
        chain = rw (==_ne cb x ne) (at, c.1, rest.chain);
        same = λ a h. rest.same a (ground arith);
      }
]

erase_absent : (a : Ptr) (xs : List Ptr) → has a xs ≡ false → erase a xs ≡ xs
erase_absent a [] h = refl
erase_absent a (x ∷ xs) h = ground (arith, erase_absent a xs)

Registered-erase :
    {n n' : Links} {this : Ptr} (cb : Ptr) {xs : List Ptr}
    → Registered n this xs
    → Chain n' (n' this) (erase cb xs)
    → Registered n' this (erase cb xs)
Registered-erase {this} cb {xs} r c = record {
  chain = c;
  distinct = (has-erase cb this xs r.distinct.0, Distinct-erase cb xs r.distinct.1);
  this_ne = r.this_ne;
}

-- Unregistering a callback other than null takes it out of the list and keeps the others in
-- order, and changes the list in no way if it is not there. The loop is given more rounds than
-- there are callbacks.
pub unregister_cb-Registered :
    (fuel : ℕ) (n : Links) (this cb : Ptr) (xs : List Ptr)
    → Registered n this xs
    → cb ≢ null
    → length xs < fuel
    → (n' : Links) × (unregister_cb fuel n this cb ≡ returns n') × Registered n' this (erase cb xs)
unfolding unregister_cb
unregister_cb-Registered fuel n this cb [] r on enough =
    (n, ground (arith, unregister_loop-absent fuel n this cb [] r.chain, r.chain), r)
unregister_cb-Registered fuel n this cb (x ∷ xs) r on enough = elim (ℕ_discrete cb x) [
  | yes e ↦ (
    set_next n this (n (n this)),
    ground (arith, r.chain),
    Registered-erase cb r (
        rw (let hit : (cb == x) ≡ true = ground arith in hit) (
          let s : set_next n this (n (n this)) this ≡ n x = ground (arith, r.chain) in
          rw s
            (Chain-set_next n (n x) this (n (n this)) xs (ground (arith, r.distinct)) r.chain.2))),
  )
  | no ne ↦ elim (Bool-cases (has cb xs)) [
    | inl inside ↦
        let out =
          unregister_loop-Removed fuel n this cb (x ∷ xs) r.chain r.distinct (ground arith)
            enough in
        (out.links, ground (arith, out.result, r.chain), Registered-erase cb r out.chain)
    | inr absent ↦ (
      n,
      ground (arith, unregister_loop-absent fuel n this cb (x ∷ xs) r.chain, r.chain),
      rw (erase_absent cb (x ∷ xs) (ground arith)) r,
    )
  ]
]
