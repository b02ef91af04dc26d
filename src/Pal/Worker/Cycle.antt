-- ===== src/Pal/Worker/Cycle.antt =====
-- Registering anew an object that was unregistered (DC_PAL/Worker.cpp).
use libdronecan.Prelude.{
  ℕ, zero, suc, ◌<◌, ◌≡◌, ◌≢◌, refl, ap, true, false, List, [], ◌∷◌, length, arith, ==_ne,
  ℕ_discrete,
}
use libdronecan.Pal.Links.{Ptr, null, Links, Run, returns, out_of_fuel, has, Chain}
use libdronecan.Pal.Worker.{
  Objects, put, links_of, Worker, set_worker, register_walk, register_worker, unregister_worker,
  earlier, trigger_walk, get_next_trigger_us,
}
use libdronecan.Pal.Worker.Register.{IsWorker, next-set_worker, Chain-set_worker}
use libdronecan.Pal.Worker.Unregister.{unregister_first}

-- The walk of `register_worker` writes the link of one object, the one that has none.
record Tied (objs : Objects) (xs : List Ptr) (obj : Ptr) (r : Run Objects) : Type 0 where
  last : Ptr
  inside : has last xs ≡ true
  open_end : (objs last).next ≡ null
  result : r ≡ returns (put objs last (record (objs last) { next = obj }))

register_walk-Tied :
    (k : ℕ) (objs : Objects) (x obj : Ptr) (xs : List Ptr)
    → Chain (links_of objs) (objs x).next xs
    → length xs < k
    → Tied objs (x ∷ xs) obj (register_walk k objs x obj)
unfolding register_walk
register_walk-Tied zero objs x obj xs c fuel = absurd (omega arith)
register_walk-Tied (suc k) objs x obj [] c fuel = record {
  last = x;
  inside = ground arith;
  open_end = c;
  result = ground arith;
}
register_walk-Tied (suc k) objs x obj (y ∷ ys) c fuel =
    let rest = register_walk-Tied k objs y obj ys c.2 (omega arith) in
    record {
      last = rest.last;
      inside = ground (arith, rest.inside);
      open_end = rest.open_end;
      result = ground (arith, rest.result);
    }

-- Of the objects of a chain only the last has no object behind it.
Chain-next :
    (n : Links) (x last a : Ptr) (xs : List Ptr)
    → Chain n (n x) xs
    → has last (x ∷ xs) ≡ true
    → n last ≡ null
    → has a (x ∷ xs) ≡ true
    → a ≢ last
    → has (n a) xs ≡ true
Chain-next n x last a [] c inside ends mem ne = ground arith
Chain-next n x last a (y ∷ ys) c inside ends mem ne = elim (ℕ_discrete a x) [
  | yes e ↦ ground (arith, c)
  | no q ↦
      let lx : last ≢ x = ground (arith, c, ends) in
      ground (arith, Chain-next n y last a ys c.2 (ground arith) ends (ground arith) ne)
]

-- A walk over links that stay within non-null objects never ends.
trigger_walk_spins :
    (k : ℕ) (objs : Objects) (p acc : ℕ) (xs : List Ptr)
    → has null xs ≡ false
    → ((a : Ptr) → has a xs ≡ true → has (objs a).next xs ≡ true)
    → has p xs ≡ true
    → trigger_walk k objs p acc ≡ out_of_fuel
unfolding trigger_walk
trigger_walk_spins zero objs p acc xs out closed inside = refl
trigger_walk_spins (suc k) objs p acc xs out closed inside =
    rw (==_ne p null (ne_null inside), trigger_walk)
      (trigger_walk_spins k objs (objs p).next (earlier acc (objs p).kind) xs out closed
        (closed p inside))
  where
    ne_null : has p xs ≡ true → p ≢ null
    ne_null h e = cc (ap (λ q. has q xs) e)

Chain-ne_null : (n : Links) (p : Ptr) (xs : List Ptr) → Chain n p xs → has null xs ≡ false
Chain-ne_null n p [] c = refl
Chain-ne_null n p (x ∷ xs) c = ground (arith, Chain-ne_null n (n x) xs c.2)

-- When the first of at least two objects is unregistered and then registered anew, with enough
-- rounds for the latter, the list turns into a ring: the loop of `get_next_trigger_us` is still
-- going after any number of rounds.
pub register_again_spins :
    (fuel now now' k : ℕ) (self : Ptr) (w : Worker) (x y : Ptr) (xs : List Ptr)
    → IsWorker w (x ∷ y ∷ xs)
    → length xs < fuel
    → (w1 w2 : Worker) × (unregister_worker fuel now w x ≡ returns w1)
      × (register_worker fuel now' self w1 x ≡ returns w2)
      × (get_next_trigger_us k w2 ≡ out_of_fuel)
unfolding register_worker get_next_trigger_us
register_again_spins fuel now now' k self w x y xs is enough =
    let (w1, first, is1, gone, stale, at) = unregister_first fuel now w x (y ∷ xs) is in
    let objs1 = set_worker now' w1.objs x self in
    let start : Chain (links_of objs1) (objs1 y).next xs =
      rw (next-set_worker now' w1.objs x self y)
        (Chain-set_worker now' w1.objs x self (w1.objs y).next xs is1.chain.2) in
    let tied = register_walk-Tied fuel objs1 y x xs start enough in
    let objs2 = put objs1 tied.last (record (objs1 tied.last) { next = x }) in
    let closed : (a : Ptr) → has a (x ∷ y ∷ xs) ≡ true → has (objs2 a).next (x ∷ y ∷ xs) ≡ true =
      λ a mem. elim (ℕ_discrete a tied.last) [
        | yes e ↦ ground arith
        | no ne ↦ elim (ℕ_discrete a x) [
          | yes e ↦ ground (arith, next-set_worker now' w1.objs x self a, stale, is.chain)
          | no q ↦ ground (
            arith,
            Chain-next (links_of objs1) y tied.last a xs start tied.inside tied.open_end
                (ground arith) ne,
          )
        ]
      ] in
    (
      w1,
      record { head = w1.head; objs = objs2 },
      first,
      ground (arith, is1.chain, tied.result),
      trigger_walk_spins k objs2 w1.head 0 (x ∷ y ∷ xs)
          (Chain-ne_null (links_of w.objs) w.head (x ∷ y ∷ xs) is.chain) closed
          (ground (arith, is1.chain)),
    )
