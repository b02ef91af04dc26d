-- ===== src/Pal/ObjList/Add.antt =====
-- `List::add` and the constructor of DC_PAL/List.h.
use libdronecan.Prelude.{
  ℕ, zero, suc, ◌≤◌, ◌<◌, ◌≡◌, ◌≢◌, refl, false, List, [], ◌∷◌, ◌++◌, length, arith,
}
use libdronecan.Pal.Links.{
  Ptr, null, Links, set_next, Run, returns, has, Distinct, Chain, SameOutside, Chain-set_next,
  Distinct-snoc,
}
use libdronecan.Pal.ObjList.{ObjList, add_loop, add, construct}

-- The list holds the distinct objects `xs`, in order.
pub record IsList (l : ObjList) (xs : List Ptr) : Type 0 where
  pub chain : Chain l.next l.head xs
  pub distinct : Distinct xs

-- What a change of the links behind `x` has done.
record Linked (n : Links) (p : Ptr) (xs : List Ptr) (obj : Ptr) (r : Run Links) : Type 0 where
  links : Links
  result : r ≡ returns links
  chain : Chain links p (xs ++ (obj ∷ []))
  same : SameOutside xs n links

-- From the first of the objects `x ∷ xs` the loop finds the last one and links `obj` behind it.
add_loop-Linked :
    (k : ℕ) (n : Links) (x obj : Ptr) (xs : List Ptr)
    → x ≢ null
    → obj ≢ null
    → Chain n (n x) xs
    → Distinct (x ∷ xs)
    → has obj (x ∷ xs) ≡ false
    → n obj ≡ null
    → length xs < k
    → Linked n x (x ∷ xs) obj (add_loop k n x obj)
unfolding add_loop
add_loop-Linked zero n x obj xs xn on c d out e fuel = absurd (omega arith)
add_loop-Linked (suc k) n x obj [] xn on c d out e fuel = record {
  links = set_next n x obj;
  result = ground arith;
  chain = (refl, xn, (ground arith, on, ground arith));
  same = λ a h. ground arith;
}
add_loop-Linked (suc k) n x obj (y ∷ ys) xn on c d out e fuel =
    let at : n x ≡ y = c.0 in
    let rest = add_loop-Linked k n y obj ys c.1 on c.2 d.1 (ground arith) e (omega arith) in
    record {
      links = rest.links;
      result = ground (arith, rest.result);
      chain = (refl, xn, rw (rest.same x d.0, at) rest.chain);
      same = λ a h. rest.same a (ground arith);
    }

-- `add` puts a new object behind the others, and touches no link of another object.
pub add_lem :
    (fuel : ℕ) (l : ObjList) (obj : Ptr) (xs : List Ptr)
    → IsList l xs
    → obj ≢ null
    → has obj xs ≡ false
    → l.next obj ≡ null
    → length xs ≤ fuel
    → (l' : ObjList) × (add fuel l obj ≡ returns l')
      × IsList l' (xs ++ (obj ∷ []))
      × SameOutside xs l.next l'.next
unfolding add
add_lem fuel l obj [] is on out e enough = (
  record l { head = obj },
  ground (arith, is.chain),
  record { chain = (refl, on, e); distinct = (refl, tt) },
  λ a h. refl,
)
add_lem fuel l obj (x ∷ xs) is on out e enough =
    let at : l.head ≡ x = is.chain.0 in
    let linked =
      add_loop-Linked fuel l.next x obj xs is.chain.1 on is.chain.2 is.distinct out e
        (omega arith) in
    (
      record { head = l.head; next = linked.links },
      ground (arith, linked.result),
      record { chain = rw at linked.chain; distinct = Distinct-snoc (x ∷ xs) obj is.distinct out },
      linked.same,
    )

-- Constructing an object that is not null and not in the list puts it behind the objects that
-- there are, whatever its storage held in `next`; the objects stay distinct. The loop is given at
-- least as many rounds as there are objects.
pub construct-snoc :
    (fuel : ℕ) (l : ObjList) (obj : Ptr) (xs : List Ptr)
    → IsList l xs
    → obj ≢ null
    → has obj xs ≡ false
    → length xs ≤ fuel
    → (l' : ObjList) × (construct fuel l obj ≡ returns l') × IsList l' (xs ++ (obj ∷ []))
unfolding construct
construct-snoc fuel l obj xs is on out enough =
    let cleared : IsList (record l { next = set_next l.next obj null }) xs = record {
      chain = Chain-set_next l.next l.head obj null xs out is.chain;
      distinct = is.distinct;
    } in
    let (l', result, is', same) =
      add_lem fuel (record l { next = set_next l.next obj null }) obj xs cleared on out
        (ground arith) enough in
    (l', result, is')
