-- ===== src/Pal/ObjList/Remove.antt =====
-- `List::remove` of DC_PAL/List.h, and the iteration that removes each object.
use libdronecan.Prelude.{
  ℕ, zero, suc, ◌≤◌, ◌<◌, ◌≡◌, ◌≢◌, refl, sym, ◌∙◌, ap, true, false, List, [], ◌∷◌, length, arith,
  ◌==◌, ==_ne, ==_self, ℕ_discrete,
}
use libdronecan.Pal.Links.{
  Ptr, null, Links, set_next, Run, returns, null_deref, has, Distinct, Chain, erase, Chain-set_next,
  Distinct-erase,
}
use libdronecan.Pal.ObjList.{
  ObjList, remove_loop, remove, Iterator, iterator, increment, for_loop, for_each,
}
use libdronecan.Pal.ObjList.Add.{IsList}

record Unlinked (n : Links) (p : Ptr) (xs : List Ptr) (obj : Ptr) (r : Run Links) : Type 0 where
  links : Links
  result : r ≡ returns links
  chain : Chain links p (erase obj xs)
  same : (a : Ptr) → has a xs ≡ false → links a ≡ n a
  cleared : links obj ≡ null

remove_loop-Unlinked :
    (k : ℕ) (n : Links) (x obj : Ptr) (xs : List Ptr)
    → x ≢ null
    → obj ≢ x
    → Chain n (n x) xs
    → Distinct (x ∷ xs)
    → has obj xs ≡ true
    → length xs < k
    → Unlinked n x (x ∷ xs) obj (remove_loop k n x obj)
unfolding remove_loop
remove_loop-Unlinked zero n x obj xs xn on c d inside fuel = absurd (omega arith)
remove_loop-Unlinked (suc k) n x obj [] xn on c d inside fuel = cc
remove_loop-Unlinked (suc k) n x obj (y ∷ ys) xn on c d inside fuel = elim (ℕ_discrete y obj) [
  | yes e ↦ record {
    links = set_next (set_next n x (n obj)) obj null;
    result = ground arith;
    chain = rw (==_ne obj x on, at_obj e) (refl, xn, relinked e);
    same = λ a h. ground arith;
    cleared = ground arith;
  }
  | no ne ↦
      let at : n x ≡ y = c.0 in
      let rest =
        remove_loop-Unlinked k n y obj ys c.1 (λ q. ne (sym q)) c.2 d.1 (ground arith)
          (omega arith) in
      record {
        links = rest.links;
        result = ground (arith, rest.result);
        chain = rw (==_ne obj x on) (refl, xn, rw (rest.same x d.0, at) rest.chain);
        same = λ a h. ground (arith, rest.same a);
        cleared = rest.cleared;
      }
]
  where
    at_obj : y ≡ obj → (obj == y) ≡ true
    at_obj e = ground arith

    relinked :
        y ≡ obj
        → Chain
            (set_next (set_next n x (n obj)) obj null)
            (set_next (set_next n x (n obj)) obj null x)
            ys
    relinked e =
        let s : set_next (set_next n x (n obj)) obj null x ≡ n y = ground arith in
        rw s (
          Chain-set_next (set_next n x (n obj)) (n y) obj null ys (ground arith)
            (Chain-set_next n (n y) x (n obj) ys (ground arith) c.2))

head_ne :
    (n : Links) (p obj : Ptr) (xs : List Ptr)
    → Chain n p xs
    → obj ≢ null
    → has obj xs ≡ false
    → p ≢ obj
head_ne n p obj [] c on out = omega arith
head_ne n p obj (x ∷ xs) c on out = ground arith

remove_loop-step :
    (k : ℕ) (n : Links) (p obj : Ptr)
    → p ≢ null
    → n p ≢ obj
    → remove_loop (suc k) n p obj ≡ remove_loop k n (n p) obj
unfolding remove_loop
remove_loop-step k n p obj h ne = rw (==_ne p null h, ==_ne (n p) obj ne, remove_loop)

-- Removing an object that is not in a list with elements runs off its end.
remove_loop-absent :
    (k : ℕ) (n : Links) (p obj : Ptr) (xs : List Ptr)
    → Chain n p xs
    → obj ≢ null
    → has obj xs ≡ false
    → length xs < k
    → remove_loop k n p obj ≡ null_deref
unfolding remove_loop
remove_loop-absent zero n p obj xs c on out fuel = absurd (omega arith)
remove_loop-absent (suc k) n p obj [] c on out fuel = ground arith
remove_loop-absent (suc k) n p obj (x ∷ xs) c on out fuel =
    let c' : Chain n (n p) xs = ap_chain in
    remove_loop-step k n p obj (omega (arith, c.0, c.1))
      (head_ne n (n p) obj xs c' on (ground arith))
    ∙ remove_loop-absent k n (n p) obj xs c' on (ground arith) (omega arith)
  where
    ap_chain : Chain n (n p) xs
    ap_chain = rw (c.0) c.2

-- Removing one of the objects of a list takes it out, keeps the others in order, and clears its
-- link, if the loop is given at least as many rounds as there are objects.
pub remove-erase :
    (fuel : ℕ) (l : ObjList) (obj : Ptr) (xs : List Ptr)
    → IsList l xs
    → has obj xs ≡ true
    → length xs ≤ fuel
    → (l' : ObjList) × (remove fuel l obj ≡ returns l')
      × IsList l' (erase obj xs)
      × (l'.next obj ≡ null)
unfolding remove
remove-erase fuel l obj [] is inside enough = cc
remove-erase fuel l obj (x ∷ xs) is inside enough = elim (ℕ_discrete x obj) [
  | yes e ↦ (
    record { head = l.next obj; next = set_next l.next obj null },
    ground (arith, is.chain),
    record {
      chain = rw (let q : (obj == x) ≡ true = ground arith in q) (
          Chain-set_next l.next (l.next obj) obj null xs (ground (arith, is.distinct))
            (rw e at is.chain.2));
      distinct = Distinct-erase obj (x ∷ xs) is.distinct;
    },
    ground arith,
  )
  | no ne ↦
      let at : l.head ≡ x = is.chain.0 in
      let un =
        remove_loop-Unlinked fuel l.next x obj xs is.chain.1 (λ q. ne (sym q)) is.chain.2
          is.distinct (ground arith) (omega arith) in
      (
        record { head = l.head; next = un.links },
        ground (arith, un.result, is.chain),
        record { chain = rw at un.chain; distinct = Distinct-erase obj (x ∷ xs) is.distinct },
        un.cleared,
      )
]

-- Removing an object that is not null and not in the list reads through a null pointer if the
-- list has elements, and does nothing if it has none. The loop is given more rounds than there
-- are objects.
pub remove-absent :
    (fuel : ℕ) (l : ObjList) (obj : Ptr) (xs : List Ptr)
    → IsList l xs
    → obj ≢ null
    → has obj xs ≡ false
    → length xs < fuel
    → remove fuel l obj ≡ elim xs [ [] ↦ returns l | _ ∷ _ ↦ null_deref ]
unfolding remove
remove-absent fuel l obj [] is on out enough = ground (arith, is.chain)
remove-absent fuel l obj (x ∷ xs) is on out enough =
    ground (arith, is.chain, remove_loop-absent fuel l.next l.head obj (x ∷ xs) is.chain)

-- What removing the first object leaves.
abbrev pub behind : ObjList → Ptr → ObjList
behind l x = record { head = l.next x; next = set_next l.next x null }

pub remove-head :
    (fuel : ℕ) (l : ObjList) → l.head ≢ null → remove fuel l l.head ≡ returns (behind l l.head)
unfolding remove
remove-head fuel l h = rw (==_ne l.head null h, ==_self l.head)

pub increment-behind :
    (l : ObjList)
    → l.head ≢ null
    → increment (behind l l.head).next (iterator l.next l.head)
      ≡ iterator (behind l l.head).next (behind l l.head).head
unfolding increment iterator
increment-behind l h = rw (==_ne l.head null h) (ground arith)

pub behind-IsList :
    (l : ObjList) (x : Ptr) (xs : List Ptr) → IsList l (x ∷ xs) → IsList (behind l l.head) xs
behind-IsList l x xs is = record {
  chain =
      Chain-set_next l.next (l.next l.head) l.head null xs (ground (arith, is.chain, is.distinct))
        (rw (sym is.chain.0) at is.chain.2);
  distinct = is.distinct.1;
}

for_loop-stop :
    (k : ℕ) (body : ObjList → Ptr → Run ObjList) (l : ObjList) (it : Iterator)
    → it.ptr ≡ null
    → for_loop (suc k) body l it ≡ returns l
unfolding for_loop
for_loop-stop k body l it e = rw (e, for_loop)

for_loop-step :
    (k : ℕ) (body : ObjList → Ptr → Run ObjList) (l l1 : ObjList) (it : Iterator)
    → it.ptr ≢ null
    → body l it.ptr ≡ returns l1
    → for_loop (suc k) body l it ≡ for_loop k body l1 (increment l1.next it)
unfolding for_loop
for_loop-step k body l l1 it h e = rw (==_ne it.ptr null h, e, for_loop)

-- The loop that removes each object as it comes to it: the iterator has read the next link
-- before the body clears it.
for_loop-remove :
    (k fuel : ℕ) (l : ObjList) (xs : List Ptr)
    → IsList l xs
    → length xs < k
    → length xs ≤ fuel
    → (l' : ObjList) × (for_loop k (remove fuel) l (iterator l.next l.head) ≡ returns l')
      × (l'.head ≡ null)
unfolding for_loop
for_loop-remove zero fuel l xs is lt enough = absurd (omega arith)
for_loop-remove (suc k) fuel l [] is lt enough = (
  l,
  for_loop-stop k (remove fuel) l (iterator l.next l.head) (unfold iterator in is.chain),
  is.chain,
)
for_loop-remove (suc k) fuel l (x ∷ xs) is lt enough =
    let hn : l.head ≢ null = omega (arith, is.chain.0, is.chain.1) in
    let left : IsList (behind l l.head) xs = behind-IsList l x xs is in
    let (l', result, empty) =
      for_loop-remove k fuel (behind l l.head) xs left (omega arith) (omega arith) in
    (
      l',
      for_loop-step k (remove fuel) l (behind l l.head) (iterator l.next l.head)
            (unfold iterator in hn) (unfold iterator in remove-head fuel l hn)
          ∙ ap (for_loop k (remove fuel) (behind l l.head)) (increment-behind l hn)
          ∙ result,
      empty,
    )

-- Removing every object while iterating over the list ends within one round more than there are
-- objects, and leaves the list empty.
pub for_each-remove :
    (fuel : ℕ) (l : ObjList) (xs : List Ptr)
    → IsList l xs
    → length xs < fuel
    → (l' : ObjList) × (for_each fuel (remove fuel) l ≡ returns l') × (l'.head ≡ null)
unfolding for_each
for_each-remove fuel l xs is lt = for_loop-remove fuel fuel l xs is lt (omega arith)
