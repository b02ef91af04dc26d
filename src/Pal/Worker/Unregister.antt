-- ===== src/Pal/Worker/Unregister.antt =====
-- `unregister_worker` and `~Worker` of DC_PAL/Worker.cpp.
use libdronecan.Prelude.{
  ℕ, zero, suc, ◌<◌, ◌≡◌, ◌≢◌, refl, sym, ◌∙◌, ap, List, [], ◌∷◌, length, arith, ◌==◌, ==_ne,
  if◌then◌else◌,
}
use libdronecan.Pal.Links.{Ptr, null, returns, out_of_fuel, Chain, Chain-same}
use libdronecan.Pal.Worker.{
  Objects, put, links_of, Worker, set_worker, unregister_walk, unregister_worker, destroy_walk,
  destroy,
}
use libdronecan.Pal.Worker.Register.{IsWorker, next-set_worker, Chain-set_worker}

-- Unregistering the first object takes it out and clears its worker; its own link still leads to
-- the object behind it.
pub unregister_first :
    (fuel now : ℕ) (w : Worker) (x : Ptr) (xs : List Ptr)
    → IsWorker w (x ∷ xs)
    → (w' : Worker) × (unregister_worker fuel now w x ≡ returns w')
      × IsWorker w' xs
      × ((w'.objs x).worker ≡ null)
      × ((w'.objs x).next ≡ (w.objs x).next)
      × (w'.head ≡ (w.objs x).next)
unfolding unregister_worker
unregister_first fuel now w x xs is =
    let objs' = set_worker now w.objs w.head null in
    (
      record { head = (objs' w.head).next; objs = objs' },
      ground (arith, is.chain),
      record {
        chain =
            rw (next-set_worker now w.objs w.head null w.head, is.chain.0)
              (Chain-set_worker now w.objs x null (w.objs x).next xs is.chain.2);
        distinct = is.distinct.1;
      },
      unfold set_worker in ground (arith, is.chain),
      next-set_worker now w.objs w.head null x,
      next-set_worker now w.objs w.head null w.head ∙ ap (links_of w.objs) is.chain.0,
    )

-- The objects when the one behind `curr` is taken out.
abbrev unlink : ℕ → Objects → Ptr → Objects
unlink now objs curr =
    let objs' = set_worker now objs (objs curr).next null in
    put objs' curr (record (objs' curr) { next = (objs' (objs' curr).next).next })

next-unlink :
    (now : ℕ) (objs : Objects) (curr a : Ptr)
    → (unlink now objs curr a).next
      ≡ (if a == curr then (objs (objs curr).next).next else (objs a).next)
unfolding set_worker
next-unlink now objs curr a = ground arith

-- Unregistering the second object takes it out and clears its worker, given a round.
pub unregister_second :
    (fuel now : ℕ) (w : Worker) (x y : Ptr) (xs : List Ptr)
    → IsWorker w (x ∷ y ∷ xs)
    → 0 < fuel
    → (w' : Worker) × (unregister_worker fuel now w y ≡ returns w')
      × IsWorker w' (x ∷ xs)
      × ((w'.objs y).worker ≡ null)
unfolding unregister_worker unregister_walk
unregister_second zero now w x y xs is lt = absurd (omega arith)
unregister_second (suc k) now w x y xs is lt = (
  record { head = w.head; objs = unlink now w.objs w.head },
  ground (arith, is.chain, is.distinct),
  record {
    chain = (is.chain.0, is.chain.1, left);
    distinct = (ground (arith, is.distinct), is.distinct.1.1);
  },
  unfold set_worker in ground (arith, is.chain, is.distinct),
)
  where
    skips : links_of (unlink now w.objs w.head) x ≡ (w.objs y).next
    skips = ground (arith, next-unlink now w.objs w.head x, is.chain)

    left : Chain (links_of (unlink now w.objs w.head)) (links_of (unlink now w.objs w.head) x) xs
    left = rw skips (
        Chain-same (links_of w.objs) (links_of (unlink now w.objs w.head)) (w.objs y).next xs
          (λ a h. ground (arith, next-unlink now w.objs w.head a, is.chain, is.distinct))
          is.chain.2.2)

unregister_walk_spins :
    (k now : ℕ) (objs : Objects) (curr obj : Ptr)
    → (objs curr).next ≢ obj
    → unregister_walk k now objs curr obj ≡ out_of_fuel
unfolding unregister_walk
unregister_walk_spins zero now objs curr obj ne = refl
unregister_walk_spins (suc k) now objs curr obj ne =
    ground (arith, unregister_walk_spins k now objs curr obj ne)

-- On a worker with objects, unregistering an object that is neither the first nor the second
-- never ends: it is still going after any number of rounds, whether the object is registered or
-- not.
pub unregister_later_spins :
    (fuel now : ℕ) (w : Worker) (x obj : Ptr) (xs : List Ptr)
    → IsWorker w (x ∷ xs)
    → obj ≢ x
    → obj ≢ (w.objs x).next
    → unregister_worker fuel now w obj ≡ out_of_fuel
unfolding unregister_worker
unregister_later_spins fuel now w x obj xs is first second =
    ground (arith, is.chain, unregister_walk_spins fuel now w.objs w.head obj)

destroy_walk-step :
    (k fuel now : ℕ) (w w' : Worker) (curr : Ptr)
    → curr ≢ null
    → unregister_worker fuel now w curr ≡ returns w'
    → destroy_walk (suc k) fuel now w curr ≡ destroy_walk k fuel now w' (w.objs curr).next
unfolding destroy_walk
destroy_walk-step k fuel now w w' curr h e = rw (==_ne curr null h, e, destroy_walk)

destroy_walk-empty :
    (k fuel now : ℕ) (w : Worker) (xs : List Ptr)
    → IsWorker w xs
    → length xs < k
    → (w' : Worker) × (destroy_walk k fuel now w w.head ≡ returns w') × (w'.head ≡ null)
unfolding destroy_walk
destroy_walk-empty zero fuel now w xs is lt = absurd (omega arith)
destroy_walk-empty (suc k) fuel now w [] is lt = (w, ground (arith, is.chain), is.chain)
destroy_walk-empty (suc k) fuel now w (x ∷ xs) is lt =
    let (w1, first, is1, a, b, at) = unregister_first fuel now w x xs is in
    let (w2, rest, empty) = destroy_walk-empty k fuel now w1 xs is1 (omega arith) in
    (
      w2,
      destroy_walk-step k fuel now w w1 w.head (omega (arith, is.chain.0, is.chain.1))
            (ap (unregister_worker fuel now w) is.chain.0 ∙ first)
          ∙ ap (destroy_walk k fuel now w1) (ap (links_of w.objs) is.chain.0 ∙ sym at)
          ∙ rest,
      empty,
    )

-- Destroying a worker with a thread ends, given more rounds than there are objects, and leaves
-- the worker without objects.
pub destroy-empty :
    (fuel now : ℕ) (thread : Ptr) (w : Worker) (xs : List Ptr)
    → IsWorker w xs
    → thread ≢ null
    → length xs < fuel
    → (w' : Worker) × (destroy fuel now thread w ≡ returns w') × (w'.head ≡ null)
unfolding destroy
destroy-empty fuel now thread w xs is on lt =
    rw (==_ne thread null on) (destroy_walk-empty fuel fuel now w xs is lt)
