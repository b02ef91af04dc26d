-- ===== src/Pal/Worker/Register.antt =====
-- `register_worker` of DC_PAL/Worker.cpp.
use libdronecan.Prelude.{
  ℕ, zero, suc, ◌≤◌, ◌<◌, ◌≡◌, ◌≢◌, refl, ◌∙◌, ap, false, List, [], ◌∷◌, ◌++◌, length, arith,
}
use libdronecan.Pal.Links.{Ptr, null, Run, returns, has, Distinct, Chain, Distinct-snoc, Chain-same}
use libdronecan.Pal.Worker.{
  WorkerObject, Objects, put, links_of, Worker, restart, set_worker, register_walk, register_worker,
}

-- The worker's objects are the distinct `xs`, in order.
pub record IsWorker (w : Worker) (xs : List Ptr) : Type 0 where
  pub chain : Chain (links_of w.objs) w.head xs
  pub distinct : Distinct xs

-- What `set_worker` leaves alone.
pub next-set_worker :
    (now : ℕ) (objs : Objects) (obj worker a : Ptr)
    → (set_worker now objs obj worker a).next ≡ (objs a).next
unfolding set_worker
next-set_worker now objs obj worker a = ground arith

pub Chain-set_worker :
    (now : ℕ) (objs : Objects) (obj worker p : Ptr) (xs : List Ptr)
    → Chain (links_of objs) p xs
    → Chain (links_of (set_worker now objs obj worker)) p xs
Chain-set_worker now objs obj worker p xs c =
    Chain-same (links_of objs) (links_of (set_worker now objs obj worker)) p xs
      (λ a h. next-set_worker now objs obj worker a) c

record Hung (objs : Objects) (x : Ptr) (xs : List Ptr) (obj : Ptr) (r : Run Objects) : Type 0 where
  objs' : Objects
  result : r ≡ returns objs'
  chain : Chain (links_of objs') x (xs ++ (obj ∷ []))
  same : (a : Ptr) → has a xs ≡ false → objs' a ≡ objs a
  kinds : (a : Ptr) → (objs' a).kind ≡ (objs a).kind

register_walk-Hung :
    (k : ℕ) (objs : Objects) (x obj : Ptr) (xs : List Ptr)
    → x ≢ null
    → obj ≢ null
    → Chain (links_of objs) (objs x).next xs
    → Distinct (x ∷ xs)
    → has obj (x ∷ xs) ≡ false
    → (objs obj).next ≡ null
    → length xs < k
    → Hung objs x (x ∷ xs) obj (register_walk k objs x obj)
unfolding register_walk
register_walk-Hung zero objs x obj xs xn on c d out e fuel = absurd (omega arith)
register_walk-Hung (suc k) objs x obj [] xn on c d out e fuel = record {
  objs' = put objs x (record (objs x) { next = obj });
  result = ground arith;
  chain = (refl, xn, (ground arith, on, ground arith));
  same = λ a h. ground arith;
  kinds = λ a. ground arith;
}
register_walk-Hung (suc k) objs x obj (y ∷ ys) xn on c d out e fuel =
    let rest = register_walk-Hung k objs y obj ys c.1 on c.2 d.1 (ground arith) e (omega arith) in
    let at : (rest.objs' x).next ≡ y = ap (λ (o : WorkerObject). o.next) (rest.same x d.0) ∙ c.0 in
    record {
      objs' = rest.objs';
      result = ground (arith, rest.result);
      chain = (refl, xn, rw at rest.chain);
      same = λ a h. rest.same a (ground arith);
      kinds = rest.kinds;
    }

-- Registering an object that is not null and hangs in no list puts it behind the others, makes
-- `self` its worker, and starts the period of a periodic one anew. The loop is given at least as
-- many rounds as there are objects.
pub register_worker-snoc :
    (fuel now : ℕ) (self : Ptr) (w : Worker) (obj : Ptr) (xs : List Ptr)
    → IsWorker w xs
    → obj ≢ null
    → has obj xs ≡ false
    → (w.objs obj).next ≡ null
    → length xs ≤ fuel
    → (w' : Worker) × (register_worker fuel now self w obj ≡ returns w')
      × IsWorker w' (xs ++ (obj ∷ []))
      × ((w'.objs obj).worker ≡ self)
      × ((w'.objs obj).kind ≡ restart now (w.objs obj).kind)
unfolding register_worker
register_worker-snoc fuel now self w obj [] is on out e enough = (
  record { head = obj; objs = set_worker now w.objs obj self },
  ground (arith, is.chain),
  record { chain = (refl, on, next-set_worker now w.objs obj self obj ∙ e); distinct = (refl, tt) },
  unfold set_worker in ground arith,
  unfold set_worker in ground arith,
)
register_worker-snoc fuel now self w obj (x ∷ xs) is on out e enough =
    let objs1 = set_worker now w.objs obj self in
    let hung =
      register_walk-Hung fuel objs1 x obj xs is.chain.1 on
        (rw (next-set_worker now w.objs obj self x)
          (Chain-set_worker now w.objs obj self (w.objs x).next xs is.chain.2))
        is.distinct out (next-set_worker now w.objs obj self obj ∙ e) (omega arith) in
    let kept : hung.objs' obj ≡ objs1 obj = hung.same obj out in
    (
      record { head = w.head; objs = hung.objs' },
      ground (arith, hung.result, is.chain),
      record {
        chain = rw (is.chain.0) hung.chain;
        distinct = Distinct-snoc (x ∷ xs) obj is.distinct out;
      },
      ap (λ (o : WorkerObject). o.worker) kept ∙ (unfold set_worker in ground arith),
      ap (λ (o : WorkerObject). o.kind) kept ∙ (unfold set_worker in ground arith),
    )
