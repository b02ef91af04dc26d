-- ===== src/Posix/Threads/Destroy.antt =====
-- `Threads::~Threads` of DC_PAL_Posix/Threads.cpp, and the end of one thread.
use mathlib.Core.List.{foldl}
use libdronecan.Prelude.{
  ℕ, zero, suc, ◌≤◌, ◌<◌, ◌≡◌, ◌≢◌, refl, ◌∙◌, ap, true, false, List, [], ◌∷◌, ◌++◌, length, arith,
  ==_ne,
}
use libdronecan.Pal.Links.{Ptr, null, returns, has, has-append, erase}
use libdronecan.Pal.ObjList.{ObjList, Iterator, iterator, increment}
use libdronecan.Pal.ObjList.Add.{IsList}
use libdronecan.Pal.ObjList.Remove.{
  remove-erase, behind, remove-head, increment-behind, behind-IsList,
}
use libdronecan.Posix.Thread.{Thread, destroy}
use libdronecan.Posix.Threads.{Platform, Pool, deallocate, destroy_loop, destroy_pool}

-- A new thread at the end is the first of its kind, so erasing it leaves the others.
pub erase-snoc : (p : Ptr) (xs : List Ptr) → has p xs ≡ false → erase p (xs ++ (p ∷ [])) ≡ xs
erase-snoc p [] out = ground arith
erase-snoc p (x ∷ xs) out = ground (arith, erase-snoc p xs)

pub has-snoc : (p : Ptr) (xs : List Ptr) → has p (xs ++ (p ∷ [])) ≡ true
has-snoc p xs = ground (arith, has-append p xs (p ∷ []))

module _ {E : Type 0} (os : Platform E) where
  -- Stopping one thread: its destructor's calls, then its memory.
  abbrev pub end_thread : (Ptr → Thread) → E → Ptr → E
  end_thread objs env p = os.free p (destroy (os.call p) (objs p) env)

  pub deallocate-erase :
      (fuel : ℕ) (p : Ptr) (pool : Pool E) (xs : List Ptr)
      → IsList pool.list xs
      → has p xs ≡ true
      → length xs ≤ fuel
      → (list : ObjList) × (deallocate os fuel p pool
          ≡ returns (record pool { list = list; env = end_thread pool.objs pool.env p }))
        × IsList list (erase p xs)
  unfolding deallocate
  deallocate-erase fuel p pool xs is inside enough =
      let (list, removed, is', cleared) = remove-erase fuel pool.list p xs is inside enough in
      (list, rw removed refl, is')

  deallocate-head :
      (fuel : ℕ) (pool : Pool E)
      → pool.list.head ≢ null
      → deallocate os fuel pool.list.head pool
        ≡ returns (record pool {
          list = behind pool.list pool.list.head;
          env = end_thread pool.objs pool.env pool.list.head;
        })
  unfolding deallocate
  deallocate-head fuel pool h = rw (remove-head fuel pool.list h) refl

  destroy_loop-stop :
      (k fuel : ℕ) (pool : Pool E) (it : Iterator)
      → it.ptr ≡ null
      → destroy_loop os (suc k) fuel pool it ≡ returns pool
  unfolding destroy_loop
  destroy_loop-stop k fuel pool it e = rw (e, destroy_loop)

  destroy_loop-step :
      (k fuel : ℕ) (pool pool' : Pool E) (it : Iterator)
      → it.ptr ≢ null
      → deallocate os fuel it.ptr pool ≡ returns pool'
      → destroy_loop os (suc k) fuel pool it
        ≡ destroy_loop os k fuel pool' (increment pool'.list.next it)
  unfolding destroy_loop
  destroy_loop-step k fuel pool pool' it h e = rw (==_ne it.ptr null h, e, destroy_loop)

  -- The loop of the destructor, on the list as the iterator reads it.
  destroy_loop-foldl :
      (k fuel : ℕ) (pool : Pool E) (xs : List Ptr)
      → IsList pool.list xs
      → length xs < k
      → (list : ObjList) × (destroy_loop os k fuel pool (iterator pool.list.next pool.list.head)
          ≡ returns (record pool { list = list; env = foldl (end_thread pool.objs) pool.env xs }))
        × (list.head ≡ null)
  destroy_loop-foldl zero fuel pool xs is lt = absurd (omega arith)
  destroy_loop-foldl (suc k) fuel pool [] is lt = (
    pool.list,
    destroy_loop-stop k fuel pool (iterator pool.list.next pool.list.head)
        (unfold iterator in is.chain),
    is.chain,
  )
  destroy_loop-foldl (suc k) fuel pool (x ∷ xs) is lt =
      let p = pool.list.head in
      let hn : p ≢ null = omega (arith, is.chain.0, is.chain.1) in
      let pool1 = record pool {
        list = behind pool.list p;
        env = end_thread pool.objs pool.env p;
      } in
      let (list, result, empty) =
        destroy_loop-foldl k fuel pool1 xs (behind-IsList pool.list x xs is) (omega arith) in
      (
        list,
        destroy_loop-step k fuel pool pool1 (iterator pool.list.next p) (unfold iterator in hn)
              (unfold iterator in deallocate-head fuel pool hn)
            ∙ ap (destroy_loop os k fuel pool1) (increment-behind pool.list hn)
            ∙ result
            ∙ ap
                (λ q. returns (record pool {
                  list = list;
                  env = foldl (end_thread pool.objs) (end_thread pool.objs pool.env q) xs;
                }))
                is.chain.0,
        empty,
      )

  -- Destroying `Threads` ends, given more rounds than there are threads: it stops every thread
  -- and frees its memory, in the order of the list, which is empty afterwards, and then deletes
  -- the key.
  pub destroy_pool-foldl :
      (fuel : ℕ) (pool : Pool E) (xs : List Ptr)
      → IsList pool.list xs
      → length xs < fuel
      → (pool' : Pool E) × (destroy_pool os fuel pool ≡ returns pool')
        × (pool'.list.head ≡ null)
        × (pool'.env ≡ os.key_delete (foldl (end_thread pool.objs) pool.env xs))
  unfolding destroy_pool
  destroy_pool-foldl fuel pool [] is lt =
      (record pool { env = os.key_delete pool.env }, rw is.chain refl, is.chain, refl)
  destroy_pool-foldl fuel pool (x ∷ xs) is lt =
      let (list, result, empty) = destroy_loop-foldl fuel fuel pool (x ∷ xs) is lt in
      let env = foldl (end_thread pool.objs) pool.env (x ∷ xs) in
      (
        record pool { list = list; env = os.key_delete env },
        rw (==_ne pool.list.head null (omega (arith, is.chain.0, is.chain.1)), result) refl,
        empty,
        refl,
      )
