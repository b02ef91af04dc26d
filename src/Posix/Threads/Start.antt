-- ===== src/Posix/Threads/Start.antt =====
-- `Threads::start` and `Threads::stop` of DC_PAL_Posix/Threads.cpp: what they do to the list of all
-- threads and to the new thread.
use libdronecan.Prelude.{
  ℕ, ◌<◌, ◌≡◌, ◌≢◌, refl, ◌∙◌, Bool, true, false, List, [], ◌∷◌, ◌++◌, length, length-append, arith,
  ==_ne, ==_self, if◌then◌else◌,
}
use libdronecan.Pal.Links.{Ptr, null, Run, returns, and_then, has}
use libdronecan.Pal.ObjList.{ObjList}
use libdronecan.Pal.ObjList.Add.{IsList, construct-snoc}
use libdronecan.Posix.Thread.{System, Thread, start}
use libdronecan.Posix.Threads.{
  Platform, Pool, allocate, put_thread, start_thread, finish_start, stop,
}
use libdronecan.Posix.Threads.Destroy.{end_thread, deallocate-erase, erase-snoc, has-snoc}

module _ {E : Type 0} (os : Platform E) where
  finish_start-fails :
      (fuel : ℕ) (p : Ptr) (pool : Pool E) (thd : Thread) (env : E) (xs : List Ptr)
      → IsList pool.list (xs ++ (p ∷ []))
      → has p xs ≡ false
      → length xs < fuel
      → (list : ObjList) × (finish_start os fuel p pool (false, thd, env)
          ≡ returns (
            null,
            record pool {
              list = list;
              objs = put_thread pool.objs p thd;
              env = end_thread os (put_thread pool.objs p thd) env p;
            },
          ))
        × IsList list xs
  unfolding finish_start
  finish_start-fails fuel p pool thd env xs is fresh lt =
      let (list, freed, is') =
        deallocate-erase os fuel p (record pool { objs = put_thread pool.objs p thd; env = env })
          (xs ++ (p ∷ [])) is (has-snoc p xs) (omega (arith, length-append xs (p ∷ []))) in
      (list, rw freed refl, rw (erase-snoc p xs fresh) at is')

  -- What `DC_MALLOC` gives to a new thread.
  abbrev pub new : Pool E → Ptr
  new pool = (os.malloc pool.env).0

  module _ (sys : System) (thread_func stack_size priority : ℕ) (pool : Pool E) where
    -- The new thread as its constructor leaves it.
    abbrev pub constructed : Thread
    constructed = record (pool.objs (new pool)) { thread_func = thread_func }

    -- What `Thread::start` comes to.
    abbrev pub outcome : Run (Bool × Thread × E)
    outcome = start (os.call (new pool)) sys stack_size priority constructed (os.malloc pool.env).1

    -- The threads when `Thread::start` has left the new one as `thd`.
    abbrev pub objs_after : Thread → Ptr → Thread
    objs_after thd = put_thread (put_thread pool.objs (new pool) constructed) (new pool) thd

    -- What `Threads::start` comes to with the list of all threads `list`.
    abbrev pub started_or_freed : ObjList → Bool → Thread → E → Run (Ptr × Pool E)
    started_or_freed list ok thd env =
        if ok
        then returns (new pool, record pool { list = list; objs = objs_after thd; env = env })
        else returns (
          null,
          record pool {
            list = list;
            objs = objs_after thd;
            env = end_thread os (objs_after thd) env (new pool);
          },
        )

    module _ (fuel : ℕ) (xs : List Ptr) (is : IsList pool.list xs) (enough : length xs < fuel)
        (got : new pool ≢ null) (fresh : has (new pool) xs ≡ false) where
      pub allocate-new :
          (list : ObjList) × (allocate os fuel thread_func pool
            ≡ returns (
              new pool,
              record pool {
                list = list;
                objs = put_thread pool.objs (new pool) constructed;
                env = (os.malloc pool.env).1;
              },
            ))
          × IsList list (xs ++ (new pool ∷ []))
      unfolding allocate
      allocate-new =
          let (list, linked, is') =
            construct-snoc fuel pool.list (new pool) xs is got fresh (omega arith) in
          (list, rw (==_ne (new pool) null got, linked) refl, is')

      begin-start_thread :
          (list : ObjList) × (start_thread os fuel sys thread_func stack_size priority pool
            ≡ and_then outcome (
                finish_start os fuel (new pool) (record pool {
                  list = list;
                  objs = put_thread pool.objs (new pool) constructed;
                  env = (os.malloc pool.env).1;
                })))
          × IsList list (xs ++ (new pool ∷ []))
      unfolding start_thread
      begin-start_thread =
          let (list, allocated, is') = allocate-new in
          (list, rw (allocated, ==_ne (new pool) null got, ==_self (new pool)) refl, is')

      pub start_thread-returns :
          (ok : Bool) (thd : Thread) (env : E)
          → outcome ≡ returns (ok, thd, env)
          → (list : ObjList) × (start_thread os fuel sys thread_func stack_size priority pool
              ≡ started_or_freed list ok thd env)
            × IsList list (if ok then xs ++ (new pool ∷ []) else xs)
      start_thread-returns true thd env e =
          let (list, begun, is') = begin-start_thread in
          (list, begun ∙ (unfold finish_start in rw e refl), is')
      start_thread-returns false thd env e =
          let (list, begun, is') = begin-start_thread in
          let (list', failed, is'') =
            finish_start-fails fuel (new pool)
              (record pool {
                list = list;
                objs = put_thread pool.objs (new pool) constructed;
                env = (os.malloc pool.env).1;
              })
              thd env xs is' fresh enough in
          (list', begun ∙ rw e failed, is'')

      -- Stopping a thread that was started leaves the list of all threads as it was.
      pub stop-start_thread :
          (thd : Thread) (env : E)
          → outcome ≡ returns (true, thd, env)
          → (started stopped : Pool E) × (start_thread os fuel sys thread_func stack_size priority
                pool
              ≡ returns (new pool, started))
            × IsList started.list (xs ++ (new pool ∷ []))
            × (stop os fuel (new pool) started ≡ returns stopped)
            × IsList stopped.list xs
            × (stopped.env ≡ end_thread os (objs_after thd) env (new pool))
      unfolding stop
      stop-start_thread thd env ok =
          let (list, begun, is') = start_thread-returns true thd env ok in
          let started = record pool { list = list; objs = objs_after thd; env = env } in
          let (list', freed, left) =
            deallocate-erase os fuel (new pool) started (xs ++ (new pool ∷ [])) is'
              (has-snoc (new pool) xs) (omega (arith, length-append xs (new pool ∷ []))) in
          (
            started,
            record started { list = list'; env = end_thread os (objs_after thd) env (new pool) },
            begun,
            is',
            freed,
            rw (erase-snoc (new pool) xs fresh) at left,
            refl,
          )
