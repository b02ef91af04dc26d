-- ===== src/Posix/Threads/Main.antt =====
-- `Threads::register_main_thread` of DC_PAL_Posix/Threads.cpp, for a thread that the library did not
-- start.
use libdronecan.Prelude.{
  ℕ, ◌<◌, ◌≡◌, ◌≢◌, refl, ◌∙◌, ap, false, List, [], ◌∷◌, ◌++◌, length, arith, ==_ne, ==_self, Bool,
}
use libdronecan.Pal.Links.{Ptr, null, returns, has}
use libdronecan.Pal.ObjList.Add.{IsList}
use libdronecan.Posix.Thread.{
  Call, attr_destroy, cond_destroy, do_if, System, Thread, start, check, destroy,
}
use libdronecan.Posix.Threads.{Platform, Pool, register_main_thread}
use libdronecan.Posix.Threads.Destroy.{end_thread}
use libdronecan.Posix.Threads.Start.{new, constructed, outcome, objs_after, allocate-new}

-- Starting a thread without a function leaves it without one.
start_unmanaged :
    {E : Type 0} (call : Call → E → ℕ × E) (sys : System) (stack_size priority : ℕ) (thd : Thread)
    (env : E) (ok : Bool) (thd' : Thread) (env' : E)
    → thd.thread_func ≡ null
    → start call sys stack_size priority thd env ≡ returns (ok, thd', env')
    → thd'.thread_func ≡ null
unfolding start check
start_unmanaged call sys stack_size priority thd env ok thd' env' e r = ground arith

-- The end of a thread without a function.
destroy_unmanaged :
    {E : Type 0} (call : Call → E → ℕ × E) (thd : Thread) (env : E)
    → thd.thread_func ≡ null
    → destroy call thd env
      ≡ do_if call thd.cond_ready cond_destroy (do_if call thd.attr_ready attr_destroy env)
unfolding destroy
destroy_unmanaged call thd env e = rw e refl

module _ {E : Type 0} (os : Platform E) (sys : System) (pool : Pool E) (fuel : ℕ) (xs : List Ptr)
    (is : IsList pool.list xs) (enough : length xs < fuel) (got : new os pool ≢ null)
    (fresh : has (new os pool) xs ≡ false) (ok : Bool) (thd : Thread) (env_after : E)
    (begun : outcome os sys null 0 0 pool ≡ returns (ok, thd, env_after)) where
  -- Registering the main thread puts a thread without a function behind the others, if memory is
  -- had for it and `Thread::start` returns: ending that thread cancels and joins nobody.
  pub register_main_thread-kept :
      (main : Pool E) × (register_main_thread os fuel sys pool ≡ returns (new os pool, main))
      × (main.main_thread ≡ new os pool)
      × IsList main.list (xs ++ (new os pool ∷ []))
      × ((main.objs (new os pool)).thread_func ≡ null)
      × ((env : E)
          → end_thread os main.objs env (new os pool)
            ≡ os.free (new os pool) (
                do_if (os.call (new os pool)) (main.objs (new os pool)).cond_ready cond_destroy (
                  do_if
                    (os.call (new os pool))
                    (main.objs (new os pool)).attr_ready
                    attr_destroy
                    env)))
  unfolding register_main_thread
  register_main_thread-kept =
      let p = new os pool in
      let (list, allocated, is') = allocate-new os sys null 0 0 pool fuel xs is enough got fresh in
      let main : Pool E = record {
        list = list;
        objs = objs_after os sys null 0 0 pool thd;
        events = pool.events;
        main_thread = p;
        env = env_after;
      } in
      let at : main.objs p ≡ thd = rw (==_self p) refl in
      let unmanaged : (main.objs p).thread_func ≡ null =
        ap (λ (t : Thread). t.thread_func) at
        ∙ start_unmanaged (os.call p) sys 0 0 (constructed os sys null 0 0 pool)
            (os.malloc pool.env).1 ok thd env_after refl begun in
      (
        main,
        rw (allocated, ==_ne p null got, ==_self p, begun) refl,
        refl,
        is',
        unmanaged,
        λ env. ap (os.free p) (destroy_unmanaged (os.call p) (main.objs p) env unmanaged),
      )
