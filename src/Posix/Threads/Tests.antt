-- ===== src/Posix/Threads/Tests.antt =====
-- Runs of the class `Threads` on a platform that notes what it is asked for.
use mathlib.Core.List.{foldl}
use libdronecan.Prelude.{◌+◌, ◌≡◌, refl, true, false, List, [], ◌∷◌, arith, ◌==◌, if◌then◌else◌}
use libdronecan.Pal.Links.{Ptr, null, returns}
use libdronecan.Pal.ObjList.{ObjList}
use libdronecan.Pal.ObjList.Add.{IsList}
use libdronecan.Posix.Thread.{System, Thread}
use libdronecan.Posix.Threads.{Platform, Pool, destroy_pool}
use libdronecan.Posix.Threads.Destroy.{end_thread, destroy_pool-foldl}

-- A call is noted by its thread.
abbrev noting : Platform (List Ptr)
noting = record {
  malloc = λ log. (9, log);
  free = λ p log. (p + 100) ∷ log;
  call = λ p c log. (0, p ∷ log);
  key_create = λ log. log;
  key_delete = λ log. 1000 ∷ log;
}

-- No call for thread 9 succeeds.
abbrev refusing : Platform (List Ptr)
refusing = record noting { call = λ p c log. (p, p ∷ log) }

abbrev system : System
system = record {
  page_size = 4096;
  stack_min = 16384;
  euid = 1000;
  prio_min = 1;
  prio_max = 99;
  ndebug = false;
}

-- The threads 4 and 6 are in the list.
abbrev pool : Pool (List Ptr)
pool = record {
  list = record { head = 4; next = λ a. if a == 4 then 6 else null };
  objs = λ a. record { thread_func = a; attr_ready = false; cond_ready = true };
  events = λ a. record { registered = 0; signalled = 0; cond_signalled = false };
  main_thread = null;
  env = [];
}

pool-IsList : IsList pool.list (4 ∷ 6 ∷ [])
pool-IsList = record {
  chain = (refl, (λ e. omega (arith, e)), (refl, (λ e. omega (arith, e)), refl));
  distinct = (refl, (refl, tt));
}

destroy_pool-foldl_example :
    (pool' : Pool (List Ptr)) × (destroy_pool noting 3 pool ≡ returns pool')
    × (pool'.list.head ≡ null)
    × (pool'.env ≡ 1000 ∷ foldl (end_thread noting pool.objs) [] (4 ∷ 6 ∷ []))
destroy_pool-foldl_example = destroy_pool-foldl noting 3 pool (4 ∷ 6 ∷ []) pool-IsList (omega arith)

-- A build without assertions.
abbrev released : System
released = record system { ndebug = true }
