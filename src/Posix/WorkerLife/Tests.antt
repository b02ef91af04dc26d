-- ===== src/Posix/WorkerLife/Tests.antt =====
-- A worker with two objects on a platform that notes the calls by their threads.
use libdronecan.Prelude.{◌+◌, ◌≡◌, refl, true, false, List, [], ◌∷◌, arith, ◌==◌, if◌then◌else◌}
use libdronecan.Pal.Links.{Ptr, null, returns}
use libdronecan.Pal.ObjList.Add.{IsList}
use libdronecan.Pal.Worker.{Worker, periodic, event}
use libdronecan.Pal.Worker.Register.{IsWorker}
use libdronecan.Posix.Thread.{System, start, check, schedule}
use libdronecan.Posix.Threads.{Platform, Pool}
use libdronecan.Posix.Threads.Destroy.{end_thread}
use libdronecan.Posix.WorkerLife.{start_worker, end_worker}
use libdronecan.Posix.WorkerLife.Laws.{end_worker-start_worker}

abbrev noting : Platform (List Ptr)
noting = record {
  malloc = λ log. (9, log);
  free = λ p log. (p + 100) ∷ log;
  call = λ p c log. (0, p ∷ log);
  key_create = λ log. log;
  key_delete = λ log. log;
}

abbrev system : System
system = record {
  page_size = 4096;
  stack_min = 16384;
  euid = 1000;
  prio_min = 1;
  prio_max = 99;
  ndebug = false;
}

-- Thread 4 is in the list.
abbrev pool : Pool (List Ptr)
pool = record {
  list = record { head = 4; next = λ a. null };
  objs = λ a. record { thread_func = a; attr_ready = false; cond_ready = true };
  events = λ a. record { registered = 0; signalled = 0; cond_signalled = false };
  main_thread = null;
  env = [];
}

pool-IsList : IsList pool.list (4 ∷ [])
pool-IsList = record { chain = (refl, (λ e. omega (arith, e)), refl); distinct = (refl, tt) }

-- The objects 3 and 5.
abbrev worker : Worker
worker = record {
  head = 3;
  objs = λ a.
      if a == 3
      then record { next = 5; worker = 1; kind = periodic 50 100 }
      else record { next = null; worker = 1; kind = event 1 true };
}

worker-IsWorker : IsWorker worker (3 ∷ 5 ∷ [])
worker-IsWorker = record {
  chain = (refl, (λ e. omega (arith, e)), (refl, (λ e. omega (arith, e)), refl));
  distinct = (refl, (refl, tt));
}

end_worker-start_worker_example :
    (thread : Ptr) × (started ended : Pool (List Ptr)) × (w' : Worker) × (start_worker noting 3
        system 5 8192 10 pool
      ≡ returns (true, thread, started))
    × IsList started.list (4 ∷ thread ∷ [])
    × (end_worker noting 3 95 thread worker started ≡ returns (w', ended))
    × (w'.head ≡ null)
    × IsList ended.list (4 ∷ [])
    × (ended.env ≡ end_thread noting started.objs started.env thread)
unfolding start check schedule
end_worker-start_worker_example =
    end_worker-start_worker noting system 5 8192 10 pool 3 (4 ∷ []) pool-IsList (omega arith)
      (λ e. omega (arith, e)) refl
      (record { thread_func = 5; attr_ready = true; cond_ready = true }) (9 ∷ 9 ∷ 9 ∷ 9 ∷ []) refl
      95 worker (3 ∷ 5 ∷ []) worker-IsWorker (omega arith)
