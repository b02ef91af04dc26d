-- ===== src/Posix/WorkerLife/Laws.antt =====
-- The life of a worker (DC_PAL/Worker.cpp) on a thread of DC_PAL_Posix/Threads.cpp.
use libdronecan.Prelude.{
  ℕ, ◌<◌, ◌≡◌, ◌≢◌, refl, true, false, List, [], ◌∷◌, ◌++◌, length, length-append, arith, ==_ne,
}
use libdronecan.Pal.Links.{Ptr, null, returns, has}
use libdronecan.Pal.ObjList.Add.{IsList}
use libdronecan.Pal.Worker.{Worker}
use libdronecan.Pal.Worker.Register.{IsWorker}
use libdronecan.Pal.Worker.Unregister.{unregister_first, destroy-empty}
use libdronecan.Posix.Thread.{System, Thread}
use libdronecan.Posix.Threads.{Platform, Pool}
use libdronecan.Posix.Threads.Destroy.{end_thread, deallocate-erase, erase-snoc, has-snoc}
use libdronecan.Posix.Threads.Start.{new, outcome, stop-start_thread}
use libdronecan.Posix.WorkerLife.{start_worker, end_worker, end_object}

module _ {E : Type 0} (os : Platform E) (sys : System) (thread_func stack_size priority : ℕ)
    (pool : Pool E) (fuel : ℕ) (xs : List Ptr) (is : IsList pool.list xs)
    (enough : length xs < fuel) (got : new os pool ≢ null) (fresh : has (new os pool) xs ≡ false)
    (thd : Thread) (env : E)
    (ok : outcome os sys thread_func stack_size priority pool ≡ returns (true, thd, env)) where
  -- If memory is had and the thread starts, starting a worker puts its thread behind the others,
  -- and destroying the worker then ends: it unregisters all its objects, stops the thread, and
  -- leaves the list of all threads as it was. The new thread is not null and not in the list, the
  -- threads are fewer than the rounds, and so are the worker's objects.
  pub end_worker-start_worker :
      (now : ℕ) (w : Worker) (ws : List Ptr)
      → IsWorker w ws
      → length ws < fuel
      → (thread : Ptr) × (started ended : Pool E) × (w' : Worker) × (start_worker os fuel sys
            thread_func stack_size priority pool
          ≡ returns (true, thread, started))
        × IsList started.list (xs ++ (thread ∷ []))
        × (end_worker os fuel now thread w started ≡ returns (w', ended))
        × (w'.head ≡ null)
        × IsList ended.list xs
        × (ended.env ≡ end_thread os started.objs started.env thread)
  unfolding start_worker end_worker
  end_worker-start_worker now w ws isw lt =
      let (started, stopped, begun, is', halted, before, at) =
        stop-start_thread os sys thread_func stack_size priority pool fuel xs is enough got fresh
          thd env ok in
      let p = new os pool in
      let (list, freed, left) =
        deallocate-erase os fuel p started (xs ++ (p ∷ [])) is' (has-snoc p xs)
          (omega (arith, length-append xs (p ∷ []))) in
      let (w', emptied, empty) = destroy-empty fuel now p w ws isw got lt in
      (
        p,
        started,
        record started { list = list; env = end_thread os started.objs started.env p },
        w',
        rw (begun, ==_ne p null got) refl,
        is',
        rw (==_ne p null got, emptied, freed) refl,
        empty,
        rw (erase-snoc p xs fresh) at left,
        refl,
      )

-- Destroying the first object of a worker takes it out, and destroying it once more does nothing.
pub end_object-again :
    (fuel now : ℕ) (w : Worker) (x : Ptr) (xs : List Ptr)
    → IsWorker w (x ∷ xs)
    → (w.objs x).worker ≢ null
    → (w' : Worker) × (end_object fuel now w x ≡ returns w')
      × IsWorker w' xs
      × (end_object fuel now w' x ≡ returns w')
unfolding end_object
end_object-again fuel now w x xs is on =
    let (w', gone, is', cleared, next, head) = unregister_first fuel now w x xs is in
    (w', rw (==_ne (w.objs x).worker null on) gone, is', rw cleared refl)
