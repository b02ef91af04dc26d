-- ===== src/Posix/WorkerLife.antt =====
-- `Worker::start` and `~Worker` of DC_PAL/Worker.cpp on the threads of DC_PAL_Posix/Threads.cpp, and
-- `~WorkerObject` of DC_PAL/Worker.h.
pub mod Laws
mod Tests
use libdronecan.Prelude.{ℕ, Bool, true, false, not, ◌==◌, if◌then◌else◌}
use libdronecan.Pal.Links.{Ptr, null, Run, returns, null_deref, out_of_fuel, and_then}
use libdronecan.Pal.Worker.{Objects, Worker, unregister_worker, destroy}
use libdronecan.Posix.Thread.{System}
use libdronecan.Posix.Threads.{Platform, Pool, start_thread, deallocate}

module _ {E : Type 0} (os : Platform E) where
  -- `Worker::start` with the worker's `thread_func`: the result, and `thread`.
  pub start_worker :
      ℕ → System → (thread_func stack_size priority : ℕ) → Pool E → Run (Bool × Ptr × Pool E)
  start_worker fuel sys thread_func stack_size priority pool =
      and_then (start_thread os fuel sys thread_func stack_size priority pool)
        λ (r : Ptr × Pool E). returns (not (r.0 == null), r.0, r.1)

  -- `~Worker`: the objects are unregistered, then the thread is stopped.
  pub end_worker : ℕ → (now : ℕ) → (thread : Ptr) → Worker → Pool E → Run (Worker × Pool E)
  end_worker fuel now thread w pool =
      if thread == null
      then returns (w, pool)
      else and_then (destroy fuel now thread w)
          λ w'. and_then (deallocate os fuel thread pool) λ pool'. returns (w', pool')

-- `~WorkerObject` of an object whose worker, if it has one, is `w`.
pub end_object : ℕ → (now : ℕ) → Worker → Ptr → Run Worker
end_object fuel now w obj =
    if (w.objs obj).worker == null then returns w else unregister_worker fuel now w obj
