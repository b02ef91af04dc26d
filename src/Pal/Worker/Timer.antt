-- ===== src/Pal/Worker/Timer.antt =====
-- From the timeout of one round of `Worker::run` (DC_PAL/Worker.cpp) to the pass of the next: what a
-- worker calls when it has waited for as long as it meant to.
use libdronecan.Prelude.{ℕ, ◌≡◌, true, List}
use libdronecan.Pal.Links.{Ptr, has}
use libdronecan.Pal.Worker.{periodic, Objects, Worker}
use libdronecan.Pal.Worker.Pass.{due_list}

-- An object whose trigger time has come, and which is therefore called.
record IsCalled (r t mask : ℕ) (objs : Objects) (xs : List Ptr) : Type 0 where
  y : Ptr
  period : ℕ
  inside : has y xs ≡ true
  called : has y (due_list t mask objs xs) ≡ true
  kind_is : (objs y).kind ≡ periodic period r
