-- ===== src/Posix/Events/Wait.antt =====
-- `wait_any`, `wait_all` and `wait` of DC_PAL_Posix/Threads.cpp and DC_PAL/Threads.h.
use libdronecan.Prelude.{
  ℕ, ◌^◌, ◌<◌, ◌≡◌, ◌≢◌, ◌⊎◌, refl, ap, Bool, true, false, not, ◌&&◌, some, List, [], ◌∷◌, ◌++◌,
  arith, ==_ne, bit_and, bit_or,
}
use libdronecan.Prelude.Bits.{test_bit, test_bit-and, test_bit-not, bit_and-zero}
use libdronecan.Posix.Events.{
  EventState, not32, meets, signal, Op, op_signal, apply_op, apply_ops, Wake, Waited, asleep,
  wait_any_loop, wait_any, wait_all_loop, wait_all, wait,
}
use libdronecan.Posix.Events.Signal.{meets-or}

-- If an event of the 32-bit mask is posted already, `wait_any` returns true at once, clears the
-- events of the mask and no other, and leaves the caller's mask as it was.
pub wait_any-ready :
    (s : EventState) (evt_mask i : ℕ) (ws : List Wake)
    → evt_mask < 2 ^ 32
    → i < 32
    → meets s.signalled evt_mask ≡ true
    → (r : Waited) × (wait_any s evt_mask ws ≡ some r)
      × (r.result ≡ true)
      × (r.evt_mask ≡ evt_mask)
      × (test_bit r.state.signalled i ≡ (test_bit s.signalled i && not (test_bit evt_mask i)))
unfolding wait_any
wait_any-ready s evt_mask i ws h lt hit = (
  record {
    result = true;
    evt_mask = evt_mask;
    state = record s { signalled = bit_and s.signalled (not32 evt_mask) };
  },
  rw hit,
  refl,
  refl,
  ground (arith, test_bit-and i s.signalled (not32 evt_mask), test_bit-not 32 i evt_mask h lt),
)

apply_ops-append :
    (s : EventState) (xs ys : List Op) → apply_ops s (xs ++ ys) ≡ apply_ops (apply_ops s xs) ys
unfolding apply_ops
apply_ops-append s [] ys = refl
apply_ops-append s (x ∷ xs) ys = apply_ops-append (apply_op s x) xs ys

-- A thread that waits for a mask of which nothing is posted is woken by a signal of events that
-- meet the mask and the registered events, whatever the other threads did before: when the thread
-- next has the semaphore, without a timeout or a spurious return, `wait_any` returns true,
-- reports the signalled events beside those that were posted, and leaves none posted.
pub wait_any-signal :
    (s : EventState) (evt_mask events : ℕ) (before : List Op) (ws : List Wake)
    → meets s.signalled evt_mask ≡ false
    → events < 2 ^ 32
    → meets events (apply_ops (asleep s) before).registered ≡ true
    → meets events evt_mask ≡ true
    → wait_any s evt_mask (
        record { ops = before ++ (op_signal events ∷ []); timed_out = false; spurious = false }
        ∷ ws)
      ≡ some (record {
        result = true;
        evt_mask = bit_or (apply_ops (asleep s) before).signalled events;
        state = record (apply_ops (asleep s) before) { signalled = 0; cond_signalled = true };
      })
unfolding wait_any wait_any_loop signal apply_op
wait_any-signal s evt_mask events before ws quiet h reg hit =
    rw
      (
        quiet,
        apply_ops-append (asleep s) before (op_signal events ∷ []),
        posted,
        meets-or (apply_ops (asleep s) before).signalled events evt_mask h hit,
        ==_ne evt_mask 0 mask_ne,
      )
      refl
  where
    s1 : EventState
    s1 = apply_ops (asleep s) before

    posted :
        apply_ops s1 (op_signal events ∷ [])
        ≡ record s1 { signalled = bit_or s1.signalled events; cond_signalled = true }
    posted = unfold apply_ops in rw reg

    mask_ne : evt_mask ≢ 0
    mask_ne e = ground (arith, hit, bit_and-zero events, ap (bit_and events) e)

-- A `wait_any` that had to wait leaves no event posted, and what it reports meets the mask if it
-- returns true.
wait_any_loop-report :
    (s : EventState) (evt_mask : ℕ) (ws : List Wake) (r : Waited)
    → wait_any_loop s evt_mask ws ≡ some r
    → (r.state.signalled ≡ 0) × ((r.result ≡ false) ⊎ (meets r.evt_mask evt_mask ≡ true))
unfolding wait_any_loop
wait_any_loop-report s evt_mask [] r e = cc
wait_any_loop-report s evt_mask (w ∷ ws) r e =
    ground (arith, wait_any_loop-report (asleep (apply_ops s w.ops)) evt_mask ws r)

-- Whether it returns true or false, a `wait_any` that had to wait leaves no event posted; where
-- it returns true, what it reports has an event of the mask.
pub wait_any-report :
    (s : EventState) (evt_mask : ℕ) (ws : List Wake) (r : Waited)
    → meets s.signalled evt_mask ≡ false
    → wait_any s evt_mask ws ≡ some r
    → (r.state.signalled ≡ 0) × ((r.result ≡ false) ⊎ (meets r.evt_mask evt_mask ≡ true))
unfolding wait_any
wait_any-report s evt_mask ws r quiet e =
    wait_any_loop-report (asleep s) evt_mask ws r (rw quiet at e)

wait_all_loop-zero :
    (s : EventState) (ws : List Wake) (b : Bool) (s' : EventState)
    → wait_all_loop s 0 ws ≡ some (b, s')
    → (b ≡ false) × (s'.signalled ≡ 0)
unfolding wait_all_loop
wait_all_loop-zero s [] b s' e = cc
wait_all_loop-zero s (w ∷ ws) b s' e =
    ground (arith, wait_all_loop-zero (asleep (apply_ops s w.ops)) ws b s')

-- Where `wait` ends, it returns false and leaves no event posted.
pub wait-drops :
    (s : EventState) (ws : List Wake) (b : Bool) (s' : EventState)
    → wait s ws ≡ some (b, s')
    → (b ≡ false) × (s'.signalled ≡ 0)
unfolding wait wait_all
wait-drops s ws b s' e = ground (arith, wait_all_loop-zero (asleep s) ws b s')
