-- ===== src/Posix/Events/Tests.antt =====
-- Runs of the events of a thread.
use libdronecan.Prelude.{◌+◌, ◌≡◌, ◌⊎◌, refl, true, false, [], ◌∷◌, arith, some, bit_or}
use libdronecan.Prelude.Bits.{test_bit}
use libdronecan.Posix.Events.{
  EventState, meets, signal, first_free, register_evt, unregister_evt, op_signal, op_register,
  apply_op, apply_ops, Wake, Waited, wait_any, wait_any_loop,
}
use libdronecan.Prelude.{if◌then◌else◌}
use libdronecan.Posix.Events.Owners.{
  Owners, Reachable, start, registers, signals, gives_back, count, Reachable-held_once,
}
use libdronecan.Posix.Events.Wait.{wait_any-signal, wait_any-report}

-- The events 0 and 2 are registered, 0 is posted.
abbrev state : EventState
state = record { registered = 5; signalled = 1; cond_signalled = false }

wait_any-signal_example :
    wait_any state 4
      (record { ops = op_register ∷ op_signal 4 ∷ []; timed_out = false; spurious = false } ∷ [])
    ≡ some (record {
      result = true;
      evt_mask = bit_or (apply_ops state (op_register ∷ [])).signalled 4;
      state = record (apply_ops state (op_register ∷ [])) { signalled = 0; cond_signalled = true };
    })
unfolding apply_ops apply_op register_evt first_free
wait_any-signal_example =
    wait_any-signal state 4 4 (op_register ∷ []) [] refl (omega arith) refl refl

-- Nothing comes until the timeout.
abbrev late : Wake
late = record { ops = []; timed_out = true; spurious = false }

abbrev gave_up : Waited
gave_up = record { result = false; evt_mask = 1; state = record state { signalled = 0 } }

times_out : wait_any state 4 (late ∷ []) ≡ some gave_up
unfolding wait_any wait_any_loop apply_ops
times_out = refl

wait_any-report_example : (gave_up.state.signalled ≡ 0) × ((false ≡ false) ⊎ (meets 1 4 ≡ true))
wait_any-report_example = wait_any-report state 4 (late ∷ []) gave_up refl times_out

-- The memory held 4: event 2 seems to be registered. Events 0 and 1 are taken, 0 is given back.
abbrev nobody : Owners
nobody = record {
  events = record { registered = 4; signalled = 0; cond_signalled = false };
  owned = [];
}

abbrev first_held : Owners
first_held = record nobody { events = record nobody.events { registered = 5 }; owned = 0 ∷ [] }

abbrev both_held : Owners
both_held = record nobody { events = record nobody.events { registered = 7 }; owned = 1 ∷ 0 ∷ [] }

abbrev posted : Owners
posted = record {
  events = record { registered = 7; signalled = 2; cond_signalled = true };
  owned = 1 ∷ 0 ∷ [];
}

abbrev one_held : Owners
one_held = record {
  events = record { registered = 6; signalled = 2; cond_signalled = true };
  owned = 1 ∷ [];
}

both_held-Reachable : Reachable 4 both_held
unfolding register_evt first_free
both_held-Reachable =
    registers {o = first_held} 1 (registers {o = nobody} 0 (start 0 false) refl) refl

one_held-Reachable : Reachable 4 one_held
unfolding signal unregister_evt
one_held-Reachable =
    gives_back {o = posted} 0 (signals {o = both_held} 2 both_held-Reachable) (omega arith)

Reachable-held_once_example :
    count 1 (1 ∷ []) + (if test_bit 4 1 then 1 else 0) ≡ (if test_bit 6 1 then 1 else 0)
Reachable-held_once_example =
    Reachable-held_once (omega arith) one_held 1 one_held-Reachable (omega arith)
