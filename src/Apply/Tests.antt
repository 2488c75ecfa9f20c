-- ===== src/Apply/Tests.antt =====
-- Runs of the gate of apply_action.rs on concrete actions.
use mon_os.Base.{◌/◌, ◌≤◌, ◌≡◌, refl, arith, true, false, List, [], ◌∷◌, ◌++◌, All, ◌⊎◌}
use mon_os.Journal.{Action}
use mon_os.Apply.{
  ApplyError, ApplyResult, Counters, System, start, apply_action_atomic, is_allowed,
  validate_params,
}
use mon_os.Apply.Atomic.{Applied, Legal, new_quantum, apply_action_atomic-Applied}
use mon_os.Apply.Session.{propose_all, trail, replay, propose_all-trail, propose_all-bounds}
use mon_os.Apply.SelfTest.{Rising, apply_action_atomic-commits}

-- One tick in ten reads, and a timer that stands still.
abbrev running : Counters
running = record { ticks = λ i. i / 10; faults = λ i. 3 }

abbrev stopped : Counters
stopped = record { ticks = λ i. 7; faults = λ i. 3 }

abbrev ready : System
ready = record { quantum_us = 1000; seq = 4; system_ready = true; journal = []; now = 20 }

abbrev slower : Action
slower = record { kind = 1; flags = 0; param1 = 2000; param2 = 0; param3 = 0 }

abbrev too_slow : Action
too_slow = record { kind = 1; flags = 0; param1 = 50001; param2 = 0; param3 = 0 }

abbrev reboot : Action
reboot = record { kind = 254; flags = 0; param1 = 0; param2 = 0; param3 = 0 }

slower-Legal : Legal slower
slower-Legal = Legal.quantum refl (omega arith) (omega arith)

apply-early :
    (apply_action_atomic running 0 slower start).0 ≡ ApplyResult.err ApplyError.not_allowed
unfolding apply_action_atomic
apply-early = refl

is_allowed-reboot : is_allowed 254 ≡ false
unfolding is_allowed
is_allowed-reboot = refl

validate_params-too_slow : validate_params too_slow ≡ false
unfolding validate_params
validate_params-too_slow = refl

apply_action_atomic-Applied_example :
    Applied running 4 slower ready
      (apply_action_atomic running 4 slower ready).0
      (apply_action_atomic running 4 slower ready).1
apply_action_atomic-Applied_example = apply_action_atomic-Applied running 4 slower ready

running-Rising : Rising running.ticks
unfolding Rising
running-Rising = λ i j h. omega arith

apply_action_atomic-commits_example :
    let end = apply_action_atomic running 4 slower ready in
    (end.0 ≡ ApplyResult.ok) × (end.1.quantum_us ≡ new_quantum slower 1000)
apply_action_atomic-commits_example =
    apply_action_atomic-commits running 4 slower ready refl slower-Legal running-Rising
      (omega arith) (λ i j. refl)

abbrev proposals : List Action
proposals = slower ∷ too_slow ∷ reboot ∷ []

propose_all-trail_example :
    let out = propose_all stopped proposals ready in
    (out.1.journal ≡ [] ++ trail 4 proposals out.0)
    × (out.1.quantum_us ≡ replay proposals out.0 1000)
    × All (λ r. (r ≡ 0) ⊎ ((r ≡ 1) ⊎ (r ≡ 5))) out.0
propose_all-trail_example = propose_all-trail stopped proposals ready

propose_all-bounds_example :
    let q = (propose_all running proposals ready).1.quantum_us in (100 ≤ q) × (q ≤ 50000)
propose_all-bounds_example = propose_all-bounds running proposals ready (omega arith) (omega arith)
