-- ===== src/Examples/Transitions.antt =====
-- A transition that is cancelled before it starts, one that runs, and waits on both.
use ngsm.Prelude.{◌≤◌, ◌≡◌, refl, inl, true, false, some, List, [], ◌∷◌, arith}
use ngsm.Text.{Text}
use ngsm.Result.{Result, ok}
use ngsm.Supervisor.Transition.{
  State, Round, applied, cancelled, queued, executing, finished, new, cancel, begin, complete,
  drop_completion, outcome, wait, wait_loop, poll, wait_tests, verdict,
}
use ngsm.Supervisor.Transition.Threads.{
  World, init, Reach, here, next, starting, finishing, cancelling,
}
use ngsm.Supervisor.Transition.Runs.{runs_once, outcome_definitive, cancel-queued_never_runs}
use ngsm.Supervisor.Transition.Waiting.{Answers, wait-Answers, wait_returns}

-- The worker takes the transition and stores its outcome.
abbrev applied_world : World
applied_world = record {
  state = record { phase = finished applied; cancel_flag = false };
  active = 0;
  runs = 1;
}

program : Unit {0}
unfolding new begin complete drop_completion outcome cancel wait wait_loop poll wait_tests verdict
program = tt

Reach-applied : Reach init applied_world
unfolding program
Reach-applied = next (next here (starting refl)) (finishing applied (omega arith))

runs_once_example : (applied_world.active ≤ 1) × (applied_world.runs ≤ 1)
runs_once_example = runs_once Reach-applied

abbrev late_cancel : World
late_cancel = record {
  state = record { phase = finished applied; cancel_flag = true };
  active = 0;
  runs = 1;
}

cancelled_late : Reach applied_world late_cancel
unfolding program
cancelled_late = next here cancelling

applied_is_known : outcome applied_world.state ≡ some applied
unfolding program
applied_is_known = refl

outcome_definitive_example : (outcome late_cancel.state ≡ some applied) × (late_cancel.runs ≡ 1)
outcome_definitive_example =
    outcome_definitive applied Reach-applied applied_is_known cancelled_late

new_is_queued : init.state.phase ≡ queued
unfolding program
new_is_queued = refl

abbrev cancelled_world : World
cancelled_world = record init { state = (cancel init.state).0 }

cancel-queued_never_runs_example :
    ((cancel init.state).1 ≡ some cancelled)
    × (outcome cancelled_world.state ≡ some cancelled)
    × (cancelled_world.runs ≡ 0)
cancel-queued_never_runs_example = cancel-queued_never_runs here new_is_queued here

-- The first round sees the request queued before its deadline; in the second the worker is done.
abbrev done_in_time : List Round
done_in_time =
    record { meanwhile = λ s. s; between = λ s. s; now = 10; later = 11 }
    ∷ record { meanwhile = λ s. applied_world.state; between = λ s. s; now = 40; later = 40 }
    ∷ []

waited :
    wait 0 100 done_in_time (record { phase = queued; cancel_flag = false })
    ≡ (applied_world.state, some (ok tt))
unfolding program
waited = refl

wait-Answers_example : Answers applied_world.state (ok tt)
wait-Answers_example =
    wait-Answers 0 100 done_in_time (record { phase = queued; cancel_flag = false })
      applied_world.state (ok tt) (omega arith, (omega arith, tt)) waited

-- A worker that never ends.
abbrev stuck : State
stuck = record { phase = executing; cancel_flag = false }

wait_returns_example :
    (v : Result Text (Unit {0})) × ((wait 0 100
        (record { meanwhile = λ s. s; between = λ s. s; now = 5099; later = 5100 } ∷ [])
        stuck).1
      ≡ some v)
wait_returns_example =
    wait_returns 0 100
      (record { meanwhile = λ s. s; between = λ s. s; now = 5099; later = 5100 } ∷ []) stuck
      (inl (omega arith))
