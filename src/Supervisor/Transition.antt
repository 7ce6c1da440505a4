-- ===== src/Supervisor/Transition.antt =====
-- crates/servicemanager-supervisor/src/transition.rs: one pause or continue request, shared by the
-- thread that asks and the supervisor that executes. Each function below is one critical section
-- of the mutex around `phase`.
use ngsm.Prelude.{
  ℕ, zero, suc, ◌+◌, ◌-◌, ◌≤◌, ◌<◌, ◌≡◌, refl, ap, Bool, true, false, not, ◌&&◌, ◌||◌, Option, none,
  some, List, [], ◌∷◌, arith, leb, ltb, if◌then◌else◌,
}
use ngsm.Text.{Text, text}
use ngsm.Result.{Result, ok, err}
pub mod Threads
pub mod Runs
pub mod Waiting

pub data TransitionOutcome : Type 0 where
  applied cancelled : TransitionOutcome
  rejected degraded : Text → TransitionOutcome

pub data Phase : Type 0 where
  queued executing : Phase
  finished : TransitionOutcome → Phase

-- The mutex and condition variable have no content of their own.
pub record State : Type 0 where
  pub phase : Phase
  pub cancel_flag : Bool

unfoldable pub new : State
new = record { phase = queued; cancel_flag = false }

abbrev pub finished_outcome : Phase → Option TransitionOutcome
finished_outcome (finished o) = some o
finished_outcome queued = none
finished_outcome executing = none

unfoldable pub outcome : State → Option TransitionOutcome
outcome s = finished_outcome s.phase

abbrev cancelled_phase : Phase → Phase
cancelled_phase queued = finished cancelled
cancelled_phase executing = executing
cancelled_phase (finished o) = finished o

-- `none` means that execution has begun and no outcome is known yet.
unfoldable pub cancel : State → State × Option TransitionOutcome
cancel s =
    let phase : Phase = cancelled_phase s.phase in
    (record { phase = phase; cancel_flag = true }, finished_outcome phase)

abbrev pub executed_twice : TransitionOutcome
executed_twice = degraded (text "control executed twice")

-- The first block of `execute`: `none` lets the operation run, `some` is the early return.
abbrev begin_phase : Phase → Phase × Option TransitionOutcome
begin_phase queued = (executing, none)
begin_phase executing = (executing, some executed_twice)
begin_phase (finished o) = (finished o, some o)

unfoldable pub begin : State → State × Option TransitionOutcome
begin s = let (phase, early) = begin_phase s.phase in (record s { phase = phase }, early)

-- The end of `execute`: the outcome of the operation is stored.
unfoldable pub complete : TransitionOutcome → State → State
complete o s = record s { phase = finished o }

abbrev pub abandoned : TransitionOutcome
abandoned = degraded (text "supervisor abandoned an executing control")

abbrev abandoned_phase : Phase → Phase
abandoned_phase executing = finished abandoned
abandoned_phase queued = queued
abandoned_phase (finished o) = finished o

-- `Drop for Completion`, which also runs when the operation panics.
unfoldable pub drop_completion : State → State
drop_completion s = record s { phase = abandoned_phase s.phase }

-- What the operation does: it returns an outcome or panics. It may read the cancellation flag, and
-- other threads act on the state while it runs.
pub record Operation : Type 0 where
  pub meanwhile : State → State
  pub result : Bool → Option TransitionOutcome

-- The code after the first block: the operation, the store of its outcome, and the drop. A panic
-- skips the store and returns nothing.
unfoldable pub run_operation : Operation → State → State × Option TransitionOutcome
unfolding complete drop_completion
run_operation op s =
    let s' : State = op.meanwhile s in
    elim (op.result s'.cancel_flag) [
      | none ↦ (drop_completion s', none)
      | some o ↦ (drop_completion (complete o s'), some o)
    ]

-- `execute`, whole.
unfoldable pub execute : Operation → State → State × Option TransitionOutcome
unfolding begin run_operation
execute op s =
    let (s', early) = begin s in elim early [ some o ↦ (s', some o) | none ↦ run_operation op s' ]

abbrev rejecting : Text → Operation
rejecting message = record { meanwhile = λ s. s; result = λ _. some (rejected message) }

unfoldable pub reject : Text → State → State
unfolding execute
reject message s = (execute (rejecting message) s).0

-- The verdict of `wait` once an outcome is known.
unfoldable pub verdict : TransitionOutcome → Result Text (Unit {0})
verdict applied = ok tt
verdict cancelled = err (text "control cancelled before commit")
verdict (rejected message) = err message
verdict (degraded message) = err message

abbrev pub still_pending : Text
still_pending = text "control cancellation remains pending; no stable state was confirmed"

-- One round of the loop of `wait`: what other threads do before the round, what they do between the poll of
-- the outcome and the cancellation (which takes the lock again), and the two readings of the clock, in
-- milliseconds.
pub record Round : Type 0 where
  pub meanwhile : State → State
  pub between : State → State
  pub now : ℕ
  pub later : ℕ

-- The tests of one round after the outcome was found open: past the deadline the request is
-- cancelled, and past the hard deadline the wait is given up.
unfoldable pub wait_tests : ℕ → ℕ → Round → State → State × Option (Result Text (Unit {0}))
unfolding cancel
wait_tests deadline hard_deadline r s =
    let s' : State = if leb deadline r.now then (cancel s).0 else s in
    (s', if leb hard_deadline r.later then some (err still_pending) else none)

-- One round, on the outcome that it polls.
unfoldable pub poll :
    ℕ → ℕ → Round → State → Option TransitionOutcome → State × Option (Result Text (Unit {0}))
poll deadline hard_deadline r s none = wait_tests deadline hard_deadline r (r.between s)
poll deadline hard_deadline r s (some o) = (s, some (verdict o))

-- `wait(timeout)` over the rounds that the scheduler gives it; `none` means that these rounds end
-- before the wait does.
unfoldable pub wait_loop : ℕ → ℕ → List Round → State → State × Option (Result Text (Unit {0}))
unfolding poll outcome verdict wait_tests
wait_loop deadline hard_deadline [] s = (s, none)
wait_loop deadline hard_deadline (r ∷ rs) s =
    let seen = r.meanwhile s in
    let (s', done) = poll deadline hard_deadline r seen (outcome seen) in
    elim done [ some v ↦ (s', some v) | none ↦ wait_loop deadline hard_deadline rs s' ]

unfoldable pub wait : ℕ → ℕ → List Round → State → State × Option (Result Text (Unit {0}))
unfolding wait_loop
wait start timeout rounds s =
    let deadline = start + timeout in wait_loop deadline (deadline + 5000) rounds s
