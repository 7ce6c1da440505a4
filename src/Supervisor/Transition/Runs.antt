-- ===== src/Supervisor/Transition/Runs.antt =====
-- What every interleaving of crates/servicemanager-supervisor/src/transition.rs keeps.
use ngsm.Prelude.{ℕ, ◌≤◌, ◌≡◌, refl, ◌∙◌, Bool, true, some, arith}
use ngsm.Supervisor.Transition.{
  TransitionOutcome, Phase, queued, executing, finished, cancelled, new, cancel, begin, outcome,
  complete, drop_completion,
}
use ngsm.Supervisor.Transition.Threads.{
  World, init, Step, cancelling, starting, refusing, finishing, panicking, Reach, here, next,
}

-- The phase says how many operations run and ran.
abbrev pub Accounts : Phase → ℕ → ℕ → Type 0
Accounts queued active runs = (active ≡ 0) × (runs ≡ 0)
Accounts executing active runs = (active ≡ 1) × (runs ≡ 1)
Accounts (finished o) active runs = (active ≡ 0) × (runs ≤ 1)

abbrev pub IsConsistent : World → Type 0
IsConsistent w = Accounts w.state.phase w.active w.runs

step_phase :
    (p : Phase) (f : Bool) (a r : ℕ) {v : World}
    → Step (record { state = record { phase = p; cancel_flag = f }; active = a; runs = r }) v
    → Accounts p a r
    → IsConsistent v
unfolding cancel begin complete drop_completion
step_phase queued f a r cancelling h = omega arith
step_phase queued f a r (starting e) h = omega arith
step_phase queued f a r (refusing e) h = cc
step_phase queued f a r (finishing o p) h = omega arith
step_phase queued f a r (panicking p) h = omega arith
step_phase executing f a r cancelling h = omega arith
step_phase executing f a r (starting e) h = cc
step_phase executing f a r (refusing e) h = omega arith
step_phase executing f a r (finishing o p) h = omega arith
step_phase executing f a r (panicking p) h = omega arith
step_phase (finished x) f a r cancelling h = omega arith
step_phase (finished x) f a r (starting e) h = cc
step_phase (finished x) f a r (refusing e) h = omega arith
step_phase (finished x) f a r (finishing o p) h = omega arith
step_phase (finished x) f a r (panicking p) h = omega arith

pub Step-IsConsistent : {u v : World} → Step u v → IsConsistent u → IsConsistent v
Step-IsConsistent {u} st h = step_phase u.state.phase u.state.cancel_flag u.active u.runs st h

pub Reach-IsConsistent : {u v : World} → IsConsistent u → Reach u v → IsConsistent v
Reach-IsConsistent h here = h
Reach-IsConsistent h (next r st) = Step-IsConsistent st (Reach-IsConsistent h r)

runs_bound : (p : Phase) (a r : ℕ) → Accounts p a r → (a ≤ 1) × (r ≤ 1)
runs_bound queued a r h = omega arith
runs_bound executing a r h = omega arith
runs_bound (finished o) a r h = omega arith

-- Whatever the threads do with a new transition, at most one operation is ever started, and none
-- runs beside another.
pub runs_once : {w : World} → Reach init w → (w.active ≤ 1) × (w.runs ≤ 1)
runs_once {w} r = runs_bound w.state.phase w.active w.runs (Reach-IsConsistent start r)
  where
    start : IsConsistent init
    start = unfold new in (refl, refl)

settled_step :
    (o : TransitionOutcome) (p : Phase) (f : Bool) (a r : ℕ) {v : World}
    → p ≡ finished o
    → a ≡ 0
    → Step (record { state = record { phase = p; cancel_flag = f }; active = a; runs = r }) v
    → (v.state.phase ≡ finished o) × (v.active ≡ 0) × (v.runs ≡ r)
unfolding cancel begin
settled_step o queued f a r e z st = cc
settled_step o executing f a r e z st = cc
settled_step o (finished x) f a r e z cancelling = (e, z, refl)
settled_step o (finished x) f a r e z (starting q) = cc
settled_step o (finished x) f a r e z (refusing q) = (e, z, refl)
settled_step o (finished x) f a r e z (finishing y p) = absurd (omega arith)
settled_step o (finished x) f a r e z (panicking p) = absurd (omega arith)

settled-Reach :
    (o : TransitionOutcome) (n : ℕ) {u v : World}
    → u.state.phase ≡ finished o
    → u.active ≡ 0
    → u.runs ≡ n
    → Reach u v
    → (v.state.phase ≡ finished o) × (v.active ≡ 0) × (v.runs ≡ n)
settled-Reach o n e z q here = (e, z, q)
settled-Reach o n e z q (next {u = m} r st) =
    let ih = settled-Reach o n e z q r in
    let one = settled_step o m.state.phase m.state.cancel_flag m.active m.runs ih.0 ih.1 st in
    (one.0, one.1, one.2 ∙ ih.2)

-- An outcome is definitive: once a reachable transition has one, it keeps that outcome, and no
-- operation is started any more.
pub outcome_definitive :
    {u v : World} (o : TransitionOutcome)
    → Reach init u
    → outcome u.state ≡ some o
    → Reach u v
    → (outcome v.state ≡ some o) × (v.runs ≡ u.runs)
unfolding outcome
outcome_definitive {u} {v} o r e later =
    let fin : u.state.phase ≡ finished o = phase_of u.state.phase e in
    let idle : u.active ≡ 0 =
      idle_of u.state.phase fin (Reach-IsConsistent {u = init} (unfold new in (refl, refl)) r) in
    let all = settled-Reach o u.runs fin idle refl later in (rw (all.0) refl, all.2)
  where
    phase_of :
        (p : Phase) → outcome (record { phase = p; cancel_flag = true }) ≡ some o → p ≡ finished o
    phase_of queued h = cc
    phase_of executing h = cc
    phase_of (finished x) h = cc

    idle_of : (p : Phase) → p ≡ finished o → Accounts p u.active u.runs → u.active ≡ 0
    idle_of queued h a = cc
    idle_of executing h a = cc
    idle_of (finished x) h a = a.0

-- A transition that is cancelled while it is still queued never runs: the cancelling call answers
-- `cancelled`, and after it no step of any thread starts the operation or changes the outcome.
pub cancel-queued_never_runs :
    {u v : World}
    → Reach init u
    → u.state.phase ≡ queued
    → Reach (record u { state = (cancel u.state).0 }) v
    → ((cancel u.state).1 ≡ some cancelled) × (outcome v.state ≡ some cancelled) × (v.runs ≡ 0)
unfolding cancel outcome
cancel-queued_never_runs {u} {v} r q later =
    let zero_runs =
      counts u.state.phase q (Reach-IsConsistent {u = init} (unfold new in (refl, refl)) r) in
    let all = settled-Reach cancelled 0 (rw q refl) zero_runs.0 zero_runs.1 later in
    (rw q refl, rw (all.0) refl, all.2)
  where
    counts : (p : Phase) → p ≡ queued → Accounts p u.active u.runs → (u.active ≡ 0) × (u.runs ≡ 0)
    counts queued h a = a
    counts executing h a = cc
    counts (finished x) h a = cc
