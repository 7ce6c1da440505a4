-- ===== src/Supervisor/Transition/Threads.antt =====
-- Any number of threads that share one transition: each step is one critical section of
-- crates/servicemanager-supervisor/src/transition.rs.
use ngsm.Prelude.{ℕ, suc, ◌-◌, ◌<◌, ◌≡◌, none, some}
use ngsm.Supervisor.Transition.{
  TransitionOutcome, State, new, cancel, begin, complete, drop_completion,
}

-- The shared state, the number of operations that are running, and of those that were ever started.
pub record World : Type 0 where
  pub state : State
  pub active : ℕ
  pub runs : ℕ

abbrev pub init : World
unfolding new
init = record { state = new; active = 0; runs = 0 }

pub data Step (w : World) : World → Type 0 where
  cancelling : Step w (record w { state = (cancel w.state).0 })
  starting :
      (begin w.state).1 ≡ none
      → Step w (record { state = (begin w.state).0; active = suc w.active; runs = suc w.runs })
  refusing :
      {o : TransitionOutcome}
      → (begin w.state).1 ≡ some o
      → Step w (record w { state = (begin w.state).0 })
  finishing :
      (o : TransitionOutcome)
      → 0 < w.active
      → Step w (record w { state = drop_completion (complete o w.state); active = w.active - 1 })
  panicking :
      0 < w.active → Step w (record w { state = drop_completion w.state; active = w.active - 1 })

pub data Reach (w : World) : World → Type 0 where
  here : Reach w w
  next : {u v : World} → Reach w u → Step u v → Reach w v
