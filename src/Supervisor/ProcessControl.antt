-- ===== src/Supervisor/ProcessControl.antt =====
-- crates/servicemanager-supervisor/src/process_control.rs: suspending and resuming the members of
-- the service's process tree, with rollback.
pub mod Counts
pub mod Pending
pub mod Change
pub mod Balance
use ngsm.Prelude.{
  ℕ, zero, suc, ◌+◌, Bool, true, false, List, [], ◌∷◌, ◌++◌, reverse, leb, ◌==◌, if◌then◌else◌, any,
}
use ngsm.Text.{Text, text}
use ngsm.Result.{Result, ok, err}
use ngsm.Action.{Act, pure, fail, ◌>>=◌, ◌>>◌}
use ngsm.Supervisor.Transition.{TransitionOutcome, cancelled, rejected, degraded}

-- `Member` of the source, the listing of the job's members, the cancellation test and the clock, in
-- milliseconds. A member is named by the process identifier, which its pinned handle keeps unique.
pub record Environment : Type 1 where
  pub World : Type 0
  pub members : Act World Text (List ℕ)
  pub is_running : ℕ → Act World Text Bool
  pub suspend : ℕ → Act World Text Bool
  pub resume : ℕ → Act World Text Bool
  pub is_cancelled : World → Bool × World
  pub now : World → ℕ × World

-- `owned` holds the members that the pause suspended, in the order in which it did.
pub record PauseState : Type 0 where
  pub paused : Bool
  pub owned : List ℕ

-- What an attempt works on: the world, and the members that it changed so far.
pub record Session (W : Type 0) : Type 0 where
  pub world : W
  pub changed : List ℕ

abbrev pub transition_budget : ℕ
transition_budget = 3000

abbrev pub max_member_passes : ℕ
max_member_passes = 16

abbrev pub control_cancelled : Text
control_cancelled = text "control cancelled"

unfoldable pub has_id : List ℕ → ℕ → Bool
has_id ps p = any (λ q. q == p) ps

-- `failure`
unfoldable pub failure : Text → Result Text (Unit {0}) → Bool → TransitionOutcome
failure error (err rollback) c = degraded (error ++ (text "; rollback failed: " ++ rollback))
failure error (ok _) true = cancelled
failure error (ok _) false = rejected error

-- `errors.join("; ")`
unfoldable pub join_errors : List Text → Text
join_errors [] = []
join_errors (e ∷ []) = e
join_errors (e ∷ f ∷ es) = e ++ (text "; " ++ join_errors (f ∷ es))

module _ (env : Environment) where
  open env use {World, members, is_running, suspend, resume, is_cancelled, now}

  abbrev pub Step : Type 0 → Type 0
  Step A = Act (Session World) Text A

  -- An action on the world alone.
  unfoldable pub lift : {A : Type 0} → Act World Text A → Step A
  lift m s = let (r, w) = m s.world in (r, record s { world = w })

  unfoldable pub check_cancelled : Step (Unit {0})
  check_cancelled s =
      let (c, w) = is_cancelled s.world in
      (if c then err control_cancelled else ok tt, record s { world = w })

  unfoldable pub check_deadline : ℕ → Text → Step (Unit {0})
  check_deadline deadline message s =
      let (t, w) = now s.world in
      (if leb deadline t then err message else ok tt, record s { world = w })

  -- `changed.push(process)` after a call that did something
  unfoldable pub note : ℕ → Bool → Bool → Step Bool
  note p true added s = (ok true, record s { changed = s.changed ++ p ∷ [] })
  note p false added s = (ok added, s)

  -- A member that was seen before is passed over.
  unfoldable pub suspend_new : ℕ → Bool → Bool → Step Bool
  unfolding note lift ◌>>=◌
  suspend_new p true added = pure added
  suspend_new p false added = do did ← lift (suspend p); note p did added

  unfoldable pub visit : ℕ → ℕ → Bool → Step Bool
  unfolding suspend_new has_id
  visit deadline p added s = suspend_new p (has_id s.changed p) added s

  unfoldable pub scan : ℕ → List ℕ → Bool → Step Bool
  unfolding check_cancelled check_deadline visit ◌>>=◌
  scan deadline [] added = pure added
  scan deadline (p ∷ ps) added = do
    check_cancelled
    check_deadline deadline (text "process membership exceeded the transition deadline")
    added' ← visit deadline p added
    scan deadline ps added'

  unfoldable pub pass : ℕ → Step Bool
  unfolding scan lift ◌>>=◌
  pass deadline = do
    check_cancelled
    check_deadline deadline (text "process membership did not stabilize before the deadline")
    snapshot ← lift members
    check_deadline deadline (text "process membership exceeded the transition deadline")
    scan deadline snapshot false

  unfoldable pub passes : ℕ → ℕ → Step (Unit {0})
  unfolding pass ◌>>=◌
  passes zero deadline = fail (text "process membership exceeded the bounded stable-member passes")
  passes (suc n) deadline = do
    added ← pass deadline
    elim added [ true ↦ passes n deadline | false ↦ pure tt ]

  -- The closure `attempt` of `change`.
  unfoldable pub suspend_all : ℕ → Step (Unit {0})
  unfolding passes ◌>>=◌
  suspend_all deadline = do passes max_member_passes deadline; check_cancelled

  -- `if process.resume()? { resumed.push(process) }`
  unfoldable pub resume_one : ℕ → Step Bool
  unfolding note lift ◌>>=◌
  resume_one p = do did ← lift (resume p); note p did false

  -- The closure `attempt` of `resume_owned`, over the owned members in reverse.
  unfoldable pub resume_each : ℕ → List ℕ → Step (Unit {0})
  unfolding check_cancelled check_deadline resume_one ◌>>=◌
  resume_each deadline [] = pure tt
  resume_each deadline (p ∷ ps) = do
    check_cancelled
    check_deadline deadline (text "resume exceeded the transition deadline")
    resume_one p
    resume_each deadline ps

  unfoldable pub resume_all : ℕ → List ℕ → Step (Unit {0})
  unfolding resume_each ◌>>=◌
  resume_all deadline owned = do
    resume_each deadline (reverse owned)
    check_cancelled
    check_deadline deadline (text "resume exceeded the transition deadline")

  -- One round of `rollback_until`, after the test of the deadline: a member that has exited is
  -- passed over, and an error is kept while the loop goes on.
  unfoldable pub undo : Bool → ℕ → Act World Text Bool
  undo true = suspend
  undo false = resume

  unfoldable pub undo_unless_exited : Bool → ℕ → Result Text Bool → World → List Text × World
  undo_unless_exited to_suspend p (ok false) w = ([], w)
  undo_unless_exited to_suspend p (ok true) w =
      let (r, w') = undo to_suspend p w in (elim r [ ok _ ↦ [] | err e ↦ e ∷ [] ], w')
  undo_unless_exited to_suspend p (err _) w =
      let (r, w') = undo to_suspend p w in (elim r [ ok _ ↦ [] | err e ↦ e ∷ [] ], w')

  -- The loop of `rollback_until`, over the members in reverse, with the errors met.
  unfoldable pub rollback_each : ℕ → Bool → List ℕ → World → List Text × World
  unfolding undo undo_unless_exited
  rollback_each deadline to_suspend [] w = ([], w)
  rollback_each deadline to_suspend (p ∷ ps) w =
      let (t, w₁) = now w in
      let (r, w₂) = is_running p w₁ in
      let (es, w₃) = undo_unless_exited to_suspend p r w₂ in
      let (rest, w₄) = rollback_each deadline to_suspend ps w₃ in
      let on : List Text × World = (es ++ rest, w₄) in
      if leb deadline t then (text "suspension rollback exceeded its deadline" ∷ [], w₁) else on

  unfoldable pub rollback_result : List Text → Result Text (Unit {0})
  unfolding join_errors
  rollback_result [] = ok tt
  rollback_result (e ∷ es) = err (join_errors (e ∷ es))

  unfoldable pub rollback_until : List ℕ → Bool → ℕ → Act World Text (Unit {0})
  unfolding rollback_each rollback_result
  rollback_until ps to_suspend deadline w =
      let (es, w') = rollback_each deadline to_suspend (reverse ps) w in (rollback_result es, w')

  unfoldable pub rollback : List ℕ → Bool → Act World Text (Unit {0})
  unfolding rollback_until
  rollback ps to_suspend w =
      let (t, w') = now w in rollback_until ps to_suspend (t + transition_budget) w'
