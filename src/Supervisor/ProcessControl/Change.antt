-- ===== src/Supervisor/ProcessControl/Change.antt =====
-- `PauseState::change` of crates/servicemanager-supervisor/src/process_control.rs, with the recovery
-- of a resume that fails.
use ngsm.Prelude.{ℕ, zero, suc, ◌+◌, Bool, true, false, not, List, [], ◌∷◌, ◌==◌, if◌then◌else◌}
use ngsm.Text.{Text, text}
use ngsm.Result.{Result, ok, err}
use ngsm.Action.{pure, fail, ◌>>=◌, ◌>>◌}
use ngsm.Supervisor.Transition.{TransitionOutcome, applied, cancelled}
use ngsm.Supervisor.ProcessControl.{
  Environment, PauseState, Session, Step, failure, transition_budget, max_member_passes, lift,
  check_deadline, suspend_new, has_id, suspend_all, resume_all, rollback, rollback_until,
}

-- What `change` leaves: the outcome, the pause state and the world.
pub record Changed (W : Type 0) : Type 0 where
  pub outcome : TransitionOutcome
  pub state : PauseState
  pub world : W

abbrev pub same_bool : Bool → Bool → Bool
same_bool true b = b
same_bool false b = not b

module _ (env : Environment) where
  open env use {World, members, is_cancelled, now}

  abbrev pub recovery_late : Text
  recovery_late = text "paused membership recovery exceeded its deadline"

  -- The inner loop of `restore_paused_members`; the session's list is `self.owned`.
  unfoldable pub rescan : ℕ → List ℕ → Bool → Step env Bool
  unfolding check_deadline suspend_new has_id ◌>>=◌
  rescan deadline [] added = pure added
  rescan deadline (p ∷ ps) added = do
    check_deadline env deadline recovery_late
    added' ← λ s. suspend_new env p (has_id s.changed p) added s
    rescan deadline ps added'

  unfoldable pub restore_pass : ℕ → Step env Bool
  unfolding rescan check_deadline lift ◌>>=◌
  restore_pass deadline = do
    check_deadline env deadline recovery_late
    snapshot ← lift env members
    check_deadline env deadline recovery_late
    rescan deadline snapshot false

  -- `n` passes are left, and `stable` passes in a row added nothing.
  unfoldable pub restore_passes : ℕ → ℕ → ℕ → Step env (Unit {0})
  unfolding restore_pass ◌>>=◌
  restore_passes zero stable deadline =
      fail (text "paused membership did not stabilize within the bounded recovery passes")
  restore_passes (suc n) stable deadline = do
    added ← restore_pass deadline
    let stable' = if added then 0 else stable + 1
    elim (stable' == 2) [ true ↦ pure tt | false ↦ restore_passes n stable' deadline ]

  unfoldable pub restore_paused_members : ℕ → Step env (Unit {0})
  unfolding restore_passes
  restore_paused_members deadline = restore_passes max_member_passes 0 deadline

  -- The failed attempt of a pause is rolled back, and the pause state stays as it was.
  unfoldable pub pause_result : PauseState → Result Text (Unit {0}) → Session World → Changed World
  unfolding rollback failure
  pause_result st (ok _) s = record {
    outcome = applied;
    state = record { paused = true; owned = s.changed };
    world = s.world;
  }
  pause_result st (err e) s =
      let (back, w₁) = rollback env s.changed false s.world in
      let (c, w₂) = is_cancelled w₁ in record { outcome = failure e back c; state = st; world = w₂ }

  -- The end of the recovery of a resume: what `restore_paused_members` owns now stays owned.
  unfoldable pub restored_result :
      Bool → Text → Result Text (Unit {0}) → Session World → Changed World
  unfolding failure
  restored_result paused e back s =
      let (c, w) = is_cancelled s.world in
      record {
        outcome = failure e back c;
        state = record { paused = paused; owned = s.changed };
        world = w;
      }

  -- `rollback_until(..).and_then(restore_paused_members)`
  unfoldable pub restore : PauseState → Text → ℕ → Result Text (Unit {0}) → World → Changed World
  unfolding restored_result restore_paused_members
  restore st e deadline (err b) w =
      restored_result st.paused e (err b) (record { world = w; changed = st.owned })
  restore st e deadline (ok _) w =
      let (r, s) = restore_paused_members deadline (record { world = w; changed = st.owned }) in
      restored_result st.paused e r s

  unfoldable pub resume_result : PauseState → Result Text (Unit {0}) → Session World → Changed World
  unfolding restore rollback_until
  resume_result st (ok _) s = record {
    outcome = applied;
    state = record { paused = false; owned = [] };
    world = s.world;
  }
  resume_result st (err e) s =
      let (t, w₁) = now s.world in
      let deadline = t + transition_budget in
      let (back, w₂) = rollback_until env s.changed true deadline w₁ in
      restore st e deadline back w₂

  -- The work of `change` for a state that has to change.
  unfoldable pub switch : Bool → PauseState → World → Changed World
  unfolding pause_result resume_result suspend_all resume_all
  switch true st w =
      let (t, w') = now w in
      let (r, s) = suspend_all env (t + transition_budget) (record { world = w'; changed = [] }) in
      pause_result st r s
  switch false st w =
      let (t, w') = now w in
      let (r, s) =
        resume_all env (t + transition_budget) st.owned (record { world = w'; changed = [] }) in
      resume_result st r s

  unfoldable pub change : Bool → PauseState → World → Changed World
  unfolding switch
  change pause st w =
      let (c, w') = is_cancelled w in
      if c
      then record { outcome = cancelled; state = st; world = w' }
      else if same_bool st.paused pause
      then record { outcome = applied; state = st; world = w' }
      else switch pause st w'

-- Intent survives a child's exit; only the suspensions of its processes are forgotten.
unfoldable pub clear_generation : PauseState → PauseState
clear_generation st = record st { owned = [] }
