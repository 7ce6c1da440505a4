-- ===== src/Supervisor/ProcessControl/Balance.antt =====
-- What a whole change of crates/servicemanager-supervisor/src/process_control.rs does to suspension
-- counts.
use ngsm.Prelude.{
  ℕ, zero, suc, ◌+◌, ◌≡◌, refl, ◌≢◌, inl, inr, Bool, true, false, not, List, [], ◌∷◌, arith, ◌==◌,
  if◌then◌else◌, Bool-cases,
}
use ngsm.Text.{Text}
use ngsm.Result.{Result, ok, err}
use ngsm.Action.{pure, Keeps, Keeps-pure, Keeps-fail, Keeps-bind, OnOk}
use ngsm.Win32.ProcessTree.Suspension.{View, Quiet}
use ngsm.Supervisor.Transition.{TransitionOutcome, degraded}
use ngsm.Supervisor.ProcessControl.{
  Environment, PauseState, Session, has_id, failure, suspend_all, resume_all, rollback,
  rollback_until, max_member_passes,
}
use ngsm.Supervisor.ProcessControl.Counts.{
  Laws, occurrences, Raised, Lowered, suspend_all-Raised, resume_all-Lowered, suspend_new-Raised,
  check_deadline-Raised, members-Raised,
}
use ngsm.Supervisor.ProcessControl.Pending.{
  occurrences-reverse, Pending, Pending-Quiet, rollback_done, rollback_until_done, resume_all_done,
}
use ngsm.Supervisor.ProcessControl.Change.{
  rescan, restore_pass, restore_passes, restore_paused_members, pause_result, restored_result,
  restore, resume_result, switch, change, same_bool,
}

abbrev pub NotDegraded : TransitionOutcome → Type 0
NotDegraded o = (m : Text) → o ≢ degraded m

-- A failure whose rollback failed is degraded.
failure_degraded : (e b : Text) (c : Bool) → NotDegraded (failure e (err b) c) → ⊥
unfolding failure
failure_degraded e b c h = h _ refl

same_bool-false : (a b : Bool) → same_bool a b ≡ false → a ≡ not b
same_bool-false true true h = cc
same_bool-false true false h = refl
same_bool-false false true h = refl
same_bool-false false false h = cc

module _ (env : Environment) (v : View env.World) (laws : Laws env v) (base : ℕ → ℕ) where
  abbrev IsRaised : Session env.World → Type 0
  IsRaised = Raised env v laws base

  rescan-Raised : (d : ℕ) (ps : List ℕ) (added : Bool) → Keeps IsRaised (rescan env d ps added)
  unfolding rescan
  rescan-Raised d [] added = Keeps-pure added
  rescan-Raised d (p ∷ ps) added = Keeps-bind _ _ (check_deadline-Raised env v laws base d _) λ _.
      Keeps-bind _ _
        (record {
          at = λ s h. (suspend_new-Raised env v laws base p (has_id s.changed p) added).at s h;
        })
        λ added'. rescan-Raised d ps added'

  restore_pass-Raised : (d : ℕ) → Keeps IsRaised (restore_pass env d)
  unfolding restore_pass
  restore_pass-Raised d = Keeps-bind _ _ (check_deadline-Raised env v laws base d _) λ _.
      Keeps-bind _ _ (members-Raised env v laws base) λ snapshot.
        Keeps-bind _ _ (check_deadline-Raised env v laws base d _)
          λ _. rescan-Raised d snapshot false

  restore_passes-Raised : (n stable d : ℕ) → Keeps IsRaised (restore_passes env n stable d)
  unfolding restore_passes
  restore_passes-Raised zero stable d = Keeps-fail _
  restore_passes-Raised (suc n) stable d =
      let branch : (b : Bool) (k : ℕ)
          → Keeps IsRaised (elim b [ true ↦ pure tt | false ↦ restore_passes env n k d ]) =
        λ b k.
          (elim b
            as (λ c.
              Keeps IsRaised (elim c [ true ↦ pure tt | false ↦ restore_passes env n k d ])) [
                | true ↦ Keeps-pure tt
                | false ↦ restore_passes-Raised n k d
              ]) in
      Keeps-bind _ _ (restore_pass-Raised d)
        λ added. branch ((if added then 0 else stable + 1) == 2) _

  -- The suspension counts are those of `base`, and once more for each owned suspension; and a state
  -- that is not paused owns nothing.
  pub record IsBalanced (st : PauseState) (w : env.World) : Type 0 where
    pub counts : (id : ℕ) → v.alive w id ≡ true → v.count w id ≡ base id + occurrences id st.owned
    pub idle : st.paused ≡ false → st.owned ≡ []

  IsBalanced-Quiet :
      (st : PauseState) (w w' : env.World) → Quiet v w w' → IsBalanced st w → IsBalanced st w'
  IsBalanced-Quiet st w w' q h = record {
    counts = λ id a. let m = q id a in let e = h.counts id m.0 in omega arith;
    idle = h.idle;
  }

  paused_result :
      (st : PauseState) (r : Result Text (Unit {0})) (s : Session env.World)
      → st.owned ≡ []
      → IsRaised s
      → NotDegraded (pause_result env st r s).outcome
      → IsBalanced (pause_result env st r s).state (pause_result env st r s).world
  unfolding pause_result
  paused_result st (ok _) s none_owned h nd = record {
    counts = λ id a. h.at_id id a;
    idle = λ e. cc;
  }
  paused_result st (err e) s none_owned h nd =
      after (rollback env s.changed false s.world).0 refl nd
    where
      w₁ : env.World
      w₁ = (rollback env s.changed false s.world).1

      after :
          (back : Result Text (Unit {0}))
          → (rollback env s.changed false s.world).0 ≡ back
          → NotDegraded (failure e (rollback env s.changed false s.world).0 (env.is_cancelled w₁).0)
          → IsBalanced st (env.is_cancelled w₁).1
      after (err b) q n = absurd (failure_degraded e b (env.is_cancelled w₁).0 (rw q at n))
      after (ok u) q n =
          let level =
            rollback_done env v laws base s.changed false s.world q (λ id a. h.at_id id a) in
          IsBalanced-Quiet st w₁ (env.is_cancelled w₁).1 (laws.cancelled_quiet w₁) (record {
            counts = λ id a. let k = level id a in rw none_owned (omega arith);
            idle = λ _. none_owned;
          })

  restored-IsBalanced :
      (p : Bool) (e : Text) (back : Result Text (Unit {0})) (s : Session env.World)
      → p ≡ true
      → IsRaised s
      → IsBalanced (restored_result env p e back s).state (restored_result env p e back s).world
  unfolding restored_result
  restored-IsBalanced p e back s paused h =
      IsBalanced-Quiet (record { paused = p; owned = s.changed }) s.world
        (env.is_cancelled s.world).1 (laws.cancelled_quiet s.world)
        (record { counts = λ id a. h.at_id id a; idle = λ q. cc })

  restore-IsBalanced :
      (st : PauseState) (e : Text) (d : ℕ) (back : Result Text (Unit {0})) (w : env.World)
      → st.paused ≡ true
      → (back ≡ ok tt → IsRaised (record { world = w; changed = st.owned }))
      → NotDegraded (restore env st e d back w).outcome
      → IsBalanced (restore env st e d back w).state (restore env st e d back w).world
  unfolding restore
  restore-IsBalanced st e d (err b) w paused h nd =
      absurd (failure_degraded e b (env.is_cancelled w).0 (unfold restored_result in nd))
  restore-IsBalanced st e d (ok u) w paused h nd =
      let start : Session env.World = record { world = w; changed = st.owned } in
      restored-IsBalanced st.paused e (restore_paused_members env d start).0
        (restore_paused_members env d start).1 paused
        (unfold restore_paused_members in
          (restore_passes-Raised max_member_passes 0 d).at start (h refl))

  resumed_result :
      (st : PauseState) (r : Result Text (Unit {0})) (s : Session env.World)
      → st.paused ≡ true
      → Lowered env v laws (λ id. base id + occurrences id st.owned) s
      → OnOk (λ _ (t : Session env.World). Pending env v laws base false [] t.world) r s
      → NotDegraded (resume_result env st r s).outcome
      → IsBalanced (resume_result env st r s).state (resume_result env st r s).world
  unfolding resume_result
  resumed_result st (ok _) s paused low done nd = record { counts = done; idle = λ _. refl }
  resumed_result st (err e) s paused low done nd =
      let total = λ (id : ℕ). base id + occurrences id st.owned in
      let w₁ = (env.now s.world).1 in
      let d = (env.now s.world).0 + 3000 in
      let back = rollback_until env s.changed true d w₁ in
      restore-IsBalanced st e d back.0 back.1 paused
        (λ q.
          let level = rollback_until_done env v laws total s.changed true d w₁ q (
            Pending-Quiet env v laws total true s.changed s.world w₁ (laws.now_quiet s.world)
              (λ id a. low.at_id id a)) in
          record { at_id = λ id a. let k = level id a in omega arith })
        nd

  switch-IsBalanced :
      (to : Bool) (st : PauseState) (w : env.World)
      → st.paused ≡ not to
      → IsBalanced st w
      → NotDegraded (switch env to st w).outcome
      → IsBalanced (switch env to st w).state (switch env to st w).world
  unfolding switch
  switch-IsBalanced true st w was h nd =
      let w' = (env.now w).1 in
      let start : Session env.World = record { world = w'; changed = [] } in
      let d = (env.now w).0 + 3000 in
      let q = (IsBalanced-Quiet st w w' (laws.now_quiet w) h).counts in
      let nothing = h.idle was in
      paused_result st (suspend_all env d start).0 (suspend_all env d start).1 nothing
        ((suspend_all-Raised env v laws base d).at start
          (record { at_id = λ id a. let k = rw nothing at (q id a) in omega arith }))
        nd
  switch-IsBalanced false st w was h nd =
      let total = λ (id : ℕ). base id + occurrences id st.owned in
      let w' = (env.now w).1 in
      let start : Session env.World = record { world = w'; changed = [] } in
      let d = (env.now w).0 + 3000 in
      let q = (IsBalanced-Quiet st w w' (laws.now_quiet w) h).counts in
      resumed_result st (resume_all env d st.owned start).0 (resume_all env d st.owned start).1 was
        ((resume_all-Lowered env v laws total d st.owned).at start
          (record { at_id = λ id a. let k = q id a in omega arith }))
        ((resume_all_done env v laws base d st.owned).at start
          (λ id a. let k = q id a in omega (arith, occurrences-reverse id st.owned)))
        nd

  -- A pause or a continue that ends applied, cancelled or rejected (every outcome but degraded)
  -- leaves the suspension count of each living process where it belongs: as it was before the
  -- pause, and one higher for each suspension that the pause state owns. So a pause that fails
  -- leaves nothing suspended, and a continue that succeeds takes back exactly what the pause did.
  pub change-IsBalanced :
      (to : Bool) (st : PauseState) (w : env.World)
      → IsBalanced st w
      → NotDegraded (change env to st w).outcome
      → IsBalanced (change env to st w).state (change env to st w).world
  unfolding change
  change-IsBalanced to st w h nd =
      let w' = (env.is_cancelled w).1 in
      let h' = IsBalanced-Quiet st w w' (laws.cancelled_quiet w) h in
      elim (Bool-cases (env.is_cancelled w).0) [
        | inl gone ↦ rw gone h'
        | inr on ↦ elim (Bool-cases (same_bool st.paused to)) [
          | inl same ↦ rw (on, same) h'
          | inr other ↦
              rw (on, other)
                (switch-IsBalanced to st w' (same_bool-false st.paused to other) h'
                  (rw (on, other) at nd))
        ]
      ]
