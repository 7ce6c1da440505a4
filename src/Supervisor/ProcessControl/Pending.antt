-- ===== src/Supervisor/ProcessControl/Pending.antt =====
-- The loops of crates/servicemanager-supervisor/src/process_control.rs that walk a list of members
-- to the end: after a walk with no error each member that is alive was moved once for each time
-- that it stands in the list.
use ngsm.Prelude.{
  ℕ, ◌+◌, ◌≡◌, refl, subst, inl, inr, Bool, true, false, List, [], ◌∷◌, ◌++◌, reverse, arith, leb,
  ◌==◌, if◌then◌else◌, ==_iff, Bool-cases,
}
use mathlib.Core.List.{reverse-append}
use ngsm.Text.{Text}
use ngsm.Result.{Result, ok, err}
use ngsm.Action.{Ensures, Ensures-bind, OnOk}
use ngsm.Win32.ProcessTree.Suspension.{View, Moves, Quiet, Outcomes, Observes, indicator}
use ngsm.Supervisor.ProcessControl.{
  control_cancelled, Environment, Session, lift, check_cancelled, check_deadline, note, resume_one,
  resume_each, resume_all, undo, undo_unless_exited, rollback_each, rollback_result, rollback_until,
  rollback,
}
use ngsm.Supervisor.ProcessControl.Counts.{Laws, occurrences, occurrences-append}

pub occurrences-reverse : (id : ℕ) (ps : List ℕ) → occurrences id (reverse ps) ≡ occurrences id ps
occurrences-reverse id [] = refl
occurrences-reverse id (p ∷ ps) =
    rw (reverse-append (p ∷ []) ps)
      (omega (arith, occurrences-append id (reverse ps) (p ∷ []), occurrences-reverse id ps))

append-eq-nil {ℓ} : {A : Type ℓ} (xs ys : List A) → xs ++ ys ≡ [] → (xs ≡ []) × (ys ≡ [])
append-eq-nil [] ys h = (refl, h)
append-eq-nil (x ∷ xs) ys h = cc

module _ (env : Environment) (v : View env.World) (laws : Laws env v) (target : ℕ → ℕ) where
  -- The members of the list are still to be resumed (`false`) or suspended (`true`); then the
  -- counts are the target.
  abbrev pub Pending : Bool → List ℕ → env.World → Type 0
  Pending false ps w = (id : ℕ) → v.alive w id ≡ true → v.count w id ≡ target id + occurrences id ps
  Pending true ps w = (id : ℕ) → v.alive w id ≡ true → v.count w id + occurrences id ps ≡ target id

  abbrev down : Bool → ℕ → ℕ → ℕ
  down false p = indicator p
  down true p = λ _. 0

  abbrev up : Bool → ℕ → ℕ → ℕ
  up false p = λ _. 0
  up true p = indicator p

  pub Pending-Quiet :
      (mode : Bool) (ps : List ℕ) (w w' : env.World)
      → Quiet v w w'
      → Pending mode ps w
      → Pending mode ps w'
  Pending-Quiet false ps w w' q h = λ id a. let m = q id a in let e = h id m.0 in omega arith
  Pending-Quiet true ps w w' q h = λ id a. let m = q id a in let e = h id m.0 in omega arith

  Pending-moved :
      (mode : Bool) (p : ℕ) (ps : List ℕ) (w w' : env.World)
      → Moves v (down mode p) (up mode p) w w'
      → Pending mode (p ∷ ps) w
      → Pending mode ps w'
  Pending-moved false p ps w w' q h = λ id a. let m = q id a in let e = h id m.0 in omega arith
  Pending-moved true p ps w w' q h = λ id a. let m = q id a in let e = h id m.0 in omega arith

  -- A member that has exited needs no move.
  not_it :
      (p id : ℕ) (w : env.World) → v.alive w p ≡ false → v.alive w id ≡ true → indicator p id ≡ 0
  not_it p id w dead a = elim (Bool-cases (p == id)) [
    | inr ne ↦ rw ne refl
    | inl eq ↦
        let e : p ≡ id = (==_iff p id).0 eq in
        let clash : v.alive w id ≡ false = subst (λ t. v.alive w t ≡ false) e dead in cc
  ]

  Pending-exited :
      (mode : Bool) (p : ℕ) (ps : List ℕ) (w w' : env.World)
      → Quiet v w w'
      → v.alive w' p ≡ false
      → Pending mode (p ∷ ps) w
      → Pending mode ps w'
  Pending-exited false p ps w w' q dead h =
      λ id a. let m = q id a in let e = h id m.0 in let z = not_it p id w' dead a in omega arith
  Pending-exited true p ps w w' q dead h =
      λ id a. let m = q id a in let e = h id m.0 in let z = not_it p id w' dead a in omega arith

  undo-Outcomes :
      (mode : Bool) (p : ℕ) (w : env.World)
      → Outcomes v (down mode p) (up mode p) p w (undo env mode p w).0 (undo env mode p w).1
  unfolding undo
  undo-Outcomes true p w = laws.suspend_outcomes p w
  undo-Outcomes false p w = laws.resume_outcomes p w

  abbrev errors_of : Result Text Bool → List Text
  errors_of (ok b) = []
  errors_of (err e) = e ∷ []

  undone :
      (mode : Bool) (p : ℕ) (ps : List ℕ) (w w' : env.World) (r : Result Text Bool)
      → errors_of r ≡ []
      → Outcomes v (down mode p) (up mode p) p w r w'
      → Pending mode (p ∷ ps) w
      → Pending mode ps w'
  undone mode p ps w w' (ok true) e o h = Pending-moved mode p ps w w' o h
  undone mode p ps w w' (ok false) e o h = Pending-exited mode p ps w w' o.0 o.1 h
  undone mode p ps w w' (err x) e o h = cc

  undo_step :
      (mode : Bool) (p : ℕ) (ps : List ℕ) (w w' : env.World) (r : Result Text Bool)
      → Observes v p w r w'
      → (undo_unless_exited env mode p r w').0 ≡ []
      → Pending mode (p ∷ ps) w
      → Pending mode ps (undo_unless_exited env mode p r w').1
  unfolding undo_unless_exited
  undo_step mode p ps w w' (ok false) o e h = Pending-exited mode p ps w w' o.0 o.1 h
  undo_step mode p ps w w' (ok true) o e h =
      undone mode p ps w' (undo env mode p w').1 (undo env mode p w').0 (ground arith)
        (undo-Outcomes mode p w') (Pending-Quiet mode (p ∷ ps) w w' o h)
  undo_step mode p ps w w' (err x) o e h =
      undone mode p ps w' (undo env mode p w').1 (undo env mode p w').0 (ground arith)
        (undo-Outcomes mode p w') (Pending-Quiet mode (p ∷ ps) w w' o h)

  pub rollback_each_done :
      (d : ℕ) (mode : Bool) (ps : List ℕ) (w : env.World)
      → (rollback_each env d mode ps w).0 ≡ []
      → Pending mode ps w
      → Pending mode [] (rollback_each env d mode ps w).1
  unfolding rollback_each
  rollback_each_done d mode [] w e h = h
  rollback_each_done d mode (p ∷ ps) w e h = elim (Bool-cases (leb d (env.now w).0)) [
    | inl late ↦ absurd (nonempty (rw late at e))
    | inr early ↦ rw early (
        let w₁ = (env.now w).1 in
        let r = (env.is_running p w₁).0 in
        let w₂ = (env.is_running p w₁).1 in
        let w₃ = (undo_unless_exited env mode p r w₂).1 in
        let split =
          append-eq-nil (undo_unless_exited env mode p r w₂).0 (rollback_each env d mode ps w₃).0
            (rw early at e) in
        rollback_each_done d mode ps w₃ split.1 (
          undo_step mode p ps w₁ w₂ r (laws.running_observes p w₁) split.0
            (Pending-Quiet mode (p ∷ ps) w w₁ (laws.now_quiet w) h)))
  ]
    where
      nonempty : {x : Text} → ◌≡◌ {A = List Text} (x ∷ []) [] → ⊥
      nonempty h = cc

  result_ok : (es : List Text) → rollback_result env es ≡ ok tt → es ≡ []
  unfolding rollback_result
  result_ok [] h = refl
  result_ok (e ∷ es) h = cc

  pub rollback_until_done :
      (ps : List ℕ) (mode : Bool) (d : ℕ) (w : env.World)
      → (rollback_until env ps mode d w).0 ≡ ok tt
      → Pending mode ps w
      → Pending mode [] (rollback_until env ps mode d w).1
  unfolding rollback_until
  rollback_until_done ps mode d w e h =
      rollback_each_done d mode (reverse ps) w
        (result_ok (rollback_each env d mode (reverse ps) w).0 e) (turned mode ps h)
    where
      turned : (m : Bool) (qs : List ℕ) → Pending m qs w → Pending m (reverse qs) w
      turned false qs g = λ id a. let k = g id a in omega (arith, occurrences-reverse id qs)
      turned true qs g = λ id a. let k = g id a in omega (arith, occurrences-reverse id qs)

  pub rollback_done :
      (ps : List ℕ) (mode : Bool) (w : env.World)
      → (rollback env ps mode w).0 ≡ ok tt
      → Pending mode ps w
      → Pending mode [] (rollback env ps mode w).1
  unfolding rollback
  rollback_done ps mode w e h =
      rollback_until_done ps mode ((env.now w).0 + 3000) (env.now w).1 e
        (Pending-Quiet mode ps w (env.now w).1 (laws.now_quiet w) h)

  -- The same of the walk of a resume, which stops at the first error.
  abbrev pub ToResume : List ℕ → Session env.World → Type 0
  ToResume ps s = Pending false ps s.world

  cancelled_pending : (ps : List ℕ) → Ensures (ToResume ps) (check_cancelled env) (λ _. ToResume ps)
  unfolding check_cancelled
  cancelled_pending ps = record { at = λ s h. on_ok s (env.is_cancelled s.world).0 h }
    where
      on_ok :
          (s : Session env.World) (c : Bool)
          → ToResume ps s
          → OnOk {E = Text} {A = Unit {0}}
              (λ _. ToResume ps)
              (if c then err control_cancelled else ok tt)
              (record s { world = (env.is_cancelled s.world).1 })
      on_ok s true h = tt
      on_ok s false h =
          Pending-Quiet false ps s.world (env.is_cancelled s.world).1 (laws.cancelled_quiet s.world)
            h

  deadline_pending :
      (d : ℕ) (m : Text) (ps : List ℕ)
      → Ensures (ToResume ps) (check_deadline env d m) (λ _. ToResume ps)
  unfolding check_deadline
  deadline_pending d m ps = record { at = λ s h. on_ok s (leb d (env.now s.world).0) h }
    where
      on_ok :
          (s : Session env.World) (c : Bool)
          → ToResume ps s
          → OnOk {E = Text} {A = Unit {0}}
              (λ _. ToResume ps)
              (if c then err m else ok tt)
              (record s { world = (env.now s.world).1 })
      on_ok s true h = tt
      on_ok s false h =
          Pending-Quiet false ps s.world (env.now s.world).1 (laws.now_quiet s.world) h

  resumed_answer :
      (p : ℕ) (ps : List ℕ) (s : Session env.World) (w : env.World) (r : Result Text Bool)
      → Outcomes v (indicator p) (λ _. 0) p s.world r w
      → ToResume (p ∷ ps) s
      → OnOk (λ _. ToResume ps) r (record s { world = w })
  resumed_answer p ps s w (ok true) o h = Pending-moved false p ps s.world w o h
  resumed_answer p ps s w (ok false) o h = Pending-exited false p ps s.world w o.0 o.1 h
  resumed_answer p ps s w (err e) o h = tt

  resume_pending :
      (p : ℕ) (ps : List ℕ)
      → Ensures (ToResume (p ∷ ps)) (lift env (env.resume p)) (λ _. ToResume ps)
  unfolding lift
  resume_pending p ps = record {
    at = λ s h.
        resumed_answer p ps s (env.resume p s.world).1 (env.resume p s.world).0
          (laws.resume_outcomes p s.world) h;
  }

  note_pending :
      (p : ℕ) (did : Bool) (ps : List ℕ)
      → Ensures (ToResume ps) (note env p did false) (λ _. ToResume ps)
  unfolding note
  note_pending p true ps = record { at = λ s h. h }
  note_pending p false ps = record { at = λ s h. h }

  resume_one_pending :
      (p : ℕ) (ps : List ℕ) → Ensures (ToResume (p ∷ ps)) (resume_one env p) (λ _. ToResume ps)
  unfolding resume_one
  resume_one_pending p ps =
      Ensures-bind (ToResume (p ∷ ps)) (λ _. ToResume ps) (λ _. ToResume ps) _ _
        (resume_pending p ps) λ did. note_pending p did ps

  resume_each_done :
      (d : ℕ) (ps : List ℕ) → Ensures (ToResume ps) (resume_each env d ps) (λ _. ToResume [])
  unfolding resume_each
  resume_each_done d [] = record { at = λ s h. h }
  resume_each_done d (p ∷ ps) =
      Ensures-bind (ToResume (p ∷ ps)) (λ _. ToResume (p ∷ ps)) (λ _. ToResume []) _ _
        (cancelled_pending (p ∷ ps))
        λ _.
          Ensures-bind (ToResume (p ∷ ps)) (λ _. ToResume (p ∷ ps)) (λ _. ToResume []) _ _
            (deadline_pending d _ (p ∷ ps))
            λ _.
              Ensures-bind (ToResume (p ∷ ps)) (λ _. ToResume ps) (λ _. ToResume []) _ _
                (resume_one_pending p ps) λ _. resume_each_done d ps

  pub resume_all_done :
      (d : ℕ) (owned : List ℕ)
      → Ensures (ToResume (reverse owned)) (resume_all env d owned) (λ _. ToResume [])
  unfolding resume_all
  resume_all_done d owned =
      Ensures-bind (ToResume (reverse owned)) (λ _. ToResume []) (λ _. ToResume []) _ _
        (resume_each_done d (reverse owned))
        λ _.
          Ensures-bind (ToResume []) (λ _. ToResume []) (λ _. ToResume []) _ _
            (cancelled_pending []) λ _. deadline_pending d _ []
