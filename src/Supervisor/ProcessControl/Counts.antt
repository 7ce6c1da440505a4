-- ===== src/Supervisor/ProcessControl/Counts.antt =====
-- How the loops of crates/servicemanager-supervisor/src/process_control.rs move suspension counts.
use ngsm.Prelude.{ℕ, zero, suc, ◌+◌, ◌≡◌, Bool, true, false, List, [], reverse, ◌∷◌, ◌++◌, arith}
use ngsm.Text.{Text}
use ngsm.Result.{Result, ok, err}
use ngsm.Action.{Keeps, Keeps-pure, Keeps-fail, Keeps-bind, continue, ◌>>=◌}
use ngsm.Win32.ProcessTree.Suspension.{View, Quiet, Outcomes, Observes, indicator}
use ngsm.Supervisor.ProcessControl.{
  Environment, Session, has_id, lift, check_cancelled, check_deadline, note, suspend_new, visit,
  scan, pass, passes, suspend_all, max_member_passes, resume_one, resume_each, resume_all,
}

-- How often a process stands in a list.
abbrev pub occurrences : ℕ → List ℕ → ℕ
occurrences id [] = 0
occurrences id (p ∷ ps) = indicator p id + occurrences id ps

pub occurrences-append :
    (id : ℕ) (ps qs : List ℕ) → occurrences id (ps ++ qs) ≡ occurrences id ps + occurrences id qs
occurrences-append id [] qs = omega arith
occurrences-append id (p ∷ ps) qs = omega (arith, occurrences-append id ps qs)

-- What is assumed of the environment of a control: listing members, looking at a process, the
-- cancellation test and the clock change no suspension count, and the two calls that do are those
-- of a pinned process.
pub record Laws (env : Environment) (v : View env.World) : Type 0 where
  pub members_quiet : (w : env.World) → Quiet v w (env.members w).1
  pub cancelled_quiet : (w : env.World) → Quiet v w (env.is_cancelled w).1
  pub now_quiet : (w : env.World) → Quiet v w (env.now w).1
  pub running_observes :
      (p : ℕ) (w : env.World) → Observes v p w (env.is_running p w).0 (env.is_running p w).1
  pub suspend_outcomes :
      (p : ℕ) (w : env.World)
      → Outcomes v (λ _. 0) (indicator p) p w (env.suspend p w).0 (env.suspend p w).1
  pub resume_outcomes :
      (p : ℕ) (w : env.World)
      → Outcomes v (indicator p) (λ _. 0) p w (env.resume p w).0 (env.resume p w).1

module _ (env : Environment) (v : View env.World) (laws : Laws env v) (base : ℕ → ℕ) where
  -- Every process that is alive is suspended as often as at the start, and once more for each time
  -- that it was noted.
  pub record Raised (s : Session env.World) : Type 0 where
    pub at_id :
        (id : ℕ)
        → v.alive s.world id ≡ true
        → v.count s.world id ≡ base id + occurrences id s.changed

  -- Likewise, once less for each time that it was noted.
  pub record Lowered (s : Session env.World) : Type 0 where
    pub at_id :
        (id : ℕ)
        → v.alive s.world id ≡ true
        → v.count s.world id + occurrences id s.changed ≡ base id

  Raised-Quiet :
      (s : Session env.World) (w : env.World)
      → Quiet v s.world w
      → Raised s
      → Raised (record s { world = w })
  Raised-Quiet s w q h = record {
    at_id = λ id a. let m = q id a in let e = h.at_id id m.0 in omega arith;
  }

  Lowered-Quiet :
      (s : Session env.World) (w : env.World)
      → Quiet v s.world w
      → Lowered s
      → Lowered (record s { world = w })
  Lowered-Quiet s w q h = record {
    at_id = λ id a. let m = q id a in let e = h.at_id id m.0 in omega arith;
  }

  pub check_cancelled-Raised : Keeps Raised (check_cancelled env)
  unfolding check_cancelled
  check_cancelled-Raised = record {
    at = λ s h. Raised-Quiet s (env.is_cancelled s.world).1 (laws.cancelled_quiet s.world) h;
  }

  pub check_deadline-Raised : (d : ℕ) (m : Text) → Keeps Raised (check_deadline env d m)
  unfolding check_deadline
  check_deadline-Raised d m = record {
    at = λ s h. Raised-Quiet s (env.now s.world).1 (laws.now_quiet s.world) h;
  }

  pub members-Raised : Keeps Raised (lift env env.members)
  unfolding lift
  members-Raised = record {
    at = λ s h. Raised-Quiet s (env.members s.world).1 (laws.members_quiet s.world) h;
  }

  check_cancelled-Lowered : Keeps Lowered (check_cancelled env)
  unfolding check_cancelled
  check_cancelled-Lowered = record {
    at = λ s h. Lowered-Quiet s (env.is_cancelled s.world).1 (laws.cancelled_quiet s.world) h;
  }

  check_deadline-Lowered : (d : ℕ) (m : Text) → Keeps Lowered (check_deadline env d m)
  unfolding check_deadline
  check_deadline-Lowered d m = record {
    at = λ s h. Lowered-Quiet s (env.now s.world).1 (laws.now_quiet s.world) h;
  }

  -- The call and the note that follows it, on each answer of the call.
  suspended_noted :
      (p : ℕ) (added : Bool) (s : Session env.World) (r : Result Text Bool) (w : env.World)
      → Outcomes v (λ _. 0) (indicator p) p s.world r w
      → Raised s
      → Raised (continue (λ did. note env p did added) r (record s { world = w })).1
  unfolding note continue
  suspended_noted p added s (ok true) w o h = record {
    at_id = λ id a.
        let m = o id a in
        let e = h.at_id id m.0 in omega (arith, occurrences-append id s.changed (p ∷ []));
  }
  suspended_noted p added s (ok false) w o h = Raised-Quiet s w o.0 h
  suspended_noted p added s (err x) w o h = Raised-Quiet s w o h

  resumed_noted :
      (p : ℕ) (s : Session env.World) (r : Result Text Bool) (w : env.World)
      → Outcomes v (indicator p) (λ _. 0) p s.world r w
      → Lowered s
      → Lowered (continue (λ did. note env p did false) r (record s { world = w })).1
  unfolding note continue
  resumed_noted p s (ok true) w o h = record {
    at_id = λ id a.
        let m = o id a in
        let e = h.at_id id m.0 in omega (arith, occurrences-append id s.changed (p ∷ []));
  }
  resumed_noted p s (ok false) w o h = Lowered-Quiet s w o.0 h
  resumed_noted p s (err x) w o h = Lowered-Quiet s w o h

  pub suspend_new-Raised :
      (p : ℕ) (known added : Bool) → Keeps Raised (suspend_new env p known added)
  unfolding suspend_new lift ◌>>=◌
  suspend_new-Raised p true added = Keeps-pure added
  suspend_new-Raised p false added = record {
    at = λ s h.
        suspended_noted p added s (env.suspend p s.world).0 (env.suspend p s.world).1
          (laws.suspend_outcomes p s.world) h;
  }

  visit-Raised : (d p : ℕ) (added : Bool) → Keeps Raised (visit env d p added)
  unfolding visit
  visit-Raised d p added = record {
    at = λ s h. (suspend_new-Raised p (has_id s.changed p) added).at s h;
  }

  scan-Raised : (d : ℕ) (ps : List ℕ) (added : Bool) → Keeps Raised (scan env d ps added)
  unfolding scan
  scan-Raised d [] added = Keeps-pure added
  scan-Raised d (p ∷ ps) added = Keeps-bind _ _ check_cancelled-Raised λ _.
      Keeps-bind _ _ (check_deadline-Raised d _)
        λ _. Keeps-bind _ _ (visit-Raised d p added) λ added'. scan-Raised d ps added'

  pass-Raised : (d : ℕ) → Keeps Raised (pass env d)
  unfolding pass
  pass-Raised d = Keeps-bind _ _ check_cancelled-Raised λ _.
      Keeps-bind _ _ (check_deadline-Raised d _) λ _.
        Keeps-bind _ _ members-Raised
          λ snapshot. Keeps-bind _ _ (check_deadline-Raised d _) λ _. scan-Raised d snapshot false

  passes-Raised : (n d : ℕ) → Keeps Raised (passes env n d)
  unfolding passes
  passes-Raised zero d = Keeps-fail _
  passes-Raised (suc n) d =
      Keeps-bind _ _ (pass-Raised d) (elim [ true ↦ passes-Raised n d | false ↦ Keeps-pure tt ])

  -- The attempt to pause, however it ends.
  pub suspend_all-Raised : (d : ℕ) → Keeps Raised (suspend_all env d)
  unfolding suspend_all
  suspend_all-Raised d =
      Keeps-bind _ _ (passes-Raised max_member_passes d) λ _. check_cancelled-Raised

  resume_one-Lowered : (p : ℕ) → Keeps Lowered (resume_one env p)
  unfolding resume_one
  resume_one-Lowered p = record {
    at = λ s h.
        resumed_noted p s (env.resume p s.world).0 (env.resume p s.world).1
          (laws.resume_outcomes p s.world) h;
  }

  resume_each-Lowered : (d : ℕ) (ps : List ℕ) → Keeps Lowered (resume_each env d ps)
  unfolding resume_each
  resume_each-Lowered d [] = Keeps-pure tt
  resume_each-Lowered d (p ∷ ps) = Keeps-bind _ _ check_cancelled-Lowered λ _.
      Keeps-bind _ _ (check_deadline-Lowered d _)
        λ _. Keeps-bind _ _ (resume_one-Lowered p) λ _. resume_each-Lowered d ps

  -- The attempt to resume, however it ends.
  pub resume_all-Lowered : (d : ℕ) (owned : List ℕ) → Keeps Lowered (resume_all env d owned)
  unfolding resume_all
  resume_all-Lowered d owned =
      Keeps-bind _ _ (resume_each-Lowered d (reverse owned))
        λ _. Keeps-bind _ _ check_cancelled-Lowered λ _. check_deadline-Lowered d _
