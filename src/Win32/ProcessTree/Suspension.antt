-- ===== src/Win32/ProcessTree/Suspension.antt =====
-- What the suspension calls of crates/servicemanager-win32/src/process_tree.rs do to the suspension
-- counts, given what Windows documents of the kernel calls.
use ngsm.Prelude.{
  ℕ, ◌+◌, ◌≡◌, refl, inl, inr, Bool, true, false, arith, ◌==◌, if◌then◌else◌, Bool-cases,
}
use ngsm.Text.{Text, text}
use ngsm.Result.{Result, ok, err}
use ngsm.Win32.ProcessTree.{
  Kernel, WaitStatus, wait_timeout, wait_object_0, wait_failed, running_answer, is_running,
  after_refusal, try_suspension, change_suspension, with_entry, suspend, resume,
}

abbrev pub indicator : ℕ → ℕ → ℕ
indicator p id = if p == id then 1 else 0

-- A view of the world: which processes are alive, and the suspension count of each.
pub record View (W : Type 0) : Type 0 where
  pub alive : W → ℕ → Bool
  pub count : W → ℕ → ℕ

module _ {W : Type 0} (v : View W) where
  -- From `w` to `w'` no process comes to life, and the counts of those that live on move by the
  -- given amounts: `down` is taken off and `up` is added.
  abbrev pub Moves : (ℕ → ℕ) → (ℕ → ℕ) → W → W → Type 0
  Moves down up w w' =
      (id : ℕ)
      → v.alive w' id ≡ true
      → (v.alive w id ≡ true) × (v.count w' id + down id ≡ v.count w id + up id)

  abbrev pub Quiet : W → W → Type 0
  Quiet = Moves (λ _. 0) (λ _. 0)

  -- What a suspending (or resuming) call may answer: `ok true` after it moved the count of its
  -- process by one, `ok false` only for a process that has exited, and an error with nothing done.
  abbrev pub Outcomes : (ℕ → ℕ) → (ℕ → ℕ) → ℕ → W → Result Text Bool → W → Type 0
  Outcomes down up p w (ok true) w' = Moves down up w w'
  Outcomes down up p w (ok false) w' = Quiet w w' × (v.alive w' p ≡ false)
  Outcomes down up p w (err e) w' = Quiet w w'

  abbrev pub Observes : ℕ → W → Result Text Bool → W → Type 0
  Observes p w (ok true) w' = Quiet w w'
  Observes p w (ok false) w' = Quiet w w' × (v.alive w' p ≡ false)
  Observes p w (err e) w' = Quiet w w'

  pub Quiet-trans : (w₁ w₂ w₃ : W) → Quiet w₁ w₂ → Quiet w₂ w₃ → Quiet w₁ w₃
  Quiet-trans w₁ w₂ w₃ f g id h = let b = g id h in let a = f id b.0 in (a.0, omega arith)

  pub Moves-after :
      (down up : ℕ → ℕ) (w₁ w₂ w₃ : W) → Quiet w₁ w₂ → Moves down up w₂ w₃ → Moves down up w₁ w₃
  Moves-after down up w₁ w₂ w₃ f g id h = let b = g id h in let a = f id b.0 in (a.0, omega arith)

-- What Windows documents: a signalled process handle means that the process has exited; waiting
-- changes nothing; NtSuspendProcess and NtResumeProcess move the suspension count of the process
-- by one when they succeed, and change nothing when they fail.
pub record KernelLaws (k : Kernel) (v : View k.World) : Type 0 where
  pub wait_quiet : (p : ℕ) (w : k.World) → Quiet v w (k.wait_for_single_object p w).1
  pub wait_signalled :
      (p : ℕ) (w : k.World)
      → (k.wait_for_single_object p w).0 ≡ wait_object_0
      → v.alive (k.wait_for_single_object p w).1 p ≡ false
  pub suspend_done :
      (f : ℕ → k.World → ℕ × k.World) (p : ℕ) (w : k.World)
      → k.nt_suspend_process ≡ ok f
      → ((f p w).0 == 0) ≡ true
      → Moves v (λ _. 0) (indicator p) w (f p w).1
  pub suspend_refused :
      (f : ℕ → k.World → ℕ × k.World) (p : ℕ) (w : k.World)
      → k.nt_suspend_process ≡ ok f
      → ((f p w).0 == 0) ≡ false
      → Quiet v w (f p w).1
  pub resume_done :
      (f : ℕ → k.World → ℕ × k.World) (p : ℕ) (w : k.World)
      → k.nt_resume_process ≡ ok f
      → ((f p w).0 == 0) ≡ true
      → Moves v (indicator p) (λ _. 0) w (f p w).1
  pub resume_refused :
      (f : ℕ → k.World → ℕ × k.World) (p : ℕ) (w : k.World)
      → k.nt_resume_process ≡ ok f
      → ((f p w).0 == 0) ≡ false
      → Quiet v w (f p w).1

module _ (k : Kernel) (v : View k.World) (laws : KernelLaws k v) where
  Observes-status :
      (p : ℕ) (w w' : k.World) (s : WaitStatus)
      → Quiet v w w'
      → (s ≡ wait_object_0 → v.alive w' p ≡ false)
      → Observes v p w (running_answer k p s) w'
  unfolding running_answer
  Observes-status p w w' wait_timeout q dead = q
  Observes-status p w w' wait_object_0 q dead = (q, dead refl)
  Observes-status p w w' (wait_failed e) q dead = q

  pub is_running-Observes :
      (p : ℕ) (w : k.World) → Observes v p w (is_running k p w).0 (is_running k p w).1
  unfolding is_running
  is_running-Observes p w =
      Observes-status p w (k.wait_for_single_object p w).1 (k.wait_for_single_object p w).0
        (laws.wait_quiet p w) (laws.wait_signalled p w)

  -- A call that refuses: the second look at the process decides.
  refusal_outcome :
      (down up : ℕ → ℕ) (label : Text) (p status : ℕ) (w w' w'' : k.World) (r : Result Text Bool)
      → Quiet v w w'
      → Observes v p w' r w''
      → Outcomes v down up p w (after_refusal k label p status r) w''
  unfolding after_refusal
  refusal_outcome down up label p status w w' w'' (ok true) q o = Quiet-trans v w w' w'' q o
  refusal_outcome down up label p status w w' w'' (ok false) q o =
      (Quiet-trans v w w' w'' q o.0, o.1)
  refusal_outcome down up label p status w w' w'' (err e) q o = Quiet-trans v w w' w'' q o

  module _ (down up : ℕ → ℕ) (f : ℕ → k.World → ℕ × k.World) (label : Text) (p : ℕ)
      (done : (w : k.World) → ((f p w).0 == 0) ≡ true → Moves v down up w (f p w).1)
      (refused : (w : k.World) → ((f p w).0 == 0) ≡ false → Quiet v w (f p w).1) where
    try_outcome :
        (w w' : k.World) (r : Result Text Bool)
        → Observes v p w r w'
        → Outcomes v down up p w
            (try_suspension k f label p r w').0
            (try_suspension k f label p r w').1
    unfolding try_suspension
    try_outcome w w' (ok false) o = o
    try_outcome w w' (err e) o = o
    try_outcome w w' (ok true) o = elim (Bool-cases ((f p w').0 == 0)) [
      | inl z ↦ rw z (Moves-after v down up w w' (f p w').1 o (done w' z))
      | inr nz ↦ rw nz (
          refusal_outcome down up label p (f p w').0 w (f p w').1 (is_running k p (f p w').1).1
            (is_running k p (f p w').1).0 (Quiet-trans v w w' (f p w').1 o (refused w' nz))
            (is_running-Observes p (f p w').1))
    ]

    change_outcome :
        (w : k.World)
        → Outcomes v down up p w
            (change_suspension k f label p w).0
            (change_suspension k f label p w).1
    unfolding change_suspension
    change_outcome w =
        try_outcome w (is_running k p w).1 (is_running k p w).0 (is_running-Observes p w)

  Quiet-refl : (w : k.World) → Quiet v w w
  Quiet-refl w id h = (h, refl)

  suspend_entry :
      (e : Result Text (ℕ → k.World → ℕ × k.World)) (p : ℕ) (w : k.World)
      → k.nt_suspend_process ≡ e
      → Outcomes v
          (λ _. 0)
          (indicator p)
          p
          w
          (with_entry k e (text "suspend") p w).0
          (with_entry k e (text "suspend") p w).1
  unfolding with_entry
  suspend_entry (err x) p w q = Quiet-refl w
  suspend_entry (ok f) p w q =
      change_outcome (λ _. 0) (indicator p) f (text "suspend") p (λ u. laws.suspend_done f p u q)
        (λ u. laws.suspend_refused f p u q) w

  resume_entry :
      (e : Result Text (ℕ → k.World → ℕ × k.World)) (p : ℕ) (w : k.World)
      → k.nt_resume_process ≡ e
      → Outcomes v
          (indicator p)
          (λ _. 0)
          p
          w
          (with_entry k e (text "resume") p w).0
          (with_entry k e (text "resume") p w).1
  unfolding with_entry
  resume_entry (err x) p w q = Quiet-refl w
  resume_entry (ok f) p w q =
      change_outcome (indicator p) (λ _. 0) f (text "resume") p (λ u. laws.resume_done f p u q)
        (λ u. laws.resume_refused f p u q) w

  -- `suspend` of a pinned process: `true` comes after exactly one increment of its count, `false`
  -- only if the process has exited, and an error leaves every count as it was.
  pub suspend-Outcomes :
      (p : ℕ) (w : k.World)
      → Outcomes v (λ _. 0) (indicator p) p w (suspend k p w).0 (suspend k p w).1
  unfolding suspend
  suspend-Outcomes p w = suspend_entry k.nt_suspend_process p w refl

  -- `resume` likewise, with one increment removed.
  pub resume-Outcomes :
      (p : ℕ) (w : k.World)
      → Outcomes v (indicator p) (λ _. 0) p w (resume k p w).0 (resume k p w).1
  unfolding resume
  resume-Outcomes p w = resume_entry k.nt_resume_process p w refl
