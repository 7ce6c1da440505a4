-- ===== src/Examples/Suspensions.antt =====
-- The suspension calls and the pause control on a machine on which every process lives: its world is
-- the suspension counts.
use ngsm.Prelude.{
  ℕ, ◌+◌, ◌-◌, ◌≡◌, refl, subst, inl, inr, true, false, [], ◌∷◌, arith, ltb, ◌==◌, Bool-cases,
  if◌then◌else◌, ==_iff,
}
use ngsm.Text.{Text}
use ngsm.Result.{Result, ok}
use ngsm.Win32.ProcessTree.{
  Kernel, wait_timeout, suspend, resume, is_running, with_entry, change_suspension, try_suspension,
  running_answer,
}
use ngsm.Win32.ProcessTree.Suspension.{
  View, KernelLaws, Moves, Quiet, Outcomes, indicator, suspend-Outcomes, resume-Outcomes,
  is_running-Observes,
}
use ngsm.Supervisor.Transition.{applied}
use ngsm.Supervisor.ProcessControl.{
  Environment, PauseState, suspend_all, passes, pass, scan, visit, suspend_new, lift, note, has_id,
  check_cancelled, check_deadline,
}
use ngsm.Supervisor.ProcessControl.Change.{change, switch, pause_result}
use ngsm.Supervisor.ProcessControl.Counts.{Laws}
use ngsm.Supervisor.ProcessControl.Balance.{IsBalanced, change-IsBalanced}

program : Unit {0}
unfolding suspend with_entry change_suspension try_suspension is_running running_answer change
    switch suspend_all passes pass scan visit suspend_new lift note has_id check_cancelled
    check_deadline pause_result
program = tt

abbrev Counts : Type 0
Counts = ℕ → ℕ

abbrev raise : ℕ → Counts → Counts
raise p w = λ id. w id + indicator p id

abbrev lower : ℕ → Counts → Counts
lower p w = λ id. w id - indicator p id

abbrev all_alive : View Counts
all_alive = record { alive = λ w id. true; count = λ w id. w id }

-- NtResumeProcess fails with a status when the process is not suspended.
abbrev resumed : ℕ → Counts → ℕ × Counts
resumed p w = if ltb 0 (w p) then (0, lower p w) else (3221225595, w)

abbrev kernel : Kernel
kernel = record {
  World = Counts;
  wait_for_single_object = λ p w. (wait_timeout, w);
  nt_suspend_process = ok (λ p w. (0, raise p w));
  nt_resume_process = ok resumed;
}

lowered :
    (p : ℕ) (w : Counts) → ltb 0 (w p) ≡ true → (id : ℕ) → lower p w id + indicator p id ≡ w id
lowered p w h id = elim (Bool-cases (p == id)) [
  | inl same ↦
      let e : p ≡ id = (==_iff p id).0 same in
      let positive : ltb 0 (w id) ≡ true = subst (λ x. ltb 0 (w x) ≡ true) e h in
      rw same (ground arith)
  | inr other ↦ rw other (omega arith)
]

ok_injective : {A : Type 0} {a b : A} → (let r : Result Text A = ok a in r) ≡ ok b → a ≡ b
ok_injective h = cc h

resumed-Moves :
    (p : ℕ) (w : Counts)
    → ((resumed p w).0 == 0) ≡ true
    → Moves all_alive (indicator p) (λ _. 0) w (resumed p w).1
resumed-Moves p w = elim (Bool-cases (ltb 0 (w p))) [
  | inl some_left ↦ rw some_left (λ z id h. (refl, omega (arith, lowered p w some_left id)))
  | inr none_left ↦ rw none_left (λ z. cc z)
]

resumed-Quiet :
    (p : ℕ) (w : Counts) → ((resumed p w).0 == 0) ≡ false → Quiet all_alive w (resumed p w).1
resumed-Quiet p w = elim (Bool-cases (ltb 0 (w p))) [
  | inl some_left ↦ rw some_left (λ z. cc z)
  | inr none_left ↦ rw none_left (λ z id h. (refl, refl))
]

kernel_laws : KernelLaws kernel all_alive
kernel_laws = record {
  wait_quiet = λ p w id h. (refl, refl);
  wait_signalled = λ p w e. cc e;
  suspend_done = λ f p w q z.
      subst (λ g. Moves all_alive (λ _. 0) (indicator p) w (g p w).1) (ok_injective q)
        (λ id h. (refl, omega arith));
  suspend_refused = λ f p w q.
      subst (λ g. ((g p w).0 == 0) ≡ false → Quiet all_alive w (g p w).1) (ok_injective q)
        (λ z. cc z);
  resume_done = λ f p w q.
      subst (λ g. ((g p w).0 == 0) ≡ true → Moves all_alive (indicator p) (λ _. 0) w (g p w).1)
        (ok_injective q) (resumed-Moves p w);
  resume_refused = λ f p w q.
      subst (λ g. ((g p w).0 == 0) ≡ false → Quiet all_alive w (g p w).1) (ok_injective q)
        (resumed-Quiet p w);
}

suspend-Outcomes_example :
    Outcomes all_alive
      (λ _. 0)
      (indicator 7)
      7
      (λ _. 0)
      (suspend kernel 7 (λ _. 0)).0
      (suspend kernel 7 (λ _. 0)).1
suspend-Outcomes_example = suspend-Outcomes kernel all_alive kernel_laws 7 (λ _. 0)

resume-Outcomes_example :
    Outcomes all_alive
      (indicator 7)
      (λ _. 0)
      7
      (λ _. 1)
      (resume kernel 7 (λ _. 1)).0
      (resume kernel 7 (λ _. 1)).1
resume-Outcomes_example = resume-Outcomes kernel all_alive kernel_laws 7 (λ _. 1)

-- Three processes; nobody cancels and the clock stands still.
abbrev machine : Environment
machine = record {
  World = Counts;
  members = λ w. (ok (4 ∷ 7 ∷ 9 ∷ []), w);
  is_running = is_running kernel;
  suspend = suspend kernel;
  resume = resume kernel;
  is_cancelled = λ w. (false, w);
  now = λ w. (0, w);
}

machine_laws : Laws machine all_alive
machine_laws = record {
  members_quiet = λ w id h. (refl, refl);
  cancelled_quiet = λ w id h. (refl, refl);
  now_quiet = λ w id h. (refl, refl);
  running_observes = is_running-Observes kernel all_alive kernel_laws;
  suspend_outcomes = suspend-Outcomes kernel all_alive kernel_laws;
  resume_outcomes = resume-Outcomes kernel all_alive kernel_laws;
}

abbrev running_state : PauseState
running_state = record { paused = false; owned = [] }

all_alive-IsBalanced : IsBalanced machine all_alive machine_laws (λ _. 0) running_state (λ _. 0)
all_alive-IsBalanced = record { counts = λ id a. refl; idle = λ e. refl }

pause_applied : (change machine true running_state (λ _. 0)).outcome ≡ applied
unfolding program
pause_applied = refl

change-IsBalanced_example :
    IsBalanced machine all_alive machine_laws
      (λ _. 0)
      (change machine true running_state (λ _. 0)).state
      (change machine true running_state (λ _. 0)).world
change-IsBalanced_example =
    change-IsBalanced machine all_alive machine_laws (λ _. 0) true running_state (λ _. 0)
      all_alive-IsBalanced (λ m e. cc (e, pause_applied))
