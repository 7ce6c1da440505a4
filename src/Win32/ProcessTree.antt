-- ===== src/Win32/ProcessTree.antt =====
-- crates/servicemanager-win32/src/process_tree.rs: the suspension of a pinned process. The kernel
-- calls are parameters; a process is named by its identifier, which the pinned handle keeps from
-- being reused.
use ngsm.Prelude.{ℕ, ◌+◌, Bool, true, false, ◌++◌, ◌==◌, if◌then◌else◌}
pub mod Suspension
use ngsm.Text.Decimal.{show, show_hex}
use ngsm.Text.{Text, text}
use ngsm.Result.{Result, ok, err}
use ngsm.Action.{Act}

-- The answers of WaitForSingleObject.
pub data WaitStatus : Type 0 where
  wait_timeout wait_object_0 : WaitStatus
  wait_failed : Text → WaitStatus

-- What the program calls: the wait with a timeout of 0, and the two entry points of ntdll.dll, which
-- may be missing. A status of 0 is success.
pub record Kernel : Type 1 where
  pub World : Type 0
  pub wait_for_single_object : ℕ → World → WaitStatus × World
  pub nt_suspend_process : Result Text (ℕ → World → ℕ × World)
  pub nt_resume_process : Result Text (ℕ → World → ℕ × World)

module _ (k : Kernel) where
  open k use {World, wait_for_single_object, nt_suspend_process, nt_resume_process}

  unfoldable pub running_answer : ℕ → WaitStatus → Result Text Bool
  running_answer pid wait_timeout = ok true
  running_answer pid wait_object_0 = ok false
  running_answer pid (wait_failed error) =
      err (text "query process " ++ (show pid ++ (text ": " ++ error)))

  unfoldable pub is_running : ℕ → Act World Text Bool
  unfolding running_answer
  is_running pid w =
      let (status, w') = wait_for_single_object pid w in (running_answer pid status, w')

  -- A status that is not 0: the process may have exited in between.
  unfoldable pub after_refusal : Text → ℕ → ℕ → Result Text Bool → Result Text Bool
  after_refusal label pid status (ok false) = ok false
  after_refusal label pid status (ok true) =
      err (label ++ (text " process " ++ (show pid ++ (text ": NTSTATUS " ++ show_hex status))))
  after_refusal label pid status (err e) = err e

  unfoldable pub try_suspension :
      (ℕ → World → ℕ × World) → Text → ℕ → Result Text Bool → World → Result Text Bool × World
  unfolding is_running after_refusal
  try_suspension operation label pid (err e) w = (err e, w)
  try_suspension operation label pid (ok false) w = (ok false, w)
  try_suspension operation label pid (ok true) w =
      let (status, w') = operation pid w in
      let (r, w'') = is_running pid w' in
      if status == 0 then (ok true, w') else (after_refusal label pid status r, w'')

  unfoldable pub change_suspension : (ℕ → World → ℕ × World) → Text → ℕ → Act World Text Bool
  unfolding is_running try_suspension
  change_suspension operation label pid w =
      let (r, w') = is_running pid w in try_suspension operation label pid r w'

  unfoldable pub with_entry : Result Text (ℕ → World → ℕ × World) → Text → ℕ → Act World Text Bool
  unfolding change_suspension
  with_entry (err e) label pid w = (err e, w)
  with_entry (ok operation) label pid w = change_suspension operation label pid w

  -- `ok false` if the pinned process has exited.
  unfoldable pub suspend : ℕ → Act World Text Bool
  unfolding with_entry
  suspend pid = with_entry nt_suspend_process (text "suspend") pid

  unfoldable pub resume : ℕ → Act World Text Bool
  unfolding with_entry
  resume pid = with_entry nt_resume_process (text "resume") pid
