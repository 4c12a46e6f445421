-- ===== src/Engine.antt =====
-- The message handlers of internal/server/workflow/engine.go. A handler is a step on the state of the
-- server; its message has been unmarshalled, which the argument of type `Outcome WorkflowState` is.
pub mod Jobs
pub mod Owners
pub mod Starts
pub mod Steps
pub mod Launch
pub mod Launches
pub mod Activities
pub mod Tasks
pub mod Faults
use shar.Prelude.{Bool, true, false, ◌||◌, if◌then◌else◌}
use shar.Errors.{
  Err, Outcome, ok, err, panic, is_execution_not_found, is_process_instance_not_found,
}
use shar.Errors.Exec.{Exec, pure, raise, lift}

-- if errors.Is(err, test) { return nil } else if err != nil { return err }
abbrev pub quiet : {S A B : Type 0} → (Err → Bool) → B → (A → Exec S B) → Outcome A → Exec S B
quiet test done next (ok a) = next a
quiet test done next (err e) = if test e then pure done else raise e
quiet test done next panic = lift panic

abbrev pub is_orphan : Err → Bool
is_orphan e = is_execution_not_found e || is_process_instance_not_found e
