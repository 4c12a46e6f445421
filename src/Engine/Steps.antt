-- ===== src/Engine/Steps.antt =====
-- The handlers of processProcessCompensate of internal/server/workflow/compensation.go, and of
-- processWorkflowEvents and processTracking of internal/server/workflow/engine.go.
use shar.Prelude.{[], ℕ, String, Bool, true, false, Option, none, some, List, ◌==◌, if◌then◌else◌}
use shar.Prelude.Maps.{lookup}
use shar.Errors.{Outcome, ok}
use shar.Errors.Exec.{Exec, pure, lift, query, committed, handle, ◌>>=◌, ◌>>◌}
use shar.Tracking
use shar.Nats.{load_obj, save_obj}
use shar.Model.{
  Element, Execution, ProcessHistoryEntry, WorkflowState, compensating, compensation_checkpoint,
  index_process_elements, no_state,
}
use shar.Vars.{Codec, Expr}
use shar.Server.{
  Libraries, World, service_task_execute, kvs_for, get_workflow, get_execution, record_history,
}
use shar.Compensation.{PlanMessage}
use shar.Gateway.Handlers.{process_of}
use shar.Traversal.Select.{present}
use shar.Instances.{remove_tracking, x_destroy_process_instance}
use shar.Engine.{quiet, is_orphan}
use shar.Engine.Starts.{start_job}

abbrev pub or_empty : Option String → String
or_empty none = ""
or_empty (some v) = v

-- The job that undoes the job `exe`, by the element that its element is compensated with.
abbrev pub compensation_job :
    WorkflowState → PlanMessage → ProcessHistoryEntry → Element → ℕ → WorkflowState
compensation_job state plan exe el now = record no_state {
  workflow_id = exe.workflow_id;
  element_id = el.id;
  element_type = el.kind;
  element_name = el.name;
  id = state.id;
  execute = some el.execute;
  state = compensating;
  unix_time_nano = now;
  vars = state.vars;
  workflow_name = state.workflow_name;
  process_id = state.process_id;
  process_instance_id = state.process_instance_id;
  compensation =
      some (record {
        step = plan.step;
        total_steps = plan.steps;
        for_tracking_id = Tracking.id exe.id;
      });
  execution_id = exe.execution_id;
  execute_version = or_empty el.version;
}

module _ (lib : Libraries) where
  abbrev pub W : Type 0
  W = World lib

  unfoldable pub save_tracking : String → WorkflowState → Exec W (Unit {0})
  unfolding save_obj
  save_tracking id st w =
      committed w (λ b. record w { wf_tracking = b }) (λ b. tt)
        (save_obj lib.kv w.wf_tracking id st)

  -- track; `executes` and `completes` are the tests on the subject.
  unfoldable pub track_state : Bool → Bool → Outcome WorkflowState → Exec W Bool
  unfolding save_tracking remove_tracking
  track_state executes completes msg = do
    kvs_for lib
    if executes
        then (do st ← lift msg; save_tracking st.execution_id st; pure true)
        else if completes
        then (do st ← lift msg; remove_tracking lib st.execution_id; pure true)
        else pure true

  -- hasValidExecution
  unfoldable pub has_valid_execution : String → Exec W Execution
  unfolding get_execution
  has_valid_execution execution_id = get_execution lib execution_id

  -- The handler of processWorkflowEvents; `completes` is the test on the subject.
  unfoldable pub process_workflow_event : Bool → Outcome WorkflowState → Exec W Bool
  unfolding has_valid_execution x_destroy_process_instance
  process_workflow_event completes msg = do
    job ← lift msg
    if completes
        then handle (has_valid_execution job.execution_id)
            (quiet is_orphan true (λ e. do x_destroy_process_instance lib job; pure true))
        else pure true

  module _ (codec : Codec) (expr : Expr) (strings : ℕ → Option (List String)) where
    abbrev pub start_step : Bool → Element → WorkflowState → WorkflowState → Exec W (Unit {0})
    start_step true el job state = do
      start_job lib codec expr strings (service_task_execute job.execute_version) job el state.vars
      pure tt
    start_step false el job state = pure tt

    -- The handler of processProcessCompensate. `fetch` is the next entry of the plan under a consumer's
    -- name, with the numbers of its headers, and `ack` the acknowledgement of it: both are JetStream's.
    unfoldable pub process_process_compensate :
        (String → Outcome PlanMessage)
        → (PlanMessage → Outcome (Unit {0}))
        → Outcome WorkflowState
        → Exec W Bool
    unfolding get_workflow load_obj record_history start_job
    process_process_compensate fetch ack msg = do
      state ← lift msg
      wf ← get_workflow lib state.workflow_id
      process ← lift (process_of (lookup state.process_id wf.process))
      let els = index_process_elements process.elements []
      plan ← lift (fetch (Tracking.id state.id))
      lift (ack plan)
      kvs_for lib
      exe ← query (λ w. load_obj lib.kv w.wf_history plan.item)
      original ← lift (present (lookup exe.element_id els))
      with_id ← lift (present original.compensate_with)
      el ← lift (present (lookup with_id els))
      now ← query (λ w. ok w.now)
      let job = compensation_job state plan exe el now
      record_history lib job compensation_checkpoint
      start_step (job.element_type == "serviceTask") el job state
      pure true
