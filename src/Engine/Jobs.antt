-- ===== src/Engine/Jobs.antt =====
-- The jobs of internal/server/workflow/engine.go: a job that completes completes its activity, and a
-- job that is aborted aborts it. compensationJobComplete is in internal/server/workflow/compensation.go.
pub mod Done
pub mod Concluded
use shar.Prelude.{
  ℕ, ◌+◌, String, Bool, true, false, Option, none, some, List, [], ◌∷◌, ◌==◌, eqb, if◌then◌else◌,
}
use shar.Prelude.Maps.{Map, lookup}
use shar.Errors.{
  Err, Outcome, ok, err, panic, acked, is_key_not_found, is_process_instance_not_found,
}
use shar.Errors.Exec.{Exec, pure, raise, lift, committed, handle, on_err, ◌>>=◌, ◌>>◌}
use shar.Tracking
use shar.Model.{
  Element, ProcessInstance, Execution, WorkflowState, ProcessHistoryEntry, CancellationState,
  Compensation, FatalError, executing, completed, compensating, element_table,
  index_process_elements, drop_state_params, activity_execute, activity_complete, job_complete,
  compensation_checkpoint,
}
use shar.Vars.{Codec, Expr, output_vars}
use shar.Server.{
  Libraries, World, activity_complete_subject, process_complete_subject, process_compensate,
  activity_abort_subject, service_task_abort, traversal_execute, kvs_for, get_workflow,
  get_process_instance, get_process_history_item, has_valid_process, publish_workflow_state,
  record_history, complete_activity,
}
use shar.Gateway.Handlers.{process_of}
use shar.Traversal.Select.{present}
use shar.Engine.{quiet, is_orphan}

-- workfFlowStateFrom
unfoldable pub workflow_state_from : ProcessHistoryEntry → WorkflowState
workflow_state_from start = record {
  id = start.id;
  workflow_id = start.workflow_id;
  execution_id = start.execution_id;
  element_id = start.element_id;
  element_type = "";
  element_name = "";
  execute_version = "";
  process_instance_id = start.process_instance_id;
  state = start.cancellation_state;
  condition = none;
  vars = start.vars;
  error = start.error;
  owners = [];
  groups = [];
  unix_time_nano = start.unix_time_nano;
  execute = start.execute;
  process_id = start.process_id;
  satisfies_gateway_expectation = start.satisfies_gateway_expectation;
  gateway_expectations = start.gateway_expectations;
  workflow_name = start.workflow_name;
  compensation = none;
  previous_activity = "";
  previous_element = "";
}

abbrev pub is_compensating : CancellationState → Bool
is_compensating compensating = true
is_compensating _ = false

module _ (lib : Libraries) where
  abbrev pub W : Type 0
  W = World lib

  unfoldable pub remove_job : String → Exec W (Unit {0})
  remove_job id w = committed w (λ b. record w { job = b }) (λ b. tt) (lib.kv.delete w.job id)

  -- DeleteJob of internal/server/workflow/operations.go
  unfoldable pub delete_job_record : String → Exec W (Unit {0})
  unfolding remove_job
  delete_job_record tracking_id = do kvs_for lib; remove_job tracking_id

  module _ (codec : Codec) (expr : Expr) where
    -- The second half of completeJobProcessor, where the start of the activity was found.
    unfoldable pub complete_started :
        WorkflowState → Option Element → ProcessHistoryEntry → Exec W (Unit {0})
    unfolding workflow_state_from complete_activity record_history delete_job_record
    complete_started job element activity_start = do
      el ← lift (present element)
      vars ← lift (output_vars codec expr job.vars activity_start.vars el.output_transform)
      complete_activity lib (record (workflow_state_from activity_start) {
        vars = vars;
        id = Tracking.pop job.id;
        state = job.state;
        element_id = el.id;
        element_type = el.kind;
      })
      record_history lib job job_complete
      delete_job_record (Tracking.id job.id)

    abbrev pub with_instance : WorkflowState → ProcessInstance → Exec W (Unit {0})
    with_instance job pi = do
      wf ← get_workflow lib pi.workflow_id
      handle
          (get_process_history_item lib job.process_instance_id (Tracking.id (Tracking.pop job.id))
            activity_execute)
          (quiet is_key_not_found tt
            (complete_started job (lookup job.element_id (element_table wf))))

    unfoldable pub complete_job_processor : WorkflowState → Exec W (Unit {0})
    unfolding get_process_history_item get_process_instance get_workflow complete_started
    complete_job_processor job =
        handle
          (get_process_history_item lib job.process_instance_id (Tracking.parent_id job.id)
            activity_execute)
          (quiet is_key_not_found tt (λ found.
            handle (get_process_instance lib job.process_instance_id)
              (quiet is_process_instance_not_found tt (with_instance job))))

    -- The end of a compensation: the activity completes, and at an end event the process does.
    unfoldable pub final_state : Map Element → WorkflowState → Bool → Exec W (Unit {0})
    unfolding publish_workflow_state
    final_state els state false = pure tt
    final_state els state true = do
      el ← lift (present (lookup state.element_id els))
      local_vars ← lift (output_vars codec expr state.vars [] el.output_transform)
      publish_workflow_state lib process_complete_subject (record state {
        id = state.process_instance_id ∷ [];
        state = completed;
        vars = local_vars;
      })
      pure tt

    unfoldable pub last_step : Map Element → WorkflowState → List String → Exec W (Unit {0})
    unfolding get_process_history_item publish_workflow_state record_history final_state
        drop_state_params
    last_step els state id = do
      activity ←
          get_process_history_item lib state.process_instance_id (Tracking.id id) activity_execute
      el ← lift (present (lookup activity.element_id els))
      state' ←
          publish_workflow_state lib activity_complete_subject
            (record (drop_state_params (record state {
              state = executing;
              element_id = activity.element_id;
              element_type = el.kind;
              element_name = activity.element_name;
            })) { id = id })
      record_history lib state' activity_complete
      final_state els state' (state'.element_type == "compensateEndEvent")

    abbrev pub next_step : WorkflowState → List String → Exec W (Unit {0})
    next_step state id = do
      publish_workflow_state lib process_compensate (record state { id = id })
      pure tt

    -- compensationJobComplete
    unfoldable pub compensation_job_complete : WorkflowState → Exec W (Unit {0})
    unfolding get_process_history_item get_workflow last_step publish_workflow_state
    compensation_job_complete job = do
      checkpoint ←
          get_process_history_item lib job.process_instance_id (Tracking.id (Tracking.pop job.id))
            compensation_checkpoint
      wf ← get_workflow lib job.workflow_id
      process ← lift (process_of (lookup job.process_id wf.process))
      let els = index_process_elements process.elements []
      el ← lift (present (lookup job.element_id els))
      vars ← lift (output_vars codec expr job.vars checkpoint.vars el.output_transform)
      compensation ← lift (present job.compensation)
      if eqb (compensation.step + 1) compensation.total_steps
          then last_step els (record job { vars = vars }) (Tracking.pop job.id)
          else next_step (record job { vars = vars }) (Tracking.pop job.id)

    -- The handler of processCompletedJobs
    unfoldable pub process_completed_job : Outcome WorkflowState → Exec W Bool
    unfolding has_valid_process complete_job_processor compensation_job_complete
    process_completed_job msg = do
      job ← lift msg
      handle (has_valid_process lib job.process_instance_id job.execution_id) (
          quiet is_orphan true (λ valid. do
            if is_compensating job.state
                then compensation_job_complete job
                else complete_job_processor job
            pure true))

  -- deleteJob of engine.go. Where the start of the activity cannot be read, nothing is published.
  abbrev pub abort_started : Outcome ProcessHistoryEntry → Exec W (Unit {0})
  abort_started (ok start) = do
    publish_workflow_state lib activity_abort_subject (workflow_state_from start)
    pure tt
  abort_started (err e) = if is_key_not_found e then raise e else pure tt
  abort_started panic = lift panic

  abbrev pub unless_gone : Outcome (Unit {0}) → Outcome (Unit {0})
  unless_gone (ok t) = ok t
  unless_gone (err e) = if is_key_not_found e then ok tt else err e
  unless_gone panic = panic

  unfoldable pub delete_job : WorkflowState → Exec W (Unit {0})
  unfolding delete_job_record get_process_history_item publish_workflow_state workflow_state_from
  delete_job state = do
    handle (delete_job_record (Tracking.id state.id)) (λ r. lift (unless_gone r))
    handle
        (get_process_history_item lib state.process_instance_id
          (Tracking.id (Tracking.pop state.id)) activity_execute)
        abort_started

  -- The handler of processJobAbort. `aborts` is the test on the subject: an abort of a service task or
  -- of a gateway. An orphan's message is acknowledged beside the error.
  unfoldable pub process_job_abort : Bool → Outcome WorkflowState → Exec W Bool
  unfolding has_valid_process delete_job record_history
  process_job_abort aborts msg = do
    state ← lift msg
    on_err (λ e. if is_orphan e then acked e else e)
        (has_valid_process lib state.process_instance_id state.execution_id)
    if aborts
        then (do delete_job state; on_err acked (record_history lib state job_complete); pure true)
        else pure true
