-- ===== src/Engine/Faults.antt =====
-- Workflow errors and fatal errors: HandleWorkflowError, CancelProcessInstance, PersistFatalError,
-- RetryActivity and DeleteFatalError of internal/server/workflow/operations.go, and the handlers of
-- processFatalError and processJobRetry of internal/server/workflow/engine.go.
pub mod Caught
pub mod Retried
use Prim.Native.String.{◌++◌ as str_append}
use shar.Prelude.{String, Bool, true, false, Option, none, some, List, [], ◌∷◌, ◌==◌, if◌then◌else◌}
use shar.Prelude.Maps.{Map, lookup, insert}
use shar.Errors.{
  Err, Outcome, ok, err, panic, fatal, make_fatal, workflow_error_not_found,
  unhandled_workflow_error, invalid_state, cancel_failed, ◌>>=◌ as and_then,
}
use shar.Errors.Exec.{Exec, pure, raise, lift, query, committed, on_err, ◌>>=◌, ◌>>◌}
use shar.Tracking
use shar.Nats.{load_obj, save_obj}
use shar.Model.{
  Bytes, Error, CatchError, CancellationState, executing, errored, Element, Workflow, WorkflowState,
  ProcessHistoryEntry, FatalError, HandlingStrategy, pause, tear_down, element_table, no_state,
  activity_execute,
}
use shar.Vars.{Codec, Expr, output_vars}
use shar.Server.{
  Libraries, World, traversal_execute, service_task_abort, job_retry, kvs_for, get_workflow,
  get_process_history_item, publish_workflow_state,
}
use shar.Traversal.Select.{present}
use shar.Instances.{x_destroy_process_instance, tear_down_workflow}

abbrev pub is_executing : CancellationState → Bool
is_executing executing = true
is_executing _ = false

-- The errors of the workflow by their ids, and whether one has the code.
abbrev pub errors_by_id : List Error → Map Error → Map Error
errors_by_id [] m = m
errors_by_id (v ∷ vs) m = errors_by_id vs (insert v.id v m)

abbrev pub has_code : String → List Error → Bool
has_code code [] = false
has_code code (v ∷ vs) = if v.code == code then true else has_code code vs

-- for _, v := range el.Errors
unfoldable pub find_caught : String → Map Error → List CatchError → Outcome (Option CatchError)
unfolding lookup
find_caught code errors [] = ok none
find_caught code errors (v ∷ vs) =
    let rest = find_caught code errors vs in
    and_then (present (lookup v.error_id errors))
      (λ wf_err. if code == wf_err.code then ok (some v) else rest)

abbrev pub unhandled : Option CatchError → Outcome CatchError
unhandled none = err unhandled_workflow_error
unhandled (some caught) = ok caught

-- "<workflow name>.<workflow>.<execution>.<process instance>.<element>"
abbrev pub fatal_error_key : WorkflowState → String
fatal_error_key s = str_append s.workflow_name (
    str_append "." (
      str_append s.workflow_id (
        str_append "." (
          str_append s.execution_id
            (str_append "." (str_append s.process_instance_id (str_append "." s.element_id)))))))

-- The state that is sent where an error was caught, or where its task is aborted.
abbrev pub caught_state : Workflow → Element → WorkflowState → List String → Bytes → WorkflowState
caught_state wf target state id vars = record no_state {
  element_type = target.kind;
  element_id = target.id;
  element_name = target.name;
  workflow_id = state.workflow_id;
  execution_id = state.execution_id;
  id = id;
  vars = vars;
  workflow_name = wf.name;
  process_instance_id = state.process_instance_id;
  process_id = state.process_id;
}

module _ (lib : Libraries) where
  abbrev pub W : Type 0
  W = World lib

  unfoldable pub cancel_process_instance : WorkflowState → Exec W (Unit {0})
  unfolding x_destroy_process_instance
  cancel_process_instance state =
      if is_executing state.state
      then raise invalid_state
      else on_err (λ e. cancel_failed) (x_destroy_process_instance lib state)

  -- The workflow does not know the code: the task is aborted, the process instance is cancelled, and
  -- whatever comes of it the error is fatal.
  unfoldable pub halt_workflow : String → WorkflowState → Exec W (Unit {0})
  unfolding publish_workflow_state cancel_process_instance
  halt_workflow error_code state = do
    state' ←
        on_err (λ e. fatal workflow_error_not_found)
          (publish_workflow_state lib service_task_abort state)
    on_err (λ e. fatal workflow_error_not_found)
        (cancel_process_instance (record state' {
          state = errored;
          error = some (record { id = "UNKNOWN"; name = "UNKNOWN"; code = error_code });
        }))
    raise (fatal workflow_error_not_found)

  module _ (codec : Codec) (expr : Expr) where
    -- An element catches the error: the flow goes on at the target, and the task is aborted.
    unfoldable pub catch_error : Workflow → String → Bytes → WorkflowState → Exec W (Unit {0})
    unfolding find_caught get_process_history_item publish_workflow_state
    catch_error wf error_code in_vars state = do
      el ← lift (present (lookup state.element_id (element_table wf)))
      found ← lift (find_caught error_code (errors_by_id wf.errors []) el.errors)
      caught ← lift (unhandled found)
      activity_start ←
          get_process_history_item lib state.process_instance_id
            (Tracking.id (Tracking.pop state.id)) activity_execute
      vars ←
          lift (
            make_fatal (output_vars codec expr in_vars activity_start.vars caught.output_transform))
      target ← lift (present (lookup caught.target (element_table wf)))
      publish_workflow_state lib traversal_execute
          (caught_state wf target state (Tracking.pop (Tracking.pop state.id)) vars)
      publish_workflow_state lib service_task_abort
          (caught_state wf target state state.id state.vars)
      pure tt

    unfoldable pub handle_workflow_error : String → Bytes → WorkflowState → Exec W (Unit {0})
    unfolding get_workflow halt_workflow catch_error
    handle_workflow_error error_code in_vars state = do
      wf ← get_workflow lib state.workflow_id
      if has_code error_code wf.errors
          then catch_error wf error_code in_vars state
          else halt_workflow error_code state

  unfoldable pub save_fatal_error : String → FatalError → Exec W (Unit {0})
  unfolding save_obj
  save_fatal_error k fatal_error w =
      committed w (λ b. record w { wf_fatal_error = b }) (λ b. tt)
        (save_obj lib.kv w.wf_fatal_error k fatal_error)

  unfoldable pub persist_fatal_error : FatalError → Exec W Bool
  unfolding save_fatal_error
  persist_fatal_error fatal_error = do
    kvs_for lib
    save_fatal_error (fatal_error_key fatal_error.workflow_state) fatal_error
    pure true

  unfoldable pub retry_activity : WorkflowState → Exec W (Unit {0})
  unfolding load_obj publish_workflow_state
  retry_activity state = do
    kvs_for lib
    fatal_err ← query (λ w. load_obj lib.kv w.wf_fatal_error (fatal_error_key state))
    publish_workflow_state lib job_retry (record fatal_err.workflow_state { vars = state.vars })
    pure tt

  unfoldable pub remove_fatal_error : String → Exec W (Unit {0})
  remove_fatal_error k w =
      committed w (λ b. record w { wf_fatal_error = b }) (λ b. tt)
        (lib.kv.delete w.wf_fatal_error k)

  unfoldable pub delete_fatal_error : WorkflowState → Exec W (Unit {0})
  unfolding remove_fatal_error
  delete_fatal_error state = do kvs_for lib; remove_fatal_error (fatal_error_key state)

  -- The handler of processFatalError
  abbrev pub by_strategy : HandlingStrategy → FatalError → Exec W Bool
  by_strategy tear_down fatal_err = tear_down_workflow lib fatal_err.workflow_state
  by_strategy pause fatal_err = persist_fatal_error fatal_err

  unfoldable pub process_fatal_error : Outcome FatalError → Exec W Bool
  unfolding tear_down_workflow persist_fatal_error
  process_fatal_error msg = do
    fatal_err ← lift msg
    by_strategy fatal_err.handling_strategy fatal_err
    pure true

  -- The handler of processJobRetry
  unfoldable pub process_job_retry : Outcome WorkflowState → Exec W Bool
  unfolding publish_workflow_state delete_fatal_error
  process_job_retry msg = do
    state ← lift msg
    state' ← publish_workflow_state lib service_task_abort state
    publish_workflow_state lib traversal_execute (record state' { id = Tracking.pop state'.id })
    delete_fatal_error state'
    pure true
