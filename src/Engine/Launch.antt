-- ===== src/Engine/Launch.antt =====
-- launchProcess of internal/server/workflow/operations.go: one process starts.
pub mod Sent
use shar.Prelude.{
  String, Bool, true, false, not, Option, none, some, List, [], ◌∷◌, ◌==◌, ◌||◌, if◌then◌else◌,
}
use shar.Prelude.Maps.{Map, lookup, has_key}
use shar.Errors.{
  Err, Outcome, ok, err, panic, fatal, acked, library_error, process_not_found, workflow_not_found,
  fail_if, ◌>>=◌ as and_then, ◌>>◌ as after,
}
use shar.Errors.Exec.{Exec, pure, raise, lift, query, committed, handle, on_err, ◌>>=◌, ◌>>◌}
use shar.Tracking
use shar.Task.{TaskBehaviour}
use shar.Nats.{load_obj}
use shar.Model.{
  Bytes, Element, Elements, Process, Participant, Workflow, WorkflowVersion, WorkflowVersions,
  WorkflowState, Execution, ProcessInstance, element_table, process_execute, no_state, no_execution,
  completed, terminated,
}
use shar.Vars.{Codec, Expr, Value, decode}
use shar.Server.{
  Libraries, World, execution_execute, execution_abort, process_execute_subject, traversal_execute,
  kvs_for, not_found, get_workflow, get_execution, get_process_instance, has_valid_process,
  publish_workflow_state, record_history,
}
use shar.Linter.{top_level}
use shar.Gateway.Handlers.{process_of}
use shar.Traversal.Select.{present}
use shar.Traversal.Send.{fresh_id}
use shar.Instances.{
  create_execution, create_process_instance, destroy_process_instance, x_destroy_process_instance,
}
use shar.Engine.{is_orphan}
use shar.Engine.Starts.{get_task_spec_by_uid}

-- for _, i := range pr.Elements, the start events
abbrev pub start_elements : List Element → List Element
start_elements [] = []
start_elements (el ∷ els) =
    let rest = start_elements els in if el.kind == "startEvent" then el ∷ rest else rest

module _ (expr : Expr) where
  abbrev pub names_present : List String → Map Value → Outcome (Unit {0})
  names_present [] vals = ok tt
  names_present (ev ∷ evs) vals =
      after (fail_if (not (has_key ev vals)) library_error) (names_present evs vals)

  abbrev pub transform_present : Map String → Map Value → Outcome (Unit {0})
  transform_present [] vals = ok tt
  transform_present ((k, v) ∷ rest) vals =
      and_then (expr.get_variables v)
        (λ evs. after (names_present evs vals) (transform_present rest vals))

  abbrev pub expected_of : Option (Map String) → Map Value → Outcome (Unit {0})
  expected_of none vals = ok tt
  expected_of (some transform) vals = transform_present transform vals

  -- Test to see if all variables are present.
  unfoldable pub all_expected : List Element → Map Value → Outcome (Unit {0})
  all_expected [] vals = ok tt
  all_expected (el ∷ els) vals =
      after (expected_of el.output_transform vals) (all_expected els vals)

module _ (lib : Libraries) where
  abbrev pub W : Type 0
  W = World lib

  -- The state with which a start element is entered.
  abbrev pub start_state :
      List String → Element → Process → String → String → String → Bytes → String → WorkflowState
  start_state id el pr workflow_name wf_id execution_id vrs pid = record no_state {
    element_type = el.kind;
    element_id = el.id;
    element_name = el.name;
    workflow_id = wf_id;
    execution_id = execution_id;
    id = id;
    vars = vrs;
    workflow_name = workflow_name;
    process_id = pr.id;
    process_instance_id = pid;
  }

  module _ (id : List String) (pr : Process) (workflow_name wf_id execution_id : String)
      (vrs : Bytes) where
    unfoldable pub start_each : String → List Element → Exec W (Unit {0})
    unfolding fresh_id publish_workflow_state record_history
    start_each pid [] = pure tt
    start_each pid (el ∷ els) = do
      new_id ← fresh_id lib
      let exec =
          start_state (Tracking.push (Tracking.push id pid) new_id) el pr workflow_name wf_id
            execution_id vrs pid
      publish_workflow_state lib process_execute_subject
          (record exec { id = Tracking.push (Tracking.push id execution_id) pid })
      record_history lib exec process_execute
      publish_workflow_state lib traversal_execute exec
      start_each pid els

    abbrev pub launch_instance : List Element → String → String → Bytes → Exec W (Unit {0})
    launch_instance [] parent_pi parent_el headers = pure tt
    launch_instance (el ∷ els) parent_pi parent_el headers = do
      pi ←
          create_process_instance lib execution_id parent_pi parent_el pr.id workflow_name wf_id
            headers
      start_each pi.process_instance_id (el ∷ els)

    -- launchProcess. A process without a start event is not started.
    unfoldable pub launch_process : Codec → Expr → String → String → Bytes → Exec W (Unit {0})
    unfolding decode all_expected create_process_instance start_each
    launch_process codec expr parent_pi parent_el headers = do
      test_vars ← lift (decode codec vrs)
      lift (all_expected expr (start_elements (top_level pr.elements)) test_vars)
      launch_instance (start_elements (top_level pr.elements)) parent_pi parent_el headers
