-- ===== src/Instances.antt =====
-- The executions and process instances of internal/server/workflow/operations.go: an execution lists
-- its process instances, and ends with the last of them. The updates are made without a move of
-- another client, which Nats.Update is about. `ensure_bucket` is the creation of a bucket, which
-- setup.EnsureBucket leaves to JetStream.
pub mod Linked
pub mod Grown
pub mod Kept
pub mod Created
pub mod Reached
pub mod Made
pub mod Registry
pub mod Ending
pub mod Unread
pub mod Destroyed
use shar.Prelude.{
  String, ◌≡◌, Bool, true, false, Option, none, some, List, [], ◌∷◌, ◌++◌, ◌==◌, ◌||◌,
  if◌then◌else◌,
}
use shar.Prelude.Maps.{is_some}
use shar.Errors.{
  Err, Outcome, ok, err, panic, ◌>>=◌ as and_then, key_not_found, execution_not_found,
  process_instance_not_found, workflow_not_found, element_not_found, job_not_found,
  gateway_instance_not_found, process_not_found, workflow_error_not_found, is_key_not_found,
  is_process_instance_not_found,
}
use shar.Errors.Exec.{
  Exec, pure, raise, lift, query, committed, continue, handle, on_err, ◌>>=◌, ◌>>◌,
}
use shar.Nats.{KeyValue, load_obj, save_obj, update_obj, abandoned, ensure}
use shar.Model.{
  Bytes, Element, Workflow, Execution, ProcessInstance, WorkflowState, no_execution,
  no_process_instance, terminated, errored,
}
use shar.Server.{
  Libraries, World, process_terminated, execution_complete, execution_terminated,
  service_task_abort, kvs_for, get_workflow, get_execution, get_process_instance,
  publish_workflow_state,
}
use shar.Traversal.Send.{fresh_id}
use shar.UserTasks.{remove}

abbrev pub is_empty : List String → Bool
is_empty [] = true
is_empty (x ∷ xs) = false

-- errors.IsNotFound: one of the integrityErrors
abbrev pub is_not_found : Err → Bool
is_not_found execution_not_found = true
is_not_found process_instance_not_found = true
is_not_found workflow_not_found = true
is_not_found element_not_found = true
is_not_found process_not_found = true
is_not_found job_not_found = true
is_not_found gateway_instance_not_found = true
is_not_found workflow_error_not_found = true
is_not_found key_not_found = true
is_not_found _ = false

abbrev pub add_instance : String → Execution → Execution
add_instance pid e = record e { process_instance_id = e.process_instance_id ++ pid ∷ [] }

abbrev pub drop_instance : String → Execution → Execution
drop_instance pid e = record e { process_instance_id = remove e.process_instance_id pid }

module _ (lib : Libraries) where
  abbrev pub W : Type 0
  W = World lib

  unfoldable pub update_execution : String → Execution → (Execution → Execution) → Exec W (Unit {0})
  update_execution id default fn w =
      committed (record w { wf_execution = abandoned lib.kv w.wf_execution id default [] })
        (λ r. record w { wf_execution = r.0 }) (λ r. tt)
        (update_obj lib.kv w.wf_execution id default (λ e. ok (fn e)) [])

  unfoldable pub save_execution : String → Execution → Exec W (Unit {0})
  unfolding save_obj
  save_execution id e w =
      committed w (λ b. record w { wf_execution = b }) (λ b. tt)
        (save_obj lib.kv w.wf_execution id e)

  unfoldable pub save_process_instance : String → ProcessInstance → Exec W (Unit {0})
  unfolding save_obj
  save_process_instance id pi w =
      committed w (λ b. record w { wf_process_instance = b }) (λ b. tt)
        (save_obj lib.kv w.wf_process_instance id pi)

  unfoldable pub remove_execution : String → Exec W (Unit {0})
  remove_execution id w =
      committed w (λ b. record w { wf_execution = b }) (λ b. tt) (lib.kv.delete w.wf_execution id)

  unfoldable pub remove_process_instance : String → Exec W (Unit {0})
  remove_process_instance id w =
      committed w (λ b. record w { wf_process_instance = b }) (λ b. tt)
        (lib.kv.delete w.wf_process_instance id)

  unfoldable pub remove_tracking : String → Exec W (Unit {0})
  remove_tracking id w =
      committed w (λ b. record w { wf_tracking = b }) (λ b. tt) (lib.kv.delete w.wf_tracking id)

  -- for _, m := range wf.Messages
  abbrev pub ensure_buckets : (String → Outcome (Unit {0})) → List Element → Outcome (Unit {0})
  ensure_buckets ensure_bucket [] = ok tt
  ensure_buckets ensure_bucket (m ∷ ms) =
      and_then (ensure_bucket m.name) (λ t. ensure_buckets ensure_bucket ms)

  -- createExecution: the error of GetWorkflow is returned only after the execution is saved.
  unfoldable pub create_execution : (String → Outcome (Unit {0})) → Execution → Exec W Execution
  unfolding fresh_id get_workflow save_execution
  create_execution ensure_bucket execution = do
    id ← fresh_id lib
    let execution' = record execution { execution_id = id; process_instance_id = [] }
    kvs_for lib
    handle (get_workflow lib execution.workflow_id) (λ found. do
      save_execution id execution'
      wf ← lift found
      lift (ensure_buckets ensure_bucket wf.messages)
      pure execution')

  unfoldable pub create_process_instance :
      String → String → String → String → String → String → Bytes → Exec W ProcessInstance
  unfolding fresh_id get_execution save_process_instance update_execution
  create_process_instance execution_id parent_process_id parent_element_id process_id workflow_name
        workflow_id headers =
      do
        id ← fresh_id lib
        let pi = record no_process_instance {
          process_instance_id = id;
          process_id = process_id;
          parent_process_id = some parent_process_id;
          parent_element_id = some parent_element_id;
          execution_id = execution_id;
          workflow_name = workflow_name;
          workflow_id = workflow_id;
          headers = headers;
        }
        kvs_for lib
        wfi ← get_execution lib execution_id
        save_process_instance id pi
        update_execution execution_id wfi (add_instance id)
        pure pi

  -- What the caller's object holds after UpdateObj, also where that failed: the last value that was
  -- read, changed, or the object as it was where nothing was read.
  abbrev pub changed : Execution → (Execution → Execution) → Outcome Execution → Execution
  changed e fn (ok read) = fn read
  changed e fn (err x) = e
  changed e fn panic = e

  unfoldable pub kept_object : String → Execution → (Execution → Execution) → W → Execution
  unfolding load_obj
  kept_object id e fn w = changed e fn (
      and_then (ensure lib.kv w.wf_execution id e (lib.kv.get w.wf_execution id))
        (λ b. load_obj lib.kv b id))

  abbrev pub when : Bool → Exec W (Unit {0}) → Exec W (Unit {0})
  when true m = m
  when false m = pure tt

  abbrev pub publish_if : Bool → WorkflowState → Exec W WorkflowState
  publish_if true state = publish_workflow_state lib execution_complete state
  publish_if false state = pure state

  -- What follows the update of the execution: where it failed, the execution may still be removed
  -- before the error is returned.
  unfoldable pub after_update :
      Bool → WorkflowState → String → String → Outcome (Unit {0}) → Exec W WorkflowState
  unfolding remove_execution remove_process_instance publish_workflow_state
  after_update last state pid eid (ok t) = do
    when last (remove_execution eid)
    remove_process_instance pid
    state' ← publish_workflow_state lib process_terminated state
    publish_if last state'
  after_update last state pid eid (err e) = do when last (remove_execution eid); raise e
  after_update last state pid eid panic = lift panic

  unfoldable pub destroy_process_instance : WorkflowState → String → String → Exec W WorkflowState
  unfolding kept_object update_execution after_update
  destroy_process_instance state process_instance_id execution_id = do
    kvs_for lib
    e ←
        query
          (λ w. ok (kept_object execution_id no_execution (drop_instance process_instance_id) w))
    handle (update_execution execution_id no_execution (drop_instance process_instance_id))
        (after_update (is_empty e.process_instance_id) state process_instance_id execution_id)

  -- A delete that does not mind a missing key.
  abbrev pub unless_gone : Outcome (Unit {0}) → Outcome (Unit {0})
  unless_gone (ok t) = ok t
  unless_gone (err e) = if is_key_not_found e then ok tt else err e
  unless_gone panic = panic

  unfoldable pub delete_execution : WorkflowState → Exec W (Unit {0})
  unfolding remove_execution remove_tracking publish_workflow_state
  delete_execution state = do
    kvs_for lib
    handle (remove_execution state.execution_id) (λ r. lift (unless_gone r))
    handle (remove_tracking state.execution_id) (λ r. lift (unless_gone r))
    publish_workflow_state lib execution_terminated state
    pure tt

  abbrev pub errored_if : Bool → WorkflowState → WorkflowState
  errored_if true state = record state { state = errored }
  errored_if false state = state

  -- errors.IsNotFound
  abbrev pub found_instance :
      WorkflowState → Execution → Outcome ProcessInstance → Exec W (Unit {0})
  found_instance state execution (ok pi) = do
    state' ← destroy_process_instance state pi.process_instance_id execution.execution_id
    delete_execution (errored_if (is_some state'.error) state')
  found_instance state execution (err e) = if is_not_found e then pure tt else raise e
  found_instance state execution panic = lift panic

  -- xDestroyProcessInstance. The workflow that it loads is only logged.
  unfoldable pub x_destroy_process_instance : WorkflowState → Exec W (Unit {0})
  unfolding get_execution get_process_instance destroy_process_instance delete_execution
  x_destroy_process_instance state = do
    kvs_for lib
    execution ← get_execution lib state.execution_id
    handle (get_process_instance lib state.process_instance_id) (found_instance state execution)

  abbrev pub abort_if : Bool → WorkflowState → Exec W WorkflowState
  abort_if true state = publish_workflow_state lib service_task_abort state
  abort_if false state = pure state

  abbrev pub go_on : Exec W Bool → Outcome WorkflowState → Exec W Bool
  go_on rest (ok state) = rest
  go_on rest (err e) = rest
  go_on rest panic = lift panic

  -- The loop of tearDownWorkflow: an error is logged, and the loop goes on.
  unfoldable pub destroy_each : WorkflowState → String → List String → Exec W Bool
  unfolding destroy_process_instance
  destroy_each state eid [] = pure true
  destroy_each state eid (pid ∷ pids) =
      let rest = destroy_each state eid pids in
      handle (destroy_process_instance state pid eid) (go_on rest)

  -- tearDownWorkflow
  unfoldable pub tear_down_workflow : WorkflowState → Exec W Bool
  unfolding publish_workflow_state get_execution destroy_each
  tear_down_workflow state = do
    state' ←
        abort_if
          (state.element_type == "serviceTask"
            || state.element_type == "messageIntermediateCatchEvent")
          state
    execution ← get_execution lib state'.execution_id
    destroy_each (record state' { state = terminated }) execution.execution_id
        execution.process_instance_id
