-- ===== src/Engine/Activities.antt =====
-- activityCompleteProcessor of internal/server/workflow/engine.go: the outbound flows of an activity
-- that is complete are traversed, and the end of a child process completes the job that launched it.
pub mod Child
pub mod Completes
use shar.Prelude.{
  String, Bool, true, false, not, Option, none, some, List, [], ◌∷◌, ◌==◌, ◌&&◌, ◌||◌, length, ltb,
  if◌then◌else◌,
}
use shar.Prelude.Maps.{Map, lookup, insert, keys}
use shar.Errors.{
  Err, Outcome, ok, err, panic, fatal, library_error, job_not_found, is_key_not_found,
  is_process_instance_not_found, is_workflow_fatal, ◌>>=◌ as and_then,
}
use shar.Errors.Exec.{Exec, pure, raise, lift, query, handle, ◌>>=◌, ◌>>◌}
use shar.Tracking
use shar.Model.{
  Element, Target, Targets, ProcessInstance, Execution, WorkflowState, ProcessHistoryEntry,
  CancellationState, obsolete, element_table, activity_execute,
}
use shar.Vars.{Codec, Expr}
use shar.Server.{
  Libraries, World, job_launch_complete, get_workflow, get_job, get_execution, get_process_instance,
  get_process_history_item, publish_workflow_state,
}
use shar.Traversal.Select.{present, reciprocated, choose}
use shar.Traversal.Send.{left_behind, traverse}
use shar.Instances.{destroy_process_instance}
use shar.Engine.Jobs.{delete_job_record}

abbrev pub is_obsolete : CancellationState → Bool
is_obsolete obsolete = true
is_obsolete _ = false

abbrev pub is_job_not_found : Err → Bool
is_job_not_found job_not_found = true
is_job_not_found _ = false

-- for _, elTest := range els
unfoldable pub find_catch : String → Map Element → Option Element
find_catch link [] = none
find_catch link ((k, el) ∷ els) =
    if el.kind == "intermediateLinkCatchEvent" && el.execute == link
    then some el
    else find_catch link els

-- The flow to a link's catch: the default target of the new targets is 0.
abbrev pub link_targets : Element → Targets
link_targets target = record {
  target = record { id = ""; conditions = []; target = target.id } ∷ [];
  default_target = some 0;
}

abbrev pub linked : Element → Option Element → Outcome Element
linked el none = err (fatal library_error)
linked el (some target) = ok (record el { outbound = some (link_targets target) })

unfoldable pub attach_link : Element → Map Element → Outcome Element
unfolding find_catch
attach_link el els =
    if el.kind == "intermediateLinkThrowEvent" then linked el (find_catch el.execute els) else ok el

module _ (lib : Libraries) (codec : Codec) (expr : Expr) where
  abbrev pub W : Type 0
  W = World lib

  -- The caller's state after `traverse`, which writes into it.
  abbrev pub expecting : WorkflowState → String → Outcome (Map String × Bool) → WorkflowState
  expecting state iid (ok (targets, true)) = record state {
    gateway_expectations = insert iid (keys targets) state.gateway_expectations;
  }
  expecting state iid (ok (targets, false)) = state
  expecting state iid (err e) = state
  expecting state iid panic = state

  abbrev pub fork_of : Map Element → WorkflowState → Targets → Outcome (Map String × Bool)
  fork_of els state outbound = and_then (choose codec expr state.vars outbound) (λ targets.
      and_then (present (lookup state.element_id els))
        (λ elem. and_then (reciprocated elem) (λ forks. ok (targets, forks))))

  abbrev pub traversed : Option Targets → Map Element → WorkflowState → W → WorkflowState
  traversed none els state w = left_behind state
  traversed (some outbound) els state w =
      expecting (left_behind state) (lib.ksuid w.next_id) (fork_of els state outbound)

  -- The last part of the end of a child process. The job that was not found is a nil pointer, which
  -- PublishWorkflowState follows.
  abbrev pub publish_again : Option WorkflowState → Exec W (Unit {0})
  publish_again none = lift panic
  publish_again (some j) = do publish_workflow_state lib job_launch_complete j; pure tt

  -- if err != nil && !errors.Is(err, ErrKeyNotFound)
  abbrev pub tolerate : {A : Type 0} → Exec W (Unit {0}) → Outcome A → Exec W (Unit {0})
  tolerate next (ok a) = next
  tolerate next (err e) = if is_key_not_found e then next else raise e
  tolerate next panic = lift panic

  -- The error that is returned where the execution is not found is not that of GetExecution.
  abbrev pub destroy_child :
      WorkflowState
      → Option ProcessInstance
      → Exec W (Unit {0})
      → Outcome Execution
      → Exec W (Unit {0})
  destroy_child state none next (ok execution) = next
  destroy_child state (some pi) next (ok execution) =
      handle (destroy_process_instance lib state pi.process_instance_id execution.execution_id)
        (tolerate next)
  destroy_child state none next (err e) = if is_key_not_found e then next else raise library_error
  destroy_child state (some pi) next (err e) =
      if is_key_not_found e then lift panic else raise library_error
  destroy_child state none next panic = lift panic
  destroy_child state (some pi) next panic = lift panic

  unfoldable pub finish_child :
      WorkflowState → Option ProcessInstance → String → Option WorkflowState → Exec W (Unit {0})
  unfolding delete_job_record get_execution destroy_process_instance publish_workflow_state
  finish_child state pi job_id j = handle (delete_job_record lib job_id) (
      tolerate
        (handle (get_execution lib state.execution_id) (destroy_child state pi (publish_again j))))

  abbrev pub found_parent :
      WorkflowState → Option ProcessInstance → String → Outcome WorkflowState → Exec W (Unit {0})
  found_parent state pi job_id (ok j) = do
    j' ←
        publish_workflow_state lib job_launch_complete
          (record j { vars = state.vars; error = state.error })
    finish_child state pi job_id (some j')
  found_parent state pi job_id (err e) =
      if is_job_not_found e then finish_child state pi job_id none else raise e
  found_parent state pi job_id panic = lift panic

  -- The `switch` at the end: a process that was launched by a job completes it.
  unfoldable pub end_process : WorkflowState → Option ProcessInstance → Exec W (Unit {0})
  unfolding get_job publish_workflow_state finish_child
  end_process state pi =
      if (state.element_type == "endEvent" || state.element_type == "compensateEndEvent")
        && ltb 2 (length state.id)
        && not (Tracking.ancestor state.id 2 == state.execution_id)
      then handle (get_job lib (Tracking.ancestor state.id 2))
          (found_parent state pi (Tracking.ancestor state.id 2))
      else pure tt

  -- A fatal error of the traversal ends the handler without an error.
  abbrev pub after_traversal :
      WorkflowState → ProcessInstance → Outcome (Unit {0}) → Exec W (Unit {0})
  after_traversal state pi (ok t) = end_process state (some pi)
  after_traversal state pi (err e) = if is_workflow_fatal e then pure tt else raise e
  after_traversal state pi panic = lift panic

  abbrev pub traverse_if :
      Option ProcessInstance → Element → Map Element → WorkflowState → Exec W (Unit {0})
  traverse_if none el els state = end_process state none
  traverse_if (some pi) el els state = do
    state' ← query (λ w. ok (traversed el.outbound els state w))
    handle (traverse lib codec expr (Tracking.pop state.id) el.outbound els state)
        (after_traversal state' pi)

  unfoldable pub complete_with : WorkflowState → Option ProcessInstance → Exec W (Unit {0})
  unfolding get_workflow attach_link traverse end_process
  complete_with state pi = do
    wf ← get_workflow lib state.workflow_id
    el ← lift (present (lookup state.element_id (element_table wf)))
    el' ← lift (attach_link el (element_table wf))
    traverse_if pi el' (insert state.element_id el' (element_table wf)) state

  abbrev pub found_pi : WorkflowState → Outcome ProcessInstance → Exec W (Unit {0})
  found_pi state (ok pi) = complete_with state (some pi)
  found_pi state (err e) =
      if is_process_instance_not_found e then complete_with state none else raise e
  found_pi state panic = lift panic

  abbrev pub found_old : WorkflowState → Outcome ProcessHistoryEntry → Exec W (Unit {0})
  found_old state (ok old) =
      if is_obsolete old.cancellation_state && is_obsolete state.state
      then pure tt
      else handle (get_process_instance lib state.process_instance_id) (found_pi state)
  found_old state (err e) =
      if is_key_not_found e
      then handle (get_process_instance lib state.process_instance_id) (found_pi state)
      else raise e
  found_old state panic = lift panic

  unfoldable pub activity_complete_processor : WorkflowState → Exec W (Unit {0})
  unfolding get_process_history_item get_process_instance complete_with
  activity_complete_processor state =
      handle
        (get_process_history_item lib state.process_instance_id (Tracking.id state.id)
          activity_execute)
        (found_old state)

  -- The case of the handler of processActivities for a completed activity
  unfoldable pub process_activity_complete : Outcome WorkflowState → Exec W Bool
  unfolding activity_complete_processor
  process_activity_complete msg = do
    activity ← lift msg
    activity_complete_processor activity
    pure true
