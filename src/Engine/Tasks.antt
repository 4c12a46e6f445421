-- ===== src/Engine/Tasks.antt =====
-- CompleteManualTask, CompleteServiceTask, CompleteSendMessageTask and CompleteUserTask of
-- internal/server/workflow/operations.go: the results of a client's tasks.
pub mod Finished
use shar.Prelude.{String, List, [], if◌then◌else◌}
use shar.Errors.{Outcome, ok, err, panic, fatal, is_key_not_found}
use shar.Errors.Exec.{Exec, pure, raise, lift, handle, on_err, ◌>>=◌, ◌>>◌}
use shar.Tracking
use shar.Model.{Bytes, ProcessHistoryEntry, WorkflowState, activity_execute}
use shar.Vars.{Codec, Expr, check_vars}
use shar.Server.{
  Libraries, World, Subject, manual_task_complete, service_task_abort, service_task_complete,
  send_message_complete, user_task_complete, get_process_history_item, publish_workflow_state,
}
use shar.Exchange.{get_element}
use shar.UserTasks.{close_user_task}
use shar.Engine.Jobs.{is_compensating}

module _ (lib : Libraries) (codec : Codec) (expr : Expr) where
  abbrev pub W : Type 0
  W = World lib

  abbrev pub publish_only : Subject → WorkflowState → Exec W (Unit {0})
  publish_only subject state = do publish_workflow_state lib subject state; pure tt

  -- The element is read, the new variables are checked against it, and the result is published.
  unfoldable pub publish_result : Subject → WorkflowState → Bytes → Exec W (Unit {0})
  unfolding get_element check_vars publish_workflow_state
  publish_result subject job newvars = do
    el ← on_err fatal (get_element lib [] job)
    on_err fatal (lift (check_vars codec expr newvars el))
    publish_only subject (record job { vars = newvars })

  unfoldable pub complete_manual_task : WorkflowState → Bytes → Exec W (Unit {0})
  unfolding publish_result
  complete_manual_task job newvars = publish_result manual_task_complete job newvars

  -- Where the start of the activity is missing, the task is aborted.
  abbrev pub unless_missing :
      WorkflowState → Exec W (Unit {0}) → Outcome ProcessHistoryEntry → Exec W (Unit {0})
  unless_missing job next (ok old) = next
  unless_missing job next (err e) =
      if is_key_not_found e then publish_only service_task_abort job else raise e
  unless_missing job next panic = lift panic

  unfoldable pub complete_service_task : WorkflowState → Bytes → Exec W (Unit {0})
  unfolding get_process_history_item publish_result publish_workflow_state
  complete_service_task job newvars =
      if is_compensating job.state
      then publish_result service_task_complete job newvars
      else handle
          (get_process_history_item lib job.process_instance_id (Tracking.parent_id job.id)
            activity_execute)
          (unless_missing job (publish_result service_task_complete job newvars))

  -- The new variables are not used.
  unfoldable pub complete_send_message_task : WorkflowState → Bytes → Exec W (Unit {0})
  unfolding get_element publish_workflow_state
  complete_send_message_task job newvars = do
    on_err fatal (get_element lib [] job)
    publish_only send_message_complete job

  -- A call on the bucket of user tasks
  abbrev pub in_user_tasks : {A : Type 0} → Exec (lib.kv.Bucket (List String)) A → Exec W A
  in_user_tasks m w = let (r, b) = m w.wf_user_tasks in (r, record w { wf_user_tasks = b })

  unfoldable pub complete_user_task : WorkflowState → Bytes → Exec W (Unit {0})
  unfolding publish_result close_user_task
  complete_user_task job newvars = do
    publish_result user_task_complete job newvars
    (λ w. in_user_tasks (close_user_task lib.kv lib.kvs_for w.job (Tracking.id job.id)) w)
