-- ===== src/Tests/Engines.antt =====
-- The theorems on jobs, activities and errors, at concrete inputs.
use shar.Prelude.{◌≡◌, refl, none, some, [], ◌∷◌, ◌+◌, arith}
use shar.Prelude.Maps.{lookup, insert}
use shar.Errors.{ok}
use shar.Nats.{load_obj}
use shar.Model.{
  WorkflowState, Element, nil, plain, activity_execute, element_table, no_process_instance,
}
use shar.Vars.{output_vars}
use shar.Tracking
use shar.Server.{World, history_key, history_entry}
use shar.Engine.Jobs.{complete_job_processor}
use shar.Engine.Jobs.Concluded.{Concluded, complete_job_processor-Concluded}
use shar.Engine.Activities.{end_process}
use shar.Engine.Activities.Child.{launches}
use shar.Engine.Activities.Completes.{end_process-twice}
use shar.Engine.Faults.{handle_workflow_error}
use shar.Engine.Faults.Caught.{Caught, handle_workflow_error-Caught}
use shar.Errors.Exec.{pure, ◌>>◌}
use shar.Engine.Faults.{persist_fatal_error, retry_activity}
use shar.Engine.Faults.Retried.{retry_activity-persisted}
use shar.Engine.Tasks.{complete_service_task}
use shar.Engine.Tasks.Finished.{Finished, complete_service_task-Finished}
use shar.Server.{job_retry, publish_workflow_state}
use shar.Model.{FatalError, pause}
use shar.Prelude.{true}
use shar.Tests.Data.{
  libraries, world, blank_state, pair_codec, name_expr, order_workflow, join_element,
}
use shar.Tests.Store.{memory_documented}

-- The activity t0 has started, with a job t1.
abbrev started_world : World libraries
started_world = record world {
  wf_process_instance =
      ("pi", some (record no_process_instance { process_instance_id = "pi"; workflow_id = "wf" }))
      ∷ [];
  wf_history =
      (
        history_key "pi" "t0" activity_execute,
        some (history_entry (record blank_state { vars = 1 ∷ 2 ∷ [] }) activity_execute),
      )
      ∷ [];
}

abbrev done_job : WorkflowState
done_job = record blank_state { vars = 3 ∷ 4 ∷ [] }

complete_job_processor-Concluded_example :
    Concluded libraries pair_codec name_expr started_world done_job
      (complete_job_processor libraries pair_codec name_expr done_job started_world).1
unfolding complete_job_processor Tracking.parent_id Tracking.id Tracking.pop lookup element_table
    insert output_vars
complete_job_processor-Concluded_example =
    complete_job_processor-Concluded libraries memory_documented pair_codec name_expr refl done_job
      started_world
      {w' = (complete_job_processor libraries pair_codec name_expr done_job started_world).1} refl

-- The end event of a process that the job t1 launched.
abbrev end_state : WorkflowState
end_state = record blank_state { id = "x" ∷ "t1" ∷ "pi" ∷ "e" ∷ []; element_type = "endEvent" }

end_process-twice_example :
    (launches (end_process libraries pair_codec name_expr end_state none world).1.stream
      ≡ launches world.stream + 2)
    × ((j : WorkflowState) × (load_obj libraries.kv world.job "t1" ≡ ok j))
unfolding end_process Tracking.ancestor
end_process-twice_example =
    end_process-twice libraries pair_codec name_expr end_state none world
      {w' = (end_process libraries pair_codec name_expr end_state none world).1} refl (ground arith)
      refl refl refl

-- The element catches the error 42, and goes to itself.
abbrev catching : Element
catching = record join_element {
  errors =
      record { error_id = "e1"; target = "join"; output_transform = some (("b", "a") ∷ []) } ∷ [];
}

abbrev erring_world : World libraries
erring_world = record started_world {
  wf =
      (
        "wf",
        some (record order_workflow {
          process = ("p", record { id = "p"; elements = plain catching nil }) ∷ [];
          errors = record { id = "e1"; name = "late"; code = "42" } ∷ [];
        }),
      )
      ∷ [];
}

handle_workflow_error-Caught_example :
    Caught libraries pair_codec name_expr erring_world "42"
      (3 ∷ 4 ∷ [])
      done_job
      (handle_workflow_error libraries pair_codec name_expr "42"
        (3 ∷ 4 ∷ [])
        done_job
        erring_world).1
unfolding handle_workflow_error element_table insert Tracking.id Tracking.pop output_vars
handle_workflow_error-Caught_example =
    handle_workflow_error-Caught libraries pair_codec name_expr "42" (3 ∷ 4 ∷ []) done_job
      erring_world
      {w' = (handle_workflow_error libraries pair_codec name_expr "42" (3 ∷ 4 ∷ []) done_job
        erring_world).1}
      refl

-- The activity that failed, kept and tried again with other variables.
abbrev failed : FatalError
failed = record { workflow_state = done_job; handling_strategy = pause }

abbrev kept_world : World libraries
kept_world = (persist_fatal_error libraries failed world).1

kept : persist_fatal_error libraries failed world ≡ (ok true, kept_world)
unfolding persist_fatal_error
kept = refl

retry_activity-persisted_example :
    retry_activity libraries (record done_job { vars = 7 ∷ [] }) kept_world
    ≡ (publish_workflow_state libraries job_retry (record done_job { vars = 7 ∷ [] }) >> pure tt)
        kept_world
retry_activity-persisted_example =
    retry_activity-persisted libraries memory_documented failed (record done_job { vars = 7 ∷ [] })
      world {w' = kept_world} kept refl

complete_service_task-Finished_example :
    Finished libraries pair_codec name_expr done_job
      (7 ∷ 8 ∷ [])
      started_world
      (complete_service_task libraries pair_codec name_expr done_job (7 ∷ 8 ∷ []) started_world).1
unfolding complete_service_task Tracking.parent_id lookup element_table insert
complete_service_task-Finished_example =
    complete_service_task-Finished libraries pair_codec name_expr done_job (7 ∷ 8 ∷ [])
      started_world
      {w' = (complete_service_task libraries pair_codec name_expr done_job (7 ∷ 8 ∷ [])
        started_world).1}
      refl refl
