-- ===== src/Engine/Starts.antt =====
-- startJob and createJob of internal/server/workflow/operations.go, with the branch of
-- PublishWorkflowState for user tasks, and GetTaskSpecByUID of taskspec.go: a job becomes ready.
pub mod Prepared
pub mod Given
pub mod Started
use shar.Prelude.{
  ℕ, String, Bool, true, false, Option, none, some, List, [], ◌∷◌, ◌++◌, ◌==◌, if◌then◌else◌,
}
use shar.Prelude.Maps.{Map}
use shar.Errors.{Outcome, ok, err, panic, fatal, make_fatal, ◌>>=◌ as and_then}
use shar.Errors.Exec.{Exec, pure, lift, query, committed, on_err, ◌>>=◌, ◌>>◌}
use shar.Tracking
use shar.Task.{TaskSpec, TaskBehaviour}
use shar.Nats.{load_obj, save_obj}
use shar.Model.{Bytes, Element, Iteration, WorkflowState, job_execute}
use shar.Vars.{Codec, Expr, Value, decode, input_vars}
use shar.UserTasks.{open_user_task}
use shar.Server.{
  Libraries, World, Subject, user_task_execute, kvs_for, publish_workflow_state, record_history,
}
use shar.Traversal.Select.{present}
use shar.Traversal.Send.{fresh_id}
use shar.Engine.Owners.{evaluate_owners}
use shar.Engine.Tasks.{in_user_tasks}

abbrev pub is_user_task : Subject → Bool
is_user_task user_task_execute = true
is_user_task _ = false

abbrev pub is_none : Option Iteration → Bool
is_none none = true
is_none (some i) = false

-- def.Behaviour != nil && def.Behaviour.Mock
abbrev pub mocked : Option TaskBehaviour → Bool
mocked none = false
mocked (some behaviour) = behaviour.mock

abbrev pub versioned : Element → WorkflowState → WorkflowState
versioned el job = elim el.version [
  | none ↦ record job { execute = some el.execute }
  | some v ↦ record job { execute = some el.execute; execute_version = v }
]

module _ (lib : Libraries) where
  abbrev pub W : Type 0
  W = World lib

  unfoldable pub save_job : String → WorkflowState → Exec W (Unit {0})
  unfolding save_obj
  save_job id job w =
      committed w (λ b. record w { job = b }) (λ b. tt) (save_obj lib.kv w.job id job)

  -- createJob: the identifier of the job is the last of its state's, which the caller's state keeps.
  unfoldable pub create_job : WorkflowState → Exec W WorkflowState
  unfolding fresh_id save_job
  create_job job = do
    kvs_for lib
    tid ← fresh_id lib
    let job' = record job { id = Tracking.push job.id tid }
    save_job tid job'
    pure job'

  -- GetTaskSpecByUID
  unfoldable pub get_task_spec_by_uid : String → Exec W TaskSpec
  unfolding load_obj
  get_task_spec_by_uid uid = do kvs_for lib; query (λ w. load_obj lib.kv w.wf_task_spec uid)

  -- The job of a service task whose specification is a mock goes to another subject.
  abbrev pub is_mock : Element → Exec W Bool
  is_mock el = do
    version ← lift (present el.version)
    def ← get_task_spec_by_uid version
    pure (mocked def.behaviour)

  module _ (codec : Codec) (expr : Expr) (strings : ℕ → Option (List String)) where
    -- for _, i := range append(state.Owners, state.Groups...)
    unfoldable pub open_each : String → List String → Exec W (Unit {0})
    unfolding open_user_task
    open_each id [] = pure tt
    open_each id (owner ∷ owners) = do
      (λ w. in_user_tasks lib codec expr (open_user_task lib.kv lib.kvs_for owner id) w)
      open_each id owners

    abbrev pub open_if : Bool → WorkflowState → Exec W (Unit {0})
    open_if true job = open_each (Tracking.id job.id) (job.owners ++ job.groups)
    open_if false job = pure tt

    -- PublishWorkflowState, with what it does for a user task
    unfoldable pub publish_job : Subject → WorkflowState → Exec W WorkflowState
    unfolding publish_workflow_state open_each
    publish_job subject job = do
      job' ← publish_workflow_state lib subject job
      open_if (is_user_task subject) job'
      pure job'

    abbrev pub transformed : Bool → Element → Bytes → WorkflowState → Outcome WorkflowState
    transformed true el v job = ok job
    transformed false el v job =
        and_then (make_fatal (input_vars codec expr v [] el))
          (λ vars. ok (record job { vars = vars }))

    -- Who can perform a user task
    unfoldable pub with_owners : Element → Bytes → WorkflowState → Exec W WorkflowState
    unfolding decode evaluate_owners
    with_owners el v job = do
      vx ← lift (make_fatal (decode codec v))
      owners ← on_err fatal (evaluate_owners lib expr strings el.candidates vx)
      groups ← on_err fatal (evaluate_owners lib expr strings el.candidate_groups vx)
      pure (record job { owners = owners; groups = groups })

    abbrev pub owned_if : Bool → Element → Bytes → WorkflowState → Exec W WorkflowState
    owned_if true el v job = with_owners el v job
    owned_if false el v job = pure job

    abbrev pub mock_if : Bool → Element → Exec W Bool
    mock_if true el = is_mock el
    mock_if false el = pure false

    -- A multi-instance element does not start here.
    abbrev pub ready_if : Bool → Subject → WorkflowState → Exec W WorkflowState
    ready_if true subject job = do
      job' ← publish_job subject job
      record_history lib job' job_execute
      pure job'
    ready_if false subject job = pure job

    -- startJob. `subject` gives the subject with or without the suffix ".Mock"; the result is the
    -- caller's state, which startJob changes.
    unfoldable pub start_job :
        (Bool → Subject) → WorkflowState → Element → Bytes → Exec W WorkflowState
    unfolding input_vars with_owners get_task_spec_by_uid create_job publish_job record_history
    start_job subject job el v = do
      job1 ← lift (transformed (el.kind == "messageIntermediateCatchEvent") el v (versioned el job))
      job2 ← owned_if (el.kind == "userTask") el v job1
      mock ← mock_if (el.kind == "serviceTask") el
      job3 ← create_job job2
      ready_if (is_none el.iteration) (subject mock) job3
