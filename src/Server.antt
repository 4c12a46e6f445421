-- ===== src/Server.antt =====
-- What the engine's handlers stand on: the buckets and the stream of the server, which are NATS's,
-- the codec of variables and the expression engine, which are libraries' (the record `Libraries`), and
-- the operations of internal/server/workflow/operations.go and history.go that the handlers share.
pub mod Published
pub mod Reads
use Prim.Native.String.{◌++◌ as str_append}
use shar.Prelude.{
  ℕ, zero, suc, ◌+◌, String, ◌≡◌, Bool, true, false, Option, none, some, List, [], ◌∷◌, ◌++◌, ◌==◌,
  if◌then◌else◌,
}
use mathlib.Core.List.{Perm}
use shar.Prelude.Maps.{Map}
use shar.Errors.{
  Err, Outcome, ok, err, panic, fatal, make_fatal, is_key_not_found, workflow_not_found,
  execution_not_found, process_instance_not_found, job_not_found,
}
use shar.Errors.Exec.{Exec, pure, raise, lift, query, committed, continue, ◌>>=◌, ◌>>◌}
use shar.Tracking
use shar.Nats.{KeyValue, Documented, Turn, load_obj, save_obj, update_obj}
use shar.Task.{TaskSpec}
use shar.Model.{
  Bytes, FatalError, Workflow, WorkflowVersions, WorkflowState, Execution, ProcessInstance, Gateway,
  Exchange, MessageReceiver, ProcessHistoryType, ProcessHistoryEntry, drop_state_params,
  process_execute, activity_execute, activity_complete, process_spawn_sync, process_complete,
  process_abort, activity_abort, job_abort, job_execute, job_complete, compensation_checkpoint,
}

-- server/messages/messages.go: the subjects that the modelled handlers publish on.
pub data Subject : Type 0 where
  traversal_execute activity_complete_subject : Subject
  gateway_task_activate gateway_task_execute gateway_task_re_enter gateway_task_await : Subject
  await_message_complete process_compensate process_complete_subject : Subject
  process_terminated execution_complete execution_terminated : Subject
  job_launch_complete activity_abort_subject job_retry : Subject
  service_task_abort service_task_complete user_task_complete : Subject
  manual_task_complete send_message_complete : Subject
  -- of a version of a task, which may be a mock
  service_task_execute : String → Bool → Subject
  -- of a message of a workflow
  send_message_execute : String → Subject
  execution_execute execution_abort process_execute_subject : Subject
  user_task_execute manual_task_execute launch_execute await_message_execute : Subject

pub record Libraries : Type 1 where
  pub kv : KeyValue
  -- the stream WORKFLOW, and what has been published on it
  pub Stream : Type 0
  pub publish : Stream → Subject → WorkflowState → Outcome Stream
  pub published : Stream → List (Subject × WorkflowState)
  pub published-publish :
      (s s' : Stream) (subject : Subject) (state : WorkflowState)
      → publish s subject state ≡ ok s'
      → published s' ≡ published s ++ (subject, state) ∷ []
  -- the notice that a workflow is disabled, at a time and for a name
  pub publish_disabled : Stream → ℕ → String → Outcome Stream
  -- ksuid.New().String()
  pub ksuid : ℕ → String
  -- The order in which Go ranges over the taken flows of a traversal, in the loop that lists their
  -- names and in the loop that sends. Go leaves it open, so that each may depend on the moment, for which
  -- the count of identifiers stands.
  pub range_names : ℕ → Map String → Map String
  pub range_sent : ℕ → Map String → Map String
  pub range_names-Perm : (n : ℕ) (m : Map String) → Perm (range_names n m) m
  pub range_sent-Perm : (n : ℕ) (m : Map String) → Perm (range_sent n m) m
  -- natz.KvsFor opens the buckets of the namespace
  pub kvs_for : Outcome (Unit {0})

pub record World (lib : Libraries) : Type 0 where
  pub wf : lib.kv.Bucket Workflow
  pub wf_execution : lib.kv.Bucket Execution
  pub wf_process_instance : lib.kv.Bucket ProcessInstance
  pub wf_gateway : lib.kv.Bucket Gateway
  pub wf_history : lib.kv.Bucket ProcessHistoryEntry
  pub wf_messages : lib.kv.Bucket Exchange
  pub wf_msg_types : lib.kv.Bucket (List MessageReceiver)
  pub job : lib.kv.Bucket WorkflowState
  pub wf_tracking : lib.kv.Bucket WorkflowState
  pub wf_user_tasks : lib.kv.Bucket (List String)
  pub wf_fatal_error : lib.kv.Bucket FatalError
  pub wf_process : lib.kv.Bucket String
  pub wf_version : lib.kv.Bucket WorkflowVersions
  pub wf_task_spec : lib.kv.Bucket TaskSpec
  pub owner_id : lib.kv.Bucket String
  pub owner_name : lib.kv.Bucket String
  pub stream : lib.Stream
  -- the clock, read by time.Now().UnixNano(), and the number of identifiers handed out
  pub now : ℕ
  pub next_id : ℕ

abbrev pub not_found : {A : Type 0} → Err → Outcome A → Outcome A
not_found e (ok a) = ok a
not_found e (err x) = if is_key_not_found x then err e else err x
not_found e panic = panic

abbrev pub type_code : ProcessHistoryType → String
type_code process_execute = "0"
type_code activity_execute = "1"
type_code activity_complete = "2"
type_code process_spawn_sync = "3"
type_code process_complete = "4"
type_code process_abort = "5"
type_code activity_abort = "6"
type_code job_abort = "7"
type_code job_execute = "8"
type_code job_complete = "9"
type_code compensation_checkpoint = "10"

-- "<process instance>.<tracking id>.<type>"
abbrev pub history_key : String → String → ProcessHistoryType → String
history_key process_instance_id tracking_id history_type =
    str_append process_instance_id
      (str_append "." (str_append tracking_id (str_append "." (type_code history_type))))

abbrev pub history_entry : WorkflowState → ProcessHistoryType → ProcessHistoryEntry
history_entry state history_type = record {
  item_type = history_type;
  id = state.id;
  workflow_id = state.workflow_id;
  execution_id = state.execution_id;
  element_id = state.element_id;
  element_name = state.element_name;
  process_instance_id = state.process_instance_id;
  cancellation_state = state.state;
  vars = state.vars;
  error = state.error;
  unix_time_nano = state.unix_time_nano;
  execute = state.execute;
  process_id = state.process_id;
  compensating = false;
  satisfies_gateway_expectation = state.satisfies_gateway_expectation;
  gateway_expectations = state.gateway_expectations;
  workflow_name = state.workflow_name;
  previous_activity = state.previous_activity;
  previous_element = state.previous_element;
}

module _ (lib : Libraries) where
  abbrev pub W : Type 0
  W = World lib

  abbrev pub kvs_for : Exec W (Unit {0})
  kvs_for = lift lib.kvs_for

  unfoldable pub get_workflow : String → Exec W Workflow
  unfolding load_obj
  get_workflow workflow_id = do
    kvs_for
    query (λ w. not_found workflow_not_found (load_obj lib.kv w.wf workflow_id))

  unfoldable pub get_execution : String → Exec W Execution
  unfolding load_obj
  get_execution execution_id = do
    kvs_for
    query (λ w. not_found execution_not_found (load_obj lib.kv w.wf_execution execution_id))

  unfoldable pub get_process_instance : String → Exec W ProcessInstance
  unfolding load_obj
  get_process_instance process_instance_id = do
    kvs_for
    query (λ w.
        not_found process_instance_not_found
          (load_obj lib.kv w.wf_process_instance process_instance_id))

  unfoldable pub get_job : String → Exec W WorkflowState
  unfolding load_obj
  get_job tracking_id = do
    kvs_for
    query (λ w. not_found job_not_found (load_obj lib.kv w.job tracking_id))

  unfoldable pub has_valid_process : String → String → Exec W (ProcessInstance × Execution)
  unfolding get_execution get_process_instance
  has_valid_process process_instance_id execution_id = do
    execution ← get_execution execution_id
    pi ← get_process_instance process_instance_id
    pure (pi, execution)

  -- The message carries the state with its new time, which the caller's state keeps.
  unfoldable pub publish_workflow_state : Subject → WorkflowState → Exec W WorkflowState
  publish_workflow_state subject state w =
      let state' = record state { unix_time_nano = w.now } in
      committed w (λ s. record w { stream = s }) (λ s. state') (lib.publish w.stream subject state')

  unfoldable pub save_history : String → ProcessHistoryEntry → Exec W (Unit {0})
  unfolding save_obj
  save_history key entry w =
      committed w (λ b. record w { wf_history = b }) (λ b. tt)
        (make_fatal (save_obj lib.kv w.wf_history key entry))

  -- RecordHistory
  unfoldable pub record_history : WorkflowState → ProcessHistoryType → Exec W (Unit {0})
  unfolding save_history
  record_history state history_type = do
    kvs_for
    save_history (history_key state.process_instance_id (Tracking.id state.id) history_type)
        (history_entry state history_type)

  -- GetProcessHistoryItem
  unfoldable pub get_process_history_item :
      String → String → ProcessHistoryType → Exec W ProcessHistoryEntry
  unfolding load_obj
  get_process_history_item process_instance_id tracking_id history_type = do
    kvs_for
    query (λ w.
        load_obj lib.kv w.wf_history (history_key process_instance_id tracking_id history_type))

  -- completeActivity of engine.go: the parameters that may not cross a transition are dropped first.
  unfoldable pub complete_activity : WorkflowState → Exec W WorkflowState
  unfolding publish_workflow_state record_history drop_state_params
  complete_activity state = do
    state' ← publish_workflow_state activity_complete_subject (drop_state_params state)
    record_history state' activity_complete
    pure state'
