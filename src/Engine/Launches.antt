-- ===== src/Engine/Launches.antt =====
-- LaunchWithParent of internal/server/workflow/operations.go: the processes of a workflow start. The
-- handlers of processLaunch, processProcessComplete and processGeneralAbort of
-- internal/server/workflow/engine.go.
use shar.Prelude.{
  String, Bool, true, false, Option, none, some, List, [], ◌∷◌, ◌==◌, ◌||◌, if◌then◌else◌,
}
use shar.Prelude.Maps.{Map, lookup}
use shar.Errors.{
  Outcome, ok, err, panic, fatal, acked, library_error, process_not_found, workflow_not_found,
  ◌>>=◌ as and_then,
}
use shar.Errors.Exec.{Exec, pure, raise, lift, query, committed, handle, on_err, ◌>>=◌, ◌>>◌}
use shar.Task.{TaskBehaviour}
use shar.Nats.{load_obj}
use shar.Model.{
  Bytes, Element, Process, Participant, Workflow, WorkflowVersion, WorkflowVersions, WorkflowState,
  Execution, element_table, no_state, no_execution, completed, terminated,
}
use shar.Vars.{Codec, Expr}
use shar.Server.{
  Libraries, World, execution_execute, execution_abort, kvs_for, not_found, get_workflow,
  get_execution, get_process_instance, has_valid_process, publish_workflow_state,
}
use shar.Linter.{top_level}
use shar.Gateway.Handlers.{process_of}
use shar.Traversal.Select.{present}
use shar.Instances.{create_execution, destroy_process_instance, x_destroy_process_instance}
use shar.Engine.{is_orphan}
use shar.Engine.Starts.{get_task_spec_by_uid}
use shar.Engine.Launch.{launch_process}

-- wfv.Version[len(wfv.Version)-1].Id
abbrev pub last_version : List WorkflowVersion → Outcome String
last_version [] = panic
last_version (v ∷ []) = ok v.id
last_version (v ∷ w ∷ vs) = last_version (w ∷ vs)

abbrev pub is_deprecated : Option TaskBehaviour → Bool
is_deprecated none = false
is_deprecated (some behaviour) = behaviour.deprecated

-- A participant whose process is not there; the error that the code wraps is nil.
abbrev pub located_process : Option Process → Outcome Process
located_process none = err library_error
located_process (some pr) = ok pr

-- The loop over the participants: whether the process is one, and the processes of all.
abbrev pub collaborating : String → Map Process → List Participant → Outcome (Bool × List Process)
collaborating process_id processes [] = ok (false, [])
collaborating process_id processes (i ∷ is) =
    and_then (located_process (lookup i.process_id processes)) (λ pr.
      and_then (collaborating process_id processes is)
        (λ rest. ok ((i.process_id == process_id || rest.0), pr ∷ rest.1)))

abbrev pub launch_processes : String → Workflow → Outcome (List Process)
launch_processes process_id wf = and_then (present wf.collaboration) (λ participants.
    and_then (collaborating process_id wf.process participants) (λ collab.
      if collab.0
      then ok collab.1
      else and_then (located_process (lookup process_id wf.process)) (λ pr. ok (pr ∷ []))))

module _ (lib : Libraries) where
  abbrev pub W : Type 0
  W = World lib

  -- getWorkflowNameFor. The value is read as text.
  unfoldable pub get_workflow_name_for : String → Exec W String
  unfolding load_obj
  get_workflow_name_for process_id = do
    kvs_for lib
    query (λ w. not_found process_not_found (load_obj lib.kv w.wf_process process_id))

  unfoldable pub get_workflow_versions : String → Exec W WorkflowVersions
  unfolding load_obj
  get_workflow_versions workflow_name = do
    kvs_for lib
    query (λ w. not_found workflow_not_found (load_obj lib.kv w.wf_version workflow_name))

  -- PublishMsg of the notice that a workflow is disabled
  abbrev pub publish_disabled : String → Exec W (Unit {0})
  publish_disabled workflow_name w =
      committed w (λ s. record w { stream = s }) (λ s. tt)
        (lib.publish_disabled w.stream w.now workflow_name)

  abbrev pub check_task : Bool → Element → Exec W (Unit {0})
  check_task false el = pure tt
  check_task true el = do
    version ← lift (present el.version)
    st ← get_task_spec_by_uid lib version
    if is_deprecated st.behaviour then raise library_error else pure tt

  abbrev pub check_tasks : List Element → Exec W (Unit {0})
  check_tasks [] = pure tt
  check_tasks (el ∷ els) = do check_task (el.kind == "serviceTask") el; check_tasks els

  -- checkProcessTaskDeprecation
  unfoldable pub check_process_task_deprecation : Workflow → String → Exec W (Unit {0})
  unfolding get_task_spec_by_uid
  check_process_task_deprecation wf process_id = do
    pr ← lift (process_of (lookup process_id wf.process))
    check_tasks (top_level pr.elements)

  -- rollBackLaunch: its error is only logged.
  unfoldable pub roll_back_launch : Execution → Exec W (Unit {0})
  unfolding publish_workflow_state
  roll_back_launch e =
      handle
        (publish_workflow_state lib execution_abort (record no_state {
          id = e.execution_id ∷ [];
          execution_id = e.execution_id;
          workflow_name = e.workflow_name;
          workflow_id = e.workflow_id;
          state = terminated;
        }))
        (λ r. pure tt)

  -- The parameters of the launch that all its parts share.
  module _ (ensure_bucket : String → Outcome (Unit {0})) (codec : Codec) (expr : Expr)
      (process_id : String) (id : List String) (vrs : Bytes) (parent_pi parent_el : String) where
    abbrev pub launch_each : String → String → String → Bytes → List Process → Exec W (Unit {0})
    launch_each workflow_name wf_id execution_id headers [] = pure tt
    launch_each workflow_name wf_id execution_id headers (pr ∷ prs) = do
      launch_process lib id pr workflow_name wf_id execution_id vrs codec expr parent_pi parent_el
          headers
      launch_each workflow_name wf_id execution_id headers prs

    -- From the collaboration to the end. An error here is not a `reterr`: nothing is rolled back.
    unfoldable pub launch_all :
        String → String → Workflow → Bytes → String → Exec W (String × String)
    unfolding launch_process
    launch_all workflow_name wf_id wf headers execution_id = do
      prs ← lift (launch_processes process_id wf)
      launch_each workflow_name wf_id execution_id headers prs
      pure (execution_id, wf_id)

    -- After the start of the execution was published, or was not
    abbrev pub announced :
        Execution → Exec W (String × String) → Outcome WorkflowState → Exec W (String × String)
    announced e rest (ok state) = rest
    announced e rest (err x) = do roll_back_launch e; raise x
    announced e rest panic = lift panic

    unfoldable pub launch_execution : Bytes → String → String → Workflow → Exec W (String × String)
    unfolding create_execution publish_workflow_state launch_all roll_back_launch
    launch_execution headers workflow_name wf_id wf = do
      e ←
          create_execution lib ensure_bucket
            (record no_execution { workflow_id = wf_id; workflow_name = wf.name })
      handle
          (publish_workflow_state lib execution_execute (record no_state {
            execution_id = e.execution_id;
            workflow_id = wf_id;
            workflow_name = workflow_name;
            vars = vrs;
            id = e.execution_id ∷ [];
          }))
          (announced e (launch_all workflow_name wf_id wf headers e.execution_id))

    unfoldable pub launch_child : String → String → Workflow → Exec W (String × String)
    unfolding get_process_instance get_execution launch_all
    launch_child workflow_name wf_id wf = do
      pi ← get_process_instance lib parent_pi
      e ← get_execution lib pi.execution_id
      launch_all workflow_name wf_id wf pi.headers e.execution_id

    abbrev pub launch_version : Bytes → String → WorkflowVersions → Exec W (String × String)
    launch_version headers workflow_name wfv = do
      wf_id ← lift (last_version wfv.version)
      wf ← get_workflow lib wf_id
      check_process_task_deprecation wf process_id
      if parent_pi == ""
          then launch_execution headers workflow_name wf_id wf
          else launch_child workflow_name wf_id wf

    -- Where the versions cannot be read the code follows a nil pointer before it looks at the error.
    abbrev pub found_versions : Bytes → String → Outcome WorkflowVersions → Exec W (String × String)
    found_versions headers workflow_name (ok wfv) =
        if wfv.is_execution_disabled
        then (do publish_disabled workflow_name; raise library_error)
        else launch_version headers workflow_name wfv
    found_versions headers workflow_name (err e) = lift panic
    found_versions headers workflow_name panic = lift panic

    -- LaunchWithParent
    unfoldable pub launch_with_parent : Bytes → Exec W (String × String)
    unfolding get_workflow_name_for get_workflow_versions get_workflow
        check_process_task_deprecation launch_execution launch_child
    launch_with_parent headers = do
      workflow_name ← get_workflow_name_for process_id
      handle (get_workflow_versions workflow_name) (found_versions headers workflow_name)

    -- launchProcessor, for the process that the element names
    abbrev pub launched_by : Outcome (String × String) → Exec W (Unit {0})
    launched_by (ok ids) = pure tt
    launched_by (err e) = raise (fatal e)
    launched_by panic = lift panic

  module _ (ensure_bucket : String → Outcome (Unit {0})) (codec : Codec) (expr : Expr) where
    unfoldable pub launch_processor : WorkflowState → Exec W (Unit {0})
    unfolding get_workflow get_process_instance launch_with_parent
    launch_processor state = do
      wf ← on_err (λ e. fatal workflow_not_found) (get_workflow lib state.workflow_id)
      pi ← get_process_instance lib state.process_instance_id
      el ← lift (present (lookup state.element_id (element_table wf)))
      handle
          (launch_with_parent ensure_bucket codec expr el.execute state.id state.vars
            state.process_instance_id state.element_id pi.headers)
          (launched_by ensure_bucket codec expr el.execute state.id state.vars
            state.process_instance_id state.element_id)

    -- The handler of processLaunch
    unfoldable pub process_launch : Outcome WorkflowState → Exec W Bool
    unfolding has_valid_process launch_processor
    process_launch msg = do
      job ← lift msg
      on_err (λ e. if is_orphan e then acked e else e)
          (has_valid_process lib job.process_instance_id job.execution_id)
      launch_processor job
      pure true

  -- The handler of processProcessComplete
  unfoldable pub process_process_complete : Outcome WorkflowState → Exec W Bool
  unfolding has_valid_process destroy_process_instance
  process_process_complete msg = do
    state ← lift msg
    valid ←
        on_err (λ e. if is_orphan e then acked e else e)
          (has_valid_process lib state.process_instance_id state.execution_id)
    destroy_process_instance lib (record state { state = completed }) valid.0.process_instance_id
        valid.1.execution_id
    pure true

  -- The handler of processGeneralAbort; `aborts` is the test on the subject. The copy of the state that
  -- is marked as terminated is not the one that is sent on.
  unfoldable pub process_general_abort : Bool → Outcome WorkflowState → Exec W Bool
  unfolding x_destroy_process_instance
  process_general_abort aborts msg = do
    state ← lift msg
    if aborts then (do x_destroy_process_instance lib state; pure true) else pure true
