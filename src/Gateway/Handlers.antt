-- ===== src/Gateway/Handlers.antt =====
-- The message handlers of internal/server/workflow/gateway.go. `others` is what other handlers do to
-- the bucket of gateways between this handler's read and its write.
pub mod Join
pub mod Arrival
use shar.Prelude.{
  ℕ, zero, suc, ◌+◌, String, Bool, true, false, Option, none, some, List, [], ◌∷◌, ◌++◌, ◌||◌,
  length, eqb, leb, if◌then◌else◌,
}
use shar.Prelude.Maps.{Map, lookup, insert}
use shar.Errors.{
  Err, Outcome, ok, err, panic, fatal, acked, is_key_not_found, is_execution_not_found,
  is_process_instance_not_found, make_fatal, library_error,
}
use shar.Errors.Exec.{
  Exec, pure, raise, lift, query, committed, continue, relabel, on_err, handle, ◌>>=◌, ◌>>◌,
}
use shar.Nats.{Turn, load_obj, update_obj, abandoned}
use shar.Model.{
  Element, Execution, GatewaySpec, GatewayType, exclusive, inclusive, parallel, Process,
  WorkflowState, Gateway, no_gateway, no_process_instance, ProcessInstance, nil,
  index_process_elements,
}
use shar.Vars.{Codec}
use shar.Server.{
  Libraries, World, gateway_task_execute, gateway_task_re_enter, gateway_task_await, kvs_for,
  get_workflow, has_valid_process, publish_workflow_state, complete_activity,
}
use shar.Gateway.Track.{get_gateway_instance_id}
use shar.Gateway.Merge.{merge_gateway_vars}

abbrev pub is_orphan : Err → Bool
is_orphan e = is_execution_not_found e || is_process_instance_not_found e

-- The branch that arrives: its route is met, its variables are kept, the visit is counted.
unfoldable pub arrive : String → WorkflowState → Gateway → Gateway
arrive route job g = record g {
  met_expectations = insert route "" g.met_expectations;
  vars = g.vars ++ job.vars ∷ [];
  visits = g.visits + 1;
}

-- wf.Process[id].Elements, a nil pointer where the process is absent
abbrev pub process_of : Option Process → Outcome Process
process_of none = panic
process_of (some p) = ok p

-- el.Gateway.Type, a nil pointer where the element or its gateway is absent
abbrev pub gateway_of : Option Element → Outcome GatewaySpec
gateway_of none = panic
gateway_of (some el) = elim el.gateway [ none ↦ panic | some g ↦ ok g ]

-- job.GatewayExpectations[iid].ExpectedPaths, likewise
abbrev pub expected_paths : Option (List String) → Outcome (List String)
expected_paths none = panic
expected_paths (some paths) = ok paths

-- v.GatewayComplete[gwIID] = true
abbrev pub close_gateway : String → ProcessInstance → ProcessInstance
close_gateway iid pi = record pi { gateway_complete = insert iid true pi.gateway_complete }

module _ (lib : Libraries) (codec : Codec) (others : List (Turn lib.kv Gateway)) where
  abbrev pub W : Type 0
  W = World lib

  -- common.UpdateObj on the gateway, which returns what it wrote
  unfoldable pub update_gateway : String → (Gateway → Gateway) → Exec W Gateway
  update_gateway iid fn w =
      committed (record w { wf_gateway = abandoned lib.kv w.wf_gateway iid no_gateway others })
        (λ r. record w { wf_gateway = r.0 }) (λ r. r.1)
        (update_obj lib.kv w.wf_gateway iid no_gateway (λ g. ok (fn g)) others)

  unfoldable pub update_process_instance :
      String → (ProcessInstance → ProcessInstance) → Exec W (Unit {0})
  update_process_instance id fn w =
      committed
        (record w {
          wf_process_instance = abandoned lib.kv w.wf_process_instance id no_process_instance [];
        })
        (λ r. record w { wf_process_instance = r.0 }) (λ r. tt)
        (update_obj lib.kv w.wf_process_instance id no_process_instance (λ p. ok (fn p)) [])

  unfoldable pub delete_gateway : String → Exec W (Unit {0})
  delete_gateway iid w =
      committed w (λ b. record w { wf_gateway = b }) (λ b. tt) (lib.kv.delete w.wf_gateway iid)

  -- completeGateway: the instance is closed, the activity is completed, the wait is removed.
  unfoldable pub complete_gateway : String → WorkflowState → Exec W (Unit {0})
  unfolding update_process_instance delete_gateway complete_activity
  complete_gateway iid job = do
    kvs_for lib
    update_process_instance job.process_instance_id (close_gateway iid)
    complete_activity lib job
    delete_gateway iid

  -- The variables of all branches go on with the state.
  unfoldable pub merge_and_complete : String → Gateway → WorkflowState → Exec W Bool
  unfolding complete_gateway merge_gateway_vars
  merge_and_complete iid gw job = do
    nv ← lift (make_fatal (merge_gateway_vars codec gw.vars))
    complete_gateway iid (record job { vars = nv })
    pure true

  unfoldable pub await_gateway : WorkflowState → Exec W Bool
  unfolding publish_workflow_state
  await_gateway job = do publish_workflow_state lib gateway_task_await job; pure true

  -- case inclusive, parallel
  unfoldable pub count_routes : String → Gateway → WorkflowState → Exec W Bool
  unfolding merge_and_complete await_gateway
  count_routes iid gw job = do
    expected ← lift (expected_paths (lookup iid job.gateway_expectations))
    if leb (length expected) (length gw.met_expectations)
        then merge_and_complete iid gw job
        else await_gateway job

  -- The `switch` on the type of the gateway.
  unfoldable pub decide : GatewayType → String → Gateway → WorkflowState → Exec W Bool
  unfolding count_routes
  decide exclusive iid gw job = merge_and_complete iid gw job
  decide inclusive iid gw job = count_routes iid gw job
  decide parallel iid gw job = count_routes iid gw job

  -- gatewayExecProcessor, on the message that was unmarshalled
  unfoldable pub gateway_exec_processor : Outcome WorkflowState → Exec W Bool
  unfolding has_valid_process get_workflow update_gateway decide
  gateway_exec_processor msg = do
    job ← lift msg
    on_err (λ e. if is_orphan e then acked e else e)
        (has_valid_process lib job.process_instance_id job.execution_id)
    wf ← on_err (λ e. acked (fatal e)) (get_workflow lib job.workflow_id)
    process ← lift (process_of (lookup job.process_id wf.process))
    let els = index_process_elements process.elements []
    instance_id ← lift (get_gateway_instance_id job)
    let job' = record job { execute = some instance_id.0 }
    kvs_for lib
    gw ← update_gateway instance_id.0 (arrive instance_id.1 job')
    spec ← lift (gateway_of (lookup job.element_id els))
    decide spec.kind instance_id.0 gw job'

  -- The handler of processGatewayActivation. An error of GetGatewayInstanceID is dropped, and the
  -- instance is then "".
  abbrev pub instance_or_empty : Outcome (String × String) → Outcome String
  instance_or_empty (ok r) = ok r.0
  instance_or_empty (err e) = ok ""
  instance_or_empty panic = panic

  -- `errors.Is(err, ErrKeyNotFound)` returns; another error falls through with an empty gateway.
  abbrev pub loaded_gateway : Outcome Gateway → Outcome Gateway
  loaded_gateway (ok g) = ok g
  loaded_gateway (err e) = if is_key_not_found e then err e else ok no_gateway
  loaded_gateway panic = panic

  unfoldable pub activate : WorkflowState → Exec W Bool
  unfolding publish_workflow_state
  activate job = do
    iid ← lift (instance_or_empty (get_gateway_instance_id job))
    gw ← query (λ w. loaded_gateway (load_obj lib.kv w.wf_gateway iid))
    publish_workflow_state lib
        (if eqb (length gw.vars) 1 then gateway_task_execute else gateway_task_re_enter) job
    pure true

  abbrev pub unless_orphan : Exec W Bool → Outcome (ProcessInstance × Execution) → Exec W Bool
  unless_orphan next (ok r) = next
  unless_orphan next (err e) = if is_orphan e then pure true else raise e
  unless_orphan next panic = lift panic

  unfoldable pub gateway_activate : Outcome WorkflowState → Exec W Bool
  unfolding activate has_valid_process
  gateway_activate msg = do
    kvs_for lib
    job ← lift msg
    handle (has_valid_process lib job.process_instance_id job.execution_id)
        (unless_orphan (activate job))
