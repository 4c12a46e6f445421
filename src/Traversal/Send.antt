-- ===== src/Traversal/Send.antt =====
-- The second half of `traverse` in internal/server/workflow/engine.go: a state is sent along each
-- flow that is taken.
use Prim.Native.String.{◌++◌ as str_append}
use shar.Prelude.{ℕ, suc, String, Bool, true, false, Option, none, some, List, [], ◌∷◌, ◌++◌}
use shar.Prelude.Maps.{Map, lookup, insert, keys}
use shar.Errors.{ok, fatal}
use shar.Errors.Exec.{Exec, pure, lift, committed, on_err, ◌>>=◌, ◌>>◌}
use shar.Tracking
use shar.Nats.{save_obj}
use shar.Model.{Element, Gateway, GatewaySpec, Targets, WorkflowState, index_process_elements}
use shar.Vars.{Codec, Expr}
use shar.Server.{Libraries, World, traversal_execute, kvs_for, get_workflow, publish_workflow_state}
use shar.Gateway.Track.{track}
use shar.Gateway.Handlers.{process_of}
use shar.Traversal.Select.{present, reciprocated, solitary, choose}

abbrev pub entries_of : Option (List String) → List String
entries_of none = []
entries_of (some l) = l

-- One more entry under the join's identifier.
abbrev pub expect : String → String → Map (List String) → Map (List String)
expect join entry m = insert join (entries_of (lookup join m) ++ entry ∷ []) m

abbrev pub expect_if : Bool → String → String → Map (List String) → Map (List String)
expect_if true join entry m = expect join entry m
expect_if false join entry m = m

-- What one branch carries: `fork` is the join's identifier and the instance at a reciprocated gateway.
abbrev pub expect_fork : Option (String × String) → String → Map (List String) → Map (List String)
expect_fork none branch m = m
expect_fork (some (join, iid)) branch m = expect join (track iid branch) m

unfoldable pub branch_message :
    WorkflowState
    → List String
    → Element
    → String
    → Bool
    → Option (String × String)
    → String
    → WorkflowState
branch_message state id target name alone fork branch = record state {
  id = id;
  element_type = target.kind;
  element_id = target.id;
  element_name = name;
  satisfies_gateway_expectation =
      expect_fork fork branch
        (expect_if alone target.id (str_append "-," branch) state.satisfies_gateway_expectation);
}

abbrev pub join_of : Option GatewaySpec → String
join_of none = ""
join_of (some g) = g.reciprocal_id

abbrev pub left_behind : WorkflowState → WorkflowState
left_behind state = record state {
  previous_activity = Tracking.id state.id;
  previous_element = state.element_id;
}

module _ (lib : Libraries) where
  abbrev pub W : Type 0
  W = World lib

  -- ksuid.New().String()
  unfoldable pub fresh_id : Exec W String
  fresh_id w = (ok (lib.ksuid w.next_id), record w { next_id = suc w.next_id })

  unfoldable pub save_gateway : String → Gateway → Exec W (Unit {0})
  unfolding save_obj
  save_gateway iid gw w =
      committed w (λ b. record w { wf_gateway = b }) (λ b. tt) (save_obj lib.kv w.wf_gateway iid gw)

  -- The target of a flow, its name, and whether it is a join that no fork names.
  unfoldable pub read_target :
      WorkflowState → Map Element → String → Exec W (Element × String × Bool)
  unfolding get_workflow solitary
  read_target state el el_id = do
    target ← lift (present (lookup el_id el))
    wf ← on_err fatal (get_workflow lib state.workflow_id)
    process ← lift (process_of (lookup state.process_id wf.process))
    named ← lift (present (lookup target.id (index_process_elements process.elements [])))
    alone ← lift (solitary target)
    pure (target, named.name, alone)

  unfoldable pub send_branch :
      WorkflowState
      → List String
      → Map Element
      → Option (String × String)
      → String
      → String
      → Exec W (Unit {0})
  unfolding read_target publish_workflow_state branch_message
  send_branch state tracking_id el fork branch el_id = do
    new_id ← fresh_id
    t ← read_target state el el_id
    publish_workflow_state lib traversal_execute
        (branch_message state (Tracking.push tracking_id new_id) t.0 t.1 t.2 fork branch)
    pure tt

  -- for branchID, elID := range targets, in the order of `targets`
  unfoldable pub send_branches :
      WorkflowState
      → List String
      → Map Element
      → Option (String × String)
      → Map String
      → Exec W (Unit {0})
  unfolding send_branch
  send_branches state tracking_id el fork [] = pure tt
  send_branches state tracking_id el fork ((branch, el_id) ∷ rest) = do
    send_branch state tracking_id el fork branch el_id
    send_branches state tracking_id el fork rest

  -- The branches are announced to the join, in the order of `targets`; its first variables are the
  -- state's.
  unfoldable pub announce : WorkflowState → String → Map String → Exec W WorkflowState
  unfolding save_gateway
  announce state iid targets = do
    kvs_for lib
    save_gateway iid (record { met_expectations = []; vars = state.vars ∷ []; visits = 0 })
    pure (record state {
      gateway_expectations = insert iid (keys targets) state.gateway_expectations;
    })

  -- What follows a range over the flows runs in the order of the moment.
  abbrev pub ranged :
      {A : Type 0} → (ℕ → Map String → Map String) → (Map String → Exec W A) → Map String → Exec W A
  ranged order loop targets w = loop (order w.next_id targets) w

  abbrev pub send_from :
      Bool
      → WorkflowState
      → List String
      → Map Element
      → String
      → String
      → Map String
      → Exec W (Unit {0})
  send_from true state tracking_id el join iid targets = do
    announced ← ranged lib.range_names (announce state iid) targets
    ranged lib.range_sent (send_branches announced tracking_id el (some (join, iid))) targets
  send_from false state tracking_id el join iid targets =
      ranged lib.range_sent (send_branches state tracking_id el none) targets

  unfoldable pub traverse :
      Codec → Expr → List String → Option Targets → Map Element → WorkflowState → Exec W (Unit {0})
  unfolding choose reciprocated announce send_branches
  traverse codec expr tracking_id none el state = pure tt
  traverse codec expr tracking_id (some outbound) el state = do
    targets ← lift (choose codec expr state.vars outbound)
    elem ← lift (present (lookup state.element_id el))
    forks ← lift (reciprocated elem)
    iid ← fresh_id
    send_from forks (left_behind state) tracking_id el (join_of elem.gateway) iid targets
