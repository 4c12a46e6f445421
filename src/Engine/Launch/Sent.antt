-- ===== src/Engine/Launch/Sent.antt =====
-- launchProcess of internal/server/workflow/operations.go: what a launch sends and stores.
use shar.Prelude.{ℕ, suc, ◌≡◌, String, List, [], ◌∷◌, ◌++◌}
use shar.Errors.{ok}
use shar.Errors.Exec.{Exec}
use shar.Tracking
use shar.Nats.{Documented, load_obj}
use shar.Model.{Bytes, Element, Process, ProcessInstance, WorkflowState, no_state}
use shar.Server.{Libraries, World, Subject, process_execute_subject, traversal_execute}
use shar.Linter.{top_level}
use shar.Engine.Launch.{start_elements}

module _ (lib : Libraries) (id : List String) (pr : Process)
    (workflow_name wf_id execution_id : String) (vrs : Bytes) where
  -- The state of a start element, with the identifier that is `n`-th to be handed out.
  abbrev pub entered : ℕ → String → Element → WorkflowState
  entered n pid el = record no_state {
    workflow_id = wf_id;
    workflow_name = workflow_name;
    execution_id = execution_id;
    process_id = pr.id;
    process_instance_id = pid;
    element_id = el.id;
    element_type = el.kind;
    element_name = el.name;
    id = Tracking.push (Tracking.push id pid) (lib.ksuid n);
    vars = vrs;
  }

  abbrev pub process_state : ℕ → String → Element → WorkflowState
  process_state n pid el = record (entered n pid el) {
    id = Tracking.push (Tracking.push id execution_id) pid;
  }

  -- For each start element, that the process runs and the traversal to the element.
  abbrev pub starting : ℕ → ℕ → String → List Element → List (Subject × WorkflowState)
  starting n now pid [] = []
  starting n now pid (el ∷ els) =
      (process_execute_subject, record (process_state n pid el) { unix_time_nano = now })
      ∷ (traversal_execute, record (entered n pid el) { unix_time_nano = now })
      ∷ starting (suc n) now pid els

-- The process instance of a process that was launched, and what was sent for its start elements.
pub record Entered (lib : Libraries) (id : List String) (pr : Process)
    (workflow_name wf_id execution_id : String) (vrs : Bytes) (w w' : World lib) : Type 0 where
  pub pi : ProcessInstance
  pub new : pi.process_instance_id ≡ lib.ksuid w.next_id
  pub of : (pi.process_id ≡ pr.id) × (pi.execution_id ≡ execution_id)
  pub stored : load_obj lib.kv w'.wf_process_instance pi.process_instance_id ≡ ok pi
  pub sent :
      lib.published w'.stream
      ≡ lib.published w.stream
        ++ starting lib id pr workflow_name wf_id execution_id vrs
            (suc w.next_id)
            w.now
            pi.process_instance_id
            (start_elements (top_level pr.elements))

module _ (lib : Libraries) (id : List String) (pr : Process)
    (workflow_name wf_id execution_id : String) (vrs : Bytes) where
  module _ (doc : Documented lib.kv) where
    -- the names above, at the parameters of the section
    abbrev starting_all : ℕ → ℕ → String → List Element → List (Subject × WorkflowState)
    starting_all = starting lib id pr workflow_name wf_id execution_id vrs
