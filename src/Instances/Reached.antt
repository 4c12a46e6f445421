-- ===== src/Instances/Reached.antt =====
-- The life of executions and process instances in internal/server/workflow/operations.go: after any
-- calls, an execution lists the process instances that are stored for it.
use shar.Prelude.{◌≡◌, sym, subst, String}
use shar.Errors.{Outcome, ok, err, panic}
use shar.Errors.Triple.{After}
use shar.Nats.{Documented}
use shar.Model.{Bytes, Execution, ProcessInstance, WorkflowState}
use shar.Server.{Libraries, World}
use shar.Instances.{create_execution, create_process_instance, destroy_process_instance}
use shar.Instances.Linked.{Linked}
use shar.Instances.Kept.{AllLinked, Belongs, Fresh, destroy-Keeps}
use shar.Instances.Created.{create_process_instance-Keeps, create_execution-Keeps}

module _ (lib : Libraries) where
  -- One call, with any outcome. Another handler of the server may change what is not an execution or a
  -- process instance.
  pub data Call (w : World lib) : World lib → Type 0 where
    create_execution_call :
        {w' : World lib} (ensure_bucket : String → Outcome (Unit {0})) (execution : Execution)
        (r : Outcome Execution)
        → create_execution lib ensure_bucket execution w ≡ (r, w')
        → Call w w'
    create_process_instance_call :
        {w' : World lib} (eid parent parent_el process_id name workflow_id : String)
        (headers : Bytes) (r : Outcome ProcessInstance)
        → Fresh lib w
        → create_process_instance lib eid parent parent_el process_id name workflow_id headers w
          ≡ (r, w')
        → Call w w'
    destroy_process_instance_call :
        {w' : World lib} (state : WorkflowState) (pid eid : String) (r : Outcome WorkflowState)
        → Belongs lib pid eid w
        → destroy_process_instance lib state pid eid w ≡ (r, w')
        → Call w w'
    other_call :
        {w' : World lib}
        → w'.wf_execution ≡ w.wf_execution
        → w'.wf_process_instance ≡ w.wf_process_instance
        → Call w w'

  pub data Reach (w : World lib) : World lib → Type 0 where
    here : Reach w w
    next : {v u : World lib} → Reach w v → Call v u → Reach w u

  module _ (doc : Documented lib.kv) where
    ended :
        {A : Type 0} (r : Outcome A) (w : World lib)
        → After (λ _. AllLinked lib) (AllLinked lib) (r, w)
        → AllLinked lib w
    ended (ok a) w l = l
    ended (err e) w l = l
    ended panic w l = l

    Call-Linked : {v u : World lib} → Call v u → AllLinked lib v → AllLinked lib u
    Call-Linked {v} {u} (create_execution_call ensure_bucket execution r e) l = ended r u (
        subst (After (λ _. AllLinked lib) (AllLinked lib)) e
          ((create_execution-Keeps lib doc ensure_bucket execution).run v l))
    Call-Linked {v} {u}
          (create_process_instance_call eid parent parent_el process_id name workflow_id headers r f
            e)
          l =
        ended r u (
          subst (After (λ _. AllLinked lib) (AllLinked lib)) e (
            (create_process_instance-Keeps lib doc eid parent parent_el process_id name workflow_id
                headers).run
              v (l, f)))
    Call-Linked {v} {u} (destroy_process_instance_call state pid eid r b e) l = ended r u (
        subst (After (λ _. AllLinked lib) (AllLinked lib)) e
          ((destroy-Keeps lib doc state pid eid).run v (l, b)))
    Call-Linked {v} {u} (other_call e f) l =
        subst (λ x. Linked lib.kv x u.wf_process_instance) (sym e)
          (subst (λ x. Linked lib.kv v.wf_execution x) (sym f) l)

    -- After any sequence of calls, one after another, that create executions, create process instances under unused identifiers, or destroy a process instance for the execution that it belongs to, each call ending in success, in an error or in a panic at any point, every process instance that an execution lists is stored, belongs to that execution, and is listed once, if this was so at the beginning.
    pub Reach-Linked : {w u : World lib} → Reach w u → AllLinked lib w → AllLinked lib u
    Reach-Linked here l = l
    Reach-Linked (next r c) l = Call-Linked c (Reach-Linked r l)
