-- ===== src/Gateway/Handlers/Arrival.antt =====
-- gatewayExecProcessor as a whole: what has happened when it returns.
use shar.Prelude.{◌≡◌, String, some, List, []}
use shar.Errors.{ok, workflow_not_found}
use shar.Prelude.Maps.{lookup}
use shar.Nats.{Turn, Documented, load_obj, first_move, later_moves}
use shar.Nats.Update.{Committed}
use shar.Nats.Opened.{Opened}
use shar.Model.{
  Gateway, GatewaySpec, Process, Workflow, WorkflowState, no_gateway, index_process_elements,
}
use shar.Vars.{Codec}
use shar.Server.{Libraries, World, not_found}
use shar.Gateway.Track.{get_gateway_instance_id}
use shar.Gateway.Handlers.{arrive, process_of, gateway_of}
use shar.Gateway.Handlers.Join.{Fate}

-- The arrival of one branch: at one moment its route was added to what the gateway had, and the
-- gateway's fate was decided on the outcome of that.
pub record Arrived (lib : Libraries) (doc : Documented lib.kv) (codec : Codec)
    (others : List (Turn lib.kv Gateway)) (w : World lib) (job : WorkflowState) (w' : World lib)
    : Type 0 where
  pub iid : String
  pub route : String
  pub tracked : get_gateway_instance_id job ≡ ok (iid, route)
  pub start : lib.kv.Bucket Gateway
  pub opened :
      Opened lib.kv w.wf_gateway (first_move lib.kv others w.wf_gateway) iid no_gateway start
  pub bucket : lib.kv.Bucket Gateway
  pub gw : Gateway
  pub counted :
      Committed lib.kv start iid
        (λ g. ok (arrive route (record job { execute = some iid }) g))
        (later_moves lib.kv others)
        bucket
        gw
  pub workflow : Workflow
  pub loaded : not_found workflow_not_found (load_obj lib.kv w.wf job.workflow_id) ≡ ok workflow
  pub process : Process
  pub has_process : process_of (lookup job.process_id workflow.process) ≡ ok process
  pub spec : GatewaySpec
  pub has_spec :
      gateway_of (lookup job.element_id (index_process_elements process.elements [])) ≡ ok spec
  pub fate :
      Fate lib doc codec others
        (record w { wf_gateway = bucket })
        spec.kind
        iid
        gw
        (record job { execute = some iid })
        w'
