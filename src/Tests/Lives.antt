-- ===== src/Tests/Lives.antt =====
-- The theorems on executions and process instances, at concrete inputs.
use shar.Prelude.{◌≡◌, refl, sym, ap, arith, none, some, List, [], ◌∷◌}
use shar.Errors.{ok, err, library_error}
use shar.Nats.{KeyValue, load_obj, update_obj}
use shar.UserTasks.{remove}
use shar.Model.{Execution, ProcessInstance, no_process_instance}
use shar.Server.{Libraries, World}
use shar.Instances.{create_execution, create_process_instance, destroy_process_instance}
use shar.Instances.Kept.{AllLinked}
use shar.Instances.Reached.{
  Call, Reach, here, next, Reach-Linked, create_execution_call, create_process_instance_call,
  destroy_process_instance_call,
}
use shar.Instances.Unread.{destroy_process_instance-unread}
use shar.Instances.Destroyed.{Destroyed, destroy_process_instance-Destroyed}
use shar.Instances.Registry.{
  Event, opened, joined, left, replay, Success, execution_created, instance_created,
  instance_destroyed, begun, called, registry, Run-replay,
}
use shar.Tests.Store.{memory, memory_documented}
use shar.Tests.Data.{libraries, world, blank_state}

-- A store of executions that lists two process instances.
abbrev busy : Execution
busy = record {
  execution_id = "x";
  workflow_id = "wf";
  workflow_name = "order";
  process_instance_id = "pi" ∷ "pj" ∷ [];
}

abbrev busy_world : World libraries
busy_world = record world { wf_execution = ("x", some busy) ∷ [] }

destroy_process_instance-Destroyed_example :
    Destroyed libraries busy_world blank_state "pi" "x" busy
      (destroy_process_instance libraries blank_state "pi" "x" busy_world).1
unfolding destroy_process_instance load_obj update_obj remove
destroy_process_instance-Destroyed_example =
    destroy_process_instance-Destroyed libraries memory_documented blank_state "pi" "x" busy_world
      busy {s = record blank_state { unix_time_nano = 9 }}
      {w' = (destroy_process_instance libraries blank_state "pi" "x" busy_world).1} refl refl

-- A store whose reads fail.
abbrev unreadable : KeyValue
unreadable = record memory { get = λ {V} b k. err library_error }

abbrev failing : Libraries
failing = record libraries { kv = unreadable }

abbrev failing_world : World failing
failing_world = record {
  wf = [];
  wf_execution = ("x", some busy) ∷ [];
  wf_process_instance = [];
  wf_gateway = [];
  wf_history = [];
  wf_messages = [];
  wf_msg_types = [];
  job = [];
  wf_tracking = [];
  wf_user_tasks = [];
  wf_fatal_error = [];
  wf_task_spec = [];
  wf_process = [];
  wf_version = [];
  owner_id = [];
  owner_name = [];
  stream = [];
  now = 9;
  next_id = 0;
}

destroy_process_instance-unread_example :
    destroy_process_instance failing blank_state "pi" "x" failing_world ≡ (
      err library_error,
      record failing_world { wf_execution = ("x", none) ∷ ("x", some busy) ∷ [] },
    )
destroy_process_instance-unread_example =
    destroy_process_instance-unread failing blank_state "pi" "x" failing_world refl refl refl

-- An execution is created, then a process instance of it, which is destroyed.
abbrev empty_world : World libraries
empty_world = record world { wf_execution = []; wf_process_instance = [] }

abbrev order : Execution
order = record {
  execution_id = "";
  workflow_id = "wf";
  workflow_name = "order";
  process_instance_id = [];
}

abbrev created_world : World libraries
created_world = (create_execution libraries (λ name. ok tt) order empty_world).1

abbrev running_world : World libraries
running_world =
    (create_process_instance libraries "ksuid" "" "" "p" "order" "wf" [] created_world).1

abbrev ended_world : World libraries
ended_world = (destroy_process_instance libraries blank_state "ksuid" "ksuid" running_world).1

empty_linked : AllLinked libraries empty_world
unfolding load_obj
empty_linked = record {
  recorded = λ eid e pid h o. absurd (ground arith);
  once = λ eid e pid h. absurd (ground arith);
}

ksuid_belongs :
    (pi : ProcessInstance)
    → load_obj memory running_world.wf_process_instance "ksuid" ≡ ok pi
    → pi.execution_id ≡ "ksuid"
unfolding load_obj create_process_instance create_execution update_obj
ksuid_belongs pi h = ap (λ r. elim r [ ok x ↦ x.execution_id | _ ↦ "ksuid" ]) (sym h)

creation : Call libraries empty_world created_world
creation =
    create_execution_call (λ name. ok tt) order
      (create_execution libraries (λ name. ok tt) order empty_world).0 refl

start : Call libraries created_world running_world
unfolding load_obj create_execution
start =
    create_process_instance_call "ksuid" "" "" "p" "order" "wf" []
      (create_process_instance libraries "ksuid" "" "" "p" "order" "wf" [] created_world).0 refl
      refl

end : Call libraries running_world ended_world
end =
    destroy_process_instance_call blank_state "ksuid" "ksuid"
      (destroy_process_instance libraries blank_state "ksuid" "ksuid" running_world).0 ksuid_belongs
      refl

life : Reach libraries empty_world ended_world
life = next (next (next here creation) start) end

Reach-Linked_example : AllLinked libraries ended_world
Reach-Linked_example =
    Reach-Linked libraries memory_documented {w = empty_world} {u = ended_world} life empty_linked

created : Success libraries empty_world created_world (opened "ksuid")
unfolding create_execution
created = execution_created (λ name. ok tt) order {e = record order { execution_id = "ksuid" }} refl

joined_pi : Success libraries created_world running_world (joined "ksuid" "ksuid")
unfolding create_process_instance create_execution load_obj update_obj
joined_pi =
    instance_created "ksuid" "" "" "p" "order" "wf" []
      {pi = record no_process_instance {
        process_instance_id = "ksuid";
        process_id = "p";
        parent_process_id = some "";
        parent_element_id = some "";
        execution_id = "ksuid";
        workflow_name = "order";
        workflow_id = "wf";
      }}
      refl

left_pi : Success libraries running_world ended_world (left "ksuid" "ksuid")
unfolding destroy_process_instance create_process_instance create_execution load_obj update_obj
    remove
left_pi =
    instance_destroyed blank_state "ksuid" "ksuid"
      (record order { execution_id = "ksuid"; process_instance_id = "ksuid" ∷ [] })
      {s = record blank_state { unix_time_nano = 9 }} refl refl

-- What happened in that life.
abbrev events : List Event
events = opened "ksuid" ∷ joined "ksuid" "ksuid" ∷ left "ksuid" "ksuid" ∷ []

Run-replay_example : registry libraries ended_world ≡ replay events (registry libraries empty_world)
Run-replay_example =
    Run-replay libraries memory_documented {u = ended_world} {w = empty_world} {es = events}
      (called created (called joined_pi (called left_pi begun)))
