-- ===== src/Tests/Data.antt =====
-- Libraries, a workflow with a gateway and a message, and states of its process, for the tests.
use mathlib.Core.List.Perm
use shar.Prelude.{eqb, ℕ, ◌≡◌, refl, subst, arith, String, Option, none, some, List, [], ◌∷◌, ◌++◌}
use shar.Prelude.Maps.{Map, lookup, UniqueKeys}
use shar.Errors.{Outcome, ok, err, library_error}
use shar.Model.{
  Targets, divergent, Bytes, Element, nil, plain, inclusive, convergent, Workflow, WorkflowState,
  Gateway, MessageReceiver, executing, no_process_instance, Sender, Receiver,
}
use shar.Vars.{boolean, decode, Codec, Expr, Value, integer, int64, array, null}
use shar.Gateway.Merge.Latest.{IsMapCodec}
use shar.Server.{Libraries, World, Subject}
use shar.Tests.Store.{memory}

pub appended :
    (s s' : List (Subject × WorkflowState)) (subject : Subject) (state : WorkflowState)
    → ok (s ++ (subject, state) ∷ []) ≡ ok s'
    → s' ≡ s ++ (subject, state) ∷ []
appended s s' subject state h = ground arith

abbrev pub libraries : Libraries
libraries = record {
  kv = memory;
  Stream = List (Subject × WorkflowState);
  publish = λ s subject state. ok (s ++ (subject, state) ∷ []);
  published = λ s. s;
  published-publish = λ s s' subject state h. appended s s' subject state h;
  ksuid = λ n. "ksuid";
  range_names = λ n m. m;
  range_sent = λ n m. m;
  range_names-Perm = λ n m. Perm.refl m;
  range_sent-Perm = λ n m. Perm.refl m;
  kvs_for = ok tt;
  publish_disabled = λ s now name. ok s;
}

-- Two bytes are the variables a and b.
abbrev unmarshal_pair : Bytes → Outcome (Map Value)
unmarshal_pair (a ∷ b ∷ []) = ok (("a", integer int64 a) ∷ ("b", integer int64 b) ∷ [])
unmarshal_pair _ = err library_error

abbrev byte_of : Option Value → List ℕ
byte_of (some (integer k n)) = n ∷ []
byte_of _ = []

abbrev pub pair_codec : Codec
pair_codec = record {
  unmarshal = unmarshal_pair;
  marshal = λ m. ok (byte_of (lookup "a" m) ++ byte_of (lookup "b" m));
}

pair_unique : (b : Bytes) (m : Map Value) → unmarshal_pair b ≡ ok m → UniqueKeys m
unfolding lookup
pair_unique [] m h = absurd (ground arith)
pair_unique (a ∷ []) m h = absurd (ground arith)
pair_unique (a ∷ b ∷ []) m h =
    let e : ("a", integer int64 a) ∷ ("b", integer int64 b) ∷ [] ≡ m = ground arith in
    subst (λ x. UniqueKeys x) e (refl, (refl, tt))
pair_unique (a ∷ b ∷ c ∷ rest) m h = absurd (ground arith)

pub pair_codec-IsMapCodec : IsMapCodec pair_codec
unfolding decode lookup
pair_codec-IsMapCodec = record { unique = decoded_unique }
  where
    decoded_unique : (b : Bytes) (m : Map Value) → decode pair_codec b ≡ ok m → UniqueKeys m
    decoded_unique [] m h = let e : [] ≡ m = ground arith in subst (λ x. UniqueKeys x) e tt
    decoded_unique (a ∷ rest) m h = pair_unique (a ∷ rest) m h

-- One byte is an array.
abbrev unmarshal_array : Bytes → Outcome (Map Value)
unmarshal_array (a ∷ []) = ok (("list", array a) ∷ [])
unmarshal_array _ = err library_error

abbrev pub array_codec : Codec
array_codec = record { unmarshal = unmarshal_array; marshal = λ m. ok [] }

abbrev variable : Option Value → Outcome Value
variable none = ok null
variable (some v) = ok v

-- An expression is the name of a variable.
abbrev pub name_expr : Expr
name_expr = record { eval = λ e vals. variable (lookup e vals); get_variables = λ e. ok (e ∷ []) }

abbrev pub join_element : Element
join_element = record {
  id = "join";
  name = "Join";
  kind = "inclusiveGateway";
  execute = "";
  msg = "";
  outbound = none;
  compensate_with = none;
  errors = [];
  input_transform = none;
  output_transform = some (("b", "a") ∷ []);
  gateway = some (record {
    kind = inclusive;
    direction = convergent;
    reciprocal_id = "fork";
    fixed_expectations = [];
  });
  version = none;
  retry_behaviour = none;
  candidates = "";
  candidate_groups = "";
  iteration = none;
}

abbrev pub order_workflow : Workflow
order_workflow = record {
  name = "order";
  collaboration = none;
  process = ("p", record { id = "p"; elements = plain join_element nil }) ∷ [];
  messages = [];
  errors = [];
}

abbrev pub blank_state : WorkflowState
blank_state = record {
  workflow_id = "wf";
  execution_id = "x";
  element_id = "join";
  element_type = "";
  element_name = "";
  id = "t0" ∷ "t1" ∷ [];
  execute_version = "";
  execute = none;
  state = executing;
  condition = none;
  unix_time_nano = 5;
  error = none;
  vars = [];
  owners = [];
  groups = [];
  workflow_name = "order";
  process_id = "p";
  process_instance_id = "pi";
  satisfies_gateway_expectation = [];
  gateway_expectations = [];
  compensation = none;
  previous_activity = "";
  previous_element = "";
}

abbrev pub branch_state : String → Bytes → WorkflowState
branch_state route vars = record blank_state {
  vars = vars;
  satisfies_gateway_expectation = ("join", route ∷ []) ∷ [];
  gateway_expectations = ("gw", "b1" ∷ "b2" ∷ []) ∷ [];
}

-- The other branch, already counted.
abbrev pub one_met : Gateway
one_met = record { met_expectations = ("b1", "") ∷ []; vars = (1 ∷ 2 ∷ []) ∷ []; visits = 1 }

abbrev pub await_message : MessageReceiver
await_message = record { id = "await"; process_id_to_start = "" }

abbrev pub world : World libraries
world = record {
  wf = ("wf", some order_workflow) ∷ [];
  wf_execution =
      (
        "x",
        some (record {
          execution_id = "x";
          workflow_id = "wf";
          workflow_name = "order";
          process_instance_id = "pi" ∷ [];
        }),
      )
      ∷ [];
  wf_process_instance =
      ("pi", some (record no_process_instance { process_instance_id = "pi"; execution_id = "x" }))
      ∷ [];
  wf_gateway = [];
  wf_history = [];
  wf_messages = [];
  wf_msg_types = ("paid", some (await_message ∷ [])) ∷ [];
  job = ("t1", some blank_state) ∷ [];
  wf_tracking = [];
  wf_user_tasks = [];
  wf_fatal_error = [];
  wf_task_spec = [];
  wf_process = [];
  wf_version = [];
  owner_id = [];
  owner_name = [];
  stream = [];
  now = 9;
  next_id = 0;
}

abbrev pub paid_sender : Sender
paid_sender = record { vars = 3 ∷ 4 ∷ []; correlation_key = "k" }

abbrev pub await_receiver : Receiver
await_receiver = record { id = "t1"; correlation_key = "k" }

-- A fork whose join is `join`, with one flow to each of two tasks, and the states at it.
abbrev pub fork_element : Element
fork_element = record join_element {
  id = "fork";
  kind = "Gateway";
  outbound = none;
  gateway = some (record {
    kind = inclusive;
    direction = divergent;
    reciprocal_id = "join";
    fixed_expectations = [];
  });
}

abbrev pub task : String → Element
task id = record join_element { id = id; kind = "serviceTask"; gateway = none }

abbrev pub fork_flows : Targets
fork_flows = record {
  target =
      record { id = "b1"; conditions = "a" ∷ []; target = "task1" }
      ∷ record { id = "b2"; conditions = []; target = "task2" }
      ∷ [];
  default_target = some 1;
}

abbrev pub fork_table : Map Element
fork_table = ("fork", fork_element) ∷ ("task1", task "task1") ∷ ("task2", task "task2") ∷ []

abbrev pub fork_world : World libraries
fork_world = record world {
  wf =
      (
        "wf",
        some (record order_workflow {
          process =
              (
                "p",
                record {
                  id = "p";
                  elements = plain fork_element (plain (task "task1") (plain (task "task2") nil));
                },
              )
              ∷ [];
        }),
      )
      ∷ [];
}

abbrev unmarshal_flag : Bytes → Outcome (Map Value)
unmarshal_flag (b ∷ []) = ok (("a", boolean (eqb b 1)) ∷ [])
unmarshal_flag _ = err library_error

-- One byte is a flag.
abbrev pub flag_codec : Codec
flag_codec = record { unmarshal = unmarshal_flag; marshal = λ m. ok [] }

abbrev pub fork_state : Bytes → WorkflowState
fork_state vars = record blank_state { element_id = "fork"; vars = vars }
