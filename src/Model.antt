-- ===== src/Model.antt =====
-- The messages of proto/shar-workflow/models.proto that the modelled code reads or writes, with the
-- fields that it uses. A nil map and an empty map are one value unless the code tells them apart.
use shar.Prelude.{ℕ, String, Bool, Option, none, some, List, [], ◌∷◌}
use shar.Prelude.Maps.{Map, insert}
use shar.Task.{DefaultTaskRetry}

abbrev pub Bytes : Type 0
Bytes = List ℕ

pub data CancellationState : Type 0 where
  executing completed terminated errored obsolete compensating : CancellationState

pub data GatewayType : Type 0 where
  exclusive inclusive parallel : GatewayType

pub data GatewayDirection : Type 0 where
  divergent convergent : GatewayDirection

pub record GatewaySpec : Type 0 where
  pub kind : GatewayType
  pub direction : GatewayDirection
  pub reciprocal_id : String
  pub fixed_expectations : List String

pub record Target : Type 0 where
  pub id : String
  pub conditions : List String
  pub target : String

-- `none` is the default target -1.
pub record Targets : Type 0 where
  pub target : List Target
  pub default_target : Option ℕ

-- A workflow error.
pub record Error : Type 0 where
  pub id : String
  pub name : String
  pub code : String

pub record CatchError : Type 0 where
  pub error_id : String
  pub target : String
  pub output_transform : Option (Map String)

-- The multi-instance instructions of an element.
pub record Iteration : Type 0 where
  pub collection : String
  pub iterator : String

pub record Element : Type 0 where
  pub id : String
  pub name : String
  pub kind : String  -- Type
  pub execute : String
  pub msg : String
  pub outbound : Option Targets
  pub compensate_with : Option String
  pub errors : List CatchError
  pub input_transform : Option (Map String)
  pub output_transform : Option (Map String)
  pub gateway : Option GatewaySpec
  pub retry_behaviour : Option DefaultTaskRetry
  pub version : Option String
  pub candidates : String
  pub candidate_groups : String
  pub iteration : Option Iteration

-- []*Element: each element may hold a sub-process with elements of its own.
pub data Elements : Type 0 where
  nil : Elements
  plain : Element → Elements → Elements
  nested : Element → Elements → Elements → Elements

pub record Process : Type 0 where
  pub id : String
  pub elements : Elements

pub record MessageReceiver : Type 0 where
  pub id : String
  pub process_id_to_start : String

pub record Participant : Type 0 where
  pub id : String
  pub process_id : String

pub record WorkflowVersion : Type 0 where
  pub id : String
  pub number : ℕ

pub record WorkflowVersions : Type 0 where
  pub version : List WorkflowVersion
  pub is_execution_disabled : Bool

-- `none` is a nil collaboration.
pub record Workflow : Type 0 where
  pub collaboration : Option (List Participant)
  pub name : String
  pub process : Map Process
  pub messages : List Element
  pub errors : List Error

pub record Compensation : Type 0 where
  pub step : ℕ
  pub total_steps : ℕ
  pub for_tracking_id : String

pub record WorkflowState : Type 0 where
  pub workflow_id : String
  pub execution_id : String
  pub element_id : String
  pub element_type : String
  pub element_name : String
  pub id : List String
  pub execute_version : String
  pub execute : Option String
  pub state : CancellationState
  pub condition : Option String
  pub unix_time_nano : ℕ
  pub vars : Bytes
  pub error : Option Error
  pub owners : List String
  pub groups : List String
  pub workflow_name : String
  pub process_id : String
  pub process_instance_id : String
  pub satisfies_gateway_expectation : Map (List String)
  pub gateway_expectations : Map (List String)
  pub compensation : Option Compensation
  pub previous_activity : String
  pub previous_element : String

abbrev pub no_state : WorkflowState
no_state = record {
  workflow_id = "";
  execution_id = "";
  element_id = "";
  element_type = "";
  element_name = "";
  id = [];
  execute_version = "";
  execute = none;
  state = executing;
  condition = none;
  unix_time_nano = 0;
  vars = [];
  error = none;
  owners = [];
  groups = [];
  workflow_name = "";
  process_id = "";
  process_instance_id = "";
  satisfies_gateway_expectation = [];
  gateway_expectations = [];
  compensation = none;
  previous_activity = "";
  previous_element = "";
}

pub record Execution : Type 0 where
  pub execution_id : String
  pub workflow_id : String
  pub workflow_name : String
  pub process_instance_id : List String

pub record ProcessInstance : Type 0 where
  pub process_instance_id : String
  pub execution_id : String
  pub parent_process_id : Option String
  pub parent_element_id : Option String
  pub workflow_id : String
  pub workflow_name : String
  pub process_id : String
  pub gateway_complete : Map Bool
  pub headers : Bytes

-- A convergent gateway that waits for its branches.
pub record Gateway : Type 0 where
  pub met_expectations : Map String
  pub vars : List Bytes
  pub visits : ℕ

abbrev pub no_gateway : Gateway
no_gateway = record { met_expectations = []; vars = []; visits = 0 }

abbrev pub no_execution : Execution
no_execution = record {
  execution_id = "";
  workflow_id = "";
  workflow_name = "";
  process_instance_id = [];
}

abbrev pub no_process_instance : ProcessInstance
no_process_instance = record {
  process_instance_id = "";
  execution_id = "";
  parent_process_id = none;
  parent_element_id = none;
  workflow_id = "";
  workflow_name = "";
  process_id = "";
  gateway_complete = [];
  headers = [];
}

pub data ProcessHistoryType : Type 0 where
  process_execute activity_execute activity_complete process_spawn_sync : ProcessHistoryType
  process_complete process_abort activity_abort job_abort job_execute : ProcessHistoryType
  job_complete compensation_checkpoint : ProcessHistoryType

pub record ProcessHistoryEntry : Type 0 where
  pub item_type : ProcessHistoryType
  pub id : List String
  pub workflow_id : String
  pub execution_id : String
  pub element_id : String
  pub element_name : String
  pub process_instance_id : String
  pub cancellation_state : CancellationState
  pub vars : Bytes
  pub error : Option Error
  pub unix_time_nano : ℕ
  pub execute : Option String
  pub process_id : String
  pub compensating : Bool
  pub satisfies_gateway_expectation : Map (List String)
  pub gateway_expectations : Map (List String)
  pub workflow_name : String
  pub previous_activity : String
  pub previous_element : String

pub record Sender : Type 0 where
  pub vars : Bytes
  pub correlation_key : String

pub record Receiver : Type 0 where
  pub id : String
  pub correlation_key : String

-- `none` is a nil sender, and a nil map of receivers.
pub record Exchange : Type 0 where
  pub sender : Option Sender
  pub receivers : Option (Map Receiver)

-- IndexProcessElements of common/elementutil.go
unfoldable pub index_process_elements : Elements → Map Element → Map Element
index_process_elements nil el = el
index_process_elements (plain i rest) el = index_process_elements rest (insert i.id i el)
index_process_elements (nested i inner rest) el =
    index_process_elements rest (index_process_elements inner (insert i.id i el))

-- ElementTable of common/elementutil.go
unfoldable pub index_processes : Map Process → Map Element → Map Element
unfolding index_process_elements
index_processes [] el = el
index_processes ((k, p) ∷ ps) el = index_processes ps (index_process_elements p.elements el)

unfoldable pub element_table : Workflow → Map Element
unfolding index_processes
element_table wf = index_processes wf.process []

-- common/state.go
unfoldable pub drop_state_params : WorkflowState → WorkflowState
drop_state_params s = record s {
  execute = some "";
  execute_version = "";
  condition = some "";
  owners = [];
  groups = [];
}

pub data HandlingStrategy : Type 0 where
  pause tear_down : HandlingStrategy

pub record FatalError : Type 0 where
  pub handling_strategy : HandlingStrategy
  pub workflow_state : WorkflowState
