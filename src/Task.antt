-- ===== src/Task.antt =====
-- The specification of a task, of proto/shar-workflow/models.proto, with the fields that the modelled
-- code reads. A 64-bit integer that may be negative is its two's complement bit pattern.
use shar.Prelude.{ℕ, String, Bool, Option, List}

pub data RetryStrategy : Type 0 where
  linear exponential : RetryStrategy

pub data RetryErrorAction : Type 0 where
  pause_workflow throw_workflow_error set_variable_value fail_workflow : RetryErrorAction

pub record DefaultRetryExceededBehaviour : Type 0 where
  pub action : RetryErrorAction
  pub variable : String
  pub variable_type : String
  pub variable_value : String
  pub error_code : String

pub record DefaultTaskRetry : Type 0 where
  pub number : ℕ
  pub strategy : RetryStrategy
  pub init_milli : ℕ
  pub interval_milli : ℕ
  pub max_milli : ℕ
  pub default_exceeded : Option DefaultRetryExceededBehaviour

pub record TaskMetadata : Type 0 where
  pub kind : String  -- Type
  pub version : String

pub record TaskMockBehaviours : Type 0 where
  pub error_code_expr : String
  pub fatal_error_expr : String

pub record TaskBehaviour : Type 0 where
  pub default_retry : Option DefaultTaskRetry
  pub estimated_max_duration : ℕ
  pub mock : Bool
  pub deprecated : Bool
  pub mock_behaviour : Option TaskMockBehaviours

pub record Parameter : Type 0 where
  pub name : String
  pub validate_expr : String
  pub example : String

pub record TaskSpec : Type 0 where
  pub version : String
  pub metadata : Option TaskMetadata
  pub behaviour : Option TaskBehaviour
  -- `none` is a nil section, and an empty list a nil or an empty Input
  pub parameters : Option (List Parameter)
