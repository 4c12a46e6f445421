-- ===== src/Validation.antt =====
-- common/validation/service_task.go: which task specifications are accepted. The compiler of
-- expressions is a library's: it is the parameter `compiles`.
pub mod Accepted
use Prim.Native.Char.{Char, code}
use shar.Prelude.{
  ℕ, String, Bool, true, false, not, ◌&&◌, ◌||◌, Option, none, some, List, [], ◌∷◌, ◌==◌, eqb, leb,
  if◌then◌else◌,
}
use shar.Task.{
  TaskSpec, TaskMetadata, TaskBehaviour, TaskMockBehaviours, DefaultTaskRetry,
  DefaultRetryExceededBehaviour, Parameter,
}
use shar.Backoff.{signed_lt}

-- The sentinel errors of service_task_validation_error.go, and the errors that have no sentinel: of
-- the compiler, and of a name with a bad character or a leading digit.
pub data SpecError : Type 0 where
  task_spec_version no_metadata duration no_default_retry invalid_retry mock_value nats_name :
      SpecError
  bad_expression bad_name : SpecError

-- The outcome of the validation; `crashed` is a run-time panic.
pub data Verdict : Type 0 where
  accepted crashed : Verdict
  rejected : SpecError → Verdict

infixr 4 ◌then_check◌
abbrev pub ◌then_check◌ : Verdict → Verdict → Verdict
accepted then_check w = w
crashed then_check w = crashed
rejected e then_check w = rejected e

-- if !ok { return e }
abbrev pub check : Bool → SpecError → Verdict
check true e = accepted
check false e = rejected e

-- strings.TrimPrefix(ex, "=")
abbrev pub trim_equals : String → String
trim_equals String.[] = String.[]
trim_equals (String.◌∷◌ c s) = if eqb (code c) b'=' then s else String.◌∷◌ c s

abbrev pub every : (ℕ → Bool) → String → Bool
every test String.[] = true
every test (String.◌∷◌ c s) = test (code c) && every test s

-- strings.ContainsAny(name, ". ")
abbrev pub is_nats_char : ℕ → Bool
is_nats_char c = not (eqb c b'.' || eqb c b' ')

unfoldable pub valid_nats_name : String → Bool
valid_nats_name name = every is_nats_char name

abbrev pub is_digit : ℕ → Bool
is_digit c = leb b'0' c && leb c b'9'

-- The characters of `valid`; a byte of a character that is not ASCII is none of them.
abbrev pub is_name_char : ℕ → Bool
is_name_char c =
    (leb b'a' c && leb c b'z') || (leb b'A' c && leb c b'Z') || is_digit c || eqb c b'_'

-- name[0], which panics on an empty name
abbrev pub check_first : String → Verdict
check_first String.[] = crashed
check_first (String.◌∷◌ c s) = check (not (is_digit (code c))) bad_name

unfoldable pub valid_exp_name : String → Verdict
valid_exp_name name = check (every is_name_char name) bad_name then_check check_first name

abbrev pub check_exceeded : Option DefaultRetryExceededBehaviour → Verdict
check_exceeded none = rejected no_default_retry
check_exceeded (some b) = accepted

unfoldable pub check_retry : Option DefaultTaskRetry → Verdict
check_retry none = rejected no_default_retry
check_retry (some r) =
    check_exceeded r.default_exceeded
    then_check check (not (eqb r.interval_milli 0)) no_default_retry
    then_check check (not (eqb r.max_milli 0) && signed_lt r.interval_milli r.max_milli)
        invalid_retry

module _ (compiles : String → Bool) where
  -- if ex != "" { expr.Compile(strings.TrimPrefix(ex, "=")) }
  abbrev pub check_expression : String → Verdict
  check_expression ex =
      if ex == "" then accepted else check (compiles (trim_equals ex)) bad_expression

  unfoldable pub check_mock : Option TaskMockBehaviours → Verdict
  check_mock none = accepted
  check_mock (some m) =
      check_expression m.error_code_expr then_check check_expression m.fatal_error_expr

  abbrev pub check_example : Bool → String → Verdict
  check_example mock example =
      if example == ""
      then check (not mock) mock_value
      else check (compiles (trim_equals example)) bad_expression

  unfoldable pub check_parameters : Bool → List Parameter → Verdict
  unfolding valid_exp_name
  check_parameters mock [] = accepted
  check_parameters mock (p ∷ ps) =
      check_expression p.validate_expr
      then_check valid_exp_name p.name
      then_check check_example mock p.example
      then_check check_parameters mock ps

  abbrev pub check_section : Bool → Option (List Parameter) → Verdict
  check_section mock none = accepted
  check_section mock (some ps) = check_parameters mock ps

  abbrev pub check_metadata : Option TaskMetadata → Verdict
  check_metadata none = rejected no_metadata
  check_metadata (some m) = check (valid_nats_name m.kind) nats_name

  abbrev pub check_behaviour : Option TaskBehaviour → Option (List Parameter) → Verdict
  check_behaviour none parameters = rejected no_metadata
  check_behaviour (some b) parameters =
      check (not (eqb b.estimated_max_duration 0)) duration
      then_check check_retry b.default_retry
      then_check check_mock b.mock_behaviour
      then_check check_section b.mock parameters

  -- ValidateTaskSpec
  unfoldable pub validate_task_spec : TaskSpec → Verdict
  unfolding valid_nats_name check_retry check_mock check_parameters
  validate_task_spec td =
      check (td.version == "1.0") task_spec_version
      then_check check_metadata td.metadata
      then_check check_behaviour td.behaviour td.parameters
