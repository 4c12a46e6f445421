-- ===== src/Tests/Validations.antt =====
-- The theorems on task specifications, at concrete inputs.
use shar.Prelude.{◌≡◌, ◌↔◌, refl, String, Bool, true, false, none, some, [], ◌∷◌}
use shar.Task.{TaskSpec, Parameter}
use shar.Validation.{accepted, validate_task_spec}
use shar.Validation.Accepted.{GoodSpec, validate_task_spec_iff}
use shar.Tests.Backoffs.{retry}

abbrev any_compiles : String → Bool
any_compiles ex = true

abbrev named : String → Parameter
named name = record { name = name; validate_expr = ""; example = "=1" }

abbrev spec : TaskSpec
spec = record {
  version = "1.0";
  metadata = some (record { kind = "charge_card"; version = "1" });
  behaviour = some (record {
    default_retry = some retry;
    estimated_max_duration = 10;
    mock = true;
    deprecated = false;
    mock_behaviour = none;
  });
  parameters = some (named "amount" ∷ []);
}

spec_accepted : validate_task_spec any_compiles spec ≡ accepted
unfolding validate_task_spec
spec_accepted = refl

validate_task_spec_iff_example :
    (validate_task_spec any_compiles spec ≡ accepted) ↔ GoodSpec any_compiles spec
validate_task_spec_iff_example = validate_task_spec_iff any_compiles spec
