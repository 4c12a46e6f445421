-- ===== src/Tests/Backoffs.antt =====
-- The theorems on the back-off of service tasks, at concrete inputs.
use shar.Prelude.{ℕ, ◌≡◌, ◌++◌, refl, true, some, List, [], ◌∷◌, arith}
use shar.Prelude.Maps.{lookup, insert}
use shar.Errors.{ok, err, library_error}
use shar.Model.{Element, Workflow, element_table, nil, plain}
use shar.Task.{DefaultTaskRetry, exponential, linear, fail_workflow}
use shar.Vars.{text}
use shar.Backoff.{delay, get_offset, Effect, term, notify_retry_exceeded, Surroundings, backoff}
use shar.Backoff.Offset.{delay-exact, get_offset-long}
use shar.Backoff.Exhausted.{LastResort, Known, backoff-exhausted}
use shar.Tests.Data.{blank_state, order_workflow, join_element}

abbrev pub retry : DefaultTaskRetry
retry = record {
  number = 3;
  strategy = exponential;
  init_milli = 100;
  interval_milli = 200;
  max_milli = 1000;
  default_exceeded = some (record {
    action = fail_workflow;
    variable = "";
    variable_type = "";
    variable_value = "";
    error_code = "";
  });
}

abbrev service_element : Element
service_element = record join_element { retry_behaviour = some retry }

abbrev service_workflow : Workflow
service_workflow = record order_workflow {
  process = ("p", record { id = "p"; elements = plain service_element nil }) ∷ [];
}

abbrev delivered_times : ℕ → Surroundings
delivered_times n = record {
  num_delivered = ok n;
  get_workflow = λ id. ok service_workflow;
  cancel = err library_error;
  handled = ok true;
  complete = ok tt;
  nak = ok tt;
  parse = λ kind value. ok (text value);
  elapsed = 5;
  overflow = 0;
}

service-Known :
    (n : ℕ) → Known (delivered_times n) blank_state n service_workflow service_element retry
unfolding lookup insert element_table
service-Known n = (refl, refl, refl, refl)

delay-exact_example : delay 0 exponential 100 200 3 1000 ≡ 900000000
delay-exact_example =
    delay-exact 0 exponential 100 200 3 1000 (omega arith) (omega arith) (omega arith) (omega arith)
      (omega arith) (omega arith)

-- A delay of ten thousand seconds.
get_offset-long_example : get_offset 0 linear 0 10000000 2 10000000 1 ≡ 0
unfolding delay
get_offset-long_example =
    get_offset-long 0 linear 0 10000000 2 10000000 1 (omega arith) (omega arith) (omega arith)

backoff-exhausted_example :
    (effects : List Effect) × ((backoff (delivered_times 3) (ok blank_state) []).1
      ≡ [] ++ effects ++ term ∷ notify_retry_exceeded ∷ [])
    × LastResort (delivered_times 3) blank_state retry.default_exceeded effects
backoff-exhausted_example =
    backoff-exhausted (delivered_times 3) blank_state 3 service_workflow service_element retry []
      (service-Known 3) (omega arith)
