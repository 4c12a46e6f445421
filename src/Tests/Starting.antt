-- ===== src/Tests/Starting.antt =====
-- The theorems on owners and on jobs that start, at concrete inputs.
use shar.Prelude.{refl, Bool, Option, none, some, List, [], ◌∷◌, ℕ, String, ◌==◌, if◌then◌else◌}
use shar.Prelude.Maps.{lookup, insert}
use shar.Errors.{ok}
use shar.Tracking
use shar.Model.{Element, WorkflowState, Process, plain, nil}
use shar.Vars.{Expr, text}
use shar.Server.{World, Subject, user_task_execute}
use shar.Engine.Owners.Owned.{Owned}
use shar.Engine.Starts.{start_job}
use shar.Engine.Starts.Started.{Started, start_job-Started}
use shar.Engine.Launch.{launch_process}
use shar.Tests.Store.{memory_documented}
use shar.Tests.Data.{libraries, world, blank_state, pair_codec, name_expr, join_element}

-- A user task, whose input is the variable a under two names, for the user that an expression names.
abbrev form : Element
form = record join_element {
  kind = "userTask";
  execute = "form";
  input_transform = some (("a", "a") ∷ ("b", "a") ∷ []);
  candidates = "user";
  candidate_groups = "a";
}

abbrev user_expr : Expr
user_expr = record name_expr {
  eval = λ e vals. if e == "user" then ok (text "anna") else name_expr.eval e vals;
}

abbrev no_strings : ℕ → Option (List String)
no_strings n = none

abbrev subject_of : Bool → Subject
subject_of mock = user_task_execute

abbrev start : World libraries
start =
    (start_job libraries pair_codec user_expr no_strings subject_of blank_state form (3 ∷ 4 ∷ [])
      world).1

abbrev started_form : WorkflowState
started_form = record blank_state {
  execute = some "form";
  vars = 3 ∷ 3 ∷ [];
  owners = "ksuid" ∷ [];
  groups = [];
  id = "t0" ∷ "t1" ∷ "ksuid" ∷ [];
  unix_time_nano = 9;
}

start_job-Started_example :
    Started libraries pair_codec user_expr no_strings world subject_of blank_state form
      (3 ∷ 4 ∷ [])
      started_form
      start
unfolding start_job lookup Tracking.push insert
start_job-Started_example =
    start_job-Started libraries pair_codec user_expr no_strings memory_documented subject_of
      blank_state form (3 ∷ 4 ∷ []) world {job' = started_form} {w' = start} refl refl

-- A process with one start event, which is launched in the execution x.
abbrev begin : Element
begin = record join_element { id = "begin"; kind = "startEvent"; output_transform = none }

abbrev simple : Process
simple = record { id = "p"; elements = plain begin nil }

abbrev launched : World libraries
launched =
    (launch_process libraries [] simple "order" "wf" "x" (3 ∷ 4 ∷ []) pair_codec name_expr "" "" []
      world).1
