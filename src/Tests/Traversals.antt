-- ===== src/Tests/Traversals.antt =====
-- The theorems on traversals, at concrete inputs.
use shar.Prelude.{◌≡◌, refl, some, [], ◌∷◌}
use shar.Prelude.Maps.{lookup, insert}
use shar.Errors.{ok}
use shar.Model.{WorkflowState}
use shar.Gateway.Track.{get_gateway_instance_id}
use shar.Traversal.Select.{reciprocated}
use shar.Traversal.Send.{traverse}
use shar.Traversal.Sent.{Carries}
use shar.Traversal.Announced.{Announced, traverse-Announced}
use shar.Traversal.Joined.{get_gateway_instance_id-Carries}
use shar.Tests.Store.{memory_documented}
use shar.Tests.Data.{
  libraries, flag_codec, name_expr, fork_flows, fork_table, fork_element, fork_state, fork_world,
  task,
}

traverse-Announced_example :
    Announced libraries flag_codec name_expr
      ("t0" ∷ [])
      fork_flows
      fork_table
      (fork_state (1 ∷ []))
      fork_element
      fork_world
      (traverse libraries flag_codec name_expr
        ("t0" ∷ [])
        (some fork_flows)
        fork_table
        (fork_state (1 ∷ []))
        fork_world).1
unfolding traverse lookup insert reciprocated shar.Traversal.Send.fresh_id
    shar.Model.index_process_elements
traverse-Announced_example =
    traverse-Announced libraries memory_documented flag_codec name_expr ("t0" ∷ []) fork_flows
      fork_table (fork_state (1 ∷ [])) fork_element fork_world
      {w' = (traverse libraries flag_codec name_expr ("t0" ∷ []) (some fork_flows) fork_table
        (fork_state (1 ∷ [])) fork_world).1}
      refl refl refl

abbrev branch : WorkflowState
branch = record (fork_state (1 ∷ [])) {
  id = "t0" ∷ "t1" ∷ [];
  element_id = "task1";
  satisfies_gateway_expectation = ("join", "gw,b1" ∷ []) ∷ [];
}

abbrev branch_at_join : WorkflowState
branch_at_join = record branch { element_id = "join" }

branch-Carries :
    Carries (fork_state (1 ∷ [])) ("t0" ∷ []) fork_table (some ("join", "gw")) "b1" "task1" branch
unfolding lookup insert shar.Tracking.pop
branch-Carries = record {
  target = task "task1";
  flows_to = refl;
  at_target = refl;
  parent = refl;
  same_vars = refl;
  same_expectations = refl;
  earlier = [];
  tracked = refl;
}

get_gateway_instance_id-Carries_example : get_gateway_instance_id branch_at_join ≡ ok ("gw", "b1")
get_gateway_instance_id-Carries_example =
    get_gateway_instance_id-Carries (fork_state (1 ∷ [])) ("t0" ∷ []) fork_table "join" "gw" "b1"
      "task1" branch branch_at_join (refl, (refl, tt)) (refl, (refl, tt)) branch-Carries refl refl
