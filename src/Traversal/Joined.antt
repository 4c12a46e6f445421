-- ===== src/Traversal/Joined.antt =====
-- What `traverse` of internal/server/workflow/engine.go writes into a branch, the join reads back.
use shar.Prelude.{◌≡◌, ◌∙◌, String, some, List, [], ◌∷◌, ◌++◌, eq_refl}
use shar.Prelude.Maps.{Map, lookup, lookup-insert}
use shar.Errors.{ok}
use shar.Model.{Element, WorkflowState}
use shar.Gateway.Track.{NoComma, get_gateway_instance_id, track}
use shar.Gateway.Track.RoundTrip.{get_gateway_instance_id-track}
use shar.Traversal.Send.{entries_of}
use shar.Traversal.Sent.{Carries}

-- A branch that has come to the join names there the instance that was opened for it and its own flow, where neither identifier has a comma.
pub get_gateway_instance_id-Carries :
    (state : WorkflowState) (id : List String) (el : Map Element) (join iid branch el_id : String)
    (msg at_join : WorkflowState)
    → NoComma iid
    → NoComma branch
    → Carries state id el (some (join, iid)) branch el_id msg
    → at_join.element_id ≡ join
    → at_join.satisfies_gateway_expectation ≡ msg.satisfies_gateway_expectation
    → get_gateway_instance_id at_join ≡ ok (iid, branch)
get_gateway_instance_id-Carries state id el join iid branch el_id msg at_join h k c e same =
    get_gateway_instance_id-track at_join (entries_of (lookup join c.earlier)) iid branch h k (
      rw (e, same, c.tracked)
        (lookup-insert join join (entries_of (lookup join c.earlier) ++ track iid branch ∷ [])
            c.earlier
          ∙ rw (eq_refl join)))
