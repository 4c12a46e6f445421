-- ===== src/Gateway/Track.antt =====
-- GetGatewayInstanceID of internal/server/workflow/gateway.go, and the text that it takes apart, which
-- `traverse` of engine.go writes.
pub mod RoundTrip
use Prim.Native.Char.{code}
use Prim.Native.String
use Prim.Native.String.{◌++◌ as str_append}
use shar.Prelude.{
  String, ◌≡◌, refl, sym, ap, ◌∙◌, Bool, true, false, Option, none, some, List, [], ◌∷◌, ◌++◌, eqb,
  arith, if◌then◌else◌,
}
use shar.Prelude.Maps.{lookup}
use shar.Errors.{Outcome, ok, err, panic, gateway_instance_not_found, ◌>>=◌}
use shar.Model.{WorkflowState}

-- strings.Split(r, ","): the first part, and the others
unfoldable pub split_comma : String → String × List String
split_comma String.[] = (String.[], [])
split_comma (String.◌∷◌ c s) =
    let (part, parts) = split_comma s in
    if eqb (code c) b',' then (String.[], part ∷ parts) else (String.◌∷◌ c part, parts)

-- parts[0], parts[1]
abbrev pub two_parts : String × List String → Outcome (String × String)
two_parts (part, []) = panic
two_parts (part, second ∷ rest) = ok (part, second)

-- x[len(x)-1]
unfoldable pub last : List String → Outcome String
last [] = panic
last (x ∷ []) = ok x
last (x ∷ y ∷ xs) = last (y ∷ xs)

-- The instance and the route of the arriving branch: the last entry for this element.
abbrev pub instance_of : Option (List String) → Outcome (String × String)
instance_of none = err gateway_instance_not_found
instance_of (some tracking) = do r ← last tracking; two_parts (split_comma r)

unfoldable pub get_gateway_instance_id : WorkflowState → Outcome (String × String)
unfolding split_comma last
get_gateway_instance_id state =
    instance_of (lookup state.element_id state.satisfies_gateway_expectation)

-- What `traverse` appends for a branch: instance + "," + branchID.
abbrev pub track : String → String → String
track iid branch = str_append iid (str_append "," branch)

-- A text without a comma, as a ksuid and the identifier of a BPMN flow are.
abbrev pub NoComma : String → Type 0
NoComma String.[] = Unit
NoComma (String.◌∷◌ c s) = (eqb (code c) b',' ≡ false) × NoComma s
