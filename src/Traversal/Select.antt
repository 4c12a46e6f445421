-- ===== src/Traversal/Select.antt =====
-- The first half of `traverse` in internal/server/workflow/engine.go: which outbound flows are taken.
pub mod Chosen
use shar.Prelude.{
  ℕ, suc, String, Bool, true, false, ◌&&◌, not, Option, none, some, List, [], ◌∷◌, ◌==◌, eqb,
  get_elem?, if◌then◌else◌,
}
use shar.Prelude.Maps.{Map, insert, is_some}
use shar.Errors.{Outcome, ok, err, panic, ◌>>=◌, fatal, library_error, make_fatal}
use shar.Model.{
  Bytes, Element, GatewayDirection, GatewaySpec, divergent, convergent, Target, Targets,
}
use shar.Vars.{Codec, Expr, Value, boolean, decode}

-- A nil pointer, or an index out of range.
abbrev pub present {ℓ} : {A : Type ℓ} → Option A → Outcome A
present none = panic
present (some a) = ok a

-- The type assertion of expression.Eval[bool]; its panic is recovered as a fatal error.
abbrev pub as_bool : Value → Outcome Bool
as_bool (boolean b) = ok b
as_bool _ = err (fatal library_error)

-- element.Gateway
abbrev pub gateway_type : String
gateway_type = "Gateway"

abbrev pub same_direction : GatewayDirection → GatewayDirection → Bool
same_direction divergent divergent = true
same_direction convergent convergent = true
same_direction _ _ = false

abbrev pub gateway_if : Bool → Element → (GatewaySpec → Bool) → Outcome Bool
gateway_if false el test = ok false
gateway_if true el test = do g ← present el.gateway; ok (test g)

-- elem.Type == Gateway && elem.Gateway.Direction == divergent && elem.Gateway.ReciprocalId != ""
unfoldable pub reciprocated : Element → Outcome Bool
reciprocated el =
    gateway_if (el.kind == gateway_type) el
      (λ g. same_direction g.direction divergent && not (g.reciprocal_id == ""))

-- ... == convergent && ... == "": a join that no fork names
unfoldable pub solitary : Element → Outcome Bool
solitary el =
    gateway_if (el.kind == gateway_type) el
      (λ g. same_direction g.direction convergent && g.reciprocal_id == "")

abbrev pub is_default : ℕ → Option ℕ → Bool
is_default ord none = false
is_default ord (some d) = eqb ord d

module _ (codec : Codec) (expr : Expr) where
  -- The conditions of one flow; the loop breaks at the first that does not hold.
  unfoldable pub holds : Bytes → List String → Outcome Bool
  unfolding decode
  holds vars [] = ok true
  holds vars (ex ∷ rest) = do
    vals ← decode codec vars
    value ← make_fatal (expr.eval ex vals)
    res ← make_fatal (as_bool value)
    let others = holds vars rest
    if res then others else ok false

  abbrev pub add_target : Bool → Target → Map String → Map String
  add_target true t targets = insert t.id t.target targets
  add_target false t targets = targets

  -- for ord, t := range outbound.Target
  unfoldable pub select : Bytes → Option ℕ → ℕ → List Target → Map String → Outcome (Map String)
  unfolding holds
  select vars default ord [] targets = ok targets
  select vars default ord (t ∷ rest) targets = do
    chosen ← (if is_default ord default then ok false else holds vars t.conditions)
    select vars default (suc ord) rest (add_target chosen t targets)

  -- if len(targets) == 0 && outbound.DefaultTarget != -1
  abbrev pub or_default : List Target → Option ℕ → Map String → Outcome (Map String)
  or_default all (some d) [] = do t ← present (get_elem? all d); ok ((t.id, t.target) ∷ [])
  or_default all none [] = ok []
  or_default all default (t ∷ targets) = ok (t ∷ targets)

  unfoldable pub choose : Bytes → Targets → Outcome (Map String)
  unfolding select
  choose vars outbound = do
    targets ← select vars outbound.default_target 0 outbound.target []
    or_default outbound.target outbound.default_target targets
