-- ===== src/Gateway/Merge.antt =====
-- mergeGatewayVars of internal/server/workflow/gateway.go
pub mod Latest
pub mod Faults
use shar.Prelude.{ℕ, String, Bool, Option, none, some, List, [], ◌∷◌, if◌then◌else◌}
use shar.Prelude.Maps.{Map, lookup, insert}
use shar.Errors.{Outcome, ok, panic, ◌>>=◌}
use shar.Model.{Bytes}
use shar.Vars.{Codec, Value, decode, encode, interface_eq}

-- if !ok || bv != v { ret.Vals[k] = v }
abbrev pub keep_change : Option Value → String → Value → Map Value → Outcome (Map Value)
keep_change none k v ret = ok (insert k v ret)
keep_change (some bv) k v ret = do
  same ← interface_eq bv v
  ok (if same then ret else insert k v ret)

unfoldable pub merge_branch : Map Value → Map Value → Map Value → Outcome (Map Value)
unfolding interface_eq
merge_branch base [] ret = ok ret
merge_branch base ((k, v) ∷ vals) ret = do
  ret' ← keep_change (lookup k base) k v ret
  merge_branch base vals ret'

unfoldable pub merge_branches : Codec → Map Value → List Bytes → Map Value → Outcome (Map Value)
unfolding merge_branch decode
merge_branches codec base [] ret = ok ret
merge_branches codec base (vars ∷ rest) ret = do
  v2 ← decode codec vars
  ret' ← merge_branch base v2 ret
  merge_branches codec base rest ret'

-- gw.Vars[0] of an empty slice panics.
unfoldable pub merge_gateway_vars : Codec → List Bytes → Outcome Bytes
unfolding merge_branches encode
merge_gateway_vars codec [] = panic
merge_gateway_vars codec (first ∷ []) = ok first
merge_gateway_vars codec (first ∷ second ∷ rest) = do
  base ← decode codec first
  ret ← decode codec first
  merged ← merge_branches codec base (second ∷ rest) ret
  encode codec merged
