-- ===== src/Tests/Gateways.antt =====
-- The theorems on gateways, at concrete inputs.
use shar.Prelude.{
  ◌≡◌, ◌≢◌, ◌⊎◌, refl, inl, inr, String, Bool, true, false, Bool-cases, ◌==◌, if◌then◌else◌, none,
  some, List, [], ◌∷◌,
}
use shar.Prelude.Maps.{Map, lookup, insert}
use shar.Errors.{ok}
use shar.Model.{Bytes, Gateway, WorkflowState, no_gateway, parallel}
use shar.Vars.{interface_eq, Value, decode, encode, integer, int64, array}
use shar.Nats.{Turn}
use shar.Gateway.Merge.{merge_gateway_vars}
use shar.Gateway.Merge.Latest.{Decoded, changed, changed_from, latest, merge_gateway_vars-latest}
use shar.Gateway.Merge.Faults.{merge_gateway_vars-array}
use shar.Tests.Store.{memory}
use shar.Tests.Data.{pair_codec, pair_codec-IsMapCodec, array_codec, one_met}

-- The gateway is new to this branch, and the other branch is counted while this one is between its read
-- of the saved gateway and its write.
abbrev other_branch : List (Turn memory Gateway)
other_branch = (λ b. b) ∷ (λ b. ("gw", some one_met) ∷ b) ∷ []

merge_gateway_vars-latest_example :
    (base : Map Value) × (branches : List (Map Value)) × (merged : Map Value) × (decode pair_codec
        (1 ∷ 2 ∷ [])
      ≡ ok base)
    × Decoded pair_codec ((1 ∷ 7 ∷ []) ∷ (4 ∷ 2 ∷ []) ∷ []) branches
    × (encode pair_codec merged ≡ ok (4 ∷ 7 ∷ []))
    × ((k : String) → lookup k merged ≡ latest base k (lookup k base) branches)
unfolding merge_gateway_vars lookup insert
merge_gateway_vars-latest_example =
    merge_gateway_vars-latest pair_codec pair_codec-IsMapCodec (1 ∷ 2 ∷ []) (1 ∷ 7 ∷ [])
      ((4 ∷ 2 ∷ []) ∷ []) {result = 4 ∷ 7 ∷ []} refl

abbrev pair : Bytes → Map Value
pair (a ∷ b ∷ []) = ("a", integer int64 a) ∷ ("b", integer int64 b) ∷ []
pair _ = []

apart :
    (k : String)
    → (changed (pair (1 ∷ 2 ∷ [])) k (pair (1 ∷ 7 ∷ [])) ≡ none)
      ⊎ (changed (pair (1 ∷ 2 ∷ [])) k (pair (4 ∷ 2 ∷ [])) ≡ none)
unfolding lookup interface_eq
apart k = elim (Bool-cases ("a" == k)) [
  | inl e ↦ inl (rw e refl)
  | inr n ↦ inr (rw n (neither ("b" == k)))
]
  where
    neither :
        (c : Bool)
        → changed_from
            (if c then some (integer int64 2) else none)
            (if c then some (integer int64 2) else none)
          ≡ none
    neither true = refl
    neither false = refl

merge_gateway_vars-array_example : merge_gateway_vars array_codec ((1 ∷ []) ∷ (1 ∷ []) ∷ []) ≢ ok []
unfolding decode lookup
merge_gateway_vars-array_example =
    merge_gateway_vars-array array_codec (1 ∷ []) (1 ∷ []) [] (("list", array 1) ∷ [])
      (("list", array 1) ∷ []) "list" 1 1 [] refl refl refl refl
