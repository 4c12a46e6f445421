-- ===== src/Gateway/Merge/Faults.antt =====
-- mergeGatewayVars compares values of the type `any` by `!=`, which panics where both are slices.
use shar.Prelude.{
  ℕ, ◌≡◌, ◌≢◌, sym, subst, ap, ◌∙◌, String, Option, some, List, [], ◌∷◌, ◌==◌, eq_iff, arith,
  Bool-cases, inl, inr,
}
use shar.Prelude.Maps.{Map, lookup}
use shar.Errors.{ok, bind-eq-ok}
use shar.Model.{Bytes}
use shar.Vars.{Codec, Value, array, decode, interface_eq}
use shar.Gateway.Merge.{keep_change, merge_branch, merge_branches, merge_gateway_vars}

keep_change-array :
    (o : Option Value) (k : String) (a b : ℕ) (ret ret' : Map Value)
    → o ≡ some (array a)
    → keep_change o k (array b) ret ≢ ok ret'
unfolding interface_eq
keep_change-array o k a b ret ret' e h = let g = rw e at h in absurd (ground arith)

merge_branch-array :
    (base vals ret m : Map Value) (k : String) (a b : ℕ)
    → lookup k base ≡ some (array a)
    → lookup k vals ≡ some (array b)
    → merge_branch base vals ret ≢ ok m
unfolding merge_branch lookup
merge_branch-array base [] ret m k a b e f h = absurd (ground arith)
merge_branch-array base ((j, v) ∷ vals) ret m k a b e f h =
    let (ret', g, h1) = bind-eq-ok (keep_change (lookup j base) j v ret) _ h in
    elim (Bool-cases (j == k)) [
      | inl y ↦
          let eq : j ≡ k = (eq_iff j k).0 y in
          let v_array : v ≡ array b = ground arith in
          keep_change-array (lookup j base) j a b ret ret' (ap (λ x. lookup x base) eq ∙ e)
            (ap (λ x. keep_change (lookup j base) j x ret) (sym v_array) ∙ g)
      | inr n ↦ merge_branch-array base vals ret' m k a b e (ground arith) h1
    ]

-- When the base and the second arrival both hold an array under one name, changed or not, the merge of the arrivals never returns.
pub merge_gateway_vars-array :
    (codec : Codec) (first second : Bytes) (rest : List Bytes) (base vals : Map Value) (k : String)
    (a b : ℕ) (result : Bytes)
    → decode codec first ≡ ok base
    → decode codec second ≡ ok vals
    → lookup k base ≡ some (array a)
    → lookup k vals ≡ some (array b)
    → merge_gateway_vars codec (first ∷ second ∷ rest) ≢ ok result
unfolding merge_gateway_vars
merge_gateway_vars-array codec first second rest base vals k a b result d d' e f h =
    let (base', p, h1) = bind-eq-ok (decode codec first) _ h in
    let (ret, p', h2) = bind-eq-ok (decode codec first) _ h1 in
    let (merged, q, h3) = bind-eq-ok (merge_branches codec base' (second ∷ rest) ret) _ h2 in
    let (v2, r, q1) = bind-eq-ok (decode codec second) _ q in
    let (ret', s, q2) = bind-eq-ok (merge_branch base' v2 ret) _ q1 in
    let same : base ≡ base' = ground arith in
    let same' : vals ≡ v2 = ground arith in
    merge_branch-array base' v2 ret ret' k a b (subst (λ x. lookup k x ≡ some (array a)) same e)
      (subst (λ x. lookup k x ≡ some (array b)) same' f) s
