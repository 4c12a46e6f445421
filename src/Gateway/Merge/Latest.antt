-- ===== src/Gateway/Merge/Latest.antt =====
-- mergeGatewayVars: each variable ends with the value of the last branch that changed it.
use shar.Prelude.{
  ◌≡◌, refl, sym, subst, ap, ◌∙◌, ◌⊎◌, inl, inr, String, Bool, true, false, Option, none, some,
  List, [], ◌∷◌, ◌==◌, eq_iff, arith, if◌then◌else◌, Bool-cases,
}
use shar.Prelude.Maps.{Map, lookup, insert, lookup-insert, UniqueKeys}
use shar.Errors.{Outcome, ok, err, panic, ◌>>=◌, bind-eq-ok}
use shar.Model.{Bytes}
use shar.Vars.{Codec, Value, decode, encode, interface_eq}
use shar.Gateway.Merge.{keep_change, merge_branch, merge_branches, merge_gateway_vars}

-- The new value, if a branch that ends with `v` changed what the base has.
abbrev pub differs_by : Outcome Bool → Value → Option Value
differs_by (ok false) v = some v
differs_by _ v = none

abbrev pub differs : Option Value → Value → Option Value
differs none v = some v
differs (some bv) v = differs_by (interface_eq bv v) v

abbrev pub changed_from : Option Value → Option Value → Option Value
changed_from bv none = none
changed_from bv (some v) = differs bv v

-- What a branch made of a variable, if it changed it.
abbrev pub changed : Map Value → String → Map Value → Option Value
changed base k vals = changed_from (lookup k base) (lookup k vals)

abbrev pub or_else : Option Value → Option Value → Option Value
or_else none o = o
or_else (some v) o = some v

-- The value of the last branch that changed the variable, or `acc`.
abbrev pub latest : Map Value → String → Option Value → List (Map Value) → Option Value
latest base k acc [] = acc
latest base k acc (vals ∷ rest) = latest base k (or_else (changed base k vals) acc) rest

pub lookup-keep_change :
    (o : Option Value) (j k : String) (v : Value) (ret ret' : Map Value)
    → keep_change o j v ret ≡ ok ret'
    → lookup k ret' ≡ (if j == k then or_else (differs o v) (lookup k ret) else lookup k ret)
lookup-keep_change none j k v ret ret' h =
    let e : insert j v ret ≡ ret' = ground arith in rw (← e) (lookup-insert j k v ret)
lookup-keep_change (some bv) j k v ret ret' h = go (interface_eq bv v) refl h
  where
    go :
        (r : Outcome Bool)
        → interface_eq bv v ≡ r
        → (r >>= λ same. ok (if same then ret else insert j v ret)) ≡ ok ret'
        → lookup k ret' ≡ (
            if j == k
            then or_else (differs_by (interface_eq bv v) v) (lookup k ret)
            else lookup k ret)
    go (ok true) e q = rw e (ground arith)
    go (ok false) e q =
        let s : insert j v ret ≡ ret' = ground arith in rw e (rw (← s) (lookup-insert j k v ret))
    go (err x) e q = absurd (ground arith)
    go panic e q = absurd (ground arith)

pub lookup-merge_branch :
    (base vals ret m : Map Value) (k : String)
    → UniqueKeys vals
    → merge_branch base vals ret ≡ ok m
    → lookup k m ≡ or_else (changed base k vals) (lookup k ret)
unfolding merge_branch lookup
lookup-merge_branch base [] ret m k u h = ground arith
lookup-merge_branch base ((j, v) ∷ vals) ret m k u h =
    let (ret', e, h1) = bind-eq-ok (keep_change (lookup j base) j v ret) _ h in
    let ih = lookup-merge_branch base vals ret' m k u.1 h1 in
    let step = lookup-keep_change (lookup j base) j k v ret ret' e in
    elim (Bool-cases (j == k)) [
      | inl y ↦ ground (
        arith,
        ih,
        step,
        y,
        eq_iff j k,
        ap (λ x. lookup x base) ((eq_iff j k).0 y),
        subst (λ x. lookup x vals ≡ none) ((eq_iff j k).0 y) u.0,
      )
      | inr n ↦ ground (arith, ih, step, n)
    ]

-- The branches' variables, decoded.
abbrev pub Decoded : Codec → List Bytes → List (Map Value) → Type 0
Decoded codec [] [] = Unit
Decoded codec (b ∷ bs) (m ∷ ms) = (decode codec b ≡ ok m) × Decoded codec bs ms
Decoded codec _ _ = ⊥

-- A decoded set of variables is a Go map.
pub record IsMapCodec (codec : Codec) : Type 0 where
  pub unique : (b : Bytes) (m : Map Value) → decode codec b ≡ ok m → UniqueKeys m

module _ (codec : Codec) (unique : IsMapCodec codec) where
  lookup-merge_branches :
      (base : Map Value) (bs : List Bytes) (ret m : Map Value)
      → merge_branches codec base bs ret ≡ ok m
      → (ms : List (Map Value)) × Decoded codec bs ms
        × ((k : String) → lookup k m ≡ latest base k (lookup k ret) ms)
  unfolding merge_branches
  lookup-merge_branches base [] ret m h =
      let e : ret ≡ m = ground arith in ([], tt, λ k. ap (lookup k) (sym e))
  lookup-merge_branches base (b ∷ bs) ret m h =
      let (v2, d, h1) = bind-eq-ok (decode codec b) _ h in
      let (ret', e, h2) = bind-eq-ok (merge_branch base v2 ret) _ h1 in
      let (ms, ds, at) = lookup-merge_branches base bs ret' m h2 in
      (
        v2 ∷ ms,
        (d, ds),
        λ k.
            at k
            ∙ ap (λ x. latest base k x ms)
                (lookup-merge_branch base v2 ret ret' k (unique.unique b v2 d) e),
      )

  -- When the variables of several arrivals are merged, the first being the base: the result encodes variables in which each name has the value that the last branch to change it gave, a branch changing a name when the base lacks it or has a different value, and the base's value where no branch changed it.
  pub merge_gateway_vars-latest :
      (first second : Bytes) (rest : List Bytes) {result : Bytes}
      → merge_gateway_vars codec (first ∷ second ∷ rest) ≡ ok result
      → (base : Map Value) × (branches : List (Map Value)) × (merged : Map Value) × (decode codec
            first
          ≡ ok base)
        × Decoded codec (second ∷ rest) branches
        × (encode codec merged ≡ ok result)
        × ((k : String) → lookup k merged ≡ latest base k (lookup k base) branches)
  unfolding merge_gateway_vars
  merge_gateway_vars-latest first second rest h =
      let (base, d, h1) = bind-eq-ok (decode codec first) _ h in
      let (ret, d', h2) = bind-eq-ok (decode codec first) _ h1 in
      let (m, e, h3) = bind-eq-ok (merge_branches codec base (second ∷ rest) ret) _ h2 in
      let same : ret ≡ base = ground arith in
      let (ms, ds, at) = lookup-merge_branches base (second ∷ rest) ret m e in
      (base, ms, m, d, ds, h3, λ k. at k ∙ ap (λ x. latest base k (lookup k x) ms) same)

  -- The merge of two branches, of which no name is changed by both, does not depend on the order in which they arrive: both orders leave the same value under every name.
  merge_branches_comm :
      (base ret : Map Value) (a b : Bytes) (ma mb m m' : Map Value)
      → decode codec a ≡ ok ma
      → decode codec b ≡ ok mb
      → ((k : String) → (changed base k ma ≡ none) ⊎ (changed base k mb ≡ none))
      → merge_branches codec base (a ∷ b ∷ []) ret ≡ ok m
      → merge_branches codec base (b ∷ a ∷ []) ret ≡ ok m'
      → (k : String) → lookup k m ≡ lookup k m'
  unfolding merge_branches
  merge_branches_comm base ret a b ma mb m m' da db apart h h' k =
      let (x, e, g) = bind-eq-ok (merge_branch base ma ret) _ (rw (da, db) at h) in
      let (y, f, g') = bind-eq-ok (merge_branch base mb ret) _ (rw (da, db) at h') in
      let (z, p, q) = bind-eq-ok (merge_branch base mb x) _ g in
      let (w, r, s) = bind-eq-ok (merge_branch base ma y) _ g' in
      ground (
        arith,
        apart k,
        q,
        s,
        lookup-merge_branch base ma ret x k (unique.unique a ma da) e,
        lookup-merge_branch base mb ret y k (unique.unique b mb db) f,
        lookup-merge_branch base mb x z k (unique.unique b mb db) p,
        lookup-merge_branch base ma y w k (unique.unique a ma da) r,
      )
