-- ===== src/Vars/Transform.antt =====
-- server/vars/vars.go: what the transformations of variables compute.
use shar.Prelude.{
  ◌≡◌, ◌↔◌, refl, subst, ◌∙◌, String, true, false, Option, none, some, List, [], ◌∷◌, ◌==◌, arith,
  eq_iff, inl, inr, Bool-cases, All,
}
use shar.Prelude.Maps.{Map, lookup, insert, has_key, lookup-insert, UniqueKeys}
use shar.Errors.{Outcome, ok, err, ◌>>=◌, ◌>>◌, panic, bind-eq-ok}
use shar.Model.{Bytes, Element}
use shar.Vars.{
  Codec, Expr, Value, decode, encode, transform_into, output_vars, check_present, check_transform,
  check_vars,
}

-- What a transformation of `source` into `target` leaves under one name: the value of the
-- expression for that name, or what `target` had.
abbrev pub ResultAt : Expr → Map Value → Map Value → Map Value → String → Option String → Type 0
ResultAt expr source target merged j none = lookup j merged ≡ lookup j target
ResultAt expr source target merged j (some e) =
    (v : Value) × (expr.eval e source ≡ ok v) × (lookup j merged ≡ some v)

module _ (codec : Codec) (expr : Expr) (source : Map Value) where
  result_rest :
      (k v : String) (rest : Map String) (res : Value) (target merged : Map Value) (j : String)
      (o : Option String)
      → (k == j) ≡ false
      → ResultAt expr source (insert k res target) merged j o
      → ResultAt expr source target merged j o
  result_rest k v rest res target merged j none ne h = h ∙ lookup-insert k j res target ∙ rw ne
  result_rest k v rest res target merged j (some e) ne h = h

  result_here :
      (k v : String) (rest : Map String) (res : Value) (target merged : Map Value) (j : String)
      (o : Option String)
      → (k == j) ≡ true
      → expr.eval v source ≡ ok res
      → o ≡ none
      → ResultAt expr source (insert k res target) merged j o
      → ResultAt expr source target merged j (some v)
  result_here k v rest res target merged j none e ev n h =
      (res, ev, h ∙ lookup-insert k j res target ∙ rw e)
  result_here k v rest res target merged j (some x) e ev n h = absurd (ground arith)

  transform_into-ResultAt :
      (transform : Map String) (target merged : Map Value) (j : String)
      → UniqueKeys transform
      → transform_into codec expr source transform target ≡ ok merged
      → ResultAt expr source target merged j (lookup j transform)
  unfolding transform_into lookup
  transform_into-ResultAt [] target merged j u h = ground arith
  transform_into-ResultAt ((k, v) ∷ rest) target merged j u h =
      let (res, ev, h1) = bind-eq-ok (expr.eval v source) _ h in
      let ih = transform_into-ResultAt rest (insert k res target) merged j u.1 h1 in
      elim (Bool-cases (k == j)) [
        | inl e ↦ rw e (
            result_here k v rest res target merged j (lookup j rest) e ev
              (subst (λ x. lookup x rest ≡ none) ((eq_iff k j).0 e) u.0) ih)
        | inr ne ↦ rw ne (result_rest k v rest res target merged j (lookup j rest) ne ih)
      ]

-- The outcome of an output transformation, name by name.
pub record Merged (codec : Codec) (expr : Expr) (local process : Bytes) (transform : Map String)
    (result : Bytes) : Type 0 where
  pub local_vars : Map Value
  pub process_vars : Map Value
  pub merged : Map Value
  pub local_decoded : decode codec local ≡ ok local_vars
  pub process_decoded : decode codec process ≡ ok process_vars
  pub encoded : encode codec merged ≡ ok result
  pub result_at : (j : String) → ResultAt expr local_vars process_vars merged j (lookup j transform)

module _ (codec : Codec) (expr : Expr) where
  -- When an output transformation succeeds, its result encodes the process variables with exactly the transformed names replaced: a name of the transformation holds the value of its expression over the new local variables, and every other name holds what it held.
  pub output_vars-Merged :
      (local process : Bytes) (transform : Map String) {result : Bytes}
      → UniqueKeys transform
      → output_vars codec expr local process (some transform) ≡ ok result
      → Merged codec expr local process transform result
  unfolding output_vars
  output_vars-Merged local process transform u h =
      let (ls, e1, h1) = bind-eq-ok (decode codec local) _ h in
      let (ps, e2, h2) = bind-eq-ok (decode codec process) _ h1 in
      let (m, e3, h3) = bind-eq-ok (transform_into codec expr ls transform ps) _ h2 in
      record {
        local_vars = ls;
        process_vars = ps;
        merged = m;
        local_decoded = e1;
        process_decoded = e2;
        encoded = h3;
        result_at = λ j. transform_into-ResultAt codec expr ls transform ps m j u e3;
      }

  check_present-All :
      (names : List String) (vals : Map Value)
      → check_present codec expr names vals ≡ ok tt
      → All (λ name. has_key name vals ≡ true) names
  unfolding check_present
  check_present-All [] vals h = tt
  check_present-All (name ∷ names) vals h = elim (Bool-cases (has_key name vals)) [
    | inl e ↦ (e, check_present-All names vals (ground arith))
    | inr e ↦ absurd (ground arith)
  ]

  -- The variables that an expression mentions are all set.
  abbrev pub Covered : Map Value → Outcome (List String) → Type 0
  Covered vals (ok names) = All (λ name. has_key name vals ≡ true) names
  Covered vals _ = ⊥

  abbrev pub AllCovered : Map Value → Map String → Type 0
  AllCovered vals [] = Unit
  AllCovered vals ((k, v) ∷ rest) = Covered vals (expr.get_variables v) × AllCovered vals rest

  All-check_present :
      (names : List String) (vals : Map Value)
      → All (λ name. has_key name vals ≡ true) names
      → check_present codec expr names vals ≡ ok tt
  unfolding check_present
  All-check_present [] vals h = refl
  All-check_present (name ∷ names) vals h = rw h.0 (All-check_present names vals h.1)

  Covered-names :
      (vals : Map Value) (r : Outcome (List String)) (names : List String)
      → r ≡ ok names
      → All (λ name. has_key name vals ≡ true) names
      → Covered vals r
  Covered-names vals r names e h = rw e h

  check_transform-AllCovered :
      (transform : Map String) (vals : Map Value)
      → check_transform codec expr transform vals ≡ ok tt
      → AllCovered vals transform
  unfolding check_transform
  check_transform-AllCovered [] vals h = tt
  check_transform-AllCovered ((k, v) ∷ rest) vals h =
      let (names, e, h1) = bind-eq-ok (expr.get_variables v) _ h in
      let (t, e', h2) = bind-eq-ok (check_present codec expr names vals) _ h1 in
      (
        Covered-names vals (expr.get_variables v) names e (check_present-All names vals e'),
        check_transform-AllCovered rest vals h2,
      )

  AllCovered-check_transform :
      (transform : Map String) (vals : Map Value)
      → AllCovered vals transform
      → check_transform codec expr transform vals ≡ ok tt
  unfolding check_transform
  AllCovered-check_transform [] vals h = refl
  AllCovered-check_transform ((k, v) ∷ rest) vals h =
      go (expr.get_variables v) h.0 (AllCovered-check_transform rest vals h.1)
    where
      go :
          (r : Outcome (List String))
          → Covered vals r
          → check_transform codec expr rest vals ≡ ok tt
          → (do
            names ← r
            check_present codec expr names vals
            check_transform codec expr rest vals)
            ≡ ok tt
      go (ok names) c ih = rw (All-check_present names vals c) ih
      go (err x) c ih = absurd c
      go panic c ih = absurd c

  -- For an element with an output transformation and variables that decode, the check passes exactly when every variable that the transformation's expressions mention is set.
  pub check_vars-iff_covered :
      (vars : Bytes) (el : Element) (transform : Map String) (vals : Map Value)
      → el.output_transform ≡ some transform
      → decode codec vars ≡ ok vals
      → (check_vars codec expr vars el ≡ ok tt) ↔ AllCovered vals transform
  unfolding check_vars
  check_vars-iff_covered vars el transform vals e d = (
    λ h. check_transform-AllCovered transform vals (rw (e, d) at h),
    λ c. rw (e, d) (AllCovered-check_transform transform vals c),
  )
