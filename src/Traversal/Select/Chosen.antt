-- ===== src/Traversal/Select/Chosen.antt =====
-- Which flows `traverse` of internal/server/workflow/engine.go takes.
use shar.Prelude.{
  ℕ, ◌≡◌, ◌≢◌, refl, sym, ap, ◌∙◌, inl, inr, String, true, some, List, [], ◌∷◌, arith, get_elem?,
  Bool-cases, All,
}
use shar.Prelude.Maps.{Map}
use shar.Errors.{Outcome, ok, err, panic, bind-eq-ok, make_fatal}
use shar.Model.{Bytes, Target, Targets}
use shar.Vars.{Codec, Expr, Value, boolean, decode}
use shar.Server.Published.{make_fatal-ok}
use shar.Traversal.Select.{present, as_bool, holds, select, or_default, choose}

module _ (codec : Codec) (expr : Expr) where
  or_default-some :
      (all : List Target) (d : ℕ) (targets chosen : Map String)
      → or_default codec expr all (some d) targets ≡ ok chosen
      → chosen ≢ []
  or_default-some all d [] chosen h e =
      let (t, p, q) = bind-eq-ok (present (get_elem? all d)) _ h in absurd (ground arith)
  or_default-some all d (t ∷ targets) chosen h e = absurd (ground arith)

  -- Where an element has a default flow, leaving it takes at least one flow: the process does not end there.
  choose-default :
      (vars : Bytes) (outbound : Targets) (d : ℕ) {chosen : Map String}
      → outbound.default_target ≡ some d
      → choose codec expr vars outbound ≡ ok chosen
      → chosen ≢ []
  unfolding choose
  choose-default vars outbound d {chosen} e h =
      let (targets, p, q) =
        bind-eq-ok (select codec expr vars outbound.default_target 0 outbound.target []) _ h in
      or_default-some outbound.target d targets chosen
        (ap (λ x. or_default codec expr outbound.target x targets) (sym e) ∙ q)

  -- A condition evaluates to true over the variables.
  abbrev pub IsTrue : Bytes → String → Type 0
  IsTrue vars ex =
      (vals : Map Value) × (decode codec vars ≡ ok vals) × (expr.eval ex vals ≡ ok (boolean true))

  as_bool-true :
      (vals : Map Value) (ex : String) (r : Outcome Value) (value : Value)
      → make_fatal r ≡ ok value
      → as_bool value ≡ ok true
      → r ≡ ok (boolean true)
  as_bool-true vals ex (ok (boolean true)) value h g = refl
  as_bool-true vals ex (ok v) value h g =
      ground (arith, ap as_bool (ap (λ x. elim x [ ok y ↦ y | _ ↦ v ]) h))
  as_bool-true vals ex (err e) value h g = absurd (ground arith)
  as_bool-true vals ex panic value h g = absurd (ground arith)

  -- The conditions of a flow are found to hold only where every one of them evaluates to true over the variables of the state.
  holds-IsTrue :
      (vars : Bytes) (conditions : List String)
      → holds codec expr vars conditions ≡ ok true
      → All (IsTrue vars) conditions
  unfolding holds
  holds-IsTrue vars [] h = tt
  holds-IsTrue vars (ex ∷ rest) h =
      let (vals, d, h1) = bind-eq-ok (decode codec vars) _ h in
      let (value, v, h2) = bind-eq-ok (make_fatal (expr.eval ex vals)) _ h1 in
      let (b, r, h3) = bind-eq-ok (make_fatal (as_bool value)) _ h2 in
      elim (Bool-cases b) [
        | inl t ↦ (
          (
            vals,
            d,
            as_bool-true vals ex (expr.eval ex vals) value v
                (make_fatal-ok (as_bool value) r ∙ ap ok t),
          ),
          holds-IsTrue vars rest (ground arith),
        )
        | inr f ↦ absurd (ground arith)
      ]
