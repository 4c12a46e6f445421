-- ===== src/Validation/Accepted.antt =====
-- ValidateTaskSpec of common/validation/service_task.go: what an accepted specification is.
use Prim.Native.Char.{code}
use shar.Prelude.{
  ℕ, ◌≡◌, ◌≢◌, ◌↔◌, ◌⊎◌, refl, String, Bool, true, false, not, ◌&&◌, Option, none, some, List, [],
  ◌∷◌, ◌++◌, ◌==◌, eqb, arith, All, eq_iff, Bool-cases,
}
use shar.Task.{
  TaskSpec, TaskMetadata, TaskBehaviour, TaskMockBehaviours, DefaultTaskRetry,
  DefaultRetryExceededBehaviour, Parameter,
}
use shar.Backoff.{signed_lt}
use shar.Validation.{
  SpecError, Verdict, accepted, crashed, rejected, ◌then_check◌, check, trim_equals, every,
  is_name_char, is_nats_char, is_digit, valid_nats_name, valid_exp_name, check_first,
  check_exceeded, check_retry, check_expression, check_mock, check_example, check_parameters,
  check_section, check_metadata, check_behaviour, validate_task_spec,
}

then_check_iff : (v w : Verdict) → ((v then_check w) ≡ accepted) ↔ ((v ≡ accepted) × (w ≡ accepted))
then_check_iff v w = (forward v, backward v)
  where
    forward : (v : Verdict) → (v then_check w) ≡ accepted → (v ≡ accepted) × (w ≡ accepted)
    forward accepted h = (refl, h)
    forward crashed h = absurd (ground arith)
    forward (rejected e) h = absurd (ground arith)

    backward : (v : Verdict) → (v ≡ accepted) × (w ≡ accepted) → (v then_check w) ≡ accepted
    backward accepted h = h.1
    backward crashed h = absurd (ground arith)
    backward (rejected e) h = absurd (ground arith)

check_iff : (b : Bool) (e : SpecError) → (check b e ≡ accepted) ↔ (b ≡ true)
check_iff true e = (λ h. refl, λ h. refl)
check_iff false e = (λ h. absurd (ground arith), λ h. absurd (ground arith))

-- A name that expressions can use: not empty, of letters, digits and underscores, no digit first.
abbrev pub StartsWell : String → Type 0
StartsWell String.[] = ⊥
StartsWell (String.◌∷◌ c s) = is_digit (code c) ≡ false

abbrev pub ExpName : String → Type 0
ExpName name = (every is_name_char name ≡ true) × StartsWell name

-- A text that is empty, or an expression that compiles.
abbrev pub Compiles : (String → Bool) → String → Type 0
Compiles compiles ex = (ex ≡ "") ⊎ ((ex ≢ "") × (compiles (trim_equals ex) ≡ true))

abbrev pub GoodParameter : (String → Bool) → Bool → Parameter → Type 0
GoodParameter compiles mock p =
    Compiles compiles p.validate_expr
    × (ExpName p.name × (Compiles compiles p.example × ((mock ≡ true) → p.example ≢ "")))

abbrev pub GoodRetry : Option DefaultTaskRetry → Type 0
GoodRetry none = ⊥
GoodRetry (some r) =
    (r.default_exceeded ≢ none)
    × ((r.interval_milli ≢ 0)
        × ((r.max_milli ≢ 0) × (signed_lt r.interval_milli r.max_milli ≡ true)))

abbrev pub GoodMock : (String → Bool) → Option TaskMockBehaviours → Type 0
GoodMock compiles none = Unit
GoodMock compiles (some m) =
    Compiles compiles m.error_code_expr × Compiles compiles m.fatal_error_expr

abbrev pub GoodParameters : (String → Bool) → Bool → Option (List Parameter) → Type 0
GoodParameters compiles mock none = Unit
GoodParameters compiles mock (some ps) = All (GoodParameter compiles mock) ps

abbrev pub GoodBehaviour : (String → Bool) → Option TaskBehaviour → Option (List Parameter) → Type 0
GoodBehaviour compiles none ps = ⊥
GoodBehaviour compiles (some b) ps =
    (b.estimated_max_duration ≢ 0)
    × (GoodRetry b.default_retry
        × (GoodMock compiles b.mock_behaviour × GoodParameters compiles b.mock ps))

abbrev pub GoodMetadata : Option TaskMetadata → Type 0
GoodMetadata none = ⊥
GoodMetadata (some m) = every is_nats_char m.kind ≡ true

abbrev pub GoodSpec : (String → Bool) → TaskSpec → Type 0
GoodSpec compiles td =
    (td.version ≡ "1.0")
    × (GoodMetadata td.metadata × GoodBehaviour compiles td.behaviour td.parameters)

check_first_iff : (name : String) → (check_first name ≡ accepted) ↔ StartsWell name
check_first_iff String.[] = (λ h. absurd (ground arith), λ h. absurd h)
check_first_iff (String.◌∷◌ c s) = (λ h. ground arith, λ h. ground arith)

-- Two checks in a row, each with what it accepts.
both_iff {κ μ} :
    {P : Type κ} {Q : Type μ} {v w : Verdict}
    → (v ≡ accepted) ↔ P
    → (w ≡ accepted) ↔ Q
    → ((v then_check w) ≡ accepted) ↔ (P × Q)
both_iff {P} {Q} {v} {w} p q = (
  λ h. let (a, b) = (then_check_iff v w).0 h in (p.0 a, q.0 b),
  λ h. (then_check_iff v w).1 (p.1 h.0, q.1 h.1),
)

valid_exp_name_iff : (name : String) → (valid_exp_name name ≡ accepted) ↔ ExpName name
unfolding valid_exp_name
valid_exp_name_iff name = both_iff (check_iff _ _) (check_first_iff name)

exceeded_iff :
    (o : Option DefaultRetryExceededBehaviour) → (check_exceeded o ≡ accepted) ↔ (o ≢ none)
exceeded_iff none = (λ h. absurd (ground arith), λ h. absurd (h refl))
exceeded_iff (some b) = (λ h e. ground arith, λ h. refl)

nonzero_iff : (n : ℕ) (e : SpecError) → (check (not (eqb n 0)) e ≡ accepted) ↔ (n ≢ 0)
nonzero_iff n e = (λ h z. ground arith, λ h. ground arith)

larger_iff :
    (n : ℕ) (b : Bool) (e : SpecError)
    → (check (not (eqb n 0) && b) e ≡ accepted) ↔ ((n ≢ 0) × (b ≡ true))
larger_iff n b e = (λ h. (λ z. ground arith, ground arith), λ h. ground arith)

check_retry_iff : (o : Option DefaultTaskRetry) → (check_retry o ≡ accepted) ↔ GoodRetry o
unfolding check_retry
check_retry_iff none = (λ h. absurd (ground arith), λ h. absurd h)
check_retry_iff (some r) =
    both_iff (exceeded_iff r.default_exceeded)
      (both_iff (nonzero_iff r.interval_milli _) (larger_iff r.max_milli _ _))

module _ (compiles : String → Bool) where
  check_expression_iff :
      (ex : String) → (check_expression compiles ex ≡ accepted) ↔ Compiles compiles ex
  check_expression_iff ex = (λ h. ground (arith, eq_iff ex ""), λ h. ground (arith, eq_iff ex ""))

  check_example_iff :
      (mock : Bool) (ex : String)
      → (check_example compiles mock ex ≡ accepted)
        ↔ (Compiles compiles ex × ((mock ≡ true) → ex ≢ ""))
  check_example_iff mock ex = (
    λ h. (ground (arith, eq_iff ex ""), λ m e. ground (arith, eq_iff ex "")),
    λ h. ground (arith, eq_iff ex "", Bool-cases mock),
  )

  check_parameters_iff :
      (mock : Bool) (ps : List Parameter)
      → (check_parameters compiles mock ps ≡ accepted) ↔ All (GoodParameter compiles mock) ps
  unfolding check_parameters
  check_parameters_iff mock [] = (λ h. tt, λ h. refl)
  check_parameters_iff mock (p ∷ ps) =
      let all = both_iff (check_expression_iff p.validate_expr) (
        both_iff (valid_exp_name_iff p.name)
          (both_iff (check_example_iff mock p.example) (check_parameters_iff mock ps))) in
      (
        λ h. let a = all.0 h in ((a.0, (a.1.0, a.1.1.0)), a.1.1.1),
        λ h. all.1 (h.0.0, (h.0.1.0, (h.0.1.1, h.1))),
      )

  check_section_iff :
      (mock : Bool) (o : Option (List Parameter))
      → (check_section compiles mock o ≡ accepted) ↔ GoodParameters compiles mock o
  check_section_iff mock none = (λ h. tt, λ h. refl)
  check_section_iff mock (some ps) = check_parameters_iff mock ps

  check_mock_iff :
      (o : Option TaskMockBehaviours) → (check_mock compiles o ≡ accepted) ↔ GoodMock compiles o
  unfolding check_mock
  check_mock_iff none = (λ h. tt, λ h. refl)
  check_mock_iff (some m) =
      both_iff (check_expression_iff m.error_code_expr) (check_expression_iff m.fatal_error_expr)

  check_behaviour_iff :
      (o : Option TaskBehaviour) (ps : Option (List Parameter))
      → (check_behaviour compiles o ps ≡ accepted) ↔ GoodBehaviour compiles o ps
  check_behaviour_iff none ps = (λ h. absurd (ground arith), λ h. absurd h)
  check_behaviour_iff (some b) ps = both_iff (nonzero_iff b.estimated_max_duration _) (
      both_iff (check_retry_iff b.default_retry)
        (both_iff (check_mock_iff b.mock_behaviour) (check_section_iff b.mock ps)))

  check_metadata_iff :
      (o : Option TaskMetadata) → (check_metadata compiles o ≡ accepted) ↔ GoodMetadata o
  unfolding valid_nats_name
  check_metadata_iff none = (λ h. absurd (ground arith), λ h. absurd h)
  check_metadata_iff (some m) = check_iff _ _

  version_iff :
      (v : String) → (check (v == "1.0") SpecError.task_spec_version ≡ accepted) ↔ (v ≡ "1.0")
  version_iff v = (λ h. ground (arith, eq_iff v "1.0"), λ h. ground (arith, eq_iff v "1.0"))

  -- A task specification is accepted exactly when its version is 1.0, its type has no space and no period, its estimated duration is not zero, its retry has a last resort, an interval that is not zero and a ceiling that is not zero and above the interval, the mock expressions compile where they are given, and every input parameter has a name that expressions can use, a validation that compiles where it is given, and an example that compiles, which may be missing only where the task is not a placeholder.
  pub validate_task_spec_iff :
      (td : TaskSpec) → (validate_task_spec compiles td ≡ accepted) ↔ GoodSpec compiles td
  unfolding validate_task_spec
  validate_task_spec_iff td =
      both_iff (version_iff td.version)
        (both_iff (check_metadata_iff td.metadata) (check_behaviour_iff td.behaviour td.parameters))

  -- A parameter with no name, where no earlier check fails, is not rejected: the validation panics.
  check_parameters-unnamed :
      (mock : Bool) (before after : List Parameter) (p : Parameter)
      → All (GoodParameter compiles mock) before
      → Compiles compiles p.validate_expr
      → p.name ≡ ""
      → check_parameters compiles mock (before ++ p ∷ after) ≡ crashed
  unfolding check_parameters valid_exp_name
  check_parameters-unnamed mock [] after p h c e =
      rw ((check_expression_iff p.validate_expr).1 c, e) refl
  check_parameters-unnamed mock (q ∷ before) after p h c e =
      rw
        (
          (check_expression_iff q.validate_expr).1 h.0.0,
          (valid_exp_name_iff q.name).1 h.0.1.0,
          (check_example_iff mock q.example).1 h.0.1.1,
        )
        (check_parameters-unnamed mock before after p h.1 c e)
