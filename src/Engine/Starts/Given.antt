-- ===== src/Engine/Starts/Given.antt =====
-- startJob of internal/server/workflow/operations.go: what the element gives the job.
use shar.Prelude.{
  ℕ, ◌≡◌, ◌≢◌, ◌⊎◌, inl, inr, refl, sym, ap, ◌∙◌, String, Bool, Option, none, some, List, [], ◌==◌,
  eq_iff, Bool-cases, arith,
}
use shar.Errors.{ok, make_fatal, bind-eq-ok}
use shar.Model.{Bytes, Element, WorkflowState}
use shar.Vars.{Codec, Expr, input_vars}
use shar.Server.{Libraries}
use shar.Server.Published.{make_fatal-ok}
use shar.Engine.Starts.{versioned, transformed}

-- What the element gives a job: its execute and version, and the variables of its input. An event
-- that waits for a message keeps the job's variables.
pub record Given (codec : Codec) (expr : Expr) (el : Element) (v : Bytes)
    (job input : WorkflowState) : Type 0 where
  pub version : String
  pub version_is :
      (el.version ≡ some version) ⊎ ((el.version ≡ none) × (version ≡ job.execute_version))
  pub vars : Bytes
  pub vars_are :
      ((el.kind ≡ "messageIntermediateCatchEvent") × (vars ≡ job.vars))
      ⊎ ((el.kind ≢ "messageIntermediateCatchEvent") × (input_vars codec expr v [] el ≡ ok vars))
  pub is : input ≡ record job { execute = some el.execute; execute_version = version; vars = vars }

version_of : WorkflowState → Option String → String
version_of job none = job.execute_version
version_of job (some v) = v

versioned-is :
    (el : Element) (job : WorkflowState) (o : Option String)
    → el.version ≡ o
    → ((el.version ≡ some (version_of job o))
        ⊎ ((el.version ≡ none) × (version_of job o ≡ job.execute_version)))
      × (versioned el job
          ≡ record job { execute = some el.execute; execute_version = version_of job o })
unfolding version_of
versioned-is el job none at = (inr (at, refl), rw at refl)
versioned-is el job (some v) at = (inl at, rw at refl)

module _ (lib : Libraries) (codec : Codec) (expr : Expr) (strings : ℕ → Option (List String)) where
  pub transformed-Given :
      (el : Element) (v : Bytes) (job input : WorkflowState)
      → transformed lib codec expr strings
          (el.kind == "messageIntermediateCatchEvent")
          el
          v
          (versioned el job)
        ≡ ok input
      → Given codec expr el v job input
  transformed-Given el v job input h =
      let (choice, form) = versioned-is el job el.version refl in
      let version = version_of job el.version in
      let go = λ (b : Bool). transformed lib codec expr strings b el v (versioned el job) in
      let kind = eq_iff el.kind "messageIntermediateCatchEvent" in
      elim (Bool-cases (el.kind == "messageIntermediateCatchEvent")) [
        | inl t ↦
            let same : versioned el job ≡ input =
              ap (λ r. elim r [ ok x ↦ x | _ ↦ input ]) (ap go (sym t) ∙ h) in
            record {
              version = version;
              version_is = choice;
              vars = job.vars;
              vars_are = inl (kind.0 t, refl);
              is = sym same ∙ form;
            }
        | inr f ↦
            let (vars, p, q) =
              bind-eq-ok (make_fatal (input_vars codec expr v [] el))
                (λ vars. ok (record (versioned el job) { vars = vars })) (ap go (sym f) ∙ h) in
            record {
              version = version;
              version_is = choice;
              vars = vars;
              vars_are = inr (
                λ is. absurd (ground (arith, f, kind.1 is)),
                make_fatal-ok (input_vars codec expr v [] el) p,
              );
              is =
                  sym (ap (λ r. elim r [ ok x ↦ x | _ ↦ input ]) q)
                  ∙ ap {A = WorkflowState} (λ x. record x { vars = vars }) form;
            }
      ]
