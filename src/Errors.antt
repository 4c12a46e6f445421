-- ===== src/Errors.antt =====
-- server/errors/errors.go: the sentinel errors that handlers tell apart, and the outcome of a Go
-- call that returns `(T, error)`. A message that `fmt.Errorf` adds around `%w` is not modelled:
-- `errors.Is` and `errors.As` look through it.
pub mod Exec
pub mod Triple
use shar.Prelude.{◌≡◌, refl, Bool, true, false, arith, List, [], ◌∷◌, ◌||◌}

pub data Err : Type 0 where
  execution_not_found process_instance_not_found workflow_not_found element_not_found : Err
  job_not_found gateway_instance_not_found process_not_found : Err
  workflow_error_not_found unhandled_workflow_error invalid_state cancel_failed : Err
  -- jetstream.ErrKeyNotFound, ErrKeyExists, and the API error 10071 of a stale revision
  key_not_found key_exists wrong_last_sequence : Err
  -- any other error of a library call: transport, codec, expression engine
  library_error : Err
  -- *ErrWorkflowFatal, which has no Unwrap method
  fatal : Err → Err
  -- an error that a message handler returns beside `true`: `return true, err`
  acked : Err → Err

-- The tests `errors.Is(err, sentinel)` that the handlers make.
abbrev pub is_execution_not_found : Err → Bool
is_execution_not_found execution_not_found = true
is_execution_not_found _ = false

abbrev pub is_process_instance_not_found : Err → Bool
is_process_instance_not_found process_instance_not_found = true
is_process_instance_not_found _ = false

abbrev pub is_key_not_found : Err → Bool
is_key_not_found key_not_found = true
is_key_not_found _ = false

abbrev pub is_key_exists : Err → Bool
is_key_exists key_exists = true
is_key_exists _ = false

abbrev pub is_wrong_last_sequence : Err → Bool
is_wrong_last_sequence wrong_last_sequence = true
is_wrong_last_sequence _ = false

unfoldable pub is_workflow_fatal : Err → Bool
is_workflow_fatal (fatal e) = true
is_workflow_fatal (acked e) = is_workflow_fatal e
is_workflow_fatal _ = false

-- A run-time panic is the third case: no handler recovers from it.
pub data Outcome {ℓ} (A : Type ℓ) : Type ℓ where
  ok : A → Outcome A
  err : Err → Outcome A
  panic : Outcome A

infixl 10 ◌>>=◌ ◌>>◌
abbrev pub ◌>>=◌ {ℓ κ} : {A : Type ℓ} {B : Type κ} → Outcome A → (A → Outcome B) → Outcome B
ok a >>= f = f a
err e >>= f = err e
panic >>= f = panic

abbrev pub ◌>>◌ {ℓ κ} : {A : Type ℓ} {B : Type κ} → Outcome A → Outcome B → Outcome B
m >> n = m >>= λ _. n

-- if failed { return e }
abbrev pub fail_if : Bool → Err → Outcome (Unit {0})
fail_if true e = err e
fail_if false e = ok tt

-- `fmt.Errorf("%w", &ErrWorkflowFatal{Err: err})` around a failed call
abbrev pub make_fatal {ℓ} : {A : Type ℓ} → Outcome A → Outcome A
make_fatal (ok a) = ok a
make_fatal (err e) = err (fatal e)
make_fatal panic = panic

pub bind-eq-ok {ℓ κ} :
    {A : Type ℓ} {B : Type κ} (m : Outcome A) (f : A → Outcome B) {b : B}
    → (m >>= f) ≡ ok b
    → (a : A) × (m ≡ ok a) × (f a ≡ ok b)
bind-eq-ok (ok a) f h = (a, refl, h)
bind-eq-ok (err e) f h = absurd (ground arith)
bind-eq-ok panic f h = absurd (ground arith)
