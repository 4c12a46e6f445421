-- ===== src/Errors/Exec.antt =====
-- Handlers that change the stores of the server and may fail. What was written before an error
-- stays written, so the state comes back beside the error too.
use shar.Prelude.{◌≡◌, refl, sym, ap, arith}
use shar.Errors.{Err, Outcome, ok, err, panic}

abbrev pub Exec : Type 0 → Type 0 → Type 0
Exec S A = S → Outcome A × S

module _ {S A : Type 0} where
  abbrev pub pure : A → Exec S A
  pure a s = (ok a, s)

  abbrev pub raise : Err → Exec S A
  raise e s = (err e, s)

  abbrev pub lift : Outcome A → Exec S A
  lift r s = (r, s)

  -- A call that reads the state.
  abbrev pub query : (S → Outcome A) → Exec S A
  query f s = (f s, s)

-- A call whose result is put into the state: `put` is the state and `out` the value returned when
-- it succeeds.
abbrev pub committed : {S A B : Type 0} → S → (A → S) → (A → B) → Outcome A → Outcome B × S
committed s put out (ok a) = (ok (out a), put a)
committed s put out (err e) = (err e, s)
committed s put out panic = (panic, s)

pub committed-ok :
    {S A B : Type 0} (s : S) (put : A → S) (out : A → B) (r : Outcome A) {b : B} {s' : S}
    → committed s put out r ≡ (ok b, s')
    → (a : A) × (r ≡ ok a) × (s' ≡ put a) × (b ≡ out a)
committed-ok s put out (ok a) h = (a, refl, ground arith, ground arith)
committed-ok s put out (err e) h = absurd (ground arith)
committed-ok s put out panic h = absurd (ground arith)

module _ {S A B : Type 0} where
  abbrev pub continue : Outcome A → (A → Exec S B) → Exec S B
  continue (ok a) f s = f a s
  continue (err e) f s = (err e, s)
  continue panic f s = (panic, s)

  infixl 10 ◌>>=◌ ◌>>◌
  abbrev pub ◌>>=◌ : Exec S A → (A → Exec S B) → Exec S B
  ◌>>=◌ m f s = let (r, s') = m s in continue r f s'

  abbrev pub ◌>>◌ : Exec S A → Exec S B → Exec S B
  m >> n = m >>= λ _. n

  -- if err := m; err != nil { ... }: the caller looks at the outcome.
  abbrev pub handle : Exec S A → (Outcome A → Exec S B) → Exec S B
  handle m f s = let (r, s') = m s in f r s'

-- if err != nil { return ..., f(err) }
abbrev pub relabel : {A : Type 0} → (Err → Err) → Outcome A → Outcome A
relabel f (ok a) = ok a
relabel f (err e) = err (f e)
relabel f panic = panic

abbrev pub on_err : {S A : Type 0} → (Err → Err) → Exec S A → Exec S A
on_err f m s = let (r, s') = m s in (relabel f r, s')

pub exec_bind-ok :
    {S A B : Type 0} (m : Exec S A) (f : A → Exec S B) (s : S) {b : B} {s'' : S}
    → (m >>= f) s ≡ (ok b, s'')
    → (a : A) × (s' : S) × (m s ≡ (ok a, s')) × (f a s' ≡ (ok b, s''))
exec_bind-ok {S} {A} {B} m f s {b} {s''} h = go (m s) refl h
  where
    go :
        (r : Outcome A × S)
        → m s ≡ r
        → continue r.0 f r.1 ≡ (ok b, s'')
        → (a : A) × (s' : S) × (m s ≡ (ok a, s')) × (f a s' ≡ (ok b, s''))
    go (ok a, s') e g = (a, s', e, g)
    go (err x, s') e g = absurd (ground arith)
    go (panic, s') e g = absurd (ground arith)

pub lift-ok :
    {S A : Type 0} (r : Outcome A) (s : S) {a : A} {s' : S}
    → lift r s ≡ (ok a, s')
    → (r ≡ ok a) × (s' ≡ s)
lift-ok r s h = (ap (λ x. x.0) h, sym (ap (λ x. x.1) h))

pub on_err-ok :
    {S A : Type 0} (f : Err → Err) (m : Exec S A) (s : S) {a : A} {s' : S}
    → on_err f m s ≡ (ok a, s')
    → m s ≡ (ok a, s')
on_err-ok {S} {A} f m s {a} {s'} h = go (m s) h
  where
    go :
        (r : Outcome A × S)
        → ◌≡◌ {A = Outcome A × S} (relabel f r.0, r.1) (ok a, s')
        → r ≡ (ok a, s')
    go (ok x, t) e = e
    go (err x, t) e = absurd (ground arith)
    go (panic, t) e = absurd (ground arith)

-- A call that succeeds hands its result and its state on.
pub exec_bind-eq :
    {S A B : Type 0} (m : Exec S A) (f : A → Exec S B) (s : S) {a : A} {s' : S}
    → m s ≡ (ok a, s')
    → (m >>= f) s ≡ f a s'
exec_bind-eq m f s h = ap (λ r. continue r.0 f r.1) h

pub exec_bind-err :
    {S A B : Type 0} (m : Exec S A) (f : A → Exec S B) (s : S) {e : Err} {s' : S}
    → m s ≡ (err e, s')
    → (m >>= f) s ≡ (err e, s')
exec_bind-err m f s h = ap (λ r. continue r.0 f r.1) h
