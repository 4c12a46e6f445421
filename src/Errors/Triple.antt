-- ===== src/Errors/Triple.antt =====
-- Pre- and postconditions of the handlers. A handler that fails leaves what it has written, so there
-- is a condition for that too.
use shar.Prelude.{◌≡◌, refl}
use shar.Errors.{Err, Outcome, ok, err, panic}
use shar.Errors.Exec.{Exec, lift, query, committed, continue, handle, ◌>>=◌}

module _ {S A : Type 0} where
  abbrev pub After : (A → S → Type 0) → (S → Type 0) → Outcome A × S → Type 0
  After Q E (ok a, s) = Q a s
  After Q E (err e, s) = E s
  After Q E (panic, s) = E s

  -- From `P` the call leads to `Q`, or fails in `E`.
  pub record Triple (P : S → Type 0) (m : Exec S A) (Q : A → S → Type 0) (E : S → Type 0)
      : Type 0 where
    pub run : (s : S) → P s → After Q E (m s)

  -- The condition holds whichever way the call ends.
  abbrev pub Keeps : (S → Type 0) → Exec S A → Type 0
  Keeps P m = Triple P m (λ _. P) P

  pub Triple-lift : (P : S → Type 0) (r : Outcome A) → Keeps P (lift r)
  Triple-lift P (ok a) = record { run = λ s p. p }
  Triple-lift P (err e) = record { run = λ s p. p }
  Triple-lift P panic = record { run = λ s p. p }

  pub Triple-query : (P : S → Type 0) (f : S → Outcome A) → Keeps P (query f)
  Triple-query P f = record { run = λ s p. go s p (f s) }
    where
      go : (s : S) → P s → (r : Outcome A) → After (λ _. P) P (r, s)
      go s p (ok a) = p
      go s p (err e) = p
      go s p panic = p

  -- What was read is known afterwards.
  pub Triple-read :
      (P : S → Type 0) (f : S → Outcome A) → Triple P (query f) (λ a s. P s × (f s ≡ ok a)) P
  Triple-read P f = record { run = λ s p. go s p (f s) refl }
    where
      go : (s : S) → P s → (r : Outcome A) → f s ≡ r → After (λ a s. P s × (f s ≡ ok a)) P (r, s)
      go s p (ok a) e = (p, e)
      go s p (err x) e = p
      go s p panic e = p

module _ {S A B : Type 0} where
  pub Triple-bind :
      {P : S → Type 0} {Q : A → S → Type 0} {R : B → S → Type 0} {E : S → Type 0} (m : Exec S A)
      (f : A → Exec S B)
      → Triple P m Q E
      → ((a : A) → Triple (Q a) (f a) R E)
      → Triple P (m >>= f) R E
  Triple-bind {P} {Q} {R} {E} m f t next = record { run = λ s p. go (m s) (t.run s p) }
    where
      go : (r : Outcome A × S) → After Q E r → After R E (continue r.0 f r.1)
      go (ok a, s) q = (next a).run s q
      go (err e, s) q = q
      go (panic, s) q = q

  -- Whatever the outcome of the first call, the second goes on from it.
  pub Triple-handle :
      {P : S → Type 0} {Q : A → S → Type 0} {R : B → S → Type 0} {E F : S → Type 0} (m : Exec S A)
      (f : Outcome A → Exec S B)
      → Triple P m Q F
      → ((a : A) → Triple (Q a) (f (ok a)) R E)
      → ((e : Err) → Triple F (f (err e)) R E)
      → Triple F (f panic) R E
      → Triple P (handle m f) R E
  Triple-handle {P} {Q} {R} {E} {F} m f t yes_it_is other stop = record {
    run = λ s p. go (m s) (t.run s p);
  }
    where
      go : (r : Outcome A × S) → After Q F r → After R E (f r.0 r.1)
      go (ok a, s) q = (yes_it_is a).run s q
      go (err e, s) q = (other e).run s q
      go (panic, s) q = stop.run s q

  -- A call that also changes the state where it fails.
  pub Triple-committed_or :
      {P : S → Type 0} {Q : S → Type 0} {N : S → Type 0} (lost : S → S) (read : S → Outcome A)
      (put : S → A → S) (out : S → A → B)
      → ((s : S) → P s → N (lost s))
      → ((s : S) (a : A) → P s → read s ≡ ok a → Q (put s a))
      → Triple P (λ s. committed (lost s) (put s) (out s) (read s)) (λ _. Q) N
  Triple-committed_or {P} {Q} {N} lost read put out f h = record {
    run = λ s p. go s p (read s) refl;
  }
    where
      go :
          (s : S)
          → P s
          → (r : Outcome A) → read s ≡ r
          → After (λ (b : B). Q) N (committed (lost s) (put s) (out s) r)
      go s p (ok a) e = h s a p e
      go s p (err x) e = f s p
      go s p panic e = f s p

  pub Triple-committed :
      {P : S → Type 0} {Q : S → Type 0} (read : S → Outcome A) (put : S → A → S) (out : S → A → B)
      → ((s : S) (a : A) → P s → read s ≡ ok a → Q (put s a))
      → Triple P (λ s. committed s (put s) (out s) (read s)) (λ _. Q) P
  Triple-committed {P} {Q} read put out h = record { run = λ s p. go s p (read s) refl }
    where
      go :
          (s : S)
          → P s
          → (r : Outcome A) → read s ≡ r
          → After (λ (b : B). Q) P (committed s (put s) (out s) r)
      go s p (ok a) e = h s a p e
      go s p (err x) e = p
      go s p panic e = p
