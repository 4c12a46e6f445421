-- ===== src/Consumer/Settled.antt =====
-- Process of common/natsutil.go: what becomes of a message.
use shar.Prelude.{
  ℕ, suc, ◌≡◌, refl, sym, subst, Bool, true, false, not, Option, none, some, List, [], ◌∷◌, ◌++◌,
  ◌==◌, arith, ◌&&◌, Bool-cases, ◌⊎◌, inl, inr, eq_iff, if◌then◌else◌,
}
use shar.Errors.{Err, Outcome, ok, is_workflow_fatal}
use shar.Backoff.{signed_lt}
use shar.Consumer.{
  Reply, Action, ack, call_handler, signal_fatal_error, call_backoff, nak_with_delay, Message,
  Consumer, answer, signalled, settle_error, settle_reply, settle, embargo_left, embargoed, round,
}

-- The actions that settle a message.
abbrev pub settlements : List Action → ℕ
settlements [] = 0
settlements (call_handler ∷ rest) = settlements rest
settlements (signal_fatal_error ∷ rest) = settlements rest
settlements (call_backoff ∷ rest) = settlements rest
settlements (_ ∷ rest) = suc (settlements rest)

-- The times that a message is handed to the back-off function.
abbrev pub backoffs : List Action → ℕ
backoffs [] = 0
backoffs (call_backoff ∷ rest) = suc (backoffs rest)
backoffs (_ ∷ rest) = backoffs rest

-- A message is settled, or is left to the back-off function, which an error of the handler calls.
pub data Once (c : Consumer) (r : Reply) (actions : List Action) : Type 0 where
  settled : settlements actions ≡ 1 → backoffs actions ≡ 0 → Once c r actions
  left :
      (e : Err)
      → r.error ≡ some e
      → c.has_backoff ≡ true
      → c.is_workflow_error e ≡ false
      → is_workflow_fatal e ≡ false
      → settlements actions ≡ 0
      → backoffs actions ≡ 1
      → Once c r actions

-- The embargo is absent, zero, or a number.
abbrev pub Readable : Message → Type 0
Readable m = ((m.embargo ≡ "") ⊎ (m.embargo ≡ "0")) ⊎ ((e : ℕ) × (m.embargo_value ≡ ok e))

answer-Once :
    (c : Consumer) (r : Reply) (a : Bool) → (settlements (answer a) ≡ 1) × (backoffs (answer a) ≡ 0)
answer-Once c r true = (refl, refl)
answer-Once c r false = (refl, refl)

module _ (c : Consumer) where
  signalled-none :
      (e : Err) (rest : List Action)
      → (settlements (signalled c e ++ rest) ≡ settlements rest)
        × (backoffs (signalled c e ++ rest) ≡ backoffs rest)
  signalled-none e rest = elim (Bool-cases (c.has_signal && c.carries_state e)) [
    | inl t ↦ (ground (arith, t), ground (arith, t))
    | inr f ↦ (ground (arith, f), ground (arith, f))
  ]

  settle_error-Once : (r : Reply) (e : Err) → r.error ≡ some e → Once c r (settle_error c r.ack e)
  settle_error-Once r e at =
      let (s, b) = signalled-none e (ack ∷ []) in
      let (s', b') = answer-Once c r r.ack in
      elim (Bool-cases (is_workflow_fatal e)) [
        | inl fatal ↦ settled (ground (arith, fatal, s)) (ground (arith, fatal, b))
        | inr f ↦ elim (Bool-cases (c.is_workflow_error e)) [
          | inl w ↦ settled (ground (arith, f, w, s')) (ground (arith, f, w, b'))
          | inr n ↦ elim (Bool-cases c.has_backoff) [
            | inl t ↦ left e at t n f (ground (arith, f, n, t)) (ground (arith, f, n, t))
            | inr o ↦ settled (ground (arith, f, n, o, s')) (ground (arith, f, n, o, b'))
          ]
        ]
      ]

  settle_reply-Once : (r : Reply) (o : Option Err) → r.error ≡ o → Once c r (settle_reply c r.ack o)
  settle_reply-Once r none at = let (s, b) = answer-Once c r r.ack in settled s b
  settle_reply-Once r (some e) at = settle_error-Once r e at

  handled-Once : (r : Reply) → Once c r (call_handler ∷ settle c r)
  unfolding settle
  handled-Once r = elim (settle_reply-Once r r.error refl) [
    | settled s b ↦ settled s b
    | left e at t n f s b ↦ left e at t n f s b
  ]

  embargoed-Once :
      (now e : ℕ) (o : Outcome ℕ) (r : Reply)
      → o ≡ ok e
      → Once c r (embargoed c now o (call_handler ∷ settle c r))
  embargoed-Once now e o r at =
      subst (λ x. Once c r (embargoed c now x (call_handler ∷ settle c r))) (sym at)
        (elim (Bool-cases (signed_lt 0 (embargo_left c e now))) [
          | inl t ↦ settled (ground (arith, t)) (ground (arith, t))
          | inr f ↦
              subst
                (λ b. Once c r (
                  if b
                  then nak_with_delay (embargo_left c e now) ∷ []
                  else call_handler ∷ settle c r))
                (sym f) (handled-Once r)
        ])

  -- A message whose embargo is absent, zero or a number is settled exactly once in its round, by an acknowledgement, a refusal or a delay, whatever its handler returns; or, where the loop has a back-off function and the handler returned an error that is neither fatal nor a workflow error, it is not settled by the loop and is handed exactly once to that function.
  pub settlements-round :
      (now : ℕ) (m : Message) (r : Reply) → Readable m → Once c r (round c now m r)
  unfolding round
  settlements-round now m r readable =
      let handled = call_handler ∷ settle c r in
      let waits = embargoed c now m.embargo_value handled in
      let held = λ (b : Bool). if b then waits else handled in
      let headed = λ (fails : Bool) (b : Bool). if fails then ack ∷ [] else held b in
      let test = not (m.embargo == "") && not (m.embargo == "0") in
      let inner : Once c r (held test) = elim readable [
        | inl (inl none_set) ↦
            subst (λ b. Once c r (held b)) {x = false}
              (ground (arith, (eq_iff m.embargo "").1 none_set)) (handled-Once r)
        | inl (inr zero_set) ↦
            subst (λ b. Once c r (held b)) {x = false}
              (ground (arith, (eq_iff m.embargo "0").1 zero_set)) (handled-Once r)
        | inr (e, at) ↦ elim (Bool-cases test) [
          | inl t ↦
              subst (λ b. Once c r (held b)) (sym t) (embargoed-Once now e m.embargo_value r at)
          | inr f ↦ subst (λ b. Once c r (held b)) (sym f) (handled-Once r)
        ]
      ] in
      elim (Bool-cases (m.namespace == "")) [
        | inl t ↦
            subst (λ b. Once c r (if b then ack ∷ [] else headed m.header_fails test)) (sym t)
              (settled refl refl)
        | inr n ↦
            subst (λ b. Once c r (if b then ack ∷ [] else headed m.header_fails test)) (sym n)
              (elim (Bool-cases m.header_fails) [
                | inl t ↦ subst (λ b. Once c r (headed b test)) (sym t) (settled refl refl)
                | inr f ↦ subst (λ b. Once c r (headed b test)) (sym f) inner
              ])
      ]
