-- ===== src/Consumer.antt =====
-- common/natsutil.go: Process, the loop that hands each message of a consumer to its handler and then
-- settles it, and the locks Lock, ExtendLock and UnLock. One round of the loop is a function of the
-- message and of the handler's reply, and gives what is done, in order.
pub mod Settled
use shar.Prelude.{
  ℕ, ◌+◌, ◌-◌, ◌%◌, ◌^◌, String, Bool, true, false, not, ◌&&◌, ◌||◌, Option, none, some, List, [],
  ◌∷◌, ◌++◌, ◌==◌, if◌then◌else◌,
}
use shar.Errors.{Err, Outcome, ok, err, panic, acked, is_workflow_fatal}
use shar.Backoff.{wrap, signed_lt}

-- What a handler returns: `ack, err`.
pub record Reply : Type 0 where
  pub ack : Bool
  pub error : Option Err

-- `acked` marks an error that is returned beside `true`.
abbrev pub reply_of_error : Err → Reply
reply_of_error (acked e) = record { ack = true; error = some e }
reply_of_error e = record { ack = false; error = some e }

pub data Action : Type 0 where
  ack nak call_handler signal_fatal_error call_backoff : Action
  nak_with_delay : ℕ → Action

-- The headers of a message. `embargo_value` is strconv.Atoi of its embargo, as a bit pattern.
pub record Message : Type 0 where
  pub namespace : String
  pub header_fails : Bool
  pub embargo : String
  pub embargo_value : Outcome ℕ

-- The arguments of Process, and two tests on errors: whether a fatal error carries a state, and
-- whether an error is a workflow error.
pub record Consumer : Type 0 where
  pub has_signal : Bool
  pub has_backoff : Bool
  pub carries_state : Err → Bool
  pub is_workflow_error : Err → Bool

abbrev pub answer : Bool → List Action
answer true = ack ∷ []
answer false = nak ∷ []

module _ (c : Consumer) where
  abbrev pub signalled : Err → List Action
  signalled e = if c.has_signal && c.carries_state e then signal_fatal_error ∷ [] else []

  abbrev pub settle_error : Bool → Err → List Action
  settle_error a e =
      if is_workflow_fatal e
      then signalled e ++ ack ∷ []
      else (if not (c.is_workflow_error e) && c.has_backoff then call_backoff ∷ [] else answer a)

  abbrev pub settle_reply : Bool → Option Err → List Action
  settle_reply a none = answer a
  settle_reply a (some e) = settle_error a e

  unfoldable pub settle : Reply → List Action
  unfolding is_workflow_fatal
  settle r = settle_reply r.ack r.error

  -- time.Duration(int64(e) - time.Now().UnixNano())
  abbrev pub embargo_left : ℕ → ℕ → ℕ
  embargo_left e now = wrap (e + (2 ^ 64 - wrap now))

  abbrev pub embargoed : ℕ → Outcome ℕ → List Action → List Action
  embargoed now (ok e) next =
      if signed_lt 0 (embargo_left e now) then nak_with_delay (embargo_left e now) ∷ [] else next
  embargoed now (err e) next = []
  embargoed now panic next = []

  -- One round of the loop.
  unfoldable pub round : ℕ → Message → Reply → List Action
  unfolding settle
  round now m reply =
      if m.namespace == ""
      then ack ∷ []
      else (if m.header_fails
          then ack ∷ []
          else (if not (m.embargo == "") && not (m.embargo == "0")
              then embargoed now m.embargo_value (call_handler ∷ settle reply)
              else call_handler ∷ settle reply))
