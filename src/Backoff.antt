-- ===== src/Backoff.antt =====
-- client/backoff.go: a service task that failed is delivered again after a delay, and when its retries
-- are used up its message is terminated. Integers of 64 bits are bit patterns, and wrap.
pub mod Offset
pub mod Exhausted
use shar.Prelude.{
  ℕ, ◌+◌, ◌-◌, ◌*◌, ◌%◌, ◌^◌, String, Bool, true, false, ◌&&◌, ◌||◌, not, Option, none, some, List,
  [], ◌∷◌, ◌++◌, ◌==◌, ltb, leb, eqb, if◌then◌else◌,
}
use shar.Prelude.Maps.{lookup}
use shar.Errors.{Err, Outcome, ok, err, panic, library_error, workflow_not_found}
use shar.Errors.Exec.{Exec, pure, raise, lift, continue, handle, ◌>>=◌, ◌>>◌}
use shar.Tracking
use shar.Model.{
  Bytes, CancellationState, compensating, Element, Workflow, WorkflowState, element_table,
}
use shar.Task.{
  RetryStrategy, linear, exponential, RetryErrorAction, pause_workflow, throw_workflow_error,
  set_variable_value, fail_workflow, DefaultTaskRetry, DefaultRetryExceededBehaviour,
}
use shar.Vars.{Value}
use shar.Traversal.Select.{present}

abbrev pub wrap : ℕ → ℕ
wrap n = n % 2 ^ 64

-- a < b on int64
abbrev pub signed_lt : ℕ → ℕ → Bool
signed_lt a b = ltb (wrap (a + 2 ^ 63)) (wrap (b + 2 ^ 63))

-- int64(x) * int64(time.Millisecond)
abbrev pub times_milli : ℕ → ℕ
times_milli n = wrap (n * 1000000)

abbrev pub interval_of : ℕ → ℕ
interval_of interval_milli =
    let interval = times_milli interval_milli in if eqb interval 0 then 1000000000 else interval

abbrev pub ceiling_of : ℕ → ℕ → ℕ
ceiling_of max_milli interval =
    let ceiling = times_milli max_milli in if signed_lt ceiling interval then interval else ceiling

-- int64(math.Pow(2, float64(n))): exact below 2^63. Go leaves a conversion out of range to the
-- machine, which gives `overflow`.
abbrev pub power_of_two : ℕ → ℕ → ℕ
power_of_two overflow n = if ltb n 63 then 2 ^ n else overflow

abbrev pub grown : ℕ → RetryStrategy → ℕ → ℕ → ℕ → ℕ
grown overflow linear initial interval n = wrap (initial + wrap (interval * n))
grown overflow exponential initial interval n =
    wrap (initial + wrap (interval * power_of_two overflow n))

abbrev pub capped : ℕ → ℕ → ℕ
capped ceiling offset = if signed_lt ceiling offset then ceiling else offset

-- getOffset up to the test of the time that has passed
unfoldable pub delay : ℕ → RetryStrategy → ℕ → ℕ → ℕ → ℕ → ℕ
delay overflow strategy initial_milli interval_milli delivery_count max_milli =
    let interval = interval_of interval_milli in
    if signed_lt 1 delivery_count
    then capped (ceiling_of max_milli interval)
        (grown overflow strategy (times_milli initial_milli) interval (delivery_count - 1))
    else 0

-- getOffset, where `elapsed` is time.Since(messageTime)
unfoldable pub get_offset : ℕ → RetryStrategy → ℕ → ℕ → ℕ → ℕ → ℕ → ℕ
unfolding delay
get_offset overflow strategy initial interval delivery_count ceiling elapsed =
    let offset = delay overflow strategy initial interval delivery_count ceiling in
    if signed_lt (times_milli offset) elapsed then 0 else offset

-- What the handler does to the message and the server, in order.
pub data Effect : Type 0 where
  term notify_retry_exceeded : Effect
  nak_with_delay : ℕ → Effect
  cancel_process_instance : String → Effect
  handle_workflow_error : String → String → Effect
  signal_fatal_error : Effect
  complete_service_task : String → String → Value → Bool → Effect

-- The server's answers, the message's metadata, and the conversions of strconv.
pub record Surroundings : Type 0 where
  pub num_delivered : Outcome ℕ
  pub get_workflow : String → Outcome Workflow
  pub cancel : Outcome (Unit {0})
  -- res.Handled
  pub handled : Outcome Bool
  pub complete : Outcome (Unit {0})
  pub nak : Outcome (Unit {0})
  -- strconv's value for "int", "float" and "bool", and the text otherwise
  pub parse : String → String → Outcome Value
  pub elapsed : ℕ
  pub overflow : ℕ

abbrev pub Handler : Type 0 → Type 0
Handler A = Exec (List Effect) A

abbrev pub perform : Effect → Handler (Unit {0})
perform e log = (ok tt, log ++ e ∷ [])

abbrev pub is_workflow_not_found : Err → Bool
is_workflow_not_found workflow_not_found = true
is_workflow_not_found _ = false

abbrev pub is_compensating : CancellationState → Bool
is_compensating compensating = true
is_compensating _ = false

-- The two deferred calls run last, whatever the outcome, a panic included; their own failures are
-- logged.
abbrev pub with_deferred : Handler (Unit {0}) → Handler (Unit {0})
with_deferred m log = let (r, log') = m log in (r, log' ++ term ∷ notify_retry_exceeded ∷ [])

module _ (around : Surroundings) where
  -- switch retryBehaviour.DefaultExceeded.Action
  unfoldable pub act :
      RetryErrorAction → WorkflowState → DefaultRetryExceededBehaviour → Handler (Unit {0})
  act fail_workflow state behaviour = do
    perform (cancel_process_instance state.process_instance_id)
    lift around.cancel
  act throw_workflow_error state behaviour = do
    perform (handle_workflow_error (Tracking.id state.id) behaviour.error_code)
    handled ← lift around.handled
    if handled then pure tt else raise library_error
  act pause_workflow state behaviour = perform signal_fatal_error
  act set_variable_value state behaviour = do
    value ← lift (around.parse behaviour.variable_type behaviour.variable_value)
    perform (
        complete_service_task (Tracking.id state.id) behaviour.variable value
          (is_compensating state.state))
    lift around.complete

  -- Retries exceeded.
  unfoldable pub give_up : WorkflowState → DefaultTaskRetry → Handler (Unit {0})
  unfolding act
  give_up state retry =
      with_deferred
        (do behaviour ← lift (present retry.default_exceeded); act behaviour.action state behaviour)

  unfoldable pub try_later : WorkflowState → DefaultTaskRetry → ℕ → Handler (Unit {0})
  unfolding get_offset
  try_later state retry delivered = do
    perform (
        nak_with_delay (
          get_offset around.overflow retry.strategy retry.init_milli retry.interval_milli
            (wrap delivered) retry.max_milli around.elapsed))
    lift around.nak

  abbrev pub found_workflow :
      (Workflow → Handler (Unit {0})) → Outcome Workflow → Handler (Unit {0})
  found_workflow next (ok wf) = next wf
  found_workflow next (err e) =
      if is_workflow_not_found e then (do perform term; raise e) else raise e
  found_workflow next panic = lift panic

  -- if meta.NumDelivered >= uint64(retryBehaviour.Number)
  unfoldable pub retry_or_give_up : WorkflowState → ℕ → Workflow → Handler (Unit {0})
  unfolding give_up try_later
  retry_or_give_up state delivered wf = do
    elem ← lift (present (lookup state.element_id (element_table wf)))
    retry ← lift (present elem.retry_behaviour)
    if leb retry.number delivered then give_up state retry else try_later state retry delivered

  -- backoff, on the message that was unmarshalled
  unfoldable pub backoff : Outcome WorkflowState → Handler (Unit {0})
  unfolding retry_or_give_up
  backoff msg = do
    state ← lift msg
    delivered ← lift around.num_delivered
    handle (lift (around.get_workflow state.workflow_id))
        (found_workflow (retry_or_give_up state delivered))
