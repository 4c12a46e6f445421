-- ===== src/Backoff/Exhausted.antt =====
-- backoff of client/backoff.go: what is done when the retries of a task are used up.
use shar.Prelude.{
  ℕ, ◌≤◌, ◌≡◌, refl, sym, ap, ◌∙◌, ◌↔◌, ◌≢◌, Bool, true, false, Option, none, some, List, [], ◌∷◌,
  ◌++◌, arith, leb, le→leb, if◌then◌else◌,
}
use mathlib.Core.List.{append-nil}
use shar.Prelude.Maps.{lookup}
use shar.Errors.{Outcome, ok, err, panic, library_error}
use shar.Errors.Exec.{lift, pure, raise, continue}
use shar.Model.{CancellationState, compensating, Element, Workflow, WorkflowState, element_table}
use shar.Tracking
use shar.Task.{
  RetryErrorAction, DefaultTaskRetry, DefaultRetryExceededBehaviour, pause_workflow,
  throw_workflow_error, set_variable_value, fail_workflow,
}
use shar.Vars.{Value}
use shar.Traversal.Select.{present}
use shar.Backoff.{
  Effect, term, notify_retry_exceeded, cancel_process_instance, handle_workflow_error,
  signal_fatal_error, complete_service_task, Surroundings, Handler, act, give_up, try_later,
  backoff, is_compensating,
}

-- The call of a task's last resort, by what the retry behaviour says: none where there is no such
-- behaviour, or where the value that it sets cannot be read.
pub data LastResort (around : Surroundings) (state : WorkflowState)
    : Option DefaultRetryExceededBehaviour → List Effect → Type 0 where
  no_behaviour : LastResort around state none []
  cancels :
      (b : DefaultRetryExceededBehaviour)
      → b.action ≡ fail_workflow
      → LastResort around state (some b) (cancel_process_instance state.process_instance_id ∷ [])
  throws :
      (b : DefaultRetryExceededBehaviour)
      → b.action ≡ throw_workflow_error
      → LastResort around state
          (some b)
          (handle_workflow_error (Tracking.id state.id) b.error_code ∷ [])
  pauses :
      (b : DefaultRetryExceededBehaviour)
      → b.action ≡ pause_workflow
      → LastResort around state (some b) (signal_fatal_error ∷ [])
  completes :
      (b : DefaultRetryExceededBehaviour) (value : Value) (undoing : Bool)
      → b.action ≡ set_variable_value
      → around.parse b.variable_type b.variable_value ≡ ok value
      → (undoing ≡ true) ↔ (state.state ≡ compensating)
      → LastResort around state
          (some b)
          (complete_service_task (Tracking.id state.id) b.variable value undoing ∷ [])
  unreadable :
      (b : DefaultRetryExceededBehaviour)
      → b.action ≡ set_variable_value
      → ((value : Value) → around.parse b.variable_type b.variable_value ≢ ok value)
      → LastResort around state (some b) []

-- What a handler adds to the log, which is a last resort.
abbrev pub Adds :
    Surroundings
    → WorkflowState
    → Option DefaultRetryExceededBehaviour
    → Handler (Unit {0})
    → List Effect
    → Type 0
Adds around state o m log =
    (effects : List Effect) × ((m log).1 ≡ log ++ effects) × LastResort around state o effects

is_compensating_iff : (s : CancellationState) → (is_compensating s ≡ true) ↔ (s ≡ compensating)
is_compensating_iff compensating = (λ h. refl, λ h. refl)
is_compensating_iff s = (λ h. absurd (ground arith), λ h. absurd (ground (arith, h)))

handled-final :
    (r : Outcome Bool) (log : List Effect)
    → (continue r (λ h. if h then pure tt else raise library_error) log).1 ≡ log
handled-final (ok true) log = refl
handled-final (ok false) log = refl
handled-final (err e) log = refl
handled-final panic log = refl

module _ (around : Surroundings) where
  completed-Adds :
      (r : Outcome Value) (b : DefaultRetryExceededBehaviour) (state : WorkflowState)
      (log : List Effect)
      → b.action ≡ set_variable_value
      → around.parse b.variable_type b.variable_value ≡ r
      → Adds around state
          (some b)
          (continue r (λ value log'. lift around.complete (
            log'
            ++ complete_service_task
                (Tracking.id state.id)
                b.variable
                value
                (is_compensating state.state)
              ∷ [])))
          log
  completed-Adds (ok v) b state log a at = (
    complete_service_task (Tracking.id state.id) b.variable v (is_compensating state.state) ∷ [],
    refl,
    completes b v (is_compensating state.state) a at (is_compensating_iff state.state),
  )
  completed-Adds (err e) b state log a at =
      ([], sym (append-nil log), unreadable b a (λ v h. absurd (ground (arith, h, at))))
  completed-Adds panic b state log a at =
      ([], sym (append-nil log), unreadable b a (λ v h. absurd (ground (arith, h, at))))

  act-Adds :
      (action : RetryErrorAction) (state : WorkflowState) (b : DefaultRetryExceededBehaviour)
      (log : List Effect)
      → b.action ≡ action
      → Adds around state (some b) (act around action state b) log
  unfolding act
  act-Adds fail_workflow state b log a =
      (cancel_process_instance state.process_instance_id ∷ [], refl, cancels b a)
  act-Adds throw_workflow_error state b log a =
      let e = handle_workflow_error (Tracking.id state.id) b.error_code in
      (e ∷ [], handled-final around.handled (log ++ e ∷ []), throws b a)
  act-Adds pause_workflow state b log a = (signal_fatal_error ∷ [], refl, pauses b a)
  act-Adds set_variable_value state b log a =
      completed-Adds (around.parse b.variable_type b.variable_value) b state log a refl

  choose_act-Adds :
      (o : Option DefaultRetryExceededBehaviour) (state : WorkflowState) (log : List Effect)
      → Adds around state o (λ l. continue (present o) (λ b. act around b.action state b) l) log
  choose_act-Adds none state log = ([], sym (append-nil log), no_behaviour)
  choose_act-Adds (some b) state log = act-Adds b.action state b log refl

  -- What the handler decides once the metadata, the workflow, the element and its retry behaviour are known.
  abbrev pub Known : WorkflowState → ℕ → Workflow → Element → DefaultTaskRetry → Type 0
  Known state delivered wf elem retry =
      (around.num_delivered ≡ ok delivered)
      × (around.get_workflow state.workflow_id ≡ ok wf)
      × (lookup state.element_id (element_table wf) ≡ some elem)
      × (elem.retry_behaviour ≡ some retry)

  backoff-Known :
      (state : WorkflowState) (delivered : ℕ) (wf : Workflow) (elem : Element)
      (retry : DefaultTaskRetry) (log : List Effect)
      → Known state delivered wf elem retry
      → backoff around (ok state) log
        ≡ (if leb retry.number delivered
              then give_up around state retry
              else try_later around state retry delivered)
            log
  unfolding backoff
  backoff-Known state delivered wf elem retry log k = rw (k.0, k.1, k.2, k.3) refl

  -- Once a message has been delivered as often as its task may be tried, the handler makes the one call of the task's last resort: it cancels the process instance, throws the error of the behaviour's code, pauses by a fatal error, or completes the task with the value that the behaviour sets, as its action says; it makes no call where there is no behaviour or the value cannot be read. Then, whatever the outcome of the call, a panic included, it terminates the message and after that reports that the retries are used up.
  pub backoff-exhausted :
      (state : WorkflowState) (delivered : ℕ) (wf : Workflow) (elem : Element)
      (retry : DefaultTaskRetry) (log : List Effect)
      → Known state delivered wf elem retry
      → retry.number ≤ delivered
      → (effects : List Effect) × ((backoff around (ok state) log).1
          ≡ log ++ effects ++ term ∷ notify_retry_exceeded ∷ [])
        × LastResort around state retry.default_exceeded effects
  unfolding give_up
  backoff-exhausted state delivered wf elem retry log k h =
      let (effects, e, resort) = choose_act-Adds retry.default_exceeded state log in
      (
        effects,
        ap (λ x. x.1) (backoff-Known state delivered wf elem retry log k)
            ∙ rw (le→leb retry.number delivered h)
                (ap (λ l. l ++ term ∷ notify_retry_exceeded ∷ []) e),
        resort,
      )
