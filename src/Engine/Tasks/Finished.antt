-- ===== src/Engine/Tasks/Finished.antt =====
-- CompleteServiceTask of internal/server/workflow/operations.go: what the result of a client's task sends.
use shar.Prelude.{
  ◌≡◌, refl, sym, ap, subst, ◌∙◌, inl, inr, false, [], Bool-cases, if◌then◌else◌, arith,
}
use shar.Errors.{Outcome, ok, err, panic, fatal, key_not_found, is_key_not_found}
use shar.Errors.Exec.{Exec, raise, handle, on_err, on_err-ok, lift, query, exec_bind-ok, lift-ok}
use shar.Tracking
use shar.Nats.{load_obj}
use shar.Model.{Bytes, Element, ProcessHistoryEntry, WorkflowState, activity_execute}
use shar.Vars.{Codec, Expr, check_vars}
use shar.Server.{
  Libraries, World, Subject, service_task_abort, service_task_complete, history_key,
  get_process_history_item, kvs_for, publish_workflow_state,
}
use shar.Server.Published.{Sent, publish_workflow_state-Sent}
use shar.Server.Reads.{read-eq}
use shar.Exchange.{get_element, elements_of}
use shar.Engine.Jobs.{is_compensating}
use shar.Engine.Jobs.Concluded.{is_key_not_found-eq}
use shar.Engine.Tasks.{publish_only, publish_result, unless_missing, complete_service_task}

pub data Finished (lib : Libraries) (codec : Codec) (expr : Expr) (job : WorkflowState)
    (newvars : Bytes) (w w' : World lib) : Type 0 where
  completed :
      (el : Element)
      → get_element lib [] job w ≡ (ok el, w)
      → check_vars codec expr newvars el ≡ ok tt
      → Sent lib w service_task_complete (record job { vars = newvars; unix_time_nano = w.now }) w'
      → Finished lib codec expr job newvars w w'
  aborted :
      is_compensating job.state ≡ false
      → load_obj lib.kv w.wf_history
          (history_key job.process_instance_id (Tracking.parent_id job.id) activity_execute)
        ≡ err key_not_found
      → Sent lib w service_task_abort (record job { unix_time_nano = w.now }) w'
      → Finished lib codec expr job newvars w w'

module _ (lib : Libraries) where
  get_element-state :
      (job : WorkflowState) (w : World lib) {el : Element} {w' : World lib}
      → get_element lib [] job w ≡ (ok el, w')
      → w' ≡ w
  unfolding get_element
  get_element-state job w h =
      let elements = λ (w : World lib). elements_of lib [] (load_obj lib.kv w.wf job.workflow_id) in
      let (t, w1, opened, h1) = exec_bind-ok (kvs_for lib) _ w h in
      let (els, w2, read, h2) = exec_bind-ok (query elements) _ w1 h1 in
      sym (ap (λ r. r.1) h2) ∙ (lift-ok (elements w1) w1 read).1 ∙ (lift-ok lib.kvs_for w opened).1

  publish_only-Sent :
      (codec : Codec) (expr : Expr) (subject : Subject) (state : WorkflowState) (w : World lib)
      {w' : World lib}
      → publish_only lib codec expr subject state w ≡ (ok tt, w')
      → Sent lib w subject (record state { unix_time_nano = w.now }) w'
  publish_only-Sent codec expr subject state w {w'} h =
      let (s, w1, sent, h1) = exec_bind-ok (publish_workflow_state lib subject state) _ w h in
      let (is, out) = publish_workflow_state-Sent lib w subject state sent in
      subst (λ x. Sent lib w subject (record state { unix_time_nano = w.now }) x) (ap (λ r. r.1) h1)
        (subst (λ x. Sent lib w subject x w1) is out)

  module _ (codec : Codec) (expr : Expr) (job : WorkflowState) (newvars : Bytes) where
    publish_result-completed :
        (w : World lib) {w' : World lib}
        → publish_result lib codec expr service_task_complete job newvars w ≡ (ok tt, w')
        → Finished lib codec expr job newvars w w'
    unfolding publish_result
    publish_result-completed w {w'} h =
        let done = record job { vars = newvars } in
        let check = check_vars codec expr newvars in
        let (el, w1, found, h1) = exec_bind-ok (on_err fatal (get_element lib [] job)) _ w h in
        let found' = on_err-ok fatal (get_element lib [] job) w found in
        let (t, w2, passed, h2) =
          exec_bind-ok {S = World lib} (on_err fatal (lift (check el))) _ w1 h1 in
        let (passes, same) = lift-ok (check el) w1 (on_err-ok fatal (lift (check el)) w1 passed) in
        let here : w2 ≡ w = same ∙ get_element-state job w found' in
        completed el (found' ∙ ap (λ x. (ok el, x)) (get_element-state job w found')) passes (
          publish_only-Sent codec expr service_task_complete done w
            (ap (publish_only lib codec expr service_task_complete done) (sym here) ∙ h2))

    -- When the completion of a service task succeeds, either the task's element was found, the new variables passed the check against the element, and the completion is published with the new variables; or the process is not compensating and the history has no start of the activity, and an abort of the task is published with the variables it had. Nothing but the stream changes.
    pub complete_service_task-Finished :
        (w : World lib) {w' : World lib}
        → lib.kvs_for ≡ ok tt
        → complete_service_task lib codec expr job newvars w ≡ (ok tt, w')
        → Finished lib codec expr job newvars w w'
    unfolding complete_service_task get_process_history_item
    complete_service_task-Finished w {w'} k h =
        let pid = job.process_instance_id in
        let key = history_key pid (Tracking.parent_id job.id) activity_execute in
        let start = λ (w : World lib). load_obj lib.kv w.wf_history key in
        let result = publish_result lib codec expr service_task_complete job newvars in
        let get = get_process_history_item lib pid (Tracking.parent_id job.id) activity_execute in
        let normal : Exec (World lib) (Unit {0}) =
          handle get (unless_missing lib codec expr job result) in
        elim (Bool-cases (is_compensating job.state)) [
          | inl y ↦
              publish_result-completed w (ap (λ b. (if b then result else normal) w) (sym y) ∙ h)
          | inr n ↦ found n (start w) refl (
              ap (λ r. unless_missing lib codec expr job result r.0 r.1)
                (sym (read-eq lib start k w))
              ∙ ap (λ b. (if b then result else normal) w) (sym n)
              ∙ h)
        ]
      where
        found :
            is_compensating job.state ≡ false
            → (r : Outcome ProcessHistoryEntry)
            → load_obj lib.kv w.wf_history
                (history_key job.process_instance_id (Tracking.parent_id job.id) activity_execute)
              ≡ r
            → unless_missing lib codec expr job
                (publish_result lib codec expr service_task_complete job newvars)
                r
                w
              ≡ (ok tt, w')
            → Finished lib codec expr job newvars w w'
        found n (ok old) e g = publish_result-completed w g
        found n panic e g = absurd (ground arith)
        found n (err x) e g =
            let stop = publish_only lib codec expr service_task_abort job in
            elim (Bool-cases (is_key_not_found x)) [
              | inl y ↦ aborted n (e ∙ ap err (is_key_not_found-eq x y)) (
                  publish_only-Sent codec expr service_task_abort job w
                    (ap (λ b. (if b then stop else raise x) w) (sym y) ∙ g))
              | inr z ↦ absurd (ground (arith, z, g))
            ]
