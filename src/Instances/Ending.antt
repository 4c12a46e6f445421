-- ===== src/Instances/Ending.antt =====
-- The parts of destroyProcessInstance of internal/server/workflow/operations.go that follow the update
-- of the execution.
use shar.Prelude.{
  ◌≡◌, sym, ap, ◌∙◌, String, Bool, true, false, List, [], ◌∷◌, ◌++◌, ◌==◌, if◌then◌else◌,
}
use mathlib.Core.List.{append_assoc, append-nil}
use shar.Errors.{Outcome, ok, err, key_not_found}
use shar.Errors.Exec.{Exec, exec_bind-ok, committed-ok, ◌>>=◌}
use shar.Nats.{Documented, load_obj}
use shar.Model.{Execution, WorkflowState}
use shar.Server.{
  Libraries, World, Subject, process_terminated, execution_complete, publish_workflow_state,
}
use shar.Server.Published.{publish_workflow_state-Sent}
use shar.Instances.{remove_execution, remove_process_instance, when, publish_if}

-- The messages of the end of a process instance, with that of the execution after the last one.
abbrev pub completion : Bool → WorkflowState → List (Subject × WorkflowState)
completion true s = (execution_complete, s) ∷ []
completion false s = []

abbrev pub endings : Bool → WorkflowState → List (Subject × WorkflowState)
endings last s = (process_terminated, s) ∷ completion last s

abbrev pub left_execution : Bool → Execution → Outcome Execution
left_execution true e = err key_not_found
left_execution false e = ok e

module _ (lib : Libraries) where
  publish_if-Sent :
      (last : Bool) (state : WorkflowState) (w : World lib) {s : WorkflowState} {w' : World lib}
      → state.unix_time_nano ≡ w.now
      → publish_if lib last state w ≡ (ok s, w')
      → (w' ≡ record w { stream = w'.stream })
        × (lib.published w'.stream ≡ lib.published w.stream ++ completion last state)
  publish_if-Sent true state w {s} {w'} t h =
      let (e, out) = publish_workflow_state-Sent lib w execution_complete state h in
      let same : s ≡ state = e ∙ ap (λ x. record state { unix_time_nano = x }) (sym t) in
      (
        out.only_stream,
        out.sent ∙ ap (λ x. lib.published w.stream ++ (execution_complete, x) ∷ []) same,
      )
  publish_if-Sent false state w {s} {w'} t h =
      let e : w ≡ w' = ap (λ x. x.1) h in
      (
        sym e ∙ ap (λ x. record w { stream = x.stream }) e,
        ap (λ x. lib.published x.stream) (sym e) ∙ sym (append-nil (lib.published w.stream)),
      )

  module _ (doc : Documented lib.kv) (state : WorkflowState) (pid eid : String) where
    -- The end of a call that succeeds, from a bucket of executions on.
    unfoldable pub finish : Bool → Exec (World lib) WorkflowState
    finish last = remove_process_instance lib pid >>= λ t.
        publish_workflow_state lib process_terminated state >>= publish_if lib last

    pub finish-parts :
        (w : World lib) (last : Bool) {s : WorkflowState} {w' : World lib}
        → finish last w ≡ (ok s, w')
        → ((j : String)
            → load_obj lib.kv w'.wf_process_instance j
              ≡ (if pid == j then err key_not_found else load_obj lib.kv w.wf_process_instance j))
          × (lib.published w'.stream
              ≡ lib.published w.stream ++ endings last (record state { unix_time_nano = w.now }))
          × (w' ≡ record w { wf_process_instance = w'.wf_process_instance; stream = w'.stream })
    unfolding finish remove_process_instance
    finish-parts w last {s} {w'} h =
        let now = record state { unix_time_nano = w.now } in
        let (t, w2, p, h1) =
          exec_bind-ok (remove_process_instance lib pid)
            (λ t. publish_workflow_state lib process_terminated state >>= publish_if lib last) w
            h in
        let (b, d, e2, f) =
          committed-ok w (λ x. record w { wf_process_instance = x }) (λ x. tt)
            (lib.kv.delete w.wf_process_instance pid) p in
        let (s1, w3, q, h2) =
          exec_bind-ok (publish_workflow_state lib process_terminated state) (publish_if lib last)
            w2 h1 in
        let (is, out) = publish_workflow_state-Sent lib w2 process_terminated state q in
        let s1_now : s1 ≡ now = is ∙ ap (λ x. record state { unix_time_nano = x.now }) e2 in
        let same_now : s1.unix_time_nano ≡ w3.now =
          ap (λ x. x.unix_time_nano) is ∙ sym (ap (λ x. x.now) out.only_stream) in
        let (e4, sent4) = publish_if-Sent last s1 w3 same_now h2 in
        let all : w' ≡ record w { wf_process_instance = b; stream = w'.stream } =
          e4
          ∙ ap {A = World lib} (λ x. record x { stream = w'.stream }) out.only_stream
          ∙ ap {A = World lib} (λ x. record x { stream = w'.stream }) e2 in
        (
          λ j.
              ap (λ x. load_obj lib.kv x.wf_process_instance j) all
              ∙ doc.load-delete w.wf_process_instance b pid j d,
          sent4
              ∙ ap (λ x. x ++ completion last s1) out.sent
              ∙ append_assoc (lib.published w2.stream) ((process_terminated, s1) ∷ [])
                  (completion last s1)
              ∙ ap (λ x. lib.published x.stream ++ endings last s1) e2
              ∙ ap (λ x. lib.published w.stream ++ endings last x) s1_now,
          all
              ∙ ap
                  (λ x. record w {
                    wf_process_instance = x.wf_process_instance;
                    stream = w'.stream;
                  })
                  (sym all),
        )

    pub when-parts :
        (last : Bool) (w : World lib) {t : Unit {0}} {w' : World lib}
        → when lib last (remove_execution lib eid) w ≡ (ok t, w')
        → (x : lib.kv.Bucket Execution) × (w' ≡ record w { wf_execution = x })
          × ((j : String) (e : Execution)
              → load_obj lib.kv w.wf_execution j
                ≡ (if eid == j then ok e else load_obj lib.kv w.wf_execution j)
              → load_obj lib.kv x j
                ≡ (if eid == j then left_execution last e else load_obj lib.kv w.wf_execution j))
    unfolding remove_execution
    when-parts true w h =
        let (b, d, e, f) =
          committed-ok w (λ x. record w { wf_execution = x }) (λ x. tt)
            (lib.kv.delete w.wf_execution eid) h in
        (b, e, λ j x l. doc.load-delete w.wf_execution b eid j d)
    when-parts false w h = (w.wf_execution, sym (ap (λ x. x.1) h), λ j x l. l)
