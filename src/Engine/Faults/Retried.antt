-- ===== src/Engine/Faults/Retried.antt =====
-- PersistFatalError and RetryActivity of internal/server/workflow/operations.go: a task that failed is
-- tried again from the state that was kept.
use shar.Prelude.{◌≡◌, sym, ap, ◌∙◌, true, eq_refl}
use shar.Errors.{ok}
use shar.Errors.Exec.{pure, query, committed-ok, exec_bind-ok, exec_bind-eq, lift-ok, ◌>>=◌, ◌>>◌}
use shar.Nats.{Documented, load_obj, save_obj}
use shar.Model.{WorkflowState, FatalError}
use shar.Server.{Libraries, World, job_retry, kvs_for, publish_workflow_state}
use shar.Engine.Faults.{fatal_error_key, save_fatal_error, persist_fatal_error, retry_activity}

module _ (lib : Libraries) (doc : Documented lib.kv) where
  -- Once a fatal error is persisted, a request to retry its activity, which names the same workflow, execution, process instance and element, publishes the state that failed, with the variables of the request, and does nothing else.
  pub retry_activity-persisted :
      (fatal_err : FatalError) (state : WorkflowState) (w : World lib) {w' : World lib}
      → persist_fatal_error lib fatal_err w ≡ (ok true, w')
      → fatal_error_key state ≡ fatal_error_key fatal_err.workflow_state
      → retry_activity lib state w'
        ≡ (publish_workflow_state lib job_retry
                (record fatal_err.workflow_state { vars = state.vars })
              >> pure tt)
            w'
  unfolding persist_fatal_error retry_activity save_fatal_error save_obj
  retry_activity-persisted fatal_err state w {w'} h same =
      let k = fatal_error_key fatal_err.workflow_state in
      let (t, w1, opened, h1) = exec_bind-ok (kvs_for lib) _ w h in
      let (t, w2, saved, h2) = exec_bind-ok (save_fatal_error lib k fatal_err) _ w1 h1 in
      let (b, put, is, u) =
        committed-ok w1 (λ b. record w1 { wf_fatal_error = b }) (λ b. tt)
          (lib.kv.put w1.wf_fatal_error k fatal_err) saved in
      let bucket : w'.wf_fatal_error ≡ b =
        sym (ap (λ r. r.1.wf_fatal_error) h2) ∙ ap (λ x. x.wf_fatal_error) is in
      let stored : load_obj lib.kv w'.wf_fatal_error (fatal_error_key state) ≡ ok fatal_err =
        ap (load_obj lib.kv w'.wf_fatal_error) same
        ∙ ap (λ x. load_obj lib.kv x k) bucket
        ∙ doc.load-put w1.wf_fatal_error b k k fatal_err put
        ∙ rw (eq_refl k) in
      let read = λ (x : World lib). load_obj lib.kv x.wf_fatal_error (fatal_error_key state) in
      let send = λ (x : FatalError).
        publish_workflow_state lib job_retry (record x.workflow_state { vars = state.vars })
        >> pure tt in
      exec_bind-eq (kvs_for lib) (λ t. query read >>= send) w'
        (ap (λ r. (r, w')) (lift-ok lib.kvs_for w opened).0)
      ∙ exec_bind-eq (query read) send w' (ap (λ r. (r, w')) stored)
