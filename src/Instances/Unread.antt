-- ===== src/Instances/Unread.antt =====
-- destroyProcessInstance of internal/server/workflow/operations.go: the object that UpdateObj leaves,
-- and what a failed read of the execution does.
use shar.Prelude.{◌≡◌, ap, ◌∙◌, String, true, []}
use shar.Errors.{ok, err, ◌>>=◌ as and_then, bind-eq-ok, library_error}
use shar.Errors.Exec.{Exec, raise, query, committed, handle, exec_bind-eq, ◌>>=◌}
use shar.Nats.{load_obj, update_obj, abandoned, after_save, update_kv, ensure, save_obj}
use shar.Model.{Execution, WorkflowState, no_execution}
use shar.Server.{Libraries, World, kvs_for}
use shar.Instances.{
  is_empty, drop_instance, update_execution, remove_execution, after_update, changed, kept_object,
  destroy_process_instance,
}

module _ (lib : Libraries) where
  pub kept_object-found :
      (pid eid : String) (w : World lib) {e : Execution}
      → load_obj lib.kv w.wf_execution eid ≡ ok e
      → kept_object lib eid no_execution (drop_instance pid) w ≡ drop_instance pid e
  unfolding kept_object load_obj
  kept_object-found pid eid w {e} h =
      let (x, g, q) = bind-eq-ok (lib.kv.get w.wf_execution eid) _ h in
      let there : ensure lib.kv w.wf_execution eid no_execution (lib.kv.get w.wf_execution eid)
          ≡ ok w.wf_execution =
        ap (ensure lib.kv w.wf_execution eid no_execution) g in
      ap
        (λ r.
          changed lib no_execution (drop_instance pid) (and_then r (λ b. load_obj lib.kv b eid)))
        there
      ∙ ap (changed lib no_execution (drop_instance pid)) h

  -- Where the execution cannot be read, for another reason than that it is missing, destroying a process instance fails with that error, but it has removed the execution from its bucket, whatever process instances the execution lists, and has changed nothing else.
  pub destroy_process_instance-unread :
      (state : WorkflowState) (pid eid : String) (w : World lib) {b : lib.kv.Bucket Execution}
      → lib.kvs_for ≡ ok tt
      → lib.kv.get w.wf_execution eid ≡ err library_error
      → lib.kv.delete w.wf_execution eid ≡ ok b
      → destroy_process_instance lib state pid eid w
        ≡ (err library_error, record w { wf_execution = b })
  unfolding destroy_process_instance kept_object update_execution after_update remove_execution
      update_obj update_kv load_obj abandoned save_obj
  destroy_process_instance-unread state pid eid w {b} k g d =
      let fn = drop_instance pid in
      let finish : Execution → Exec (World lib) WorkflowState = λ e.
        handle (update_execution lib eid no_execution fn)
          (after_update lib (is_empty e.process_instance_id) state pid eid) in
      let unseen : kept_object lib eid no_execution fn w ≡ no_execution =
        ap
          (λ r. changed lib no_execution fn (
            and_then (ensure lib.kv w.wf_execution eid no_execution r)
              (λ x. load_obj lib.kv x eid)))
          g
        ∙ ap (λ r. changed lib no_execution fn (and_then r (λ x. ok x.0))) g in
      let started : update_obj lib.kv w.wf_execution eid no_execution (λ e. ok (fn e)) []
          ≡ err library_error =
        ap
          (λ r.
            and_then (ensure lib.kv w.wf_execution eid no_execution r)
              (λ x. update_kv lib.kv x eid (λ e. ok (fn e)) []))
          g
        ∙ ap
            (λ r. and_then r (λ x.
              and_then (ok (fn x.0))
                (λ v. and_then (lib.kv.update w.wf_execution eid v x.1) (λ y. ok (y, v)))))
            g in
      let left : abandoned lib.kv w.wf_execution eid no_execution [] ≡ w.wf_execution =
        ap (λ r. after_save lib.kv w.wf_execution (ensure lib.kv w.wf_execution eid no_execution r))
          g in
      let failed : update_execution lib eid no_execution fn w ≡ (err library_error, w) =
        ap
          (committed
            (record w { wf_execution = abandoned lib.kv w.wf_execution eid no_execution [] })
            (λ r. record w { wf_execution = r.0 }) (λ r. tt))
          started
        ∙ ap (λ b. (err library_error, record w { wf_execution = b })) left in
      let removed : remove_execution lib eid w ≡ (ok tt, record w { wf_execution = b }) =
        ap (committed w (λ x. record w { wf_execution = x }) (λ x. tt)) d in
      exec_bind-eq (kvs_for lib)
        (λ t. query (λ x. ok (kept_object lib eid no_execution fn x)) >>= finish) w
        (ap (λ r. (r, w)) k)
      ∙ exec_bind-eq (query (λ x. ok (kept_object lib eid no_execution fn x))) finish w
          (ap (λ x. (ok x, w)) unseen)
      ∙ ap (λ r. after_update lib true state pid eid r.0 r.1) failed
      ∙ exec_bind-eq (remove_execution lib eid) (λ t. raise library_error) w removed
