-- ===== src/Engine/Activities/Child.antt =====
-- The end of a child process in activityCompleteProcessor of internal/server/workflow/engine.go.
use shar.Prelude.{
  ℕ, ◌+◌, ◌≡◌, refl, ap, subst, ◌∙◌, String, Bool, true, false, List, [], ◌∷◌, ◌++◌, arith,
  if◌then◌else◌,
}
use shar.Errors.{Outcome, ok, err, panic}
use shar.Errors.Exec.{Exec, raise, query, handle, ◌>>=◌, ◌>>◌}
use shar.Errors.Triple.{
  Triple, Keeps, Triple-lift, Triple-query, Triple-bind, Triple-handle, Triple-committed,
  Triple-committed_or,
}
use shar.Nats.{update_obj, abandoned}
use shar.Model.{Execution, WorkflowState, no_execution}
use shar.Server.{
  Libraries, World, Subject, job_launch_complete, process_terminated, execution_complete, kvs_for,
  publish_workflow_state,
}
use shar.Instances.{
  is_empty, drop_instance, update_execution, remove_execution, remove_process_instance, when,
  publish_if, after_update, kept_object, destroy_process_instance,
}

abbrev pub is_launch : Subject → Bool
is_launch job_launch_complete = true
is_launch _ = false

-- How many messages say that a launched process is complete.
abbrev pub launches : List (Subject × WorkflowState) → ℕ
launches [] = 0
launches ((subject, state) ∷ msgs) = (if is_launch subject then 1 else 0) + launches msgs

launches-append :
    (msgs : List (Subject × WorkflowState)) (subject : Subject) (state : WorkflowState)
    → launches (msgs ++ (subject, state) ∷ [])
      ≡ launches msgs + (if is_launch subject then 1 else 0)
launches-append [] subject state = ground arith
launches-append ((s, x) ∷ msgs) subject state = omega (arith, launches-append msgs subject state)

module _ (lib : Libraries) where
  abbrev pub Launched : ℕ → World lib → Type 0
  Launched n w = launches (lib.published w.stream) ≡ n

  pub publish-Launched :
      (n : ℕ) (subject : Subject) (state : WorkflowState)
      → Triple
          (Launched n)
          (publish_workflow_state lib subject state)
          (λ _. Launched (n + (if is_launch subject then 1 else 0)))
          (Launched n)
  unfolding publish_workflow_state
  publish-Launched n subject state =
      Triple-committed (λ w. lib.publish w.stream subject (record state { unix_time_nano = w.now }))
        (λ w s. record w { stream = s }) (λ w s. record state { unix_time_nano = w.now })
        (λ w s p e.
          ap launches
            (lib.published-publish w.stream s subject (record state { unix_time_nano = w.now }) e)
          ∙ launches-append (lib.published w.stream) subject
              (record state { unix_time_nano = w.now })
          ∙ ap (λ (x : ℕ). x + (if is_launch subject then 1 else 0)) p)

  other-Launched :
      (n : ℕ) (subject : Subject) (state : WorkflowState)
      → is_launch subject ≡ false
      → Keeps (Launched n) (publish_workflow_state lib subject state)
  other-Launched n subject state h =
      subst
        (λ m.
          Triple (Launched n) (publish_workflow_state lib subject state) (λ _. Launched m)
            (Launched n))
        (ground (arith, h)) (publish-Launched n subject state)

  publish_if-Launched :
      (n : ℕ) (b : Bool) (state : WorkflowState) → Keeps (Launched n) (publish_if lib b state)
  publish_if-Launched n true state = other-Launched n execution_complete state refl
  publish_if-Launched n false state = record { run = λ w p. p }

  when-Launched :
      (n : ℕ) (b : Bool) (eid : String) → Keeps (Launched n) (when lib b (remove_execution lib eid))
  unfolding remove_execution
  when-Launched n true eid =
      Triple-committed (λ w. lib.kv.delete w.wf_execution eid)
        (λ w b. record w { wf_execution = b }) (λ w b. tt) (λ w b p e. p)
  when-Launched n false eid = record { run = λ w p. p }

  after_update-Launched :
      (n : ℕ) (last : Bool) (state : WorkflowState) (pid eid : String) (r : Outcome (Unit {0}))
      → Keeps (Launched n) (after_update lib last state pid eid r)
  unfolding after_update remove_process_instance
  after_update-Launched n last state pid eid (ok t) =
      let end : Exec (World lib) WorkflowState =
        publish_workflow_state lib process_terminated state >>= publish_if lib last in
      Triple-bind (when lib last (remove_execution lib eid))
        (λ _. remove_process_instance lib pid >> end) (when-Launched n last eid)
        (λ _.
          Triple-bind (remove_process_instance lib pid) (λ _. end)
            (Triple-committed (λ w. lib.kv.delete w.wf_process_instance pid)
              (λ w b. record w { wf_process_instance = b }) (λ w b. tt) (λ w b p e. p))
            (λ _.
              Triple-bind (publish_workflow_state lib process_terminated state)
                (publish_if lib last) (other-Launched n process_terminated state refl)
                (λ s. publish_if-Launched n last s)))
  after_update-Launched n last state pid eid (err e) =
      Triple-bind (when lib last (remove_execution lib eid)) (λ _. raise e)
        (when-Launched n last eid) (λ _. record { run = λ w p. p })
  after_update-Launched n last state pid eid panic = record { run = λ w p. p }

  pub destroy-Launched :
      (n : ℕ) (state : WorkflowState) (pid eid : String)
      → Keeps (Launched n) (destroy_process_instance lib state pid eid)
  unfolding destroy_process_instance update_execution
  destroy-Launched n state pid eid =
      let object = λ (w : World lib). ok (kept_object lib eid no_execution (drop_instance pid) w) in
      let finish : Execution → Exec (World lib) WorkflowState = λ e.
        handle (update_execution lib eid no_execution (drop_instance pid))
          (after_update lib (is_empty e.process_instance_id) state pid eid) in
      Triple-bind (kvs_for lib) (λ _. query object >>= finish)
        (Triple-lift (Launched n) lib.kvs_for)
        (λ _. Triple-bind (query object) finish (Triple-query (Launched n) object) (λ e.
          Triple-handle (update_execution lib eid no_execution (drop_instance pid))
            (after_update lib (is_empty e.process_instance_id) state pid eid)
            (Triple-committed_or
              (λ w. record w { wf_execution = abandoned lib.kv w.wf_execution eid no_execution [] })
              (λ w.
                update_obj lib.kv w.wf_execution eid no_execution (λ x. ok (drop_instance pid x))
                  [])
              (λ w r. record w { wf_execution = r.0 }) (λ w r. tt) (λ w p. p) (λ w r p q. p))
            (λ t. after_update-Launched n (is_empty e.process_instance_id) state pid eid (ok t))
            (λ x. after_update-Launched n (is_empty e.process_instance_id) state pid eid (err x))
            (after_update-Launched n (is_empty e.process_instance_id) state pid eid panic)))
