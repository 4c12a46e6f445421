-- ===== src/Instances/Kept.antt =====
-- Executions and process instances of internal/server/workflow/operations.go: every call keeps them
-- linked, whichever way it ends.
use shar.Prelude.{◌≡◌, refl, sym, subst, inl, inr, String, Bool, true, false, []}
use shar.Errors.{Err, Outcome, ok, err, panic, key_not_found}
use shar.Errors.Exec.{Exec, raise, query, handle, ◌>>=◌, ◌>>◌}
use shar.Errors.Triple.{
  After, Triple, Keeps, Triple-lift, Triple-query, Triple-bind, Triple-handle, Triple-committed,
  Triple-committed_or,
}
use shar.Nats.{Documented, load_obj, update_obj, abandoned}
use shar.Nats.Alone.{abandoned-cases, update_obj-Updated}
use shar.Model.{Execution, ProcessInstance, WorkflowState, no_execution}
use shar.Server.{
  Libraries, World, Subject, process_terminated, execution_complete, kvs_for,
  publish_workflow_state,
}
use shar.Instances.Grown.{Linked-empty}
use shar.Instances.{
  is_empty, drop_instance, update_execution, remove_execution, remove_process_instance, when,
  publish_if, after_update, destroy_process_instance, kept_object,
}
use shar.Instances.Linked.{
  Linked, Unlisted, Linked-delete, Unlisted-delete, Linked-Unlisted, Linked-drop, Unlisted-drop,
}

module _ (lib : Libraries) where
  -- A condition on the two buckets, as one on the world.
  abbrev pub On :
      (lib.kv.Bucket Execution → lib.kv.Bucket ProcessInstance → Type 0) → World lib → Type 0
  On R w = R w.wf_execution w.wf_process_instance

  abbrev pub AllLinked : World lib → Type 0
  AllLinked = On (Linked lib.kv)

  -- The process instance is stored for this execution, if at all.
  abbrev pub Belongs : String → String → World lib → Type 0
  Belongs pid eid w =
      (pi : ProcessInstance)
      → load_obj lib.kv w.wf_process_instance pid ≡ ok pi
      → pi.execution_id ≡ eid

  -- The identifier that is handed out next is not in use.
  abbrev pub Fresh : World lib → Type 0
  Fresh w = load_obj lib.kv w.wf_process_instance (lib.ksuid w.next_id) ≡ err key_not_found

  -- Linked, and the process instance is taken off.
  abbrev pub Off : String → World lib → Type 0
  Off pid w = AllLinked w × Unlisted lib.kv w.wf_execution pid

  publish-Keeps :
      (R : lib.kv.Bucket Execution → lib.kv.Bucket ProcessInstance → Type 0) (subject : Subject)
      (state : WorkflowState)
      → Keeps (On R) (publish_workflow_state lib subject state)
  unfolding publish_workflow_state
  publish-Keeps R subject state =
      Triple-committed (λ w. lib.publish w.stream subject (record state { unix_time_nano = w.now }))
        (λ w s. record w { stream = s }) (λ w s. record state { unix_time_nano = w.now })
        (λ w a p e. p)

  publish_if-Keeps :
      (R : lib.kv.Bucket Execution → lib.kv.Bucket ProcessInstance → Type 0) (b : Bool)
      (state : WorkflowState)
      → Keeps (On R) (publish_if lib b state)
  publish_if-Keeps R true state = publish-Keeps R execution_complete state
  publish_if-Keeps R false state = record { run = λ w p. p }

  module _ (doc : Documented lib.kv) where
    remove_execution-Keeps : (eid : String) → Keeps AllLinked (remove_execution lib eid)
    unfolding remove_execution
    remove_execution-Keeps eid =
        Triple-committed (λ w. lib.kv.delete w.wf_execution eid)
          (λ w b. record w { wf_execution = b }) (λ w b. tt)
          (λ w b l d. Linked-delete lib.kv doc w.wf_execution b w.wf_process_instance eid d l)

    remove_execution-Off : (pid eid : String) → Keeps (Off pid) (remove_execution lib eid)
    unfolding remove_execution
    remove_execution-Off pid eid =
        Triple-committed (λ w. lib.kv.delete w.wf_execution eid)
          (λ w b. record w { wf_execution = b }) (λ w b. tt)
          (λ w b l d. (
            Linked-delete lib.kv doc w.wf_execution b w.wf_process_instance eid d l.0,
            Unlisted-delete lib.kv doc w.wf_execution b eid pid d l.1,
          ))

    when-Off :
        (b : Bool) (pid eid : String) → Keeps (Off pid) (when lib b (remove_execution lib eid))
    when-Off true pid eid = remove_execution-Off pid eid
    when-Off false pid eid = record { run = λ w p. p }

    when-Keeps : (b : Bool) (eid : String) → Keeps AllLinked (when lib b (remove_execution lib eid))
    when-Keeps true eid = remove_execution-Keeps eid
    when-Keeps false eid = record { run = λ w p. p }

    remove_process_instance-Keeps :
        (pid : String)
        → Triple (Off pid) (remove_process_instance lib pid) (λ _. AllLinked) (Off pid)
    unfolding remove_process_instance
    remove_process_instance-Keeps pid =
        Triple-committed (λ w. lib.kv.delete w.wf_process_instance pid)
          (λ w b. record w { wf_process_instance = b }) (λ w b. tt)
          (λ w b l d.
            Linked-Unlisted lib.kv doc w.wf_execution w.wf_process_instance b pid d l.1 l.0)

    drop_update-Off :
        (pid eid : String)
        → Triple
            (λ w. AllLinked w × Belongs pid eid w)
            (update_execution lib eid no_execution (drop_instance pid))
            (λ _. Off pid)
            (λ w. AllLinked w × Belongs pid eid w)
    unfolding update_execution
    drop_update-Off pid eid =
        Triple-committed_or
          (λ w. record w { wf_execution = abandoned lib.kv w.wf_execution eid no_execution [] })
          (λ w.
            update_obj lib.kv w.wf_execution eid no_execution (λ e. ok (drop_instance pid e)) [])
          (λ w r. record w { wf_execution = r.0 }) (λ w r. tt)
          (λ w l. (
            elim (abandoned-cases lib.kv doc eid no_execution (λ x. ok (drop_instance pid x))
                w.wf_execution) [
                  | inl kept ↦ subst (λ b. Linked lib.kv b w.wf_process_instance) (sym kept) l.0
                  | inr (gone, put) ↦
                      Linked-empty lib.kv doc w.wf_execution
                        (abandoned lib.kv w.wf_execution eid no_execution []) w.wf_process_instance
                        eid no_execution put refl l.0
                ],
            l.1,
          ))
          (λ w r l e.
            let up =
              update_obj-Updated lib.kv doc eid no_execution (λ x. ok (drop_instance pid x))
                w.wf_execution r.0 r.1 e in
            (
              Linked-drop lib.kv doc w.wf_execution r.0 w.wf_process_instance eid pid up l.0,
              Unlisted-drop lib.kv doc w.wf_execution r.0 w.wf_process_instance eid pid up l.0 l.1,
            ))

    pub weaken :
        {A : Type 0} {P Q : World lib → Type 0} {m : Exec (World lib) A}
        {R : A → World lib → Type 0}
        → Triple P m R Q
        → ((w : World lib) → Q w → AllLinked w)
        → Triple P m R AllLinked
    weaken {A} {P} {Q} {m} {R} t h = record { run = λ w p. go (m w) (t.run w p) }
      where
        go : (r : Outcome A × World lib) → After R Q r → After R AllLinked r
        go (ok a, w) q = q
        go (err e, w) q = h w q
        go (panic, w) q = h w q

    pub strengthen :
        {A : Type 0} {P P' : World lib → Type 0} {m : Exec (World lib) A}
        {R : A → World lib → Type 0} {Q : World lib → Type 0}
        → Triple P m R Q
        → ((w : World lib) → P' w → P w)
        → Triple P' m R Q
    strengthen t h = record { run = λ w p. t.run w (h w p) }

    module _ (last : Bool) (state : WorkflowState) (pid eid : String) where
      end : WorkflowState → Exec (World lib) WorkflowState
      end s = publish_if lib last s

      announce_end : Exec (World lib) WorkflowState
      unfolding end
      announce_end = publish_workflow_state lib process_terminated state >>= end

      after_ok :
          (t : Unit {0})
          → Triple (Off pid) (after_update lib last state pid eid (ok t)) (λ _. AllLinked) AllLinked
      unfolding after_update end announce_end
      after_ok t =
          Triple-bind (when lib last (remove_execution lib eid))
            (λ _. remove_process_instance lib pid >> announce_end)
            (weaken (when-Off last pid eid) (λ w p. p.0))
            (λ _.
              Triple-bind (remove_process_instance lib pid) (λ _. announce_end)
                (weaken (remove_process_instance-Keeps pid) (λ w p. p.0))
                (λ _.
                  Triple-bind (publish_workflow_state lib process_terminated state) end
                    (publish-Keeps (Linked lib.kv) process_terminated state)
                    (λ s. publish_if-Keeps (Linked lib.kv) last s)))

      after_err :
          (e : Err)
          → Triple
              (λ w. AllLinked w × Belongs pid eid w)
              (after_update lib last state pid eid (err e))
              (λ _. AllLinked)
              AllLinked
      unfolding after_update
      after_err e =
          strengthen
            (Triple-bind (when lib last (remove_execution lib eid)) (λ _. raise e)
              (when-Keeps last eid) (λ _. record { run = λ w p. p }))
            (λ w p. p.0)

      after_panic :
          Triple
            (λ w. AllLinked w × Belongs pid eid w)
            (after_update lib last state pid eid panic)
            (λ _. AllLinked)
            AllLinked
      unfolding after_update
      after_panic = record { run = λ w p. p.0 }

    pub destroy-Keeps :
        (state : WorkflowState) (pid eid : String)
        → Triple
            (λ w. AllLinked w × Belongs pid eid w)
            (destroy_process_instance lib state pid eid)
            (λ _. AllLinked)
            AllLinked
    unfolding destroy_process_instance
    destroy-Keeps state pid eid =
        let P : World lib → Type 0 = λ w. AllLinked w × Belongs pid eid w in
        let object =
          λ (w : World lib). ok (kept_object lib eid no_execution (drop_instance pid) w) in
        let finish : Execution → Exec (World lib) WorkflowState = λ e.
          handle (update_execution lib eid no_execution (drop_instance pid))
            (after_update lib (is_empty e.process_instance_id) state pid eid) in
        Triple-bind {P = P} (kvs_for lib) (λ _. query object >>= finish)
          (weaken (Triple-lift P lib.kvs_for) (λ w p. p.0))
          (λ _.
            Triple-bind (query object) finish (weaken (Triple-query P object) (λ w p. p.0)) (λ e.
              Triple-handle (update_execution lib eid no_execution (drop_instance pid))
                (after_update lib (is_empty e.process_instance_id) state pid eid)
                (drop_update-Off pid eid) (after_ok (is_empty e.process_instance_id) state pid eid)
                (after_err (is_empty e.process_instance_id) state pid eid)
                (after_panic (is_empty e.process_instance_id) state pid eid)))
