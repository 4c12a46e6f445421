-- ===== src/Instances/Created.antt =====
-- createProcessInstance and createExecution of internal/server/workflow/operations.go keep executions
-- and process instances linked, whichever way they end.
use shar.Prelude.{
  ◌≡◌, refl, sym, subst, ◌∙◌, inl, inr, String, some, [], arith, ltb, eq_refl, Bool-cases,
}
use shar.Errors.{Outcome, ok, err, panic, key_not_found, execution_not_found, workflow_not_found}
use shar.Errors.Exec.{Exec, pure, lift, query, handle, ◌>>=◌}
use shar.Errors.Triple.{
  After, Triple, Keeps, Triple-lift, Triple-query, Triple-read, Triple-bind, Triple-handle,
  Triple-committed, Triple-committed_or,
}
use shar.Nats.{Documented, load_obj, save_obj, update_obj, abandoned}
use shar.Nats.Alone.{abandoned-cases, update_obj-Updated}
use shar.Model.{Bytes, Workflow, Execution, ProcessInstance, no_process_instance}
use shar.Server.{Libraries, World, kvs_for, not_found, get_workflow, get_execution}
use shar.Server.Reads.{not_found-ok}
use shar.Traversal.Send.{fresh_id}
use shar.Instances.{
  add_instance, update_execution, save_execution, save_process_instance, create_process_instance,
  create_execution, ensure_buckets,
}
use shar.UserTasks.Closed.{occurs}
use shar.Instances.Linked.{ok-injective}
use shar.Instances.Grown.{Linked-new, Linked-add, Linked-empty}
use shar.Instances.Kept.{AllLinked, Fresh, weaken}

module _ (lib : Libraries) where
  module _ (doc : Documented lib.kv) where
    module _ (eid : String) where
      abbrev Unused : String → World lib → Type 0
      Unused id w = AllLinked lib w × (load_obj lib.kv w.wf_process_instance id ≡ err key_not_found)

      abbrev Found : String → Execution → World lib → Type 0
      Found id wfi w = Unused id w × (load_obj lib.kv w.wf_execution eid ≡ ok wfi)

      -- The new process instance is stored, and not yet listed.
      abbrev Stored : String → ProcessInstance → Execution → World lib → Type 0
      Stored id pi wfi w =
          AllLinked lib w
          × (load_obj lib.kv w.wf_process_instance id ≡ ok pi)
          × (load_obj lib.kv w.wf_execution eid ≡ ok wfi)
          × (occurs id wfi.process_instance_id ≡ 0)

      get_execution-Found :
          (id : String) → Triple (Unused id) (get_execution lib eid) (Found id) (Unused id)
      unfolding get_execution
      get_execution-Found id =
          let read =
            λ (w : World lib). not_found execution_not_found (load_obj lib.kv w.wf_execution eid) in
          Triple-bind (kvs_for lib) (λ _. query read) (Triple-lift (Unused id) lib.kvs_for)
            (λ _. record { run = λ w p. known w (read w) ((Triple-read (Unused id) read).run w p) })
        where
          known :
              (w : World lib) (r : Outcome Execution)
              → After
                  (λ a x.
                    Unused id x
                    × (not_found execution_not_found (load_obj lib.kv x.wf_execution eid) ≡ ok a))
                  (Unused id)
                  (r, w)
              → After (Found id) (Unused id) (r, w)
          known w (ok a) q =
              (q.0, not_found-ok execution_not_found (load_obj lib.kv w.wf_execution eid) q.1)
          known w (err x) q = q
          known w panic q = q

      save-Stored :
          (id : String) (pi : ProcessInstance) (wfi : Execution)
          → Triple
              (Found id wfi)
              (save_process_instance lib id pi)
              (λ _. Stored id pi wfi)
              (Found id wfi)
      unfolding save_process_instance save_obj
      save-Stored id pi wfi =
          Triple-committed (λ w. save_obj lib.kv w.wf_process_instance id pi)
            (λ w b. record w { wf_process_instance = b }) (λ w b. tt)
            (λ w b p e.
              let ((l, missing), at) = p in
              (
                Linked-new lib.kv doc w.wf_execution w.wf_process_instance b id pi e missing l,
                doc.load-put w.wf_process_instance b id id pi e ∙ rw (eq_refl id),
                at,
                elim (Bool-cases (ltb 0 (occurs id wfi.process_instance_id))) [
                  | inl y ↦
                      let (old, stored, own) = l.recorded eid wfi id at (ground (arith, y)) in
                      absurd (ground (arith, stored, missing))
                  | inr n ↦ ground (arith, n)
                ],
              ))

      update-Keeps :
          (id : String) (pi : ProcessInstance) (wfi : Execution)
          → pi.execution_id ≡ eid
          → Triple
              (Stored id pi wfi)
              (update_execution lib eid wfi (add_instance id))
              (λ _. (AllLinked lib))
              (Stored id pi wfi)
      unfolding update_execution
      update-Keeps id pi wfi own =
          Triple-committed_or
            (λ w. record w { wf_execution = abandoned lib.kv w.wf_execution eid wfi [] })
            (λ w. update_obj lib.kv w.wf_execution eid wfi (λ e. ok (add_instance id e)) [])
            (λ w r. record w { wf_execution = r.0 }) (λ w r. tt)
            (λ w p.
              let (l, stored, at, new) = p in
              elim (abandoned-cases lib.kv doc eid wfi (λ x. ok (add_instance id x))
                w.wf_execution) [
                  | inl kept ↦
                      subst (λ b. Stored id pi wfi (record w { wf_execution = b })) (sym kept) p
                  | inr (gone, put) ↦ absurd (ground (arith, gone, at))
                ])
            (λ w r p e.
              let (l, stored, at, new) = p in
              let up =
                update_obj-Updated lib.kv doc eid wfi (λ x. ok (add_instance id x)) w.wf_execution
                  r.0 r.1 e in
              let from : load_obj lib.kv w.wf_execution eid ≡ ok up.value = elim up.started [
                | inl here ↦ here
                | inr (gone, e) ↦ absurd (ground (arith, gone, at))
              ] in
              Linked-add lib.kv doc w.wf_execution r.0 w.wf_process_instance eid id pi up from
                stored own
                (λ x h.
                  subst (λ y. occurs id y.process_instance_id ≡ 0) (ok-injective (sym at ∙ h)) new)
                l)

    pub create_process_instance-Keeps :
        (eid parent parent_el process_id name workflow_id : String) (headers : Bytes)
        → Triple
            (λ w. AllLinked lib w × Fresh lib w)
            (create_process_instance lib eid parent parent_el process_id name workflow_id headers)
            (λ _. (AllLinked lib))
            (AllLinked lib)
    unfolding create_process_instance fresh_id
    create_process_instance-Keeps eid parent parent_el process_id name workflow_id headers =
        let new : String → ProcessInstance = λ id. record no_process_instance {
          process_instance_id = id;
          process_id = process_id;
          parent_process_id = some parent;
          parent_element_id = some parent_el;
          execution_id = eid;
          workflow_name = name;
          workflow_id = workflow_id;
          headers = headers;
        } in
        let listed : String → Execution → Exec (World lib) ProcessInstance =
          λ id wfi. update_execution lib eid wfi (add_instance id) >>= (λ _. pure (new id)) in
        let stored : String → Execution → Exec (World lib) ProcessInstance =
          λ id wfi. save_process_instance lib id (new id) >>= (λ _. listed id wfi) in
        Triple-bind {P = λ w. AllLinked lib w × Fresh lib w} {Q = Unused eid} (fresh_id lib)
          (λ id. kvs_for lib >>= λ _. get_execution lib eid >>= stored id)
          (record { run = λ w p. p })
          (λ id.
            Triple-bind (kvs_for lib) (λ _. get_execution lib eid >>= stored id)
              (weaken lib doc (Triple-lift (Unused eid id) lib.kvs_for) (λ w p. p.0))
              (λ _.
                Triple-bind (get_execution lib eid) (stored id)
                  (weaken lib doc (get_execution-Found eid id) (λ w p. p.0))
                  (λ wfi.
                    Triple-bind (save_process_instance lib id (new id)) (λ _. listed id wfi)
                      (weaken lib doc (save-Stored eid id (new id) wfi) (λ w p. p.0.0))
                      (λ _.
                        Triple-bind (update_execution lib eid wfi (add_instance id))
                          (λ _. pure (new id))
                          (weaken lib doc (update-Keeps eid id (new id) wfi refl) (λ w p. p.0))
                          (λ _. record { run = λ w p. p })))))

    keep-pure : {A : Type 0} (a : A) → Keeps (AllLinked lib) (pure a)
    keep-pure a = record { run = λ w p. p }

    pub create_execution-Keeps :
        (ensure_bucket : String → Outcome (Unit {0})) (execution : Execution)
        → Keeps (AllLinked lib) (create_execution lib ensure_bucket execution)
    unfolding create_execution fresh_id get_workflow save_execution save_obj
    create_execution-Keeps ensure_bucket execution =
        let made : String → Execution =
          λ id. record execution { execution_id = id; process_instance_id = [] } in
        let read = λ (w : World lib).
          not_found workflow_not_found (load_obj lib.kv w.wf execution.workflow_id) in
        let opened : String → Workflow → Exec (World lib) Execution =
          λ id wf. lift (ensure_buckets lib ensure_bucket wf.messages) >>= λ _. pure (made id) in
        let save : String → Outcome Workflow → Exec (World lib) Execution =
          λ id found. save_execution lib id (made id) >>= λ _. lift found >>= opened id in
        let saved : (id : String) (found : Outcome Workflow)
            → Keeps (AllLinked lib) (save id found) =
          λ id found.
            Triple-bind (save_execution lib id (made id)) (λ _. lift found >>= opened id)
              (Triple-committed (λ w. save_obj lib.kv w.wf_execution id (made id))
                (λ w b. record w { wf_execution = b }) (λ w b. tt)
                (λ w b l e.
                  Linked-empty lib.kv doc w.wf_execution b w.wf_process_instance id (made id) e refl
                    l))
              (λ _. Triple-bind (lift found) (opened id) (Triple-lift (AllLinked lib) found) (λ wf.
                Triple-bind (lift (ensure_buckets lib ensure_bucket wf.messages))
                  (λ _. pure (made id))
                  (Triple-lift (AllLinked lib) (ensure_buckets lib ensure_bucket wf.messages))
                  (λ _. keep-pure (made id)))) in
        Triple-bind {P = (AllLinked lib)} {Q = λ _. (AllLinked lib)} (fresh_id lib)
          (λ id. kvs_for lib >>= λ _. handle (get_workflow lib execution.workflow_id) (save id))
          (record { run = λ w p. p })
          (λ id.
            Triple-bind (kvs_for lib)
              (λ _. handle (get_workflow lib execution.workflow_id) (save id))
              (Triple-lift (AllLinked lib) lib.kvs_for)
              (λ _.
                Triple-handle (get_workflow lib execution.workflow_id) (save id)
                  (Triple-bind (kvs_for lib) (λ _. query read)
                    (Triple-lift (AllLinked lib) lib.kvs_for)
                    (λ _. Triple-query (AllLinked lib) read))
                  (λ wf. saved id (ok wf)) (λ e. saved id (err e)) (saved id panic)))
