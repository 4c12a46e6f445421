-- ===== src/Engine/Activities/Completes.antt =====
-- The end of a child process in activityCompleteProcessor of internal/server/workflow/engine.go: how
-- often the job that launched it is completed.
use shar.Prelude.{
  ℕ, ◌+◌, ◌<◌, ◌≡◌, refl, sym, ap, subst, ◌∙◌, String, Bool, true, false, not, Option, none, some,
  ◌==◌, ◌&&◌, ◌||◌, length, ltb, arith, if◌then◌else◌,
}
use shar.Errors.{
  Err, Outcome, ok, err, panic, library_error, job_not_found, execution_not_found, is_key_not_found,
}
use shar.Errors.Exec.{Exec, pure, raise, lift, query, handle}
use shar.Errors.Triple.{
  After, Triple, Keeps, Triple-lift, Triple-query, Triple-bind, Triple-handle, Triple-committed,
}
use shar.Tracking
use shar.Nats.{load_obj}
use shar.Model.{ProcessInstance, Execution, WorkflowState}
use shar.Server.{
  Libraries, World, job_launch_complete, kvs_for, not_found, get_job, get_execution,
  publish_workflow_state,
}
use shar.Instances.{destroy_process_instance}
use shar.Server.Reads.{read-eq, not_found-ok}
use shar.Engine.Jobs.{remove_job, delete_job_record}
use shar.Engine.Activities.{
  publish_again, tolerate, destroy_child, finish_child, found_parent, end_process, is_job_not_found,
}
use shar.Vars.{Codec, Expr}
use shar.Engine.Activities.Child.{launches, Launched, publish-Launched, destroy-Launched}

module _ (lib : Libraries) (codec : Codec) (expr : Expr) where
  -- A failure is allowed anywhere.
  abbrev pub Anything : World lib → Type 0
  Anything w = Unit {0}

  allow :
      {A : Type 0} {m : Exec (World lib) A} {R : A → World lib → Type 0} {P E : World lib → Type 0}
      → Triple P m R E
      → Triple P m R Anything
  allow {A} {m} {R} {P} {E} h = record { run = λ w p. go (m w) (h.run w p) }
    where
      go : (r : Outcome A × World lib) → After R E r → After R Anything r
      go (ok a, w) q = q
      go (err e, w) q = tt
      go (panic, w) q = tt

  since :
      {A : Type 0} {m : Exec (World lib) A} {R R' : A → World lib → Type 0}
      {P E : World lib → Type 0}
      → Triple P m R E
      → ((a : A) (w : World lib) → R a w → R' a w)
      → Triple P m R' E
  since {A} {m} {R} {R'} {P} {E} h f = record { run = λ w p. go (m w) (h.run w p) }
    where
      go : (r : Outcome A × World lib) → After R E r → After R' E r
      go (ok a, w) q = f a w q
      go (err e, w) q = q
      go (panic, w) q = q

  next_or :
      (n : ℕ) {Q : Unit {0} → World lib → Type 0} (next : Exec (World lib) (Unit {0}))
      → Triple (Launched lib n) next Q Anything
      → (b : Bool) (e : Err) → Triple (Launched lib n) (if b then next else raise e) Q Anything
  next_or n next t true e = t
  next_or n next t false e = record { run = λ w p. tt }

  module _ (n : ℕ) {Q : Unit {0} → World lib → Type 0} (next : Exec (World lib) (Unit {0}))
      (t : Triple (Launched lib n) next Q Anything) where
    stop_or :
        (b : Bool) (e : Err)
        → Triple (Launched lib n) (if b then lift panic else raise e) Q Anything
    stop_or true e = record { run = λ w p. tt }
    stop_or false e = record { run = λ w p. tt }

    destroy_child-Leads :
        (state : WorkflowState) (pi : Option ProcessInstance) (r : Outcome Execution)
        → Triple (Launched lib n) (destroy_child lib codec expr state pi next r) Q Anything
    destroy_child-Leads state none (ok execution) = t
    destroy_child-Leads state (some pi) (ok execution) =
        Triple-handle
          (destroy_process_instance lib state pi.process_instance_id execution.execution_id)
          (tolerate lib codec expr next)
          (destroy-Launched lib n state pi.process_instance_id execution.execution_id) (λ s. t)
          (λ e. next_or n next t (is_key_not_found e) e) (record { run = λ w p. tt })
    destroy_child-Leads state none (err e) = next_or n next t (is_key_not_found e) library_error
    destroy_child-Leads state (some pi) (err e) = stop_or (is_key_not_found e) library_error
    destroy_child-Leads state none panic = record { run = λ w p. tt }
    destroy_child-Leads state (some pi) panic = record { run = λ w p. tt }

    delete-Launched : (id : String) → Keeps (Launched lib n) (delete_job_record lib id)
    unfolding delete_job_record remove_job
    delete-Launched id =
        Triple-bind (kvs_for lib) (λ _. remove_job lib id)
          (Triple-lift (Launched lib n) lib.kvs_for)
          (λ _.
            Triple-committed (λ w. lib.kv.delete w.job id) (λ w b. record w { job = b }) (λ w b. tt)
              (λ w b p e. p))

    get_execution-Launched : (id : String) → Keeps (Launched lib n) (get_execution lib id)
    unfolding get_execution
    get_execution-Launched id =
        let read =
          λ (w : World lib). not_found execution_not_found (load_obj lib.kv w.wf_execution id) in
        Triple-bind (kvs_for lib) (λ _. query read) (Triple-lift (Launched lib n) lib.kvs_for)
          (λ _. Triple-query (Launched lib n) read)

    child-Leads :
        (state : WorkflowState) (pi : Option ProcessInstance) (job_id : String)
        → Triple
            (Launched lib n)
            (handle (delete_job_record lib job_id) (
              tolerate lib codec expr (
                handle
                  (get_execution lib state.execution_id)
                  (destroy_child lib codec expr state pi next))))
            Q
            Anything
    child-Leads state pi job_id =
        let inner : Exec (World lib) (Unit {0}) =
          handle (get_execution lib state.execution_id)
            (destroy_child lib codec expr state pi next) in
        let inner_leads : Triple (Launched lib n) inner Q Anything =
          Triple-handle (get_execution lib state.execution_id)
            (destroy_child lib codec expr state pi next) (get_execution-Launched state.execution_id)
            (λ x. destroy_child-Leads state pi (ok x)) (λ e. destroy_child-Leads state pi (err e))
            (destroy_child-Leads state pi panic) in
        Triple-handle (delete_job_record lib job_id) (tolerate lib codec expr inner)
          (delete-Launched job_id) (λ s. inner_leads)
          (λ e. next_or n inner inner_leads (is_key_not_found e) e) (record { run = λ w p. tt })

  -- Without the job, the end of the process is not reached.
  finish_none :
      (n : ℕ) (state : WorkflowState) (pi : Option ProcessInstance) (job_id : String)
      → Triple
          (Launched lib n)
          (finish_child lib codec expr state pi job_id none)
          (λ t w. ⊥)
          Anything
  unfolding finish_child
  finish_none n state pi job_id =
      child-Leads n {Q = λ t w. ⊥} (publish_again lib codec expr none) (record { run = λ w p. tt })
        state pi job_id

  finish_some :
      (n : ℕ) (state : WorkflowState) (pi : Option ProcessInstance) (job_id : String)
      (j : WorkflowState)
      → Triple
          (Launched lib n)
          (finish_child lib codec expr state pi job_id (some j))
          (λ t. Launched lib (n + 1))
          Anything
  unfolding finish_child
  finish_some n state pi job_id j =
      child-Leads n {Q = λ t. Launched lib (n + 1)} (publish_again lib codec expr (some j))
        (Triple-bind (publish_workflow_state lib job_launch_complete j) (λ _. pure tt)
          (allow (publish-Launched lib n job_launch_complete j)) (λ _. record { run = λ w p. p }))
        state pi job_id

  found_parent-Leads :
      (n : ℕ) (state : WorkflowState) (pi : Option ProcessInstance) (job_id : String)
      (r : Outcome WorkflowState)
      → Triple
          (Launched lib n)
          (found_parent lib codec expr state pi job_id r)
          (λ t w. Launched lib (n + 2) w × ((j : WorkflowState) × (r ≡ ok j)))
          Anything
  found_parent-Leads n state pi job_id (ok j) =
      let j' = record j { vars = state.vars; error = state.error } in
      Triple-bind (publish_workflow_state lib job_launch_complete j')
        (λ x. finish_child lib codec expr state pi job_id (some x))
        (allow (publish-Launched lib n job_launch_complete j'))
        (λ x.
          since (finish_some (n + 1) state pi job_id x) (λ t w p. (ground (arith, p), (j, refl))))
  found_parent-Leads n state pi job_id (err e) = go (is_job_not_found e)
    where
      go :
          (b : Bool)
          → Triple
              (Launched lib n)
              (if b then finish_child lib codec expr state pi job_id none else raise e)
              (λ t w. Launched lib (n + 2) w × ((j : WorkflowState) × (err e ≡ ok j)))
              Anything
      go true = since (finish_none n state pi job_id) (λ t w p. absurd p)
      go false = record { run = λ w p. tt }
  found_parent-Leads n state pi job_id panic = record { run = λ w p. tt }

  -- When the completion of an end event of a child process succeeds, the job that launched the process was stored, and the completion of a launched process was published twice.
  pub end_process-twice :
      (state : WorkflowState) (pi : Option ProcessInstance) (w : World lib) {w' : World lib}
      → (state.element_type == "endEvent" || state.element_type == "compensateEndEvent") ≡ true
      → 2 < length state.id
      → (Tracking.ancestor state.id 2 == state.execution_id) ≡ false
      → lib.kvs_for ≡ ok tt
      → end_process lib codec expr state pi w ≡ (ok tt, w')
      → (launches (lib.published w'.stream) ≡ launches (lib.published w.stream) + 2)
        × ((j : WorkflowState) × (load_obj lib.kv w.job (Tracking.ancestor state.id 2) ≡ ok j))
  unfolding end_process get_job
  end_process-twice state pi w {w'} end deep child k h =
      let id = Tracking.ancestor state.id 2 in
      let job = not_found job_not_found (load_obj lib.kv w.job id) in
      let guard =
        (state.element_type == "endEvent" || state.element_type == "compensateEndEvent")
        && ltb 2 (length state.id)
        && not (id == state.execution_id) in
      let passes : guard ≡ true = ground (arith, end, deep, child) in
      let next : Exec (World lib) (Unit {0}) =
        handle (get_job lib id) (found_parent lib codec expr state pi id) in
      let h1 : next w ≡ (ok tt, w') = ap (λ b. (if b then next else pure tt) w) (sym passes) ∙ h in
      let read : get_job lib id w ≡ (job, w) =
        read-eq lib (λ w. not_found job_not_found (load_obj lib.kv w.job id)) k w in
      let h2 : found_parent lib codec expr state pi id job w ≡ (ok tt, w') =
        ap (λ r. found_parent lib codec expr state pi id r.0 r.1) (sym read) ∙ h1 in
      let n = launches (lib.published w.stream) in
      let Q : Unit {0} → World lib → Type 0 =
        λ t x. Launched lib (n + 2) x × ((j : WorkflowState) × (job ≡ ok j)) in
      let (twice, (j, found)) =
        subst (After Q Anything) h2 ((found_parent-Leads n state pi id job).run w refl) in
      (twice, (j, not_found-ok job_not_found (load_obj lib.kv w.job id) found))
