-- ===== src/Engine/Jobs/Concluded.antt =====
-- completeJobProcessor of internal/server/workflow/engine.go: what a completed job leaves behind.
use shar.Prelude.{
  ◌≡◌, refl, sym, ap, ◌∙◌, ◌⊎◌, inl, inr, String, Bool, true, some, arith, Bool-cases,
}
use shar.Prelude.Maps.{lookup}
use shar.Errors.{
  Err, Outcome, ok, err, panic, key_not_found, is_key_not_found, is_process_instance_not_found,
  process_instance_not_found, workflow_not_found,
}
use shar.Errors.Exec.{Exec, handle, exec_bind-ok}
use shar.Tracking
use shar.Nats.{Documented, load_obj}
use shar.Model.{
  Element, ProcessInstance, Workflow, WorkflowState, ProcessHistoryEntry, element_table,
  activity_execute,
}
use shar.Vars.{Codec, Expr}
use shar.Server.{
  Libraries, World, not_found, history_key, get_process_history_item, get_process_instance,
  get_workflow,
}
use shar.Server.Reads.{read-eq, get_workflow-state}
use shar.Engine.{quiet}
use shar.Engine.Jobs.{complete_started, with_instance, complete_job_processor}
use shar.Engine.Jobs.Done.{JobDone, complete_started-JobDone}

pub quiet-cases :
    {S A B : Type 0} (test : Err → Bool) (done : B) (next : A → Exec S B) (r : Outcome A) (s : S)
    {b : B} {s' : S}
    → quiet test done next r s ≡ (ok b, s')
    → ((a : A) × (r ≡ ok a) × (next a s ≡ (ok b, s')))
      ⊎ ((e : Err) × (r ≡ err e) × (test e ≡ true) × (b ≡ done) × (s' ≡ s))
quiet-cases test done next (ok a) s h = inl (a, refl, h)
quiet-cases test done next (err e) s h = elim (Bool-cases (test e)) [
  | inl y ↦ inr (e, refl, y, ground (arith, y, h), ground (arith, y, h))
  | inr n ↦ absurd (ground (arith, n, h))
]
quiet-cases test done next panic s h = absurd (ground arith)

pub is_key_not_found-eq : (e : Err) → is_key_not_found e ≡ true → e ≡ key_not_found
is_key_not_found-eq key_not_found h = refl
is_key_not_found-eq e h = absurd (ground arith)

pub is_process_instance_not_found-eq :
    (e : Err) → is_process_instance_not_found e ≡ true → e ≡ process_instance_not_found
is_process_instance_not_found-eq process_instance_not_found h = refl
is_process_instance_not_found-eq e h = absurd (ground arith)

-- A job that is too late: its activity has no start in the history, or its process instance is gone.
pub data TooLate (lib : Libraries) (w : World lib) (job : WorkflowState) : Type 0 where
  no_start :
      (activity : String)
      → (activity ≡ Tracking.parent_id job.id) ⊎ (activity ≡ Tracking.id (Tracking.pop job.id))
      → load_obj lib.kv w.wf_history (history_key job.process_instance_id activity activity_execute)
        ≡ err key_not_found
      → TooLate lib w job
  no_instance :
      not_found process_instance_not_found
          (load_obj lib.kv w.wf_process_instance job.process_instance_id)
        ≡ err process_instance_not_found
      → TooLate lib w job

pub data Concluded (lib : Libraries) (codec : Codec) (expr : Expr) (w : World lib)
    (job : WorkflowState) (w' : World lib) : Type 0 where
  ignored : TooLate lib w job → w' ≡ w → Concluded lib codec expr w job w'
  concluded :
      (pi : ProcessInstance) (wf : Workflow) (start : ProcessHistoryEntry) (el : Element)
      → not_found process_instance_not_found
          (load_obj lib.kv w.wf_process_instance job.process_instance_id)
        ≡ ok pi
      → not_found workflow_not_found (load_obj lib.kv w.wf pi.workflow_id) ≡ ok wf
      → load_obj lib.kv w.wf_history
          (history_key job.process_instance_id (Tracking.id (Tracking.pop job.id)) activity_execute)
        ≡ ok start
      → lookup job.element_id (element_table wf) ≡ some el
      → JobDone lib codec expr w job start el w'
      → Concluded lib codec expr w job w'

module _ (lib : Libraries) (doc : Documented lib.kv) (codec : Codec) (expr : Expr)
    (k : lib.kvs_for ≡ ok tt) where
  get_item-eq :
      (pid id : String) (w : World lib)
      → get_process_history_item lib pid id activity_execute w
        ≡ (load_obj lib.kv w.wf_history (history_key pid id activity_execute), w)
  unfolding get_process_history_item
  get_item-eq pid id w =
      read-eq lib (λ w. load_obj lib.kv w.wf_history (history_key pid id activity_execute)) k w

  get_instance-eq :
      (pid : String) (w : World lib)
      → get_process_instance lib pid w
        ≡ (not_found process_instance_not_found (load_obj lib.kv w.wf_process_instance pid), w)
  unfolding get_process_instance
  get_instance-eq pid w =
      read-eq lib
        (λ w. not_found process_instance_not_found (load_obj lib.kv w.wf_process_instance pid)) k w

  with_instance-Concluded :
      (job : WorkflowState) (pi : ProcessInstance) (w : World lib) {w' : World lib}
      → not_found process_instance_not_found
          (load_obj lib.kv w.wf_process_instance job.process_instance_id)
        ≡ ok pi
      → with_instance lib codec expr job pi w ≡ (ok tt, w')
      → Concluded lib codec expr w job w'
  with_instance-Concluded job pi w {w'} known h =
      let pid = job.process_instance_id in
      let activity = Tracking.id (Tracking.pop job.id) in
      let next : Workflow → ProcessHistoryEntry → Exec (World lib) (Unit {0}) =
        λ wf. complete_started lib codec expr job (lookup job.element_id (element_table wf)) in
      let get = get_process_history_item lib pid activity activity_execute in
      let (wf, w1, p, h1) =
        exec_bind-ok (get_workflow lib pi.workflow_id)
          (λ wf. handle get (quiet is_key_not_found tt (next wf))) w h in
      let s1 = (get_workflow-state lib w pi.workflow_id p).1 in
      let h2 : quiet is_key_not_found tt (next wf)
            (load_obj lib.kv w.wf_history (history_key pid activity activity_execute)) w
          ≡ (ok tt, w') =
        ap (λ r. quiet is_key_not_found tt (next wf) r.0 r.1) (sym (get_item-eq pid activity w))
        ∙ ap (handle get (quiet is_key_not_found tt (next wf))) (sym s1)
        ∙ h1 in
      elim (quiet-cases is_key_not_found tt (next wf)
        (load_obj lib.kv w.wf_history (history_key pid activity activity_execute)) w h2) [
          | inl (start, at, g) ↦
              let (el, found, done) =
                complete_started-JobDone lib doc codec expr w job
                  (lookup job.element_id (element_table wf)) start g in
              concluded pi wf start el known (get_workflow-state lib w pi.workflow_id p).0 at found
                done
          | inr (e, at, test, b, same) ↦
              ignored (no_start activity (inr refl) (at ∙ ap err (is_key_not_found-eq e test))) same
        ]

  -- When the handling of a completed job ends without an error, either it changed nothing, because the history has no start of the job's activity or the process instance is gone; or the activity's start was found, and one completion of the activity was published, with the identity of the start, the place of the job and the variables of the start merged with the result of the job by the transformation of its element; the history holds the completion of the activity and of the job and is otherwise what it was; the job is gone and every other job is kept; and nothing else changed.
  pub complete_job_processor-Concluded :
      (job : WorkflowState) (w : World lib) {w' : World lib}
      → complete_job_processor lib codec expr job w ≡ (ok tt, w')
      → Concluded lib codec expr w job w'
  unfolding complete_job_processor
  complete_job_processor-Concluded job w {w'} h =
      let pid = job.process_instance_id in
      let activity = Tracking.parent_id job.id in
      let pi_read =
        not_found process_instance_not_found (load_obj lib.kv w.wf_process_instance pid) in
      let at_pi : Outcome ProcessInstance → Exec (World lib) (Unit {0}) =
        quiet is_process_instance_not_found tt (with_instance lib codec expr job) in
      let next : ProcessHistoryEntry → Exec (World lib) (Unit {0}) =
        λ found. handle (get_process_instance lib pid) at_pi in
      let start_read = load_obj lib.kv w.wf_history (history_key pid activity activity_execute) in
      let h1 : quiet is_key_not_found tt next start_read w ≡ (ok tt, w') =
        ap (λ r. quiet is_key_not_found tt next r.0 r.1) (sym (get_item-eq pid activity w)) ∙ h in
      elim (quiet-cases is_key_not_found tt next start_read w h1) [
        | inr (e, at, test, b, same) ↦
            ignored (no_start activity (inl refl) (at ∙ ap err (is_key_not_found-eq e test))) same
        | inl (start, at, g) ↦
            let h2 : at_pi pi_read w ≡ (ok tt, w') =
              ap (λ r. at_pi r.0 r.1) (sym (get_instance-eq pid w)) ∙ g in
            elim (quiet-cases is_process_instance_not_found tt (with_instance lib codec expr job)
              pi_read w h2) [
                | inl (pi, found, g2) ↦ with_instance-Concluded job pi w found g2
                | inr (e, found, test, b, same) ↦
                    ignored (no_instance (found ∙ ap err (is_process_instance_not_found-eq e test)))
                      same
              ]
      ]
