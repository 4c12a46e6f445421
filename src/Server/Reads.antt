-- ===== src/Server/Reads.antt =====
-- The shared operations that only read leave the state of the server as it is.
use shar.Prelude.{◌≡◌, sym, ap, subst, ◌∙◌, String, arith, Bool-cases, inl, inr}
use shar.Errors.{
  Err, Outcome, ok, err, panic, is_key_not_found, workflow_not_found, execution_not_found,
  process_instance_not_found,
}
use shar.Errors.Exec.{query, exec_bind-ok, exec_bind-eq, lift-ok, ◌>>◌}
use shar.Nats.{load_obj}
use shar.Model.{Workflow, ProcessInstance, Execution}
use shar.Server.{
  Libraries, World, kvs_for, not_found, get_workflow, get_execution, get_process_instance,
  has_valid_process,
}

pub not_found-ok : {A : Type 0} (e : Err) (r : Outcome A) {a : A} → not_found e r ≡ ok a → r ≡ ok a
not_found-ok e (ok a) h = h
not_found-ok e (err x) h = elim (Bool-cases (is_key_not_found x)) [
  | inl y ↦ absurd (ground arith)
  | inr n ↦ absurd (ground arith)
]
not_found-ok e panic h = absurd (ground arith)

-- Where the buckets of the namespace are open, a read gives what the bucket holds.
pub read-eq :
    (lib : Libraries) {A : Type 0} (read : World lib → Outcome A)
    → lib.kvs_for ≡ ok tt
    → (w : World lib) → (kvs_for lib >> query read) w ≡ (read w, w)
read-eq lib read k w = exec_bind-eq (kvs_for lib) (λ _. query read) w (ap (λ r. (r, w)) k)

-- kvs_for, and then one read.
module _ (lib : Libraries) {A : Type 0} (read : World lib → Outcome A) where
  pub read-ok :
      (w : World lib) {a : A} {w' : World lib}
      → (kvs_for lib >> query read) w ≡ (ok a, w')
      → (read w ≡ ok a) × (w' ≡ w)
  read-ok w {a} {w'} h =
      let (t, w1, k, h1) = exec_bind-ok (kvs_for lib) (λ _. query read) w h in
      let e = (lift-ok lib.kvs_for w k).1 in
      lift-ok (read w) w (subst (λ x. query read x ≡ (ok a, w')) e h1)

module _ (lib : Libraries) where
  pub get_workflow-state :
      (w : World lib) (id : String) {wf : Workflow} {w' : World lib}
      → get_workflow lib id w ≡ (ok wf, w')
      → (not_found workflow_not_found (load_obj lib.kv w.wf id) ≡ ok wf) × (w' ≡ w)
  unfolding get_workflow
  get_workflow-state w id h =
      read-ok lib (λ w. not_found workflow_not_found (load_obj lib.kv w.wf id)) w h

  pub get_execution-state :
      (w : World lib) (id : String) {e : Execution} {w' : World lib}
      → get_execution lib id w ≡ (ok e, w')
      → (not_found execution_not_found (load_obj lib.kv w.wf_execution id) ≡ ok e) × (w' ≡ w)
  unfolding get_execution
  get_execution-state w id h =
      read-ok lib (λ w. not_found execution_not_found (load_obj lib.kv w.wf_execution id)) w h

  pub get_process_instance-state :
      (w : World lib) (id : String) {pi : ProcessInstance} {w' : World lib}
      → get_process_instance lib id w ≡ (ok pi, w')
      → (not_found process_instance_not_found (load_obj lib.kv w.wf_process_instance id) ≡ ok pi)
        × (w' ≡ w)
  unfolding get_process_instance
  get_process_instance-state w id h =
      read-ok lib
        (λ w. not_found process_instance_not_found (load_obj lib.kv w.wf_process_instance id)) w h

  pub has_valid_process-state :
      (w : World lib) (pid eid : String) {r : ProcessInstance × Execution} {w' : World lib}
      → has_valid_process lib pid eid w ≡ (ok r, w')
      → w' ≡ w
  unfolding has_valid_process
  has_valid_process-state w pid eid h =
      let (e, w1, p, h1) = exec_bind-ok (get_execution lib eid) _ w h in
      let (pi, w2, q, h2) = exec_bind-ok (get_process_instance lib pid) _ w1 h1 in
      sym (ap (λ x. x.1) h2)
      ∙ (get_process_instance-state w1 pid q).1
      ∙ (get_execution-state w eid p).1
