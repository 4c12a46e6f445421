-- ===== src/Instances/Destroyed.antt =====
-- destroyProcessInstance of internal/server/workflow/operations.go: what a call that succeeds leaves.
use shar.Prelude.{
  ◌≡◌, refl, sym, ap, ◌∙◌, inl, inr, String, Bool, true, false, [], ◌++◌, ◌==◌, arith,
  if◌then◌else◌,
}
use shar.Errors.{Outcome, ok, err, panic, key_not_found}
use shar.Errors.Exec.{Exec, raise, query, handle, exec_bind-ok, committed-ok, lift-ok, ◌>>=◌}
use shar.Nats.{Documented, load_obj, update_obj}
use shar.Nats.Alone.{Updated, update_obj-Updated}
use shar.Model.{Execution, WorkflowState, no_execution}
use shar.Server.{Libraries, World, kvs_for}
use shar.UserTasks.{remove}
use shar.Instances.{
  is_empty, drop_instance, update_execution, remove_execution, when, after_update, kept_object,
  destroy_process_instance,
}
use shar.Instances.Linked.{ok-injective}
use shar.Instances.Unread.{kept_object-found}
use shar.Instances.Ending.{endings, left_execution, finish, finish-parts, when-parts}

-- What is left of execution `e` and of the stores when a process instance was destroyed.
pub record Destroyed (lib : Libraries) (w : World lib) (state : WorkflowState) (pid eid : String)
    (e : Execution) (w' : World lib) : Type 0 where
  pub instances :
      (j : String)
      → load_obj lib.kv w'.wf_process_instance j
        ≡ (if pid == j then err key_not_found else load_obj lib.kv w.wf_process_instance j)
  pub executions :
      (j : String)
      → load_obj lib.kv w'.wf_execution j ≡ (
          if eid == j
          then left_execution (is_empty (remove e.process_instance_id pid)) (drop_instance pid e)
          else load_obj lib.kv w.wf_execution j)
  pub sent :
      lib.published w'.stream
      ≡ lib.published w.stream
        ++ endings
            (is_empty (remove e.process_instance_id pid))
            (record state { unix_time_nano = w.now })
  pub only : w' ≡ record w {
    wf_execution = w'.wf_execution;
    wf_process_instance = w'.wf_process_instance;
    stream = w'.stream;
  }

itself :
    {V : Type 0} (c : Bool) (a b z : Outcome V)
    → z ≡ (if c then a else b)
    → z ≡ (if c then a else z)
itself true a b z h = h
itself false a b z h = refl

otherwise :
    {V : Type 0} (c : Bool) (p a b z : Outcome V)
    → z ≡ (if c then a else b)
    → (if c then p else z) ≡ (if c then p else b)
otherwise true p a b z h = refl
otherwise false p a b z h = h

module _ (lib : Libraries) where
  module _ (doc : Documented lib.kv) (state : WorkflowState) (pid eid : String) where
    -- A process instance that is destroyed without an error, off an execution that is stored, is gone from its bucket. If it was the last that the execution listed, the execution is gone too and the end of the process and that of the execution are published, in this order, with the time of the call; if others are listed, the execution is stored without it and only the end of the process is published. Every other process instance and execution is as it was, and so is the rest of the state.
    pub destroy_process_instance-Destroyed :
        (w : World lib) (e : Execution) {s : WorkflowState} {w' : World lib}
        → load_obj lib.kv w.wf_execution eid ≡ ok e
        → destroy_process_instance lib state pid eid w ≡ (ok s, w')
        → Destroyed lib w state pid eid e w'
    unfolding destroy_process_instance update_execution after_update finish
    destroy_process_instance-Destroyed w e {s} {w'} at h =
        let fn = drop_instance pid in
        let object = λ (x : World lib). kept_object lib eid no_execution fn x in
        let follow : Execution → Exec (World lib) WorkflowState = λ x.
          handle (update_execution lib eid no_execution fn)
            (after_update lib (is_empty x.process_instance_id) state pid eid) in
        let (t, w1, k, h1) =
          exec_bind-ok (kvs_for lib) (λ t. query (λ x. ok (object x)) >>= follow) w h in
        let here : w1 ≡ w = (lift-ok lib.kvs_for w k).1 in
        let (x, w2, q, h2) = exec_bind-ok (query (λ x. ok (object x))) follow w1 h1 in
        let here' : w2 ≡ w = sym (ap (λ x. x.1) q) ∙ here in
        let seen : x ≡ fn e =
          ok-injective (sym (ap (λ x. x.0) q) ∙ ap (λ x. ok (object x)) here)
          ∙ kept_object-found lib pid eid w at in
        updated (update_execution lib eid no_execution fn w) refl
          (ap (λ y. follow y w) (sym seen) ∙ ap (follow x) (sym here') ∙ h2)
      where
        last : Bool
        last = is_empty (remove e.process_instance_id pid)

        updated :
            (r : Outcome (Unit {0}) × World lib)
            → update_execution lib eid no_execution (drop_instance pid) w ≡ r
            → after_update lib last state pid eid r.0 r.1 ≡ (ok s, w')
            → Destroyed lib w state pid eid e w'
        updated (ok t, w1) u g =
            let (r, up_ok, e1, f1) =
              committed-ok _ (λ r. record w { wf_execution = r.0 }) (λ r. tt)
                (update_obj lib.kv w.wf_execution eid no_execution (λ x. ok (drop_instance pid x))
                  [])
                u in
            let up : Updated lib.kv w.wf_execution eid no_execution (λ x. ok (drop_instance pid x))
                r.0 r.1 =
              update_obj-Updated lib.kv doc eid no_execution (λ x. ok (drop_instance pid x))
                w.wf_execution r.0 r.1 up_ok in
            let was : up.value ≡ e = elim up.started [
              | inl stored ↦ ok-injective (sym stored ∙ at)
              | inr (gone, d) ↦ absurd (ground (arith, gone, at))
            ] in
            let is : r.1 ≡ drop_instance pid e =
              sym (ok-injective up.applied) ∙ ap (drop_instance pid) was in
            let (t2, w2, p, g1) =
              exec_bind-ok (when lib last (remove_execution lib eid))
                (λ _. finish lib doc state pid eid last) w1 g in
            let (x, e2, left) = when-parts lib doc state pid eid last w1 p in
            let (instances, sent, only) = finish-parts lib doc state pid eid w2 last g1 in
            let w2_is : w2 ≡ record w { wf_execution = x } =
              e2 ∙ ap {A = World lib} (λ y. record y { wf_execution = x }) e1 in
            let all : w' ≡ record w {
              wf_execution = x;
              wf_process_instance = w'.wf_process_instance;
              stream = w'.stream;
            } =
              only
              ∙ ap {A = World lib}
                  (λ y. record y {
                    wf_process_instance = w'.wf_process_instance;
                    stream = w'.stream;
                  })
                  w2_is in
            record {
              instances = λ j.
                  instances j
                  ∙ ap
                      (λ y.
                        if pid == j
                        then err key_not_found
                        else load_obj lib.kv y.wf_process_instance j)
                      w2_is;
              executions = λ j.
                  let wr : load_obj lib.kv w1.wf_execution j ≡ (
                      if eid == j
                      then ok (drop_instance pid e)
                      else load_obj lib.kv w.wf_execution j) =
                    ap (λ y. load_obj lib.kv y.wf_execution j) e1
                    ∙ up.written j
                    ∙ ap (λ y. if eid == j then ok y else load_obj lib.kv w.wf_execution j) is in
                  ap (λ y. load_obj lib.kv y.wf_execution j) all
                  ∙ left j (drop_instance pid e) (
                      itself (eid == j) (ok (drop_instance pid e))
                        (load_obj lib.kv w.wf_execution j) (load_obj lib.kv w1.wf_execution j) wr)
                  ∙ otherwise (eid == j) (left_execution last (drop_instance pid e))
                      (ok (drop_instance pid e)) (load_obj lib.kv w.wf_execution j)
                      (load_obj lib.kv w1.wf_execution j) wr;
              sent =
                  sent
                  ∙ ap
                      (λ y.
                        lib.published y.stream
                        ++ endings last (record state { unix_time_nano = y.now }))
                      w2_is;
              only =
                  all
                  ∙ ap
                      (λ y. record w {
                        wf_execution = y.wf_execution;
                        wf_process_instance = w'.wf_process_instance;
                        stream = w'.stream;
                      })
                      (sym all);
            }
        updated (err x, w1) u g =
            let (t2, w2, p, g1) =
              exec_bind-ok (when lib last (remove_execution lib eid)) (λ _. raise x) w1 g in
            absurd (ground arith)
        updated (panic, w1) u g = absurd (ground arith)
