-- ===== src/Instances/Made.antt =====
-- createProcessInstance of internal/server/workflow/operations.go: the instance that it makes.
use shar.Prelude.{
  subst, inl, inr, ◌==◌, suc, ◌≡◌, sym, ap, ◌∙◌, String, [], eq_refl, some, if◌then◌else◌,
}
use shar.Nats.Alone.{Updated, update_obj-Updated}
use shar.Instances.Linked.{ok-injective}
use shar.Errors.{execution_not_found, ok}
use shar.Errors.Exec.{pure, committed-ok, exec_bind-ok, lift-ok, ◌>>=◌, ◌>>◌}
use shar.Nats.{Documented, load_obj, save_obj, update_obj}
use shar.Model.{no_process_instance, Bytes, Execution, ProcessInstance}
use shar.Server.{Libraries, World, kvs_for, get_execution}
use shar.Server.Reads.{get_execution-state, not_found-ok}
use shar.Traversal.Send.{fresh_id}
use shar.Instances.{create_process_instance, save_process_instance, update_execution, add_instance}

-- The stored execution lists one more process instance, and the others are as they were.
pub record Joined (lib : Libraries) (w : World lib) (eid pid : String) (w' : World lib)
    : Type 0 where
  pub e : Execution
  pub at : load_obj lib.kv w.wf_execution eid ≡ ok e
  pub after :
      (j : String)
      → load_obj lib.kv w'.wf_execution j
        ≡ (if eid == j then ok (add_instance pid e) else load_obj lib.kv w.wf_execution j)

module _ (lib : Libraries) (doc : Documented lib.kv) where
  listed :
      (eid pid : String) (e : Execution) (w w3 w' : World lib)
      {r : lib.kv.Bucket Execution × Execution}
      → load_obj lib.kv w.wf_execution eid ≡ ok e
      → w3.wf_execution ≡ w.wf_execution
      → update_obj lib.kv w3.wf_execution eid e (λ x. ok (add_instance pid x)) [] ≡ ok r
      → w'.wf_execution ≡ r.0
      → Joined lib w eid pid w'
  listed eid pid e w w3 w' {r} found kept up end =
      let add = λ (x : Execution). ok (add_instance pid x) in
      let upd : Updated lib.kv w3.wf_execution eid e add r.0 r.1 =
        update_obj-Updated lib.kv doc eid e add w3.wf_execution r.0 r.1 up in
      let was : upd.value ≡ e = elim upd.started [
        | inl at ↦ ok-injective (sym at ∙ ap (λ x. load_obj lib.kv x eid) kept ∙ found)
        | inr (missing, d) ↦ d
      ] in
      let is : r.1 ≡ add_instance pid e =
        sym (ok-injective upd.applied) ∙ ap (add_instance pid) was in
      record {
        e = e;
        at = found;
        after = λ j.
            ap (λ x. load_obj lib.kv x j) end
            ∙ upd.written j
            ∙ ap (λ x. if eid == j then ok x else load_obj lib.kv w3.wf_execution j) is
            ∙ ap (λ x. if eid == j then ok (add_instance pid e) else load_obj lib.kv x j) kept;
      }

module _ (lib : Libraries) (doc : Documented lib.kv)
    (process_id workflow_name wf_id execution_id : String) where
  pub create_process_instance-Stored :
      (parent_pi parent_el : String) (headers : Bytes) (w : World lib) {pi : ProcessInstance}
      {w' : World lib}
      → create_process_instance lib execution_id parent_pi parent_el process_id workflow_name wf_id
          headers w
        ≡ (ok pi, w')
      → (pi.process_instance_id ≡ lib.ksuid w.next_id)
        × ((pi.process_id ≡ process_id) × (pi.execution_id ≡ execution_id))
        × (load_obj lib.kv w'.wf_process_instance pi.process_instance_id ≡ ok pi)
        × (w' ≡ record w {
          next_id = suc w.next_id;
          wf_process_instance = w'.wf_process_instance;
          wf_execution = w'.wf_execution;
        })
        × Joined lib w execution_id pi.process_instance_id w'
  unfolding create_process_instance fresh_id save_process_instance save_obj update_execution
  create_process_instance-Stored parent_pi parent_el headers w {pi} {w'} h =
      let new : ProcessInstance = record no_process_instance {
        process_instance_id = lib.ksuid w.next_id;
        process_id = process_id;
        parent_process_id = some parent_pi;
        parent_element_id = some parent_el;
        execution_id = execution_id;
        workflow_name = workflow_name;
        workflow_id = wf_id;
        headers = headers;
      } in
      let pid = lib.ksuid w.next_id in
      let w0 : World lib = record w { next_id = suc w.next_id } in
      let list = λ (e : Execution). update_execution lib execution_id e (add_instance pid) in
      let save = save_process_instance lib pid new in
      let (t, w1, p1, h1) =
        exec_bind-ok (kvs_for lib)
          (λ t. get_execution lib execution_id >>= λ e. save >> (list e >> pure new)) w0 h in
      let (e, w2, p2, h2) =
        exec_bind-ok (get_execution lib execution_id) (λ e. save >> (list e >> pure new)) w1 h1 in
      let (t3, w3, p3, h3) = exec_bind-ok save (λ t. list e >> pure new) w2 h2 in
      let (t4, w4, p4, h4) = exec_bind-ok (list e) (λ t. pure new) w3 h3 in
      let (b, put, e3, f3) =
        committed-ok w2 (λ b. record w2 { wf_process_instance = b }) (λ b. tt)
          (lib.kv.put w2.wf_process_instance pid new) p3 in
      let (r, up, e4, f4) =
        committed-ok _ (λ r. record w3 { wf_execution = r.0 }) (λ r. tt)
          (update_obj lib.kv w3.wf_execution execution_id e (λ x. ok (add_instance pid x)) []) p4 in
      let same : new ≡ pi = ap (λ r. elim r.0 [ ok x ↦ x | _ ↦ new ]) h4 in
      let end : w' ≡ w4 = sym (ap (λ r. r.1) h4) in
      let start : w2 ≡ w0 =
        (get_execution-state lib w1 execution_id p2).1 ∙ (lift-ok lib.kvs_for w0 p1).1 in
      let all : w' ≡ record w0 { wf_process_instance = b; wf_execution = r.0 } =
        end
        ∙ e4
        ∙ ap {A = World lib} (λ x. record x { wf_execution = r.0 }) e3
        ∙ ap {A = World lib} (λ x. record x { wf_process_instance = b; wf_execution = r.0 })
            start in
      let found : load_obj lib.kv w.wf_execution execution_id ≡ ok e =
        ap (λ x. load_obj lib.kv x.wf_execution execution_id) (sym ((lift-ok lib.kvs_for w0 p1).1))
        ∙ not_found-ok execution_not_found (load_obj lib.kv w1.wf_execution execution_id)
            (get_execution-state lib w1 execution_id p2).0 in
      let kept : w3.wf_execution ≡ w.wf_execution =
        ap (λ x. x.wf_execution) e3 ∙ ap (λ x. x.wf_execution) start in
      let joined : Joined lib w execution_id pi.process_instance_id w' =
        subst (λ x. Joined lib w execution_id x.process_instance_id w') same
          (listed lib doc execution_id pid e w w3 w' found kept up
            (ap (λ x. x.wf_execution) all)) in
      (
        ap (λ x. x.process_instance_id) (sym same),
        (ap (λ x. x.process_id) (sym same), ap (λ x. x.execution_id) (sym same)),
        ap (λ x. load_obj lib.kv x.wf_process_instance pi.process_instance_id) all
            ∙ ap (λ x. load_obj lib.kv b x.process_instance_id) (sym same)
            ∙ doc.load-put w2.wf_process_instance b pid pid new put
            ∙ ap (λ c. if c then ok new else load_obj lib.kv w2.wf_process_instance pid)
                (eq_refl pid)
            ∙ ap ok same,
        all
            ∙ ap
                (λ x. record w0 {
                  wf_process_instance = x.wf_process_instance;
                  wf_execution = x.wf_execution;
                })
                (sym all),
        joined,
      )
