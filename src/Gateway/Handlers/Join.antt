-- ===== src/Gateway/Handlers/Join.antt =====
-- gatewayExecProcessor joins the branches: a branch that arrives is counted, the gateway waits while
-- routes are missing, and completes with the merged variables when all of them are met.
use shar.Prelude.{
  ◌≡◌, ◌≤◌, ◌<◌, refl, sym, ap, subst, ◌∙◌, ◌⊎◌, inl, inr, String, Bool, Option, none, some, List,
  [], ◌∷◌, ◌++◌, eq_refl, arith, length, leb, leb→le, Bool-cases,
}
use shar.Prelude.Maps.{lookup}
use shar.Errors.{ok, err, key_not_found, make_fatal}
use shar.Errors.Exec.{lift, exec_bind-ok, committed-ok, lift-ok}
use shar.Nats.{Turn, Documented, load_obj, update_obj}
use shar.Nats.Opened.{update_obj-Committed}
use shar.Model.{
  Bytes, Gateway, GatewayType, exclusive, inclusive, parallel, WorkflowState, ProcessInstance,
  no_process_instance,
}
use shar.Vars.{Codec}
use shar.Server.{
  Libraries, World, gateway_task_await, activity_complete_subject, kvs_for, publish_workflow_state,
  complete_activity,
}
use shar.Server.Published.{
  make_fatal-ok, crossed, Sent, publish_workflow_state-Sent, complete_activity-ActivityDone,
}
use shar.Gateway.Merge.{merge_gateway_vars}
use shar.Gateway.Handlers.{
  close_gateway, update_process_instance, delete_gateway, complete_gateway, merge_and_complete,
  await_gateway, count_routes, decide, expected_paths,
}

expected_paths-ok :
    (o : Option (List String)) {paths : List String} → expected_paths o ≡ ok paths → o ≡ some paths
expected_paths-ok none h = absurd (ground arith)
expected_paths-ok (some p) h = ground arith

module _ (lib : Libraries) (codec : Codec) where
  -- The gateway waits: routes are missing, and only the message that says so goes out.
  pub record Waits (w : World lib) (iid : String) (gw : Gateway) (job : WorkflowState)
      (w' : World lib) : Type 0 where
    pub expected : List String
    pub expects : lookup iid job.gateway_expectations ≡ some expected
    pub missing : length gw.met_expectations < length expected
    pub sent : Sent lib w gateway_task_await (record job { unix_time_nano = w.now }) w'

  abbrev pub AllMet : String → Gateway → WorkflowState → Type 0
  AllMet iid gw job =
      (expected : List String) × (lookup iid job.gateway_expectations ≡ some expected)
      × (length expected ≤ length gw.met_expectations)

  -- The gateway completes: its process instance has it closed, its activity is reported complete with
  -- the merged variables, and its wait is removed.
  pub record Completes (w : World lib) (kind : GatewayType) (iid : String) (gw : Gateway)
      (job : WorkflowState) (w' : World lib) : Type 0 where
    pub reason : (kind ≡ exclusive) ⊎ AllMet iid gw job
    pub merged : Bytes
    pub merges : merge_gateway_vars codec gw.vars ≡ ok merged
    pub sent :
        lib.published w'.stream
        ≡ lib.published w.stream
          ++ (activity_complete_subject, crossed (record job { vars = merged }) w.now) ∷ []
    pub before : ProcessInstance
    pub closed :
        load_obj lib.kv w'.wf_process_instance job.process_instance_id
        ≡ ok (close_gateway iid before)
    pub removed : load_obj lib.kv w'.wf_gateway iid ≡ err key_not_found

module _ (lib : Libraries) (doc : Documented lib.kv) (codec : Codec)
    (others : List (Turn lib.kv Gateway)) where
  update_process_instance-load :
      (w : World lib) (id : String) (fn : ProcessInstance → ProcessInstance) {w' : World lib}
      → update_process_instance lib codec others id fn w ≡ (ok tt, w')
      → (before : ProcessInstance) × (b : lib.kv.Bucket ProcessInstance) × (load_obj lib.kv b id
          ≡ ok (fn before))
        × (w' ≡ record w { wf_process_instance = b })
  unfolding update_process_instance
  update_process_instance-load w id fn {w'} h =
      let (r, p, e, f) =
        committed-ok _ (λ r. record w { wf_process_instance = r.0 }) (λ r. tt)
          (update_obj lib.kv w.wf_process_instance id no_process_instance (λ x. ok (fn x)) []) h in
      let (b0, q, c) =
        update_obj-Committed lib.kv doc w.wf_process_instance id no_process_instance fn []
          {b' = r.0} {u = r.1} tt p in
      let (b, u) = r in (c.value, r.0, c.written id ∙ rw (eq_refl id) (sym c.applied), e)

  complete_gateway-Completes :
      (w : World lib) (iid : String) (job : WorkflowState) {w' : World lib}
      → complete_gateway lib codec others iid job w ≡ (ok tt, w')
      → (lib.published w'.stream
          ≡ lib.published w.stream ++ (activity_complete_subject, crossed job w.now) ∷ [])
        × ((before : ProcessInstance) × (load_obj lib.kv w'.wf_process_instance
                job.process_instance_id
              ≡ ok (close_gateway iid before)))
        × (load_obj lib.kv w'.wf_gateway iid ≡ err key_not_found)
  unfolding complete_gateway delete_gateway
  complete_gateway-Completes w iid job {w'} h =
      let pid = job.process_instance_id in
      let (t0, w0, k, h0) = exec_bind-ok (kvs_for lib) _ w h in
      let e0 : w0 ≡ w = (lift-ok lib.kvs_for w k).1 in
      let (t1, w1, p, h1) =
        exec_bind-ok (update_process_instance lib codec others pid (close_gateway iid)) _ w0 h0 in
      let (before, b, at, e1) = update_process_instance-load w0 pid (close_gateway iid) p in
      let (s2, w2, q, h2) = exec_bind-ok (complete_activity lib job) _ w1 h1 in
      let (f2, done) = complete_activity-ActivityDone lib doc w1 job q in
      let (g, r, e3, f3) =
        committed-ok w2 (λ b. record w2 { wf_gateway = b }) (λ b. tt)
          (lib.kv.delete w2.wf_gateway iid) h2 in
      let start : w1 ≡ record w { wf_process_instance = b } =
        e1 ∙ ap {A = World lib} (λ x. record x { wf_process_instance = b }) e0 in
      let bucket : w'.wf_process_instance ≡ b =
        ap (λ x. x.wf_process_instance) e3
        ∙ ap (λ x. x.wf_process_instance) done.only
        ∙ ap (λ x. x.wf_process_instance) start in
      (
        ap (λ x. lib.published x.stream) e3
            ∙ done.sent
            ∙ ap (λ x. lib.published w1.stream ++ (activity_complete_subject, x) ∷ []) f2
            ∙ ap
                (λ x. lib.published x.stream ++ (activity_complete_subject, crossed job x.now) ∷ [])
                start,
        (before, ap (λ x. load_obj lib.kv x pid) bucket ∙ at),
        ap (λ x. load_obj lib.kv x.wf_gateway iid) e3
            ∙ doc.load-delete w2.wf_gateway g iid iid r
            ∙ rw (eq_refl iid),
      )

  merge_and_complete-Completes :
      (w : World lib) (kind : GatewayType) (iid : String) (gw : Gateway) (job : WorkflowState)
      {done : Bool} {w' : World lib}
      → (kind ≡ exclusive) ⊎ AllMet lib codec iid gw job
      → merge_and_complete lib codec others iid gw job w ≡ (ok done, w')
      → Completes lib codec w kind iid gw job w'
  unfolding merge_and_complete
  merge_and_complete-Completes w kind iid gw job {done} {w'} why h =
      let (nv, w1, p, h1) =
        exec_bind-ok {S = World lib} (lift (make_fatal (merge_gateway_vars codec gw.vars))) _ w h in
      let (m, e1) = lift-ok (make_fatal (merge_gateway_vars codec gw.vars)) w p in
      let (t, w2, q, h2) =
        exec_bind-ok (complete_gateway lib codec others iid (record job { vars = nv })) _ w1 h1 in
      let e2 : w2 ≡ w' = ap (λ x. x.1) h2 in
      let q' : complete_gateway lib codec others iid (record job { vars = nv }) w ≡ (ok tt, w') =
        ap (complete_gateway lib codec others iid (record job { vars = nv })) (sym e1)
        ∙ q
        ∙ ap (λ x. (ok tt, x)) e2 in
      let (out, (before, closed), gone) =
        complete_gateway-Completes w iid (record job { vars = nv }) q' in
      record {
        reason = why;
        merged = nv;
        merges = make_fatal-ok (merge_gateway_vars codec gw.vars) m;
        sent = out;
        before = before;
        closed = closed;
        removed = gone;
      }

  await_gateway-Sent :
      (w : World lib) (job : WorkflowState) {done : Bool} {w' : World lib}
      → await_gateway lib codec others job w ≡ (ok done, w')
      → Sent lib w gateway_task_await (record job { unix_time_nano = w.now }) w'
  unfolding await_gateway
  await_gateway-Sent w job {done} {w'} h =
      let (s, w1, p, h1) = exec_bind-ok (publish_workflow_state lib gateway_task_await job) _ w h in
      let (f, out) = publish_workflow_state-Sent lib w gateway_task_await job p in
      let e : w1 ≡ w' = ap (λ x. x.1) h1 in
      subst (λ x. Sent lib w gateway_task_await (record job { unix_time_nano = w.now }) x) e
        (subst (λ x. Sent lib w gateway_task_await x w1) f out)

  abbrev pub Fate : World lib → GatewayType → String → Gateway → WorkflowState → World lib → Type 0
  Fate w kind iid gw job w' =
      Waits lib codec w iid gw job w' ⊎ Completes lib codec w kind iid gw job w'

  count_routes-Fate :
      (w : World lib) (kind : GatewayType) (iid : String) (gw : Gateway) (job : WorkflowState)
      {done : Bool} {w' : World lib}
      → count_routes lib codec others iid gw job w ≡ (ok done, w')
      → Fate w kind iid gw job w'
  unfolding count_routes
  count_routes-Fate w kind iid gw job {done} {w'} h =
      let found = lookup iid job.gateway_expectations in
      let (paths, w1, p, h1) = exec_bind-ok {S = World lib} (lift (expected_paths found)) _ w h in
      let (m, e) = lift-ok (expected_paths found) w p in
      let expects = expected_paths-ok found m in
      elim (Bool-cases (leb (length paths) (length gw.met_expectations))) [
        | inl enough ↦
            let q : merge_and_complete lib codec others iid gw job w ≡ (ok done, w') =
              ap (merge_and_complete lib codec others iid gw job) (sym e) ∙ (rw enough at h1) in
            inr (
              merge_and_complete-Completes w kind iid gw job
                (inr (paths, expects, leb→le _ _ enough)) q)
        | inr short ↦
            let q : await_gateway lib codec others job w ≡ (ok done, w') =
              ap (await_gateway lib codec others job) (sym e) ∙ (rw short at h1) in
            inl (record {
              expected = paths;
              expects = expects;
              missing = ground arith;
              sent = await_gateway-Sent w job q;
            })
      ]

  pub decide-Fate :
      (w : World lib) (kind : GatewayType) (iid : String) (gw : Gateway) (job : WorkflowState)
      {done : Bool} {w' : World lib}
      → decide lib codec others kind iid gw job w ≡ (ok done, w')
      → Fate w kind iid gw job w'
  unfolding decide
  decide-Fate w exclusive iid gw job h =
      inr (merge_and_complete-Completes w exclusive iid gw job (inl refl) h)
  decide-Fate w inclusive iid gw job h = count_routes-Fate w inclusive iid gw job h
  decide-Fate w parallel iid gw job h = count_routes-Fate w parallel iid gw job h
