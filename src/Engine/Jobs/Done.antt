-- ===== src/Engine/Jobs/Done.antt =====
-- completeJobProcessor of internal/server/workflow/engine.go, from the start of the activity on.
use shar.Prelude.{ℕ, ◌≡◌, sym, ap, ◌∙◌, String, Option, some, [], ◌∷◌, ◌++◌, ◌==◌, if◌then◌else◌}
use shar.Errors.{ok, err, key_not_found}
use shar.Errors.Exec.{lift, exec_bind-ok, committed-ok, lift-ok}
use shar.Tracking
use shar.Nats.{Documented, load_obj}
use shar.Model.{
  Bytes, Element, WorkflowState, ProcessHistoryEntry, no_state, activity_complete, job_complete,
}
use shar.Vars.{Codec, Expr, output_vars}
use shar.Server.{
  Libraries, World, activity_complete_subject, kvs_for, history_key, complete_activity,
  record_history,
}
use shar.Server.Published.{crossed, remembered, complete_activity-ActivityDone, record_history-at}
use shar.Traversal.Select.{present}
use shar.Traversal.Sent.{present-ok}
use shar.Engine.Jobs.{workflow_state_from, remove_job, delete_job_record, complete_started}

-- The message of a completed activity: the activity's start, the job's place and the new variables.
abbrev pub conclusion : WorkflowState → ProcessHistoryEntry → Element → Bytes → ℕ → WorkflowState
conclusion job start el vars now = record no_state {
  workflow_id = start.workflow_id;
  workflow_name = start.workflow_name;
  execution_id = start.execution_id;
  process_id = start.process_id;
  process_instance_id = start.process_instance_id;
  element_id = el.id;
  element_type = el.kind;
  id = Tracking.pop job.id;
  state = job.state;
  vars = vars;
  error = start.error;
  execute = some "";
  condition = some "";
  gateway_expectations = start.gateway_expectations;
  satisfies_gateway_expectation = start.satisfies_gateway_expectation;
  unix_time_nano = now;
}

-- The job is concluded: its activity completes with the job's result, and the job is gone.
pub record JobDone (lib : Libraries) (codec : Codec) (expr : Expr) (w : World lib)
    (job : WorkflowState) (start : ProcessHistoryEntry) (el : Element) (w' : World lib)
    : Type 0 where
  pub vars : Bytes
  pub merged : output_vars codec expr job.vars start.vars el.output_transform ≡ ok vars
  pub sent :
      lib.published w'.stream
      ≡ lib.published w.stream
        ++ (activity_complete_subject, conclusion job start el vars w.now) ∷ []
  pub recorded :
      (k : String)
      → load_obj lib.kv w'.wf_history k ≡ (
          if history_key job.process_instance_id (Tracking.id job.id) job_complete == k
          then ok (remembered job job_complete)
          else if history_key start.process_instance_id
                (Tracking.id (Tracking.pop job.id))
                activity_complete
              == k
          then ok (remembered (conclusion job start el vars w.now) activity_complete)
          else load_obj lib.kv w.wf_history k)
  pub removed :
      (k : String)
      → load_obj lib.kv w'.job k
        ≡ (if Tracking.id job.id == k then err key_not_found else load_obj lib.kv w.job k)
  pub only : w' ≡ record w { stream = w'.stream; wf_history = w'.wf_history; job = w'.job }

module _ (lib : Libraries) (doc : Documented lib.kv) (codec : Codec) (expr : Expr) where
  pub complete_started-JobDone :
      (w : World lib) (job : WorkflowState) (element : Option Element) (start : ProcessHistoryEntry)
      {w' : World lib}
      → complete_started lib codec expr job element start w ≡ (ok tt, w')
      → (el : Element) × (element ≡ some el) × JobDone lib codec expr w job start el w'
  unfolding complete_started delete_job_record remove_job workflow_state_from
  complete_started-JobDone w job element start {w'} h =
      let (el, w1, p1, h1) = exec_bind-ok {S = World lib} (lift (present element)) _ w h in
      let (at, s1) = lift-ok (present element) w p1 in
      let (vars, w2, p2, h2) =
        exec_bind-ok {S = World lib}
          (lift (output_vars codec expr job.vars start.vars el.output_transform)) _ w1 h1 in
      let (out, s2) =
        lift-ok (output_vars codec expr job.vars start.vars el.output_transform) w1 p2 in
      let state = record (workflow_state_from start) {
        vars = vars;
        id = Tracking.pop job.id;
        state = job.state;
        element_id = el.id;
        element_type = el.kind;
      } in
      let (state', w3, p3, h3) = exec_bind-ok (complete_activity lib state) _ w2 h2 in
      let (f3, done) = complete_activity-ActivityDone lib doc w2 state p3 in
      let (t4, w4, p4, h4) = exec_bind-ok (record_history lib job job_complete) _ w3 h3 in
      let (stored, o4) = record_history-at lib doc w3 job job_complete p4 in
      let (t5, w5, p5, h5) =
        exec_bind-ok (kvs_for lib) (λ _. remove_job lib (Tracking.id job.id)) w4 h4 in
      let s5 = (lift-ok lib.kvs_for w4 p5).1 in
      let (b, d, e6, f6) =
        committed-ok w5 (λ b. record w5 { job = b }) (λ b. tt)
          (lib.kv.delete w5.job (Tracking.id job.id)) h5 in
      let start_is : w2 ≡ w = s2 ∙ s1 in
      let job_key = history_key job.process_instance_id (Tracking.id job.id) job_complete in
      let state_is : state' ≡ conclusion job start el vars w.now =
        f3 ∙ ap (λ x. crossed state x.now) start_is in
      let all : w' ≡ record w { stream = w3.stream; wf_history = w4.wf_history; job = b } =
        e6
        ∙ ap {A = World lib} (λ x. record x { job = b }) s5
        ∙ ap {A = World lib} (λ x. record x { job = b }) o4
        ∙ ap {A = World lib} (λ x. record x { wf_history = w4.wf_history; job = b }) done.only
        ∙ ap {A = World lib}
            (λ x. record x { stream = w3.stream; wf_history = w4.wf_history; job = b }) start_is in
      (
        el,
        present-ok element at,
        record {
          vars = vars;
          merged = out;
          sent =
              ap (λ x. lib.published x.stream) all
              ∙ done.sent
              ∙ ap (λ x. lib.published x.stream ++ (activity_complete_subject, state') ∷ [])
                  start_is
              ∙ ap (λ x. lib.published w.stream ++ (activity_complete_subject, x) ∷ []) state_is;
          recorded = λ k.
              ap (λ x. load_obj lib.kv x.wf_history k)
                (e6 ∙ ap {A = World lib} (λ x. record x { job = b }) s5)
              ∙ stored k
              ∙ ap (λ r. if job_key == k then ok (remembered job job_complete) else r)
                  (done.recorded k
                    ∙ ap
                        (λ x.
                          if history_key x.process_instance_id (Tracking.id x.id) activity_complete
                            == k
                          then ok (remembered x activity_complete)
                          else load_obj lib.kv w2.wf_history k)
                        state_is
                    ∙ ap
                        (λ x.
                          if history_key start.process_instance_id
                              (Tracking.id (Tracking.pop job.id)) activity_complete
                            == k
                          then ok
                              (remembered (conclusion job start el vars w.now) activity_complete)
                          else load_obj lib.kv x.wf_history k)
                        start_is);
          removed = λ k.
              ap (λ x. load_obj lib.kv x.job k) all
              ∙ doc.load-delete w5.job b (Tracking.id job.id) k d
              ∙ ap
                  (λ x.
                    if Tracking.id job.id == k then err key_not_found else load_obj lib.kv x.job k)
                  (s5
                    ∙ o4
                    ∙ ap {A = World lib} (λ x. record x { wf_history = w4.wf_history })
                        (done.only
                          ∙ ap {A = World lib}
                              (λ x. record x { stream = w3.stream; wf_history = w3.wf_history })
                              start_is));
          only =
              all
              ∙ ap (λ x. record w { stream = x.stream; wf_history = x.wf_history; job = x.job })
                  (sym all);
        },
      )
