-- ===== src/Engine/Starts/Started.antt =====
-- startJob of internal/server/workflow/operations.go: what a job that started left.
use shar.Prelude.{
  ℕ, ◌≤◌, ◌≡◌, sym, ap, subst, ◌∙◌, String, Bool, true, false, Option, List, [], ◌∷◌, ◌++◌, ◌==◌,
}
use shar.Errors.{ok}
use shar.Errors.Exec.{Exec, pure, lift, exec_bind-ok, lift-ok, ◌>>=◌, ◌>>◌}
use shar.Tracking
use shar.Tracking.Stack
use shar.Nats.{Documented, load_obj}
use shar.Model.{Bytes, Element, WorkflowState, job_execute}
use shar.Vars.{Codec, Expr}
use shar.UserTasks.{open_user_task}
use shar.Server.{Libraries, World, Subject, history_key, publish_workflow_state, record_history}
use shar.Server.Published.{remembered, record_history-recorded, publish_workflow_state-Sent}
use shar.Engine.Tasks.{in_user_tasks}
use shar.Engine.Starts.{
  is_none, is_user_task, versioned, create_job, open_each, open_if, publish_job, transformed,
  owned_if, mock_if, ready_if, start_job,
}
use shar.Engine.Starts.Given.{Given, transformed-Given}
use shar.Engine.Starts.Prepared.{
  Mocks, no_service, unspecified, specified, create_job-Stored, mock_if-Mocks, owned_if-Same,
}

-- The job that started, for an element that is not multi-instance.
pub record Started (lib : Libraries) (codec : Codec) (expr : Expr)
    (strings : ℕ → Option (List String)) (w : World lib) (subject : Bool → Subject)
    (job : WorkflowState) (el : Element) (v : Bytes) (job' : WorkflowState) (w' : World lib)
    : Type 0 where
  pub input : WorkflowState
  pub given : Given codec expr el v job input
  pub tid : String
  pub new : (n : ℕ) × (w.next_id ≤ n) × (tid ≡ lib.ksuid n)
  pub result : job' ≡ record input {
    owners = job'.owners;
    groups = job'.groups;
    id = Tracking.push input.id tid;
    unix_time_nano = job'.unix_time_nano;
  }
  pub stored :
      load_obj lib.kv w'.job tid ≡ ok (record job' { unix_time_nano = input.unix_time_nano })
  pub recorded :
      load_obj lib.kv w'.wf_history (history_key job'.process_instance_id tid job_execute)
      ≡ ok (remembered job' job_execute)
  pub mock : Bool
  pub mocks : Mocks lib w el mock
  pub sent : lib.published w'.stream ≡ lib.published w.stream ++ (subject mock, job') ∷ []

module _ (lib : Libraries) where
  module _ (codec : Codec) (expr : Expr) (strings : ℕ → Option (List String)) where
    -- The owners of a service task are not looked up.
    unowned :
        (el : Element) (v : Bytes) (job : WorkflowState) (w : World lib) {job' : WorkflowState}
        {w' : World lib}
        → el.kind ≡ "serviceTask"
        → owned_if lib codec expr strings (el.kind == "userTask") el v job w ≡ (ok job', w')
        → w ≡ w'
    unowned el v job w kind h =
        ap (λ r. r.1)
          (ap (λ k. owned_if lib codec expr strings (k == "userTask") el v job w) (sym kind) ∙ h)

    owned-specs :
        (el : Element) (v : Bytes) (job : WorkflowState) (w : World lib) {job' : WorkflowState}
        {w' : World lib} {mock : Bool}
        → owned_if lib codec expr strings (el.kind == "userTask") el v job w ≡ (ok job', w')
        → Mocks lib w' el mock
        → Mocks lib w el mock
    owned-specs el v job w {job'} {w'} h (no_service f) = no_service f
    owned-specs el v job w {job'} {w'} h (unspecified version spec kind at found b) =
        unspecified version spec kind at
          (ap (λ x. load_obj lib.kv x.wf_task_spec version) (unowned el v job w kind h) ∙ found) b
    owned-specs el v job w {job'} {w'} h (specified version spec behaviour kind at found b) =
        specified version spec behaviour kind at
          (ap (λ x. load_obj lib.kv x.wf_task_spec version) (unowned el v job w kind h) ∙ found) b

    open_each-only :
        (id : String) (owners : List String) (w : World lib) {w' : World lib}
        → open_each lib codec expr strings id owners w ≡ (ok tt, w')
        → w' ≡ record w { wf_user_tasks = w'.wf_user_tasks }
    unfolding open_each
    open_each-only id [] w h =
        let q : w ≡ _ = ap (λ r. r.1) h in
        sym q ∙ ap (λ x. record w { wf_user_tasks = x.wf_user_tasks }) q
    open_each-only id (owner ∷ owners) w {w'} h =
        let first : Exec (World lib) (Unit {0}) =
          λ w. in_user_tasks lib codec expr (open_user_task lib.kv lib.kvs_for owner id) w in
        let (t, w1, p1, h1) =
          exec_bind-ok first (λ t. open_each lib codec expr strings id owners) w h in
        let q : (first w).1 ≡ w1 = ap (λ r. r.1) p1 in
        open_each-only id owners w1 h1
        ∙ ap {A = World lib} (λ x. record x { wf_user_tasks = w'.wf_user_tasks }) (sym q)

    open_if-only :
        (b : Bool) (job : WorkflowState) (w : World lib) {w' : World lib}
        → open_if lib codec expr strings b job w ≡ (ok tt, w')
        → w' ≡ record w { wf_user_tasks = w'.wf_user_tasks }
    open_if-only true job w h = open_each-only (Tracking.id job.id) (job.owners ++ job.groups) w h
    open_if-only false job w h =
        let q : w ≡ _ = ap (λ r. r.1) h in
        sym q ∙ ap (λ x. record w { wf_user_tasks = x.wf_user_tasks }) q

    -- What a job that is published and recorded leaves of the rest.
    ready-Sent :
        (doc : Documented lib.kv) (subject : Subject) (job : WorkflowState) (w : World lib)
        {job' : WorkflowState} {w' : World lib}
        → ready_if lib codec expr strings true subject job w ≡ (ok job', w')
        → (job' ≡ record job { unix_time_nano = w.now })
          × (lib.published w'.stream ≡ lib.published w.stream ++ (subject, job') ∷ [])
          × (load_obj lib.kv w'.wf_history
                (history_key job'.process_instance_id (Tracking.id job'.id) job_execute)
              ≡ ok (remembered job' job_execute))
          × (w'.job ≡ w.job)
    unfolding publish_job
    ready-Sent doc subject job w {job'} {w'} h =
        let send = publish_workflow_state lib subject job in
        let rest : WorkflowState → Exec (World lib) WorkflowState =
          λ j. open_if lib codec expr strings (is_user_task subject) j >> pure j in
        let note : WorkflowState → Exec (World lib) WorkflowState =
          λ j. record_history lib j job_execute >> pure j in
        let (j, w1, p1, h1) = exec_bind-ok (send >>= rest) note w h in
        let (j2, w2, p2, h2) = exec_bind-ok send rest w p1 in
        let (is, out) = publish_workflow_state-Sent lib w subject job p2 in
        let (t3, w3, p3, h3) =
          exec_bind-ok (open_if lib codec expr strings (is_user_task subject) j2) (λ t. pure j2) w2
            h2 in
        let opened = open_if-only (is_user_task subject) j2 w2 p3 in
        let (t4, w4, p4, h4) =
          exec_bind-ok (record_history lib j job_execute) (λ t. pure j) w1 h1 in
        let (recorded, only) = record_history-recorded lib doc w1 j job_execute p4 in
        let j_is : j2 ≡ j = ap (λ r. elim r.0 [ ok x ↦ x | _ ↦ j2 ]) h3 in
        let w1_is : w1 ≡ w3 = sym (ap (λ r. r.1) h3) in
        let job_is : j ≡ job' = ap (λ r. elim r.0 [ ok x ↦ x | _ ↦ j ]) h4 in
        let w_is : w' ≡ w4 = sym (ap (λ r. r.1) h4) in
        let stream : w'.stream ≡ w2.stream =
          ap (λ x. x.stream) (w_is ∙ only) ∙ ap (λ x. x.stream) w1_is ∙ ap (λ x. x.stream) opened in
        (
          sym (j_is ∙ job_is) ∙ is,
          ap lib.published stream
              ∙ out.sent
              ∙ ap (λ x. lib.published w.stream ++ (subject, x) ∷ []) (j_is ∙ job_is),
          subst
              (λ (x : WorkflowState × World lib).
                load_obj lib.kv x.1.wf_history
                  (history_key x.0.process_instance_id (Tracking.id x.0.id) job_execute)
                ≡ ok (remembered x.0 job_execute))
              (λ i. (job_is i, sym w_is i)) recorded,
          ap (λ x. x.job) (w_is ∙ only)
              ∙ ap (λ x. x.job) w1_is
              ∙ ap (λ x. x.job) opened
              ∙ ap (λ x. x.job) out.only_stream,
        )

    -- When startJob succeeds on an element that is not multi-instance, the job has the execute and the version of the element, where it has one, and the variables that the element's transformation of its input gives, except that an event that waits for a message keeps those of the job; only its owners, its groups and the time of its message can differ besides. It is stored under a new identifier, which is pushed on the state's; one message is published, the job itself, on the subject of mocks if the element is a service task whose specification says that it is a mock, and on the other subject if not; and the history holds its start under the same identifier.
    pub start_job-Started :
        (doc : Documented lib.kv) (subject : Bool → Subject) (job : WorkflowState) (el : Element)
        (v : Bytes) (w : World lib) {job' : WorkflowState} {w' : World lib}
        → is_none el.iteration ≡ true
        → start_job lib codec expr strings subject job el v w ≡ (ok job', w')
        → Started lib codec expr strings w subject job el v job' w'
    unfolding start_job create_job
    start_job-Started doc subject job el v w {job'} {w'} single h =
        let ready = λ (b : Bool) (m : Bool) (j : WorkflowState).
          ready_if lib codec expr strings b (subject m) j in
        let make =
          λ (j : WorkflowState) (m : Bool). create_job lib j >>= ready (is_none el.iteration) m in
        let ask_mock = mock_if lib codec expr strings (el.kind == "serviceTask") el in
        let own = owned_if lib codec expr strings (el.kind == "userTask") el v in
        let input =
          transformed lib codec expr strings (el.kind == "messageIntermediateCatchEvent") el v
            (versioned el job) in
        let (job1, w1, p1, h1) =
          exec_bind-ok {S = World lib} (lift input) (λ j. own j >>= λ j. ask_mock >>= make j) w h in
        let (inputs, here) = lift-ok input w p1 in
        let (job2, w2, p2, h2) = exec_bind-ok (own job1) (λ j. ask_mock >>= make j) w1 h1 in
        let (owned, s2) =
          owned_if-Same lib codec expr strings (el.kind == "userTask") el v job1 w1 p2 in
        let (mock, w3, p3, h3) = exec_bind-ok ask_mock (make job2) w2 h2 in
        let (mocks, s3) = mock_if-Mocks lib codec expr strings el w2 p3 in
        let (job3, w4, p4, h4) =
          exec_bind-ok (create_job lib job2) (ready (is_none el.iteration) mock) w3 h3 in
        let (tid, made, kept, s4, tid_is) = create_job-Stored lib doc job2 w3 p4 in
        let (is, out, noted, jobs) =
          ready-Sent doc (subject mock) job3 w4
            (ap (λ b. ready b mock job3 w4) (sym single) ∙ h4) in
        let all : job' ≡ record job1 {
          owners = job2.owners;
          groups = job2.groups;
          id = Tracking.push job1.id tid;
          unix_time_nano = w4.now;
        } =
          is
          ∙ ap {A = WorkflowState} (λ x. record x { unix_time_nano = w4.now }) made
          ∙ ap {A = WorkflowState}
              (λ x. record x { id = Tracking.push x.id tid; unix_time_nano = w4.now }) owned in
        let last : Tracking.id job'.id ≡ tid =
          ap (λ x. Tracking.id x.id) all ∙ (Stack.pop-push job1.id tid).1 in
        record {
          input = job1;
          given = transformed-Given lib codec expr strings el v job job1 inputs;
          tid = tid;
          new = (
            w3.next_id,
            subst (λ x. x.next_id ≤ w3.next_id) here
                (subst (λ x. w1.next_id ≤ x.next_id) (sym s3) s2.1),
            tid_is,
          );
          result =
              all
              ∙ ap
                  (λ x. record job1 {
                    owners = x.owners;
                    groups = x.groups;
                    id = Tracking.push job1.id tid;
                    unix_time_nano = x.unix_time_nano;
                  })
                  (sym all);
          stored =
              ap (λ b. load_obj lib.kv b tid) jobs
              ∙ kept
              ∙ ap ok (
                  made
                  ∙ ap {A = WorkflowState} (λ x. record x { id = Tracking.push x.id tid }) owned
                  ∙ ap {A = WorkflowState} (λ x. record x { unix_time_nano = job1.unix_time_nano })
                      (sym all));
          recorded =
              ap
                (λ x.
                  load_obj lib.kv w'.wf_history
                    (history_key job'.process_instance_id x job_execute))
                (sym last)
              ∙ noted;
          mock = mock;
          mocks = subst (λ x. Mocks lib x el mock) here (owned-specs el v job1 w1 p2 mocks);
          sent =
              out
              ∙ ap (λ x. lib.published x ++ (subject mock, job') ∷ [])
                  (s4 ∙ ap (λ x. x.stream) s3 ∙ s2.0 ∙ ap (λ x. x.stream) here);
        }
