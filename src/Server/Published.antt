-- ===== src/Server/Published.antt =====
-- What the shared operations of the server change: the stream, the history, and nothing else.
use shar.Prelude.{
  ℕ, String, false, some, ◌≡◌, sym, ap, subst, ◌∙◌, [], ◌∷◌, ◌++◌, ◌==◌, if◌then◌else◌, eq_refl,
  arith,
}
use shar.Errors.{Outcome, ok, err, panic, make_fatal}
use mathlib.Core.List.{append_assoc}
use shar.Errors.Exec.{pure, ◌>>=◌, exec_bind-ok, committed-ok, lift-ok}
use shar.Tracking
use shar.Nats.{Documented, load_obj, save_obj}
use shar.Model.{
  WorkflowState, ProcessHistoryType, activity_complete, drop_state_params, ProcessHistoryEntry,
}
use shar.Server.{
  Libraries, World, Subject, activity_complete_subject, kvs_for, publish_workflow_state,
  record_history, save_history, history_key, history_entry, complete_activity,
}

pub make_fatal-ok : {A : Type 0} (r : Outcome A) {a : A} → make_fatal r ≡ ok a → r ≡ ok a
make_fatal-ok (ok x) h = h
make_fatal-ok (err e) h = absurd (ground arith)
make_fatal-ok panic h = absurd (ground arith)

-- One message went out, and only the stream changed.
pub record Sent (lib : Libraries) (w : World lib) (subject : Subject) (state : WorkflowState)
    (w' : World lib) : Type 0 where
  pub sent : lib.published w'.stream ≡ lib.published w.stream ++ (subject, state) ∷ []
  pub only_stream : w' ≡ record w { stream = w'.stream }

-- The state as it crosses to the next element: what belongs to its own task is empty.
abbrev pub crossed : WorkflowState → ℕ → WorkflowState
crossed s now = record s {
  execute = some "";
  execute_version = "";
  condition = some "";
  owners = [];
  groups = [];
  unix_time_nano = now;
}

-- What the history says of a state at an event of its life.
abbrev pub remembered : WorkflowState → ProcessHistoryType → ProcessHistoryEntry
remembered s kind = record {
  item_type = kind;
  id = s.id;
  workflow_id = s.workflow_id;
  workflow_name = s.workflow_name;
  execution_id = s.execution_id;
  process_id = s.process_id;
  process_instance_id = s.process_instance_id;
  element_id = s.element_id;
  element_name = s.element_name;
  execute = s.execute;
  vars = s.vars;
  error = s.error;
  cancellation_state = s.state;
  unix_time_nano = s.unix_time_nano;
  compensating = false;
  previous_activity = s.previous_activity;
  previous_element = s.previous_element;
  gateway_expectations = s.gateway_expectations;
  satisfies_gateway_expectation = s.satisfies_gateway_expectation;
}

-- The activity is reported complete and remembered so, and nothing else changed.
pub record ActivityDone (lib : Libraries) (w : World lib) (state : WorkflowState) (w' : World lib)
    : Type 0 where
  pub sent :
      lib.published w'.stream ≡ lib.published w.stream ++ (activity_complete_subject, state) ∷ []
  pub recorded :
      (k : String)
      → load_obj lib.kv w'.wf_history k ≡ (
          if history_key state.process_instance_id (Tracking.id state.id) activity_complete == k
          then ok (remembered state activity_complete)
          else load_obj lib.kv w.wf_history k)
  pub only : w' ≡ record w { stream = w'.stream; wf_history = w'.wf_history }

module _ (lib : Libraries) where
  frame :
      (w w1 w' : World lib) {s : lib.Stream} {h : lib.kv.Bucket ProcessHistoryEntry}
      → w1 ≡ record w { stream = s }
      → w' ≡ record w1 { wf_history = h }
      → w' ≡ record w { stream = w'.stream; wf_history = w'.wf_history }
  frame w w1 w' {s} {h} e f =
      let q : w' ≡ record w { stream = s; wf_history = h } =
        f ∙ ap {A = World lib} (λ x. record x { wf_history = h }) e in
      q ∙ ap (λ x. record w { stream = x.stream; wf_history = x.wf_history }) (sym q)

  pub publish_workflow_state-Sent :
      (w : World lib) (subject : Subject) (state : WorkflowState) {state' : WorkflowState}
      {w' : World lib}
      → publish_workflow_state lib subject state w ≡ (ok state', w')
      → (state' ≡ record state { unix_time_nano = w.now }) × Sent lib w subject state' w'
  unfolding publish_workflow_state
  publish_workflow_state-Sent w subject state {state'} h =
      let (s, p, e, f) =
        committed-ok w (λ s. record w { stream = s }) (λ s. record state { unix_time_nano = w.now })
          (lib.publish w.stream subject (record state { unix_time_nano = w.now })) h in
      (
        f,
        record {
          sent =
              ap (λ x. lib.published x.stream) e
              ∙ lib.published-publish w.stream s subject state'
                  (ap (λ x. lib.publish w.stream subject x) f ∙ p);
          only_stream = e ∙ ap (λ x. record w { stream = x.stream }) (sym e);
        },
      )

  -- Two messages, one after the other.
  pub two-Sent :
      (w : World lib) (first second : Subject) (a b : WorkflowState) {w' : World lib}
      → (publish_workflow_state lib first a >>= λ t.
            publish_workflow_state lib second b >>= λ t. pure tt)
          w
        ≡ (ok tt, w')
      → (lib.published w'.stream
          ≡ lib.published w.stream
            ++ (first, record a { unix_time_nano = w.now })
              ∷ (second, record b { unix_time_nano = w.now })
              ∷ [])
        × (w' ≡ record w { stream = w'.stream })
  two-Sent w first second a b {w'} h =
      let now : WorkflowState → WorkflowState = λ s. record s { unix_time_nano = w.now } in
      let (m1, w1, p1, h1) =
        exec_bind-ok (publish_workflow_state lib first a)
          (λ t. publish_workflow_state lib second b >>= λ t. pure tt) w h in
      let (g1, sent1) = publish_workflow_state-Sent w first a p1 in
      let (m2, w2, p2, h2) =
        exec_bind-ok (publish_workflow_state lib second b) (λ t. pure tt) w1 h1 in
      let (g2, sent2) = publish_workflow_state-Sent w1 second b p2 in
      let end : w2 ≡ w' = ap (λ x. x.1) h2 in
      let m2_is : m2 ≡ now b =
        g2 ∙ ap (λ x. record b { unix_time_nano = x.now }) sent1.only_stream in
      let all : w' ≡ record w { stream = w2.stream } =
        sym end
        ∙ sent2.only_stream
        ∙ ap {A = World lib} (λ x. record x { stream = w2.stream }) sent1.only_stream in
      (
        ap (λ x. lib.published x.stream) (sym end)
            ∙ sent2.sent
            ∙ ap (λ x. x ++ (second, m2) ∷ []) sent1.sent
            ∙ append_assoc (lib.published w.stream) ((first, m1) ∷ []) ((second, m2) ∷ [])
            ∙ ap (λ x. lib.published w.stream ++ (first, x) ∷ (second, m2) ∷ []) g1
            ∙ ap (λ x. lib.published w.stream ++ (first, now a) ∷ (second, x) ∷ []) m2_is,
        all ∙ ap (λ x. record w { stream = x.stream }) (sym all),
      )

  -- The history after a record of it, key by key.
  pub record_history-at :
      (doc : Documented lib.kv) (w : World lib) (state : WorkflowState) (kind : ProcessHistoryType)
      {w' : World lib}
      → record_history lib state kind w ≡ (ok tt, w')
      → ((k : String)
          → load_obj lib.kv w'.wf_history k ≡ (
              if history_key state.process_instance_id (Tracking.id state.id) kind == k
              then ok (remembered state kind)
              else load_obj lib.kv w.wf_history k))
        × (w' ≡ record w { wf_history = w'.wf_history })
  unfolding record_history save_obj
  record_history-at doc w state kind {w'} h =
      let key = history_key state.process_instance_id (Tracking.id state.id) kind in
      let entry = history_entry state kind in
      let (t, w1, k, h1) = exec_bind-ok (kvs_for lib) (λ _. save_history lib key entry) w h in
      let same = (lift-ok lib.kvs_for w k).1 in
      let h2 = subst (λ x. save_history lib key entry x ≡ (ok tt, w')) same h1 in
      let (b, p, e, f) =
        committed-ok w (λ b. record w { wf_history = b }) (λ b. tt)
          (make_fatal (lib.kv.put w.wf_history key entry)) h2 in
      (
        λ j.
            ap (λ x. load_obj lib.kv x.wf_history j) e
            ∙ doc.load-put w.wf_history b key j entry (make_fatal-ok _ p),
        e ∙ ap (λ x. record w { wf_history = x.wf_history }) (sym e),
      )

  pub record_history-recorded :
      (doc : Documented lib.kv) (w : World lib) (state : WorkflowState) (kind : ProcessHistoryType)
      {w' : World lib}
      → record_history lib state kind w ≡ (ok tt, w')
      → (load_obj lib.kv w'.wf_history
            (history_key state.process_instance_id (Tracking.id state.id) kind)
          ≡ ok (history_entry state kind))
        × (w' ≡ record w { wf_history = w'.wf_history })
  record_history-recorded doc w state kind h =
      let key = history_key state.process_instance_id (Tracking.id state.id) kind in
      let (at, only) = record_history-at doc w state kind h in (at key ∙ rw (eq_refl key), only)

  -- When an activity is completed, one completion went out that carries the state with the time of the call and without its execute, version, condition, owners and groups; the history holds, under the key of the state, an entry with the fields of that message as completed, and under every other key what it held; and nothing else changed.
  pub complete_activity-ActivityDone :
      (doc : Documented lib.kv) (w : World lib) (state : WorkflowState) {state' : WorkflowState}
      {w' : World lib}
      → complete_activity lib state w ≡ (ok state', w')
      → (state' ≡ crossed state w.now) × ActivityDone lib w state' w'
  unfolding complete_activity drop_state_params
  complete_activity-ActivityDone doc w state {state'} {w'} h =
      let dropped = drop_state_params state in
      let (s1, w1, p, h1) =
        exec_bind-ok (publish_workflow_state lib activity_complete_subject dropped) _ w h in
      let (t, w2, r, h2) = exec_bind-ok (record_history lib s1 activity_complete) _ w1 h1 in
      let same : s1 ≡ state' = ground arith in
      let same' : w2 ≡ w' = ground arith in
      let (f, out) = publish_workflow_state-Sent w activity_complete_subject dropped p in
      let only' = out.only_stream in
      let (rec, only) = record_history-at doc w1 s1 activity_complete r in
      (
        sym same ∙ f,
        record {
          sent =
              ap (λ x. lib.published x.stream) (sym same' ∙ only)
              ∙ out.sent
              ∙ ap (λ x. lib.published w.stream ++ (activity_complete_subject, x) ∷ []) same;
          recorded = λ k.
              ap (λ y. load_obj lib.kv y.wf_history k) (sym same')
              ∙ rec k
              ∙ ap
                  (λ y.
                    if history_key s1.process_instance_id (Tracking.id s1.id) activity_complete == k
                    then ok (remembered s1 activity_complete)
                    else load_obj lib.kv y.wf_history k)
                  only'
              ∙ ap
                  (λ x.
                    if history_key x.process_instance_id (Tracking.id x.id) activity_complete == k
                    then ok (remembered x activity_complete)
                    else load_obj lib.kv w.wf_history k)
                  same;
          only = frame w w1 w' only' (sym same' ∙ only);
        },
      )
