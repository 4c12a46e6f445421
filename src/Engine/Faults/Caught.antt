-- ===== src/Engine/Faults/Caught.antt =====
-- HandleWorkflowError of internal/server/workflow/operations.go: what a caught error sends.
use shar.Prelude.{
  ℕ, ◌≡◌, sym, ap, subst, ◌∙◌, inl, inr, String, true, false, Option, none, some, List, [], ◌∷◌,
  ◌++◌, ◌==◌, eq_iff, arith, if◌then◌else◌, Bool-cases,
}
use shar.Prelude.Maps.{Map, lookup}
use shar.Errors.{ok, fatal, workflow_not_found, workflow_error_not_found, bind-eq-ok, make_fatal}
use shar.Errors.Exec.{Exec, pure, raise, on_err, lift, exec_bind-ok, lift-ok, ◌>>=◌}
use shar.Tracking
use shar.Nats.{load_obj}
use shar.Model.{
  Bytes, Error, CatchError, Element, Workflow, WorkflowState, no_state, ProcessHistoryEntry,
  element_table, activity_execute, errored,
}
use shar.Vars.{Codec, Expr, output_vars}
use shar.Server.{
  Libraries, World, traversal_execute, service_task_abort, history_key, get_workflow,
  get_process_history_item, publish_workflow_state,
}
use shar.Server.Published.{two-Sent, make_fatal-ok}
use shar.Server.Reads.{read-ok, get_workflow-state, not_found-ok}
use shar.Traversal.Select.{present}
use shar.Traversal.Sent.{present-ok}
use shar.Engine.Faults.{
  has_code, errors_by_id, find_caught, unhandled, caught_state, halt_workflow, catch_error,
  handle_workflow_error, cancel_process_instance,
}

-- The first of the caught errors that has the code, and the error that it stands for.
pub data Catches (code : String) (errors : Map Error) : List CatchError → CatchError → Type 0 where
  first :
      {v : CatchError} {vs : List CatchError} (e : Error)
      → lookup v.error_id errors ≡ some e
      → e.code ≡ code
      → Catches code errors (v ∷ vs) v
  later :
      {v caught : CatchError} {vs : List CatchError} (e : Error)
      → lookup v.error_id errors ≡ some e
      → (code == e.code) ≡ false
      → Catches code errors vs caught
      → Catches code errors (v ∷ vs) caught

find_caught-Catches :
    (code : String) (errors : Map Error) (vs : List CatchError) {caught : CatchError}
    → find_caught code errors vs ≡ ok (some caught)
    → Catches code errors vs caught
unfolding find_caught
find_caught-Catches code errors [] h = absurd (ground arith)
find_caught-Catches code errors (v ∷ vs) {caught} h =
    let rest = find_caught code errors vs in
    let (e, p, h1) = bind-eq-ok (present (lookup v.error_id errors)) _ h in
    let at = present-ok (lookup v.error_id errors) p in
    elim (Bool-cases (code == e.code)) [
      | inl y ↦
          let same : v ≡ caught =
            ap (λ r. elim r [ ok (some x) ↦ x | _ ↦ v ])
              (ap (λ b. if b then ok (some v) else rest) (sym y) ∙ h1) in
          subst (λ x. Catches code errors (v ∷ vs) x) same
            (first e at (ground (arith, eq_iff code e.code, y)))
      | inr n ↦ later e at n (
          find_caught-Catches code errors vs
            (ap (λ b. if b then ok (some v) else rest) (sym n) ∙ h1))
    ]

-- A message at the element `target` of the workflow, with the variables of an activity of `state`.
abbrev pub message_at : Workflow → Element → WorkflowState → List String → Bytes → ℕ → WorkflowState
message_at wf target state id vars now = record no_state {
  workflow_id = state.workflow_id;
  workflow_name = wf.name;
  execution_id = state.execution_id;
  process_id = state.process_id;
  process_instance_id = state.process_instance_id;
  element_id = target.id;
  element_type = target.kind;
  element_name = target.name;
  id = id;
  vars = vars;
  unix_time_nano = now;
}

-- What was sent for an error that the element `el` catches.
pub record Caught (lib : Libraries) (codec : Codec) (expr : Expr) (w : World lib) (code : String)
    (in_vars : Bytes) (state : WorkflowState) (w' : World lib) : Type 0 where
  pub wf : Workflow
  pub stored : load_obj lib.kv w.wf state.workflow_id ≡ ok wf
  pub known : has_code code wf.errors ≡ true
  pub el : Element
  pub at : lookup state.element_id (element_table wf) ≡ some el
  pub caught : CatchError
  pub catches : Catches code (errors_by_id wf.errors []) el.errors caught
  pub start : ProcessHistoryEntry
  pub started :
      load_obj lib.kv w.wf_history (
        history_key state.process_instance_id
          (Tracking.id (Tracking.pop state.id))
          activity_execute)
      ≡ ok start
  pub vars : Bytes
  pub merged : output_vars codec expr in_vars start.vars caught.output_transform ≡ ok vars
  pub target : Element
  pub target_at : lookup caught.target (element_table wf) ≡ some target
  pub sent :
      lib.published w'.stream
      ≡ lib.published w.stream
        ++ (
          traversal_execute,
          message_at wf target state (Tracking.pop (Tracking.pop state.id)) vars w.now,
        )
          ∷ (service_task_abort, message_at wf target state state.id state.vars w.now)
          ∷ []
  pub only : w' ≡ record w { stream = w'.stream }

module _ (lib : Libraries) (codec : Codec) (expr : Expr) where
  halted :
      (code : String) (state : WorkflowState) (w : World lib) {w' : World lib}
      → halt_workflow lib code state w ≡ (ok tt, w')
      → ⊥
  unfolding halt_workflow
  halted code state w h =
      let (s1, w1, p1, h1) =
        exec_bind-ok
          (on_err (λ e. fatal workflow_error_not_found)
            (publish_workflow_state lib service_task_abort state))
          _ w h in
      let (t, w2, p2, h2) =
        exec_bind-ok
          (on_err (λ e. fatal workflow_error_not_found)
            (cancel_process_instance lib (record s1 {
              state = errored;
              error = some (record { id = "UNKNOWN"; name = "UNKNOWN"; code = code });
            })))
          (λ t. raise (fatal workflow_error_not_found)) w1 h1 in
      absurd (ground arith)

  unhandled-ok : (o : Option CatchError) {c : CatchError} → unhandled o ≡ ok c → o ≡ some c
  unhandled-ok none h = absurd (ground arith)
  unhandled-ok (some c) h = ground arith

  catch_error-Caught :
      (wf : Workflow) (code : String) (in_vars : Bytes) (state : WorkflowState) (w : World lib)
      {w' : World lib}
      → load_obj lib.kv w.wf state.workflow_id ≡ ok wf
      → has_code code wf.errors ≡ true
      → catch_error lib codec expr wf code in_vars state w ≡ (ok tt, w')
      → Caught lib codec expr w code in_vars state w'
  unfolding catch_error get_process_history_item
  catch_error-Caught wf code in_vars state w {w'} stored known h =
      let pid = state.process_instance_id in
      let activity = Tracking.id (Tracking.pop state.id) in
      let els = element_table wf in
      let (el, w1, p1, h1) =
        exec_bind-ok {S = World lib} (lift (present (lookup state.element_id els))) _ w h in
      let (at, s1) = lift-ok (present (lookup state.element_id els)) w p1 in
      let caught_read = find_caught code (errors_by_id wf.errors []) el.errors in
      let (found, w2, p2, h2) = exec_bind-ok {S = World lib} (lift caught_read) _ w1 h1 in
      let (f2, s2) = lift-ok caught_read w1 p2 in
      let (caught, w3, p3, h3) = exec_bind-ok {S = World lib} (lift (unhandled found)) _ w2 h2 in
      let (f3, s3) = lift-ok (unhandled found) w2 p3 in
      let (start, w4, p4, h4) =
        exec_bind-ok (get_process_history_item lib pid activity activity_execute) _ w3 h3 in
      let (f4, s4) =
        read-ok lib (λ x. load_obj lib.kv x.wf_history (history_key pid activity activity_execute))
          w3 p4 in
      let out = output_vars codec expr in_vars start.vars caught.output_transform in
      let (vars, w5, p5, h5) = exec_bind-ok {S = World lib} (lift (make_fatal out)) _ w4 h4 in
      let (f5, s5) = lift-ok (make_fatal out) w4 p5 in
      let (target, w6, p6, h6) =
        exec_bind-ok {S = World lib} (lift (present (lookup caught.target els))) _ w5 h5 in
      let (f6, s6) = lift-ok (present (lookup caught.target els)) w5 p6 in
      let go_on = caught_state wf target state (Tracking.pop (Tracking.pop state.id)) vars in
      let stop = caught_state wf target state state.id state.vars in
      let send : Exec (World lib) (Unit {0}) =
        publish_workflow_state lib traversal_execute go_on >>= λ t.
        publish_workflow_state lib service_task_abort stop >>= λ t. pure tt in
      let w6_is : w6 ≡ w = s6 ∙ s5 ∙ s4 ∙ s3 ∙ s2 ∙ s1 in
      let (all_sent, all) =
        two-Sent lib w traversal_execute service_task_abort go_on stop (ap send (sym w6_is) ∙ h6) in
      record {
        wf = wf;
        stored = stored;
        known = known;
        el = el;
        at = present-ok (lookup state.element_id els) at;
        caught = caught;
        catches =
            find_caught-Catches code (errors_by_id wf.errors []) el.errors
              (f2 ∙ ap ok (unhandled-ok found f3));
        start = start;
        started =
            ap (λ x. load_obj lib.kv x.wf_history (history_key pid activity activity_execute))
              (sym (s3 ∙ s2 ∙ s1))
            ∙ f4;
        vars = vars;
        merged = make_fatal-ok out f5;
        target = target;
        target_at = present-ok (lookup caught.target els) f6;
        sent = all_sent;
        only = all;
      }

  -- An error of a client's task whose handling succeeds has a code that the workflow knows and the element catches. A traversal goes to the target of the first catch of that code, with the variables of the activity merged with the error's by the transformation of the catch and at the generation above the activity; then an abort of the task is sent, and nothing else changes.
  pub handle_workflow_error-Caught :
      (code : String) (in_vars : Bytes) (state : WorkflowState) (w : World lib) {w' : World lib}
      → handle_workflow_error lib codec expr code in_vars state w ≡ (ok tt, w')
      → Caught lib codec expr w code in_vars state w'
  unfolding handle_workflow_error halt_workflow catch_error
  handle_workflow_error-Caught code in_vars state w {w'} h =
      let (wf, w1, p1, h1) = exec_bind-ok (get_workflow lib state.workflow_id) _ w h in
      let (found, s1) = get_workflow-state lib w state.workflow_id p1 in
      let caught = catch_error lib codec expr wf code in_vars state in
      let halt = halt_workflow lib code state in
      elim (Bool-cases (has_code code wf.errors)) [
        | inr n ↦
            absurd (halted code state w1 (ap (λ b. (if b then caught else halt) w1) (sym n) ∙ h1))
        | inl y ↦
            catch_error-Caught wf code in_vars state w
              (not_found-ok workflow_not_found (load_obj lib.kv w.wf state.workflow_id) found) y
              (ap caught (sym s1) ∙ ap (λ b. (if b then caught else halt) w1) (sym y) ∙ h1)
      ]
