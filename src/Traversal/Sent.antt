-- ===== src/Traversal/Sent.antt =====
-- What `traverse` of internal/server/workflow/engine.go sends.
use Prim.Native.String.{◌++◌ as str_append}
use shar.Prelude.{
  suc, ◌≡◌, refl, sym, ap, subst, ◌∙◌, String, Bool, Option, none, some, List, [], ◌∷◌, ◌++◌, map,
  arith,
}
use mathlib.Core.List.{append_assoc, append-nil}
use shar.Prelude.Maps.{Map, lookup}
use shar.Errors.{ok, fatal}
use shar.Errors.Exec.{lift, on_err, exec_bind-ok, lift-ok, on_err-ok}
use shar.Tracking
use shar.Tracking.Stack
use shar.Model.{Element, WorkflowState, index_process_elements}
use shar.Server.{Libraries, World, Subject, traversal_execute, get_workflow, publish_workflow_state}
use shar.Server.Published.{publish_workflow_state-Sent}
use shar.Server.Reads.{get_workflow-state}
use shar.Gateway.Handlers.{process_of}
use shar.Traversal.Select.{present, solitary}
use shar.Traversal.Send.{
  expect_fork, expect_if, read_target, branch_message, fresh_id, send_branch, send_branches,
}

-- The state that goes along one flow: it stands at the flow's target, one generation below the
-- traversal, with the variables and expectations of the element that it leaves.
pub record Carries (state : WorkflowState) (tracking_id : List String) (el : Map Element)
    (fork : Option (String × String)) (branch el_id : String) (msg : WorkflowState) : Type 0 where
  pub target : Element
  pub flows_to : lookup el_id el ≡ some target
  pub at_target : msg.element_id ≡ target.id
  pub parent : Tracking.pop msg.id ≡ tracking_id
  pub same_vars : msg.vars ≡ state.vars
  pub same_expectations : msg.gateway_expectations ≡ state.gateway_expectations
  pub earlier : Map (List String)
  pub tracked : msg.satisfies_gateway_expectation ≡ expect_fork fork branch earlier

-- One message per flow, in the order of the list.
abbrev pub Branched :
    WorkflowState
    → List String
    → Map Element
    → Option (String × String)
    → Map String
    → List WorkflowState
    → Type 0
Branched state id el fork [] [] = Unit
Branched state id el fork ((branch, el_id) ∷ rest) (msg ∷ msgs) =
    Carries state id el fork branch el_id msg × Branched state id el fork rest msgs
Branched state id el fork _ _ = ⊥

abbrev pub traversals : List WorkflowState → List (Subject × WorkflowState)
traversals msgs = map (λ msg. (traversal_execute, msg)) msgs

pub present-ok : {A : Type 0} (o : Option A) {a : A} → present o ≡ ok a → o ≡ some a
present-ok none h = absurd (ground arith)
present-ok (some x) h = ground arith

module _ (lib : Libraries) where
  -- Only the stream and the count of identifiers changed.
  abbrev pub OnlySent : World lib → World lib → Type 0
  OnlySent w w' = w' ≡ record w { stream = w'.stream; next_id = w'.next_id }

  OnlySent-trans : (w w1 w' : World lib) → OnlySent w w1 → OnlySent w1 w' → OnlySent w w'
  OnlySent-trans w w1 w' a b =
      b ∙ ap {A = World lib} (λ x. record x { stream = w'.stream; next_id = w'.next_id }) a

  pub fresh_id-counts :
      (w : World lib) {id : String} {w' : World lib}
      → fresh_id lib w ≡ (ok id, w')
      → w' ≡ record w { next_id = suc w.next_id }
  unfolding fresh_id
  fresh_id-counts w h = sym (ap (λ x. x.1) h)

  pub fresh_id-value :
      (w : World lib) {id : String} {w' : World lib}
      → fresh_id lib w ≡ (ok id, w')
      → id ≡ lib.ksuid w.next_id
  unfolding fresh_id
  fresh_id-value w {id} h = sym (ap (λ x. elim x.0 [ ok y ↦ y | _ ↦ id ]) h)

  read_target-found :
      (state : WorkflowState) (el : Map Element) (el_id : String) (w : World lib)
      {t : Element × String × Bool} {w' : World lib}
      → read_target lib state el el_id w ≡ (ok t, w')
      → (lookup el_id el ≡ some t.0) × (w' ≡ w)
  unfolding read_target
  read_target-found state el el_id w {t} {w'} h =
      let found = present (lookup el_id el) in
      let (target, w1, p1, h1) = exec_bind-ok {S = World lib} (lift found) _ w h in
      let (e, s1) = lift-ok found w p1 in
      let (wf, w2, p2, h2) =
        exec_bind-ok {S = World lib} (on_err fatal (get_workflow lib state.workflow_id)) _ w1 h1 in
      let s2 =
        (get_workflow-state lib w1 state.workflow_id
          (on_err-ok _ (get_workflow lib state.workflow_id) w1 p2)).1 in
      let process = process_of (lookup state.process_id wf.process) in
      let (pr, w3, p3, h3) = exec_bind-ok {S = World lib} (lift process) _ w2 h2 in
      let s3 = (lift-ok process w2 p3).1 in
      let name = present (lookup target.id (index_process_elements pr.elements [])) in
      let (named, w4, p4, h4) = exec_bind-ok {S = World lib} (lift name) _ w3 h3 in
      let s4 = (lift-ok name w3 p4).1 in
      let (alone, w5, p5, h5) = exec_bind-ok {S = World lib} (lift (solitary target)) _ w4 h4 in
      let s5 = (lift-ok (solitary target) w4 p5).1 in
      let same : target ≡ t.0 = ap (λ x. elim x.0 [ ok y ↦ y.0 | _ ↦ target ]) h5 in
      (
        present-ok (lookup el_id el) e ∙ ap some same,
        sym (ap (λ x. x.1) h5) ∙ s5 ∙ s4 ∙ s3 ∙ s2 ∙ s1,
      )

  OnlySent-published :
      (w w1 w' : World lib)
      → w1 ≡ record w { next_id = suc w.next_id }
      → w' ≡ record w1 { stream = w'.stream }
      → OnlySent w w'
  OnlySent-published w w1 w' a b =
      let e : w' ≡ record w { stream = w'.stream; next_id = suc w.next_id } =
        b ∙ ap {A = World lib} (λ x. record x { stream = w'.stream }) a in
      e ∙ ap (λ x. record w { stream = w'.stream; next_id = x.next_id }) (sym e)

  send_branch-Carries :
      (state : WorkflowState) (id : List String) (el : Map Element)
      (fork : Option (String × String)) (branch el_id : String) (w : World lib) {w' : World lib}
      → send_branch lib state id el fork branch el_id w ≡ (ok tt, w')
      → (msg : WorkflowState) × Carries state id el fork branch el_id msg
        × (lib.published w'.stream ≡ lib.published w.stream ++ (traversal_execute, msg) ∷ [])
        × OnlySent w w'
  unfolding send_branch branch_message
  send_branch-Carries state id el fork branch el_id w {w'} h =
      let (new_id, w1, p1, h1) = exec_bind-ok (fresh_id lib) _ w h in
      let s1 = fresh_id-counts w p1 in
      let (t, w2, p2, h2) = exec_bind-ok (read_target lib state el el_id) _ w1 h1 in
      let (found, s2) = read_target-found state el el_id w1 p2 in
      let msg = branch_message state (Tracking.push id new_id) t.0 t.1 t.2 fork branch in
      let (s, w3, p3, h3) =
        exec_bind-ok (publish_workflow_state lib traversal_execute msg) _ w2 h2 in
      let (f, out) = publish_workflow_state-Sent lib w2 traversal_execute msg p3 in
      let e : w3 ≡ w' = ap (λ x. x.1) h3 in
      let start : w2 ≡ record w { next_id = suc w.next_id } = s2 ∙ s1 in
      (
        record msg { unix_time_nano = w2.now },
        record {
          target = t.0;
          flows_to = found;
          at_target = refl;
          parent = (Stack.pop-push id new_id).0;
          same_vars = refl;
          same_expectations = refl;
          earlier =
              expect_if t.2 t.0.id (str_append "-," branch) state.satisfies_gateway_expectation;
          tracked = refl;
        },
        ap (λ x. lib.published x.stream) (sym e)
            ∙ out.sent
            ∙ ap (λ x. lib.published x.stream ++ (traversal_execute, s) ∷ []) start
            ∙ ap (λ x. lib.published w.stream ++ (traversal_execute, x) ∷ []) f,
        subst (λ x. OnlySent w x) e (OnlySent-published w w2 w3 start out.only_stream),
      )

  pub send_branches-Branched :
      (state : WorkflowState) (id : List String) (el : Map Element)
      (fork : Option (String × String)) (targets : Map String) (w : World lib) {w' : World lib}
      → send_branches lib state id el fork targets w ≡ (ok tt, w')
      → (msgs : List WorkflowState) × Branched state id el fork targets msgs
        × (lib.published w'.stream ≡ lib.published w.stream ++ traversals msgs)
        × OnlySent w w'
  unfolding send_branches
  send_branches-Branched state id el fork [] w {w'} h =
      let e : w ≡ w' = ap (λ x. x.1) h in
      (
        [],
        tt,
        ap (λ x. lib.published x.stream) (sym e) ∙ sym (append-nil (lib.published w.stream)),
        subst (λ x. OnlySent w x) e refl,
      )
  send_branches-Branched state id el fork ((branch, el_id) ∷ rest) w {w'} h =
      let (t, w1, p, h1) = exec_bind-ok (send_branch lib state id el fork branch el_id) _ w h in
      let (msg, c, out, only) = send_branch-Carries state id el fork branch el_id w p in
      let (msgs, cs, outs, onlys) = send_branches-Branched state id el fork rest w1 h1 in
      (
        msg ∷ msgs,
        (c, cs),
        outs
            ∙ ap (λ x. x ++ traversals msgs) out
            ∙ append_assoc (lib.published w.stream) ((traversal_execute, msg) ∷ [])
                (traversals msgs),
        OnlySent-trans w w1 w' only onlys,
      )
