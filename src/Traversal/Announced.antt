-- ===== src/Traversal/Announced.antt =====
-- `traverse` of internal/server/workflow/engine.go at a gateway with a join.
use shar.Prelude.{suc, ◌≡◌, sym, ap, ◌∙◌, String, true, some, List, [], ◌∷◌, ◌++◌, eq_refl, arith}
use shar.Prelude.Maps.{Map, lookup, insert, keys, lookup-insert}
use mathlib.Core.List.{Perm}
use shar.Errors.{ok}
use shar.Errors.Exec.{lift, exec_bind-ok, committed-ok, lift-ok}
use shar.Nats.{Documented, load_obj, save_obj}
use shar.Model.{Element, Gateway, Targets, WorkflowState}
use shar.Vars.{Codec, Expr}
use shar.Server.{Libraries, World, kvs_for}
use shar.Traversal.Select.{present, reciprocated, choose}
use shar.Traversal.Send.{
  fresh_id, save_gateway, send_branches, announce, left_behind, join_of, traverse, send_from,
  ranged,
}
use shar.Traversal.Sent.{
  Branched, traversals, present-ok, fresh_id-counts, fresh_id-value, send_branches-Branched,
}

-- What `traverse` did at a gateway with a join: the branches that it took, in whatever orders it went
-- through them, the instance that it opened, and the messages, of which each carries the branches that the join is to expect and says which of
-- them it is.
pub record Announced (lib : Libraries) (codec : Codec) (expr : Expr) (id : List String)
    (outbound : Targets) (el : Map Element) (state : WorkflowState) (elem : Element)
    (w w' : World lib) : Type 0 where
  pub targets : Map String
  pub taken : choose codec expr state.vars outbound ≡ ok targets
  pub iid : String
  pub new_iid : iid ≡ lib.ksuid w.next_id
  pub announced : WorkflowState
  pub paths : Map String
  pub all_paths : Perm paths targets
  pub expects : lookup iid announced.gateway_expectations ≡ some (keys paths)
  pub vars_kept : announced.vars ≡ state.vars
  pub msgs : List WorkflowState
  pub order : Map String
  pub all_flows : Perm order targets
  pub branches : Branched announced id el (some (join_of elem.gateway, iid)) order msgs
  pub sent : lib.published w'.stream ≡ lib.published w.stream ++ traversals msgs
  pub opened :
      load_obj lib.kv w'.wf_gateway iid
      ≡ ok (record { met_expectations = []; vars = state.vars ∷ []; visits = 0 })

module _ (lib : Libraries) (doc : Documented lib.kv) where
  announce-opens :
      (state : WorkflowState) (iid : String) (targets : Map String) (w : World lib)
      {announced : WorkflowState} {w' : World lib}
      → announce lib state iid targets w ≡ (ok announced, w')
      → (announced ≡ record state {
        gateway_expectations = insert iid (keys targets) state.gateway_expectations;
      })
        × (load_obj lib.kv w'.wf_gateway iid
            ≡ ok (record { met_expectations = []; vars = state.vars ∷ []; visits = 0 }))
        × (w' ≡ record w { wf_gateway = w'.wf_gateway })
  unfolding announce save_gateway save_obj
  announce-opens state iid targets w {announced} {w'} h =
      let gw : Gateway = record { met_expectations = []; vars = state.vars ∷ []; visits = 0 } in
      let (t, w1, p1, h1) = exec_bind-ok (kvs_for lib) _ w h in
      let s1 = (lift-ok lib.kvs_for w p1).1 in
      let (u, w2, p2, h2) = exec_bind-ok (save_gateway lib iid gw) _ w1 h1 in
      let (b, q, e, f) =
        committed-ok w1 (λ b. record w1 { wf_gateway = b }) (λ b. tt)
          (lib.kv.put w1.wf_gateway iid gw) p2 in
      let s2 : w2 ≡ w' = ap (λ x. x.1) h2 in
      let stored : w' ≡ record w { wf_gateway = b } =
        sym s2 ∙ e ∙ ap {A = World lib} (λ x. record x { wf_gateway = b }) s1 in
      (
        sym (ap (λ x. elim x.0 [ ok y ↦ y | _ ↦ announced ]) h2),
        ap (λ x. load_obj lib.kv x.wf_gateway iid) stored
            ∙ doc.load-put w1.wf_gateway b iid iid gw q
            ∙ rw (eq_refl iid),
        stored ∙ ap (λ x. record w { wf_gateway = x.wf_gateway }) (sym stored),
      )

  Announced-all :
      (codec : Codec) (expr : Expr) (id : List String) (outbound : Targets) (el : Map Element)
      (state : WorkflowState) (elem : Element) (w w4 : World lib) (targets : Map String)
      (iid : String) {w' : World lib}
      → choose codec expr state.vars outbound ≡ ok targets
      → iid ≡ lib.ksuid w.next_id
      → w4 ≡ record w { next_id = suc w.next_id }
      → send_from lib true (left_behind state) id el (join_of elem.gateway) iid targets w4
        ≡ (ok tt, w')
      → Announced lib codec expr id outbound el state elem w w'
  Announced-all codec expr id outbound el state elem w w4 targets iid {w'} taken new s4 q =
      let fork = some (join_of elem.gateway, iid) in
      let (a, w5, p5, h5) =
        exec_bind-ok (ranged lib lib.range_names (announce lib (left_behind state) iid) targets)
          (λ x. ranged lib lib.range_sent (send_branches lib x id el fork) targets) w4 q in
      let paths = lib.range_names w4.next_id targets in
      let order = lib.range_sent w5.next_id targets in
      let (e, at, only) = announce-opens (left_behind state) iid paths w4 p5 in
      let (msgs, cs, out, only') = send_branches-Branched lib a id el fork order w5 h5 in
      record {
        targets = targets;
        taken = taken;
        iid = iid;
        new_iid = new;
        announced = a;
        expects =
            ap (λ x. lookup iid x.gateway_expectations) e
            ∙ lookup-insert iid iid (keys paths) state.gateway_expectations
            ∙ rw (eq_refl iid);
        vars_kept = ap (λ x. x.vars) e;
        paths = paths;
        all_paths = lib.range_names-Perm w4.next_id targets;
        order = order;
        all_flows = lib.range_sent-Perm w5.next_id targets;
        msgs = msgs;
        branches = cs;
        sent =
            out
            ∙ ap (λ x. lib.published x.stream ++ traversals msgs) only
            ∙ ap (λ x. lib.published x.stream ++ traversals msgs) s4;
        opened = ap (λ x. load_obj lib.kv x.wf_gateway iid) only' ∙ at;
      }

  -- When a divergent gateway that names a join is left, the traversal opens one new instance of the join, whose first variables are those of the state, and sends one message along each flow that is taken, in some order. Every message stands at its flow's target with the variables of the state, is one generation below the traversal, and carries under the instance exactly the flows that were taken, in some order, as the branches to expect, and under the join the instance and its own flow.
  pub traverse-Announced :
      (codec : Codec) (expr : Expr) (id : List String) (outbound : Targets) (el : Map Element)
      (state : WorkflowState) (elem : Element) (w : World lib) {w' : World lib}
      → lookup state.element_id el ≡ some elem
      → reciprocated elem ≡ ok true
      → traverse lib codec expr id (some outbound) el state w ≡ (ok tt, w')
      → Announced lib codec expr id outbound el state elem w w'
  unfolding traverse
  traverse-Announced codec expr id outbound el state elem w {w'} found forks h =
      let (targets, w1, p1, h1) =
        exec_bind-ok {S = World lib} (lift (choose codec expr state.vars outbound)) _ w h in
      let (taken, s1) = lift-ok (choose codec expr state.vars outbound) w p1 in
      let (elem', w2, p2, h2) =
        exec_bind-ok {S = World lib} (lift (present (lookup state.element_id el))) _ w1 h1 in
      let (found', s2) = lift-ok (present (lookup state.element_id el)) w1 p2 in
      let same : elem' ≡ elem =
        ground (arith, present-ok (lookup state.element_id el) found', found) in
      let (b, w3, p3, h3) = exec_bind-ok {S = World lib} (lift (reciprocated elem')) _ w2 h2 in
      let (forks', s3) = lift-ok (reciprocated elem') w2 p3 in
      let yes : b ≡ true = ground (arith, forks', forks, ap reciprocated same) in
      let (iid, w4, p4, h4) = exec_bind-ok (fresh_id lib) _ w3 h3 in
      let s4 : w4 ≡ record w { next_id = suc w.next_id } =
        fresh_id-counts lib w3 p4
        ∙ ap {A = World lib} (λ x. record x { next_id = suc x.next_id }) (s3 ∙ s2 ∙ s1) in
      let q : send_from lib true (left_behind state) id el (join_of elem.gateway) iid targets w4
          ≡ (ok tt, w') =
        ap (λ x. send_from lib x (left_behind state) id el (join_of elem.gateway) iid targets w4)
          (sym yes)
        ∙ ap (λ x. send_from lib b (left_behind state) id el (join_of x.gateway) iid targets w4)
            (sym same)
        ∙ h4 in
      Announced-all codec expr id outbound el state elem w w4 targets iid taken
        (fresh_id-value lib w3 p4 ∙ ap (λ x. lib.ksuid x.next_id) (s3 ∙ s2 ∙ s1)) s4 q
