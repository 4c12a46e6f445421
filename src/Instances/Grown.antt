-- ===== src/Instances/Grown.antt =====
-- The moves on the buckets of executions and process instances that add to them.
use shar.Prelude.{
  ◌+◌, ◌≤◌, ◌<◌, ◌≡◌, sym, ap, subst, ◌∙◌, inl, inr, String, List, [], ◌∷◌, ◌++◌, ◌==◌, eq_iff,
  arith, if◌then◌else◌, Bool-cases,
}
use shar.Errors.{ok, err, key_not_found}
use shar.Nats.{KeyValue, Documented, load_obj}
use shar.Nats.Alone.{Updated}
use shar.Model.{Execution, ProcessInstance}
use shar.UserTasks.Closed.{occurs}
use shar.Instances.{add_instance}
use shar.Instances.Linked.{Linked, ok-injective, chosen}

occurs-append :
    (x id : String) (ids : List String)
    → occurs x (ids ++ id ∷ []) ≡ occurs x ids + (if id == x then 1 else 0)
occurs-append x id [] = ground arith
occurs-append x id (y ∷ ids) = ground (arith, occurs-append x id ids)

module _ (kv : KeyValue) (doc : Documented kv) where
  -- A new process instance is stored, and then listed.
  pub Linked-new :
      (execs : kv.Bucket Execution) (pis pis' : kv.Bucket ProcessInstance) (pid : String)
      (pi : ProcessInstance)
      → kv.put pis pid pi ≡ ok pis'
      → load_obj kv pis pid ≡ err key_not_found
      → Linked kv execs pis
      → Linked kv execs pis'
  Linked-new execs pis pis' pid pi p fresh l = record {
    recorded = λ eid e x h o.
        let (old, at, own) = l.recorded eid e x h o in
        elim (Bool-cases (pid == x)) [
          | inl y ↦
              let same : pid ≡ x = ground (arith, eq_iff pid x, y) in
              absurd (ground (arith, at, fresh, ap (load_obj kv pis) same))
          | inr n ↦ (old, doc.load-put pis pis' pid x pi p ∙ rw n at, own)
        ];
    once = l.once;
  }

  module _ (execs execs' : kv.Bucket Execution) (pis : kv.Bucket ProcessInstance) (eid pid : String)
      (pi : ProcessInstance) {default u : Execution}
      (up : Updated kv execs eid default (λ e. ok (add_instance pid e)) execs' u) where
    -- The execution that the update started from was the stored one.
    pub Linked-add :
        load_obj kv execs eid ≡ ok up.value
        → load_obj kv pis pid ≡ ok pi
        → pi.execution_id ≡ eid
        → ((e : Execution) → load_obj kv execs eid ≡ ok e → occurs pid e.process_instance_id ≡ 0)
        → Linked kv execs pis
        → Linked kv execs' pis
    Linked-add at stored own new l = record {
      recorded = λ i e x h o.
          elim (chosen eid i (ok u) (load_obj kv execs i) (sym (up.written i) ∙ h)) [
            | inr (other, at') ↦ l.recorded i e x at' o
            | inl (same, is) ↦
                let is' : e ≡ add_instance pid up.value = sym (ok-injective (up.applied ∙ is)) in
                let o' = subst (λ y. 0 < occurs x y.process_instance_id) is' o in
                elim (Bool-cases (pid == x)) [
                  | inl y ↦
                      let this : pid ≡ x = ground (arith, eq_iff pid x, y) in
                      (pi, ap (load_obj kv pis) (sym this) ∙ stored, own ∙ same)
                  | inr n ↦
                      let (old, at', own') =
                        l.recorded eid up.value x at (
                          ground
                            (arith, o', n, occurs-append x pid up.value.process_instance_id)) in
                      (old, at', own' ∙ same)
                ]
          ];
      once = λ i e x h. elim (chosen eid i (ok u) (load_obj kv execs i) (sym (up.written i) ∙ h)) [
        | inr (other, at') ↦ l.once i e x at'
        | inl (same, is) ↦
            subst (λ y. occurs x y.process_instance_id ≤ 1) (ok-injective (up.applied ∙ is))
              (elim (Bool-cases (pid == x)) [
                | inl y ↦
                    let this : pid ≡ x = ground (arith, eq_iff pid x, y) in
                    let none_yet : occurs x up.value.process_instance_id ≡ 0 =
                      subst (λ z. occurs z up.value.process_instance_id ≡ 0) this
                        (new up.value at) in
                    ground (arith, y, none_yet, occurs-append x pid up.value.process_instance_id)
                | inr n ↦ ground (
                  arith,
                  n,
                  l.once eid up.value x at,
                  occurs-append x pid up.value.process_instance_id,
                )
              ])
      ];
    }

  -- A new execution lists nothing.
  pub Linked-empty :
      (execs execs' : kv.Bucket Execution) (pis : kv.Bucket ProcessInstance) (eid : String)
      (e : Execution)
      → kv.put execs eid e ≡ ok execs'
      → e.process_instance_id ≡ []
      → Linked kv execs pis
      → Linked kv execs' pis
  Linked-empty execs execs' pis eid e p nothing l = record {
    recorded = λ i x pid h o.
        elim (chosen eid i (ok e) (load_obj kv execs i)
          (sym (doc.load-put execs execs' eid i e p) ∙ h)) [
            | inr (other, at) ↦ l.recorded i x pid at o
            | inl (same, is) ↦
                let listed = ap (λ y. occurs pid y.process_instance_id) (ok-injective is) in
                absurd (omega (arith, o, listed, ap (occurs pid) nothing))
          ];
    once = λ i x pid h.
        elim (chosen eid i (ok e) (load_obj kv execs i)
          (sym (doc.load-put execs execs' eid i e p) ∙ h)) [
            | inr (other, at) ↦ l.once i x pid at
            | inl (same, is) ↦
                let listed = ap (λ y. occurs pid y.process_instance_id) (ok-injective is) in
                omega (arith, listed, ap (occurs pid) nothing)
          ];
  }
