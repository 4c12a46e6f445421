-- ===== src/Instances/Linked.antt =====
-- The invariant of executions and process instances, and the moves on the two buckets that keep it.
use shar.Prelude.{
  ◌≤◌, ◌<◌, ◌≡◌, sym, ap, subst, ◌∙◌, ◌⊎◌, inl, inr, String, false, List, [], ◌∷◌, ◌==◌, eq_iff,
  eq_refl, ltb, arith, if◌then◌else◌, Bool-cases,
}
use shar.Errors.{Outcome, ok, err, key_not_found}
use shar.Nats.{KeyValue, Documented, load_obj}
use shar.Nats.Alone.{Updated}
use shar.Model.{Execution, ProcessInstance, no_execution}
use shar.UserTasks.{remove}
use shar.UserTasks.Closed.{occurs, occurs-remove_once}
use shar.Instances.{drop_instance}

-- Every process instance that an execution lists is stored, belongs to that execution, and is listed
-- once.
pub record Linked (kv : KeyValue) (execs : kv.Bucket Execution) (pis : kv.Bucket ProcessInstance)
    : Type 0 where
  pub recorded :
      (eid : String) (e : Execution) (pid : String)
      → load_obj kv execs eid ≡ ok e
      → 0 < occurs pid e.process_instance_id
      → (pi : ProcessInstance) × (load_obj kv pis pid ≡ ok pi) × (pi.execution_id ≡ eid)
  pub once :
      (eid : String) (e : Execution) (pid : String)
      → load_obj kv execs eid ≡ ok e
      → occurs pid e.process_instance_id ≤ 1

-- No execution lists the process instance.
abbrev pub Unlisted : (kv : KeyValue) → kv.Bucket Execution → String → Type 0
Unlisted kv execs pid =
    (eid : String) (e : Execution)
    → load_obj kv execs eid ≡ ok e
    → occurs pid e.process_instance_id ≡ 0

pub ok-injective : {A : Type 0} {x y : A} → ok x ≡ ok y → x ≡ y
ok-injective {A} {x} h = ap (λ r. elim r [ ok z ↦ z | _ ↦ x ]) h

-- A read after a write, by the keys.
pub chosen :
    {V : Type 0} (k j : String) (u : Outcome V) (old : Outcome V) {v : V}
    → (if k == j then u else old) ≡ ok v
    → ((k ≡ j) × (u ≡ ok v)) ⊎ (((k == j) ≡ false) × (old ≡ ok v))
chosen k j u old h = elim (Bool-cases (k == j)) [
  | inl y ↦ inl (ground (arith, eq_iff k j, y), ground (arith, y, h))
  | inr n ↦ inr (n, ground (arith, n, h))
]

remove-le : (x id : String) (ids : List String) → occurs x (remove ids id) ≤ occurs x ids
unfolding remove
remove-le x id [] = omega arith
remove-le x id (v ∷ ids) = ground (arith, remove-le x id ids)

module _ (kv : KeyValue) (doc : Documented kv) where
  -- The bucket of executions only lost an entry.
  pub Linked-delete :
      (execs execs' : kv.Bucket Execution) (pis : kv.Bucket ProcessInstance) (eid : String)
      → kv.delete execs eid ≡ ok execs'
      → Linked kv execs pis
      → Linked kv execs' pis
  Linked-delete execs execs' pis eid d l = record {
    recorded = λ i e pid h o. l.recorded i e pid (still i e h) o;
    once = λ i e pid h. l.once i e pid (still i e h);
  }
    where
      still :
          (i : String) (e : Execution) → load_obj kv execs' i ≡ ok e → load_obj kv execs i ≡ ok e
      still i e h =
          elim (chosen eid i (err key_not_found) (load_obj kv execs i)
            (sym (doc.load-delete execs execs' eid i d) ∙ h)) [
              | inl (same, gone) ↦ absurd (ground (arith, gone))
              | inr (other, at) ↦ at
            ]

  pub Unlisted-delete :
      (execs execs' : kv.Bucket Execution) (eid pid : String)
      → kv.delete execs eid ≡ ok execs'
      → Unlisted kv execs pid
      → Unlisted kv execs' pid
  Unlisted-delete execs execs' eid pid d l i e h =
      elim (chosen eid i (err key_not_found) (load_obj kv execs i)
        (sym (doc.load-delete execs execs' eid i d) ∙ h)) [
          | inl (same, gone) ↦ absurd (ground (arith, gone))
          | inr (other, at) ↦ l i e at
        ]

  -- A process instance that no execution lists may go.
  pub Linked-Unlisted :
      (execs : kv.Bucket Execution) (pis pis' : kv.Bucket ProcessInstance) (pid : String)
      → kv.delete pis pid ≡ ok pis'
      → Unlisted kv execs pid
      → Linked kv execs pis
      → Linked kv execs pis'
  Linked-Unlisted execs pis pis' pid d u l = record {
    recorded = λ eid e x h o.
        let (pi, at, own) = l.recorded eid e x h o in
        elim (Bool-cases (pid == x)) [
          | inl y ↦
              let same : pid ≡ x = ground (arith, eq_iff pid x, y) in
              let none_left = u eid e h in
              absurd (
                omega
                  (arith, none_left, subst (λ z. 0 < occurs z e.process_instance_id) (sym same) o))
          | inr n ↦ (pi, doc.load-delete pis pis' pid x d ∙ rw n at, own)
        ];
    once = l.once;
  }

  -- The update that takes a process instance off its execution.
  module _ (execs execs' : kv.Bucket Execution) (pis : kv.Bucket ProcessInstance) (eid pid : String)
      {u : Execution}
      (up : Updated kv execs eid no_execution (λ e. ok (drop_instance pid e)) execs' u) where
    before :
        (i : String) (e : Execution)
        → load_obj kv execs' i ≡ ok e
        → ((eid ≡ i) × (e ≡ drop_instance pid up.value)) ⊎ (load_obj kv execs i ≡ ok e)
    before i e h = elim (chosen eid i (ok u) (load_obj kv execs i) (sym (up.written i) ∙ h)) [
      | inl (same, at) ↦ inl (same, sym (ok-injective (up.applied ∙ at)))
      | inr (other, at) ↦ inr at
    ]

    started-occurs :
        (x : String)
        → (load_obj kv execs eid ≡ ok up.value) ⊎ (occurs x up.value.process_instance_id ≡ 0)
    started-occurs x = elim up.started [
      | inl at ↦ inl at
      | inr (missing, e) ↦ inr (ap (λ y. occurs x y.process_instance_id) e)
    ]

    pub Linked-drop : Linked kv execs pis → Linked kv execs' pis
    Linked-drop l = record {
      recorded = λ i e x h o. elim (before i e h) [
        | inr at ↦ l.recorded i e x at o
        | inl (same, is) ↦
            let o' : 0 < occurs x (drop_instance pid up.value).process_instance_id =
              subst (λ y. 0 < occurs x y.process_instance_id) is o in
            let le = remove-le x pid up.value.process_instance_id in
            elim (started-occurs x) [
              | inl at ↦
                  let (pi, stored, own) = l.recorded eid up.value x at (omega (arith, o', le)) in
                  (pi, stored, own ∙ same)
              | inr z ↦ absurd (omega (arith, o', le, z))
            ]
      ];
      once = λ i e x h. elim (before i e h) [
        | inr at ↦ l.once i e x at
        | inl (same, is) ↦
            subst (λ y. occurs x y.process_instance_id ≤ 1) (sym is)
              (elim (started-occurs x) [
                | inl at ↦
                    omega (
                      arith,
                      l.once eid up.value x at,
                      remove-le x pid up.value.process_instance_id,
                    )
                | inr z ↦ omega (arith, z, remove-le x pid up.value.process_instance_id)
              ])
      ];
    }

    -- The process instance belongs to the execution, if it is stored at all.
    pub Unlisted-drop :
        Linked kv execs pis
        → ((pi : ProcessInstance) → load_obj kv pis pid ≡ ok pi → pi.execution_id ≡ eid)
        → Unlisted kv execs' pid
    Unlisted-drop l belongs i e h = elim (before i e h) [
      | inl (same, is) ↦
          subst (λ y. occurs pid y.process_instance_id ≡ 0) (sym is)
            (elim (started-occurs pid) [
              | inl at ↦
                  occurs-remove_once pid up.value.process_instance_id (l.once eid up.value pid at)
              | inr z ↦ omega (arith, z, remove-le pid pid up.value.process_instance_id)
            ])
      | inr at ↦ elim (Bool-cases (ltb 0 (occurs pid e.process_instance_id))) [
        | inr zero_times ↦ ground (arith, zero_times)
        | inl more ↦
            let (pi, stored, own) = l.recorded i e pid at (ground (arith, more)) in
            let same : eid ≡ i = sym (belongs pi stored) ∙ own in
            let after : load_obj kv execs' eid ≡ ok u = up.written eid ∙ rw (eq_refl eid) in
            let is : e ≡ u = ok-injective (sym h ∙ ap (load_obj kv execs') (sym same) ∙ after) in
            let is' : u ≡ drop_instance pid up.value = sym (ok-injective up.applied) in
            subst (λ y. occurs pid y.process_instance_id ≡ 0) (sym (is ∙ is'))
              (elim (started-occurs pid) [
                | inl at' ↦
                    occurs-remove_once pid up.value.process_instance_id
                      (l.once eid up.value pid at')
                | inr z ↦ omega (arith, z, remove-le pid pid up.value.process_instance_id)
              ])
      ]
    ]
