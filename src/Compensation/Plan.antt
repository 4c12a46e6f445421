-- ===== src/Compensation/Plan.antt =====
-- Compensate of internal/server/workflow/compensation.go: what the plan is.
use shar.Prelude.{
  ◌≤◌, ◌≡◌, ◌≢◌, refl, sym, ap, subst, Bool, true, false, Option, none, some, List, [], ◌∷◌, length,
  arith, leb, if◌then◌else◌, Bool-cases, inl, inr,
}
use shar.Prelude.Maps.{Map, lookup, is_some}
use shar.Errors.{Outcome, ok, err, panic, bind-eq-ok, key_not_found}
use shar.Nats.{KeyValue}
use shar.Tracking
use shar.Model.{Element, ProcessHistoryEntry, activity_complete}
use shar.Server.{history_key}
use shar.Traversal.Select.{present}
use shar.Compensation.{
  Step, PlanMessage, is_job_execute, unless_missing, step_of, can_compensate, compensable,
  collect_steps, insert_step, sort_steps, number_from, compensation_plan,
}

-- The same steps in another order.
pub data Rearranged : List Step → List Step → Type 0 where
  nothing : Rearranged [] []
  keep : (s : Step) {l m : List Step} → Rearranged l m → Rearranged (s ∷ l) (s ∷ m)
  exchange : (s t : Step) (l : List Step) → Rearranged (s ∷ t ∷ l) (t ∷ s ∷ l)
  both : {l m n : List Step} → Rearranged l m → Rearranged m n → Rearranged l n

unchanged : (l : List Step) → Rearranged l l
unchanged [] = nothing
unchanged (s ∷ l) = keep s (unchanged l)

-- No step is older than the one after it.
abbrev pub Newest : List Step → Type 0
Newest [] = Unit
Newest (s ∷ []) = Unit
Newest (s ∷ t ∷ ts) = (t.unix_time ≤ s.unix_time) × Newest (t ∷ ts)

insert_step-cons :
    (s t : Step) (ts : List Step) → t.unix_time ≤ s.unix_time → insert_step s (t ∷ ts) ≡ s ∷ t ∷ ts
unfolding insert_step
insert_step-cons s t ts h = ground (arith, h)

-- What is inserted below a newer step stays below it.
insert_step-below :
    (n s : Step) (l : List Step)
    → s.unix_time ≤ n.unix_time
    → Newest (n ∷ l)
    → Newest l
    → Newest (insert_step s l)
    → Newest (n ∷ insert_step s l)
unfolding insert_step
insert_step-below n s [] h a b c = (h, tt)
insert_step-below n s (t ∷ ts) h a b c = go (leb t.unix_time s.unix_time) c
  where
    go :
        (x : Bool)
        → Newest (if x then s ∷ t ∷ ts else t ∷ insert_step s ts)
        → Newest (n ∷ (if x then s ∷ t ∷ ts else t ∷ insert_step s ts))
    go true c = (h, c)
    go false c = (a.0, c)

insert_step-Newest : (s : Step) (l : List Step) → Newest l → Newest (insert_step s l)
unfolding insert_step
insert_step-Newest s [] h = tt
insert_step-Newest s (t ∷ ts) h = elim (Bool-cases (leb t.unix_time s.unix_time)) [
  | inl e ↦ rw e (ground (arith, e), h)
  | inr e ↦ rw e (
      insert_step-below t s ts (ground (arith, e)) h (tail t ts h)
        (insert_step-Newest s ts (tail t ts h)))
]
  where
    tail : (t : Step) (l : List Step) → Newest (t ∷ l) → Newest l
    tail t [] h = tt
    tail t (u ∷ l) h = h.1

sort_steps-Newest : (l : List Step) → Newest (sort_steps l)
unfolding sort_steps
sort_steps-Newest [] = tt
sort_steps-Newest (s ∷ ss) = insert_step-Newest s (sort_steps ss) (sort_steps-Newest ss)

insert_step-Rearranged : (s : Step) (l : List Step) → Rearranged (insert_step s l) (s ∷ l)
unfolding insert_step
insert_step-Rearranged s [] = unchanged (s ∷ [])
insert_step-Rearranged s (t ∷ ts) = go (leb t.unix_time s.unix_time) (insert_step-Rearranged s ts)
  where
    go :
        (x : Bool)
        → Rearranged (insert_step s ts) (s ∷ ts)
        → Rearranged (if x then s ∷ t ∷ ts else t ∷ insert_step s ts) (s ∷ t ∷ ts)
    go true ih = unchanged (s ∷ t ∷ ts)
    go false ih = both (keep t ih) (exchange t s ts)

sort_steps-Rearranged : (l : List Step) → Rearranged (sort_steps l) l
unfolding sort_steps
sort_steps-Rearranged [] = nothing
sort_steps-Rearranged (s ∷ ss) =
    both (insert_step-Rearranged s (sort_steps ss)) (keep s (sort_steps-Rearranged ss))

module _ (kv : KeyValue) (wf_history : kv.Bucket ProcessHistoryEntry) (els : Map Element) where
  -- An execution of a job, which is not itself a compensation, of an element with a compensation, whose
  -- activity is not missing from the completed ones.
  pub record IsCompensable (entry : ProcessHistoryEntry) : Type 0 where
    pub forward : entry.compensating ≡ false
    pub executed : is_job_execute entry.item_type ≡ true
    pub element : Element
    pub located : lookup entry.element_id els ≡ some element
    pub handler : is_some element.compensate_with ≡ true
    pub finished :
        kv.get wf_history
          (history_key entry.process_instance_id (Tracking.parent_id entry.id) activity_complete)
        ≢ err key_not_found

  unless_missing-true :
      {V : Type 0} (r : Outcome V) → unless_missing r ≡ ok true → r ≢ err key_not_found
  unless_missing-true (ok e) h g = absurd (ground arith)
  unless_missing-true (err key_not_found) h g = absurd (ground arith)
  unless_missing-true (err e) h g = absurd (ground (arith, g))
  unless_missing-true panic h g = absurd (ground arith)

  present-some : (o : Option Element) {el : Element} → present o ≡ ok el → o ≡ some el
  present-some none h = absurd (ground arith)
  present-some (some x) h = ground arith

  compensable-IsCompensable :
      (entry : ProcessHistoryEntry)
      → compensable kv wf_history els entry ≡ ok true
      → IsCompensable entry
  unfolding compensable
  compensable-IsCompensable entry h =
      go entry.compensating (is_job_execute entry.item_type) refl refl h
    where
      go :
          (c j : Bool)
          → entry.compensating ≡ c
          → is_job_execute entry.item_type ≡ j
          → can_compensate kv wf_history els entry c j ≡ ok true
          → IsCompensable entry
      go true j e f g = absurd (ground arith)
      go false false e f g = absurd (ground arith)
      go false true e f g =
          let (el, at, g1) = bind-eq-ok (present (lookup entry.element_id els)) _ g in
          elim (Bool-cases (is_some el.compensate_with)) [
            | inl t ↦ record {
              forward = e;
              executed = f;
              element = el;
              located = present-some (lookup entry.element_id els) at;
              handler = t;
              finished = unless_missing-true _ (rw t at g1);
            }
            | inr n ↦ absurd (ground arith)
          ]

  unless_missing-false :
      {V : Type 0} (r : Outcome V) → unless_missing r ≡ ok false → r ≡ err key_not_found
  unless_missing-false (ok e) h = absurd (ground arith)
  unless_missing-false (err key_not_found) h = refl
  unless_missing-false (err e) h = absurd (ground arith)
  unless_missing-false panic h = absurd (ground arith)

  compensable-false :
      (entry : ProcessHistoryEntry)
      → compensable kv wf_history els entry ≡ ok false
      → IsCompensable entry
      → ⊥
  unfolding compensable
  compensable-false entry h i =
      i.finished (unless_missing-false _ (rw (i.forward, i.executed, i.located, i.handler) at h))

  -- The steps are those of the compensable entries, in the order of the history.
  pub data Chosen : List ProcessHistoryEntry → List Step → Type 0 where
    none_left : Chosen [] []
    take :
        {entry : ProcessHistoryEntry} {entries : List ProcessHistoryEntry} {steps : List Step}
        → IsCompensable entry
        → Chosen entries steps
        → Chosen (entry ∷ entries) (step_of entry ∷ steps)
    leave :
        {entry : ProcessHistoryEntry} {entries : List ProcessHistoryEntry} {steps : List Step}
        → (IsCompensable entry → ⊥)
        → Chosen entries steps
        → Chosen (entry ∷ entries) steps

  collect_steps-Chosen :
      (entries : List ProcessHistoryEntry) {steps : List Step}
      → collect_steps kv wf_history els entries ≡ ok steps
      → Chosen entries steps
  unfolding collect_steps
  collect_steps-Chosen [] {steps} h =
      let e : [] ≡ steps = ap (λ x. elim x [ ok l ↦ l | _ ↦ [] ]) h in
      subst (λ x. Chosen [] x) e none_left
  collect_steps-Chosen (entry ∷ entries) {steps} h =
      let (b, e, h1) = bind-eq-ok (compensable kv wf_history els entry) _ h in
      let (rest, f, h2) = bind-eq-ok (collect_steps kv wf_history els entries) _ h1 in
      kept b e rest h2 (collect_steps-Chosen entries f)
    where
      kept :
          (b : Bool)
          → compensable kv wf_history els entry ≡ ok b
          → (rest : List Step) → ok (if b then step_of entry ∷ rest else rest) ≡ ok steps
          → Chosen entries rest
          → Chosen (entry ∷ entries) steps
      kept true e rest h c =
          let q : step_of entry ∷ rest ≡ steps =
            ap (λ x. elim x [ ok l ↦ l | _ ↦ step_of entry ∷ rest ]) h in
          subst (λ x. Chosen (entry ∷ entries) x) q (take (compensable-IsCompensable entry e) c)
      kept false e rest h c =
          let q : rest ≡ steps = ap (λ x. elim x [ ok l ↦ l | _ ↦ rest ]) h in
          subst (λ x. Chosen (entry ∷ entries) x) q (leave (compensable-false entry e) c)

  -- What a plan is made of: the chosen steps, newest first, and the messages that number them.
  pub record Planned (entries : List ProcessHistoryEntry) (plan : List PlanMessage) : Type 0 where
    pub steps : List Step
    pub chosen : Chosen entries steps
    pub ordered : List Step
    pub same : Rearranged ordered steps
    pub newest : Newest ordered
    pub messages : plan ≡ number_from 0 (length ordered) ordered

  -- The plan of a compensation has one message for each entry of the history that records the execution of a job, is not itself a compensation, belongs to an element with a compensation, and whose activity is not missing from the completed ones, and for no other entry; the messages run from the newest entry to the oldest and are numbered from zero, each with the number of all.
  pub compensation_plan-Planned :
      (entries : List ProcessHistoryEntry) {plan : List PlanMessage}
      → compensation_plan kv wf_history els entries ≡ ok plan
      → Planned entries plan
  unfolding compensation_plan
  compensation_plan-Planned entries {plan} h =
      let (steps, e, h1) = bind-eq-ok (collect_steps kv wf_history els entries) _ h in
      record {
        steps = steps;
        chosen = collect_steps-Chosen entries e;
        ordered = sort_steps steps;
        same = sort_steps-Rearranged steps;
        newest = sort_steps-Newest steps;
        messages = sym (ap (λ x. elim x [ ok l ↦ l | _ ↦ plan ]) h1);
      }
