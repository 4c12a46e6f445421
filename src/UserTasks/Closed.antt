-- ===== src/UserTasks/Closed.antt =====
-- closeUserTask of internal/server/workflow/operations.go: what the lists of the owners hold after it.
use shar.Prelude.{
  ℕ, suc, ◌≤◌, ◌≡◌, ◌≢◌, refl, sym, ap, subst, ◌∙◌, String, Bool, true, false, List, [], ◌∷◌, ◌++◌,
  ◌==◌, eq_iff, arith, if◌then◌else◌, Bool-cases, inl, inr,
}
use shar.Errors.{Err, Outcome, ok, err, panic}
use shar.Errors.Exec.{lift, exec_bind-ok, lift-ok}
use shar.Nats.{KeyValue, Documented, load_obj}
use shar.Model.{WorkflowState}
use shar.UserTasks.{remove, Lists, update_tasks, close_each, close_user_task}
use shar.UserTasks.Opened.{update_tasks-kept}

-- How often an item stands in a list.
abbrev pub occurs : String → List String → ℕ
occurs x [] = 0
occurs x (y ∷ ys) = if y == x then suc (occurs x ys) else occurs x ys

pub occurs-remove_other :
    (x id : String) (ids : List String)
    → (id == x) ≡ false
    → occurs x (remove ids id) ≡ occurs x ids
unfolding remove
occurs-remove_other x id [] h = refl
occurs-remove_other x id (v ∷ ids) h =
    ground (arith, h, occurs-remove_other x id ids h, eq_iff v x, eq_iff v id, eq_iff id x)

pub occurs-remove_once :
    (id : String) (ids : List String) → occurs id ids ≤ 1 → occurs id (remove ids id) ≡ 0
unfolding remove
occurs-remove_once id [] h = refl
occurs-remove_once id (v ∷ ids) h = ground (arith, h, occurs-remove_once id ids)

abbrev pub listed : String → List String → Bool
listed j [] = false
listed j (i ∷ is) = if i == j then true else listed j is

-- The tasks of an owner before and after a task was closed: if the owner was listed, the task is gone
-- and no other one is.
pub record Left (id : String) (was_listed : Bool) (ids rest : List String) : Type 0 where
  pub others : (x : String) → (id == x) ≡ false → occurs x rest ≡ occurs x ids
  pub gone : was_listed ≡ true → occurs id rest ≡ 0
  pub same : was_listed ≡ false → rest ≡ ids

-- One owner of the loop, before the others.
abbrev step_ids : Bool → String → List String → List String
step_ids c id ids = if c then remove ids id else ids

step_ids-le :
    (c : Bool) (id : String) (ids : List String)
    → occurs id ids ≤ 1
    → occurs id (step_ids c id ids) ≤ 1
step_ids-le true id ids h = ground (arith, occurs-remove_once id ids h)
step_ids-le false id ids h = h

Left-step :
    (c later : Bool) (id : String) (ids rest : List String)
    → occurs id ids ≤ 1
    → Left id later (step_ids c id ids) rest
    → Left id (if c then true else later) ids rest
Left-step false later id ids rest h l = l
Left-step true later id ids rest h l = record {
  others = λ x n. l.others x n ∙ occurs-remove_other x id ids n;
  gone = λ t. elim (Bool-cases later) [
    | inl e ↦ l.gone e
    | inr e ↦ ap (occurs id) (l.same e) ∙ occurs-remove_once id ids h
  ];
  same = λ t. absurd (ground arith);
}

module _ (kv : KeyValue) (doc : Documented kv) where
  -- An error that was kept is returned.
  close_each-err :
      (id : String) (owners : List String) (e : Err) (b b' : Lists kv)
      → close_each kv id owners (err e) b ≢ (ok tt, b')
  unfolding close_each
  close_each-err id [] e b b' h = absurd (ground arith)
  close_each-err id (i ∷ owners) e b b' h =
      go (λ x c. close_each-err id owners x c b') (update_tasks kv i (λ ids. remove ids id) b) h
    where
      go :
          ((x : Err) (c : Lists kv) → close_each kv id owners (err x) c ≢ (ok tt, b'))
          → (r : Outcome (Unit {0}) × Lists kv)
          → elim r.0 [
            | ok t ↦ close_each kv id owners (err e) r.1
            | err e' ↦ close_each kv id owners (err e') r.1
            | panic ↦ (panic, r.1)
          ]
            ≢ (ok tt, b')
      go ih (ok t, c) h = ih e c h
      go ih (err x, c) h = ih x c h
      go ih (panic, c) h = absurd (ground arith)

  close_each-Left :
      (id j : String) (owners : List String) (b b' : Lists kv) (ids : List String)
      → occurs id ids ≤ 1
      → load_obj kv b j ≡ ok ids
      → close_each kv id owners (ok tt) b ≡ (ok tt, b')
      → (rest : List String) × (load_obj kv b' j ≡ ok rest) × Left id (listed j owners) ids rest
  unfolding close_each
  close_each-Left id j [] b b' ids o l h =
      let same : b ≡ b' = ap (λ x. x.1) h in
      (
        ids,
        subst (λ x. load_obj kv x j ≡ ok ids) same l,
        record { others = λ x n. refl; gone = λ t. absurd (ground arith); same = λ t. refl },
      )
  close_each-Left id j (i ∷ owners) b b' ids o l h =
      go
        (λ c.
          close_each-Left id j owners c b' (step_ids (i == j) id ids)
            (step_ids-le (i == j) id ids o))
        (update_tasks kv i (λ x. remove x id) b) refl h
    where
      go :
          ((c : Lists kv)
            → load_obj kv c j ≡ ok (step_ids (i == j) id ids)
            → close_each kv id owners (ok tt) c ≡ (ok tt, b')
            → (rest : List String) × (load_obj kv b' j ≡ ok rest)
              × Left id (listed j owners) (step_ids (i == j) id ids) rest)
          → (r : Outcome (Unit {0}) × Lists kv) → update_tasks kv i (λ x. remove x id) b ≡ r
          → elim r.0 [
            | ok t ↦ close_each kv id owners (ok tt) r.1
            | err e' ↦ close_each kv id owners (err e') r.1
            | panic ↦ (panic, r.1)
          ]
            ≡ (ok tt, b')
          → (rest : List String) × (load_obj kv b' j ≡ ok rest)
            × Left id (listed j (i ∷ owners)) ids rest
      go ih (ok t, c) e g =
          let kept = update_tasks-kept kv doc i j (λ x. remove x id) b c ids e l in
          let (rest, at, left) = ih c kept g in
          (rest, at, Left-step (i == j) (listed j owners) id ids rest o left)
      go ih (err e', c) e g = absurd (close_each-err id owners e' c b' g)
      go ih (panic, c) e g = absurd (ground arith)

  -- When a user task is closed without an error, its job was found, and for every owner with a stored list of tasks that holds the task once at most: if the owner is among the job's owners or groups, the stored list then does not hold the task and holds every other task as often as before, and otherwise the list is as it was.
  pub close_user_task-Left :
      (kvs_for : Outcome (Unit {0})) (jobs : kv.Bucket WorkflowState) (id j : String)
      (b b' : Lists kv) (ids : List String)
      → occurs id ids ≤ 1
      → load_obj kv b j ≡ ok ids
      → close_user_task kv kvs_for jobs id b ≡ (ok tt, b')
      → (job : WorkflowState) × (load_obj kv jobs id ≡ ok job)
        × (rest : List String) × (load_obj kv b' j ≡ ok rest)
        × Left id (listed j (job.owners ++ job.groups)) ids rest
  unfolding close_user_task
  close_user_task-Left kvs_for jobs id j b b' ids o l h =
      let (t, b1, p, h1) = exec_bind-ok (lift kvs_for) _ b h in
      let (job, b2, q, h2) = exec_bind-ok (lift (load_obj kv jobs id)) _ b1 h1 in
      let same : b2 ≡ b = (lift-ok (load_obj kv jobs id) b1 q).1 ∙ (lift-ok kvs_for b p).1 in
      let (rest, at, left) =
        close_each-Left id j (job.owners ++ job.groups) b b' ids o l
          (ap (close_each kv id (job.owners ++ job.groups) (ok tt)) (sym same) ∙ h2) in
      (job, (lift-ok (load_obj kv jobs id) b1 q).0, rest, at, left)
