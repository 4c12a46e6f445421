-- ===== src/UserTasks/Opened.antt =====
-- openUserTask and GetUserTaskIDs of internal/server/workflow/operations.go: an update changes the
-- tasks of one owner.
use shar.Prelude.{
  ℕ, ◌≡◌, refl, sym, ap, subst, ◌∙◌, String, Bool, true, false, List, [], ◌∷◌, ◌++◌, ◌==◌, eq_iff,
  eq_refl, arith, if◌then◌else◌, Bool-cases, inl, inr,
}
use shar.Errors.{Outcome, ok, err, panic, ◌>>=◌, key_not_found, bind-eq-ok}
use shar.Errors.Exec.{query, continue, lift, committed-ok, exec_bind-ok, lift-ok}
use shar.Nats.{KeyValue, Documented, load_obj, save_obj, update_kv, ensure}
use shar.UserTasks.{
  Lists, ensure_tasks, change_tasks, update_tasks, open_user_task, get_user_task_ids,
}

ok-injective : {A : Type 0} {x y : A} → ok x ≡ ok y → x ≡ y
ok-injective {A} {x} h = ap (λ r. elim r [ ok z ↦ z | _ ↦ x ]) h

chosen :
    (c : Bool) (fn : List String → List String) {x y : List String}
    → c ≡ true
    → x ≡ y
    → (rest : Outcome (List String)) → (if c then ok (fn x) else rest) ≡ ok (if c then fn y else y)
chosen true fn t e rest = ap (λ x. ok (fn x)) e
chosen false fn t e rest = absurd (ground arith)

module _ (kv : KeyValue) (doc : Documented kv) where
  ensure-kept :
      (b b1 : Lists kv) (owner j : String) (ids : List String) (r : Outcome (List String × ℕ))
      → kv.get b owner ≡ r
      → ensure kv b owner [] r ≡ ok b1
      → load_obj kv b j ≡ ok ids
      → load_obj kv b1 j ≡ ok ids
  unfolding save_obj load_obj
  ensure-kept b b1 owner j ids (ok e) g h l =
      subst (λ x. load_obj kv x j ≡ ok ids) (ok-injective h) l
  ensure-kept b b1 owner j ids (err key_not_found) g h l = elim (Bool-cases (owner == j)) [
    | inl e ↦
        let same : owner ≡ j = ground (arith, eq_iff owner j, e) in
        let missing : load_obj kv b j ≡ err key_not_found =
          subst (λ x. load_obj kv b x ≡ err key_not_found) same (rw g) in
        absurd (ground (arith, missing, l))
    | inr n ↦ doc.load-put b b1 owner j [] h ∙ rw n l
  ]
  ensure-kept b b1 owner j ids (err e) g h l =
      subst (λ x. load_obj kv x j ≡ ok ids) (ok-injective h) l
  ensure-kept b b1 owner j ids panic g h l = absurd (ground arith)

  pub update_tasks-kept :
      (owner j : String) (fn : List String → List String) (b b' : Lists kv) (ids : List String)
      → update_tasks kv owner fn b ≡ (ok tt, b')
      → load_obj kv b j ≡ ok ids
      → load_obj kv b' j ≡ ok (if owner == j then fn ids else ids)
  unfolding load_obj update_kv
  update_tasks-kept owner j fn b b' ids h l =
      let (t, b1, p, h1) =
        exec_bind-ok (ensure_tasks kv owner) (λ _. change_tasks kv owner fn) b h in
      let (c, e, same, u) =
        committed-ok b (λ x. x) (λ x. tt) (ensure kv b owner [] (kv.get b owner)) p in
      let l1 = ensure-kept b c owner j ids (kv.get b owner) refl e l in
      let ((d, v), e1, same1, u1) =
        committed-ok b1 (λ r. r.0) (λ r. tt) (update_kv kv b1 owner (λ x. ok (fn x)) []) h1 in
      let l2 : load_obj kv b1 j ≡ ok ids = subst (λ x. load_obj kv x j ≡ ok ids) (sym same) l1 in
      let (entry, g, h2) = bind-eq-ok (kv.get b1 owner) _ e1 in
      let (d', up, h3) = bind-eq-ok (kv.update b1 owner (fn entry.0) entry.1) _ h2 in
      let q : d' ≡ b' = ap (λ x. x.0) (ok-injective h3) ∙ sym same1 in
      let w = doc.load-update b1 d' owner j (fn entry.0) entry.1 up in
      subst (λ x. load_obj kv x j ≡ ok (if owner == j then fn ids else ids)) q
        (elim (Bool-cases (owner == j)) [
          | inl y ↦
              let same2 : owner ≡ j = ground (arith, eq_iff owner j, y) in
              let r : load_obj kv b1 owner ≡ ok entry.0 = ap (λ x. x >>= λ e. ok e.0) g in
              let s : entry.0 ≡ ids = ok-injective (sym r ∙ ap (load_obj kv b1) same2 ∙ l2) in
              w ∙ chosen (owner == j) fn y s (load_obj kv b1 j)
          | inr n ↦ w ∙ rw (n, l2)
        ])

  -- A list that is not there yet is made empty before it is changed.
  update_tasks-new :
      (owner : String) (fn : List String → List String) (b b' : Lists kv)
      → kv.get b owner ≡ err key_not_found
      → update_tasks kv owner fn b ≡ (ok tt, b')
      → load_obj kv b' owner ≡ ok (fn [])
  unfolding load_obj update_kv save_obj
  update_tasks-new owner fn b b' g h =
      let (t, b1, p, h1) =
        exec_bind-ok (ensure_tasks kv owner) (λ _. change_tasks kv owner fn) b h in
      let (c, e, same, u) =
        committed-ok b (λ x. x) (λ x. tt) (ensure kv b owner [] (kv.get b owner)) p in
      let put : kv.put b owner [] ≡ ok c = ap (ensure kv b owner []) (sym g) ∙ e in
      let l : load_obj kv b1 owner ≡ ok [] =
        ap (λ x. load_obj kv x owner) same
        ∙ doc.load-put b c owner owner [] put
        ∙ rw (eq_refl owner) in
      let ((d, v), e1, same1, u1) =
        committed-ok b1 (λ r. r.0) (λ r. tt) (update_kv kv b1 owner (λ x. ok (fn x)) []) h1 in
      let (entry, at, h2) = bind-eq-ok (kv.get b1 owner) _ e1 in
      let (d', up, h3) = bind-eq-ok (kv.update b1 owner (fn entry.0) entry.1) _ h2 in
      let q : d' ≡ b' = ap (λ x. x.0) (ok-injective h3) ∙ sym same1 in
      let r : load_obj kv b1 owner ≡ ok entry.0 = ap (λ x. x >>= λ e. ok e.0) at in
      let s : entry.0 ≡ [] = ok-injective (sym r ∙ l) in
      let w : load_obj kv d' owner ≡ ok (fn entry.0) =
        doc.load-update b1 d' owner owner (fn entry.0) entry.1 up ∙ rw (eq_refl owner) in
      ap (λ x. load_obj kv x owner) (sym q) ∙ w ∙ ap (λ x. ok (fn x)) s

  -- The list of tasks that an owner has: an owner without one has no task.
  pub data Has (b : Lists kv) (owner : String) : List String → Type 0 where
    stored : {ids : List String} → load_obj kv b owner ≡ ok ids → Has b owner ids
    absent : kv.get b owner ≡ err key_not_found → Has b owner []

  -- When a user task is opened without an error for an owner who has a list of tasks or none yet, GetUserTaskIDs then gives the owner's tasks followed by the new one, without changing anything, and the stored list of every other owner is as it was.
  pub get_user_task_ids-open_user_task :
      (kvs_for : Outcome (Unit {0})) (owner id : String) (b b' : Lists kv) (ids : List String)
      → Has b owner ids
      → open_user_task kv kvs_for owner id b ≡ (ok tt, b')
      → (get_user_task_ids kv kvs_for owner b' ≡ (ok (ids ++ id ∷ []), b'))
        × ((j : String) (others : List String)
            → (owner == j) ≡ false
            → load_obj kv b j ≡ ok others
            → load_obj kv b' j ≡ ok others)
  unfolding open_user_task get_user_task_ids
  get_user_task_ids-open_user_task kvs_for owner id b b' ids has h =
      let (t, b1, p, h1) =
        exec_bind-ok (lift kvs_for) (λ _. update_tasks kv owner (λ x. x ++ id ∷ [])) b h in
      let (opened, same) = lift-ok kvs_for b p in
      let h2 : update_tasks kv owner (λ x. x ++ id ∷ []) b ≡ (ok tt, b') =
        ap (update_tasks kv owner (λ x. x ++ id ∷ [])) (sym same) ∙ h1 in
      (
        ap (λ r. continue r (λ _. query (λ x. load_obj kv x owner)) b') opened
            ∙ ap (λ r. (r, b')) (added has h2),
        λ j others n l. update_tasks-kept owner j (λ x. x ++ id ∷ []) b b' others h2 l ∙ rw n,
      )
    where
      added :
          {ids : List String}
          → Has b owner ids
          → update_tasks kv owner (λ x. x ++ id ∷ []) b ≡ (ok tt, b')
          → load_obj kv b' owner ≡ ok (ids ++ id ∷ [])
      added (stored l) h =
          update_tasks-kept owner owner (λ x. x ++ id ∷ []) b b' _ h l ∙ rw (eq_refl owner)
      added (absent g) h = update_tasks-new owner (λ x. x ++ id ∷ []) b b' g h
