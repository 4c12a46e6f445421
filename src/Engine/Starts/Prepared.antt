-- ===== src/Engine/Starts/Prepared.antt =====
-- startJob of internal/server/workflow/operations.go: what comes before the job is published.
use shar.Prelude.{
  ℕ, ◌≤◌, ◌≡◌, refl, sym, ap, ◌∙◌, subst, String, Bool, true, false, Option, none, some, List, [],
  ◌∷◌, ◌==◌, eq_iff, eq_refl, Bool-cases, inl, inr, arith, if◌then◌else◌,
}
use shar.Prelude.Maps.{Map}
use shar.Errors.{Outcome, ok, err, panic, fatal, make_fatal, ◌>>=◌ as and_then}
use shar.Errors.Exec.{
  Exec, pure, lift, query, on_err, on_err-ok, exec_bind-ok, committed-ok, lift-ok, handle, continue,
  ◌>>=◌, ◌>>◌,
}
use shar.Tracking
use shar.Task.{TaskSpec, TaskBehaviour}
use shar.Nats.{Documented, load_obj}
use shar.Model.{Bytes, Element, WorkflowState}
use shar.Vars.{Codec, Expr, Value, decode}
use shar.Server.{Libraries, World, kvs_for}
use shar.Server.Reads.{read-ok}
use shar.Traversal.Select.{present}
use shar.Traversal.Sent.{present-ok}
use shar.Traversal.Send.{fresh_id}
use shar.Engine.Owners.{
  boxed, names_of, named, put_owner_id, put_owner_name, found_owner, owner_id, owner_ids,
  evaluate_owners,
}
use shar.Engine.Starts.{
  mocked, save_job, create_job, get_task_spec_by_uid, is_mock, with_owners, owned_if, mock_if,
}

module _ (lib : Libraries) where
  -- No message went out, and the identifiers that were handed out are not handed out again.
  abbrev pub Quiet : World lib → World lib → Type 0
  Quiet w w' = (w'.stream ≡ w.stream) × (w.next_id ≤ w'.next_id)

  Quiet-trans : (a b c : World lib) → Quiet a b → Quiet b c → Quiet a c
  Quiet-trans a b c p q = (q.0 ∙ p.0, omega (arith, p.1, q.1))

  Quiet-same : (a b : World lib) → b ≡ a → Quiet a b
  Quiet-same a b e =
      (ap (λ x. x.stream) e, subst (λ x. a.next_id ≤ x.next_id) (sym e) (omega arith))

  -- The job is stored under the identifier that it got.
  pub create_job-Stored :
      (doc : Documented lib.kv) (job : WorkflowState) (w : World lib) {job' : WorkflowState}
      {w' : World lib}
      → create_job lib job w ≡ (ok job', w')
      → (tid : String) × (job' ≡ record job { id = Tracking.push job.id tid })
        × (load_obj lib.kv w'.job tid ≡ ok job')
        × (w'.stream ≡ w.stream)
        × (tid ≡ lib.ksuid w.next_id)
  unfolding create_job fresh_id save_job
  create_job-Stored doc job w {job'} {w'} h =
      let stored = λ (tid : String). record job { id = Tracking.push job.id tid } in
      let save = λ (tid : String). save_job lib tid (stored tid) >> pure (stored tid) in
      let (t, w1, p1, h1) = exec_bind-ok (kvs_for lib) (λ t. fresh_id lib >>= save) w h in
      let (tid, w2, p2, h2) = exec_bind-ok (fresh_id lib) save w1 h1 in
      let (t3, w3, p3, h3) =
        exec_bind-ok (save_job lib tid (stored tid)) (λ t. pure (stored tid)) w2 h2 in
      let (b, put, e, f) =
        committed-ok w2 (λ b. record w2 { job = b }) (λ b. tt) (lib.kv.put w2.job tid (stored tid))
          p3 in
      let same : stored tid ≡ job' = ap (λ r. elim r.0 [ ok x ↦ x | _ ↦ stored tid ]) h3 in
      let end : w' ≡ w3 = sym (ap (λ r. r.1) h3) in
      (
        tid,
        sym same,
        ap (λ x. load_obj lib.kv x.job tid) (end ∙ e)
            ∙ doc.load-put w2.job b tid tid (stored tid) put
            ∙ ap (λ b. if b then ok (stored tid) else load_obj lib.kv w2.job tid) (eq_refl tid)
            ∙ ap ok same,
        ap (λ x. x.stream) (end ∙ e)
            ∙ ap (λ r. r.1.stream) (sym p2)
            ∙ ap (λ x. x.stream) (lift-ok lib.kvs_for w p1).1,
        ap (λ r. elim r.0 [ ok x ↦ x | _ ↦ tid ]) (sym p2)
            ∙ ap (λ x. lib.ksuid x.next_id) (lift-ok lib.kvs_for w p1).1,
      )

  -- A service task is a mock where the behaviour of its specification says so.
  pub data Mocks (w : World lib) (el : Element) : Bool → Type 0 where
    no_service : (el.kind == "serviceTask") ≡ false → Mocks w el false
    unspecified :
        (version : String) (spec : TaskSpec)
        → el.kind ≡ "serviceTask"
        → el.version ≡ some version
        → load_obj lib.kv w.wf_task_spec version ≡ ok spec
        → spec.behaviour ≡ none
        → Mocks w el false
    specified :
        (version : String) (spec : TaskSpec) (behaviour : TaskBehaviour)
        → el.kind ≡ "serviceTask"
        → el.version ≡ some version
        → load_obj lib.kv w.wf_task_spec version ≡ ok spec
        → spec.behaviour ≡ some behaviour
        → Mocks w el behaviour.mock

  mocked-Mocks :
      (w : World lib) (el : Element) (version : String) (spec : TaskSpec)
      (behaviour : Option TaskBehaviour)
      → el.kind ≡ "serviceTask"
      → el.version ≡ some version
      → load_obj lib.kv w.wf_task_spec version ≡ ok spec
      → spec.behaviour ≡ behaviour
      → Mocks w el (mocked behaviour)
  mocked-Mocks w el version spec none kind at found b = unspecified version spec kind at found b
  mocked-Mocks w el version spec (some x) kind at found b = specified version spec x kind at found b

  is_mock-Mocks :
      (el : Element) (w : World lib) {b : Bool} {w' : World lib}
      → el.kind ≡ "serviceTask"
      → is_mock lib el w ≡ (ok b, w')
      → Mocks w el b × (w' ≡ w)
  unfolding get_task_spec_by_uid
  is_mock-Mocks el w {b} {w'} kind h =
      let (v, w1, p1, h1) = exec_bind-ok {S = World lib} (lift (present el.version)) _ w h in
      let (spec, w2, p2, h2) = exec_bind-ok (get_task_spec_by_uid lib v) _ w1 h1 in
      let (at, s1) = lift-ok (present el.version) w p1 in
      let (found, s2) = read-ok lib (λ x. load_obj lib.kv x.wf_task_spec v) w1 p2 in
      (
        subst (Mocks w el) (ap (λ r. elim r.0 [ ok x ↦ x | _ ↦ mocked spec.behaviour ]) h2) (
            mocked-Mocks w el v spec spec.behaviour kind (present-ok el.version at)
              (ap (λ x. load_obj lib.kv x.wf_task_spec v) (sym s1) ∙ found) refl),
        ap (λ r. r.1) (sym h2) ∙ s2 ∙ s1,
      )

  pub mock_if-Mocks :
      (codec : Codec) (expr : Expr) (strings : ℕ → Option (List String)) (el : Element)
      (w : World lib) {mock : Bool} {w' : World lib}
      → mock_if lib codec expr strings (el.kind == "serviceTask") el w ≡ (ok mock, w')
      → Mocks w el mock × (w' ≡ w)
  mock_if-Mocks codec expr strings el w {mock} {w'} h =
      let ask = λ (b : Bool). mock_if lib codec expr strings b el w in
      elim (Bool-cases (el.kind == "serviceTask")) [
        | inl t ↦ is_mock-Mocks el w ((eq_iff el.kind "serviceTask").0 t) (ap ask (sym t) ∙ h)
        | inr f ↦
            let plain : ask false ≡ (ok mock, w') = ap ask (sym f) ∙ h in
            (
              subst (Mocks w el) (ap (λ r. elim r.0 [ ok x ↦ x | _ ↦ false ]) plain) (no_service f),
              ap (λ r. r.1) (sym plain),
            )
      ]

  -- The owners of a task change no message.
  found_owner-Quiet :
      (name : String) (r : Outcome String) (w : World lib) → Quiet w (found_owner lib name r w).1
  unfolding fresh_id put_owner_id put_owner_name
  found_owner-Quiet name r w = ground arith

  bind-Quiet :
      {A B : Type 0} (m : Exec (World lib) A) (f : A → Exec (World lib) B)
      → ((w : World lib) → Quiet w (m w).1)
      → ((a : A) (w : World lib) → Quiet w (f a w).1)
      → (w : World lib) → Quiet w ((m >>= f) w).1
  bind-Quiet {A} {B} m f p q w = go (m w) (p w)
    where
      go : (r : Outcome A × World lib) → Quiet w r.1 → Quiet w (continue r.0 f r.1).1
      go (ok a, x) e = Quiet-trans w x (f a x).1 e (q a x)
      go (err y, x) e = e
      go (panic, x) e = e

  owner_id-Quiet : (name : String) (w : World lib) → Quiet w (owner_id lib name w).1
  unfolding owner_id
  owner_id-Quiet name w =
      let read = λ (x : World lib). load_obj lib.kv x.owner_id (named name) in
      bind-Quiet (kvs_for lib) (λ t. handle (query read) (found_owner lib (named name)))
        (λ x. (refl, omega arith)) (λ t x. found_owner-Quiet (named name) (read x) x) w

  owner_ids-Quiet : (names : List String) (w : World lib) → Quiet w (owner_ids lib names w).1
  unfolding owner_ids
  owner_ids-Quiet [] w = (refl, omega arith)
  owner_ids-Quiet (v ∷ vs) w =
      bind-Quiet (owner_id lib v) (λ id. owner_ids lib vs >>= λ ids. pure (id ∷ ids))
        (owner_id-Quiet v)
        (λ id x.
          bind-Quiet (owner_ids lib vs) (λ ids. pure (id ∷ ids)) (owner_ids-Quiet vs)
            (λ ids y. (refl, omega arith)) x)
        w

  module _ (codec : Codec) (expr : Expr) (strings : ℕ → Option (List String)) where
    owners-Quiet :
        (candidates : String) (vars : Map Value) (w : World lib) {names : List String}
        {w' : World lib}
        → on_err fatal (evaluate_owners lib expr strings candidates vars) w ≡ (ok names, w')
        → Quiet w w'
    unfolding evaluate_owners
    owners-Quiet candidates vars w h =
        let groups = make_fatal (and_then (expr.eval candidates vars) (boxed lib expr strings)) in
        subst (λ r. Quiet w r.1)
          (on_err-ok fatal (evaluate_owners lib expr strings candidates vars) w h)
          (bind-Quiet (lift groups) (λ v. owner_ids lib (names_of lib expr strings v))
            (λ x. (refl, omega arith)) (λ v x. owner_ids-Quiet (names_of lib expr strings v) x) w)

    -- The owners and groups are all that changes of the job.
    pub owned_if-Same :
        (b : Bool) (el : Element) (v : Bytes) (job : WorkflowState) (w : World lib)
        {job' : WorkflowState} {w' : World lib}
        → owned_if lib codec expr strings b el v job w ≡ (ok job', w')
        → (job' ≡ record job { owners = job'.owners; groups = job'.groups }) × Quiet w w'
    unfolding with_owners
    owned_if-Same false el v job w h = (
      let same : job ≡ _ = ap (λ r. elim r.0 [ ok x ↦ x | _ ↦ job ]) h in
          sym same ∙ ap (λ x. record job { owners = x.owners; groups = x.groups }) same,
      Quiet-same w _ (ap (λ r. r.1) (sym h)),
    )
    owned_if-Same true el v job w {job'} {w'} h =
        let next : List String → List String → Exec (World lib) WorkflowState =
          λ owners groups. pure (record job { owners = owners; groups = groups }) in
        let ask =
          λ (c : String) (vx : Map Value). on_err fatal (evaluate_owners lib expr strings c vx) in
        let (vx, w1, p1, h1) =
          exec_bind-ok {S = World lib} (lift (make_fatal (decode codec v)))
            (λ vx. ask el.candidates vx >>= λ owners. ask el.candidate_groups vx >>= next owners) w
            h in
        let (owners, w2, p2, h2) =
          exec_bind-ok (ask el.candidates vx) (λ owners. ask el.candidate_groups vx >>= next owners)
            w1 h1 in
        let (groups, w3, p3, h3) = exec_bind-ok (ask el.candidate_groups vx) (next owners) w2 h2 in
        let made = record job { owners = owners; groups = groups } in
        let same : made ≡ job' = ap (λ r. elim r.0 [ ok x ↦ x | _ ↦ made ]) h3 in
        (
          sym same ∙ ap (λ x. record job { owners = x.owners; groups = x.groups }) same,
          Quiet-trans w w1 w' (Quiet-same w w1 (lift-ok (make_fatal (decode codec v)) w p1).1) (
              Quiet-trans w1 w2 w' (owners-Quiet el.candidates vx w1 p2) (
                Quiet-trans w2 w3 w' (owners-Quiet el.candidate_groups vx w2 p3)
                  (Quiet-same w3 w' (ap (λ r. r.1) (sym h3))))),
        )
