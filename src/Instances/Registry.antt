-- ===== src/Instances/Registry.antt =====
-- The executions of internal/server/workflow/operations.go refine a registry, which knows of each
-- execution only the process instances that it lists.
use shar.Prelude.{
  suc, ◌≡◌, refl, sym, ap, ◌∙◌, String, Bool, true, false, Option, none, some, List, [], ◌∷◌, ◌++◌,
  ◌==◌, if◌then◌else◌,
}
use mathlib.Core.Path.{fun_ext}
use shar.Errors.{Outcome, ok, err, panic, workflow_not_found}
use shar.Errors.Exec.{Exec, pure, lift, handle, exec_bind-ok, committed-ok, lift-ok, ◌>>=◌, ◌>>◌}
use shar.Nats.{Documented, load_obj, save_obj}
use shar.Model.{Bytes, Execution, ProcessInstance, Workflow, WorkflowState}
use shar.UserTasks.{remove}
use shar.Server.{Libraries, World, kvs_for, not_found, get_workflow}
use shar.Server.Reads.{read-eq}
use shar.Traversal.Send.{fresh_id}
use shar.Instances.{
  is_empty, add_instance, drop_instance, save_execution, ensure_buckets, create_execution,
  create_process_instance, destroy_process_instance,
}
use shar.Instances.Ending.{left_execution}
use shar.Instances.Made.{create_process_instance-Stored}
use shar.Instances.Destroyed.{destroy_process_instance-Destroyed}

-- The abstract state: what an execution lists, if it is there.
abbrev pub Registry : Type 0
Registry = String → Option (List String)

abbrev pub set : String → Option (List String) → Registry → Registry
set k v r j = if k == j then v else r j

-- An execution that lists nothing after a process instance left it is gone.
abbrev pub remaining : List String → Option (List String)
remaining [] = none
remaining (x ∷ xs) = some (x ∷ xs)

-- The first occurrence of a process instance is gone.
abbrev pub without : String → List String → List String
without pid [] = []
without pid (x ∷ xs) = let rest = without pid xs in if x == pid then xs else x ∷ rest

-- What happens to a registry: an execution begins, a process instance joins one or leaves it.
pub data Event : Type 0 where
  opened : String → Event
  joined left : String → String → Event

abbrev pub adjusted :
    (List String → Option (List String)) → Option (List String) → Option (List String)
adjusted fn none = none
adjusted fn (some ids) = fn ids

abbrev pub apply : Event → Registry → Registry
apply (opened eid) r = set eid (some []) r
apply (joined eid pid) r = set eid (adjusted (λ ids. some (ids ++ pid ∷ [])) (r eid)) r
apply (left eid pid) r = set eid (adjusted (λ ids. remaining (without pid ids)) (r eid)) r

-- The events one after another.
unfoldable pub replay : List Event → Registry → Registry
replay [] r = r
replay (e ∷ es) r = replay es (apply e r)

remove-without : (pid : String) (ids : List String) → remove ids pid ≡ without pid ids
unfolding remove
remove-without pid [] = refl
remove-without pid (x ∷ xs) = ap (λ r. if x == pid then xs else x ∷ r) (remove-without pid xs)

abbrev pub listed_of : Outcome Execution → Option (List String)
listed_of (ok e) = some e.process_instance_id
listed_of (err e) = none
listed_of panic = none

-- A read of what was set, by the keys.
set-read :
    (c : Bool) (x y : Outcome Execution)
    → listed_of (if c then x else y) ≡ (if c then listed_of x else listed_of y)
set-read true x y = refl
set-read false x y = refl

left-remaining :
    (pid : String) (e : Execution) (ids : List String)
    → remove e.process_instance_id pid ≡ ids
    → listed_of (left_execution (is_empty ids) (drop_instance pid e)) ≡ remaining ids
left-remaining pid e [] h = refl
left-remaining pid e (x ∷ xs) h = ap some h

module _ (lib : Libraries) where
  abbrev pub registry : World lib → Registry
  registry w j = listed_of (load_obj lib.kv w.wf_execution j)

  -- A call that succeeds, and the event that it is: of the execution it returns, or of the process
  -- instance it returns or is asked to destroy.
  pub data Success (w w' : World lib) : Event → Type 0 where
    execution_created :
        (ensure_bucket : String → Outcome (Unit {0})) (execution : Execution) {e : Execution}
        → create_execution lib ensure_bucket execution w ≡ (ok e, w')
        → Success w w' (opened e.execution_id)
    instance_created :
        (eid parent parent_el process_id name workflow_id : String) (headers : Bytes)
        {pi : ProcessInstance}
        → create_process_instance lib eid parent parent_el process_id name workflow_id headers w
          ≡ (ok pi, w')
        → Success w w' (joined eid pi.process_instance_id)
    instance_destroyed :
        (state : WorkflowState) (pid eid : String) (e : Execution) {s : WorkflowState}
        → load_obj lib.kv w.wf_execution eid ≡ ok e
        → destroy_process_instance lib state pid eid w ≡ (ok s, w')
        → Success w w' (left eid pid)

  -- The runs that end in `u`, by the state they begin with and their events. What happens between the calls leaves the executions alone.
  pub data Run (u : World lib) : World lib → List Event → Type 0 where
    begun : Run u u []
    called :
        {e : Event} {es : List Event} {w v : World lib}
        → Success w v e
        → Run u v es
        → Run u w (e ∷ es)
    meanwhile :
        {es : List Event} {w v : World lib}
        → v.wf_execution ≡ w.wf_execution
        → Run u v es
        → Run u w es

  module _ (doc : Documented lib.kv) where
    create_execution-opened :
        (ensure_bucket : String → Outcome (Unit {0})) (execution : Execution) (w : World lib)
        {e : Execution} {w' : World lib}
        → create_execution lib ensure_bucket execution w ≡ (ok e, w')
        → (j : String) → registry w' j ≡ set e.execution_id (some []) (registry w) j
    unfolding create_execution fresh_id get_workflow save_execution save_obj
    create_execution-opened ensure_bucket execution w {e} {w'} h j =
        let id = lib.ksuid w.next_id in
        let made = record execution { execution_id = id; process_instance_id = [] } in
        let read = λ (x : World lib).
          not_found workflow_not_found (load_obj lib.kv x.wf execution.workflow_id) in
        let next = λ (found : Outcome Workflow).
          lift found >>= λ wf. lift (ensure_buckets lib ensure_bucket wf.messages) >> pure made in
        let rest : Outcome Workflow → Exec (World lib) Execution =
          λ found. save_execution lib id made >> next found in
        let w0 : World lib = record w { next_id = suc w.next_id } in
        let (t, w1, p1, h1) =
          exec_bind-ok (kvs_for lib) (λ t. handle (get_workflow lib execution.workflow_id) rest) w0
            h in
        let (k, here) = lift-ok lib.kvs_for w0 p1 in
        let h2 : rest (read w1) w1 ≡ (ok e, w') =
          ap (λ r. rest r.0 r.1) (sym (read-eq lib read k w1)) ∙ h1 in
        let (t2, w2, p2, h3) =
          exec_bind-ok (save_execution lib id made) (λ t. next (read w1)) w1 h2 in
        let (b, put, e2, f2) =
          committed-ok w1 (λ b. record w1 { wf_execution = b }) (λ b. tt)
            (lib.kv.put w1.wf_execution id made) p2 in
        let (wf, w3, p3, h4) =
          exec_bind-ok {S = World lib} (lift (read w1))
            (λ wf. lift (ensure_buckets lib ensure_bucket wf.messages) >> pure made) w2 h3 in
        let (t4, w4, p4, h5) =
          exec_bind-ok {S = World lib} (lift (ensure_buckets lib ensure_bucket wf.messages))
            (λ t. pure made) w3 h4 in
        let end : w' ≡ w2 =
          sym (ap (λ r. r.1) h5)
          ∙ (lift-ok (ensure_buckets lib ensure_bucket wf.messages) w3 p4).1
          ∙ (lift-ok (read w1) w2 p3).1 in
        ap (λ x. registry x j) (end ∙ e2)
        ∙ ap listed_of (doc.load-put w1.wf_execution b id j made put)
        ∙ set-read (id == j) (ok made) (load_obj lib.kv w1.wf_execution j)
        ∙ ap (λ x. set id (some []) (registry x) j) here
        ∙ ap (λ x. set x (some []) (registry w) j)
            (ap (λ r. elim r.0 [ ok x ↦ x.execution_id | _ ↦ id ]) h5)

    Success-apply :
        (w w' : World lib) {ev : Event} → Success w w' ev → registry w' ≡ apply ev (registry w)
    Success-apply w w' (execution_created ensure_bucket execution h) =
        fun_ext (create_execution-opened ensure_bucket execution w h)
    Success-apply w w'
          (instance_created eid parent parent_el process_id name workflow_id headers {pi} h) =
        let (new, of, stored, all, list) =
          create_process_instance-Stored lib doc process_id name workflow_id eid parent parent_el
            headers w h in
        let join = adjusted (λ ids. some (ids ++ pi.process_instance_id ∷ [])) in
        fun_ext λ j.
          ap listed_of (list.after j)
          ∙ set-read (eid == j) (ok (add_instance pi.process_instance_id list.e))
              (load_obj lib.kv w.wf_execution j)
          ∙ ap (λ x. if eid == j then join (listed_of x) else registry w j) (sym list.at)
    Success-apply w w' (instance_destroyed state pid eid e at h) =
        let done = destroy_process_instance-Destroyed lib doc state pid eid w e at h in
        let ids = remove e.process_instance_id pid in
        let leave = adjusted (λ ids. remaining (without pid ids)) in
        fun_ext λ j.
          ap listed_of (done.executions j)
          ∙ set-read (eid == j) (left_execution (is_empty ids) (drop_instance pid e))
              (load_obj lib.kv w.wf_execution j)
          ∙ ap (λ x. if eid == j then x else registry w j)
              (left-remaining pid e ids refl
                ∙ ap remaining (remove-without pid e.process_instance_id))
          ∙ ap (λ x. if eid == j then leave (listed_of x) else registry w j) (sym at)

    -- A series of calls that succeed, one after another, which create executions, create process instances or destroy process instances of stored executions, leaves every execution with the list that the replay of its events gives, where the event of a call names the execution or the process instance that the call returned or was asked to destroy: a new execution lists nothing; a new process instance is added at the end of the list of its execution; and a destroyed one is removed from the list, and the execution with it if nothing is left. What happens in between leaves the executions alone.
    pub Run-replay :
        {u w : World lib} {es : List Event} → Run u w es → registry u ≡ replay es (registry w)
    unfolding replay
    Run-replay begun = refl
    Run-replay (called {e} {es} {w} {v} call run) =
        Run-replay run ∙ ap (replay es) (Success-apply w v call)
    Run-replay (meanwhile {es} {w} {v} same run) =
        Run-replay run ∙ ap (λ b. replay es (λ j. listed_of (load_obj lib.kv b j))) same
