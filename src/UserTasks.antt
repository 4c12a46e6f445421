-- ===== src/UserTasks.antt =====
-- openUserTask, closeUserTask and GetUserTaskIDs of internal/server/workflow/operations.go: the tasks
-- that wait for a user or a group, in the bucket WfUserTasks. The buckets are parameters, and the
-- updates are made without a move of another client, which Nats.Update is about.
pub mod Opened
pub mod Closed
use shar.Prelude.{String, ◌≡◌, Bool, true, false, List, [], ◌∷◌, ◌++◌, ◌==◌, if◌then◌else◌}
use shar.Errors.{Err, Outcome, ok, err, panic}
use shar.Errors.Exec.{Exec, pure, lift, query, committed, continue, ◌>>=◌, ◌>>◌}
use shar.Nats.{KeyValue, load_obj, update_kv, ensure}
use shar.Model.{WorkflowState}

-- remove: the first occurrence goes.
unfoldable pub remove : List String → String → List String
remove [] member = []
remove (v ∷ slice) member =
    let rest = remove slice member in if v == member then slice else v ∷ rest

module _ (kv : KeyValue) where
  abbrev pub Lists : Type 0
  Lists = kv.Bucket (List String)

  -- The two parts of UpdateObj on the tasks of one owner. The empty list that the first one saves for
  -- a new owner stays when the second one fails.
  abbrev pub ensure_tasks : String → Exec Lists (Unit {0})
  ensure_tasks owner b = committed b (λ b'. b') (λ b'. tt) (ensure kv b owner [] (kv.get b owner))

  abbrev pub change_tasks : String → (List String → List String) → Exec Lists (Unit {0})
  change_tasks owner fn b =
      committed b (λ r. r.0) (λ r. tt) (update_kv kv b owner (λ ids. ok (fn ids)) [])

  abbrev pub update_tasks : String → (List String → List String) → Exec Lists (Unit {0})
  update_tasks owner fn = ensure_tasks owner >> change_tasks owner fn

  unfoldable pub open_user_task : Outcome (Unit {0}) → String → String → Exec Lists (Unit {0})
  unfolding update_kv
  open_user_task kvs_for owner id = do lift kvs_for; update_tasks owner (λ ids. ids ++ id ∷ [])

  -- The loop over the owners: an error is kept for the end, and the loop goes on.
  unfoldable pub close_each : String → List String → Outcome (Unit {0}) → Exec Lists (Unit {0})
  unfolding update_kv remove
  close_each tracking_id [] ret_err b = (ret_err, b)
  close_each tracking_id (i ∷ all_ids) ret_err b =
      let (r, b') = update_tasks i (λ ids. remove ids tracking_id) b in
      elim r [
        | ok t ↦ close_each tracking_id all_ids ret_err b'
        | err e ↦ close_each tracking_id all_ids (err e) b'
        | panic ↦ (panic, b')
      ]

  unfoldable pub close_user_task :
      Outcome (Unit {0}) → kv.Bucket WorkflowState → String → Exec Lists (Unit {0})
  unfolding close_each load_obj
  close_user_task kvs_for jobs tracking_id = do
    lift kvs_for
    job ← lift (load_obj kv jobs tracking_id)
    close_each tracking_id (job.owners ++ job.groups) (ok tt)

  unfoldable pub get_user_task_ids : Outcome (Unit {0}) → String → Exec Lists (List String)
  unfolding load_obj
  get_user_task_ids kvs_for owner = do lift kvs_for; query (λ b. load_obj kv b owner)
