-- ===== src/Tests/UserTaskLists.antt =====
-- The theorems on user tasks, at concrete inputs.
use shar.Prelude.{◌≡◌, refl, String, ◌==◌, false, some, List, [], ◌∷◌, ◌++◌, arith}
use shar.Errors.{ok}
use shar.Nats.{load_obj, update_kv}
use shar.Model.{WorkflowState}
use shar.UserTasks.{remove, close_each, close_user_task, open_user_task, get_user_task_ids}
use shar.UserTasks.Closed.{Left, listed, close_user_task-Left}
use shar.UserTasks.Opened.{stored, get_user_task_ids-open_user_task}
use shar.Tests.Store.{Log, memory, memory_documented}
use shar.Tests.Data.{blank_state}

abbrev approval : WorkflowState
approval = record blank_state { owners = "ann" ∷ []; groups = "staff" ∷ [] }

abbrev jobs : Log WorkflowState
jobs = ("t1", some approval) ∷ []

abbrev user_tasks : Log (List String)
user_tasks = ("ann", some ("t0" ∷ "t1" ∷ "t2" ∷ [])) ∷ ("staff", some ("t1" ∷ [])) ∷ []

abbrev closed_tasks : Log (List String)
closed_tasks = ("staff", some []) ∷ ("ann", some ("t0" ∷ "t2" ∷ [])) ∷ user_tasks

close_user_task-Left_example :
    (job : WorkflowState) × (load_obj memory jobs "t1" ≡ ok job)
    × (rest : List String) × (load_obj memory closed_tasks "ann" ≡ ok rest)
    × Left "t1" (listed "ann" (job.owners ++ job.groups)) ("t0" ∷ "t1" ∷ "t2" ∷ []) rest
unfolding close_user_task close_each update_kv remove load_obj
close_user_task-Left_example =
    close_user_task-Left memory memory_documented (ok tt) jobs "t1" "ann" user_tasks closed_tasks
      ("t0" ∷ "t1" ∷ "t2" ∷ []) (omega arith) refl refl

get_user_task_ids-open_user_task_example :
    (get_user_task_ids memory (ok tt) "staff" (("staff", some ("t1" ∷ "t3" ∷ [])) ∷ user_tasks)
      ≡ (ok ("t1" ∷ "t3" ∷ []), ("staff", some ("t1" ∷ "t3" ∷ [])) ∷ user_tasks))
    × ((j : String) (others : List String)
        → ("staff" == j) ≡ false
        → load_obj memory user_tasks j ≡ ok others
        → load_obj memory (("staff", some ("t1" ∷ "t3" ∷ [])) ∷ user_tasks) j ≡ ok others)
unfolding open_user_task update_kv load_obj
get_user_task_ids-open_user_task_example =
    get_user_task_ids-open_user_task memory memory_documented (ok tt) "staff" "t3" user_tasks
      (("staff", some ("t1" ∷ "t3" ∷ [])) ∷ user_tasks) ("t1" ∷ []) (stored refl) refl
