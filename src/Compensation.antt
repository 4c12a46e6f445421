-- ===== src/Compensation.antt =====
-- Compensate of internal/server/workflow/compensation.go: the activities of a process instance that
-- completed and can be compensated become the steps of a plan, newest first. The entries of the
-- history come from GetProcessHistory, and `send` is the publication of the plan's messages.
pub mod Plan
use Prim.Native.String.{◌++◌ as str_append}
use shar.Prelude.{
  ℕ, suc, ◌+◌, String, Bool, true, false, Option, none, some, List, [], ◌∷◌, ◌++◌, length, leb,
  if◌then◌else◌,
}
use shar.Prelude.Maps.{Map, lookup, is_some}
use shar.Errors.{Err, Outcome, ok, err, panic, ◌>>=◌, is_key_not_found}
use shar.Tracking
use shar.Nats.{KeyValue}
use shar.Model.{Element, ProcessHistoryEntry, ProcessHistoryType, job_execute, activity_complete}
use shar.Server.{history_key}
use shar.Traversal.Select.{present}

-- The local type `step` of Compensate
pub record Step : Type 0 where
  pub unix_time : ℕ
  pub item : String

-- One message of the plan: its headers Step and Steps, and its data.
pub record PlanMessage : Type 0 where
  pub step : ℕ
  pub steps : ℕ
  pub item : String

abbrev pub is_job_execute : ProcessHistoryType → Bool
is_job_execute job_execute = true
is_job_execute _ = false

-- Only a missing key says that the activity did not complete.
abbrev pub unless_missing : {V : Type 0} → Outcome V → Outcome Bool
unless_missing (ok e) = ok true
unless_missing (err e) = ok (if is_key_not_found e then false else true)
unless_missing panic = panic

abbrev pub step_of : ProcessHistoryEntry → Step
step_of entry = record {
  unix_time = entry.unix_time_nano;
  item = history_key entry.process_instance_id (Tracking.id entry.id) entry.item_type;
}

module _ (kv : KeyValue) (wf_history : kv.Bucket ProcessHistoryEntry) (els : Map Element) where
  abbrev pub completed : ProcessHistoryEntry → Outcome Bool
  completed entry = unless_missing (
      kv.get wf_history
        (history_key entry.process_instance_id (Tracking.parent_id entry.id) activity_complete))

  abbrev pub can_compensate : ProcessHistoryEntry → Bool → Bool → Outcome Bool
  can_compensate entry true _ = ok false
  can_compensate entry false false = ok false
  can_compensate entry false true = do
    el ← present (lookup entry.element_id els)
    if is_some el.compensate_with then completed entry else ok false

  -- The entry becomes a step.
  unfoldable pub compensable : ProcessHistoryEntry → Outcome Bool
  compensable entry = can_compensate entry entry.compensating (is_job_execute entry.item_type)

  -- The loop over the history
  unfoldable pub collect_steps : List ProcessHistoryEntry → Outcome (List Step)
  unfolding compensable
  collect_steps [] = ok []
  collect_steps (entry ∷ entries) = do
    yes_it_is ← compensable entry
    rest ← collect_steps entries
    ok (if yes_it_is then step_of entry ∷ rest else rest)

-- slices.SortFunc by `b.UnixTime - a.UnixTime`. Go leaves the order of steps of one time open.
unfoldable pub insert_step : Step → List Step → List Step
insert_step s [] = s ∷ []
insert_step s (t ∷ ts) =
    let rest = insert_step s ts in if leb t.unix_time s.unix_time then s ∷ t ∷ ts else t ∷ rest

unfoldable pub sort_steps : List Step → List Step
unfolding insert_step
sort_steps [] = []
sort_steps (s ∷ ss) = insert_step s (sort_steps ss)

-- for i, v := range forCompensation
abbrev pub number_from : ℕ → ℕ → List Step → List PlanMessage
number_from i total [] = []
number_from i total (s ∷ ss) =
    record { step = i; steps = total; item = s.item } ∷ number_from (suc i) total ss

unfoldable pub compensation_plan :
    (kv : KeyValue)
    → kv.Bucket ProcessHistoryEntry
    → Map Element
    → List ProcessHistoryEntry
    → Outcome (List PlanMessage)
unfolding collect_steps sort_steps
compensation_plan kv wf_history els entries = do
  steps ← collect_steps kv wf_history els entries
  ok (number_from 0 (length (sort_steps steps)) (sort_steps steps))
