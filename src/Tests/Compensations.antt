-- ===== src/Tests/Compensations.antt =====
-- The theorem on compensation plans, at a concrete input.
use shar.Prelude.{refl, some, List, [], ◌∷◌}
use shar.Prelude.Maps.{lookup}
use shar.Model.{Element, ProcessHistoryEntry, job_execute, activity_complete}
use shar.Server.{history_entry}
use shar.Compensation.{PlanMessage, compensation_plan}
use shar.Compensation.Plan.{Planned, compensation_plan-Planned}
use shar.Tests.Store.{Log, memory}
use shar.Tests.Data.{blank_state, task}

abbrev pay : Element
pay = record (task "pay") { compensate_with = some "refund" }

abbrev paid : ProcessHistoryEntry
paid = record (history_entry blank_state job_execute) {
  element_id = "pay";
  id = "t0" ∷ "act" ∷ "job" ∷ [];
}

abbrev history : Log ProcessHistoryEntry
history = ("pi.act.2", some (record paid { item_type = activity_complete })) ∷ []

-- The second job ran later, in the same activity.
abbrev entries : List ProcessHistoryEntry
entries = paid ∷ record paid { id = "t0" ∷ "act" ∷ "later" ∷ []; unix_time_nano = 8 } ∷ []

abbrev plan : List PlanMessage
plan =
    record { step = 0; steps = 2; item = "pi.later.8" }
    ∷ record { step = 1; steps = 2; item = "pi.job.8" }
    ∷ []

compensation_plan-Planned_example : Planned memory history (("pay", pay) ∷ []) entries plan
unfolding compensation_plan lookup shar.Tracking.parent_id shar.Tracking.id
compensation_plan-Planned_example =
    compensation_plan-Planned memory history (("pay", pay) ∷ []) entries {plan = plan} refl
