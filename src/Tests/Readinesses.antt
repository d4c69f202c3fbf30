-- ===== src/Tests/Readinesses.antt =====
-- Runs of internal/core/readiness.go on the plan of three tasks.
use specd_cli.Base.{
  String, ◌≡◌, refl, ◌↔◌, ◌⊎◌, Bool, true, false, none, some, contains, pred_ℤ, sort_texts, [], ◌∷◌,
}
use specd_cli.Approval.Types.{ApprovalStatus}
use specd_cli.Task.Activity.Defs.{
  TaskActivity, pending, failed, Persisted, text, project_task_activity, project_task_activities,
}
use specd_cli.Task.Graph.Defs.{
  TaskGraph, build_task_graph, check_tasks, register_dependencies, link_tasks, count_dependencies,
  order_tasks, assign_waves,
}
use specd_cli.Task.Readiness.Defs.{
  ReadinessModel, ReadinessBlocker, project_readiness, readiness_of, add_rows, add_row,
  derive_task_readiness, blocker_rank, activity_by_id, readiness_approval_blocker, in_frontier,
  can_retry, all_complete, outcome, is_empty, classification_of,
}
use specd_cli.Task.Readiness.Frontier.{Admitted, in_frontier-iff-Admitted}
use specd_cli.Task.Readiness.Retry.{can_retry-iff-Admitted}
use specd_cli.Task.Readiness.Progress.{HoldsUp, no_silent_stall}
use specd_cli.Task.Readiness.Blockers.{RanksFirst, outcome-RanksFirst}
use specd_cli.Tests.Graphs.{diamond}

abbrev pub status : Bool → ApprovalStatus
status current = record {
  change = "sample";
  current = current;
  approval = none;
  blocking_artifact = "";
  reason = "";
  recovery = "";
}

abbrev pub one_done : Persisted
one_done = ("a", text "completed") ∷ []

abbrev one_failed : Persisted
one_failed = ("a", text "failed") ∷ []

abbrev running : ReadinessModel
running = project_readiness diamond one_done "approved" (status true)

abbrev stopped : ReadinessModel
stopped = project_readiness diamond one_failed "approved" (status true)

running_frontier : running.frontier ≡ "b" ∷ []
unfolding project_readiness build_task_graph check_tasks register_dependencies link_tasks
    count_dependencies order_tasks assign_waves project_task_activities readiness_approval_blocker
    readiness_of add_rows add_row derive_task_readiness blocker_rank activity_by_id contains pred_ℤ
    sort_texts project_task_activity
running_frontier = refl

stopped_facts :
    (is_empty stopped.frontier ≡ true)
    × (all_complete stopped ≡ false)
    × (stopped.global ≡ none)
    × (can_retry stopped "a" ≡ true)
    × ((outcome stopped).classification ≡ "task_blocked")
unfolding project_readiness build_task_graph check_tasks register_dependencies link_tasks
    count_dependencies order_tasks assign_waves project_task_activities readiness_approval_blocker
    readiness_of add_rows add_row derive_task_readiness blocker_rank activity_by_id contains pred_ℤ
    sort_texts project_task_activity all_complete can_retry outcome
stopped_facts = (refl, refl, refl, refl, refl)

in_frontier-iff-Admitted_example :
    (in_frontier running "b" ≡ true)
    ↔ ((g : TaskGraph) × Admitted diamond one_done "approved" (status true) pending g "b")
in_frontier-iff-Admitted_example =
    in_frontier-iff-Admitted diamond one_done "approved" (status true) "b"

can_retry-iff-Admitted_example :
    (can_retry stopped "a" ≡ true)
    ↔ ((g : TaskGraph) × Admitted diamond one_failed "approved" (status true) failed g "a")
can_retry-iff-Admitted_example =
    can_retry-iff-Admitted diamond one_failed "approved" (status true) "a"

no_silent_stall_example :
    (all_complete stopped ≡ true)
    ⊎ ((x : String) × ((in_frontier stopped x ≡ true)
          ⊎ ((a : TaskActivity) × HoldsUp diamond one_failed x a)))
no_silent_stall_example =
    no_silent_stall diamond one_failed "approved" (status true) stopped_facts.2

outcome-RanksFirst_example :
    (b : ReadinessBlocker) × (outcome stopped
      ≡ record { classification = classification_of b.code; blocker = some b })
    × RanksFirst stopped b
outcome-RanksFirst_example =
    outcome-RanksFirst diamond one_failed "approved" (status true) stopped_facts.0 stopped_facts.1
