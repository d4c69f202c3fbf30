-- ===== src/Task/Transition/Defs.antt =====
-- internal/core/tasktransition.go: `TransitionTaskActivity` and the functions that only it calls.
-- Parameters stand for encoding/json and time.Now; `authored` is what ParseChange gives, and
-- `approval` what projectApprovalStatusLocked gives (`none` when it or the registry fails).
use specd_cli.Base.{
  ℕ, String, Bool, false, not, ◌&&◌, ◌||◌, Option, none, some, List, [], ◌∷◌, ◌==◌, if◌then◌else◌,
  nat_eq, is_ok, Outcome, ok, ◌>>=◌, ◌>>◌, refuse_if, pos,
}
use specd_cli.State.Replace.{Bytes}
use specd_cli.State.Tokens.{Stream, ensure_eof}
use specd_cli.State.Defs.{State, same_int, needs, count_up}
use specd_cli.Record.Types.{Record}
use specd_cli.Approval.Types.{ApprovalStatus}
use specd_cli.Plan.Model.{Tasks}
use specd_cli.Task.Activity.Defs.{
  TaskActivity, pending, in_progress, completed, failed, blocked, other, valid,
  can_transition_task_activity, TaskActivityProjection, Raw, Persisted,
}
use specd_cli.Task.Readiness.Defs.{activity_by_id, project_readiness, in_frontier, can_retry}
use specd_cli.Task.Transition.Types.{TaskTransition, TransitionRefusal, history_payload}

-- The text of an activity
abbrev pub name_of : TaskActivity → String
name_of pending = "pending"
name_of in_progress = "in_progress"
name_of completed = "completed"
name_of failed = "failed"
name_of blocked = "blocked"
name_of (other s) = s

-- `activityByID[id]`; an absent id reads as the empty activity.
abbrev pub activity_of_task : List TaskActivityProjection → String → TaskActivity
activity_of_task rows id = activity_by_id rows (λ id. other "") id

-- `tasks[id] = raw`
unfoldable pub set_task : Persisted → String → Raw → Persisted
set_task [] id raw = (id, raw) ∷ []
set_task ((key, old) ∷ rest) id raw =
    let later = set_task rest id raw in if key == id then (key, raw) ∷ rest else (key, old) ∷ later

abbrev pub tasks_of : State Raw → Persisted
tasks_of current = elim current.tasks [ none ↦ [] | some tasks ↦ tasks ]

-- `taskCanStart`
unfoldable pub task_can_start : String → TaskActivity → Tasks → State Raw → ApprovalStatus → Bool
task_can_start id from tasks current approval =
    let model = project_readiness tasks (tasks_of current) current.stage approval in
    elim from [
      | pending ↦ in_frontier model id
      | failed ↦ can_retry model id
      | in_progress ↦ false
      | completed ↦ false
      | blocked ↦ false
      | other s ↦ false
    ]

unfoldable pub history_actor : List Record → String → String
history_actor [] id = ""
history_actor (item ∷ items) id = if item.id == id then item.actor else history_actor items id

abbrev pub is_revision : Option ℕ → ℕ → Bool
is_revision none n = false
is_revision (some m) n = nat_eq m n

-- The test of the loop of `recoverableTaskTransition`
abbrev pub may_recover : String → ℕ → Record → Bool
may_recover change revision item =
    item.change == change
    && item.kind == "task_transition"
    && is_revision item.expected_revision revision
    && is_revision item.resulting_revision (count_up revision)

-- The loop from the last record back stops at the first record that passes the test.
unfoldable pub recoverable_record : String → ℕ → List Record → Option Record
recoverable_record change revision [] = none
recoverable_record change revision (item ∷ items) =
    elim (recoverable_record change revision items) [
      | some found ↦ some found
      | none ↦ if may_recover change revision item then some item else none
    ]

module _ (unmarshal_transition : Bytes → Option (TaskTransition × Stream)) where
  unfoldable pub decode_task_transition : Bytes → Outcome TransitionRefusal TaskTransition
  decode_task_transition raw = do
    decoded ← needs (unmarshal_transition raw) history_payload
    refuse_if (not (is_ok (ensure_eof decoded.1.tokens decoded.1.ending))) history_payload
    let t = decoded.0
    refuse_if
        (not (same_int t.schema_version (pos 1))
          || t.task == ""
          || not (valid t.from)
          || not (valid t.to)
          || not (can_transition_task_activity t.from t.to))
        history_payload
    ok t

  -- `recoverableTaskTransition`: the transition and the id of its record
  unfoldable pub recoverable_task_transition :
      List Record → String → ℕ → Outcome TransitionRefusal (Option (TaskTransition × String))
  recoverable_task_transition records change revision =
      elim (recoverable_record change revision records) [
        | none ↦ ok none
        | some item ↦ do t ← decode_task_transition item.payload; ok (some (t, item.id))
      ]
