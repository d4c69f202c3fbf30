-- ===== src/Task/Readiness/Defs.antt =====
-- The pure part of internal/core/readiness.go. A nil pointer is `none`, and the copies that the code
-- makes of slices and blockers are the values themselves. `LoadReadinessSnapshot`, which reads the
-- inputs under the change lock, and the accessors that only clone are not here.
use specd_cli.Base.{
  ℕ, String, Bool, true, false, not, ◌||◌, Option, none, some, List, [], ◌∷◌, ◌++◌, ◌==◌,
  if◌then◌else◌, ltb, contains, is_some, ok, err,
}
use specd_cli.Plan.Model.{Tasks}
use specd_cli.Approval.Types.{ApprovalStatus}
use specd_cli.Task.Activity.Defs.{
  TaskActivity, pending, in_progress, completed, failed, other, TaskActivityProjection, Persisted,
  same_activity, project_task_activities,
}
use specd_cli.Task.Graph.Defs.{TaskGraph, build_task_graph, update}

pub data Readiness : Type 0 where
  ready waiting_dependency waiting_approval active terminal blocked : Readiness

pub record ReadinessBlocker : Type 0 where
  pub code : String
  pub owner : String
  pub action : String

pub record TaskReadiness : Type 0 where
  pub id : String
  pub activity : TaskActivity
  pub readiness : Readiness
  pub wave : ℕ
  pub dependencies : List String
  pub blocker : Option ReadinessBlocker

pub record ReadinessModel : Type 0 where
  pub tasks : List TaskReadiness
  pub frontier : List String
  pub plan_invalid : Option ReadinessBlocker
  pub primary : Option ReadinessBlocker
  pub global : Option ReadinessBlocker

pub record ReadinessOutcome : Type 0 where
  pub classification : String
  pub blocker : Option ReadinessBlocker

abbrev pub blocker_of : String → String → String → ReadinessBlocker
blocker_of code owner action = record { code = code; owner = owner; action = action }

abbrev pub blocker_for_invalid_plan : ReadinessBlocker
blocker_for_invalid_plan = blocker_of "plan_invalid" "author" "repair tasks and run check"

abbrev pub invalid_readiness_model : ReadinessModel
invalid_readiness_model = record {
  tasks = [];
  frontier = [];
  plan_invalid = some blocker_for_invalid_plan;
  primary = some blocker_for_invalid_plan;
  global = some blocker_for_invalid_plan;
}

unfoldable pub readiness_approval_blocker : String → ApprovalStatus → Option ReadinessBlocker
readiness_approval_blocker lifecycle approval =
    let stale =
      blocker_of "approval_stale" "human" "rerun check, then obtain fresh human approval" in
    let missing =
      blocker_of "change_not_approved" "human" "run check, then obtain human approval" in
    if lifecycle == "approved"
    then if approval.current
      then none
      else if is_some approval.approval
      then some stale
      else some missing
    else if lifecycle == "planning"
    then if is_some approval.approval then some stale else some missing
    else if lifecycle == "executing" || lifecycle == "reconciling" || lifecycle == "archived"
    then some (blocker_of "lifecycle_unsupported" "harness" "select a planning or approved change")
    else some (blocker_of "plan_invalid" "author" "repair lifecycle state and run check")

-- The first dependency that is not completed decides; the loop has no other effect.
unfoldable pub all_completed : (String → TaskActivity) → List String → Bool
all_completed activities [] = true
all_completed activities (d ∷ ds) =
    let rest = all_completed activities ds in
    if not (same_activity (activities d) completed) then false else rest

unfoldable pub derive_pending :
    (String → TaskActivity) → List String → Readiness × Option ReadinessBlocker
unfolding all_completed
derive_pending activities dependencies =
    if all_completed activities dependencies then (Readiness.ready, none) else (
      Readiness.waiting_dependency,
      some (blocker_of "dependency_incomplete" "agent" "complete the listed dependency tasks"),
    )

-- The switch on the activity.
unfoldable pub derive_activity :
    TaskActivity → List String → (String → TaskActivity) → Readiness × Option ReadinessBlocker
unfolding derive_pending
derive_activity pending dependencies activities = derive_pending activities dependencies
derive_activity in_progress dependencies activities =
    (Readiness.active, some (blocker_of "task_active" "agent" "continue the active task"))
derive_activity completed dependencies activities = (
  Readiness.terminal,
  some (blocker_of "task_completed" "harness" "continue with remaining frontier tasks"),
)
derive_activity (other s) dependencies activities =
    (Readiness.blocked, some blocker_for_invalid_plan)
derive_activity _ dependencies activities = (
  Readiness.blocked,
  some
      (blocker_of "task_blocked" "human" "resolve the task blocker and return the task to pending"),
)

unfoldable pub derive_task_readiness :
    TaskActivity
    → List String
    → (String → TaskActivity)
    → Option ReadinessBlocker
    → Readiness × Option ReadinessBlocker
unfolding derive_activity
derive_task_readiness activity dependencies activities global = elim global [
  | none ↦ derive_activity activity dependencies activities
  | some b ↦ (Readiness.waiting_approval, some b)
]

-- The map literal `ranks`; an unknown code ranks 0.
unfoldable pub code_rank : String → ℕ
code_rank code =
    if code == "plan_invalid"
    then 0
    else if code == "lifecycle_unsupported"
    then 1
    else if code == "approval_stale"
    then 2
    else if code == "change_not_approved"
    then 3
    else if code == "task_blocked"
    then 4
    else if code == "task_active"
    then 5
    else if code == "task_completed"
    then 6
    else if code == "dependency_incomplete"
    then 7
    else 0

unfoldable pub blocker_rank : Option ReadinessBlocker → ℕ
unfolding code_rank
blocker_rank none = 99
blocker_rank (some b) = code_rank b.code

-- `byID[row.ID] = row.Activity` over the rows
unfoldable pub activity_by_id :
    List TaskActivityProjection → (String → TaskActivity) → String → TaskActivity
activity_by_id [] m = m
activity_by_id (row ∷ rows) m = activity_by_id rows (update m row.id row.activity)

abbrev pub is_ready : Readiness → Bool
is_ready Readiness.ready = true
is_ready _ = false

-- One round of the loop over the authored ids, after the wave was found.
unfoldable pub add_row :
    (String → List String)
    → (String → TaskActivity)
    → Option ReadinessBlocker
    → String
    → ℕ
    → ReadinessModel
    → ReadinessModel
add_row dependencies by_id global id wave model =
    let (readiness, blocker) = derive_task_readiness (by_id id) (dependencies id) by_id global in
    let row : TaskReadiness = record {
      id = id;
      activity = by_id id;
      readiness = readiness;
      wave = wave;
      dependencies = dependencies id;
      blocker = blocker;
    } in
    let tasks = model.tasks ++ row ∷ [] in
    if is_ready readiness
    then record model { tasks = tasks; frontier = model.frontier ++ id ∷ [] }
    else if ltb (blocker_rank blocker) (blocker_rank model.primary)
    then record model { tasks = tasks; primary = blocker }
    else record model { tasks = tasks }

-- `none` where an id has no wave.
unfoldable pub add_rows :
    TaskGraph
    → (String → TaskActivity)
    → Option ReadinessBlocker
    → List String
    → ReadinessModel
    → Option ReadinessModel
add_rows graph by_id global [] model = some model
add_rows graph by_id global (id ∷ ids) model = elim (graph.wave id) [
  | none ↦ none
  | some wave ↦
      add_rows graph by_id global ids (add_row graph.dependencies by_id global id wave model)
]

abbrev pub or_invalid : Option ReadinessModel → ReadinessModel
or_invalid none = invalid_readiness_model
or_invalid (some model) = model

abbrev pub is_plan_invalid : Option ReadinessBlocker → Bool
is_plan_invalid none = false
is_plan_invalid (some b) = b.code == "plan_invalid"

-- The part of `ProjectReadiness` after the graph and the activities.
unfoldable pub readiness_of :
    TaskGraph → List TaskActivityProjection → Option ReadinessBlocker → ReadinessModel
readiness_of graph activities global =
    if is_plan_invalid global
    then invalid_readiness_model
    else or_invalid (
        add_rows graph (activity_by_id activities (λ id. other "")) global graph.authored (record {
          tasks = [];
          frontier = [];
          plan_invalid = none;
          primary = global;
          global = global;
        }))

unfoldable pub project_readiness : Tasks → Persisted → String → ApprovalStatus → ReadinessModel
project_readiness tasks persisted lifecycle approval = elim (build_task_graph tasks) [
  | err e ↦ invalid_readiness_model
  | ok graph ↦ elim (project_task_activities graph.authored persisted) [
    | err e ↦ invalid_readiness_model
    | ok activities ↦ readiness_of graph activities (readiness_approval_blocker lifecycle approval)
  ]
]

unfoldable pub in_frontier : ReadinessModel → String → Bool
in_frontier model id = contains model.frontier id

-- The loop of `Task`.
unfoldable pub find_row : List TaskReadiness → String → Option TaskReadiness
find_row [] id = none
find_row (row ∷ rows) id = if row.id == id then some row else find_row rows id

abbrev pub row_completed : Option TaskReadiness → Bool
row_completed none = false
row_completed (some row) = same_activity row.activity completed

unfoldable pub rows_completed : List TaskReadiness → List String → Bool
unfolding find_row
rows_completed rows [] = true
rows_completed rows (d ∷ ds) =
    let rest = rows_completed rows ds in
    if not (row_completed (find_row rows d)) then false else rest

unfoldable pub can_retry : ReadinessModel → String → Bool
unfolding find_row rows_completed
can_retry model id =
    if is_some model.global || is_some model.plan_invalid
    then false
    else elim (find_row model.tasks id) [
      | none ↦ false
      | some row ↦
          if not (same_activity row.activity failed)
          then false
          else rows_completed model.tasks row.dependencies
    ]

unfoldable pub every_row_completed : List TaskReadiness → Bool
every_row_completed [] = true
every_row_completed (row ∷ rows) =
    let rest = every_row_completed rows in
    if not (same_activity row.activity completed) then false else rest

unfoldable pub all_complete : ReadinessModel → Bool
unfolding every_row_completed
all_complete model =
    if is_some model.plan_invalid || is_some model.global
    then false
    else every_row_completed model.tasks

-- The switch on the code of the blocker.
unfoldable pub classification_of : String → String
classification_of code =
    if code == "plan_invalid"
    then "plan_invalid"
    else if code == "approval_stale" || code == "change_not_approved"
    then "waiting_approval"
    else if code == "dependency_incomplete"
    then "waiting_dependency"
    else "task_blocked"

abbrev pub blocker_or_invalid : Option ReadinessBlocker → ReadinessBlocker
blocker_or_invalid none = blocker_for_invalid_plan
blocker_or_invalid (some b) = b

abbrev pub is_empty : List String → Bool
is_empty [] = true
is_empty (x ∷ xs) = false

unfoldable pub outcome : ReadinessModel → ReadinessOutcome
unfolding all_complete classification_of
outcome model =
    if not (is_empty model.frontier)
    then record { classification = "frontier"; blocker = none }
    else if all_complete model
    then record { classification = "all_complete"; blocker = none }
    else let b = blocker_or_invalid model.primary in
      record { classification = classification_of b.code; blocker = some b }
