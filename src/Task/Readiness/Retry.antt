-- ===== src/Task/Readiness/Retry.antt =====
-- The retry rule `CanRetry` of internal/core/readiness.go.
use specd_cli.Base.{
  String, ◌≡◌, ◌↔◌, refl, sym, ap, ◌∙◌, true, false, Option, none, some, List, [], ◌∷◌, ◌==◌,
  eq_iff, if◌then◌else◌, contains, is_ok, arith, All, All-intro, inl, inr, Bool-cases,
  Outcome-cases, map,
}
use specd_cli.Plan.Model.{Tasks}
use specd_cli.Approval.Types.{ApprovalStatus}
use specd_cli.Task.Activity.Defs.{TaskActivity, failed, Persisted, project_task_activities}
use specd_cli.Task.Graph.Defs.{TaskGraph}
use specd_cli.Task.Graph.Sound.{build-closed}
use specd_cli.Task.Readiness.Defs.{
  ReadinessBlocker, ReadinessModel, readiness_approval_blocker, is_plan_invalid, project_readiness,
  all_completed, find_row, can_retry, rows_completed,
}
use specd_cli.Task.Readiness.Rows.{row_at}
use specd_cli.Task.Readiness.Model.{
  same_activity_iff, Projected, project_readiness-cases, project_readiness-eq,
}
use specd_cli.Task.Readiness.Frontier.{
  Admitted, activity_of_known, supplied_iff, approval_clear, some_eq, by_id,
}
use specd_cli.Task.Readiness.Progress.{model_tasks, model_fixed}

module _ (g : TaskGraph) (by_id : String → TaskActivity) (global : Option ReadinessBlocker) where
  pub find_row-map :
      (ids : List String) (x : String)
      → find_row (map (row_at g by_id global) ids) x
        ≡ (if contains ids x then some (row_at g by_id global x) else none)
  unfolding find_row contains
  find_row-map [] x = refl
  find_row-map (id ∷ ids) x = elim (Bool-cases (id == x)) [
    | inl e ↦ rw e (ap (λ y. some (row_at g by_id global y)) ((eq_iff id x).0 e))
    | inr e ↦ ground (arith, find_row-map ids x)
  ]

  rows_completed-map :
      (ids ds : List String)
      → All (λ d. contains ids d ≡ true) ds
      → rows_completed (map (row_at g by_id global) ids) ds ≡ all_completed by_id ds
  unfolding rows_completed all_completed
  rows_completed-map ids [] h = refl
  rows_completed-map ids (d ∷ ds) h =
      rw (find_row-map ids d, h.0) (ground (arith, rows_completed-map ids ds h.1))

module _ (plan : Tasks) (persisted : Persisted) (global : Option ReadinessBlocker)
    (model : ReadinessModel) (p : Projected plan persisted global model) (id : String) where
  activities : String → TaskActivity
  activities = by_id plan persisted global model p

  retry_parts : (can_retry model id ≡ true) ↔ (
      (global ≡ none)
      × (contains p.graph.authored id ≡ true)
      × (by_id plan persisted global model p id ≡ failed)
      × (all_completed (by_id plan persisted global model p) (p.graph.dependencies id) ≡ true))
  unfolding can_retry
  retry_parts =
      let a = by_id plan persisted global model p in
      let fixed = model_fixed plan persisted global model p in
      let found =
        ap (λ rows. find_row rows id) (model_tasks plan persisted global model p)
        ∙ find_row-map p.graph a global p.graph.authored id in
      let deps = λ (k : contains p.graph.authored id ≡ true).
        ap (λ rows. rows_completed rows (p.graph.dependencies id))
          (model_tasks plan persisted global model p)
        ∙ rows_completed-map p.graph a global p.graph.authored (p.graph.dependencies id) (
            All-intro (λ d. contains p.graph.authored d ≡ true) (p.graph.dependencies id)
              (λ d m. (build-closed plan p.graph p.built).1 id d k m)) in
      elim (Bool-cases (contains p.graph.authored id)) [
        | inl k ↦ (
          λ h. (
            ground (arith, fixed),
            k,
            same_activity_iff (a id) failed (ground (arith, fixed, found, deps k)),
            ground (arith, fixed, found, deps k),
          ),
          λ h. ground (arith, fixed, found, deps k),
        )
        | inr n ↦ (λ h. absurd (ground (arith, fixed, found)), λ h. cc (h.1, n))
      ]

-- A failed task may be retried exactly when it could start but for its activity: the plan and the
-- activities are accepted, the lifecycle is approved and the approval current, the id is canonical,
-- its activity is failed and the activity of each of its dependencies is completed.
pub can_retry-iff-Admitted :
    (plan : Tasks) (persisted : Persisted) (lifecycle : String) (approval : ApprovalStatus)
    (id : String)
    → (can_retry (project_readiness plan persisted lifecycle approval) id ≡ true)
      ↔ ((g : TaskGraph) × Admitted plan persisted lifecycle approval failed g id)
can_retry-iff-Admitted plan persisted lifecycle approval id =
    let global = readiness_approval_blocker lifecycle approval in
    let model = project_readiness plan persisted lifecycle approval in
    (
      λ h. elim (project_readiness-cases plan persisted lifecycle approval) [
        | inl bad ↦
            absurd (unfold can_retry in cc (ap (λ (m : ReadinessModel). can_retry m id) bad))
        | inr p ↦
            let (clear, known, lost, done) = (retry_parts plan persisted global model p id).0 h in
            let (approved, current) = (approval_clear lifecycle approval).0 clear in
            (
              p.graph,
              record {
                built = p.built;
                accepted = rw p.projected;
                approved = approved;
                current = current;
                canonical = known;
                has = activity_of_known plan persisted global model p id known ∙ ap some lost;
                supplied = (supplied_iff plan persisted global model p id known).0 done;
              },
            )
      ],
      λ (g, s). elim (Outcome-cases (project_task_activities g.authored persisted)) [
        | inl (rows, projected) ↦
            let clear = (approval_clear lifecycle approval).1 (s.approved, s.current) in
            let legal : is_plan_invalid global ≡ false = rw clear in
            let p : Projected plan persisted global model = record {
              graph = g;
              rows = rows;
              built = s.built;
              projected = projected;
              legal = legal;
              model_is =
                  project_readiness-eq plan persisted lifecycle approval g rows s.built projected
                    legal;
            } in
            (retry_parts plan persisted global model p id).1 (
              clear,
              s.canonical,
              some_eq _ _
                  (sym (activity_of_known plan persisted global model p id s.canonical) ∙ s.has),
              (supplied_iff plan persisted global model p id s.canonical).1 s.supplied,
            )
        | inr (r, e) ↦ cc (s.accepted, ap is_ok e)
      ],
    )
