-- ===== src/Task/Readiness/Frontier.antt =====
-- Which tasks the readiness model of internal/core/readiness.go lets start or retry.
use specd_cli.Base.{
  String, ◌≡◌, ◌↔◌, refl, sym, ap, ◌∙◌, true, false, ◌&&◌, Option, none, some, List, [], ◌∷◌,
  eq_iff, contains, ok, is_ok, arith, All, All-of_contains, All-intro, inl, inr, Outcome-cases,
}
use specd_cli.Plan.Model.{Tasks}
use specd_cli.Approval.Types.{ApprovalStatus}
use specd_cli.Task.Activity.Defs.{
  TaskActivity, pending, completed, other, Persisted, project_task_activity,
  project_task_activities,
}
use specd_cli.Task.Activity.Laws.{project_task_activities-exact}
use specd_cli.Task.Graph.Defs.{TaskGraph, build_task_graph}
use specd_cli.Task.Graph.Sound.{build-closed}
use specd_cli.Task.Readiness.Defs.{
  ReadinessBlocker, ReadinessModel, readiness_approval_blocker, invalid_readiness_model,
  activity_by_id, is_plan_invalid, project_readiness, in_frontier, derive_task_readiness, is_ready,
  all_completed,
}
use specd_cli.Task.Readiness.Rows.{frontier-add_all, derived}
use specd_cli.Task.Readiness.Model.{
  same_activity_iff, activity_by_id-lem, Projected, project_readiness-cases, project_readiness-eq,
  start_model,
}

-- No global blocker exactly under an approved lifecycle whose approval is current.
pub approval_clear :
    (lifecycle : String) (approval : ApprovalStatus)
    → (readiness_approval_blocker lifecycle approval ≡ none)
      ↔ ((lifecycle ≡ "approved") × (approval.current ≡ true))
unfolding readiness_approval_blocker
approval_clear lifecycle approval = (
  λ h. ground (arith, eq_iff lifecycle "approved"),
  λ h. ground (arith, eq_iff lifecycle "approved"),
)

pub is_ready_iff :
    (activity : TaskActivity) (ds : List String) (activities : String → TaskActivity)
    (global : Option ReadinessBlocker)
    → (is_ready (derive_task_readiness activity ds activities global).0 ≡ true)
      ↔ ((global ≡ none) × (activity ≡ pending) × (all_completed activities ds ≡ true))
unfolding derive_task_readiness
is_ready_iff activity ds activities global = (λ h. ground arith, λ h. ground arith)

pub all_completed_iff :
    (activities : String → TaskActivity) (ds : List String)
    → (all_completed activities ds ≡ true) ↔ All (λ d. activities d ≡ completed) ds
unfolding all_completed
all_completed_iff activities [] = (λ h. tt, λ h. refl)
all_completed_iff activities (d ∷ ds) =
    let rest = all_completed_iff activities ds in
    (
      λ h. (same_activity_iff (activities d) completed (ground arith), rest.0 (ground arith)),
      λ h. ground (arith, rest.1 h.1),
    )

-- The task may be started from the activity `from`: the plan and the activities are accepted, the
-- change is approved and its approval current, the task has that activity and each of its
-- dependencies is completed.
pub record Admitted (plan : Tasks) (persisted : Persisted) (lifecycle : String)
    (approval : ApprovalStatus) (from : TaskActivity) (g : TaskGraph) (id : String) : Type 0 where
  pub built : build_task_graph plan ≡ ok g
  pub accepted : is_ok (project_task_activities g.authored persisted) ≡ true
  pub approved : lifecycle ≡ "approved"
  pub current : approval.current ≡ true
  pub canonical : contains g.authored id ≡ true
  pub has : project_task_activity persisted id ≡ some from
  pub supplied : All (λ d. project_task_activity persisted d ≡ some completed) (g.dependencies id)

pub some_eq : (a b : TaskActivity) → ◌≡◌ {A = Option TaskActivity} (some a) (some b) → a ≡ b
some_eq a b h = cc

module _ (plan : Tasks) (persisted : Persisted) (global : Option ReadinessBlocker)
    (model : ReadinessModel) (p : Projected plan persisted global model) where
  abbrev pub by_id : String → TaskActivity
  by_id = activity_by_id p.rows (λ id. other "")

  pub activity_of_known :
      (x : String)
      → contains p.graph.authored x ≡ true
      → project_task_activity persisted x ≡ some (by_id x)
  activity_of_known x k =
      activity_by_id-lem persisted p.graph.authored p.rows (λ id. other "") x
        ((project_task_activities-exact p.graph.authored persisted).1 p.rows p.projected)
        (build-closed plan p.graph p.built).0 k

  pub frontier_is :
      (x : String)
      → in_frontier model x
        ≡ (contains p.graph.authored x && is_ready (derived p.graph by_id global x).0)
  unfolding in_frontier contains
  frontier_is x =
      ap (λ (m : ReadinessModel). contains m.frontier x) p.model_is
      ∙ frontier-add_all p.graph by_id global p.graph.authored (start_model global) x

  -- Over the dependencies of a known id, the map and the persisted object say the same.
  pub supplied_iff :
      (x : String)
      → contains p.graph.authored x ≡ true
      → (all_completed by_id (p.graph.dependencies x) ≡ true)
        ↔ All (λ d. project_task_activity persisted d ≡ some completed) (p.graph.dependencies x)
  supplied_iff x k =
      let deps = p.graph.dependencies x in
      let known = λ (d : String) (m : contains deps d ≡ true).
        (build-closed plan p.graph p.built).1 x d k m in
      (
        λ h.
            All-intro (λ d. project_task_activity persisted d ≡ some completed) deps
              (λ d m.
                activity_of_known d (known d m)
                ∙ ap some (
                    All-of_contains (λ d. by_id d ≡ completed) deps d
                      ((all_completed_iff by_id deps).0 h) m)),
        λ h. (all_completed_iff by_id deps).1 (
            All-intro (λ d. by_id d ≡ completed) deps
              (λ d m. some_eq _ _ (
                sym (activity_of_known d (known d m))
                ∙ All-of_contains (λ d. project_task_activity persisted d ≡ some completed) deps d h
                    m))),
      )

pub empty_frontier :
    {model : ReadinessModel} (id : String)
    → model ≡ invalid_readiness_model
    → in_frontier model id ≡ true
    → ⊥
unfolding in_frontier contains
empty_frontier {model} id bad h = cc (ap (λ (m : ReadinessModel). contains m.frontier id) bad)

Admitted-of :
    (plan : Tasks) (persisted : Persisted) (lifecycle : String) (approval : ApprovalStatus)
    (id : String) (model : ReadinessModel)
    (p : Projected plan persisted (readiness_approval_blocker lifecycle approval) model)
    → in_frontier model id ≡ true
    → Admitted plan persisted lifecycle approval pending p.graph id
Admitted-of plan persisted lifecycle approval id model p h =
    let global = readiness_approval_blocker lifecycle approval in
    let activities = by_id plan persisted global model p in
    let known : contains p.graph.authored id ≡ true =
      ground (arith, frontier_is plan persisted global model p id) in
    let (clear, waiting, done) =
      (is_ready_iff (activities id) (p.graph.dependencies id) activities global).0
        (ground (arith, frontier_is plan persisted global model p id)) in
    let (approved, current) = (approval_clear lifecycle approval).0 clear in
    record {
      built = p.built;
      accepted = rw p.projected;
      approved = approved;
      current = current;
      canonical = known;
      has = activity_of_known plan persisted global model p id known ∙ ap some waiting;
      supplied = (supplied_iff plan persisted global model p id known).0 done;
    }

pub frontier_of :
    (plan : Tasks) (persisted : Persisted) (lifecycle : String) (approval : ApprovalStatus)
    (id : String) (model : ReadinessModel)
    (p : Projected plan persisted (readiness_approval_blocker lifecycle approval) model)
    → Admitted plan persisted lifecycle approval pending p.graph id
    → in_frontier model id ≡ true
frontier_of plan persisted lifecycle approval id model p s =
    let global = readiness_approval_blocker lifecycle approval in
    let activities = by_id plan persisted global model p in
    let clear = (approval_clear lifecycle approval).1 (s.approved, s.current) in
    let waiting =
      some_eq _ _ (sym (activity_of_known plan persisted global model p id s.canonical) ∙ s.has) in
    let done = (supplied_iff plan persisted global model p id s.canonical).1 s.supplied in
    let startable =
      (is_ready_iff (activities id) (p.graph.dependencies id) activities global).1
        (clear, waiting, done) in
    frontier_is plan persisted global model p id ∙ rw (s.canonical, startable)

-- A task is in the frontier exactly when it may start: the plan and the activities are accepted, the
-- lifecycle is approved and the approval current, the id is canonical, its activity is pending and
-- the activity of each of its dependencies is completed.
pub in_frontier-iff-Admitted :
    (plan : Tasks) (persisted : Persisted) (lifecycle : String) (approval : ApprovalStatus)
    (id : String)
    → (in_frontier (project_readiness plan persisted lifecycle approval) id ≡ true)
      ↔ ((g : TaskGraph) × Admitted plan persisted lifecycle approval pending g id)
in_frontier-iff-Admitted plan persisted lifecycle approval id = (
  λ h. elim (project_readiness-cases plan persisted lifecycle approval) [
    | inl bad ↦ absurd (empty_frontier id bad h)
    | inr p ↦ (p.graph, Admitted-of plan persisted lifecycle approval id _ p h)
  ],
  λ (g, s). elim (Outcome-cases (project_task_activities g.authored persisted)) [
    | inl (rows, projected) ↦
        let clear = (approval_clear lifecycle approval).1 (s.approved, s.current) in
        let legal : is_plan_invalid (readiness_approval_blocker lifecycle approval) ≡ false =
          rw clear in
        frontier_of plan persisted lifecycle approval id
          (project_readiness plan persisted lifecycle approval)
          (record {
            graph = g;
            rows = rows;
            built = s.built;
            projected = projected;
            legal = legal;
            model_is =
                project_readiness-eq plan persisted lifecycle approval g rows s.built projected
                  legal;
          })
          s
    | inr (r, e) ↦ cc (s.accepted, ap is_ok e)
  ],
)
