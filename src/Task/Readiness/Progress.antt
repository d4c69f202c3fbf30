-- ===== src/Task/Readiness/Progress.antt =====
-- The readiness model of internal/core/readiness.go never stalls: it has a frontier, or it names why
-- not. And its retry rule.
use specd_cli.Base.{
  String, ◌≡◌, ◌≢◌, ◌↔◌, refl, sym, ap, subst, ◌∙◌, true, false, Option, none, some, List, [], ◌∷◌,
  ◌++◌, eq_iff, contains, ok, arith, All, All-of_contains, All-intro, All-append, inl, inr, ◌⊎◌,
  Bool-cases, map,
}
use specd_cli.Plan.Model.{Tasks}
use specd_cli.Approval.Types.{ApprovalStatus}
use specd_cli.Task.Activity.Defs.{
  TaskActivity, pending, completed, same_activity, Persisted, project_task_activity,
}
use specd_cli.Task.Graph.Defs.{TaskGraph, build_task_graph}
use specd_cli.Task.Graph.Order.{IsTopological}
use specd_cli.Task.Graph.Sound.{build-IsTopological}
use specd_cli.Task.Readiness.Defs.{
  ReadinessBlocker, ReadinessModel, readiness_approval_blocker, project_readiness, in_frontier,
  every_row_completed, all_complete,
}
use specd_cli.Task.Readiness.Rows.{row_at, tasks-add_all, fixed-add_all}
use specd_cli.Task.Readiness.Model.{
  same_activity_iff, Projected, project_readiness-cases, start_model,
}
use specd_cli.Task.Readiness.Frontier.{
  activity_of_known, supplied_iff, by_id, frontier_is, all_completed_iff, is_ready_iff,
}

module _ (g : TaskGraph) (by_id : String → TaskActivity) (global : Option ReadinessBlocker) where
  every_row_iff :
      (ids : List String)
      → (every_row_completed (map (row_at g by_id global) ids) ≡ true)
        ↔ All (λ x. by_id x ≡ completed) ids
  unfolding every_row_completed
  every_row_iff [] = (λ h. tt, λ h. refl)
  every_row_iff (id ∷ ids) =
      let rest = every_row_iff ids in
      (
        λ h. (same_activity_iff (by_id id) completed (ground arith), rest.0 (ground arith)),
        λ h. ground (arith, rest.1 h.1),
      )

-- The first task of a topological list that is not completed has all its dependencies completed.
first_open :
    (dependencies : String → List String) (activities : String → TaskActivity)
    (seen order : List String)
    → IsTopological dependencies seen order
    → All (λ x. activities x ≡ completed) seen
    → All (λ x. activities x ≡ completed) order
      ⊎ ((x : String) × (contains order x ≡ true)
          × (same_activity (activities x) completed ≡ false)
          × All (λ d. activities d ≡ completed) (dependencies x))
unfolding contains
first_open dependencies activities seen [] t h = inl tt
first_open dependencies activities seen (x ∷ xs) t h =
    elim (Bool-cases (same_activity (activities x) completed)) [
      | inr e ↦ inr (
        x,
        ground (arith, eq_iff x x),
        e,
        All-intro (λ d. activities d ≡ completed) (dependencies x)
            (λ d m.
              All-of_contains (λ y. activities y ≡ completed) seen d h
                (All-of_contains (λ y. contains seen y ≡ true) (dependencies x) d t.0 m)),
      )
      | inl e ↦
          let done = same_activity_iff (activities x) completed e in
          elim (first_open dependencies activities (seen ++ x ∷ []) xs t.1
            (All-append (λ y. activities y ≡ completed) seen (x ∷ []) h (done, tt))) [
              | inl rest ↦ inl (done, rest)
              | inr (y, m, n, k) ↦ inr (y, ground arith, n, k)
            ]
    ]

-- A projected model with no global blocker: its rows are those of the authored ids.
module _ (plan : Tasks) (persisted : Persisted) (global : Option ReadinessBlocker)
    (model : ReadinessModel) (p : Projected plan persisted global model) where
  activities : String → TaskActivity
  activities = by_id plan persisted global model p

  pub model_tasks :
      model.tasks
      ≡ map (row_at p.graph (by_id plan persisted global model p) global) p.graph.authored
  model_tasks =
      ap (λ (m : ReadinessModel). m.tasks) p.model_is
      ∙ tasks-add_all p.graph (by_id plan persisted global model p) global p.graph.authored
          (start_model global)

  pub model_fixed : (model.plan_invalid ≡ none) × (model.global ≡ global)
  model_fixed =
      let fixed =
        fixed-add_all p.graph (by_id plan persisted global model p) global p.graph.authored
          (start_model global) in
      (
        ap (λ (m : ReadinessModel). m.plan_invalid) p.model_is ∙ fixed.0,
        ap (λ (m : ReadinessModel). m.global) p.model_is ∙ fixed.1,
      )

  all_complete_iff : (all_complete model ≡ true) ↔ (
      (global ≡ none)
      × All (λ x. by_id plan persisted global model p x ≡ completed) p.graph.authored)
  unfolding all_complete
  all_complete_iff =
      let rows =
        every_row_iff p.graph (by_id plan persisted global model p) global p.graph.authored in
      (
        λ h. (ground (arith, model_fixed), rows.0 (ground (arith, model_fixed, model_tasks))),
        λ h. ground (arith, model_fixed, model_tasks, rows.1 h.1),
      )

-- A task that holds the change up: it is in progress, failed or blocked, and waits for no other task.
pub record HoldsUp (plan : Tasks) (persisted : Persisted) (x : String) (a : TaskActivity)
    : Type 0 where
  pub graph : TaskGraph
  pub built : build_task_graph plan ≡ ok graph
  pub canonical : contains graph.authored x ≡ true
  pub has : project_task_activity persisted x ≡ some a
  pub not_pending : a ≢ pending
  pub not_completed : a ≢ completed
  pub supplied :
      All (λ d. project_task_activity persisted d ≡ some completed) (graph.dependencies x)

open_case :
    (plan : Tasks) (persisted : Persisted) (model : ReadinessModel)
    (p : Projected plan persisted none model) (x : String)
    → contains p.graph.authored x ≡ true
    → same_activity (by_id plan persisted none model p x) completed ≡ false
    → All (λ d. by_id plan persisted none model p d ≡ completed) (p.graph.dependencies x)
    → (in_frontier model x ≡ true) ⊎ HoldsUp plan persisted x (by_id plan persisted none model p x)
open_case plan persisted model p x k n h =
    let a = by_id plan persisted none model p x in
    let deps = p.graph.dependencies x in
    let done = (all_completed_iff (by_id plan persisted none model p) deps).1 h in
    elim (Bool-cases (same_activity a pending)) [
      | inl e ↦ inl (
          frontier_is plan persisted none model p x
          ∙ rw (
            k,
            (is_ready_iff a deps (by_id plan persisted none model p) none).1
                (refl, same_activity_iff a pending e, done),
          ))
      | inr e ↦ inr (record {
        graph = p.graph;
        built = p.built;
        canonical = k;
        has = activity_of_known plan persisted none model p x k;
        not_pending = λ q. cc (e, ap (λ b. same_activity b pending) q);
        not_completed = λ q. cc (n, ap (λ b. same_activity b completed) q);
        supplied = (supplied_iff plan persisted none model p x k).0 done;
      })
    ]

progress_of :
    (plan : Tasks) (persisted : Persisted) (model : ReadinessModel)
    → Projected plan persisted none model
    → (all_complete model ≡ true)
      ⊎ ((x : String) × ((in_frontier model x ≡ true)
            ⊎ ((a : TaskActivity) × HoldsUp plan persisted x a)))
progress_of plan persisted model p =
    let sorted = build-IsTopological plan p.graph p.built in
    let activities = by_id plan persisted none model p in
    elim (first_open p.graph.dependencies activities [] p.graph.order sorted.2 tt) [
      | inl done ↦ inl (
          (all_complete_iff plan persisted none model p).1 (
            refl,
            All-intro (λ x. activities x ≡ completed) p.graph.authored
                (λ x m.
                  All-of_contains (λ y. activities y ≡ completed) p.graph.order x done
                    (sorted.4 x ∙ m)),
          ))
      | inr (x, m, n, h) ↦ elim (open_case plan persisted model p x (sym (sorted.4 x) ∙ m) n h) [
        | inl ready ↦ inr (x, inl ready)
        | inr held ↦ inr (x, inr (activities x, held))
      ]
    ]

-- Where no global blocker stands (an approved change under a current approval), the change never
-- stalls silently: all tasks are completed, or one is in the frontier, or one whose dependencies are
-- all completed is neither pending nor completed, so that its own activity holds the change up.
pub no_silent_stall :
    (plan : Tasks) (persisted : Persisted) (lifecycle : String) (approval : ApprovalStatus)
    → (project_readiness plan persisted lifecycle approval).global ≡ none
    → (all_complete (project_readiness plan persisted lifecycle approval) ≡ true)
      ⊎ ((x : String) × ((in_frontier (project_readiness plan persisted lifecycle approval) x
              ≡ true)
            ⊎ ((a : TaskActivity) × HoldsUp plan persisted x a)))
no_silent_stall plan persisted lifecycle approval h =
    elim (project_readiness-cases plan persisted lifecycle approval) [
      | inl bad ↦ cc (h, ap (λ (m : ReadinessModel). m.global) bad)
      | inr p ↦
          let clear =
            sym (model_fixed plan persisted (readiness_approval_blocker lifecycle approval) _ p).1
            ∙ h in
          progress_of plan persisted (project_readiness plan persisted lifecycle approval) (
            subst
              (λ b.
                Projected plan persisted b (project_readiness plan persisted lifecycle approval))
              clear p)
    ]
