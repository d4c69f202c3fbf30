-- ===== src/Task/Readiness/Model.antt =====
-- The two forms of a readiness model of internal/core/readiness.go: the invalid one, and one whose
-- rows come from a built graph and a projected activity object.
use specd_cli.Base.{
  String, ◌≡◌, refl, sym, ap, subst, ◌∙◌, true, false, Option, none, some, List, [], ◌∷◌, ◌==◌,
  eq_iff, contains, distinct, ok, arith, inl, inr, ◌⊎◌, Bool-cases, Outcome-cases,
}
use specd_cli.Plan.Model.{Tasks}
use specd_cli.Approval.Types.{ApprovalStatus}
use specd_cli.Task.Activity.Defs.{
  TaskActivity, other, same_activity, TaskActivityProjection, Persisted, project_task_activity,
  project_task_activities,
}
use specd_cli.Task.Activity.Laws.{Covers}
use specd_cli.Task.Graph.Defs.{TaskGraph, build_task_graph, update}
use specd_cli.Task.Graph.Levels.{Level-some, build-Level}
use specd_cli.Task.Readiness.Defs.{
  ReadinessBlocker, ReadinessModel, readiness_approval_blocker, invalid_readiness_model,
  activity_by_id, is_plan_invalid, readiness_of, project_readiness,
}
use specd_cli.Task.Readiness.Rows.{add_all, add_rows-eq-add_all}

pub same_activity_iff : (a b : TaskActivity) → same_activity a b ≡ true → a ≡ b
same_activity_iff TaskActivity.pending TaskActivity.pending h = refl
same_activity_iff TaskActivity.in_progress TaskActivity.in_progress h = refl
same_activity_iff TaskActivity.completed TaskActivity.completed h = refl
same_activity_iff TaskActivity.failed TaskActivity.failed h = refl
same_activity_iff TaskActivity.blocked TaskActivity.blocked h = refl
same_activity_iff (other s) (other t) h = ap other ((eq_iff s t).0 h)
same_activity_iff a b h = absurd (ground arith)

activity_by_id-absent :
    (persisted : Persisted) (ids : List String) (rows : List TaskActivityProjection)
    (m : String → TaskActivity) (x : String)
    → Covers persisted ids rows
    → contains ids x ≡ false
    → activity_by_id rows m x ≡ m x
unfolding activity_by_id contains
activity_by_id-absent persisted [] [] m x c n = refl
activity_by_id-absent persisted [] (row ∷ rows) m x c n = absurd c
activity_by_id-absent persisted (id ∷ ids) [] m x c n = absurd c
activity_by_id-absent persisted (id ∷ ids) (row ∷ rows) m x c n =
    activity_by_id-absent persisted ids rows (update m row.id row.activity) x c.2 (ground arith)
    ∙ rw c.0 (ground arith)

-- The map of activities agrees with the persisted object on the canonical ids.
pub activity_by_id-lem :
    (persisted : Persisted) (ids : List String) (rows : List TaskActivityProjection)
    (m : String → TaskActivity) (x : String)
    → Covers persisted ids rows
    → distinct ids ≡ true
    → contains ids x ≡ true
    → project_task_activity persisted x ≡ some (activity_by_id rows m x)
unfolding activity_by_id contains distinct
activity_by_id-lem persisted [] rows m x c u k = cc
activity_by_id-lem persisted (id ∷ ids) [] m x c u k = absurd c
activity_by_id-lem persisted (id ∷ ids) (row ∷ rows) m x c u k = elim (Bool-cases (id == x)) [
  | inl e ↦
      let same : id ≡ x = (eq_iff id x).0 e in
      subst
        (λ y.
          project_task_activity persisted y
          ≡ some (activity_by_id rows (update m row.id row.activity) y))
        same
        (c.1
          ∙ ap some (
              sym (
                activity_by_id-absent persisted ids rows (update m row.id row.activity) id c.2
                  (ground arith)
                ∙ rw (c.0, (eq_iff id id).1 refl))))
  | inr e ↦
      activity_by_id-lem persisted ids rows (update m row.id row.activity) x c.2 (ground arith)
        (ground arith)
]

abbrev pub start_model : Option ReadinessBlocker → ReadinessModel
start_model global = record {
  tasks = [];
  frontier = [];
  plan_invalid = none;
  primary = global;
  global = global;
}

-- A model that is projected from `g` and `rows`.
pub record Projected (plan : Tasks) (persisted : Persisted) (global : Option ReadinessBlocker)
    (model : ReadinessModel) : Type 0 where
  pub graph : TaskGraph
  pub rows : List TaskActivityProjection
  pub built : build_task_graph plan ≡ ok graph
  pub projected : project_task_activities graph.authored persisted ≡ ok rows
  pub legal : is_plan_invalid global ≡ false
  pub model_is :
      model
      ≡ add_all graph
          (activity_by_id rows (λ id. other ""))
          global
          graph.authored
          (start_model global)

readiness_of-Projected :
    (plan : Tasks) (g : TaskGraph) (rows : List TaskActivityProjection)
    (global : Option ReadinessBlocker)
    → build_task_graph plan ≡ ok g
    → is_plan_invalid global ≡ false
    → readiness_of g rows global
      ≡ add_all g (activity_by_id rows (λ id. other "")) global g.authored (start_model global)
unfolding readiness_of
readiness_of-Projected plan g rows global built legal = ground (
  arith,
  add_rows-eq-add_all g (activity_by_id rows (λ id. other "")) global g.authored
      (start_model global)
      (λ x m.
        let (v, e) =
          Level-some g.wave (g.dependencies x) (g.wave x) ((build-Level plan g built).0 x m) in
        rw e),
)

-- The model over an accepted plan and accepted activities.
pub project_readiness-eq :
    (plan : Tasks) (persisted : Persisted) (lifecycle : String) (approval : ApprovalStatus)
    (g : TaskGraph) (rows : List TaskActivityProjection)
    → build_task_graph plan ≡ ok g
    → project_task_activities g.authored persisted ≡ ok rows
    → is_plan_invalid (readiness_approval_blocker lifecycle approval) ≡ false
    → project_readiness plan persisted lifecycle approval
      ≡ add_all g
          (activity_by_id rows (λ id. other ""))
          (readiness_approval_blocker lifecycle approval)
          g.authored
          (start_model (readiness_approval_blocker lifecycle approval))
unfolding project_readiness
project_readiness-eq plan persisted lifecycle approval g rows built projected legal = ground (
  arith,
  readiness_of-Projected plan g rows (readiness_approval_blocker lifecycle approval) built legal,
)

-- A readiness model is the invalid one, or it is projected.
pub project_readiness-cases :
    (plan : Tasks) (persisted : Persisted) (lifecycle : String) (approval : ApprovalStatus)
    → (project_readiness plan persisted lifecycle approval ≡ invalid_readiness_model)
      ⊎ Projected plan persisted
          (readiness_approval_blocker lifecycle approval)
          (project_readiness plan persisted lifecycle approval)
unfolding project_readiness
project_readiness-cases plan persisted lifecycle approval =
    let global = readiness_approval_blocker lifecycle approval in
    elim (Outcome-cases (build_task_graph plan)) [
      | inr (r, e) ↦ inl (ground arith)
      | inl (g, built) ↦ elim (Outcome-cases (project_task_activities g.authored persisted)) [
        | inr (r, e) ↦ inl (ground arith)
        | inl (rows, projected) ↦ elim (Bool-cases (is_plan_invalid global)) [
          | inl bad ↦ inl (unfold readiness_of in ground arith)
          | inr legal ↦ inr (record {
            graph = g;
            rows = rows;
            built = built;
            projected = projected;
            legal = legal;
            model_is =
                project_readiness-eq plan persisted lifecycle approval g rows built projected legal;
          })
        ]
      ]
    ]
