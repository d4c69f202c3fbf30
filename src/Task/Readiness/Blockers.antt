-- ===== src/Task/Readiness/Blockers.antt =====
-- The outcome of internal/core/readiness.go: a model that is neither runnable nor complete names the
-- blocker that ranks first.
use specd_cli.Base.{
  ℕ, ◌≤◌, ◌<◌, String, ◌≡◌, ◌↔◌, refl, sym, ap, subst, ◌∙◌, true, false, not, ◌⊎◌, Option, none,
  some, List, [], ◌∷◌, eq_iff, contains, is_some, arith, All, inl, inr, Bool-cases, Option-cases,
  map,
}
use specd_cli.Plan.Model.{Tasks}
use specd_cli.Approval.Types.{ApprovalStatus}
use specd_cli.Task.Activity.Defs.{TaskActivity, Persisted}
use specd_cli.Task.Graph.Defs.{TaskGraph}
use specd_cli.Task.Readiness.Defs.{
  ReadinessBlocker, TaskReadiness, ReadinessModel, readiness_approval_blocker, project_readiness,
  find_row, derive_task_readiness, is_ready, is_empty, code_rank, blocker_rank, outcome,
  all_complete, in_frontier, blocker_for_invalid_plan, every_row_completed, classification_of,
}
use specd_cli.Task.Readiness.Rows.{row_at, derived, primary-add_all}
use specd_cli.Task.Readiness.Model.{Projected, project_readiness-cases, start_model}
use specd_cli.Task.Readiness.Frontier.{by_id, frontier_is}
use specd_cli.Task.Readiness.Progress.{model_tasks, model_fixed}
use specd_cli.Task.Readiness.Retry.{find_row-map}

code_rank-le : (code : String) → code_rank code ≤ 7
unfolding code_rank
code_rank-le code = ground arith

-- A row that is not ready has a blocker, and a row that is ready has none.
not_ready-blocker :
    (activity : TaskActivity) (ds : List String) (activities : String → TaskActivity)
    (global : Option ReadinessBlocker)
    → is_some (derive_task_readiness activity ds activities global).1
      ≡ not (is_ready (derive_task_readiness activity ds activities global).0)
unfolding derive_task_readiness
not_ready-blocker activity ds activities global = ground arith

rank_of_some : (o : Option ReadinessBlocker) → (is_some o ≡ true) ↔ (blocker_rank o < 99)
unfolding blocker_rank
rank_of_some none = (λ h. cc, λ h. absurd (omega arith))
rank_of_some (some b) = (λ h. omega (arith, code_rank-le b.code), λ h. refl)

-- The blocker is the global one, or that of a row, and no row has one of a lower rank.
pub record RanksFirst (model : ReadinessModel) (b : ReadinessBlocker) : Type 0 where
  pub source :
      (model.global ≡ some b)
      ⊎ ((x : String) × (row : TaskReadiness) × (find_row model.tasks x ≡ some row)
          × (row.blocker ≡ some b))
  pub least : All (λ (row : TaskReadiness). code_rank b.code ≤ blocker_rank row.blocker) model.tasks

all_rows :
    (g : TaskGraph) (a : String → TaskActivity) (global : Option ReadinessBlocker) (n : ℕ)
    (ids : List String)
    → ((x : String) → contains ids x ≡ true → n ≤ blocker_rank (derived g a global x).1)
    → All (λ (row : TaskReadiness). n ≤ blocker_rank row.blocker) (map (row_at g a global) ids)
unfolding contains
all_rows g a global n [] h = tt
all_rows g a global n (id ∷ ids) h =
    (h id (ground (arith, eq_iff id id)), all_rows g a global n ids (λ x m. h x (ground arith)))

-- With no blocked row every id is ready, so the frontier is empty only if there is no id.
no_rows :
    (frontier : List String) → is_empty frontier ≡ true → (x : String) → contains frontier x ≡ false
unfolding contains
no_rows [] h x = refl
no_rows (y ∷ ys) h x = cc

empty_or_member : (xs : List String) → (xs ≡ []) ⊎ ((x : String) × (contains xs x ≡ true))
unfolding contains
empty_or_member [] = inl refl
empty_or_member (x ∷ xs) = inr (x, ground (arith, eq_iff x x))

module _ (plan : Tasks) (persisted : Persisted) (global : Option ReadinessBlocker)
    (model : ReadinessModel) (p : Projected plan persisted global model)
    (idle : is_empty model.frontier ≡ true) where
  all_blocked :
      (x : String)
      → contains p.graph.authored x ≡ true
      → is_ready (derived p.graph (by_id plan persisted global model p) global x).0 ≡ false
  all_blocked x k =
      let out : in_frontier model x ≡ false = unfold in_frontier in no_rows model.frontier idle x in
      ground (arith, frontier_is plan persisted global model p x)

  rank_below :
      (blocker_rank model.primary ≤ blocker_rank global)
      × ((x : String)
          → contains p.graph.authored x ≡ true
          → blocker_rank model.primary
            ≤ blocker_rank (derived p.graph (by_id plan persisted global model p) global x).1)
  rank_below =
      let a = by_id plan persisted global model p in
      let (first, each, _) =
        primary-add_all p.graph a global p.graph.authored (start_model global) in
      let same = ap (λ (m : ReadinessModel). blocker_rank m.primary) p.model_is in
      (rw same first, λ x k. rw same (each x k (all_blocked x k)))

  some_primary : all_complete model ≡ false → is_some model.primary ≡ true
  unfolding all_complete every_row_completed
  some_primary n = elim (Bool-cases (is_some global)) [
    | inl e ↦
        (rank_of_some model.primary).1 (omega (arith, rank_below.0, (rank_of_some global).0 e))
    | inr e ↦ elim (empty_or_member p.graph.authored) [
      | inl none_left ↦
          let fixed = model_fixed plan persisted global model p in
          let rows = model_tasks plan persisted global model p in
          absurd (ground (arith, fixed, rows, none_left))
      | inr (x, k) ↦
          let a = by_id plan persisted global model p in
          let blocked = not_ready-blocker (a x) (p.graph.dependencies x) a global in
          let stands : is_some (derived p.graph a global x).1 ≡ true =
            blocked ∙ ap not (all_blocked x k) in
          (rank_of_some model.primary).1 (
            omega (arith, rank_below.1 x k, (rank_of_some (derived p.graph a global x).1).0 stands))
    ]
  ]

  primary-RanksFirst : (b : ReadinessBlocker) → model.primary ≡ some b → RanksFirst model b
  primary-RanksFirst b e =
      let a = by_id plan persisted global model p in
      let (_, _, origin) = primary-add_all p.graph a global p.graph.authored (start_model global) in
      let same = ap (λ (m : ReadinessModel). m.primary) p.model_is in
      let fixed = model_fixed plan persisted global model p in
      let rank : blocker_rank model.primary ≡ code_rank b.code = unfold blocker_rank in rw e in
      record {
        source = elim origin [
          | inl from_global ↦ inl (fixed.1 ∙ sym from_global ∙ sym same ∙ e)
          | inr (x, k, from_row) ↦ inr (
            x,
            row_at p.graph a global x,
            ap (λ rows. find_row rows x) (model_tasks plan persisted global model p)
                ∙ find_row-map p.graph a global p.graph.authored x
                ∙ rw k,
            sym from_row ∙ sym same ∙ e,
          )
        ];
        least = rw (model_tasks plan persisted global model p) (
            all_rows p.graph a global (code_rank b.code) p.graph.authored
              (λ x k. rw (← rank) (rank_below.1 x k)));
      }

-- Where nothing is in the frontier and the change is not complete, the outcome names a blocker: the
-- global one or that of a row, of the lowest rank of all, and the classification is that of its code.
pub outcome-RanksFirst :
    (plan : Tasks) (persisted : Persisted) (lifecycle : String) (approval : ApprovalStatus)
    → is_empty (project_readiness plan persisted lifecycle approval).frontier ≡ true
    → all_complete (project_readiness plan persisted lifecycle approval) ≡ false
    → (b : ReadinessBlocker) × (outcome (project_readiness plan persisted lifecycle approval)
        ≡ record { classification = classification_of b.code; blocker = some b })
      × RanksFirst (project_readiness plan persisted lifecycle approval) b
unfolding outcome
outcome-RanksFirst plan persisted lifecycle approval idle unfinished =
    let model = project_readiness plan persisted lifecycle approval in
    let global = readiness_approval_blocker lifecycle approval in
    elim (project_readiness-cases plan persisted lifecycle approval) [
      | inl bad ↦
          subst
            (λ (m : ReadinessModel).
              (b : ReadinessBlocker) × (outcome m
                ≡ record { classification = classification_of b.code; blocker = some b })
              × RanksFirst m b)
            (sym bad) (blocker_for_invalid_plan, refl, record { source = inl refl; least = tt })
      | inr p ↦ elim (Option-cases model.primary) [
        | inl e ↦ cc (ap is_some e, some_primary plan persisted global model p idle unfinished)
        | inr (b, e) ↦ (b, ground arith, primary-RanksFirst plan persisted global model p idle b e)
      ]
    ]
