-- ===== src/Task/Readiness/Rows.antt =====
-- The row loop of `ProjectReadiness` in internal/core/readiness.go: what it leaves in each field.
use mathlib.Core.List.{append-nil, append_assoc}
use specd_cli.Base.{
  ◌≤◌, String, ◌≡◌, refl, sym, ap, subst, ◌∙◌, true, false, ◌&&◌, ◌||◌, Option, some, List, [], ◌∷◌,
  ◌++◌, ◌==◌, eq_iff, if◌then◌else◌, contains, contains-append, is_some, arith, inl, inr, ◌⊎◌,
  Bool-cases, map,
}
use specd_cli.Task.Activity.Defs.{TaskActivity}
use specd_cli.Task.Graph.Defs.{TaskGraph, wave_or_zero}
use specd_cli.Task.Readiness.Defs.{
  Readiness, ReadinessBlocker, TaskReadiness, ReadinessModel, derive_task_readiness, blocker_rank,
  add_row, add_rows, is_ready,
}

module _ (g : TaskGraph) (by_id : String → TaskActivity) (global : Option ReadinessBlocker) where
  abbrev pub derived : String → Readiness × Option ReadinessBlocker
  derived id = derive_task_readiness (by_id id) (g.dependencies id) by_id global

  -- The row of one id.
  abbrev pub row_at : String → TaskReadiness
  row_at id = record {
    id = id;
    activity = by_id id;
    readiness = (derived id).0;
    wave = wave_or_zero (g.wave id);
    dependencies = g.dependencies id;
    blocker = (derived id).1;
  }

  -- The loop where every id has a wave.
  unfoldable pub add_all : List String → ReadinessModel → ReadinessModel
  add_all [] model = model
  add_all (id ∷ ids) model =
      add_all ids (add_row g.dependencies by_id global id (wave_or_zero (g.wave id)) model)

  pub add_rows-eq-add_all :
      (ids : List String) (model : ReadinessModel)
      → ((x : String) → contains ids x ≡ true → is_some (g.wave x) ≡ true)
      → add_rows g by_id global ids model ≡ some (add_all ids model)
  unfolding add_rows add_all contains
  add_rows-eq-add_all [] model h = refl
  add_rows-eq-add_all (id ∷ ids) model h = ground (
    arith,
    h id,
    eq_iff id id,
    add_rows-eq-add_all ids
        (add_row g.dependencies by_id global id (wave_or_zero (g.wave id)) model)
        (λ x m. h x (ground arith)),
  )

  add_row-fields :
      (id : String) (model : ReadinessModel)
      → let model' = add_row g.dependencies by_id global id (wave_or_zero (g.wave id)) model in
        (model'.tasks ≡ model.tasks ++ row_at id ∷ [])
        × (model'.plan_invalid ≡ model.plan_invalid)
        × (model'.global ≡ model.global)
        × (model'.frontier
            ≡ (if is_ready (derived id).0 then model.frontier ++ id ∷ [] else model.frontier))
        × (blocker_rank model'.primary ≤ blocker_rank model.primary)
        × (is_ready (derived id).0 ≡ false
            → blocker_rank model'.primary ≤ blocker_rank (derived id).1)
        × ((model'.primary ≡ model.primary) ⊎ (model'.primary ≡ (derived id).1))
  unfolding add_row
  add_row-fields id model = ground arith

  pub tasks-add_all :
      (ids : List String) (model : ReadinessModel)
      → (add_all ids model).tasks ≡ model.tasks ++ map row_at ids
  unfolding add_all
  tasks-add_all [] model = sym (append-nil model.tasks)
  tasks-add_all (id ∷ ids) model =
      let model' = add_row g.dependencies by_id global id (wave_or_zero (g.wave id)) model in
      tasks-add_all ids model'
      ∙ ap (λ (ts : List TaskReadiness). ts ++ map row_at ids) (add_row-fields id model).0
      ∙ append_assoc model.tasks (row_at id ∷ []) (map row_at ids)

  pub fixed-add_all :
      (ids : List String) (model : ReadinessModel)
      → ((add_all ids model).plan_invalid ≡ model.plan_invalid)
        × ((add_all ids model).global ≡ model.global)
  unfolding add_all
  fixed-add_all [] model = (refl, refl)
  fixed-add_all (id ∷ ids) model =
      let model' = add_row g.dependencies by_id global id (wave_or_zero (g.wave id)) model in
      let fields = add_row-fields id model in
      let later = fixed-add_all ids model' in (later.0 ∙ fields.1, later.1 ∙ fields.2)

  frontier-add_row :
      (id : String) (model : ReadinessModel) (x : String)
      → contains
          (add_row g.dependencies by_id global id (wave_or_zero (g.wave id)) model).frontier
          x
        ≡ (contains model.frontier x || (id == x && is_ready (derived x).0))
  unfolding contains
  frontier-add_row id model x = elim (Bool-cases (id == x)) [
    | inl e ↦
        subst
          (λ y.
            contains
              (add_row g.dependencies by_id global id (wave_or_zero (g.wave id)) model).frontier y
            ≡ (contains model.frontier y || (id == y && is_ready (derived y).0)))
          ((eq_iff id x).0 e)
          (ground (
            arith,
            contains-append model.frontier (id ∷ []) id,
            eq_iff id id,
            (add_row-fields id model).3,
          ))
    | inr e ↦
        ground (arith, contains-append model.frontier (id ∷ []) x, (add_row-fields id model).3)
  ]

  pub frontier-add_all :
      (ids : List String) (model : ReadinessModel) (x : String)
      → contains (add_all ids model).frontier x
        ≡ (contains model.frontier x || (contains ids x && is_ready (derived x).0))
  unfolding add_all contains
  frontier-add_all [] model x = ground arith
  frontier-add_all (id ∷ ids) model x =
      let model' = add_row g.dependencies by_id global id (wave_or_zero (g.wave id)) model in
      frontier-add_all ids model' x ∙ ground (arith, frontier-add_row id model x)

  -- The primary blocker ranks lowest of the given one and those of the rows that are not ready.
  pub primary-add_all :
      (ids : List String) (model : ReadinessModel)
      → (blocker_rank (add_all ids model).primary ≤ blocker_rank model.primary)
        × ((x : String)
            → contains ids x ≡ true
            → is_ready (derived x).0 ≡ false
            → blocker_rank (add_all ids model).primary ≤ blocker_rank (derived x).1)
        × (((add_all ids model).primary ≡ model.primary)
            ⊎ ((x : String) × (contains ids x ≡ true)
                × ((add_all ids model).primary ≡ (derived x).1)))
  unfolding add_all contains
  primary-add_all [] model = (omega arith, λ x m. cc, inl refl)
  primary-add_all (id ∷ ids) model =
      let model' = add_row g.dependencies by_id global id (wave_or_zero (g.wave id)) model in
      let fields = add_row-fields id model in
      let later = primary-add_all ids model' in
      (
        omega (arith, fields.4, later.0),
        λ x m n. elim (Bool-cases (id == x)) [
          | inl e ↦
              subst
                (λ y.
                  is_ready (derived y).0 ≡ false
                  → blocker_rank (add_all ids model').primary ≤ blocker_rank (derived y).1)
                ((eq_iff id x).0 e) (λ n'. omega (arith, later.0, fields.5 n')) n
          | inr e ↦ later.1 x (ground arith) n
        ],
        elim later.2 [
          | inl e ↦ elim fields.6 [
            | inl e' ↦ inl (e ∙ e')
            | inr e' ↦ inr (id, ground (arith, eq_iff id id), e ∙ e')
          ]
          | inr (x, m, e) ↦ inr (x, ground arith, e)
        ],
      )
