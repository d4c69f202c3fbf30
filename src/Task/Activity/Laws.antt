-- ===== src/Task/Activity/Laws.antt =====
-- When the projection of internal/core/taskactivity.go succeeds, and what its rows hold.
use specd_cli.Base.{
  ℕ, ◌+◌, String, ◌≡◌, inl, inr, refl, Bool, true, false, ◌&&◌, Option, none, some, List, [], ◌∷◌,
  ◌==◌, eq_iff, if◌then◌else◌, contains, Option-cases, is_some, sort_texts, insert_text, ok, is_ok,
  arith, Bool-cases,
}
use specd_cli.Task.Activity.Defs.{
  TaskActivity, TaskActivityProjection, Persisted, raw_of, check_ids, check_entries, project_rows,
  project_task_activity, project_task_activities, keys,
}

-- The ids are not empty, and none stands in `known` or occurs again.
unfoldable pub fresh_ids : List String → List String → Bool
fresh_ids known [] = true
fresh_ids known (id ∷ ids) =
    let rest = fresh_ids (id ∷ known) ids in
    if id == "" then false else if contains known id then false else rest

is_ok-check_ids :
    (known ids : List String) (n : ℕ) → is_ok (check_ids known ids n) ≡ fresh_ids known ids
unfolding check_ids fresh_ids
is_ok-check_ids known [] n = refl
is_ok-check_ids known (id ∷ ids) n = ground (arith, is_ok-check_ids (id ∷ known) ids (n + 1))

-- Every key names a known id and holds a value that decodes.
unfoldable pub entries_ok : List String → Persisted → List String → Bool
entries_ok known persisted [] = true
entries_ok known persisted (id ∷ ids) =
    contains known id
    && is_some (project_task_activity persisted id)
    && entries_ok known persisted ids

entry_ok_all :
    (known : List String) (persisted : Persisted) (ids : List String) (id : String)
    → entries_ok known persisted ids ≡ true
    → contains ids id ≡ true
    → (contains known id ≡ true) × (is_some (project_task_activity persisted id) ≡ true)
unfolding entries_ok contains
entry_ok_all known persisted [] id h m = cc
entry_ok_all known persisted (x ∷ ids) id h m =
    ground (arith, eq_iff x id, entry_ok_all known persisted ids id)

entries_ok-insert_text :
    (known : List String) (persisted : Persisted) (id : String) (ids : List String)
    → entries_ok known persisted (insert_text id ids) ≡ entries_ok known persisted (id ∷ ids)
unfolding entries_ok insert_text
entries_ok-insert_text known persisted id [] = refl
entries_ok-insert_text known persisted id (x ∷ ids) =
    ground (arith, entries_ok-insert_text known persisted id ids)

entries_ok-sort_texts :
    (known : List String) (persisted : Persisted) (ids : List String)
    → entries_ok known persisted (sort_texts ids) ≡ entries_ok known persisted ids
unfolding sort_texts entries_ok
entries_ok-sort_texts known persisted [] = refl
entries_ok-sort_texts known persisted (x ∷ ids) = ground (
  arith,
  entries_ok-insert_text known persisted x (sort_texts ids),
  entries_ok-sort_texts known persisted ids,
)

is_ok-check_entries :
    (known : List String) (persisted : Persisted) (ids : List String)
    → is_ok (check_entries known persisted ids) ≡ entries_ok known persisted ids
unfolding check_entries entries_ok
is_ok-check_entries known persisted [] = refl
is_ok-check_entries known persisted (x ∷ ids) =
    ground (arith, is_ok-check_entries known persisted ids)

abbrev activity_in : List TaskActivityProjection → String → Option TaskActivity
activity_in [] id = none
activity_in (row ∷ rows) id = if row.id == id then some row.activity else activity_in rows id

-- Each id has the first row of its name, and it holds the activity that the state gives the id.
abbrev pub Covers : Persisted → List String → List TaskActivityProjection → Type 0
Covers persisted [] [] = Unit
Covers persisted (id ∷ ids) (row ∷ rows) =
    (row.id ≡ id)
    × (project_task_activity persisted id ≡ some row.activity)
    × Covers persisted ids rows
Covers persisted _ _ = ⊥

project_rows-cons :
    (persisted : Persisted) (id : String) (ids : List String) (rows : List TaskActivityProjection)
    → project_rows persisted (id ∷ ids) ≡ ok rows
    → (a : TaskActivity) × (rest : List TaskActivityProjection) × (project_task_activity persisted
          id
        ≡ some a)
      × (project_rows persisted ids ≡ ok rest)
      × (rows ≡ record { id = id; activity = a } ∷ rest)
unfolding project_rows
project_rows-cons persisted id ids rows h = ground arith

project_rows-Covers :
    (persisted : Persisted) (ids : List String) (rows : List TaskActivityProjection)
    → project_rows persisted ids ≡ ok rows
    → Covers persisted ids rows
unfolding project_rows
project_rows-Covers persisted [] [] h = tt
project_rows-Covers persisted [] (row ∷ rows) h = cc
project_rows-Covers persisted (id ∷ ids) rows h =
    let (a, rest, found, tail, e) = project_rows-cons persisted id ids rows h in
    rw e (refl, found, project_rows-Covers persisted ids rest tail)

is_ok-project_rows :
    (known : List String) (persisted : Persisted) (ids : List String)
    → ((id : String) → contains ids id ≡ true → is_some (project_task_activity persisted id) ≡ true)
    → is_ok (project_rows persisted ids) ≡ true
unfolding project_rows contains
is_ok-project_rows known persisted [] h = refl
is_ok-project_rows known persisted (id ∷ ids) h = ground (
  arith,
  eq_iff id id,
  h id,
  is_ok-project_rows known persisted ids (λ x m. h x (ground (arith, eq_iff id x))),
)

contains_of_raw :
    (persisted : Persisted) (id : String)
    → is_some (raw_of persisted id) ≡ true
    → contains (keys persisted) id ≡ true
unfolding raw_of contains
contains_of_raw [] id h = cc
contains_of_raw ((k, raw) ∷ persisted) id h = ground (arith, contains_of_raw persisted id)

is_some_activity :
    (known : List String) (persisted : Persisted) (id : String)
    → entries_ok known persisted (keys persisted) ≡ true
    → is_some (project_task_activity persisted id) ≡ true
is_some_activity known persisted id h = elim (Option-cases (raw_of persisted id)) [
  | inl e ↦ unfold project_task_activity in ground arith
  | inr (raw, e) ↦
      (entry_ok_all known persisted (keys persisted) id h (contains_of_raw persisted id (rw e))).1
]

pub project_task_activities-exact :
    (ids : List String) (persisted : Persisted)
    → (is_ok (project_task_activities ids persisted)
        ≡ (fresh_ids [] ids && entries_ok ids persisted (keys persisted)))
      × ((rows : List TaskActivityProjection)
          → project_task_activities ids persisted ≡ ok rows
          → Covers persisted ids rows)
unfolding project_task_activities
project_task_activities-exact ids persisted =
    (exact, λ rows h. project_rows-Covers persisted ids rows (ground arith))
  where
    sorted : List String
    sorted = sort_texts (keys persisted)

    exact :
        is_ok (project_task_activities ids persisted)
        ≡ (fresh_ids [] ids && entries_ok ids persisted (keys persisted))
    exact = elim (Bool-cases (entries_ok ids persisted (keys persisted))) [
      | inl good ↦ ground (
        arith,
        is_ok-check_ids [] ids 0,
        is_ok-check_entries ids persisted sorted,
        entries_ok-sort_texts ids persisted (keys persisted),
        is_ok-project_rows ids persisted ids (λ id m. is_some_activity ids persisted id good),
      )
      | inr bad ↦ ground (
        arith,
        is_ok-check_ids [] ids 0,
        is_ok-check_entries ids persisted sorted,
        entries_ok-sort_texts ids persisted (keys persisted),
      )
    ]
