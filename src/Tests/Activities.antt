-- ===== src/Tests/Activities.antt =====
-- Runs of internal/core/taskactivity.go.
use specd_cli.Base.{String, ◌≡◌, refl, true, List, [], ◌∷◌, ok, err, contains, sort_texts}
use specd_cli.Task.Activity.Defs.{
  TaskActivity, pending, completed, blocked, text, null, Persisted, unknown_task,
  malformed_activity, project_task_activities, valid, project_task_activity,
}
use specd_cli.Task.Activity.Edges.{Reach, reach-completed}

abbrev ids : List String
ids = "build" ∷ "test" ∷ []

abbrev persisted : Persisted
persisted = ("build", text "completed") ∷ []

rows_of_two :
    project_task_activities ids persisted
    ≡ ok (
        record { id = "build"; activity = completed }
        ∷ record { id = "test"; activity = pending }
        ∷ [])
unfolding project_task_activities contains sort_texts project_task_activity
rows_of_two = refl

null_is_refused :
    project_task_activities ids (("test", null) ∷ []) ≡ err (malformed_activity "test")
unfolding project_task_activities contains sort_texts project_task_activity
null_is_refused = refl

first_unknown_by_name :
    project_task_activities ids (("zeta", text "x") ∷ ("alpha", text "x") ∷ [])
    ≡ err (unknown_task "alpha")
unfolding project_task_activities contains sort_texts project_task_activity
first_unknown_by_name = refl

reach-completed_example :
    Reach blocked completed
    × ((b : TaskActivity) → Reach blocked b → valid b ≡ true)
    × ((b : TaskActivity) → Reach completed b → b ≡ completed)
unfolding valid
reach-completed_example = reach-completed blocked refl
