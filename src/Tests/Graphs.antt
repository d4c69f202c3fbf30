-- ===== src/Tests/Graphs.antt =====
-- Runs of internal/core/taskgraph.go on a plan of three tasks and on a cycle of two.
use specd_cli.Base.{
  ℕ, String, ◌≡◌, refl, ◌↔◌, true, false, Option, some, List, [], ◌∷◌, ok, err, is_ok, contains,
  pred_ℤ,
}
use specd_cli.Plan.Model.{Location, Task, Tasks}
use specd_cli.Task.Graph.Defs.{
  TaskGraph, dependency_cycle, missing_dependency, build_task_graph, check_tasks,
  register_dependencies, link_tasks, count_dependencies, order_tasks, assign_waves,
}
use specd_cli.Task.Graph.Sound.{Orders, build-IsTopological}
use specd_cli.Task.Graph.Acyclic.{WellFormed, IsAcyclic, build-iff-IsAcyclic}
use specd_cli.Task.Graph.Levels.{wave_list, is_wave, build-Level}
use specd_cli.Task.Graph.Waves.{Level}

abbrev here : Location
here = record { path = "tasks.md"; offset = 0; line = 1; column = 1 }

abbrev pub task : String → List String → Task
task id depends_on = record {
  id = id;
  role = "builder";
  files = (id ∷ []);
  depends_on = depends_on;
  references = [];
  verify = "go test";
  acceptance = "it passes";
  source = [];
  location = here;
  valid = true;
}

abbrev pub plan_of : List Task → Tasks
plan_of tasks = record {
  source = record { path = "tasks.md"; bytes = []; present = true };
  tasks = tasks;
  waves = [];
  diagnostics = [];
}

abbrev pub diamond : Tasks
diamond = plan_of (task "c" ("a" ∷ "b" ∷ []) ∷ task "a" [] ∷ task "b" ("a" ∷ []) ∷ [])

abbrev pub diamond_graph : TaskGraph
unfolding build_task_graph check_tasks register_dependencies link_tasks count_dependencies
    order_tasks assign_waves contains pred_ℤ
diamond_graph = elim (build_task_graph diamond) [
  | ok g ↦ g
  | err e ↦ record {
    authored = [];
    order = [];
    waves = [];
    dependencies = λ id. [];
    dependents = λ id. [];
    wave = λ id. some 0;
  }
]

pub diamond_built : build_task_graph diamond ≡ ok diamond_graph
unfolding build_task_graph check_tasks register_dependencies link_tasks count_dependencies
    order_tasks assign_waves contains pred_ℤ
diamond_built = refl

diamond_order :
    (diamond_graph.order ≡ "a" ∷ "b" ∷ "c" ∷ [])
    × (diamond_graph.waves ≡ ("a" ∷ []) ∷ ("b" ∷ []) ∷ ("c" ∷ []) ∷ [])
unfolding build_task_graph check_tasks register_dependencies link_tasks count_dependencies
    order_tasks assign_waves contains pred_ℤ
diamond_order = (refl, refl)

cycle_refused :
    build_task_graph
      (plan_of (task "z" ("a" ∷ []) ∷ task "a" ("b" ∷ []) ∷ task "b" ("a" ∷ []) ∷ []))
    ≡ err (dependency_cycle ("a" ∷ "b" ∷ []))
unfolding build_task_graph check_tasks register_dependencies link_tasks count_dependencies
    order_tasks assign_waves contains pred_ℤ
cycle_refused = refl

missing_refused :
    build_task_graph (plan_of (task "a" ("q" ∷ []) ∷ [])) ≡ err (missing_dependency "a" "q")
unfolding build_task_graph check_tasks register_dependencies link_tasks contains
missing_refused = refl

build-IsTopological_example : Orders diamond diamond_graph
build-IsTopological_example = build-IsTopological diamond diamond_graph diamond_built

build-Level_example :
    ((x : String)
      → contains diamond_graph.authored x ≡ true
      → Level diamond_graph.wave (diamond_graph.dependencies x) (diamond_graph.wave x))
    × ((w : ℕ) (x : String)
        → contains (wave_list diamond_graph.waves w) x ≡ is_wave (diamond_graph.wave x) w)
    × ((x : String)
        → contains diamond_graph.authored x ≡ false
        → diamond_graph.wave x ≡ Option.none)
build-Level_example = build-Level diamond diamond_graph diamond_built

build-iff-IsAcyclic_example :
    (is_ok (build_task_graph diamond) ≡ true) ↔ (WellFormed diamond × IsAcyclic diamond)
build-iff-IsAcyclic_example = build-iff-IsAcyclic diamond
