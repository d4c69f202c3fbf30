-- ===== src/Task/Graph/Build.antt =====
-- What `BuildTaskGraph` of internal/core/taskgraph.go returns: when it succeeds, and its order.
use specd_cli.Base.{
  ℕ, zero, suc, ◌+◌, String, ◌≡◌, ◌≢◌, refl, subst, true, false, List, [], ◌∷◌, none, ◌++◌, eq_iff,
  length, length-append, contains, count, distinct, Outcome, ok, >>=-eq-ok, ◌>>=◌, ℤ, pos, negsuc,
  arith, All,
}
use specd_cli.Plan.Model.{Task, Tasks}
use specd_cli.Task.Graph.Defs.{
  TaskGraph, update, next_ready, release, order_tasks, GraphRefusal, build_task_graph, task_ids,
  check_tasks, register_dependencies, link_tasks, count_dependencies, assign_waves,
}
use specd_cli.Task.Graph.Kahn.{next_ready-ready}
use specd_cli.Task.Graph.Order.{Ordering, Ordering-round}

module _ (authored : List String) (dependencies dependents : String → List String)
    (mirrored : (d x : String)
      → contains authored x ≡ true
      → count x (dependents d) ≡ count d (dependencies x)) where
  pub order_tasks-Ordering :
      (left : ℕ) (indegree : String → ℤ) (order result : List String)
      → Ordering authored dependencies dependents indegree order
      → order_tasks left authored dependencies dependents indegree order ≡ ok result
      → (indegree' : String → ℤ) × Ordering authored dependencies dependents indegree' result
        × (length result ≡ length order + left)
  unfolding order_tasks
  order_tasks-Ordering zero indegree order result inv h =
      let e : order ≡ result = ground arith in
      subst
        (λ r.
          (n : String → ℤ) × Ordering authored dependencies dependents n r
          × (length r ≡ length order + 0))
        e (indegree, inv, omega arith)
  order_tasks-Ordering (suc left) indegree order result inv h =
      let next = next_ready indegree authored in
      let nonempty : next ≢ "" = λ e. ground (arith, eq_iff next "") in
      let (is_known, ready) = next_ready-ready indegree authored nonempty in
      let (n, inv', len) =
        order_tasks-Ordering left (release (dependents next) (update indegree next (negsuc 0)))
          (order ++ next ∷ []) result
          (Ordering-round authored dependencies dependents mirrored indegree order inv next is_known
            ready)
          (ground (arith, eq_iff next "")) in
      (n, inv', omega (arith, len, length-append order (next ∷ [])))

-- Tasks that pass the first two loops: a valid plan, and ids that are distinct and not empty.
pub record AreNamed (tasks : List Task) : Type 0 where
  pub valid : All (λ task. task.valid ≡ true) tasks
  pub nonempty : contains (task_ids tasks) "" ≡ false
  pub once : distinct (task_ids tasks) ≡ true

pub check_tasks-AreNamed :
    (seen : List String) (tasks : List Task) (n : ℕ)
    → check_tasks seen tasks n ≡ ok tt
    → AreNamed tasks × ((x : String) → contains seen x ≡ true → contains (task_ids tasks) x ≡ false)
unfolding check_tasks contains distinct
check_tasks-AreNamed seen [] n h =
    (record { valid = tt; nonempty = refl; once = refl }, λ x m. refl)
check_tasks-AreNamed seen (task ∷ tasks) n h =
    let (rest, apart) = check_tasks-AreNamed (task.id ∷ seen) tasks (n + 1) (ground arith) in
    (
      record {
        valid = (ground arith, rest.valid);
        nonempty = ground (arith, rest.nonempty);
        once = ground (arith, rest.once, apart task.id, eq_iff task.id task.id);
      },
      λ x m. ground (arith, apart x, eq_iff task.id x),
    )

pub AreNamed-check_tasks :
    (seen : List String) (tasks : List Task) (n : ℕ)
    → AreNamed tasks
    → ((x : String) → contains seen x ≡ true → contains (task_ids tasks) x ≡ false)
    → check_tasks seen tasks n ≡ ok tt
unfolding check_tasks contains distinct
AreNamed-check_tasks seen [] n named apart = refl
AreNamed-check_tasks seen (task ∷ tasks) n named apart = ground (
  arith,
  named.valid.0,
  named.nonempty,
  named.once,
  apart task.id,
  eq_iff task.id task.id,
  AreNamed-check_tasks (task.id ∷ seen) tasks (n + 1)
      (record {
        valid = named.valid.1;
        nonempty = ground (arith, named.nonempty);
        once = ground (arith, named.once);
      })
      (λ x m. ground (arith, apart x, named.once, eq_iff task.id x)),
)

-- The waves are written beside the fields that the order was built from.
pub assign_waves-fields :
    (ids : List String) (g : TaskGraph)
    → ((assign_waves ids g).authored ≡ g.authored)
      × ((assign_waves ids g).order ≡ g.order)
      × ((assign_waves ids g).dependencies ≡ g.dependencies)
      × ((assign_waves ids g).dependents ≡ g.dependents)
unfolding assign_waves
assign_waves-fields [] g = (refl, refl, refl, refl)
assign_waves-fields (id ∷ ids) g = assign_waves-fields ids _

-- The last steps of the build, over the order and over the dependents.
abbrev pub graph_start : Tasks → (String → List String) → List String → TaskGraph
graph_start plan dependents order = record {
  authored = task_ids plan.tasks;
  order = order;
  waves = [];
  dependencies = register_dependencies plan.tasks (λ id. []);
  dependents = dependents;
  wave = λ id. none;
}

abbrev pub graph_of : Tasks → (String → List String) → List String → TaskGraph
graph_of plan dependents order = assign_waves order (graph_start plan dependents order)

abbrev pub order_of : Tasks → (String → List String) → Outcome GraphRefusal (List String)
order_of plan dependents =
    order_tasks (length plan.tasks) (task_ids plan.tasks)
      (register_dependencies plan.tasks (λ id. [])) dependents
      (count_dependencies plan.tasks (λ id. pos 0)) []

abbrev pub after_links : Tasks → (String → List String) → Outcome GraphRefusal TaskGraph
after_links plan dependents =
    order_of plan dependents >>= λ order. ok (graph_of plan dependents order)

abbrev pub after_checks : Tasks → Outcome GraphRefusal TaskGraph
after_checks plan = link_tasks (task_ids plan.tasks) plan.tasks (λ id. []) >>= after_links plan

-- The parts of a successful build.
pub record Parts (plan : Tasks) (g : TaskGraph) : Type 0 where
  pub dependents : String → List String
  pub order : List String
  pub no_diagnostics : plan.diagnostics ≡ []
  pub checked : check_tasks [] plan.tasks 0 ≡ ok tt
  pub linked : link_tasks (task_ids plan.tasks) plan.tasks (λ id. []) ≡ ok dependents
  pub ordered : order_of plan dependents ≡ ok order
  pub waved : g ≡ graph_of plan dependents order

pub build-Parts : (plan : Tasks) (g : TaskGraph) → build_task_graph plan ≡ ok g → Parts plan g
unfolding build_task_graph
build-Parts plan g h =
    let clean : plan.diagnostics ≡ [] = ground arith in
    let h₀ : (check_tasks [] plan.tasks 0 >>= λ _. after_checks plan) ≡ ok g = ground arith in
    let (_, e₁, h₁) = >>=-eq-ok (check_tasks [] plan.tasks 0) (λ _. after_checks plan) h₀ in
    let (dependents, e₂, h₂) =
      >>=-eq-ok (link_tasks (task_ids plan.tasks) plan.tasks (λ id. [])) (after_links plan) h₁ in
    let (order, e₃, h₃) =
      >>=-eq-ok (order_of plan dependents) (λ order. ok (graph_of plan dependents order)) h₂ in
    record {
      dependents = dependents;
      order = order;
      no_diagnostics = clean;
      checked = ground arith;
      linked = e₂;
      ordered = e₃;
      waved = ground arith;
    }
