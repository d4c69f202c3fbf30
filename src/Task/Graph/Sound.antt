-- ===== src/Task/Graph/Sound.antt =====
-- The graph that `BuildTaskGraph` of internal/core/taskgraph.go returns is topologically ordered.
use specd_cli.Base.{
  All-of_contains, String, ◌≡◌, refl, ◌∙◌, sym, ap, subst, true, List, [], ◌∷◌, eq_iff, length,
  length-map, contains, distinct, ok, pos, arith, All, inl, inr, Bool-cases, length-le_of_distinct,
}
use specd_cli.Plan.Model.{Task, Tasks}
use specd_cli.Task.Graph.Defs.{
  TaskGraph, build_task_graph, task_ids, register_dependencies, count_dependencies,
}
use specd_cli.Task.Graph.Links.{
  link_tasks_iff, register-ProperDependencies, indegree-eq-length, count-dependents, register-own,
}
use specd_cli.Task.Graph.Kahn.{unmet-nil}
use specd_cli.Task.Graph.Order.{IsTopological, Ordering}
use specd_cli.Task.Graph.Build.{
  order_tasks-Ordering, AreNamed, check_tasks-AreNamed, assign_waves-fields, Parts, build-Parts,
  graph_start,
}

pub Parts-AreNamed : (plan : Tasks) (g : TaskGraph) → Parts plan g → AreNamed plan.tasks
Parts-AreNamed plan g parts = (check_tasks-AreNamed [] plan.tasks 0 parts.checked).0

-- Before the first round nothing is ordered and the indegrees are the lengths of the lists.
pub Ordering-start :
    (tasks : List Task) (dependents : String → List String)
    → AreNamed tasks
    → Ordering
        (task_ids tasks)
        (register_dependencies tasks (λ id. []))
        dependents
        (count_dependencies tasks (λ id. pos 0))
        []
unfolding contains distinct
Ordering-start tasks dependents named = record {
  open_count = λ x k n.
      indegree-eq-length tasks (λ id. []) (λ id. pos 0) x named.once k
      ∙ ap pos (sym (unmet-nil (register_dependencies tasks (λ id. []) x)));
  done_negative = λ x m. cc;
  known = λ x m. cc;
  once = refl;
  topological = tt;
}

-- A list that has no id twice, only known ids, and as many as there are known ids has them all.
fills :
    (known order : List String) (x : String)
    → distinct order ≡ true
    → ((y : String) → contains order y ≡ true → contains known y ≡ true)
    → length order ≡ length known
    → contains known x ≡ true
    → contains order x ≡ true
unfolding distinct contains
fills known order x u h len k = elim (Bool-cases (contains order x)) [
  | inl e ↦ e
  | inr e ↦ absurd (
      omega (
        arith,
        length-le_of_distinct (x ∷ order) known (ground arith)
            (λ y m. ground (arith, h y, eq_iff x y)),
      ))
]

abbrev pub SameMembers : List String → List String → Type 0
SameMembers xs ys = (x : String) → contains xs x ≡ contains ys x

same_members :
    (xs ys : List String) (x : String)
    → (contains xs x ≡ true → contains ys x ≡ true)
    → (contains ys x ≡ true → contains xs x ≡ true)
    → contains xs x ≡ contains ys x
same_members xs ys x f g = ground arith

-- The graph orders the plan.
abbrev pub Orders : Tasks → TaskGraph → Type 0
Orders plan g =
    (g.authored ≡ task_ids plan.tasks)
    × All (λ task. g.dependencies task.id ≡ task.depends_on) plan.tasks
    × IsTopological g.dependencies [] g.order
    × (distinct g.order ≡ true)
    × SameMembers g.order g.authored

-- A successful build keeps the authored order and each task's own dependencies, and its order has
-- every authored id exactly once, each after all of its dependencies.
pub build-IsTopological :
    (plan : Tasks) (g : TaskGraph) → build_task_graph plan ≡ ok g → Orders plan g
build-IsTopological plan g h =
    let parts = build-Parts plan g h in
    let named = Parts-AreNamed plan g parts in
    let ids = task_ids plan.tasks in
    let (n, inv, len) =
      order_tasks-Ordering ids (register_dependencies plan.tasks (λ id. [])) parts.dependents
        (λ d x k. count-dependents plan.tasks parts.dependents d x named.once parts.linked k)
        (length plan.tasks) (count_dependencies plan.tasks (λ id. pos 0)) [] parts.order
        (Ordering-start plan.tasks parts.dependents named) parts.ordered in
    let (a, o, d, _) =
      assign_waves-fields parts.order (graph_start plan parts.dependents parts.order) in
    let full : length parts.order ≡ length ids =
      omega (arith, len, length-map (λ (task : Task). task.id) plan.tasks) in
    subst (Orders plan) (sym parts.waved) (
      rw (a, o, d)
        (
          refl,
          register-own plan.tasks (λ id. []) named.once,
          inv.topological,
          inv.once,
          λ x.
              same_members parts.order ids x (inv.known x)
                (fills ids parts.order x inv.once inv.known full),
        ))

-- The ids of a built graph are distinct, and every dependency is one of them.
pub build-closed :
    (plan : Tasks) (g : TaskGraph)
    → build_task_graph plan ≡ ok g
    → (distinct g.authored ≡ true)
      × ((x d : String)
          → contains g.authored x ≡ true
          → contains (g.dependencies x) d ≡ true
          → contains g.authored d ≡ true)
build-closed plan g h =
    let parts = build-Parts plan g h in
    let named = Parts-AreNamed plan g parts in
    let ids = task_ids plan.tasks in
    let start = graph_start plan parts.dependents parts.order in
    let (a, o, d, _) = assign_waves-fields parts.order start in
    subst
      (λ (k : TaskGraph).
        (distinct k.authored ≡ true)
        × ((x d : String)
            → contains k.authored x ≡ true
            → contains (k.dependencies x) d ≡ true
            → contains k.authored d ≡ true))
      (sym parts.waved)
      (rw (a, d)
        (
          named.once,
          λ x e k c.
              (All-of_contains _ (start.dependencies x) e
                (register-ProperDependencies ids plan.tasks (λ id. []) x named.once
                  ((link_tasks_iff ids plan.tasks (λ id. [])).0 (rw parts.linked)) k)
                c).0,
        ))
