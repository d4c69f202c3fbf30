-- ===== src/Task/Graph/Links.antt =====
-- What the maps of internal/core/taskgraph.go hold after their loops: the dependencies of a task,
-- its indegree, and how often a task stands among the dependents of another.
use specd_cli.Base.{
  ℕ, ◌+◌, String, ◌≡◌, refl, sym, ◌∙◌, subst, true, false, List, [], ◌∷◌, ◌++◌, ◌==◌, eq_iff,
  if◌then◌else◌, length, contains, count, count-append, distinct, ok, ℤ, pos, arith, All, ◌↔◌, inl,
  inr, is_ok, >>=-eq-ok, Outcome-cases, Bool-cases,
}
use specd_cli.Plan.Model.{Task}
use specd_cli.Task.Graph.Defs.{
  update, task_ids, register_dependencies, link_dependencies, link_tasks, count_dependencies,
}

-- A later write of another key leaves an entry alone.
register-absent :
    (tasks : List Task) (m : String → List String) (x : String)
    → contains (task_ids tasks) x ≡ false
    → register_dependencies tasks m x ≡ m x
unfolding register_dependencies contains
register-absent [] m x h = refl
register-absent (task ∷ tasks) m x h =
    ground (arith, register-absent tasks (update m task.id task.depends_on) x)

count_dependencies-absent :
    (tasks : List Task) (m : String → ℤ) (x : String)
    → contains (task_ids tasks) x ≡ false
    → count_dependencies tasks m x ≡ m x
unfolding count_dependencies contains
count_dependencies-absent [] m x h = refl
count_dependencies-absent (task ∷ tasks) m x h =
    ground
      (arith, count_dependencies-absent tasks (update m task.id (pos (length task.depends_on))) x)

-- With distinct ids, the indegree of a task is the length of its dependency list.
pub indegree-eq-length :
    (tasks : List Task) (m : String → List String) (n : String → ℤ) (x : String)
    → distinct (task_ids tasks) ≡ true
    → contains (task_ids tasks) x ≡ true
    → count_dependencies tasks n x ≡ pos (length (register_dependencies tasks m x))
unfolding count_dependencies register_dependencies contains distinct
indegree-eq-length [] m n x d h = cc
indegree-eq-length (task ∷ tasks) m n x d h = ground (
  arith,
  eq_iff task.id x,
  indegree-eq-length tasks (update m task.id task.depends_on)
      (update n task.id (pos (length task.depends_on))) x,
  register-absent tasks (update m task.id task.depends_on) x,
  count_dependencies-absent tasks (update n task.id (pos (length task.depends_on))) x,
)

-- How often `d` stands in the dependency lists of the tasks named `x`.
edge_count : List Task → String → String → ℕ
edge_count [] x d = 0
edge_count (task ∷ tasks) x d =
    (if task.id == x then count d task.depends_on else 0) + edge_count tasks x d

count-link_dependencies :
    (known : List String) (id : String) (ds : List String) (m m' : String → List String)
    (d x : String)
    → link_dependencies known id ds m ≡ ok m'
    → count x (m' d) ≡ count x (m d) + (if id == x then count d ds else 0)
unfolding link_dependencies count
count-link_dependencies known id [] m m' d x h = ground arith
count-link_dependencies known id (e ∷ ds) m m' d x h = ground (
  arith,
  eq_iff e d,
  count-append x (m e) (id ∷ []),
  count-link_dependencies known id ds (update m e (m e ++ id ∷ [])) m' d x,
)

count-link_tasks :
    (known : List String) (tasks : List Task) (m m' : String → List String) (d x : String)
    → link_tasks known tasks m ≡ ok m'
    → count x (m' d) ≡ count x (m d) + edge_count tasks x d
unfolding link_tasks edge_count
count-link_tasks known [] m m' d x h = ground arith
count-link_tasks known (task ∷ tasks) m m' d x h =
    let (m₁, first, rest) =
      >>=-eq-ok (link_dependencies known task.id task.depends_on m)
        (λ m₁. link_tasks known tasks m₁) h in
    omega (
      arith,
      count-link_dependencies known task.id task.depends_on m m₁ d x first,
      count-link_tasks known tasks m₁ m' d x rest,
    )

edge_count-absent :
    (tasks : List Task) (x d : String)
    → contains (task_ids tasks) x ≡ false
    → edge_count tasks x d ≡ 0
unfolding edge_count contains
edge_count-absent [] x d h = refl
edge_count-absent (task ∷ tasks) x d h = ground (arith, edge_count-absent tasks x d)

edge_count-eq-count :
    (tasks : List Task) (m : String → List String) (x d : String)
    → distinct (task_ids tasks) ≡ true
    → contains (task_ids tasks) x ≡ true
    → edge_count tasks x d ≡ count d (register_dependencies tasks m x)
unfolding edge_count register_dependencies contains distinct
edge_count-eq-count [] m x d u h = cc
edge_count-eq-count (task ∷ tasks) m x d u h = ground (
  arith,
  eq_iff task.id x,
  edge_count-absent tasks x d,
  edge_count-eq-count tasks (update m task.id task.depends_on) x d,
  register-absent tasks (update m task.id task.depends_on) x,
)

-- A task stands among the dependents of `d` as often as `d` stands among its dependencies.
pub count-dependents :
    (tasks : List Task) (dependents : String → List String) (d x : String)
    → distinct (task_ids tasks) ≡ true
    → link_tasks (task_ids tasks) tasks (λ id. []) ≡ ok dependents
    → contains (task_ids tasks) x ≡ true
    → count x (dependents d) ≡ count d (register_dependencies tasks (λ id. []) x)
unfolding count
count-dependents tasks dependents d x u h m = omega (
  arith,
  count-link_tasks (task_ids tasks) tasks (λ id. []) dependents d x h,
  edge_count-eq-count tasks (λ id. []) x d u m,
)

-- Every dependency of one list is known and is not the task itself.
abbrev pub ProperDependencies : List String → String → List String → Type 0
ProperDependencies known id = All (λ d. (contains known d ≡ true) × ((d == id) ≡ false))

link_dependencies_iff :
    (known : List String) (id : String) (ds : List String) (m : String → List String)
    → (is_ok (link_dependencies known id ds m) ≡ true) ↔ ProperDependencies known id ds
unfolding link_dependencies
link_dependencies_iff known id [] m = (λ h. tt, λ h. refl)
link_dependencies_iff known id (d ∷ ds) m =
    let ih = link_dependencies_iff known id ds (update m d (m d ++ id ∷ [])) in
    (λ h. ((ground arith, ground arith), ih.0 (ground arith)), λ h. ground (arith, ih.1 h.1))

pub link_tasks_iff :
    (known : List String) (tasks : List Task) (m : String → List String)
    → (is_ok (link_tasks known tasks m) ≡ true)
      ↔ All (λ task. ProperDependencies known task.id task.depends_on) tasks
unfolding link_tasks
link_tasks_iff known [] m = (λ h. tt, λ h. refl)
link_tasks_iff known (task ∷ tasks) m =
    let first = link_dependencies_iff known task.id task.depends_on m in
    elim (Outcome-cases (link_dependencies known task.id task.depends_on m)) [
      | inl (m₁, e) ↦
          let rest = link_tasks_iff known tasks m₁ in
          (λ h. (first.0 (ground arith), rest.0 (ground arith)), λ h. ground (arith, rest.1 h.1))
      | inr (r, e) ↦ (λ h. absurd (ground arith), λ h. absurd (ground (arith, first.1 h.0)))
    ]

update_self {ℓ} : {V : Type ℓ} (m : String → V) (k : String) (v : V) → update m k v k ≡ v
update_self m k v = rw ((eq_iff k k).1 refl)

-- What holds of each task's own list holds of the map's entry.
pub register-ProperDependencies :
    (known : List String) (tasks : List Task) (m : String → List String) (x : String)
    → distinct (task_ids tasks) ≡ true
    → All (λ task. ProperDependencies known task.id task.depends_on) tasks
    → contains (task_ids tasks) x ≡ true
    → ProperDependencies known x (register_dependencies tasks m x)
unfolding register_dependencies contains distinct
register-ProperDependencies known [] m x u h c = cc
register-ProperDependencies known (task ∷ tasks) m x u h c =
    let m' = update m task.id task.depends_on in
    elim (Bool-cases (task.id == x)) [
      | inl e ↦
          subst (λ y. ProperDependencies known y (register_dependencies tasks m' y))
            ((eq_iff task.id x).0 e)
            (subst (ProperDependencies known task.id)
              (sym (
                register-absent tasks m' task.id (ground arith)
                ∙ update_self m task.id task.depends_on))
              h.0)
      | inr e ↦ register-ProperDependencies known tasks m' x (ground arith) h.1 (ground arith)
    ]

-- With distinct ids the map gives each task its own list.
pub register-own :
    (tasks : List Task) (m : String → List String)
    → distinct (task_ids tasks) ≡ true
    → All (λ task. register_dependencies tasks m task.id ≡ task.depends_on) tasks
unfolding register_dependencies contains distinct
register-own [] m u = tt
register-own (task ∷ tasks) m u = (
  register-absent tasks (update m task.id task.depends_on) task.id (ground arith)
      ∙ update_self m task.id task.depends_on,
  register-own tasks (update m task.id task.depends_on) (ground arith),
)
