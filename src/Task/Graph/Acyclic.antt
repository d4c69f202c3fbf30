-- ===== src/Task/Graph/Acyclic.antt =====
-- `BuildTaskGraph` of internal/core/taskgraph.go succeeds exactly on well-formed acyclic plans.
use specd_cli.Base.{
  ℕ, zero, suc, ◌+◌, ◌<◌, String, ◌≡◌, ◌↔◌, refl, sym, subst, true, false, List, [], ◌∷◌, ◌++◌,
  ◌==◌, eq_iff, if◌then◌else◌, length, length-append, length-map, contains, contains-append, count,
  distinct, ok, is_ok, Outcome-cases, ℤ, pos, negsuc, is_zero, arith, All, All-of_contains,
  All-intro, ◌⊎◌, ◌∙◌, inl, inr, Bool-cases, length-le_of_distinct,
}
use specd_cli.Plan.Model.{Task, Tasks}
use specd_cli.Task.Graph.Defs.{
  TaskGraph, update, next_ready, release, order_tasks, build_task_graph, task_ids,
  register_dependencies, link_tasks, count_dependencies,
}
use specd_cli.Task.Graph.Links.{
  count-dependents, ProperDependencies, link_tasks_iff, register-ProperDependencies, register-own,
}
use specd_cli.Task.Graph.Kahn.{unmet, next_ready-ready, next_ready-none}
use specd_cli.Task.Graph.Order.{IsTopological, Ordering, Ordering-round}
use specd_cli.Task.Graph.Build.{AreNamed, AreNamed-check_tasks, build-Parts, order_of}
use specd_cli.Task.Graph.Sound.{Parts-AreNamed, Ordering-start, build-IsTopological}

-- An open dependency of a list that has one.
open_dependency :
    (order ds : List String)
    → 0 < unmet order ds
    → (d : String) × (contains ds d ≡ true) × (contains order d ≡ false)
unfolding unmet contains
open_dependency order [] h = absurd (omega arith)
open_dependency order (d ∷ ds) h = elim (Bool-cases (contains order d)) [
  | inl e ↦ let (d', m, n) = open_dependency order ds (ground arith) in (d', ground arith, n)
  | inr e ↦ (d, ground (arith, eq_iff d d), e)
]

module _ (authored : List String) (dependencies dependents : String → List String)
    (mirrored : (d x : String)
      → contains authored x ≡ true
      → count x (dependents d) ≡ count d (dependencies x))
    (nonempty : contains authored "" ≡ false) (once : distinct authored ≡ true) (rank : String → ℕ)
    (falls : (x d : String)
      → contains authored x ≡ true
      → contains (dependencies x) d ≡ true
      → (contains authored d ≡ true) × (rank d < rank x)) where
  -- Where a round finds nothing, no known id is left: each would wait for one of a lower rank.
  all_ordered :
      (bound : ℕ) (indegree : String → ℤ) (order : List String)
      → Ordering authored dependencies dependents indegree order
      → next_ready indegree authored ≡ ""
      → (x : String) → contains authored x ≡ true
      → rank x < bound
      → contains order x ≡ true
  all_ordered zero indegree order inv stuck x k r = elim r [ ]
  all_ordered (suc bound) indegree order inv stuck x k r = elim (Bool-cases (contains order x)) [
    | inl e ↦ e
    | inr e ↦
        let waits : is_zero (indegree x) ≡ false =
          next_ready-none indegree authored x nonempty stuck k in
        let (d, m, n) =
          open_dependency order (dependencies x) (ground (arith, inv.open_count x k e)) in
        let (kd, lower) = falls x d k m in
        let done = all_ordered bound indegree order inv stuck d kd (omega arith) in cc (done, n)
  ]

  order_tasks_total :
      (left : ℕ) (indegree : String → ℤ) (order : List String)
      → Ordering authored dependencies dependents indegree order
      → length order + left ≡ length authored
      → is_ok (order_tasks left authored dependencies dependents indegree order) ≡ true
  unfolding order_tasks
  order_tasks_total zero indegree order inv len = refl
  order_tasks_total (suc left) indegree order inv len =
      let next = next_ready indegree authored in
      elim (Bool-cases (next == "")) [
        | inl e ↦
            let stuck : next ≡ "" = (eq_iff next "").0 e in
            absurd (
              omega (
                arith,
                length-le_of_distinct authored order once
                    (λ x k. all_ordered (suc (rank x)) indegree order inv stuck x k (omega arith)),
              ))
        | inr e ↦
            let (k, ready) =
              next_ready-ready indegree authored (λ p. ground (arith, eq_iff next "")) in
            rw e (
              order_tasks_total left (release (dependents next) (update indegree next (negsuc 0)))
                (order ++ next ∷ [])
                (Ordering-round authored dependencies dependents mirrored indegree order inv next k
                  ready)
                (omega (arith, len, length-append order (next ∷ []))))
      ]

-- A plan without diagnostics, of valid tasks under distinct names, whose dependencies are names of
-- other tasks.
pub record WellFormed (plan : Tasks) : Type 0 where
  pub no_diagnostics : plan.diagnostics ≡ []
  pub named : AreNamed plan.tasks
  pub proper :
      All (λ task. ProperDependencies (task_ids plan.tasks) task.id task.depends_on) plan.tasks

-- Ranks that fall along every dependency.
abbrev pub Falls : (String → ℕ) → List Task → Type 0
Falls rank = All (λ task. All (λ d. rank d < rank task.id) task.depends_on)

-- Ranks that fall over each task's list fall over the map's entries.
Falls-at :
    (tasks : List Task) (rank : String → ℕ) (m : String → List String)
    → Falls rank tasks
    → All (λ task. m task.id ≡ task.depends_on) tasks
    → (x d : String) → contains (task_ids tasks) x ≡ true
    → contains (m x) d ≡ true
    → rank d < rank x
unfolding contains
Falls-at [] rank m f own x d k c = cc
Falls-at (task ∷ tasks) rank m f own x d k c = elim (Bool-cases (task.id == x)) [
  | inl e ↦
      let same : task.id ≡ x = (eq_iff task.id x).0 e in
      let here : m x ≡ task.depends_on = subst (λ y. m y ≡ task.depends_on) same own.0 in
      subst (λ y. rank d < rank y) same
        (All-of_contains (λ d. rank d < rank task.id) task.depends_on d f.0 (rw here at c))
  | inr e ↦ Falls-at tasks rank m f.1 own.1 x d (ground arith) c
]

build_total :
    (plan : Tasks) (rank : String → ℕ)
    → WellFormed plan
    → Falls rank plan.tasks
    → is_ok (build_task_graph plan) ≡ true
unfolding build_task_graph
build_total plan rank w f =
    let ids = task_ids plan.tasks in
    let deps = register_dependencies plan.tasks (λ id. []) in
    let checked = AreNamed-check_tasks [] plan.tasks 0 w.named (λ x m. unfold contains in cc) in
    elim (Outcome-cases (link_tasks ids plan.tasks (λ id. []))) [
      | inl (dependents, linked) ↦
          let ordered : is_ok (order_of plan dependents) ≡ true =
            order_tasks_total ids deps dependents
              (λ d x k. count-dependents plan.tasks dependents d x w.named.once linked k)
              w.named.nonempty w.named.once rank
              (λ x d k c. (
                (All-of_contains _ (deps x) d
                    (register-ProperDependencies ids plan.tasks (λ id. []) x w.named.once w.proper
                      k)
                    c).0,
                Falls-at plan.tasks rank deps f (register-own plan.tasks (λ id. []) w.named.once) x
                    d k c,
              ))
              (length plan.tasks) (count_dependencies plan.tasks (λ id. pos 0)) []
              (Ordering-start plan.tasks dependents w.named)
              (omega (arith, length-map (λ (task : Task). task.id) plan.tasks)) in
          ground (arith, w.no_diagnostics)
      | inr (r, e) ↦ absurd (ground (arith, (link_tasks_iff ids plan.tasks (λ id. [])).1 w.proper))
    ]

position : List String → String → ℕ
position [] x = 0
position (y ∷ ys) x = if y == x then 0 else suc (position ys x)

IsTopological-position :
    (dependencies : String → List String) (seen order : List String) (x d : String)
    → IsTopological dependencies seen order
    → contains order x ≡ true
    → contains (dependencies x) d ≡ true
    → (contains seen d ≡ true) ⊎ (position order d < position order x)
unfolding position contains
IsTopological-position dependencies seen [] x d t k c = cc
IsTopological-position dependencies seen (y ∷ ys) x d t k c = elim (Bool-cases (y == x)) [
  | inl e ↦
      let same : y ≡ x = (eq_iff y x).0 e in
      inl (
        All-of_contains _ (dependencies y) d t.0
          (subst (λ z. contains (dependencies z) d ≡ true) (sym same) c))
  | inr e ↦ ground (
    arith,
    eq_iff y d,
    contains-append seen (y ∷ []) d,
    IsTopological-position dependencies (seen ++ y ∷ []) ys x d t.1 (ground arith) c,
  )
]

Orders-Falls :
    (tasks : List Task) (order : List String) (dependencies : String → List String)
    → IsTopological dependencies [] order
    → All (λ task. dependencies task.id ≡ task.depends_on) tasks
    → ((x : String) → contains (task_ids tasks) x ≡ true → contains order x ≡ true)
    → Falls (position order) tasks
unfolding contains
Orders-Falls [] order dependencies t own h = tt
Orders-Falls (task ∷ tasks) order dependencies t own h = (
  All-intro (λ d. position order d < position order task.id) task.depends_on
      (λ d m.
        elim (IsTopological-position dependencies [] order task.id d t
          (h task.id (ground (arith, eq_iff task.id task.id))) (rw own.0 m)) [
            | inl seen ↦ cc seen
            | inr lower ↦ lower
          ]),
  Orders-Falls tasks order dependencies t own.1 (λ x k. h x (ground arith)),
)

-- Ranks along which every dependency falls: there is no cycle.
abbrev pub IsAcyclic : Tasks → Type 0
IsAcyclic plan = (rank : String → ℕ) × Falls rank plan.tasks

build_ok-only :
    (plan : Tasks) (g : TaskGraph) → build_task_graph plan ≡ ok g → WellFormed plan × IsAcyclic plan
build_ok-only plan g h =
    let parts = build-Parts plan g h in
    let sorted = build-IsTopological plan g h in
    (
      record {
        no_diagnostics = parts.no_diagnostics;
        named = Parts-AreNamed plan g parts;
        proper = (link_tasks_iff (task_ids plan.tasks) plan.tasks (λ id. [])).0 (rw parts.linked);
      },
      (
        position g.order,
        Orders-Falls plan.tasks g.order g.dependencies sorted.2 sorted.1
            (λ x k. sorted.4 x ∙ rw sorted.0 k),
      ),
    )

-- A graph is built exactly when the plan is well formed (no diagnostics; valid tasks under distinct
-- ids that are not empty; each dependency the id of another task) and has no dependency cycle.
pub build-iff-IsAcyclic :
    (plan : Tasks) → (is_ok (build_task_graph plan) ≡ true) ↔ (WellFormed plan × IsAcyclic plan)
build-iff-IsAcyclic plan = (
  λ h. elim (Outcome-cases (build_task_graph plan)) [
    | inl (g, e) ↦ build_ok-only plan g e
    | inr (r, e) ↦ absurd (ground arith)
  ],
  λ h. build_total plan h.1.0 h.0 h.1.1,
)
