-- ===== src/Task/Graph/Defs.antt =====
-- internal/core/taskgraph.go. `BuildTaskGraph` is `build_task_graph`, its loops are the functions
-- above it. A Go map whose absent keys read as the zero value is a function; `wave`, which is also
-- asked whether a key is there, has `none`. `range` over slices is recursion on the list; the loop
-- `for len(graph.order) < len(tasks.Tasks)` appends one id a round, so it recurs on the rounds left.
use specd_cli.Base.{
  ℕ, zero, suc, ◌+◌, String, Bool, true, false, not, Option, none, some, List, [], ◌∷◌, ◌++◌, map,
  ◌==◌, nat_eq, ltb, if◌then◌else◌, length, contains, Outcome, ok, err, ◌>>=◌, ◌>>◌, refuse_if, ℤ,
  pos, negsuc, pred_ℤ, is_zero,
}
use specd_cli.Plan.Model.{Task, Tasks, Diagnostic}

pub record TaskGraph : Type 0 where
  pub authored : List String
  pub order : List String
  pub waves : List (List String)
  pub dependencies : String → List String
  pub dependents : String → List String
  pub wave : String → Option ℕ

-- The reasons of `invalidTaskGraph`, before they are formatted; the code is always `plan_invalid`.
pub data GraphRefusal : Type 0 where
  plan_diagnostic : String → String → GraphRefusal
  empty_task_id : ℕ → GraphRefusal
  invalid_task duplicate_task self_dependency : String → GraphRefusal
  missing_dependency : String → String → GraphRefusal
  dependency_cycle : List String → GraphRefusal

-- `m[k] = v`
abbrev pub update {ℓ} : {V : Type ℓ} → (String → V) → String → V → String → V
update m k v j = if k == j then v else m j

abbrev pub task_ids : List Task → List String
task_ids = map (λ task. task.id)

abbrev refuse_diagnostics : List Diagnostic → Outcome GraphRefusal (Unit {0})
refuse_diagnostics [] = ok tt
refuse_diagnostics (d ∷ ds) = err (plan_diagnostic d.code d.message)

-- the loop that fills `byID`, of which the keys matter
unfoldable pub check_tasks : List String → List Task → ℕ → Outcome GraphRefusal (Unit {0})
check_tasks seen [] position = ok tt
check_tasks seen (task ∷ tasks) position = do
  refuse_if (task.id == "") (empty_task_id (position + 1))
  refuse_if (not task.valid) (invalid_task task.id)
  refuse_if (contains seen task.id) (duplicate_task task.id)
  check_tasks (task.id ∷ seen) tasks (position + 1)

unfoldable pub register_dependencies : List Task → (String → List String) → String → List String
register_dependencies [] m = m
register_dependencies (task ∷ tasks) m =
    register_dependencies tasks (update m task.id task.depends_on)

unfoldable pub link_dependencies :
    List String
    → String
    → List String
    → (String → List String)
    → Outcome GraphRefusal (String → List String)
link_dependencies known id [] dependents = ok dependents
link_dependencies known id (dependency ∷ rest) dependents = do
  refuse_if (dependency == id) (self_dependency id)
  refuse_if (not (contains known dependency)) (missing_dependency id dependency)
  link_dependencies known id rest (update dependents dependency (dependents dependency ++ id ∷ []))

unfoldable pub link_tasks :
    List String → List Task → (String → List String) → Outcome GraphRefusal (String → List String)
unfolding link_dependencies
link_tasks known [] dependents = ok dependents
link_tasks known (task ∷ tasks) dependents = do
  dependents' ← link_dependencies known task.id task.depends_on dependents
  link_tasks known tasks dependents'

unfoldable pub count_dependencies : List Task → (String → ℤ) → String → ℤ
count_dependencies [] indegree = indegree
count_dependencies (task ∷ tasks) indegree =
    count_dependencies tasks (update indegree task.id (pos (length task.depends_on)))

-- The first authored id of indegree 0, or the empty text.
unfoldable pub next_ready : (String → ℤ) → List String → String
next_ready indegree [] = ""
next_ready indegree (id ∷ ids) = if is_zero (indegree id) then id else next_ready indegree ids

unfoldable pub release : List String → (String → ℤ) → String → ℤ
release [] indegree = indegree
release (dependent ∷ rest) indegree =
    release rest (update indegree dependent (pred_ℤ (indegree dependent)))

-- The variables that `visit` of `cyclicTaskIDs` closes over.
pub record Visit : Type 0 where
  pub state : String → ℕ
  pub stack : List String
  pub cycle : List String

-- `stack[start:]` for the first `start` with `stack[start] == id`
unfoldable pub stack_from : String → List String → List String
stack_from id [] = []
stack_from id (x ∷ xs) = if x == id then x ∷ xs else stack_from id xs

unfoldable pub drop_last : List String → List String
drop_last [] = []
drop_last (x ∷ []) = []
drop_last (x ∷ y ∷ xs) = x ∷ drop_last (y ∷ xs)

-- The loop of `visit` over the dependencies of `id`, with the recursive call handed in.
unfoldable pub visit_dependencies :
    (String → Visit → Bool × Visit) → String → List String → Visit → Bool × Visit
unfolding stack_from drop_last
visit_dependencies visit id [] s =
    (false, record s { stack = drop_last s.stack; state = update s.state id 2 })
visit_dependencies visit id (dependency ∷ rest) s =
    let (found, s') = visit dependency s in
    let skip = visit_dependencies visit id rest s in
    let after = visit_dependencies visit id rest s' in
    if nat_eq (s.state dependency) 1
    then (true, record s { cycle = stack_from dependency s.stack })
    else if nat_eq (s.state dependency) 0
    then (if found then (true, s') else after)
    else skip

-- Each nested visit marks one more id, so as many levels as there are ids are enough.
unfoldable pub visit : ℕ → (String → List String) → String → Visit → Bool × Visit
unfolding visit_dependencies
visit zero dependencies id s = (false, s)
visit (suc depth) dependencies id s =
    visit_dependencies (visit depth dependencies) id (dependencies id)
      (record s { state = update s.state id 1; stack = s.stack ++ id ∷ [] })

unfoldable pub first_cycle : ℕ → (String → List String) → List String → Visit → List String
unfolding visit
first_cycle depth dependencies [] s = []
first_cycle depth dependencies (id ∷ ids) s =
    let (found, s') = visit depth dependencies id s in
    let skip = first_cycle depth dependencies ids s in
    let after = first_cycle depth dependencies ids s' in
    if nat_eq (s.state id) 0 then (if found then s'.cycle else after) else skip

unfoldable pub cyclic_task_ids : List String → (String → List String) → List String
unfolding first_cycle
cyclic_task_ids authored dependencies =
    first_cycle (length authored) dependencies authored
      (record { state = λ id. 0; stack = []; cycle = [] })

unfoldable pub order_tasks :
    ℕ
    → List String
    → (String → List String)
    → (String → List String)
    → (String → ℤ)
    → List String
    → Outcome GraphRefusal (List String)
unfolding next_ready release cyclic_task_ids
order_tasks zero authored dependencies dependents indegree order = ok order
order_tasks (suc left) authored dependencies dependents indegree order =
    let next = next_ready indegree authored in
    let rest =
      order_tasks left authored dependencies dependents
        (release (dependents next) (update indegree next (negsuc 0))) (order ++ next ∷ []) in
    if next == "" then err (dependency_cycle (cyclic_task_ids authored dependencies)) else rest

-- An absent key of the `wave` map reads as 0.
abbrev pub wave_or_zero : Option ℕ → ℕ
wave_or_zero none = 0
wave_or_zero (some n) = n

unfoldable pub wave_of : (String → Option ℕ) → List String → ℕ → ℕ
wave_of waves [] wave = wave
wave_of waves (dependency ∷ rest) wave =
    let candidate = wave_or_zero (waves dependency) + 1 in
    wave_of waves rest (if ltb wave candidate then candidate else wave)

-- `for len(graph.waves) <= wave { append nil }`
unfoldable pub grow : ℕ → List (List String) → List (List String)
grow zero [] = [] ∷ []
grow zero (w ∷ ws) = w ∷ ws
grow (suc n) [] = [] ∷ grow n []
grow (suc n) (w ∷ ws) = w ∷ grow n ws

unfoldable pub append_at : ℕ → String → List (List String) → List (List String)
append_at n id [] = []
append_at zero id (w ∷ ws) = (w ++ id ∷ []) ∷ ws
append_at (suc n) id (w ∷ ws) = w ∷ append_at n id ws

unfoldable pub assign_waves : List String → TaskGraph → TaskGraph
unfolding wave_of grow append_at
assign_waves [] graph = graph
assign_waves (id ∷ ids) graph =
    let wave = wave_of graph.wave (graph.dependencies id) 0 in
    assign_waves ids (record graph {
      wave = update graph.wave id (some wave);
      waves = append_at wave id (grow wave graph.waves);
    })

unfoldable pub build_task_graph : Tasks → Outcome GraphRefusal TaskGraph
build_task_graph plan = do
  refuse_diagnostics plan.diagnostics
  check_tasks [] plan.tasks 0
  let authored = task_ids plan.tasks
  let dependencies = register_dependencies plan.tasks (λ id. [])
  dependents ← link_tasks authored plan.tasks (λ id. [])
  let indegree = count_dependencies plan.tasks (λ id. pos 0)
  order ← order_tasks (length plan.tasks) authored dependencies dependents indegree []
  ok (
      assign_waves order (record {
        authored = authored;
        order = order;
        waves = [];
        dependencies = dependencies;
        dependents = dependents;
        wave = λ id. none;
      }))
