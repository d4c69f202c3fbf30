-- ===== src/Task/Transition/Admitted.antt =====
-- internal/core/tasktransition.go: what a transition that `TransitionTaskActivity` decides on satisfies.
use specd_cli.Base.{
  ◌≡◌, refl, sym, ap, ◌∙◌, String, true, false, not, ◌&&◌, Option, none, some, List, ◌==◌, eq_iff,
  arith, is_some, ok, ok_injective, >>=-eq-ok, refuse_if-eq-ok, subst,
}
use specd_cli.State.Defs.{State, needs, refused_as, refused_as-eq-ok}
use specd_cli.Record.Types.{Record}
use specd_cli.Approval.Types.{ApprovalStatus}
use specd_cli.Task.Activity.Defs.{
  TaskActivity, pending, in_progress, completed, same_activity, can_transition_task_activity,
  project_task_activities, Raw, TaskActivityProjection,
}
use specd_cli.Task.Graph.Defs.{TaskGraph, build_task_graph}
use specd_cli.Task.Transition.Types.{
  TaskTransitionRequest, TaskTransition, graph_invalid, task_unknown, activities_invalid, no_edge,
  evidence_required, approval_fails, not_ready, recovery_differs,
}
use specd_cli.Task.Transition.Defs.{activity_of_task, tasks_of, task_can_start}
use specd_cli.Task.Transition.Run.{World, Decision, differs, choose, admissible, admit}

-- A decision that the code may make: of one canonical task, along an edge, not to completion, and a
-- start only of a task that readiness lets start.
pub record Admitted (world : World) (request : TaskTransitionRequest) (d : Decision) : Type 0 where
  pub graph : TaskGraph
  pub graph_built : build_task_graph world.authored ≡ ok graph
  pub known : is_some (graph.wave request.task) ≡ true
  pub activities : List TaskActivityProjection
  pub projected : project_task_activities graph.authored (tasks_of d.current) ≡ ok activities
  pub moves :
      can_transition_task_activity (activity_of_task activities request.task) request.to ≡ true
  pub unfinished : same_activity request.to completed ≡ false
  pub approval : ApprovalStatus
  pub approved : world.approval ≡ some approval
  pub starts :
      same_activity request.to in_progress ≡ true
      → task_can_start request.task
          (activity_of_task activities request.task)
          world.authored
          d.current
          approval
        ≡ true
  pub same_task : (d.transition.task == request.task) ≡ true
  pub same_from : same_activity d.transition.from (activity_of_task activities request.task) ≡ true
  pub same_to : same_activity d.transition.to request.to ≡ true

pub same_activity_self : (a : TaskActivity) → same_activity a a ≡ true
same_activity_self pending = refl
same_activity_self in_progress = refl
same_activity_self completed = refl
same_activity_self TaskActivity.failed = refl
same_activity_self TaskActivity.blocked = refl
same_activity_self (TaskActivity.other s) = (eq_iff s s).1 refl

pub needs-some :
    {E A : Type 0} (found : Option A) (e : E) {a : A} → needs found e ≡ ok a → found ≡ some a
needs-some none e h = cc
needs-some (some b) e h = ap some (ok_injective refl h)

abbrev Chosen : List Record → TaskTransitionRequest → State Raw → TaskActivity → Decision → Type 0
Chosen history request current from d =
    (d.current ≡ current)
    × ((d.transition.task == request.task) ≡ true)
    × (same_activity d.transition.from from ≡ true)
    × (same_activity d.transition.to request.to ≡ true)

choose-Chosen :
    (world : World) (history : List Record) (request : TaskTransitionRequest) (current : State Raw)
    (from : TaskActivity) (recovered : Option (TaskTransition × String)) (d : Decision)
    → choose world history request current from recovered ≡ ok d
    → Chosen history request current from d
unfolding choose
choose-Chosen world history request current from none d h =
    subst (Chosen history request current from) (ok_injective refl h) (
      refl,
      (eq_iff request.task request.task).1 refl,
      same_activity_self from,
      same_activity_self request.to,
    )
choose-Chosen world history request current from (some (t, id)) d h =
    let (alike, done) =
      refuse_if-eq-ok (differs history request from (t, id)) recovery_differs _ h in
    subst (Chosen history request current from) (ok_injective refl done)
      (refl, ground (arith, alike), ground (arith, alike), ground (arith, alike))

pub admit-Admitted :
    (world : World) (history : List Record) (request : TaskTransitionRequest) (current : State Raw)
    (recovered : Option (TaskTransition × String)) (d : Decision)
    → admit world history request current recovered ≡ ok d
    → (d.current ≡ current) × Admitted world request d
unfolding admit admissible
admit-Admitted world history request current recovered d h =
    let (activity, passed, chosen) = >>=-eq-ok (admissible world request current) _ h in
    let (graph, built, a) =
      >>=-eq-ok (refused_as graph_invalid (build_task_graph world.authored)) _ passed in
    let (known, b) =
      refuse_if-eq-ok (not (is_some (graph.wave request.task))) (task_unknown request.task) _ a in
    let (activities, projected, c) =
      >>=-eq-ok
        (refused_as activities_invalid (project_task_activities graph.authored (tasks_of current)))
        _ b in
    let from : TaskActivity = activity_of_task activities request.task in
    let (edge, e) =
      refuse_if-eq-ok (not (can_transition_task_activity from request.to)) (no_edge from request.to)
        _ c in
    let (unfinished, f) =
      refuse_if-eq-ok (same_activity request.to completed) evidence_required _ e in
    let (approval, approved, g) = >>=-eq-ok (needs world.approval approval_fails) _ f in
    let (starts, i) =
      refuse_if-eq-ok
        (same_activity request.to in_progress
          && not (task_can_start request.task from world.authored current approval))
        (not_ready request.task) _ g in
    let (same_current, same_task, same_from, same_to) =
      choose-Chosen world history request current from recovered d (
        subst (λ a. choose world history request current a recovered ≡ ok d)
          (sym (ok_injective refl i)) chosen) in
    (
      same_current,
      record {
        graph = graph;
        graph_built = refused_as-eq-ok graph_invalid (build_task_graph world.authored) built;
        known = ground (arith, known);
        activities = activities;
        projected =
            ap (λ (s : State Raw). project_task_activities graph.authored (tasks_of s)) same_current
            ∙ refused_as-eq-ok activities_invalid
                (project_task_activities graph.authored (tasks_of current)) projected;
        moves = ground (arith, edge);
        unfinished = unfinished;
        approval = approval;
        approved = needs-some world.approval approval_fails approved;
        starts = λ start.
            ap (λ s. task_can_start request.task from world.authored s approval) same_current
            ∙ ground (arith, starts, start);
        same_task = same_task;
        same_from = same_from;
        same_to = same_to;
      },
    )
