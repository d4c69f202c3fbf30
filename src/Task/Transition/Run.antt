-- ===== src/Task/Transition/Run.antt =====
-- internal/core/tasktransition.go: `TransitionTaskActivity` from the state file and the history to both.
use specd_cli.Base.{
  String, Bool, false, not, ◌&&◌, ◌||◌, Option, none, some, List, ◌==◌, if◌then◌else◌, nat_eq,
  is_some, trim_space, Outcome, ok, err, ◌>>=◌, ◌>>◌, refuse_if, pos,
}
use specd_cli.State.Replace.{Bytes, Files, System, replaced, stopped_at, atomic_replace}
use specd_cli.State.Tokens.{Stream}
use specd_cli.State.Defs.{State, needs, refused_as, count_up, decode, encode}
use specd_cli.Record.Types.{Record, Codec}
use specd_cli.Record.Defs.{new_record}
use specd_cli.Record.Replay.{replay_file}
use specd_cli.Record.Append.{Disk, LedgerPath, append_record}
use specd_cli.Approval.Types.{ApprovalStatus}
use specd_cli.Plan.Model.{Tasks}
use specd_cli.Task.Activity.Defs.{
  TaskActivity, in_progress, completed, same_activity, can_transition_task_activity,
  project_task_activities, Raw, text,
}
use specd_cli.Task.Graph.Defs.{build_task_graph}
use specd_cli.Task.Transition.Types.{
  TaskTransitionRequest, TaskTransition, TransitionRefusal, unauthorized, lock_fails,
  state_unreadable, plan_invalid, stale_revision, history_fails, history_torn, graph_invalid,
  task_unknown, activities_invalid, no_edge, evidence_required, approval_fails, not_ready,
  recovery_differs, record_refused, append_refused, interrupted, encode_refused, replace_fails,
}
use specd_cli.Task.Transition.Defs.{
  name_of, activity_of_task, set_task, tasks_of, task_can_start, history_actor,
  recoverable_task_transition,
}

-- What the functions use that is not this repository's code, or that reads the plan
pub record World : Type 0 where
  pub codec : Codec
  pub marshal : State Raw → Option Bytes
  pub unmarshal : Bytes → Option (State Raw × Stream)
  pub marshal_transition : TaskTransition → Bytes
  pub unmarshal_transition : Bytes → Option (TaskTransition × Stream)
  pub timestamp : String
  pub authored : Tasks
  pub approval : Option ApprovalStatus

-- What a transition is decided on
pub record Decision : Type 0 where
  pub current : State Raw
  pub transition : TaskTransition
  pub recovery : Option String

abbrev pub differs :
    List Record → TaskTransitionRequest → TaskActivity → TaskTransition × String → Bool
differs history request from (t, id) =
    not (t.task == request.task)
    || not (same_activity t.from from)
    || not (same_activity t.to request.to)
    || not (history_actor history id == trim_space request.actor)

module _ (world : World) where
  unfoldable pub choose :
      List Record
      → TaskTransitionRequest
      → State Raw
      → TaskActivity
      → Option (TaskTransition × String)
      → Outcome TransitionRefusal Decision
  choose history request current from none = ok (record {
    current = current;
    transition = record {
      schema_version = pos 1;
      task = request.task;
      from = from;
      to = request.to;
    };
    recovery = none;
  })
  choose history request current from (some found) = do
    refuse_if (differs history request from found) recovery_differs
    ok (record { current = current; transition = found.0; recovery = some found.1 })

  -- The tests of `TransitionTaskActivity` on the state and the plan; the activity of the task
  unfoldable pub admissible :
      TaskTransitionRequest → State Raw → Outcome TransitionRefusal TaskActivity
  admissible request current = do
    graph ← refused_as graph_invalid (build_task_graph world.authored)
    refuse_if (not (is_some (graph.wave request.task))) (task_unknown request.task)
    activities ←
        refused_as activities_invalid (project_task_activities graph.authored (tasks_of current))
    let from = activity_of_task activities request.task
    refuse_if (not (can_transition_task_activity from request.to)) (no_edge from request.to)
    refuse_if (same_activity request.to completed) evidence_required
    approval ← needs world.approval approval_fails
    refuse_if
        (same_activity request.to in_progress
          && not (task_can_start request.task from world.authored current approval))
        (not_ready request.task)
    ok from

  unfoldable pub admit :
      List Record
      → TaskTransitionRequest
      → State Raw
      → Option (TaskTransition × String)
      → Outcome TransitionRefusal Decision
  admit history request current recovered = do
    from ← admissible request current
    choose history request current from recovered

  -- What is read under the lock, and the decision
  unfoldable pub decide :
      String
      → TaskTransitionRequest
      → Bool
      → Option Bytes
      → Option Bytes
      → Outcome TransitionRefusal Decision
  decide change request read_fails content history = do
    raw ← needs content state_unreadable
    current ←
        refused_as plan_invalid
          (decode world.marshal world.unmarshal world.codec.stream_of raw change)
    refuse_if (not (nat_eq current.revision request.expected_revision))
        (stale_revision request.expected_revision current.revision)
    replayed ← refused_as history_fails (replay_file world.codec "history" read_fails history)
    refuse_if (is_some replayed.1) history_torn
    recovered ←
        recoverable_task_transition world.unmarshal_transition replayed.0 change current.revision
    admit replayed.0 request current recovered

  -- The state that `persistTaskTransitionState` writes
  abbrev pub next_state : State Raw → TaskTransition → String → State Raw
  next_state current t id = record current {
    tasks = some (set_task (tasks_of current) t.task (text (name_of t.to)));
    revision = count_up current.revision;
    last_transition = id;
  }

  unfoldable pub persist_task_transition_state :
      System
      → State Raw
      → TaskTransition
      → String
      → Files
      → Outcome TransitionRefusal TaskTransition × Files
  persist_task_transition_state system current t id files =
      elim (encode world.marshal world.unmarshal world.codec.stream_of (next_state current t id)) [
        | err e ↦ (err (encode_refused e), files)
        | ok encoded ↦
            let (result, files') = atomic_replace system (λ step. false) encoded files in
            elim result [
              | replaced ↦ (ok t, files')
              | stopped_at a ↦ (err (replace_fails a), files')
            ]
      ]

  unfoldable pub history_record :
      TaskTransitionRequest → State Raw → TaskTransition → String → Record
  history_record request current t change = record {
    schema_version = pos 0;
    id = "";
    family = "history";
    kind = "task_transition";
    change = change;
    expected_revision = some current.revision;
    resulting_revision = some (count_up current.revision);
    timestamp = world.timestamp;
    actor = trim_space request.actor;
    payload = world.marshal_transition t;
  }

  -- The new record, and then the state. `fails_after` is the hook `AfterHistory`.
  unfoldable pub record_and_persist :
      String
      → TaskTransitionRequest
      → System
      → LedgerPath
      → Disk
      → Bool
      → Bool
      → Decision
      → Option Bytes
      → Files
      → Outcome TransitionRefusal TaskTransition × Option Bytes × Files
  record_and_persist change request system path disk locked fails_after d history files =
      elim (new_record world.codec (history_record request d.current d.transition change)) [
        | err e ↦ (err (record_refused e), history, files)
        | ok item ↦
            let (appended, history') =
              append_record world.codec path disk locked history "history" item in
            elim appended [
              | err e ↦ (err (append_refused e), history', files)
              | ok done ↦
                  if fails_after
                  then (err interrupted, history', files)
                  else let (result, files') =
                      persist_task_transition_state system d.current d.transition item.id files in
                    (result, history', files')
            ]
      ]

  -- A recovered record stands in the history already.
  unfoldable pub carry_out :
      String
      → TaskTransitionRequest
      → System
      → LedgerPath
      → Disk
      → Bool
      → Bool
      → Decision
      → Option Bytes
      → Files
      → Outcome TransitionRefusal TaskTransition × Option Bytes × Files
  carry_out change request system path disk locked fails_after d history files = elim d.recovery [
    | some id ↦
        let (result, files') =
          persist_task_transition_state system d.current d.transition id files in
        (result, history, files')
    | none ↦ record_and_persist change request system path disk locked fails_after d history files
  ]

  -- `TransitionTaskActivity`; `locked` is whether the lock of the change is held, and `ledger_locked`
  -- whether `Append` gets the lock of the ledger.
  unfoldable pub transition_task_activity :
      String
      → TaskTransitionRequest
      → System
      → LedgerPath
      → Disk
      → Bool
      → Bool
      → Bool
      → Option Bytes
      → Files
      → Outcome TransitionRefusal TaskTransition × Option Bytes × Files
  transition_task_activity change request system path disk locked ledger_locked fails_after history
        files =
      if trim_space request.actor == ""
      then (err unauthorized, history, files)
      else if not locked
      then (err lock_fails, history, files)
      else elim (decide change request disk.read_fails files.content history) [
        | err e ↦ (err e, history, files)
        | ok d ↦ carry_out change request system path disk ledger_locked fails_after d history files
      ]
