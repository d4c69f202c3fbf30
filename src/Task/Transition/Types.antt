-- ===== src/Task/Transition/Types.antt =====
-- internal/core/tasktransition.go: the request, the payload of its history record and the refusals.
use specd_cli.Base.{ℕ, String, ℤ}
use specd_cli.State.Defs.{StateRefusal}
use specd_cli.State.Replace.{Action}
use specd_cli.Record.Types.{RecordRefusal}
use specd_cli.Record.Replay.{LedgerRefusal}
use specd_cli.Task.Activity.Defs.{TaskActivity, ActivityRefusal}
use specd_cli.Task.Graph.Defs.{GraphRefusal}

-- `actor` is the actor of the sealed authority.
pub record TaskTransitionRequest : Type 0 where
  pub task : String
  pub to : TaskActivity
  pub actor : String
  pub expected_revision : ℕ

pub record TaskTransition : Type 0 where
  pub schema_version : ℤ
  pub task : String
  pub from : TaskActivity
  pub to : TaskActivity

-- The refusals, before their texts are formatted.
pub data TransitionRefusal : Type 0 where
  unauthorized lock_fails state_unreadable : TransitionRefusal
  plan_invalid : StateRefusal → TransitionRefusal
  stale_revision : ℕ → ℕ → TransitionRefusal
  history_fails : LedgerRefusal → TransitionRefusal
  history_torn history_payload : TransitionRefusal
  graph_invalid : GraphRefusal → TransitionRefusal
  task_unknown : String → TransitionRefusal
  activities_invalid : ActivityRefusal → TransitionRefusal
  no_edge : TaskActivity → TaskActivity → TransitionRefusal
  evidence_required approval_fails : TransitionRefusal
  not_ready : String → TransitionRefusal
  recovery_differs : TransitionRefusal
  record_refused : RecordRefusal → TransitionRefusal
  append_refused : LedgerRefusal → TransitionRefusal
  interrupted : TransitionRefusal
  encode_refused : StateRefusal → TransitionRefusal
  replace_fails : Action → TransitionRefusal
