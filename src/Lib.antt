-- ===== src/Lib.antt =====
-- specd: a command line tool that takes a change of a repository from planning over approval and
-- execution to archive, and refuses each step whose preconditions do not hold.
--
-- The parts of the program and the files that model them:
--
-- File Plan.Model: the records that the parsers fill (internal/plan/model.go, diagnostic.go, tasks.go).
-- File Approval.Types: the approval record and the approval status that the projections read
--   (internal/core/approval.go, approval_status.go).
-- Files under Task.Activity: the persisted activity of each task, its legal edges and its projection onto the
--   canonical ids (internal/core/taskactivity.go). `ProjectTaskActivities` is
--   project_task_activities, `CanTransitionTaskActivity` is can_transition_task_activity.
-- Files under Task.Graph: the dependency graph, its topological order and its waves
--   (internal/core/taskgraph.go). `BuildTaskGraph` is build_task_graph, and its loops are functions
--   of their own.
-- Files under Task.Readiness: which tasks may start, and what holds the others up (internal/core/readiness.go).
--   `ProjectReadiness` is project_readiness; it builds the graph, projects the activities onto its
--   authored ids and derives one row for each task.
-- Files under Task.Transition: the change of a task's activity (internal/core/tasktransition.go).
--   `TransitionTaskActivity` is transition_task_activity in Task.Transition.Run; it reads the state file
--   (decode of State.Defs) and the history (replay_file of Record.Replay), asks the graph and readiness,
--   appends a record and replaces the state file. What ParseChange and the approval status give, the
--   clock and encoding/json are fields of `World`.
-- Files under State: the replacement of a file (internal/core/persist/atomic.go) in State.Replace, the
--   duplicate-key check in State.Tokens, and validation, encoding and the mutation of the state file
--   (internal/core/state/state.go, mutate.go) in State.Defs. `Mutate` is mutate_state, which writes by
--   atomic_replace; encoding/json, the lock and the answers of the system calls are parameters.
-- Files under Evidence: the payloads of test runs, builds, lints and reviews, their validation and
--   applicability, and the ledgers of them (internal/core/evidence/evidence.go, production.go).
--   `Project` is project_evidence and `MissingProduction` is missing_production, over the records that
--   the ledger's replay gave; the clock, time.Parse and encoding/json are parameters.
-- Files under Gates: the gate registry (internal/core/gates/registry.go). `newRegistry` is
--   new_registry in Gates.Defs, `Registry.Evaluate` is evaluate in Gates.Evaluate; the evaluators and
--   the copy of a snapshot through encoding/json are parameters.
-- Files under Scope: the end of `CheckScope`, check_scope, which reads the evidence ledger (replay_file of
--   Record.Replay) and judges the changes that Git reports by judge_changes, with managed paths and
--   sortedUnique (internal/core/scope.go).
-- Files under Policy: the default and the production policy (internal/core/policy.go); SHA-256 is a
--   parameter.
-- Files under Record: the append-only ledgers (internal/core/record/record.go, append.go). The payloads and
--   their validation are in Record.Payloads, the record's own in Record.Defs. `replay` is replay, over
--   the bytes of the file; `AppendUnderLock` is append_under_lock, over the file and the answers of the
--   system calls. encoding/json, SHA-256 and time.Parse are the fields of `Codec`.
-- Files under Transaction: managed writes as one unit (internal/core/transaction/transaction.go). `plan` and
--   `Manifest.validate` are plan and validate_manifest in Transaction.Plan, `apply` is apply in
--   Transaction.Apply, `commitLocked` is commit_locked in Transaction.Commit, and `inspectLocked`,
--   `recoverLocked` and `CommitUnderRootLock` are in Transaction.Recover. A transaction appends its record
--   by append_record of Record.Append and writes its journal by atomic_replace of State.Replace. Which
--   calls of the operating system fail is a parameter, a function of the call.
-- Files under Base: lists, texts, results and integers that the parts share.
--
-- A Go error is a value of the error type of a module, before its text is formatted; a function that
-- returns `(T, error)` has an `Outcome`. Maps are functions or association lists, and what a missing
-- key reads as is written out. Go integers that count the elements of a slice are natural numbers.
-- The loop of `BuildTaskGraph` that appends one id a round recurs on the number of rounds, which is
-- the number of tasks; the search for a cycle recurs on the depth of the nesting, for which the number
-- of tasks is enough, since a nested visit marks one more id.
--
-- Not modelled: the rendering of output and the command line, the locks of the operating system, the
-- processes that verification runs, and the calls of Git, since they are input and output; the parsers
-- of the plan's artifacts, approvals, attempts, sync and archive,
-- whose results the modelled parts take as values.
pub mod Approval
pub mod Base
pub mod Evidence
pub mod Gates
pub mod Plan
pub mod Policy
pub mod Record
pub mod Scope
pub mod State
pub mod Task
mod Tests
pub mod Transaction
