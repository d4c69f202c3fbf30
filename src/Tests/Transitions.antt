-- ===== src/Tests/Transitions.antt =====
-- Runs of internal/core/tasktransition.go on the plan of three tasks.
use specd_cli.Base.{
  nat_eq, if◌then◌else◌, Option, ◌≡◌, refl, true, false, some, none, [], ◌∷◌, ok, err, pos,
  trim_space, ends_with, contains, pred_ℤ, sort_texts, ap,
}
use specd_cli.State.Replace.{Bytes, Files, atomic_replace}
use specd_cli.State.Tokens.{Stream, end_of_file, reject_duplicate_keys, walk, ensure_eof}
use specd_cli.State.Defs.{State, initial, decode, encode, validate, count_up}
use specd_cli.Evidence.Defs.{utc}
use specd_cli.Record.Defs.{
  decode_with, validate_record, validate_family_kind, canonical_payload, check_payload,
  check_identity, record_identity, new_record,
}
use specd_cli.Record.Append.{append_record, append_under_lock, validate_path, prior_revision}
use specd_cli.Record.Appends.{healthy}
use specd_cli.Record.Replay.{replay, replay_file, next_chains, chain_of}
use specd_cli.Task.Activity.Defs.{
  pending, in_progress, Raw, can_transition_task_activity, project_task_activity,
  project_task_activities,
}
use specd_cli.Task.Graph.Defs.{
  build_task_graph, check_tasks, register_dependencies, link_tasks, count_dependencies, order_tasks,
  assign_waves,
}
use specd_cli.Task.Readiness.Defs.{
  project_readiness, readiness_of, add_rows, add_row, derive_task_readiness, blocker_rank,
  readiness_approval_blocker, in_frontier, activity_by_id,
}
use specd_cli.Task.Transition.Types.{TaskTransitionRequest, TaskTransition, interrupted}
use specd_cli.Task.Transition.Defs.{
  decode_task_transition, set_task, task_can_start, recoverable_record, recoverable_task_transition,
}
use specd_cli.Task.Transition.Run.{
  Decision, World, choose, admissible, admit, decide, persist_task_transition_state, history_record,
  record_and_persist, carry_out, transition_task_activity,
}
use specd_cli.Task.Transition.Performed.{Performed, transition_task_activity-Performed}
use specd_cli.Task.Transition.Resumed.{interrupted-resumes}
use specd_cli.Record.Types.{Record}
use specd_cli.Tests.Graphs.{diamond}
use specd_cli.Tests.Readinesses.{status, one_done}
use specd_cli.Tests.Records.{created, codec, history_file, line_a}
use specd_cli.Tests.States.{good_system}

abbrev current : State Raw
current = record (initial "c" "aa") { stage = "approved"; tasks = some one_done }

abbrev world : World
world = record {
  codec = codec;
  marshal = λ s. some (s.revision ∷ []);
  unmarshal = λ raw. some (current, record { tokens = []; ending = end_of_file });
  marshal_transition = λ t. 123 ∷ 125 ∷ [];
  unmarshal_transition = λ raw. none;
  timestamp = "T0Z";
  authored = diamond;
  approval = some (status true);
}

abbrev start_b : TaskTransitionRequest
start_b = record { task = "b"; to = in_progress; actor = "ada"; expected_revision = 1 }

abbrev b_started : TaskTransition
b_started = record { schema_version = pos 1; task = "b"; from = pending; to = in_progress }

abbrev state_file : Files
state_file = record { content = some (1 ∷ 10 ∷ []); temporary = none }

b_starts :
    (transition_task_activity world "c" start_b good_system history_file healthy true true false
      (some line_a)
      state_file)
    ≡ (
      ok b_started,
      some (65 ∷ 65 ∷ 10 ∷ 66 ∷ 66 ∷ 10 ∷ []),
      record { content = some (2 ∷ 10 ∷ []); temporary = none },
    )
unfolding transition_task_activity decide decode reject_duplicate_keys walk ensure_eof validate
    replay_file replay decode_with validate_record validate_family_kind utc canonical_payload
    check_payload check_identity record_identity next_chains chain_of recoverable_task_transition
    recoverable_record admit admissible build_task_graph check_tasks register_dependencies
    link_tasks count_dependencies order_tasks assign_waves project_task_activities
    project_task_activity activity_by_id can_transition_task_activity task_can_start
    project_readiness readiness_of add_rows add_row derive_task_readiness blocker_rank
    readiness_approval_blocker in_frontier choose carry_out record_and_persist new_record
    history_record append_under_lock validate_path prior_revision persist_task_transition_state
    encode count_up set_task atomic_replace trim_space ends_with contains pred_ℤ sort_texts
b_starts = refl

transition_task_activity-Performed_example :
    Performed world "c" start_b state_file b_started
      (transition_task_activity world "c" start_b good_system history_file healthy true true false
        (some line_a)
        state_file).2
transition_task_activity-Performed_example =
    transition_task_activity-Performed world "c" start_b good_system history_file healthy true true
      false (some line_a) state_file b_started (ap (λ answer. answer.0) b_starts)

-- The process stops between the history and the state: the record is appended and the state is old.
b_interrupted :
    (transition_task_activity world "c" start_b good_system history_file healthy true true true
      (some line_a)
      state_file)
    ≡ (err interrupted, some (65 ∷ 65 ∷ 10 ∷ 66 ∷ 66 ∷ 10 ∷ []), state_file)
unfolding transition_task_activity decide decode reject_duplicate_keys walk ensure_eof validate
    replay_file replay decode_with validate_record validate_family_kind utc canonical_payload
    check_payload check_identity record_identity next_chains chain_of recoverable_task_transition
    recoverable_record admit admissible build_task_graph check_tasks register_dependencies
    link_tasks count_dependencies order_tasks assign_waves project_task_activities
    project_task_activity activity_by_id can_transition_task_activity task_can_start
    project_readiness readiness_of add_rows add_row derive_task_readiness blocker_rank
    readiness_approval_blocker in_frontier choose carry_out record_and_persist new_record
    history_record append_under_lock validate_path prior_revision persist_task_transition_state
    encode count_up set_task atomic_replace trim_space ends_with contains pred_ℤ sort_texts
b_interrupted = refl

-- The record of the start, which the codec reads from the line that it writes
abbrev started : Record
started = record {
  schema_version = pos 1;
  id = "bb";
  family = "history";
  kind = "task_transition";
  change = "c";
  expected_revision = some 1;
  resulting_revision = some 2;
  timestamp = "T0Z";
  actor = "ada";
  payload = 123 ∷ 125 ∷ [];
}

abbrev reads : Bytes → Option (Record × Stream)
reads [] = none
reads (b ∷ rest) =
    if nat_eq b 66
    then some (started, record { tokens = []; ending = end_of_file })
    else codec.unmarshal_record (b ∷ rest)

abbrev reading : World
reading = record world {
  codec = record codec { unmarshal_record = reads };
  unmarshal_transition = λ raw. some (b_started, record { tokens = []; ending = end_of_file });
}

abbrev planned : Decision
planned = record { current = current; transition = b_started; recovery = none }

abbrev both_lines : Bytes
both_lines = 65 ∷ 65 ∷ 10 ∷ 66 ∷ 66 ∷ 10 ∷ []

first_run :
    (decide reading "c" start_b false state_file.content (some line_a) ≡ ok planned)
    × (replay_file reading.codec "history" false (some line_a) ≡ ok (created ∷ [], none))
    × (new_record reading.codec (history_record reading start_b current b_started "c") ≡ ok started)
    × (append_record reading.codec history_file healthy true (some line_a) "history" started
        ≡ (ok tt, some both_lines))
    × (replay_file reading.codec "history" false (some both_lines)
        ≡ ok (created ∷ started ∷ [], none))
    × (decode_task_transition reading.unmarshal_transition started.payload ≡ ok b_started)
unfolding decode_task_transition decide decode reject_duplicate_keys walk ensure_eof validate
    replay_file replay decode_with validate_record validate_family_kind utc canonical_payload
    check_payload check_identity record_identity next_chains chain_of recoverable_task_transition
    recoverable_record admit admissible build_task_graph check_tasks register_dependencies
    link_tasks count_dependencies order_tasks assign_waves project_task_activities
    project_task_activity activity_by_id can_transition_task_activity task_can_start
    project_readiness readiness_of add_rows add_row derive_task_readiness blocker_rank
    readiness_approval_blocker in_frontier choose carry_out record_and_persist new_record
    history_record append_under_lock validate_path prior_revision persist_task_transition_state
    encode count_up set_task atomic_replace trim_space ends_with contains pred_ℤ sort_texts
first_run = (refl, refl, refl, refl, refl, refl)

interrupted-resumes_example :
    (transition_task_activity reading "c" start_b good_system history_file healthy true true true
        (some line_a)
        state_file
      ≡ (err interrupted, some both_lines, state_file))
    × (transition_task_activity reading "c" start_b good_system history_file healthy true true false
          (some both_lines)
          state_file
        ≡ transition_task_activity reading "c" start_b good_system history_file healthy true true
            false
            (some line_a)
            state_file)
unfolding trim_space
interrupted-resumes_example =
    interrupted-resumes reading "c" start_b good_system history_file healthy true (some line_a)
      (some both_lines) state_file (created ∷ []) planned started refl first_run.0 refl first_run.1
      first_run.2 refl first_run.3 first_run.4 first_run.5
