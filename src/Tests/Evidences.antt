-- ===== src/Tests/Evidences.antt =====
-- Runs of internal/core/evidence. A payload of these runs is the decoded value itself.
use specd_cli.Base.{
  String, ◌≡◌, refl, ◌⊎◌, Bool, true, false, Option, none, some, List, [], ◌∷◌, ok, pos, All,
  contains, ◌==◌, if◌then◌else◌, ends_with, all_lower_hex,
}
use specd_cli.State.Tokens.{Stream, open_object, close_object, end_of_file, walk}
use specd_cli.Evidence.Defs.{
  Instant, TestRun, Subject, applicable_test_run, matches_test_run, validate_test_run, hex_value,
  utc,
}
use specd_cli.Evidence.Production.{Production, RequiredCheck}
use specd_cli.Evidence.Ledger.{Item, project_evidence, project_items, decode_test_run}
use specd_cli.Evidence.Proof.{IsProof, applicable_test_run-IsProof}
use specd_cli.Evidence.Latest.{IsLatest, IsUnmatched, project_evidence-IsLatest}

abbrev pub hash : String
hash = "0123456789abcdef0123456789abcdef0123456789abcdef0123456789abcdef"

-- Two instants, a minute apart.
abbrev pub parse_time : String → Option Instant
parse_time s =
    if s == "T0Z"
    then some (record { at = 100; in_utc = true })
    else if s == "T1Z"
    then some (record { at = 160; in_utc = true })
    else none

abbrev pub subject : Subject
subject = record {
  change = "change";
  task_id = "task";
  attempt_id = "attempt";
  head = hash;
  task_hash = hash;
  command_hash = hash;
  approval_hash = hash;
  state_revision = 3;
}

abbrev test_run : Bool → TestRun
test_run passed = record {
  schema_version = pos 1;
  class = "test-run";
  change = "change";
  task_id = "task";
  attempt_id = "attempt";
  head = hash;
  task_hash = hash;
  command_hash = hash;
  approval_hash = hash;
  state_revision = 3;
  started_at = "T0Z";
  ended_at = "T1Z";
  exit_code = if passed then pos 0 else pos 1;
  passed = passed;
  timed_out = false;
  interrupted = false;
  non_vacuous = true;
  zero_match = false;
  stdout_digest = hash;
  stderr_digest = hash;
  stdout_cut = false;
  stderr_cut = false;
}

abbrev pub lint : Production
lint = record {
  schema_version = pos 1;
  class = "lint";
  check_id = "go-vet";
  policy_digest = hash;
  change = "change";
  task_id = "task";
  attempt_id = "attempt";
  head = hash;
  task_hash = hash;
  command_hash = hash;
  reviewer = "";
  findings = "";
  evidence_set = "";
  packet_hash = "";
  approval_hash = hash;
  state_revision = 3;
  started_at = "T0Z";
  ended_at = "T1Z";
  exit_code = pos 0;
  passed = true;
  timed_out = false;
  interrupted = false;
  stdout_digest = hash;
  stderr_digest = hash;
  stdout_cut = false;
  stderr_cut = false;
}

data Payload : Type 0 where
  run : TestRun → Payload
  check : Production → Payload

abbrev stream_of : Payload → Stream
stream_of p = record { tokens = open_object ∷ close_object ∷ []; ending = end_of_file }

abbrev as_test_run : Payload → Option TestRun
as_test_run (run v) = some v
as_test_run (check v) = none

abbrev as_production : Payload → Option Production
as_production (run v) = none
as_production (check v) = some v

abbrev class_field : Payload → Option String
class_field (run v) = some v.class
class_field (check v) = some v.class

abbrev ends : Payload → Bool
ends p = true

abbrev item : String → Payload → Item Payload
item id p = record { id = id; change = "change"; timestamp = "T1Z"; payload = p }

abbrev ledger : List (Item Payload)
ledger = item "1" (run (test_run true)) ∷ item "2" (check lint) ∷ []

abbrev runs : List (Item Payload)
runs = item "1" (run (test_run true)) ∷ item "2" (run (test_run false)) ∷ []

abbrev no_run : Option TestRun
no_run = none

abbrev no_digest : String
no_digest = ""

abbrev pub lint_check : RequiredCheck
lint_check = record { class = "lint"; check_id = "go-vet" }

abbrev build_check : RequiredCheck
build_check = record { class = "build"; check_id = "compile" }

run_applies : applicable_test_run parse_time 200 (test_run true) subject ≡ true
unfolding applicable_test_run matches_test_run validate_test_run hex_value utc ends_with
    all_lower_hex
run_applies = refl

later_failure_withdraws :
    project_evidence parse_time 200 stream_of as_test_run as_production class_field ends subject
      runs
    ≡ ok none
unfolding project_evidence project_items decode_test_run walk applicable_test_run matches_test_run
    validate_test_run hex_value utc ends_with all_lower_hex contains
later_failure_withdraws = refl

applicable_test_run-IsProof_example : IsProof parse_time 200 (test_run true) subject
applicable_test_run-IsProof_example =
    applicable_test_run-IsProof parse_time 200 (test_run true) subject run_applies

project_evidence-IsLatest_example :
    ((v : TestRun) × (no_run ≡ some v)
      × IsLatest parse_time 200 stream_of as_test_run as_production class_field ends subject runs v
      × IsProof parse_time 200 v subject)
    ⊎ ((no_run ≡ none)
        × All
            (IsUnmatched parse_time 200 stream_of as_test_run as_production class_field ends
              subject)
            runs)
    ⊎ ((v : TestRun) × (no_run ≡ none)
        × IsLatest parse_time 200 stream_of as_test_run as_production class_field ends subject runs
            v
        × (applicable_test_run parse_time 200 v subject ≡ false))
project_evidence-IsLatest_example =
    project_evidence-IsLatest parse_time 200 stream_of as_test_run as_production class_field ends
      subject runs no_run later_failure_withdraws
