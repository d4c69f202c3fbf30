-- ===== src/Evidence/Defs.antt =====
-- internal/core/evidence/evidence.go: the payload of a test run, its validation, whether it applies
-- to a subject, and the projection of a ledger.
-- `parse_time` is time.Parse with RFC3339Nano: the instant in nanoseconds and whether its location is
-- UTC. `now` is the clock. The result of a verification command is an input.
use specd_cli.Base.{
  ℕ, String, Bool, true, false, not, ◌&&◌, ◌||◌, Option, none, some, List, [], ◌∷◌, ◌==◌,
  if◌then◌else◌, nat_eq, ltb, Outcome, ok, ◌>>◌, refuse_if, is_ok, all_lower_hex, ends_with, ℤ,
  is_zero,
}
use Prim.Native.String.{len}

pub record Instant : Type 0 where
  pub at : ℕ
  pub in_utc : Bool

-- verifyexec.Result
pub record RunResult : Type 0 where
  pub started_at : String
  pub ended_at : String
  pub exit_code : ℤ
  pub passed : Bool
  pub timed_out : Bool
  pub interrupted : Bool
  pub non_vacuous : Bool
  pub zero_match : Bool
  pub stdout_digest : String
  pub stderr_digest : String
  pub stdout_truncated : Bool
  pub stderr_truncated : Bool

pub record TestRun : Type 0 where
  pub schema_version : ℤ
  pub class : String
  pub change : String
  pub task_id : String
  pub attempt_id : String
  pub head : String
  pub task_hash : String
  pub command_hash : String
  pub approval_hash : String
  pub state_revision : ℕ
  pub started_at : String
  pub ended_at : String
  pub exit_code : ℤ
  pub passed : Bool
  pub timed_out : Bool
  pub interrupted : Bool
  pub non_vacuous : Bool
  pub zero_match : Bool
  pub stdout_digest : String
  pub stderr_digest : String
  pub stdout_cut : Bool
  pub stderr_cut : Bool

pub record Subject : Type 0 where
  pub change : String
  pub task_id : String
  pub attempt_id : String
  pub head : String
  pub task_hash : String
  pub command_hash : String
  pub approval_hash : String
  pub state_revision : ℕ

pub data EvidenceRefusal : Type 0 where
  unsupported_schema : EvidenceRefusal
  identity_missing malformed_head malformed_digest malformed_time facts_disagree : EvidenceRefusal
  vacuous_pass : EvidenceRefusal
  uses_test_run unknown_check malformed_policy : EvidenceRefusal
  carries_reviewer carries_bindings command_missing : EvidenceRefusal
  review_executes reviewer_missing malformed_findings malformed_binding : EvidenceRefusal
  duplicate_record malformed_record unknown_class : EvidenceRefusal

abbrev pub class_test_run : String
class_test_run = "test-run"

abbrev pub same_bool : Bool → Bool → Bool
same_bool true b = b
same_bool false b = not b

abbrev pub is_one : ℤ → Bool
is_one (ℤ.pos n) = nat_eq n 1
is_one (ℤ.negsuc n) = false

abbrev pub has_length : List ℕ → ℕ → Bool
has_length [] n = false
has_length (m ∷ ms) n = nat_eq m n || has_length ms n

-- A text of one of the lengths (all even, so that hex.DecodeString takes it) in lower hex digits.
unfoldable pub hex_value : String → List ℕ → Bool
hex_value value lengths = has_length lengths (len value) && all_lower_hex value

abbrev pub digest : String → Bool
digest value = hex_value value (64 ∷ [])

module _ (parse_time : String → Option Instant) where
  unfoldable pub utc : String → Option ℕ
  utc value = elim (parse_time value) [
    | none ↦ none
    | some t ↦ if not (ends_with value 90) || not t.in_utc then none else some t.at
  ]

  -- `startErr != nil || endErr != nil || end.Before(start)`
  abbrev pub bad_span : Option ℕ → Option ℕ → Bool
  bad_span (some start) (some end) = ltb end start
  bad_span _ _ = true

  unfoldable pub validate_test_run : TestRun → Outcome EvidenceRefusal (Unit {0})
  validate_test_run v = do
    refuse_if (not (is_one v.schema_version) || not (v.class == class_test_run)) unsupported_schema
    refuse_if (v.change == "" || v.task_id == "" || v.attempt_id == "") identity_missing
    refuse_if (not (hex_value v.head (40 ∷ 64 ∷ []))) malformed_head
    refuse_if
        (not (digest v.task_hash)
          || not (digest v.command_hash)
          || not (digest v.approval_hash)
          || not (digest v.stdout_digest)
          || not (digest v.stderr_digest))
        malformed_digest
    refuse_if (nat_eq v.state_revision 0 || bad_span (utc v.started_at) (utc v.ended_at))
        malformed_time
    refuse_if
        (not (
          same_bool v.passed (
            is_zero v.exit_code
            && v.non_vacuous
            && not v.timed_out
            && not v.interrupted
            && not v.zero_match)))
        facts_disagree
    refuse_if ((v.timed_out || v.interrupted || v.zero_match) && v.non_vacuous) vacuous_pass
    ok tt

  abbrev pub new_test_run : Subject → RunResult → TestRun × Outcome EvidenceRefusal (Unit {0})
  new_test_run subject result =
      let value : TestRun = record {
        schema_version = ℤ.pos 1;
        class = class_test_run;
        change = subject.change;
        task_id = subject.task_id;
        attempt_id = subject.attempt_id;
        head = subject.head;
        task_hash = subject.task_hash;
        command_hash = subject.command_hash;
        approval_hash = subject.approval_hash;
        state_revision = subject.state_revision;
        started_at = result.started_at;
        ended_at = result.ended_at;
        exit_code = result.exit_code;
        passed = result.passed;
        timed_out = result.timed_out;
        interrupted = result.interrupted;
        non_vacuous = result.non_vacuous;
        zero_match = result.zero_match;
        stdout_digest = result.stdout_digest;
        stderr_digest = result.stderr_digest;
        stdout_cut = result.stdout_truncated;
        stderr_cut = result.stderr_truncated;
      } in
      (value, validate_test_run value)

  unfoldable pub matches_test_run : TestRun → Subject → Bool
  matches_test_run v subject =
      is_ok (validate_test_run v)
      && v.class == class_test_run
      && v.change == subject.change
      && v.task_id == subject.task_id
      && v.attempt_id == subject.attempt_id
      && v.head == subject.head
      && v.task_hash == subject.task_hash
      && v.command_hash == subject.command_hash
      && v.approval_hash == subject.approval_hash
      && nat_eq v.state_revision subject.state_revision

  abbrev pub not_after : Option ℕ → ℕ → Bool
  not_after none now = false
  not_after (some end) now = not (ltb now end)

  unfoldable pub applicable_test_run : ℕ → TestRun → Subject → Bool
  applicable_test_run now v subject =
      not_after (utc v.ended_at) now
      && matches_test_run v subject
      && v.passed
      && is_zero v.exit_code
      && v.non_vacuous
