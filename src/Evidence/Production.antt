-- ===== src/Evidence/Production.antt =====
-- internal/core/evidence/production.go: required checks, the payload of the build, lint and review
-- classes, its validation and whether it applies to a subject.
use specd_cli.Base.{
  ℕ, String, Bool, false, not, ◌&&◌, ◌||◌, Option, [], ◌∷◌, ◌==◌, if◌then◌else◌, nat_eq, ltb, leb,
  Outcome, ok, ◌>>◌, refuse_if, is_ok, contains_any, in_segments, trim_space, ℤ, is_zero,
}
use Prim.Native.String.{len}
use specd_cli.Evidence.Defs.{
  Instant, RunResult, Subject, EvidenceRefusal, unsupported_schema, identity_missing,
  malformed_head, malformed_digest, malformed_time, facts_disagree, vacuous_pass, uses_test_run,
  unknown_check, malformed_policy, carries_reviewer, carries_bindings, command_missing,
  review_executes, reviewer_missing, malformed_findings, malformed_binding, class_test_run,
  same_bool, is_one, hex_value, digest, bad_span, utc, not_after,
}

abbrev pub class_build : String
class_build = "build"

abbrev pub class_lint : String
class_lint = "lint"

abbrev pub class_review : String
class_review = "review"

pub record RequiredCheck : Type 0 where
  pub class : String
  pub check_id : String

unfoldable pub known_class : String → Bool
known_class class =
    class == class_test_run || class == class_build || class == class_lint || class == class_review

unfoldable pub valid_check : RequiredCheck → Bool
unfolding known_class
valid_check check =
    known_class check.class && leb (len check.check_id) 64 && in_segments false check.check_id

unfoldable pub runnable : String → Bool
runnable class = class == class_test_run || class == class_build || class == class_lint

pub record Production : Type 0 where
  pub schema_version : ℤ
  pub class : String
  pub check_id : String
  pub policy_digest : String
  pub change : String
  pub task_id : String
  pub attempt_id : String
  pub head : String
  pub task_hash : String
  pub command_hash : String
  pub reviewer : String
  pub findings : String
  pub evidence_set : String
  pub packet_hash : String
  pub approval_hash : String
  pub state_revision : ℕ
  pub started_at : String
  pub ended_at : String
  pub exit_code : ℤ
  pub passed : Bool
  pub timed_out : Bool
  pub interrupted : Bool
  pub stdout_digest : String
  pub stderr_digest : String
  pub stdout_cut : Bool
  pub stderr_cut : Bool

pub record ProductionSubject : Type 0 where
  pub subject : Subject
  pub check : RequiredCheck
  pub policy_digest : String
  pub evidence_set : String
  pub packet_hash : String

-- the switch for a class that runs a command
unfoldable pub validate_runnable : Production → Outcome EvidenceRefusal (Unit {0})
validate_runnable v = do
  refuse_if (not (v.reviewer == "")) carries_reviewer
  refuse_if (not (v.findings == "") || not (v.evidence_set == "") || not (v.packet_hash == ""))
      carries_bindings
  refuse_if (not (digest v.command_hash)) command_missing
  refuse_if (not (digest v.stdout_digest) || not (digest v.stderr_digest)) malformed_digest
  ok tt

-- the switch for the review class; the sets are newline, return, tab and nul
unfoldable pub validate_review : Production → Outcome EvidenceRefusal (Unit {0})
validate_review v = do
  refuse_if
      (not (v.command_hash == "")
        || not (v.stdout_digest == "")
        || not (v.stderr_digest == "")
        || v.stdout_cut
        || v.stderr_cut)
      review_executes
  refuse_if
      (v.reviewer == ""
        || ltb 320 (len v.reviewer)
        || not (trim_space v.reviewer == v.reviewer)
        || contains_any v.reviewer (10 ∷ 13 ∷ 9 ∷ []))
      reviewer_missing
  refuse_if (ltb 2048 (len v.findings) || contains_any v.findings (0 ∷ [])) malformed_findings
  refuse_if
      (not (v.evidence_set == "") && not (digest v.evidence_set)
        || not (v.packet_hash == "") && not (digest v.packet_hash))
      malformed_binding
  ok tt

module _ (parse_time : String → Option Instant) where
  unfoldable pub validate_production : Production → Outcome EvidenceRefusal (Unit {0})
  validate_production v = do
    refuse_if (not (is_one v.schema_version)) unsupported_schema
    refuse_if (v.class == class_test_run) uses_test_run
    refuse_if (not (valid_check (record { class = v.class; check_id = v.check_id }))) unknown_check
    refuse_if (not (digest v.policy_digest)) malformed_policy
    refuse_if (v.change == "" || v.task_id == "" || v.attempt_id == "") identity_missing
    refuse_if (not (hex_value v.head (40 ∷ 64 ∷ []))) malformed_head
    refuse_if (not (digest v.task_hash) || not (digest v.approval_hash)) malformed_digest
    refuse_if
        (nat_eq v.state_revision 0
          || bad_span parse_time (utc parse_time v.started_at) (utc parse_time v.ended_at))
        malformed_time
    refuse_if
        (not (same_bool v.passed (is_zero v.exit_code && not v.timed_out && not v.interrupted)))
        facts_disagree
    if runnable v.class then validate_runnable v else validate_review v

  unfoldable pub new_production : ProductionSubject → RunResult → Outcome EvidenceRefusal Production
  new_production s result =
      let value : Production = record {
        schema_version = ℤ.pos 1;
        class = s.check.class;
        check_id = s.check.check_id;
        policy_digest = s.policy_digest;
        change = s.subject.change;
        task_id = s.subject.task_id;
        attempt_id = s.subject.attempt_id;
        head = s.subject.head;
        task_hash = s.subject.task_hash;
        command_hash = s.subject.command_hash;
        reviewer = "";
        findings = "";
        evidence_set = "";
        packet_hash = "";
        approval_hash = s.subject.approval_hash;
        state_revision = s.subject.state_revision;
        started_at = result.started_at;
        ended_at = result.ended_at;
        exit_code = result.exit_code;
        passed = result.passed;
        timed_out = result.timed_out;
        interrupted = result.interrupted;
        stdout_digest = result.stdout_digest;
        stderr_digest = result.stderr_digest;
        stdout_cut = result.stdout_truncated;
        stderr_cut = result.stderr_truncated;
      } in
      do
        refuse_if
            (value.passed && (result.timed_out || result.interrupted || not result.non_vacuous))
            vacuous_pass
        validate_production value
        ok value

  -- `stamp` is the observed time as RFC3339Nano formats it in UTC.
  unfoldable pub new_review :
      ProductionSubject → String → Bool → String → Outcome EvidenceRefusal Production
  new_review s reviewer passed stamp =
      let value : Production = record {
        schema_version = ℤ.pos 1;
        class = s.check.class;
        check_id = s.check.check_id;
        policy_digest = s.policy_digest;
        change = s.subject.change;
        task_id = s.subject.task_id;
        attempt_id = s.subject.attempt_id;
        head = s.subject.head;
        task_hash = s.subject.task_hash;
        command_hash = "";
        reviewer = trim_space reviewer;
        findings = "";
        evidence_set = s.evidence_set;
        packet_hash = s.packet_hash;
        approval_hash = s.subject.approval_hash;
        state_revision = s.subject.state_revision;
        started_at = stamp;
        ended_at = stamp;
        exit_code = if passed then ℤ.pos 0 else ℤ.pos 1;
        passed = passed;
        timed_out = false;
        interrupted = false;
        stdout_digest = "";
        stderr_digest = "";
        stdout_cut = false;
        stderr_cut = false;
      } in
      do validate_production value; ok value

  unfoldable pub matches_production : Production → ProductionSubject → Bool
  matches_production v s =
      if v.class == class_review
        && not (s.evidence_set == "")
        && not (s.packet_hash == "")
        && (not (v.evidence_set == s.evidence_set) || not (v.packet_hash == s.packet_hash))
      then false
      else is_ok (validate_production v)
        && v.class == s.check.class
        && v.check_id == s.check.check_id
        && v.policy_digest == s.policy_digest
        && v.change == s.subject.change
        && v.task_id == s.subject.task_id
        && v.attempt_id == s.subject.attempt_id
        && v.head == s.subject.head
        && v.task_hash == s.subject.task_hash
        && v.approval_hash == s.subject.approval_hash
        && nat_eq v.state_revision s.subject.state_revision

  unfoldable pub applicable_production : ℕ → Production → ProductionSubject → Bool
  applicable_production now v s =
      not_after parse_time (utc parse_time v.ended_at) now
      && matches_production v s
      && v.passed
      && is_zero v.exit_code
