-- ===== src/Tests/Recordings.antt =====
-- Runs of NewProduction and NewReview of internal/core/evidence/production.go.
use specd_cli.Base.{
  ◌≡◌, refl, true, false, ok, is_ok, pos, if◌then◌else◌, ends_with, all_lower_hex, in_segments,
  trim_space, contains_any,
}
use specd_cli.Evidence.Defs.{RunResult, hex_value, utc}
use specd_cli.Evidence.Production.{
  Production, ProductionSubject, new_production, new_review, validate_production, validate_runnable,
  validate_review, valid_check, runnable, matches_production,
}
use specd_cli.Evidence.Ledger.{wanted}
use specd_cli.Evidence.Recorded.{new_production-passed, new_review-matches}
use specd_cli.Tests.Evidences.{hash, parse_time, subject, lint, lint_check}

abbrev result : RunResult
result = record {
  started_at = "T0Z";
  ended_at = "T1Z";
  exit_code = pos 0;
  passed = true;
  timed_out = false;
  interrupted = false;
  non_vacuous = true;
  zero_match = false;
  stdout_digest = hash;
  stderr_digest = hash;
  stdout_truncated = false;
  stderr_truncated = false;
}

abbrev for_lint : ProductionSubject
for_lint = wanted subject hash lint_check

abbrev for_review : ProductionSubject
for_review =
    record (wanted subject hash (record { class = "review"; check_id = "change-review" })) {
      evidence_set = hash;
      packet_hash = hash;
    }

abbrev review : Production
review = record lint {
  class = "review";
  check_id = "change-review";
  command_hash = "";
  reviewer = "ada";
  evidence_set = hash;
  packet_hash = hash;
  ended_at = "T0Z";
  stdout_digest = "";
  stderr_digest = "";
}

lint_recorded : new_production parse_time for_lint result ≡ ok lint
unfolding new_production validate_production validate_runnable valid_check hex_value utc runnable
    ends_with all_lower_hex in_segments
lint_recorded = refl

review_recorded : new_review parse_time for_review " ada" true "T0Z" ≡ ok review
unfolding new_review validate_production validate_review valid_check hex_value utc runnable
    ends_with all_lower_hex in_segments trim_space contains_any
review_recorded = refl

new_production-passed_example :
    (is_ok (validate_production parse_time lint) ≡ true)
    × (lint.passed ≡ true)
    × (lint.passed ≡ true
        → (result.timed_out ≡ false) × (result.interrupted ≡ false) × (result.non_vacuous ≡ true))
new_production-passed_example = new_production-passed parse_time for_lint result lint lint_recorded

new_review-matches_example :
    (matches_production parse_time review for_review ≡ true)
    × (review.passed ≡ true)
    × (review.exit_code ≡ (if true then pos 0 else pos 1))
new_review-matches_example =
    new_review-matches parse_time for_review " ada" true "T0Z" review review_recorded
