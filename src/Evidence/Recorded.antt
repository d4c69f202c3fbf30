-- ===== src/Evidence/Recorded.antt =====
-- What a recorded observation carries over: NewProduction and NewReview of
-- internal/core/evidence/production.go.
use specd_cli.Base.{
  String, ◌≡◌, refl, Bool, true, false, Option, if◌then◌else◌, ok, is_ok, pos, arith, eq_iff,
}
use specd_cli.Evidence.Defs.{Instant, RunResult}
use specd_cli.Evidence.Production.{
  Production, ProductionSubject, validate_production, new_production, new_review,
  matches_production,
}

module _ (parse_time : String → Option Instant) where
  -- A recorded observation of a command is valid, keeps the result's verdict, and passes only where the
  -- command ran to its end and was not vacuous.
  pub new_production-passed :
      (s : ProductionSubject) (result : RunResult) (v : Production)
      → new_production parse_time s result ≡ ok v
      → (is_ok (validate_production parse_time v) ≡ true)
        × (v.passed ≡ result.passed)
        × (v.passed ≡ true
            → (result.timed_out ≡ false)
              × (result.interrupted ≡ false)
              × (result.non_vacuous ≡ true))
  unfolding new_production
  new_production-passed s result v h =
      (ground arith, ground arith, λ p. (ground arith, ground arith, ground arith))

  -- A recorded review matches the subject that it was recorded for, with its evidence set and packet,
  -- keeps the reviewer's verdict, and its exit code is 0 exactly for a pass.
  pub new_review-matches :
      (s : ProductionSubject) (reviewer : String) (passed : Bool) (stamp : String) (v : Production)
      → new_review parse_time s reviewer passed stamp ≡ ok v
      → (matches_production parse_time v s ≡ true)
        × (v.passed ≡ passed)
        × (v.exit_code ≡ (if passed then pos 0 else pos 1))
  unfolding new_review matches_production
  new_review-matches s reviewer passed stamp v h = (
    ground (
      arith,
      (eq_iff s.check.class s.check.class).1 refl,
      (eq_iff s.check.check_id s.check.check_id).1 refl,
      (eq_iff s.policy_digest s.policy_digest).1 refl,
      (eq_iff s.subject.change s.subject.change).1 refl,
      (eq_iff s.subject.task_id s.subject.task_id).1 refl,
      (eq_iff s.subject.attempt_id s.subject.attempt_id).1 refl,
      (eq_iff s.subject.head s.subject.head).1 refl,
      (eq_iff s.subject.task_hash s.subject.task_hash).1 refl,
      (eq_iff s.subject.approval_hash s.subject.approval_hash).1 refl,
      (eq_iff s.evidence_set s.evidence_set).1 refl,
      (eq_iff s.packet_hash s.packet_hash).1 refl,
    ),
    ground arith,
    ground arith,
  )
