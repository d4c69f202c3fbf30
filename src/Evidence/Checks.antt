-- ===== src/Evidence/Checks.antt =====
-- What a production observation that applies to a required check proves:
-- internal/core/evidence/production.go.
use specd_cli.Base.{ℕ, String, ◌≡◌, ◌≢◌, ◌⊎◌, true, false, Option, pos}
use specd_cli.Evidence.Defs.{Instant, class_test_run, digest}
use specd_cli.Evidence.Production.{Production, ProductionSubject, runnable, class_review}
use specd_cli.Evidence.Proof.{EndsBy}

-- A class that runs has the digest of its command and no reviewer; a review has a reviewer and no
-- command.
abbrev pub IsSeparate : Production → Type 0
IsSeparate v =
    ((runnable v.class ≡ true) × (digest v.command_hash ≡ true) × (v.reviewer ≡ ""))
    ⊎ ((v.class ≡ class_review) × (v.command_hash ≡ "") × (v.reviewer ≢ ""))

module _ (parse_time : String → Option Instant) where
  abbrev pub IsProduced : ℕ → Production → ProductionSubject → Type 0
  IsProduced now v s =
      ((v.passed ≡ true) × (v.exit_code ≡ pos 0) × (v.timed_out ≡ false) × (v.interrupted ≡ false))
      × ((v.class ≡ s.check.class)
          × (v.check_id ≡ s.check.check_id)
          × (v.policy_digest ≡ s.policy_digest))
      × ((v.change ≡ s.subject.change)
          × (v.task_id ≡ s.subject.task_id)
          × (v.attempt_id ≡ s.subject.attempt_id))
      × ((v.head ≡ s.subject.head)
          × (v.task_hash ≡ s.subject.task_hash)
          × (v.approval_hash ≡ s.subject.approval_hash)
          × (v.state_revision ≡ s.subject.state_revision))
      × EndsBy parse_time now v.started_at v.ended_at
      × (v.class ≢ class_test_run)
      × IsSeparate v
