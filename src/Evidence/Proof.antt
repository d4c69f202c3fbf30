-- ===== src/Evidence/Proof.antt =====
-- What an observation that applies to a subject proves: internal/core/evidence/evidence.go and
-- production.go.
use specd_cli.Base.{
  ℕ, ◌≤◌, ◌<◌, String, ◌≡◌, inl, inr, true, false, not, ◌&&◌, Option, some, nat_eq, pos, is_zero,
  is_zero-pos, arith, eq_iff, Option-cases, is_ok,
}
use specd_cli.Evidence.Defs.{
  Instant, TestRun, Subject, utc, bad_span, same_bool, validate_test_run, matches_test_run,
  applicable_test_run, not_after,
}

module _ (parse_time : String → Option Instant) where
  -- The observation ended no later than now, and not before it started.
  abbrev pub EndsBy : ℕ → String → String → Type 0
  EndsBy now started ended =
      (start : ℕ) × (end : ℕ) × (utc parse_time started ≡ some start)
      × (utc parse_time ended ≡ some end)
      × (start ≤ end)
      × (end ≤ now)

  abbrev pub IsProof : ℕ → TestRun → Subject → Type 0
  IsProof now v subject =
      ((v.passed ≡ true) × (v.exit_code ≡ pos 0) × (v.non_vacuous ≡ true))
      × ((v.timed_out ≡ false) × (v.interrupted ≡ false) × (v.zero_match ≡ false))
      × ((v.change ≡ subject.change)
          × (v.task_id ≡ subject.task_id)
          × (v.attempt_id ≡ subject.attempt_id))
      × ((v.head ≡ subject.head)
          × (v.task_hash ≡ subject.task_hash)
          × (v.command_hash ≡ subject.command_hash))
      × ((v.approval_hash ≡ subject.approval_hash) × (v.state_revision ≡ subject.state_revision))
      × (0 < v.state_revision)
      × EndsBy now v.started_at v.ended_at

  applicable_test_run-parts :
      (now : ℕ) (v : TestRun) (subject : Subject)
      → applicable_test_run parse_time now v subject ≡ true
      → (not_after parse_time (utc parse_time v.ended_at) now ≡ true)
        × (matches_test_run parse_time v subject ≡ true)
        × (v.passed ≡ true)
        × (is_zero v.exit_code ≡ true)
        × (v.non_vacuous ≡ true)
  unfolding applicable_test_run
  applicable_test_run-parts now v subject h = ground arith

  matches_test_run-parts :
      (v : TestRun) (subject : Subject)
      → matches_test_run parse_time v subject ≡ true
      → (is_ok (validate_test_run parse_time v) ≡ true)
        × ((v.change ≡ subject.change)
            × (v.task_id ≡ subject.task_id)
            × (v.attempt_id ≡ subject.attempt_id))
        × ((v.head ≡ subject.head)
            × (v.task_hash ≡ subject.task_hash)
            × (v.command_hash ≡ subject.command_hash))
        × ((v.approval_hash ≡ subject.approval_hash) × (v.state_revision ≡ subject.state_revision))
  unfolding matches_test_run
  matches_test_run-parts v subject h = (
    ground arith,
    (
      (eq_iff v.change subject.change).0 (ground arith),
      (eq_iff v.task_id subject.task_id).0 (ground arith),
      (eq_iff v.attempt_id subject.attempt_id).0 (ground arith),
    ),
    (
      (eq_iff v.head subject.head).0 (ground arith),
      (eq_iff v.task_hash subject.task_hash).0 (ground arith),
      (eq_iff v.command_hash subject.command_hash).0 (ground arith),
    ),
    ((eq_iff v.approval_hash subject.approval_hash).0 (ground arith), ground arith),
  )

  validate_test_run-parts :
      (v : TestRun)
      → is_ok (validate_test_run parse_time v) ≡ true
      → (nat_eq v.state_revision 0 ≡ false)
        × (bad_span parse_time (utc parse_time v.started_at) (utc parse_time v.ended_at) ≡ false)
        × (same_bool v.passed (
              is_zero v.exit_code
              && v.non_vacuous
              && not v.timed_out
              && not v.interrupted
              && not v.zero_match)
            ≡ true)
  unfolding validate_test_run
  validate_test_run-parts v h = ground arith

  pub span-EndsBy :
      (now : ℕ) (started ended : String)
      → not_after parse_time (utc parse_time ended) now ≡ true
      → bad_span parse_time (utc parse_time started) (utc parse_time ended) ≡ false
      → EndsBy now started ended
  span-EndsBy now started ended late span = elim (Option-cases (utc parse_time started)) [
    | inl absent ↦ absurd (ground (arith, absent))
    | inr (start, s) ↦ elim (Option-cases (utc parse_time ended)) [
      | inl absent ↦ absurd (ground (arith, absent))
      | inr (end, e) ↦ (start, end, s, e, ground (arith, s, e), ground (arith, s, e))
    ]
  ]

  -- A test run that applies to a subject ran to its end and passed: exit code 0, not vacuous, neither
  -- timed out nor interrupted nor without a matching test, not in the future, and recorded for exactly
  -- the change, task, attempt, commit, hashes and revision of the subject.
  pub applicable_test_run-IsProof :
      (now : ℕ) (v : TestRun) (subject : Subject)
      → applicable_test_run parse_time now v subject ≡ true
      → IsProof now v subject
  applicable_test_run-IsProof now v subject h =
      let (late, matching, passed, zero, full) = applicable_test_run-parts now v subject h in
      let (fine, names, hashes, rest) = matches_test_run-parts v subject matching in
      let (positive, span, facts) = validate_test_run-parts v fine in
      (
        (passed, is_zero-pos v.exit_code zero, full),
        (ground arith, ground arith, ground arith),
        names,
        hashes,
        rest,
        ground arith,
        span-EndsBy now v.started_at v.ended_at late span,
      )
