-- ===== src/Scope/Verdict.antt =====
-- The verdict of the end of `CheckScope` (internal/core/scope.go), the evidence ledger included.
use specd_cli.Base.{
  ℕ, String, ◌≡◌, refl, ap, ◌∙◌, Bool, true, false, not, ◌&&◌, Option, none, some, List, is_ok,
  is_some, contains, arith, Outcome, ok, err, Outcome-cases, >>=-eq-ok, refuse_if-eq-ok, inl, inr,
  ok_injective, subst, sym,
}
use specd_cli.State.Defs.{refused_as, refused_as-eq-ok}
use specd_cli.Record.Types.{Record, Codec}
use specd_cli.Record.Replay.{LedgerRefusal, replay_file}
use specd_cli.Scope.Defs.{
  GitScopeChange, AttemptFiles, scope_ledger, scope_history, managed_scope_path, allowed_paths,
  validated_attempt_managed_paths, judge_changes, check_scope,
}
use specd_cli.Scope.Authority.{changes_within, touched, judge_changes_within}
use specd_cli.Scope.Accepts.{judge_changes_iff}

-- A ledger that reads without a torn tail
abbrev pub reads_whole : Outcome LedgerRefusal (List Record × Option ℕ) → Bool
reads_whole (err e) = false
reads_whole (ok (records, torn)) = not (is_some torn)

module _ (codec : Codec) (files : AttemptFiles) where
  abbrev evidence_read : Outcome LedgerRefusal (List Record × Option ℕ)
  evidence_read = replay_file codec "evidence" files.read_fails files.evidence

  managed-allowed :
      (allowed : String → Bool)
      → validated_attempt_managed_paths codec files ≡ ok allowed
      → (reads_whole evidence_read ≡ true) × (allowed_paths files ≡ allowed)
  unfolding validated_attempt_managed_paths
  managed-allowed allowed h =
      let (replayed, read, a) = >>=-eq-ok (refused_as scope_ledger evidence_read) _ h in
      let (whole, done) = refuse_if-eq-ok (is_some replayed.1) scope_history _ a in
      (
        ap reads_whole (refused_as-eq-ok scope_ledger evidence_read read) ∙ ground (arith, whole),
        ok_injective refl done,
      )

  managed-ok : is_ok (validated_attempt_managed_paths codec files) ≡ reads_whole evidence_read
  unfolding validated_attempt_managed_paths
  managed-ok = elim (Outcome-cases evidence_read) [
    | inr (e, h) ↦ rw (validated_attempt_managed_paths, h) refl
    | inl ((records, none), h) ↦ rw (validated_attempt_managed_paths, h) refl
    | inl ((records, some line), h) ↦ rw (validated_attempt_managed_paths, h) refl
  ]

-- Where the end of `CheckScope` passes, the evidence ledger reads without a torn tail, every change is
-- an addition or a modification, every path of it is a lock, the state file or a ledger of the attempt,
-- or a declared file, and the paths that are reported as changed are exactly the touched ones that are
-- not managed.
pub check_scope-within :
    (codec : Codec) (files : AttemptFiles) (declared traverses : String → Bool)
    (changes : List GitScopeChange) (changed : List String)
    → check_scope codec files declared traverses changes ≡ ok changed
    → (reads_whole (replay_file codec "evidence" files.read_fails files.evidence) ≡ true)
      × (changes_within declared (allowed_paths files) traverses changes ≡ true)
      × ((p : String)
          → contains changed p ≡ (
              touched declared (allowed_paths files) traverses changes p
              && not (managed_scope_path p)))
unfolding check_scope
check_scope-within codec files declared traverses changes changed h =
    let (allowed, managed, judged) = >>=-eq-ok (validated_attempt_managed_paths codec files) _ h in
    let (whole, same) = managed-allowed codec files allowed managed in
    let (within, reported) =
      judge_changes_within declared (allowed_paths files) traverses changes changed
        (subst (λ a. judge_changes declared a traverses changes ≡ ok changed) (sym same) judged) in
    (whole, within, reported)

-- Where no path goes through a symbolic link or an alias of a managed file, the end of `CheckScope`,
-- which follows its checks of the attempt and of HEAD, passes exactly when the evidence ledger reads
-- without a torn tail, every change is an addition or a modification, and every path of it is a lock,
-- the state file or a ledger of the attempt, or a declared file.
pub check_scope_iff :
    (codec : Codec) (files : AttemptFiles) (declared traverses : String → Bool)
    → ((p : String) → traverses p ≡ false)
    → (changes : List GitScopeChange)
    → is_ok (check_scope codec files declared traverses changes) ≡ (
        reads_whole (replay_file codec "evidence" files.read_fails files.evidence)
        && changes_within declared (allowed_paths files) traverses changes)
unfolding check_scope
check_scope_iff codec files declared traverses plain changes =
    elim (Outcome-cases (validated_attempt_managed_paths codec files)) [
      | inr (e, h) ↦
          let torn : reads_whole (replay_file codec "evidence" files.read_fails files.evidence)
              ≡ false =
            sym (managed-ok codec files) ∙ ap is_ok h in
          rw (h, torn) refl
      | inl (allowed, h) ↦
          let (whole, same) = managed-allowed codec files allowed h in
          rw (h, whole)
            (ap (λ a. is_ok (judge_changes declared a traverses changes)) (sym same)
              ∙ judge_changes_iff declared (allowed_paths files) traverses plain changes)
    ]
