-- ===== src/Tests/Scopes.antt =====
-- Runs of internal/core/scope.go: a declared file is changed, and the lock of the change is there.
use specd_cli.Base.{
  Option, none, some, String, ◌≡◌, refl, Bool, true, false, not, ◌&&◌, List, [], ◌∷◌, ◌==◌, ok, err,
  is_ok, contains, sort_texts,
}
use specd_cli.Scope.Defs.{
  GitScopeChange, managed_scope_path, managed_lock_path, AttemptFiles, allowed_paths,
  validated_attempt_managed_paths, judge_changes, scope_history, check_scope, check_changes,
  check_change, check_paths, check_path, item_paths, sorted_unique, scope_outside,
}
use specd_cli.Scope.Authority.{changes_within, touched}
use specd_cli.Scope.Verdict.{reads_whole, check_scope-within, check_scope_iff}
use specd_cli.State.Replace.{Bytes}
use specd_cli.Record.Replay.{replay, replay_file}
use specd_cli.Tests.Records.{codec}

abbrev change : String → String → GitScopeChange
change kind path = record { kind = kind; path = path; previous_path = "" }

abbrev declared : String → Bool
declared p = p == "main.go"

abbrev files : Option Bytes → AttemptFiles
files evidence = record {
  read_fails = false;
  evidence = evidence;
  state_path = ".specd/changes/c/state.json";
  history_path = ".specd/history.jsonl";
  evidence_path = ".specd/evidence.jsonl";
}

abbrev traverses : String → Bool
traverses p = false

abbrev changes : List GitScopeChange
changes =
    change "M" "main.go"
    ∷ change "A" ".specd/root.lock"
    ∷ change "M" ".specd/history.jsonl"
    ∷ change "M" "main.go"
    ∷ []

main_changed : check_scope codec (files none) declared traverses changes ≡ ok ("main.go" ∷ [])
unfolding check_scope validated_attempt_managed_paths replay_file judge_changes check_changes
    check_change check_paths check_path item_paths managed_lock_path managed_scope_path
    sorted_unique sort_texts
main_changed = refl

deletion_is_outside :
    check_scope codec
      (files none)
      declared
      traverses
      (change "D" "main.go" ∷ change "A" "stray.go" ∷ [])
    ≡ err (scope_outside ("main.go" ∷ "stray.go" ∷ []))
unfolding check_scope validated_attempt_managed_paths replay_file judge_changes check_changes
    check_change check_paths check_path item_paths managed_lock_path managed_scope_path
    sorted_unique sort_texts
deletion_is_outside = refl

-- The evidence ledger has a tail that no newline ends.
torn_evidence :
    check_scope codec (files (some (1 ∷ []))) declared traverses changes ≡ err scope_history
unfolding check_scope validated_attempt_managed_paths replay_file replay
torn_evidence = refl

check_scope-within_example :
    (reads_whole (replay_file codec "evidence" false none) ≡ true)
    × (changes_within declared (allowed_paths (files none)) traverses changes ≡ true)
    × ((p : String)
        → contains ("main.go" ∷ []) p ≡ (
            touched declared (allowed_paths (files none)) traverses changes p
            && not (managed_scope_path p)))
check_scope-within_example =
    check_scope-within codec (files none) declared traverses changes ("main.go" ∷ []) main_changed

check_scope_iff_example : is_ok (check_scope codec (files none) declared traverses changes) ≡ (
    reads_whole (replay_file codec "evidence" false none)
    && changes_within declared (allowed_paths (files none)) traverses changes)
check_scope_iff_example = check_scope_iff codec (files none) declared traverses (λ p. refl) changes
