-- ===== src/Tests/Commits.antt =====
-- Runs of internal/core/transaction that start from a request.
use specd_cli.Base.{
  false, Option, ◌≡◌, refl, inl, inr, ℕ, zero, suc, true, none, some, List, [], ◌∷◌, ok, pos, clean,
  has_prefix, contains_any, trim_space, split_at, contains, all_lower_hex,
}
use specd_cli.Evidence.Defs.{hex_value}
use specd_cli.Record.Appends.{healthy}
use specd_cli.Transaction.Types.{Store, Entry, Output, Manifest, Request, Outside}
use specd_cli.Transaction.Plan.{
  under, valid_relative, any_bad_segment, insert_output, sort_outputs, sort_moves, check_moves,
  plan_outputs, plan_record, identity, validate_manifest, validate_moves, validate_outputs, plan,
}
use specd_cli.Transaction.Recover.{recover_locked, commit_under_root_lock}
use specd_cli.Transaction.Recoverable.{nth, Apart}
use specd_cli.Transaction.Staging.{planned}
use specd_cli.Transaction.Commits.{Ending}
use specd_cli.Transaction.Planned.{plan-digests}
use specd_cli.Transaction.Whole.{commit_under_root_lock-OldOrNew}
use specd_cli.Tests.Evidences.{hash}
use specd_cli.Tests.Records.{codec, history_file}
use specd_cli.Tests.Transactions.{apart_paths, outside, request, working, untouched, fails_at_b}

abbrev one_digest : Outside
one_digest = record outside { codec = record codec { sha256_hex = λ raw. hash } }

abbrev two_files : Request
two_files = record request {
  outputs =
      record { path = "b"; before = ""; bytes = some (66 ∷ []) }
      ∷ record { path = "a"; before = hash; bytes = some (65 ∷ []) }
      ∷ [];
}

abbrev file_a : Output
file_a = record { path = "a"; before = hash; after = hash }

abbrev file_b : Output
file_b = record { path = "b"; before = ""; after = hash }

abbrev sorted : Manifest
sorted = record {
  schema_version = pos 1;
  id = hash;
  operation = "sync";
  change = "c";
  revision = 1;
  timestamp = "T0Z";
  outputs = file_a ∷ file_b ∷ [];
  moves = [];
  bound_record = [];
}

is_planned : plan one_digest two_files ≡ ok sorted
unfolding plan validate_manifest validate_moves validate_outputs identity plan_record plan_outputs
    check_moves sort_outputs insert_output sort_moves valid_relative any_bad_segment clean
    contains_any has_prefix trim_space split_at contains hex_value all_lower_hex
is_planned = refl

plan-digests_example :
    ((i : ℕ) (o : Output)
      → nth i sorted.outputs ≡ some o
      → one_digest.codec.sha256_hex (planned two_files.outputs o) ≡ o.after)
    × (validate_manifest one_digest sorted ≡ ok tt)
plan-digests_example = plan-digests one_digest two_files sorted is_planned

sorted-Apart : Apart sorted.outputs
unfolding under has_prefix
sorted-Apart zero zero o p h k = inl refl
sorted-Apart zero (suc zero) o p h k = inr (apart_paths file_a file_b o p h k refl)
sorted-Apart (suc zero) zero o p h k = inr (apart_paths file_b file_a o p h k refl)
sorted-Apart (suc zero) (suc zero) o p h k = inl refl
sorted-Apart (suc (suc i)) j o p h k = cc
sorted-Apart i (suc (suc j)) o p h k = cc

-- A stage is left of a transaction that was never committed.
abbrev one_stage : Option (List Entry)
one_stage = some (record { name = ".txn-old"; is_dir = true; is_regular = false } ∷ [])

abbrev recovered : Store
recovered = (recover_locked one_digest fails_at_b history_file healthy true 1 one_stage untouched).1

commit_under_root_lock-OldOrNew_example : Ending one_digest sorted recovered (1 ∷ []) (
    commit_under_root_lock one_digest fails_at_b fails_at_b
      (λ p. none)
      history_file
      healthy
      healthy
      true
      working
      one_stage
      two_files
      untouched)
commit_under_root_lock-OldOrNew_example =
    commit_under_root_lock-OldOrNew one_digest fails_at_b fails_at_b (λ p. none) history_file
      healthy healthy true working one_stage two_files sorted untouched (1 ∷ []) is_planned refl
      refl refl sorted-Apart
