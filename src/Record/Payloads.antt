-- ===== src/Record/Payloads.antt =====
-- internal/core/record/record.go: the validation of the payloads of history records.
-- `hash_attempt` is the hex form of the SHA-256 digest of an attempt's encoding.
use specd_cli.Base.{
  ℕ, String, Bool, true, false, not, ◌&&◌, ◌||◌, List, [], ◌∷◌, ◌==◌, nat_eq, Outcome, ok, ◌>>◌,
  refuse_if, trim_space, contains_any, has_prefix, clean, ℤ, pos,
}
use specd_cli.Record.Types.{
  AttemptPayload, CompletionPayload, SpecHash, SyncPayload, ArchivePayload, FrictionPayload,
  ReopenedPayload, RecordRefusal, completion_malformed, sync_malformed, archive_malformed,
  friction_malformed, reopened_malformed, attempt_malformed, files_malformed, specs_malformed,
}
use Prim.Native.String.{compare}
use text.Mathlib.Text.{is_le}
use specd_cli.State.Defs.{same_int, count_up}
use specd_cli.Evidence.Defs.{hex_value, digest}

abbrev pub version_one : ℤ
version_one = pos 1

abbrev pub is_blank : String → Bool
is_blank value = trim_space value == ""

-- `before == 0 || after != before+1`, on words of 64 bits
unfoldable pub bad_step : ℕ → ℕ → Bool
bad_step before after = nat_eq before 0 || not (nat_eq after (count_up before))

unfoldable pub valid_attempt_path : String → Bool
valid_attempt_path value =
    not (value == "")
    && not (value == ".")
    && clean value == value
    && not (has_prefix value "/")
    && not (value == "..")
    && not (has_prefix value "../")
    && not (contains_any value (92 ∷ 42 ∷ 63 ∷ 91 ∷ []))
    && not (value == ".specd")
    && not (has_prefix value ".specd/")
    && not (value == ".git")
    && not (has_prefix value ".git/")

unfoldable pub validate_completion : CompletionPayload → Outcome RecordRefusal (Unit {0})
validate_completion v =
    refuse_if
      (not (same_int v.schema_version version_one)
        || v.change == ""
        || v.task_id == ""
        || not (digest v.attempt_id)
        || not (digest v.evidence_id)
        || is_blank v.actor
        || not (v.activity_from == "in_progress")
        || not (v.activity_to == "completed")
        || bad_step v.revision_before v.revision_after)
      completion_malformed

-- The loop over the spec hashes; `ordered` says that the capability may stand after the one before.
abbrev bad_spec : Bool → SpecHash → Bool
bad_spec ordered item =
    item.capability == ""
    || not (valid_attempt_path item.path)
    || not (digest item.after)
    || not (item.before == "") && not (digest item.before)
    || not ordered

unfoldable pub check_specs_after : SpecHash → List SpecHash → Outcome RecordRefusal (Unit {0})
check_specs_after last [] = ok tt
check_specs_after last (item ∷ items) = do
  refuse_if (bad_spec (not (is_le (compare item.capability last.capability))) item) specs_malformed
  check_specs_after item items

unfoldable pub valid_spec_hashes : List SpecHash → Bool → Outcome RecordRefusal (Unit {0})
valid_spec_hashes [] require_outputs = refuse_if require_outputs sync_malformed
valid_spec_hashes (item ∷ items) require_outputs = do
  refuse_if (bad_spec true item) specs_malformed
  check_specs_after item items

unfoldable pub validate_sync : SyncPayload → Outcome RecordRefusal (Unit {0})
validate_sync v = do
  refuse_if
      (not (same_int v.schema_version version_one)
        || v.change == ""
        || is_blank v.approver
        || not (v.actor_class == "human")
        || is_blank v.reason
        || not (digest v.approval_hash)
        || not (digest v.plan_hash)
        || not (digest v.evidence_set)
        || not (digest v.transaction)
        || not (v.assurance == "advisory")
        || bad_step v.revision_before v.revision_after)
      sync_malformed
  valid_spec_hashes v.outputs true

unfoldable pub validate_archive : ArchivePayload → Outcome RecordRefusal (Unit {0})
validate_archive v = do
  refuse_if
      (not (same_int v.schema_version version_one)
        || v.change == ""
        || is_blank v.actor
        || is_blank v.approver
        || not (valid_attempt_path v.source)
        || not (valid_attempt_path v.target)
        || v.source == v.target
        || not (digest v.change_hash)
        || not (digest v.evidence_set)
        || not (digest v.sync_record)
        || not (digest v.transaction)
        || bad_step v.revision_before v.revision_after)
      archive_malformed
  valid_spec_hashes v.accepted false

unfoldable pub validate_friction : FrictionPayload → Outcome RecordRefusal (Unit {0})
validate_friction v =
    refuse_if
      (not (same_int v.schema_version version_one)
        || v.change == ""
        || v.task_id == ""
        || is_blank v.operation
        || is_blank v.domain
        || is_blank v.blocker
        || is_blank v.consequence
        || is_blank v.actor
        || nat_eq v.observed_revision 0
        || not (digest v.contract_hash)
        || not (digest v.state_hash)
        || not (digest v.evidence_set))
      friction_malformed

unfoldable pub validate_reopened : ReopenedPayload → Outcome RecordRefusal (Unit {0})
validate_reopened v =
    refuse_if
      (not (same_int v.schema_version version_one)
        || v.change == ""
        || is_blank v.actor
        || is_blank v.reason
        || not (v.lifecycle_from == "approved")
        || not (v.lifecycle_to == "planning")
        || is_blank v.approval_id
        || not (hex_value v.observed_head (40 ∷ 64 ∷ []))
        || not (v.attempt_id == "") && not (digest v.attempt_id)
        || bad_step v.revision_before v.revision_after)
      reopened_malformed

abbrev pub new_completion : CompletionPayload → CompletionPayload × Outcome RecordRefusal (Unit {0})
new_completion v =
    let fresh : CompletionPayload = record v { schema_version = version_one } in
    (fresh, validate_completion fresh)

abbrev pub new_sync : SyncPayload → SyncPayload × Outcome RecordRefusal (Unit {0})
new_sync v =
    let fresh : SyncPayload = record v { schema_version = version_one } in
    (fresh, validate_sync fresh)

abbrev pub new_archive : ArchivePayload → ArchivePayload × Outcome RecordRefusal (Unit {0})
new_archive v =
    let fresh : ArchivePayload = record v { schema_version = version_one } in
    (fresh, validate_archive fresh)

abbrev pub new_friction : FrictionPayload → FrictionPayload × Outcome RecordRefusal (Unit {0})
new_friction v =
    let fresh : FrictionPayload = record v { schema_version = version_one } in
    (fresh, validate_friction fresh)

abbrev pub new_reopened : ReopenedPayload → ReopenedPayload × Outcome RecordRefusal (Unit {0})
new_reopened v =
    let fresh : ReopenedPayload = record v { schema_version = version_one } in
    (fresh, validate_reopened fresh)

abbrev no_files : List String → Bool
no_files [] = true
no_files (file ∷ files) = false

unfoldable pub check_files_after : String → List String → Outcome RecordRefusal (Unit {0})
check_files_after last [] = ok tt
check_files_after last (file ∷ files) = do
  refuse_if (not (valid_attempt_path file) || is_le (compare file last)) files_malformed
  check_files_after file files

unfoldable pub check_files : List String → Outcome RecordRefusal (Unit {0})
check_files [] = ok tt
check_files (file ∷ files) = do
  refuse_if (not (valid_attempt_path file)) files_malformed
  check_files_after file files

module _ (hash_attempt : AttemptPayload → String) where
  unfoldable pub attempt_identity : AttemptPayload → String
  attempt_identity v = hash_attempt (record v { id = "" })

  unfoldable pub validate_attempt : AttemptPayload → Outcome RecordRefusal (Unit {0})
  validate_attempt v = do
    refuse_if
        (not (same_int v.schema_version version_one)
          || v.id == ""
          || v.change == ""
          || v.task_id == ""
          || not (hex_value v.baseline_head (40 ∷ 64 ∷ []))
          || bad_step v.revision_before v.revision_after
          || not (digest v.contract_hash)
          || not (digest v.approval_hash)
          || not (digest v.state_guard_hash)
          || no_files v.declared_files
          || is_blank v.actor
          || not (v.assurance == "advisory")
          || not (v.activity_from == "pending")
          || not (v.activity_to == "in_progress")
          || not (v.id == attempt_identity v))
        attempt_malformed
    check_files v.declared_files

  abbrev pub new_attempt : AttemptPayload → AttemptPayload × Outcome RecordRefusal (Unit {0})
  new_attempt v =
      let versioned : AttemptPayload = record v { schema_version = version_one } in
      let fresh : AttemptPayload = record versioned { id = attempt_identity versioned } in
      (fresh, validate_attempt fresh)
