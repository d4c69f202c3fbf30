-- ===== src/Record/Types.antt =====
-- internal/core/record/record.go: the record of a ledger, the payloads of history records, and what
-- encoding/json, crypto/sha256 and time give (`Codec`).
-- `unmarshal_record` and the like stand for Decode with DisallowUnknownFields: the value, and the
-- stream behind it. `decode_value` is Decode into an `any`, with what the code asks of the value.
use specd_cli.Base.{ℕ, String, Bool, Option, List, ℤ}
use specd_cli.State.Replace.{Bytes}
use specd_cli.State.Tokens.{Stream, DecodeRefusal}
use specd_cli.Evidence.Defs.{Instant}

pub record Record : Type 0 where
  pub schema_version : ℤ
  pub id : String
  pub family : String
  pub kind : String
  pub change : String
  pub expected_revision : Option ℕ
  pub resulting_revision : Option ℕ
  pub timestamp : String
  pub actor : String
  pub payload : Bytes

pub record AttemptPayload : Type 0 where
  pub schema_version : ℤ
  pub id : String
  pub change : String
  pub task_id : String
  pub baseline_head : String
  pub revision_before : ℕ
  pub revision_after : ℕ
  pub contract_hash : String
  pub approval_hash : String
  pub state_guard_hash : String
  pub declared_files : List String
  pub actor : String
  pub assurance : String
  pub activity_from : String
  pub activity_to : String

pub record CompletionPayload : Type 0 where
  pub schema_version : ℤ
  pub change : String
  pub task_id : String
  pub attempt_id : String
  pub evidence_id : String
  pub actor : String
  pub activity_from : String
  pub activity_to : String
  pub revision_before : ℕ
  pub revision_after : ℕ

pub record SpecHash : Type 0 where
  pub capability : String
  pub path : String
  pub before : String
  pub after : String

pub record SyncPayload : Type 0 where
  pub schema_version : ℤ
  pub change : String
  pub approver : String
  pub actor_class : String
  pub reason : String
  pub approval_hash : String
  pub plan_hash : String
  pub evidence_set : String
  pub transaction : String
  pub outputs : List SpecHash
  pub revision_before : ℕ
  pub revision_after : ℕ
  pub assurance : String

pub record ArchivePayload : Type 0 where
  pub schema_version : ℤ
  pub change : String
  pub actor : String
  pub approver : String
  pub source : String
  pub target : String
  pub change_hash : String
  pub accepted : List SpecHash
  pub evidence_set : String
  pub sync_record : String
  pub transaction : String
  pub revision_before : ℕ
  pub revision_after : ℕ

pub record FrictionPayload : Type 0 where
  pub schema_version : ℤ
  pub change : String
  pub task_id : String
  pub operation : String
  pub domain : String
  pub blocker : String
  pub consequence : String
  pub actor : String
  pub observed_revision : ℕ
  pub contract_hash : String
  pub state_hash : String
  pub evidence_set : String

pub record ReopenedPayload : Type 0 where
  pub schema_version : ℤ
  pub change : String
  pub actor : String
  pub reason : String
  pub lifecycle_from : String
  pub lifecycle_to : String
  pub approval_id : String
  pub attempt_id : String
  pub observed_head : String
  pub revision_before : ℕ
  pub revision_after : ℕ

-- The errors of the package, before their texts are formatted.
pub data RecordRefusal : Type 0 where
  unsupported_schema : ℤ → RecordRefusal
  fields_required not_initial not_forward has_revisions unknown_kind not_utc : RecordRefusal
  object_required undecodable encode_fails id_mismatch envelope_mismatch : RecordRefusal
  tokens_refused : DecodeRefusal → RecordRefusal
  completion_malformed sync_malformed archive_malformed friction_malformed : RecordRefusal
  reopened_malformed attempt_malformed files_malformed specs_malformed : RecordRefusal

pub record Decoded : Type 0 where
  pub is_object : Bool
  pub encoding : Option Bytes

pub record Codec : Type 0 where
  pub string_of : Bytes → String
  pub stream_of : Bytes → Stream
  pub is_json : Bytes → Bool
  pub decode_value : Bytes → Option Decoded
  pub marshal_record : Record → Option Bytes
  pub sha256_hex : Bytes → String
  pub hash_attempt : AttemptPayload → String
  pub parse_time : String → Option Instant
  pub unmarshal_record : Bytes → Option (Record × Stream)
  pub unmarshal_attempt : Bytes → Option (AttemptPayload × Stream)
  pub unmarshal_completion : Bytes → Option (CompletionPayload × Stream)
  pub unmarshal_sync : Bytes → Option (SyncPayload × Stream)
  pub unmarshal_archive : Bytes → Option (ArchivePayload × Stream)
  pub unmarshal_friction : Bytes → Option (FrictionPayload × Stream)
  pub unmarshal_reopened : Bytes → Option (ReopenedPayload × Stream)
