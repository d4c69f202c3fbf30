-- ===== src/Approval/Types.antt =====
-- The lifecycle and the approval records of internal/core/approval.go, and the status type of
-- internal/core/approval_status.go. A lifecycle is the text that the state file holds.
use specd_cli.Base.{ℕ, String, Bool, Option, List}

pub record ApprovalArtifact : Type 0 where
  pub path : String
  pub hash : String

pub record ApprovalRecord : Type 0 where
  pub schema_version : ℕ
  pub id : String
  pub change : String
  pub gate : String
  pub lifecycle_from : String
  pub lifecycle_to : String
  pub approver : String
  pub actor_class : String
  pub artifacts : List ApprovalArtifact
  pub aggregate_hash : String
  pub registry_version : String
  pub policy_digest : String
  pub revision_before : ℕ
  pub revision_after : ℕ
  pub timestamp : String
  pub reason : String
  pub assurance : String

pub record ApprovalStatus : Type 0 where
  pub change : String
  pub current : Bool
  pub approval : Option ApprovalRecord
  pub blocking_artifact : String
  pub reason : String
  pub recovery : String
