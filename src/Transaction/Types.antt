-- ===== src/Transaction/Types.antt =====
-- internal/core/transaction/transaction.go: requests, manifests, refusals, and the managed files.
-- A target is named by its path below the managed directory, a stage and a journal by the id of their
-- transaction. `Outside` holds what is not this package's code: encoding/json, crypto/sha256, time,
-- and the check of a write target (internal/core/path).
use specd_cli.Base.{ℕ, String, Bool, Option, List, ℤ}
use specd_cli.State.Replace.{Bytes}
use specd_cli.State.Tokens.{Stream}
use specd_cli.Record.Types.{Record, Codec}
use specd_cli.Record.Replay.{LedgerRefusal}

pub record Write : Type 0 where
  pub path : String
  pub before : String
  pub bytes : Option Bytes

pub record Output : Type 0 where
  pub path : String
  pub before : String
  pub after : String

pub record Move : Type 0 where
  pub source : String
  pub target : String

pub record Manifest : Type 0 where
  pub schema_version : ℤ
  pub id : String
  pub operation : String
  pub change : String
  pub revision : ℕ
  pub timestamp : String
  pub outputs : List Output
  pub moves : List Move
  pub bound_record : Bytes

-- `now` is `none` for the zero time.
pub record Request : Type 0 where
  pub operation : String
  pub change : String
  pub revision : ℕ
  pub now : Option ℕ
  pub outputs : List Write
  pub moves : List Move
  pub bound_record : Option Record

pub record Committed : Type 0 where
  pub manifest : Manifest
  pub no_op : Bool

pub data Pending : Type 0 where
  roll_forward : Manifest → Pending
  rollback : String → Pending

pub data Place : Type 0 where
  at_target at_stage at_journal : String → Place
  at_staged : String → ℕ → Place
  at_managed : Place

pub data Call : Type 0 where
  lstat read_file make_dir rename sync_dir remove clear write_file : Place → Call
  hooked : String → Call

pub data TransactionRefusal : Type 0 where
  undeclared clock_required nothing_declared : TransactionRefusal
  not_relative repeated bad_source_hash bytes_required moves_overlap : String → TransactionRefusal
  record_malformed record_elsewhere : TransactionRefusal
  unsupported_manifest : ℤ → TransactionRefusal
  incomplete_manifest identity_mismatch : TransactionRefusal
  moves_disordered outputs_disordered bad_output_hash : String → TransactionRefusal
  unsafe_target drift move_missing moves_both move_not_directory : String → TransactionRefusal
  io not_regular ambiguous staged_missing interrupted : Place → TransactionRefusal
  manifest_malformed stamp_malformed stamp_in_future name_mismatch : TransactionRefusal
  root_locked : TransactionRefusal
  ledger : LedgerRefusal → TransactionRefusal

pub record Outside : Type 0 where
  pub codec : Codec
  pub marshal_manifest : Manifest → Option Bytes
  pub unmarshal_manifest : Bytes → Option (Manifest × Stream)
  pub unmarshal_item : Bytes → Option Record
  pub format_time : ℕ → String
  pub parse_stamp : String → Option ℕ
  pub may_write : String → Bool
  pub may_write_root : Bool

pub data Node : Type 0 where
  absent directory special : Node
  regular : Bytes → Node

-- A stage holds its files by number; a journal holds the bytes of its manifest.
pub record Store : Type 0 where
  pub nodes : String → Node
  pub stages : String → Option (ℕ → Option Bytes)
  pub journals : String → Option Bytes
  pub history : Option Bytes

-- An entry of the managed directory
pub record Entry : Type 0 where
  pub name : String
  pub is_dir : Bool
  pub is_regular : Bool
