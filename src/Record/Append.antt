-- ===== src/Record/Append.antt =====
-- internal/core/record/append.go: the append of one record to a ledger, under its lock.
-- The file is its bytes, or `none` when it is missing; `Disk` holds the answers of the system calls.
use specd_cli.Base.{
  ℕ, zero, suc, String, Bool, true, false, not, Option, none, some, List, [], ◌∷◌, ◌++◌, ◌==◌,
  if◌then◌else◌, is_some, ◌||◌, Outcome, ok, err, ◌>>=◌, ◌>>◌, refuse_if,
}
use specd_cli.State.Replace.{Bytes}
use specd_cli.State.Defs.{needs, refused_as}
use specd_cli.Record.Types.{Record, Codec}
use specd_cli.Record.Defs.{validate_record}
use specd_cli.Record.Replay.{
  LedgerRefusal, record_symlink, record_read, record_family, record_path, torn_tail,
  record_duplicate, revision_chain, record_encode, record_append, record_sync, record_invalid,
  record_open, lock_fails, is_gap, replay_file,
}

-- `written` is the number of bytes that a failing Write got to, `none` when it wrote them all.
pub record Disk : Type 0 where
  pub is_symlink : Bool
  pub lstat_fails : Bool
  pub read_fails : Bool
  pub open_fails : Bool
  pub stat_fails : Bool
  pub written : Option ℕ
  pub sync_fails : Bool
  pub truncate_fails : Bool

abbrev pub has_id : String → List Record → Bool
has_id id [] = false
has_id id (r ∷ rs) = r.id == id || has_id id rs

abbrev pub first_some {ℓ} : {A : Type ℓ} → Option A → Option A → Option A
first_some none other = other
first_some (some a) other = some a

-- The loop from the last record back: the resulting revision of the change's latest transition.
unfoldable pub prior_revision : String → List Record → Option ℕ
prior_revision change [] = none
prior_revision change (r ∷ rs) =
    first_some (prior_revision change rs)
      (if r.change == change then r.resulting_revision else none)

abbrev pub breaks_chain : Option ℕ → Option ℕ → Bool
breaks_chain none prior = false
breaks_chain (some expected) prior = is_gap prior expected

abbrev pub take : ℕ → Bytes → Bytes
take zero bs = []
take (suc n) [] = []
take (suc n) (b ∷ bs) = b ∷ take n bs

abbrev pub bytes_of : Option Bytes → Bytes
bytes_of none = []
bytes_of (some raw) = raw

-- openAppend, which makes a missing file, and what `appendLocked` does with the open file.
unfoldable pub write_line :
    Disk → Option Bytes → Bytes → Outcome LedgerRefusal (Unit {0}) × Option Bytes
write_line disk content line =
    let before = bytes_of content in
    if disk.open_fails
    then (err record_append, content)
    else if disk.stat_fails
    then (err record_append, some before)
    else elim disk.written [
      | some n ↦
          (err record_append, some (if disk.truncate_fails then before ++ take n line else before))
      | none ↦
          if disk.sync_fails
          then (err record_sync, some (if disk.truncate_fails then before ++ line else before))
          else (ok tt, some (before ++ line))
    ]

-- The path of a ledger: its base name, and whether Stat of its parent answers with a directory.
pub record LedgerPath : Type 0 where
  pub base : String
  pub parent_is_dir : Option Bool

abbrev ledger_name : String → Option String
ledger_name family =
    if family == "history"
    then some "history.jsonl"
    else if family == "evidence"
    then some "evidence.jsonl"
    else none

abbrev is_true : Option Bool → Bool
is_true (some true) = true
is_true _ = false

unfoldable pub validate_path : LedgerPath → String → Outcome LedgerRefusal (Unit {0})
validate_path path family = do
  want ← needs (ledger_name family) record_path
  refuse_if (not (path.base == want)) record_path
  refuse_if (not (is_true path.parent_is_dir)) record_path

module _ (codec : Codec) where
  -- The body of `appendLocked` up to the opening of the file: the line to write.
  unfoldable pub prepare_append :
      Disk → Option Bytes → String → Record → Outcome LedgerRefusal Bytes
  unfolding prior_revision
  prepare_append disk content family r = do
    refuse_if disk.is_symlink record_symlink
    refuse_if disk.lstat_fails record_read
    replayed ← replay_file codec family disk.read_fails content
    refuse_if (is_some replayed.1) torn_tail
    refuse_if (has_id r.id replayed.0) record_duplicate
    refuse_if (breaks_chain r.expected_revision (prior_revision r.change replayed.0)) revision_chain
    raw ← needs (codec.marshal_record r) record_encode
    ok (raw ++ 10 ∷ [])

  unfoldable pub append_locked :
      Disk → Option Bytes → String → Record → Outcome LedgerRefusal (Unit {0}) × Option Bytes
  unfolding prepare_append write_line
  append_locked disk content family r = elim (prepare_append disk content family r) [
    | err e ↦ (err e, content)
    | ok line ↦ write_line disk content line
  ]

  -- The checks of `AppendUnderLock` before `appendLocked`
  unfoldable pub check_append : LedgerPath → String → Record → Outcome LedgerRefusal (Unit {0})
  check_append path family r = do
    refuse_if (not (r.family == family)) record_family
    refused_as record_invalid (validate_record codec r)
    validate_path path family

  unfoldable pub append_under_lock :
      LedgerPath
      → Disk
      → Option Bytes
      → String
      → Record
      → Outcome LedgerRefusal (Unit {0}) × Option Bytes
  unfolding check_append append_locked
  append_under_lock path disk content family r = elim (check_append path family r) [
    | err e ↦ (err e, content)
    | ok done ↦ append_locked disk content family r
  ]

  -- `Append`, which holds the lock of the ledgers or is refused it
  abbrev pub append_record :
      LedgerPath
      → Disk
      → Bool
      → Option Bytes
      → String
      → Record
      → Outcome LedgerRefusal (Unit {0}) × Option Bytes
  append_record path disk locked content family r =
      if locked then append_under_lock path disk content family r else (err lock_fails, content)

-- `Ensure`
abbrev pub ensure_ledger :
    LedgerPath → Disk → Option Bytes → String → Outcome LedgerRefusal (Unit {0}) × Option Bytes
ensure_ledger path disk content family = elim (validate_path path family) [
  | err e ↦ (err e, content)
  | ok done ↦
      if disk.open_fails then (err record_open, content) else (ok tt, some (bytes_of content))
]
