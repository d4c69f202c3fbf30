-- ===== src/Transaction/Recover.antt =====
-- internal/core/transaction/transaction.go: `inspectLocked`, `recoverLocked` and the functions that
-- commit after a recovery. `listing` is what ReadDir of the managed directory answers, `none` when the
-- directory is missing. The lock of the root is held or refused.
use specd_cli.Base.{
  ℕ, String, Bool, true, false, false, not, Option, none, some, List, [], ◌∷◌, ◌++◌, ◌==◌,
  if◌then◌else◌, ltb, map, contains, Outcome, ok, err, ◌>>=◌, ◌>>◌, refuse_if, has_prefix,
  has_suffix, is_ok,
}
use Prim.Native.String.{compare, ◌++◌ as ◌<>◌}
use text.Mathlib.Text.{is_le}
use specd_cli.State.Replace.{System, Bytes}
use specd_cli.State.Tokens.{ensure_eof}
use specd_cli.State.Defs.{needs}
use specd_cli.Record.Append.{Disk, LedgerPath}
use specd_cli.Transaction.Types.{
  Manifest, Request, Committed, Pending, roll_forward, rollback, Place, at_stage, at_journal,
  at_managed, Call, lstat, read_file, sync_dir, remove, hooked, TransactionRefusal, io, not_regular,
  staged_missing, manifest_malformed, stamp_malformed, stamp_in_future, name_mismatch, root_locked,
  Outside, Store, Entry,
}
use specd_cli.Transaction.Plan.{plan, validate_manifest}
use specd_cli.Transaction.Steps.{Step, ◌⨾◌, skip, quiet, change, cut_prefix, drop_stage}
use specd_cli.Transaction.Apply.{apply}
use specd_cli.Transaction.Commit.{commit_locked}

-- strings.TrimSuffix with ".json"
unfoldable pub cut_suffix : String → String
cut_suffix String.[] = ""
cut_suffix (String.◌∷◌ c s) =
    let rest = cut_suffix s in if String.◌∷◌ c s == ".json" then "" else String.◌∷◌ c rest

abbrev pub pending_id : Pending → String
pending_id (roll_forward m) = m.id
pending_id (rollback id) = id

unfoldable pub insert_pending : Pending → List Pending → List Pending
insert_pending x [] = x ∷ []
insert_pending x (y ∷ ys) =
    let rest = insert_pending x ys in
    if is_le (compare (pending_id x) (pending_id y)) then x ∷ y ∷ ys else y ∷ rest

unfoldable pub sort_pending : List Pending → List Pending
unfolding insert_pending
sort_pending [] = []
sort_pending (x ∷ xs) = insert_pending x (sort_pending xs)

abbrev pub without_hook : (Call → Bool) → Call → Bool
without_hook fails (hooked step) = false
without_hook fails c = fails c

module _ (outside : Outside) (fails : Call → Bool) (now : ℕ) where
  unfoldable pub read_manifest : Store → String → Outcome TransactionRefusal Manifest
  read_manifest s key = do
    refuse_if (fails (lstat (at_journal key))) (io (at_journal key))
    raw ← needs (s.journals key) (staged_missing (at_journal key))
    refuse_if (fails (read_file (at_journal key))) (io (at_journal key))
    decoded ← needs (outside.unmarshal_manifest raw) manifest_malformed
    refuse_if (not (is_ok (ensure_eof decoded.1.tokens decoded.1.ending))) manifest_malformed
    validate_manifest outside decoded.0
    stamp ← needs (outside.parse_stamp decoded.0.timestamp) stamp_malformed
    refuse_if (ltb now stamp) stamp_in_future
    ok decoded.0

  -- The loop over the entries: the manifests of the journals, and the ids of the stages.
  unfoldable pub inspect_entries :
      Store → List Entry → Outcome TransactionRefusal (List Manifest × List String)
  inspect_entries s [] = ok ([], [])
  inspect_entries s (entry ∷ entries) =
      let rest = inspect_entries s entries in
      if not (has_prefix entry.name ".txn-")
      then rest
      else if not (has_suffix entry.name ".json")
      then (do
        found ← rest
        ok (found.0, if entry.is_dir then cut_prefix entry.name ".txn-" ∷ found.1 else found.1))
      else do
        let key = cut_suffix (cut_prefix entry.name ".txn-")
        refuse_if (not entry.is_regular) (not_regular (at_journal key))
        manifest ← read_manifest s key
        refuse_if (not (entry.name == ".txn-" <> manifest.id <> ".json")) name_mismatch
        found ← rest
        ok (manifest ∷ found.0, found.1)

  abbrev pub ids_of_manifests : List Manifest → List String
  ids_of_manifests [] = []
  ids_of_manifests (m ∷ ms) = m.id ∷ ids_of_manifests ms

  unfoldable pub uncommitted : List String → List String → List Pending
  uncommitted committed [] = []
  uncommitted committed (id ∷ ids) =
      let rest = uncommitted committed ids in
      if contains committed id then rest else rollback id ∷ rest

  unfoldable pub inspect : Store → Option (List Entry) → Outcome TransactionRefusal (List Pending)
  unfolding sort_pending
  inspect s none = ok []
  inspect s (some entries) = do
    refuse_if (fails (read_file at_managed)) (io at_managed)
    found ← inspect_entries s entries
    ok (sort_pending (map roll_forward found.0 ++ uncommitted (ids_of_manifests found.0) found.1))

module _ (outside : Outside) (fails : Call → Bool) (path : LedgerPath) (disk : Disk)
    (locked : Bool) where
  unfoldable pub resolve_pending : Pending → Step
  resolve_pending (rollback id) =
      change (fails (remove (at_stage id))) (io (at_stage id)) (drop_stage id)
      ⨾ quiet (fails (sync_dir at_managed)) (io at_managed)
  resolve_pending (roll_forward manifest) =
      apply outside path disk locked (without_hook fails) manifest

  unfoldable pub resolve_all : List Pending → Step
  resolve_all [] = skip
  resolve_all (item ∷ items) = resolve_pending item ⨾ resolve_all items

  unfoldable pub recover_locked : ℕ → Option (List Entry) → Step
  unfolding resolve_all
  recover_locked now listing s = elim (inspect outside fails now s listing) [
    | err e ↦ (err e, s)
    | ok pending ↦ resolve_all pending s
  ]

abbrev pub time_or_zero : Option ℕ → ℕ
time_or_zero none = 0
time_or_zero (some now) = now

-- `CommitUnderRootLock`; the two phases have their own answers of the calls.
unfoldable pub commit_under_root_lock :
    Outside
    → (Call → Bool)
    → (Call → Bool)
    → (Place → Option Bytes)
    → LedgerPath
    → Disk
    → Disk
    → Bool
    → System
    → Option (List Entry)
    → Request
    → Store
    → Outcome TransactionRefusal Committed × Store
commit_under_root_lock outside fails fails' partial path disk disk' locked system listing request
      s =
    elim (plan outside request) [
      | err e ↦ (err e, s)
      | ok manifest ↦
          let (result, s') =
            recover_locked outside fails path disk locked (time_or_zero request.now) listing s in
          elim result [
            | err e ↦ (err e, s')
            | ok done ↦
                commit_locked outside fails' partial path disk' locked system request manifest s'
          ]
    ]

-- `Commit`, `Inspect` and `Recover` run the functions above under the lock of the root.
abbrev pub under_root_lock {ℓ} :
    {A : Type ℓ}
    → Bool
    → (Store → Outcome TransactionRefusal A × Store)
    → Store
    → Outcome TransactionRefusal A × Store
under_root_lock true run s = run s
under_root_lock false run s = (err root_locked, s)
