-- ===== src/Transaction/Commit.antt =====
-- internal/core/transaction/transaction.go: `commitLocked`, which stages, commits and applies.
-- `partial` is what a failing write leaves in a staged file. The journal is written by the model of
-- persist.AtomicReplace, whose calls `system` answers.
use specd_cli.Base.{
  ℕ, suc, String, Bool, true, false, not, ◌&&◌, Option, none, some, List, [], ◌∷◌, ◌++◌, ◌==◌,
  if◌then◌else◌, nat_eq, length, Outcome, ok, err, ◌>>=◌,
}
use specd_cli.State.Replace.{Bytes, Files, System, replaced, stopped_at, atomic_replace}
use specd_cli.Record.Defs.{no_bytes}
use specd_cli.Record.Append.{Disk, LedgerPath}
use specd_cli.Transaction.Types.{
  Write, Output, Manifest, Request, Committed, Place, at_stage, at_staged, at_journal, Call,
  make_dir, sync_dir, remove, clear, write_file, hooked, TransactionRefusal, unsafe_target, io,
  drift, interrupted, Outside, Store,
}
use specd_cli.Transaction.Plan.{bytes_or_none}
use specd_cli.Transaction.Steps.{Step, ◌⨾◌, skip, quiet, change, drop_stage}
use specd_cli.Transaction.Apply.{resolve, read_target, apply}

-- The map `staged`, where a later write of a path replaces an earlier one
unfoldable pub bytes_for : List Write → String → Option Bytes
bytes_for [] path = none
bytes_for (write ∷ writes) path = elim (bytes_for writes path) [
  | some raw ↦ some raw
  | none ↦ if write.path == path then some (bytes_or_none write.bytes) else none
]

abbrev pub stage_with : ℕ → Option Bytes → Option (ℕ → Option Bytes) → Option (ℕ → Option Bytes)
stage_with index content none = none
stage_with index content (some stage) = some (λ i. if nat_eq i index then content else stage i)

unfoldable pub write_staged : String → ℕ → Option Bytes → Store → Store
write_staged id index content s = record s {
  stages =
      λ other. if other == id then stage_with index content (s.stages other) else s.stages other;
}

unfoldable pub make_stage : String → Store → Store
make_stage id s = record s {
  stages = λ other. if other == id then some (λ i. none) else s.stages other;
}

unfoldable pub set_journal : String → Option Bytes → Store → Store
set_journal id content s = record s {
  journals = λ other. if other == id then content else s.journals other;
}

module _ (outside : Outside) (fails : Call → Bool) (partial : Place → Option Bytes) where
  -- The loop over the outputs: whether all hold their new bytes.
  unfoldable pub check_current : Store → List Output → Bool → Outcome TransactionRefusal Bool
  check_current s [] noop = ok noop
  check_current s (output ∷ outputs) noop =
      let same = check_current s outputs noop in
      let changed = check_current s outputs false in
      do
        target ← resolve outside fails output.path
        current ← read_target outside fails s target
        (if current == output.after
            then same
            else (if current == output.before then changed else err (drift target)))

  unfoldable pub stage_file : String → ℕ → Bytes → Step
  stage_file id index raw s =
      if fails (write_file (at_staged id index))
      then (err (io (at_staged id index)), write_staged id index (partial (at_staged id index)) s)
      else (ok tt, write_staged id index (some raw) s)

  unfoldable pub stage_outputs : List Write → String → ℕ → List Output → Step
  stage_outputs writes id index [] = skip
  stage_outputs writes id index (output ∷ outputs) =
      stage_file id index (bytes_or_none (bytes_for writes output.path))
      ⨾ stage_outputs writes id (suc index) outputs

  -- The steps up to the one that commits
  unfoldable pub stage_all : List Write → Manifest → Step
  stage_all writes manifest =
      change (fails (clear (at_stage manifest.id))) (io (at_stage manifest.id))
        (drop_stage manifest.id)
      ⨾ change (fails (make_dir (at_stage manifest.id))) (io (at_stage manifest.id))
          (make_stage manifest.id)
      ⨾ stage_outputs writes manifest.id 0 manifest.outputs
      ⨾ quiet (fails (sync_dir (at_stage manifest.id))) (io (at_stage manifest.id))
      ⨾ quiet (fails (hooked "after-stage")) (interrupted (at_stage manifest.id))

  -- The write of the journal
  unfoldable pub write_journal : System → Manifest → Step
  write_journal system manifest s = elim (outside.marshal_manifest manifest) [
    | none ↦ (err (io (at_stage manifest.id)), s)
    | some encoded ↦
        let files : Files = record { content = s.journals manifest.id; temporary = none } in
        let (result, files') = atomic_replace system (λ step. false) (encoded ++ 10 ∷ []) files in
        let s' = set_journal manifest.id files'.content s in
        elim result [
          | replaced ↦ (ok tt, s')
          | stopped_at a ↦ (
            err (io (at_journal manifest.id)),
            if fails (remove (at_stage manifest.id)) then s' else drop_stage manifest.id s',
          )
        ]
  ]

  unfoldable pub commit_steps : LedgerPath → Disk → Bool → System → List Write → Manifest → Step
  commit_steps path disk locked system writes manifest =
      stage_all writes manifest
      ⨾ write_journal system manifest
      ⨾ quiet (fails (hooked "after-manifest")) (interrupted (at_journal manifest.id))
      ⨾ apply outside path disk locked fails manifest

  -- The rest of `commitLocked` once the check has passed
  unfoldable pub commit_checked :
      LedgerPath
      → Disk
      → Bool
      → System
      → List Write
      → Manifest
      → Bool
      → Store
      → Outcome TransactionRefusal Committed × Store
  commit_checked path disk locked system writes manifest noop s =
      if noop && nat_eq (length manifest.moves) 0 && no_bytes manifest.bound_record
      then (ok (record { manifest = manifest; no_op = true }), s)
      else let (result, s') = commit_steps path disk locked system writes manifest s in
        elim result [
          | err e ↦ (err e, s')
          | ok done ↦ (ok (record { manifest = manifest; no_op = false }), s')
        ]

  unfoldable pub commit_locked :
      LedgerPath
      → Disk
      → Bool
      → System
      → Request
      → Manifest
      → Store
      → Outcome TransactionRefusal Committed × Store
  commit_locked path disk locked system request manifest s =
      if not outside.may_write_root
      then (err (unsafe_target ""), s)
      else elim (check_current s manifest.outputs true) [
        | err e ↦ (err e, s)
        | ok noop ↦ commit_checked path disk locked system request.outputs manifest noop s
      ]
