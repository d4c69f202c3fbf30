-- ===== src/Transaction/Apply.antt =====
-- internal/core/transaction/transaction.go: `apply`, which replays a committed manifest, and the
-- functions it calls.
use specd_cli.Base.{
  ℕ, suc, String, Bool, true, false, not, ◌&&◌, ◌||◌, none, some, List, [], ◌∷◌, ◌==◌,
  if◌then◌else◌, Outcome, ok, err, is_ok,
}
use Prim.Native.String.{◌++◌ as ◌<>◌}
use specd_cli.State.Replace.{Bytes}
use specd_cli.Record.Types.{Record, Codec}
use specd_cli.Record.Defs.{no_bytes}
use specd_cli.Record.Replay.{LedgerRefusal, record_duplicate, duplicate_line}
use specd_cli.Record.Append.{Disk, LedgerPath, append_record}
use specd_cli.Transaction.Types.{
  Output, Move, Manifest, at_target, at_stage, at_staged, at_journal, at_managed, Call, lstat,
  read_file, make_dir, rename, sync_dir, remove, hooked, TransactionRefusal, unsafe_target, io,
  not_regular, ambiguous, staged_missing, interrupted, move_missing, moves_both, move_not_directory,
  record_malformed, ledger, Outside, absent, directory, special, regular, Store,
}
use specd_cli.Transaction.Plan.{under, valid_relative}
use specd_cli.Transaction.Steps.{
  Step, ◌⨾◌, skip, quiet, change, make_parents, put_staged, cut_prefix, move_tree, drop_journal,
  drop_stage, is_absent, is_dir, staged_file,
}

module _ (outside : Outside) (fails : Call → Bool) where
  unfoldable pub resolve : String → Outcome TransactionRefusal String
  resolve relative = elim (valid_relative relative) [
    | err e ↦ err e
    | ok done ↦ if outside.may_write relative then ok relative else err (unsafe_target relative)
  ]

  unfoldable pub read_target : Store → String → Outcome TransactionRefusal String
  read_target s p =
      if fails (lstat (at_target p)) then err (io (at_target p)) else elim (s.nodes p) [
        | absent ↦ ok ""
        | regular raw ↦
            if fails (read_file (at_target p))
            then err (io (at_target p))
            else ok (outside.codec.sha256_hex raw)
        | directory ↦ err (not_regular (at_target p))
        | special ↦ err (not_regular (at_target p))
      ]

  unfoldable pub read_staged : Store → String → ℕ → Outcome TransactionRefusal Bytes
  read_staged s id index =
      let place = at_staged id index in
      if fails (lstat place) then err (io place) else elim (staged_file (s.stages id) index) [
        | none ↦ err (staged_missing place)
        | some raw ↦ if fails (read_file place) then err (io place) else ok raw
      ]

  -- The loop of `locate` over the moves
  unfoldable pub locate_moved : Store → String → List Move → String
  locate_moved s relative [] = relative
  locate_moved s relative (m ∷ moves) =
      let rest = locate_moved s relative moves in
      let moved = m.target <> cut_prefix relative m.source in
      if under relative m.source
        && is_ok (resolve moved)
        && not (fails (lstat (at_target moved)))
        && not (is_absent (s.nodes moved))
      then moved
      else rest

  unfoldable pub locate : Store → Manifest → String → Outcome TransactionRefusal String
  locate s manifest relative = elim (resolve relative) [
    | err e ↦ err e
    | ok target ↦ ok (
        if fails (lstat (at_target target)) || not (is_absent (s.nodes target))
        then target
        else locate_moved s target manifest.moves)
  ]

  -- What `apply` does with an output that still holds its old bytes.
  unfoldable pub replace_output : String → ℕ → Output → String → Bytes → Step
  replace_output id index output target raw =
      quiet (fails (hooked ("before-replace:" <> output.path))) (interrupted (at_target target))
      ⨾ change (fails (make_dir (at_target target))) (io (at_target target)) (make_parents target)
      ⨾ change (fails (rename (at_target target))) (io (at_target target))
          (put_staged id index target raw)
      ⨾ quiet (fails (sync_dir (at_target target))) (io (at_target target))
      ⨾ quiet (fails (hooked ("after-replace:" <> output.path))) (interrupted (at_target target))

  -- One turn of the loop of `apply` over the outputs
  unfoldable pub apply_output : Manifest → ℕ → Output → Step
  apply_output manifest index output s = elim (locate s manifest output.path) [
    | err e ↦ (err e, s)
    | ok target ↦ elim (read_target s target) [
      | err e ↦ (err e, s)
      | ok current ↦
          if current == output.after
          then (ok tt, s)
          else if not (current == output.before)
          then (err (ambiguous (at_target target)), s)
          else elim (read_staged s manifest.id index) [
            | err e ↦ (err e, s)
            | ok raw ↦
                if not (outside.codec.sha256_hex raw == output.after)
                then (err (ambiguous (at_staged manifest.id index)), s)
                else replace_output manifest.id index output target raw s
          ]
    ]
  ]

  unfoldable pub apply_outputs : Manifest → ℕ → List Output → Step
  apply_outputs manifest index [] = skip
  apply_outputs manifest index (output ∷ outputs) =
      apply_output manifest index output ⨾ apply_outputs manifest (suc index) outputs

  -- `applyMove`
  unfoldable pub run_move : Move → Step
  run_move m =
      quiet (fails (hooked ("before-move:" <> m.source))) (interrupted (at_target m.source))
      ⨾ change (fails (make_dir (at_target m.target))) (io (at_target m.target))
          (make_parents m.target)
      ⨾ change (fails (rename (at_target m.target))) (io (at_target m.target)) (move_tree m)
      ⨾ quiet (fails (sync_dir (at_target m.target))) (io (at_target m.target))
      ⨾ quiet (fails (sync_dir (at_target m.source))) (io (at_target m.source))
      ⨾ quiet (fails (hooked ("after-move:" <> m.source))) (interrupted (at_target m.source))

  unfoldable pub move_checked : Move → Step
  move_checked m s =
      let lost = fails (lstat (at_target m.source)) in
      let missing = is_absent (s.nodes m.source) in
      let unseen = fails (lstat (at_target m.target)) in
      let there = not unseen && not (is_absent (s.nodes m.target)) in
      if not lost && missing && there
      then (ok tt, s)
      else if lost || missing
      then (err (move_missing m.source), s)
      else if there
      then (err (moves_both m.target), s)
      else if unseen
      then (err (io (at_target m.target)), s)
      else if not (is_dir (s.nodes m.source))
      then (err (move_not_directory m.source), s)
      else run_move m s

  unfoldable pub apply_move : Move → Step
  apply_move m s = elim (resolve m.source) [
    | err e ↦ (err e, s)
    | ok from ↦ elim (resolve m.target) [ err e ↦ (err e, s) | ok to ↦ move_checked m s ]
  ]

  unfoldable pub apply_moves : List Move → Step
  apply_moves [] = skip
  apply_moves (m ∷ moves) = apply_move m ⨾ apply_moves moves

-- The ledger answers "record-duplicate" for the record's own id and for two lines with one id.
abbrev pub is_duplicate : LedgerRefusal → Bool
is_duplicate record_duplicate = true
is_duplicate (duplicate_line line) = true
is_duplicate e = false

-- A record that is there already counts as appended.
abbrev pub after_append : Outcome LedgerRefusal (Unit {0}) → Step
after_append (ok done) s = (ok tt, s)
after_append (err e) s = if is_duplicate e then (ok tt, s) else (err (ledger e), s)

-- The append of the bound record; the ledger's path, disk and lock answer as given.
abbrev pub append_item : Codec → LedgerPath → Disk → Bool → Record → Step
append_item codec path disk locked r s =
    let (result, history) = append_record codec path disk locked s.history "history" r in
    after_append result (record s { history = history })

module _ (outside : Outside) (path : LedgerPath) (disk : Disk) (locked : Bool) where
  unfoldable pub append_bound : Manifest → Step
  append_bound manifest s =
      if no_bytes manifest.bound_record
      then (ok tt, s)
      else elim (outside.unmarshal_item manifest.bound_record) [
        | none ↦ (err record_malformed, s)
        | some r ↦ append_item outside.codec path disk locked r s
      ]

  -- The removal of the journal and then of the stage
  unfoldable pub clean_up_transaction : (Call → Bool) → String → Step
  clean_up_transaction fails id =
      quiet (fails (hooked "before-cleanup")) (interrupted (at_journal id))
      ⨾ change (fails (remove (at_journal id))) (io (at_journal id)) (drop_journal id)
      ⨾ quiet (fails (sync_dir (at_journal id))) (io (at_journal id))
      ⨾ change (fails (remove (at_stage id))) (io (at_stage id)) (drop_stage id)
      ⨾ quiet (fails (sync_dir at_managed)) (io at_managed)

  unfoldable pub apply : (Call → Bool) → Manifest → Step
  apply fails manifest =
      apply_outputs outside fails manifest 0 manifest.outputs
      ⨾ apply_moves outside fails manifest.moves
      ⨾ append_bound manifest
      ⨾ clean_up_transaction fails manifest.id
