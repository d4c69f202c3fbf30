-- ===== src/Transaction/Plan.antt =====
-- internal/core/transaction/transaction.go: the manifest that a request would commit (`plan`) and the
-- validation of a manifest.
use specd_cli.Base.{
  ◌+◌, String, Bool, false, not, ◌&&◌, ◌||◌, Option, none, some, List, [], ◌∷◌, ◌==◌, if◌then◌else◌,
  nat_eq, length, contains, Outcome, ok, ◌>>=◌, ◌>>◌, refuse_if, is_ok, trim_space, contains_any,
  has_prefix, clean, split_at, pos,
}
use Prim.Native.String.{compare, ◌++◌ as ◌<>◌}
use text.Mathlib.Text.{is_le}
use specd_cli.State.Replace.{Bytes}
use specd_cli.State.Defs.{same_int, needs}
use specd_cli.Evidence.Defs.{digest}
use specd_cli.Record.Types.{Record}
use specd_cli.Record.Defs.{validate_record, no_bytes}
use specd_cli.Transaction.Types.{
  Write, Output, Move, Manifest, Request, TransactionRefusal, Outside, undeclared, clock_required,
  nothing_declared, not_relative, repeated, bad_source_hash, bytes_required, moves_overlap,
  record_malformed, record_elsewhere, unsupported_manifest, incomplete_manifest, identity_mismatch,
  moves_disordered, outputs_disordered, bad_output_hash,
}

-- `under`: the path `child` is `parent` or stands inside it.
unfoldable pub under : String → String → Bool
under child parent = child == parent || has_prefix child (parent <> "/")

abbrev bad_segment : String → Bool
bad_segment segment = segment == "" || has_prefix segment "."

unfoldable pub any_bad_segment : List String → Bool
any_bad_segment [] = false
any_bad_segment (segment ∷ segments) = bad_segment segment || any_bad_segment segments

unfoldable pub valid_relative : String → Outcome TransactionRefusal (Unit {0})
valid_relative value =
    refuse_if
      (value == ""
        || not (value == clean value)
        || has_prefix value "/"
        || contains_any value (92 ∷ [])
        || value == ".."
        || has_prefix value "../"
        || any_bad_segment (split_at 47 value))
      (not_relative value)

-- slices.SortFunc by the path, and by the source
unfoldable pub insert_output : Output → List Output → List Output
insert_output x [] = x ∷ []
insert_output x (y ∷ ys) =
    let rest = insert_output x ys in if is_le (compare x.path y.path) then x ∷ y ∷ ys else y ∷ rest

unfoldable pub sort_outputs : List Output → List Output
unfolding insert_output
sort_outputs [] = []
sort_outputs (x ∷ xs) = insert_output x (sort_outputs xs)

unfoldable pub insert_move : Move → List Move → List Move
insert_move x [] = x ∷ []
insert_move x (y ∷ ys) =
    let rest = insert_move x ys in
    if is_le (compare x.source y.source) then x ∷ y ∷ ys else y ∷ rest

unfoldable pub sort_moves : List Move → List Move
unfolding insert_move
sort_moves [] = []
sort_moves (x ∷ xs) = insert_move x (sort_moves xs)

unfoldable pub check_moves : List Move → Outcome TransactionRefusal (Unit {0})
check_moves [] = ok tt
check_moves (move ∷ moves) = do
  valid_relative move.source
  valid_relative move.target
  refuse_if
      (move.source == move.target || under move.target move.source || under move.source move.target)
      (moves_overlap move.source)
  check_moves moves

-- The loop of `validate` over the moves; `last` is `previousMove`.
unfoldable pub validate_moves : String → List Move → Outcome TransactionRefusal (Unit {0})
validate_moves last [] = ok tt
validate_moves last (move ∷ moves) = do
  valid_relative move.source
  valid_relative move.target
  refuse_if
      (is_le (compare move.source last)
        || under move.target move.source
        || under move.source move.target)
      (moves_disordered move.source)
  validate_moves move.source moves

unfoldable pub validate_outputs : String → List Output → Outcome TransactionRefusal (Unit {0})
validate_outputs last [] = ok tt
validate_outputs last (output ∷ outputs) = do
  valid_relative output.path
  refuse_if (is_le (compare output.path last)) (outputs_disordered output.path)
  refuse_if (not (digest output.after) || not (output.before == "") && not (digest output.before))
      (bad_output_hash output.path)
  validate_outputs output.path outputs

abbrev pub bytes_or_none : Option Bytes → Bytes
bytes_or_none none = []
bytes_or_none (some raw) = raw

module _ (outside : Outside) where
  -- The loop of `plan` over the writes; `seen` is the set of the paths before.
  unfoldable pub plan_outputs : List String → List Write → Outcome TransactionRefusal (List Output)
  plan_outputs seen [] = ok []
  plan_outputs seen (write ∷ writes) = do
    valid_relative write.path
    refuse_if (contains seen write.path) (repeated write.path)
    refuse_if (not (write.before == "") && not (digest write.before)) (bad_source_hash write.path)
    bytes ← needs write.bytes (bytes_required write.path)
    outputs ← plan_outputs (write.path ∷ seen) writes
    ok (
        record { path = write.path; before = write.before; after = outside.codec.sha256_hex bytes }
        ∷ outputs)

  unfoldable pub plan_record : String → Option Record → Outcome TransactionRefusal Bytes
  plan_record change none = ok []
  plan_record change (some r) = do
    refuse_if (not (is_ok (validate_record outside.codec r))) record_malformed
    refuse_if (not (r.change == change)) record_elsewhere
    needs (outside.codec.marshal_record r) record_malformed

  unfoldable pub identity : Manifest → String
  identity manifest =
      outside.codec.sha256_hex
        (bytes_or_none (outside.marshal_manifest (record manifest { id = "" })))

  unfoldable pub record_fits : String → Bytes → Bool
  record_fits change raw = elim (outside.unmarshal_item raw) [
    | none ↦ false
    | some r ↦ is_ok (validate_record outside.codec r) && r.change == change
  ]

  unfoldable pub validate_manifest : Manifest → Outcome TransactionRefusal (Unit {0})
  validate_manifest m = do
    refuse_if (not (same_int m.schema_version (pos 1))) (unsupported_manifest m.schema_version)
    refuse_if
        (trim_space m.operation == ""
          || trim_space m.change == ""
          || nat_eq m.revision 0
          || trim_space m.timestamp == ""
          || nat_eq (length m.outputs + length m.moves) 0)
        incomplete_manifest
    validate_moves "" m.moves
    refuse_if (not (no_bytes m.bound_record) && not (record_fits m.change m.bound_record))
        record_malformed
    validate_outputs "" m.outputs
    refuse_if (not (m.id == identity m)) identity_mismatch

  unfoldable pub plan : Request → Outcome TransactionRefusal Manifest
  plan request = do
    refuse_if
        (trim_space request.operation == ""
          || trim_space request.change == ""
          || nat_eq request.revision 0)
        undeclared
    now ← needs request.now clock_required
    refuse_if (nat_eq (length request.outputs) 0 && nat_eq (length request.moves) 0)
        nothing_declared
    outputs ← plan_outputs [] request.outputs
    check_moves request.moves
    raw ← plan_record request.change request.bound_record
    let drafted : Manifest = record {
      schema_version = pos 1;
      id = "";
      operation = request.operation;
      change = request.change;
      revision = request.revision;
      timestamp = outside.format_time now;
      outputs = sort_outputs outputs;
      moves = sort_moves request.moves;
      bound_record = raw;
    }
    let manifest : Manifest = record drafted { id = identity drafted }
    validate_manifest manifest
    ok manifest
