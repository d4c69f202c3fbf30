-- ===== src/Record/Defs.antt =====
-- internal/core/record/record.go: the family and kind of a record, the decoding of its payload, its
-- identity and its validation.
use specd_cli.Base.{
  ℕ, String, Bool, true, false, not, ◌&&◌, ◌||◌, Option, none, some, ◌==◌, if◌then◌else◌, nat_eq,
  is_some, [], ◌∷◌, Outcome, ok, err, ◌>>=◌, ◌>>◌, refuse_if, discard, trim_space,
}
use specd_cli.State.Replace.{Bytes}
use specd_cli.State.Tokens.{Stream, reject_duplicate_keys, ensure_eof}
use specd_cli.State.Defs.{same_int, count_up, needs, refused_as}
use specd_cli.Evidence.Defs.{utc}
use specd_cli.Record.Types.{
  Record, Codec, RecordRefusal, unsupported_schema, fields_required, not_initial, not_forward,
  has_revisions, unknown_kind, not_utc, object_required, undecodable, encode_fails, id_mismatch,
  envelope_mismatch, tokens_refused,
}
use specd_cli.Record.Payloads.{
  version_one, is_blank, validate_attempt, validate_completion, validate_sync, validate_archive,
  validate_friction, validate_reopened,
}

-- One of the kinds that move the revision of a change forward.
abbrev pub is_transition : String → Bool
is_transition kind =
    kind == "approved"
    || kind == "task_transition"
    || kind == "attempt"
    || kind == "completion"
    || kind == "synced"
    || kind == "archived"
    || kind == "reopened"

abbrev pub is_value : Option ℕ → ℕ → Bool
is_value none n = false
is_value (some m) n = nat_eq m n

abbrev pub steps_forward : Option ℕ → Option ℕ → Bool
steps_forward (some before) (some after) = nat_eq after (count_up before)
steps_forward _ _ = false

unfoldable pub validate_family_kind : Record → Outcome RecordRefusal (Unit {0})
validate_family_kind r =
    if r.family == "history" && r.kind == "created"
    then refuse_if (not (is_value r.expected_revision 0) || not (is_value r.resulting_revision 1))
        not_initial
    else if r.family == "history" && is_transition r.kind
    then refuse_if (not (steps_forward r.expected_revision r.resulting_revision)) not_forward
    else if r.family == "history" && r.kind == "friction"
        || r.family == "evidence" && r.kind == "observed"
    then refuse_if (is_some r.expected_revision || is_some r.resulting_revision) has_revisions
    else err unknown_kind

-- The payload names the change, the actor and the revisions of its record.
abbrev pub in_envelope : Record → String → String → ℕ → ℕ → Outcome RecordRefusal (Unit {0})
in_envelope r change actor before after =
    refuse_if
      (not (change == r.change)
        || not (actor == r.actor)
        || not (is_value r.expected_revision before)
        || not (is_value r.resulting_revision after))
      envelope_mismatch

abbrev pub no_bytes : Bytes → Bool
no_bytes [] = true
no_bytes (b ∷ bs) = false

module _ (codec : Codec) where
  -- `decodePayload`, which `DecodeAttemptPayload`, `DecodeCompletionPayload` and `decodeStrict` repeat
  unfoldable pub decode_with :
      {A : Type 0} → (Bytes → Option (A × Stream)) → Bytes → Outcome RecordRefusal A
  decode_with unmarshal raw = do
    refused_as tokens_refused (reject_duplicate_keys (codec.stream_of raw))
    decoded ← needs (unmarshal raw) undecodable
    refused_as tokens_refused (ensure_eof decoded.1.tokens decoded.1.ending)
    ok decoded.0

  unfoldable pub canonical_payload : Bytes → Outcome RecordRefusal Bytes
  canonical_payload raw = do
    refuse_if (no_bytes raw || trim_space (codec.string_of raw) == "null") object_required
    refused_as tokens_refused (reject_duplicate_keys (codec.stream_of raw))
    value ← needs (codec.decode_value raw) undecodable
    refuse_if (not value.is_object) object_required
    needs value.encoding encode_fails

  unfoldable pub record_identity : Record → Outcome RecordRefusal String
  record_identity r = do
    payload ← canonical_payload r.payload
    raw ← needs (codec.marshal_record (record r { id = ""; payload = payload })) encode_fails
    ok (codec.sha256_hex raw)

  unfoldable pub check_attempt : Record → Outcome RecordRefusal (Unit {0})
  check_attempt r = do
    v ← decode_with codec.unmarshal_attempt r.payload
    validate_attempt codec.hash_attempt v
    in_envelope r v.change v.actor v.revision_before v.revision_after

  unfoldable pub check_completion : Record → Outcome RecordRefusal (Unit {0})
  check_completion r = do
    v ← decode_with codec.unmarshal_completion r.payload
    validate_completion v
    in_envelope r v.change v.actor v.revision_before v.revision_after

  unfoldable pub check_sync : Record → Outcome RecordRefusal (Unit {0})
  check_sync r = do
    v ← decode_with codec.unmarshal_sync r.payload
    validate_sync v
    in_envelope r v.change v.approver v.revision_before v.revision_after

  unfoldable pub check_archive : Record → Outcome RecordRefusal (Unit {0})
  check_archive r = do
    v ← decode_with codec.unmarshal_archive r.payload
    validate_archive v
    in_envelope r v.change v.actor v.revision_before v.revision_after

  unfoldable pub check_friction : Record → Outcome RecordRefusal (Unit {0})
  check_friction r = do
    v ← decode_with codec.unmarshal_friction r.payload
    validate_friction v
    refuse_if (not (v.change == r.change) || not (v.actor == r.actor)) envelope_mismatch

  unfoldable pub check_reopened : Record → Outcome RecordRefusal (Unit {0})
  check_reopened r = do
    v ← decode_with codec.unmarshal_reopened r.payload
    validate_reopened v
    in_envelope r v.change v.actor v.revision_before v.revision_after

  -- The tests of `Validate` on the payload; the kinds exclude each other.
  unfoldable pub check_payload : Record → Outcome RecordRefusal (Unit {0})
  check_payload r =
      if r.kind == "attempt"
      then check_attempt r
      else if r.kind == "completion"
      then check_completion r
      else if r.kind == "synced"
      then check_sync r
      else if r.kind == "archived"
      then check_archive r
      else if r.kind == "friction"
      then check_friction r
      else if r.kind == "reopened"
      then check_reopened r
      else ok tt

  unfoldable pub check_identity : Record → Outcome RecordRefusal (Unit {0})
  check_identity r = do want ← record_identity r; refuse_if (not (r.id == want)) id_mismatch

  unfoldable pub validate_record : Record → Outcome RecordRefusal (Unit {0})
  validate_record r = do
    refuse_if (not (same_int r.schema_version version_one)) (unsupported_schema r.schema_version)
    refuse_if (is_blank r.id || is_blank r.change || is_blank r.actor || is_blank r.timestamp)
        fields_required
    validate_family_kind r
    discard (needs (utc codec.parse_time r.timestamp) not_utc)
    discard (canonical_payload r.payload)
    check_payload r
    check_identity r

  -- `New`
  unfoldable pub new_record : Record → Outcome RecordRefusal Record
  new_record r = do
    payload ← canonical_payload r.payload
    let fresh : Record = record r { schema_version = version_one; id = ""; payload = payload }
    id ← record_identity fresh
    validate_record (record fresh { id = id })
    ok (record fresh { id = id })
