-- ===== src/Tests/Records.antt =====
-- Runs of internal/core/record on a codec of two records, each on a line of two bytes.
use specd_cli.Base.{
  all_lower_hex, ◌≡◌, refl, ◌↔◌, ℕ, String, Bool, true, false, Option, none, some, [], ◌∷◌, ◌++◌,
  ◌==◌, if◌then◌else◌, arith, nat_eq, ok, is_ok, pos, has_code, trim_space, ends_with, contains,
}
use specd_cli.State.Replace.{Bytes}
use specd_cli.State.Tokens.{Stream, scalar, end_of_file, reject_duplicate_keys, walk, ensure_eof}
use specd_cli.Record.Types.{Record, Codec, CompletionPayload}
use specd_cli.Record.Payloads.{
  bad_step, validate_attempt, validate_completion, validate_sync, validate_archive,
  validate_friction, validate_reopened,
}
use specd_cli.Record.Envelope.{IsBound, Binds, validate_record-IsBound}
use specd_cli.State.Defs.{count_up}
use specd_cli.Evidence.Defs.{utc, hex_value}
use specd_cli.Record.Defs.{
  check_completion, decode_with, validate_record, validate_family_kind, canonical_payload,
  check_payload, check_identity, record_identity,
}
use specd_cli.Record.Replay.{replay, replay_file, next_chains, chain_of}
use specd_cli.Record.Append.{LedgerPath, append_under_lock, bytes_of, validate_path, prior_revision}
use specd_cli.Record.Extend.{IsLine}
use specd_cli.Record.Ledger.{IsLedger, replay-IsLedger}
use specd_cli.Record.Counts.{counted, first_expected, transitions, replay-counts}
use specd_cli.Record.Appends.{healthy, append-iff-replay}
use specd_cli.Record.Failures.{stops_at, append-all_or_nothing, torn_write-keeps_records}
use specd_cli.Tests.Evidences.{parse_time}

abbrev pub created : Record
created = record {
  schema_version = pos 1;
  id = "aa";
  family = "history";
  kind = "created";
  change = "c";
  expected_revision = some 0;
  resulting_revision = some 1;
  timestamp = "T0Z";
  actor = "ada";
  payload = 123 ∷ 125 ∷ [];
}

abbrev approved : Record
approved = record created {
  id = "bb";
  kind = "approved";
  expected_revision = some 1;
  resulting_revision = some 2;
}

abbrev at_end : Stream
at_end = record { tokens = []; ending = end_of_file }

abbrev read_record : Bytes → Option (Record × Stream)
read_record (b ∷ c ∷ []) =
    if nat_eq b 65
    then some (created, at_end)
    else if nat_eq b 66
    then some (approved, at_end)
    else none
read_record bytes = none

abbrev two_bytes : Bytes → Bool
two_bytes (b ∷ c ∷ []) = true
two_bytes bytes = false

abbrev hash_of : Bytes → String
hash_of (b ∷ bs) = if nat_eq b 65 then "aa" else "bb"
hash_of [] = ""

abbrev pub codec : Codec
codec = record {
  string_of = λ raw. "{}";
  stream_of = λ raw. record { tokens = scalar ∷ []; ending = end_of_file };
  is_json = two_bytes;
  decode_value = λ raw. some (record { is_object = true; encoding = some raw });
  marshal_record = λ r. some (if r.kind == "created" then 65 ∷ 65 ∷ [] else 66 ∷ 66 ∷ []);
  sha256_hex = hash_of;
  hash_attempt = λ v. "";
  parse_time = parse_time;
  unmarshal_record = read_record;
  unmarshal_attempt = λ raw. none;
  unmarshal_completion = λ raw. none;
  unmarshal_sync = λ raw. none;
  unmarshal_archive = λ raw. none;
  unmarshal_friction = λ raw. none;
  unmarshal_reopened = λ raw. none;
}

abbrev pub line_a : Bytes
line_a = 65 ∷ 65 ∷ 10 ∷ []

abbrev both : Bytes
both = 65 ∷ 65 ∷ 10 ∷ 66 ∷ 66 ∷ 10 ∷ []

created_valid : validate_record codec created ≡ ok tt
unfolding validate_record trim_space validate_family_kind utc ends_with canonical_payload
    reject_duplicate_keys walk ensure_eof check_payload check_identity record_identity
created_valid = refl

one_read : replay codec "history" line_a ≡ ok (created ∷ [], none)
unfolding replay decode_with validate_record trim_space validate_family_kind utc ends_with
    canonical_payload reject_duplicate_keys walk ensure_eof check_payload check_identity
    record_identity contains next_chains chain_of count_up
one_read = refl

both_read : replay codec "history" both ≡ ok (created ∷ approved ∷ [], none)
unfolding replay decode_with validate_record trim_space validate_family_kind utc ends_with
    canonical_payload reject_duplicate_keys walk ensure_eof check_payload check_identity
    record_identity contains next_chains chain_of count_up
both_read = refl

approved-IsLine : IsLine codec approved (66 ∷ 66 ∷ [])
unfolding has_code decode_with reject_duplicate_keys walk ensure_eof
approved-IsLine = record { marshalled = refl; one_line = refl; full = refl; decodes = refl }

abbrev pub history_file : LedgerPath
history_file = record { base = "history.jsonl"; parent_is_dir = some true }

one_file : replay_file codec "history" false (some line_a) ≡ ok (created ∷ [], none)
unfolding replay_file
one_file = one_read

history_path : validate_path history_file "history" ≡ ok tt
unfolding validate_path
history_path = refl

replay-IsLedger_example : IsLedger codec "history" (created ∷ approved ∷ [])
replay-IsLedger_example =
    replay-IsLedger codec "history" both (created ∷ approved ∷ []) none both_read

append-iff-replay_example :
    (append_under_lock codec history_file healthy (some line_a) "history" approved
      ≡ (ok tt, some both))
    ↔ (replay codec "history" both ≡ ok (created ∷ approved ∷ [], none))
append-iff-replay_example =
    append-iff-replay codec history_file "history" (some line_a) (created ∷ []) approved
      (66 ∷ 66 ∷ []) one_file history_path approved-IsLine

replay-counts_example :
    prior_revision "c" (created ∷ approved ∷ [])
    ≡ counted
        (first_expected "c" (created ∷ approved ∷ []))
        (transitions "c" (created ∷ approved ∷ []))
replay-counts_example =
    replay-counts codec "history" both (created ∷ approved ∷ []) none "c" both_read

append-all_or_nothing_example :
    (is_ok (append_under_lock codec history_file healthy (some line_a) "history" approved).0 ≡ false
      → bytes_of (append_under_lock codec history_file healthy (some line_a) "history" approved).1
        ≡ line_a)
    × (is_ok (append_under_lock codec history_file healthy (some line_a) "history" approved).0
          ≡ true
        → (raw : Bytes) × ((codec.marshal_record approved ≡ some raw)
            × (bytes_of
                  (append_under_lock codec history_file healthy (some line_a) "history" approved).1
                ≡ line_a ++ (raw ++ 10 ∷ []))))
append-all_or_nothing_example =
    append-all_or_nothing codec history_file healthy (some line_a) "history" approved refl

torn_write-keeps_records_example :
    (torn : Option ℕ) × (replay_file codec "history" false
        (append_under_lock codec history_file (stops_at 1) (some line_a) "history" approved).1
      ≡ ok (created ∷ [], torn))
torn_write-keeps_records_example =
    torn_write-keeps_records codec history_file "history" (some line_a) (created ∷ []) approved
      (66 ∷ 66 ∷ []) 1 one_file refl approved-IsLine.one_line (omega arith) refl

abbrev hash_text : String
hash_text = "0123456789abcdef0123456789abcdef0123456789abcdef0123456789abcdef"

abbrev completion : CompletionPayload
completion = record {
  schema_version = pos 1;
  change = "c";
  task_id = "a";
  attempt_id = hash_text;
  evidence_id = hash_text;
  actor = "ada";
  activity_from = "in_progress";
  activity_to = "completed";
  revision_before = 1;
  revision_after = 2;
}

abbrev completing : Codec
completing = record codec { unmarshal_completion = λ raw. some (completion, at_end) }

abbrev completed : Record
completed = record approved { kind = "completion" }

completed_valid : validate_record completing completed ≡ ok tt
unfolding validate_record trim_space validate_family_kind utc ends_with canonical_payload
    reject_duplicate_keys walk ensure_eof check_payload check_identity record_identity count_up
    check_completion decode_with validate_completion hex_value all_lower_hex bad_step
completed_valid = refl

validate_record-IsBound_example :
    (completed.kind ≡ "attempt"
      → Binds completing completed completing.unmarshal_attempt
          (validate_attempt completing.hash_attempt)
          (λ v. IsBound completed v.change v.actor v.revision_before v.revision_after))
    × (completed.kind ≡ "completion"
        → Binds completing completed completing.unmarshal_completion
            (validate_completion)
            (λ v. IsBound completed v.change v.actor v.revision_before v.revision_after))
    × (completed.kind ≡ "synced"
        → Binds completing completed completing.unmarshal_sync
            (validate_sync)
            (λ v. IsBound completed v.change v.approver v.revision_before v.revision_after))
    × (completed.kind ≡ "archived"
        → Binds completing completed completing.unmarshal_archive
            (validate_archive)
            (λ v. IsBound completed v.change v.actor v.revision_before v.revision_after))
    × (completed.kind ≡ "friction"
        → Binds completing completed completing.unmarshal_friction validate_friction (λ v.
          (v.change ≡ completed.change)
          × (v.actor ≡ completed.actor)
          × (completed.expected_revision ≡ none)
          × (completed.resulting_revision ≡ none)))
    × (completed.kind ≡ "reopened"
        → Binds completing completed completing.unmarshal_reopened
            (validate_reopened)
            (λ v. IsBound completed v.change v.actor v.revision_before v.revision_after))
validate_record-IsBound_example = validate_record-IsBound completing completed completed_valid
