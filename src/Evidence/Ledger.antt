-- ===== src/Evidence/Ledger.antt =====
-- The ledgers of internal/core/evidence: the payloads that are decoded from the records, the latest
-- test run that applies (`Project`), and the required checks that lack proof (`MissingProduction`).
-- The records are those that record.Replay gave; encoding/json and the clock are parameters.
use specd_cli.Base.{
  ℕ, String, Bool, true, false, not, ◌&&◌, ◌||◌, Option, none, some, List, [], ◌∷◌, ◌==◌,
  if◌then◌else◌, length, contains, Outcome, ok, err, ◌>>=◌, ◌>>◌, refuse_if, is_ok,
}
use specd_cli.State.Tokens.{Stream, walk}
use specd_cli.Evidence.Defs.{
  Instant, TestRun, Subject, EvidenceRefusal, duplicate_record, malformed_record, unknown_class,
  uses_test_run, unknown_check, class_test_run, validate_test_run, matches_test_run,
  applicable_test_run,
}
use specd_cli.Evidence.Production.{
  RequiredCheck, Production, ProductionSubject, valid_check, known_class, validate_production,
  applicable_production,
}

pub record Item (P : Type 0) : Type 0 where
  pub id : String
  pub change : String
  pub timestamp : String
  pub payload : P

unfoldable pub check_required : List RequiredCheck → Outcome EvidenceRefusal (Unit {0})
check_required [] = ok tt
check_required (check ∷ checks) = do
  refuse_if (check.class == class_test_run) uses_test_run
  refuse_if (not (valid_check check)) unknown_check
  check_required checks

abbrev pub wanted : Subject → String → RequiredCheck → ProductionSubject
wanted subject policy_digest check = record {
  subject = subject;
  check = check;
  policy_digest = policy_digest;
  evidence_set = "";
  packet_hash = "";
}

module _ (parse_time : String → Option Instant) (now : ℕ) where
  abbrev pub if_applicable : Subject → Option TestRun → Option TestRun
  if_applicable subject none = none
  if_applicable subject (some v) =
      if applicable_test_run parse_time now v subject then some v else none

  -- The loop over the values for one check: whether one satisfies it, and the prior digest.
  unfoldable pub find_proof : ProductionSubject → String → List Production → Bool × String
  find_proof want prior [] = (false, prior)
  find_proof want prior (v ∷ values) =
      let drifted : ProductionSubject = record want { policy_digest = v.policy_digest } in
      let same = find_proof want prior values in
      let drift = find_proof want v.policy_digest values in
      if applicable_production parse_time now v want
      then (true, prior)
      else if prior == ""
          && not (v.policy_digest == want.policy_digest)
          && v.passed
          && applicable_production parse_time now v drifted
      then drift
      else same

  unfoldable pub missing_checks :
      Subject → String → List Production → List RequiredCheck → String → List RequiredCheck × String
  unfolding find_proof
  missing_checks subject policy_digest values [] prior = ([], prior)
  missing_checks subject policy_digest values (check ∷ checks) prior =
      let (satisfied, prior') = find_proof (wanted subject policy_digest check) prior values in
      let (missing, last) = missing_checks subject policy_digest values checks prior' in
      (if satisfied then missing else check ∷ missing, last)

module _ {P : Type 0} (parse_time : String → Option Instant) (now : ℕ) (stream_of : P → Stream)
    (unmarshal_test_run : P → Option TestRun) (unmarshal_production : P → Option Production)
    (class_field : P → Option String) (ends : P → Bool) where
  -- A duplicate key, a field that does not fit, trailing data or an invalid value.
  unfoldable pub decode_test_run : P → Option TestRun
  decode_test_run raw = elim (unmarshal_test_run raw) [
    | none ↦ none
    | some v ↦
        if is_ok (walk (length (stream_of raw).tokens) (stream_of raw).tokens)
          && ends raw
          && is_ok (validate_test_run parse_time v)
        then some v
        else none
  ]

  unfoldable pub decode_production : P → Option Production
  decode_production raw = elim (unmarshal_production raw) [
    | none ↦ none
    | some v ↦
        if is_ok (walk (length (stream_of raw).tokens) (stream_of raw).tokens)
          && ends raw
          && is_ok (validate_production parse_time v)
        then some v
        else none
  ]

  unfoldable pub class_of : P → Option String
  class_of raw = elim (class_field raw) [
    | none ↦ none
    | some class ↦ if known_class class then some class else none
  ]

  -- the loop of `Project`; `latest` is `values[applicable]`
  unfoldable pub project_items :
      Subject
      → List String
      → Option TestRun
      → List (Item P)
      → Outcome EvidenceRefusal (Option TestRun)
  project_items subject seen latest [] = ok latest
  project_items subject seen latest (item ∷ items) =
      if contains seen item.id then err duplicate_record else elim (decode_test_run item.payload) [
        | none ↦ err malformed_record
        | some v ↦
            let found = project_items subject (item.id ∷ seen) (some v) items in
            let kept = project_items subject (item.id ∷ seen) latest items in
            if not (item.change == v.change) || not (item.timestamp == v.ended_at)
            then err malformed_record
            else if matches_test_run parse_time v subject
            then found
            else kept
      ]

  unfoldable pub project_evidence :
      Subject → List (Item P) → Outcome EvidenceRefusal (Option TestRun)
  unfolding project_items
  project_evidence subject items = do
    latest ← project_items subject [] none items
    ok (if_applicable parse_time now subject latest)

  unfoldable pub decode_items : List (Item P) → Outcome EvidenceRefusal (List Production)
  decode_items [] = ok []
  decode_items (item ∷ items) = elim (class_of item.payload) [
    | none ↦ err unknown_class
    | some class ↦
        if class == class_test_run
        then decode_items items
        else elim (decode_production item.payload) [
          | none ↦ err malformed_record
          | some v ↦ do
            refuse_if (not (item.change == v.change) || not (item.timestamp == v.ended_at))
                malformed_record
            values ← decode_items items
            ok (v ∷ values)
        ]
  ]

  unfoldable pub missing_production :
      List (Item P)
      → List RequiredCheck
      → Subject
      → String
      → Outcome EvidenceRefusal (List RequiredCheck × String)
  unfolding check_required decode_items missing_checks
  missing_production items required subject policy_digest = do
    check_required required
    values ← decode_items items
    ok (missing_checks parse_time now subject policy_digest values required "")
