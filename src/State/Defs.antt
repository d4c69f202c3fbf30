-- ===== src/State/Defs.antt =====
-- internal/core/state/state.go and mutate.go: the state of a change, its validation, its encoding and
-- the mutation of the state file under an expected revision.
-- Parameters stand for encoding/json (`marshal`, and `unmarshal`, which is a decoder that refuses
-- unknown fields; it gives the value and the stream behind it), and for the lock of the change.
-- A nil slice or map is `none`. `J` is the type of json.RawMessage.
use specd_cli.Base.{
  ℕ, ◌+◌, String, Bool, false, not, ◌||◌, Option, none, some, List, [], ◌∷◌, ◌++◌, ◌==◌,
  if◌then◌else◌, nat_eq, is_some, Outcome, ok, err, ok_injective, ◌≡◌, refl, ap, ◌>>=◌, ◌>>◌,
  refuse_if, ℤ, pos,
}
use Prim.Native.Nat.{◌^◌, ◌%◌}
use specd_cli.State.Replace.{Bytes, Files, System, replaced, stopped_at, Action, atomic_replace}
use specd_cli.State.Tokens.{Stream, DecodeRefusal, reject_duplicate_keys, ensure_eof}

pub record State (J : Type 0) : Type 0 where
  pub schema_version : ℤ
  pub change : String
  pub stage : String
  pub condition : String
  pub revision : ℕ
  pub approvals : Option (List J)
  pub tasks : Option (List (String × J))
  pub created_by : String
  pub last_transition : String
  pub extensions : Option (List (String × J))

pub record Projection : Type 0 where
  pub change : String
  pub schema : ℤ
  pub stage : String
  pub condition : String
  pub revision : ℕ
  pub next_action : String

-- The refusals, before their texts are formatted. `validate_state` is a refusal of `Validate` with
-- the prefix that `reprefix` puts before its reason.
pub data StateRefusal : Type 0 where
  schema_unsupported : ℤ → StateRefusal
  identity_mismatch : String → String → StateRefusal
  invalid_stage invalid_condition : String → StateRefusal
  revision_not_positive approvals_missing tasks_missing identities_missing : StateRefusal
  decode_state : DecodeRefusal → StateRefusal
  decode_fails : StateRefusal
  validate_state : StateRefusal → StateRefusal
  marshal_fails : StateRefusal
  read_fails : StateRefusal
  stale_revision : ℕ → ℕ → StateRefusal
  mutation_refused : String → StateRefusal
  identity_changed : StateRefusal
  replace_fails : Action → StateRefusal
  lock_fails : StateRefusal

abbrev pub schema_version : ℤ
schema_version = pos 1

abbrev pub same_int : ℤ → ℤ → Bool
same_int (pos m) (pos n) = nat_eq m n
same_int (ℤ.negsuc m) (ℤ.negsuc n) = nat_eq m n
same_int _ _ = false

unfoldable pub valid_stage : String → Bool
valid_stage stage =
    stage == "planning"
    || stage == "approved"
    || stage == "executing"
    || stage == "reconciling"
    || stage == "archived"

abbrev pub initial : {J : Type 0} → String → String → State J
initial change creation_id = record {
  schema_version = schema_version;
  change = change;
  stage = "planning";
  condition = "active";
  revision = 1;
  approvals = some [];
  tasks = some [];
  created_by = creation_id;
  last_transition = creation_id;
  extensions = none;
}

unfoldable pub validate : {J : Type 0} → State J → String → Outcome StateRefusal (Unit {0})
unfolding valid_stage
validate s expected_change = do
  refuse_if (not (same_int s.schema_version schema_version)) (schema_unsupported s.schema_version)
  refuse_if (s.change == "" || not (s.change == expected_change))
      (identity_mismatch s.change expected_change)
  refuse_if (not (valid_stage s.stage)) (invalid_stage s.stage)
  refuse_if (not (s.condition == "active")) (invalid_condition s.condition)
  refuse_if (nat_eq s.revision 0) revision_not_positive
  refuse_if (not (is_some s.approvals)) approvals_missing
  refuse_if (not (is_some s.tasks)) tasks_missing
  refuse_if (s.created_by == "" || s.last_transition == "") identities_missing
  ok tt

unfoldable pub next_action : String → String
next_action stage =
    if stage == "planning"
    then "author planning artifacts"
    else if stage == "approved"
    then "start execution"
    else if stage == "executing"
    then "complete tasks"
    else if stage == "reconciling"
    then "sync accepted specs"
    else if stage == "archived"
    then "inspect archived change"
    else ""

abbrev pub project : {J : Type 0} → State J → Projection
project s = record {
  change = s.change;
  schema = s.schema_version;
  stage = s.stage;
  condition = s.condition;
  revision = s.revision;
  next_action = next_action s.stage;
}

-- `next.Revision++` on a uint64
unfoldable pub count_up : ℕ → ℕ
count_up n = (n + 1) % 2 ^ 64

abbrev pub needs {ℓ} : {E : Type 0} {A : Type ℓ} → Option A → E → Outcome E A
needs none e = err e
needs (some a) e = ok a

abbrev pub refused_as {ℓ} : {E F : Type 0} {A : Type ℓ} → (E → F) → Outcome E A → Outcome F A
refused_as wrap (ok a) = ok a
refused_as wrap (err e) = err (wrap e)

pub refused_as-eq-ok {ℓ} :
    {E F : Type 0} {A : Type ℓ} (wrap : E → F) (m : Outcome E A) {a : A}
    → refused_as wrap m ≡ ok a
    → m ≡ ok a
refused_as-eq-ok wrap (ok a) h = ap ok (ok_injective refl h)
refused_as-eq-ok wrap (err e) h = cc

module _ {J : Type 0} (marshal : State J → Option Bytes)
    (unmarshal : Bytes → Option (State J × Stream)) (stream_of : Bytes → Stream) where
  unfoldable pub encode : State J → Outcome StateRefusal Bytes
  encode s = do validate s s.change; b ← needs (marshal s) marshal_fails; ok (b ++ 10 ∷ [])

  unfoldable pub decode : Bytes → String → Outcome StateRefusal (State J)
  decode bytes expected_change = do
    refused_as decode_state (reject_duplicate_keys (stream_of bytes))
    decoded ← needs (unmarshal bytes) decode_fails
    refused_as decode_state (ensure_eof decoded.1.tokens decoded.1.ending)
    refused_as validate_state (validate decoded.0 expected_change)
    ok decoded.0

  -- The body of `Mutate` up to the write. The mutator works on a copy of the state that was read, and
  -- that copy is dropped with an error.
  unfoldable pub prepare_mutation :
      Option Bytes
      → String
      → ℕ
      → (State J → Outcome StateRefusal (State J))
      → Outcome StateRefusal (State J × Bytes)
  prepare_mutation content expected_change expected_revision mutator = do
    bytes ← needs content read_fails
    current ← decode bytes expected_change
    refuse_if (not (nat_eq current.revision expected_revision))
        (stale_revision expected_revision current.revision)
    mutated ← mutator current
    let next : State J = record mutated { revision = count_up mutated.revision }
    refuse_if
        (not (next.change == current.change)
          || not (same_int next.schema_version current.schema_version))
        identity_changed
    encoded ← encode next
    ok (next, encoded)

  -- `Mutate`; the lock is held or refused, and `AtomicReplace` runs without a hook.
  unfoldable pub mutate_state :
      System
      → Bool
      → Files
      → String
      → ℕ
      → (State J → Outcome StateRefusal (State J))
      → Outcome StateRefusal (State J) × Files
  mutate_state system locked files expected_change expected_revision mutator =
      if not locked
      then (err lock_fails, files)
      else elim (prepare_mutation files.content expected_change expected_revision mutator) [
        | err e ↦ (err e, files)
        | ok (next, encoded) ↦
            let (result, files') = atomic_replace system (λ step. false) encoded files in
            elim result [
              | replaced ↦ (ok next, files')
              | stopped_at a ↦ (err (replace_fails a), files')
            ]
      ]
