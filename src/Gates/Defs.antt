-- ===== src/Gates/Defs.antt =====
-- internal/core/gates/registry.go: gates, transitions, and the checks of newRegistry. A Go map of the
-- registry is the list that fills it, whose keys newRegistry makes distinct. `Q` is the parsed plan
-- of a snapshot. A nil evaluator is `none`.
use specd_cli.Base.{
  ℕ, String, Bool, true, false, not, ◌&&◌, ◌||◌, Option, none, some, List, [], ◌∷◌, ◌==◌,
  if◌then◌else◌, is_some, contains, trim_space, Outcome, ok, err, ◌>>◌, refuse_if,
}
use specd_cli.Plan.Model.{Location}

pub record Snapshot (Q : Type 0) : Type 0 where
  pub plan : Q
  pub lifecycle : String
  pub state_revision : ℕ
  pub transition : String
  pub registry_version : String
  pub policy_digest : String

pub record Issue : Type 0 where
  pub location : Location
  pub problem : String
  pub repair : String

pub record Finding : Type 0 where
  pub gate : String
  pub severity : String
  pub location : Location
  pub problem : String
  pub repair : String

pub record Gate (Q : Type 0) : Type 0 where
  pub id : String
  pub description : String
  pub transition : String
  pub profile : String
  pub artifacts : List String
  pub severity : String
  pub evaluate : Option (Snapshot Q → List Issue)

pub record Transition : Type 0 where
  pub id : String
  pub gate_ids : List String

pub record Registry (Q : Type 0) : Type 0 where
  pub version : String
  pub gates : List (Gate Q)
  pub transitions : List Transition

pub data RegistryRefusal : Type 0 where
  version_missing transition_incomplete inventory_differs : RegistryRefusal
  gate_incomplete gate_duplicate transition_duplicate : String → RegistryRefusal
  profile_unsupported severity_invalid artifact_unknown artifact_repeated :
      String → String → RegistryRefusal
  gate_unknown gate_repeated transition_disagrees gate_unbound : String → String → RegistryRefusal

abbrev pub is_empty {ℓ} : {A : Type ℓ} → List A → Bool
is_empty [] = true
is_empty (x ∷ xs) = false

abbrev pub known_artifacts : List String
known_artifacts = "proposal" ∷ "deltas" ∷ "design" ∷ "tasks" ∷ "state" ∷ []

unfoldable pub check_artifacts :
    String → List String → List String → Outcome RegistryRefusal (Unit {0})
check_artifacts gate seen [] = ok tt
check_artifacts gate seen (artifact ∷ rest) = do
  refuse_if (not (contains known_artifacts artifact)) (artifact_unknown gate artifact)
  refuse_if (contains seen artifact) (artifact_repeated gate artifact)
  check_artifacts gate (artifact ∷ seen) rest

unfoldable pub validate_gate : {Q : Type 0} → Gate Q → Outcome RegistryRefusal (Unit {0})
validate_gate gate = do
  refuse_if
      (gate.id == ""
        || trim_space gate.description == ""
        || gate.transition == ""
        || gate.profile == ""
        || is_empty gate.artifacts
        || not (is_some gate.evaluate))
      (gate_incomplete gate.id)
  refuse_if (not (gate.profile == "default")) (profile_unsupported gate.id gate.profile)
  refuse_if (not (gate.severity == "error") && not (gate.severity == "warning"))
      (severity_invalid gate.id gate.severity)
  check_artifacts gate.id [] gate.artifacts

unfoldable pub check_gates :
    {Q : Type 0} → List String → List (Gate Q) → Outcome RegistryRefusal (Unit {0})
check_gates seen [] = ok tt
check_gates seen (gate ∷ gates) = do
  validate_gate gate
  refuse_if (contains seen gate.id) (gate_duplicate gate.id)
  check_gates (gate.id ∷ seen) gates

-- `registry.gates[registry.byID[id]]`
unfoldable pub find_gate : {Q : Type 0} → List (Gate Q) → String → Option (Gate Q)
find_gate [] id = none
find_gate (gate ∷ gates) id = if gate.id == id then some gate else find_gate gates id

-- `registry.transitions[id]`
unfoldable pub find_transition : List Transition → String → Option (List String)
find_transition [] id = none
find_transition (t ∷ ts) id = if t.id == id then some t.gate_ids else find_transition ts id

unfoldable pub check_references :
    {Q : Type 0}
    → List (Gate Q)
    → String
    → List String
    → List String
    → Outcome RegistryRefusal (Unit {0})
unfolding find_gate
check_references gates transition seen [] = ok tt
check_references gates transition seen (id ∷ ids) = elim (find_gate gates id) [
  | none ↦ err (gate_unknown transition id)
  | some gate ↦ do
    refuse_if (contains seen id) (gate_repeated transition id)
    refuse_if (not (gate.transition == transition)) (transition_disagrees id transition)
    check_references gates transition (id ∷ seen) ids
]

unfoldable pub check_transitions :
    {Q : Type 0}
    → List (Gate Q)
    → List String
    → List Transition
    → Outcome RegistryRefusal (Unit {0})
check_transitions gates seen [] = ok tt
check_transitions gates seen (t ∷ ts) = do
  refuse_if (t.id == "" || is_empty t.gate_ids) transition_incomplete
  refuse_if (contains seen t.id) (transition_duplicate t.id)
  check_references gates t.id [] t.gate_ids
  check_transitions gates (t.id ∷ seen) ts

abbrev pub names : Option (List String) → String → Bool
names none id = false
names (some ids) id = contains ids id

unfoldable pub check_bound :
    {Q : Type 0} → List Transition → List (Gate Q) → Outcome RegistryRefusal (Unit {0})
unfolding find_transition
check_bound transitions [] = ok tt
check_bound transitions (gate ∷ gates) = do
  refuse_if (not (names (find_transition transitions gate.transition) gate.id))
      (gate_unbound gate.id gate.transition)
  check_bound transitions gates

unfoldable pub new_registry :
    {Q : Type 0} → String → List (Gate Q) → List Transition → Outcome RegistryRefusal (Registry Q)
new_registry version gates transitions = do
  refuse_if (trim_space version == "") version_missing
  check_gates [] gates
  check_transitions gates [] transitions
  check_bound transitions gates
  ok (record { version = version; gates = gates; transitions = transitions })
