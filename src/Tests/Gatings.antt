-- ===== src/Tests/Gatings.antt =====
-- Runs of internal/core/gates/registry.go with two gates, over snapshots whose plan is a number.
use specd_cli.Base.{
  ℕ, String, ◌≡◌, refl, ◌↔◌, some, List, [], ◌∷◌, ok, err, contains, All, if◌then◌else◌, nat_eq,
  trim_space,
}
use specd_cli.Gates.Defs.{
  Snapshot, Issue, Gate, Registry, Transition, find_transition, new_registry, check_gates,
  validate_gate, check_artifacts, check_transitions, check_references, check_bound, gate_unbound,
}
use specd_cli.Gates.Evaluate.{nowhere, evaluate, gate_findings, sort_issues}
use specd_cli.Gates.Passing.{IsClear, evaluate_iff}
use specd_cli.Gates.Complete.{FoundNothing, new_registry-FoundNothing}

abbrev gate : String → (Snapshot ℕ → List Issue) → Gate ℕ
gate id f = record {
  id = id;
  description = "a gate";
  transition = "approve";
  profile = "default";
  artifacts = "tasks" ∷ [];
  severity = "error";
  evaluate = some f;
}

abbrev issue : Issue
issue = record { location = nowhere; problem = "no plan"; repair = "write one" }

abbrev gates : List (Gate ℕ)
gates = gate "plan" (λ s. if nat_eq s.plan 0 then issue ∷ [] else []) ∷ gate "other" (λ s. []) ∷ []

abbrev transitions : List Transition
transitions = record { id = "approve"; gate_ids = "plan" ∷ "other" ∷ [] } ∷ []

abbrev registry : Registry ℕ
registry = record { version = "v1"; gates = gates; transitions = transitions }

abbrev snapshot : ℕ → Snapshot ℕ
snapshot plan = record {
  plan = plan;
  lifecycle = "planning";
  state_revision = 1;
  transition = "approve";
  registry_version = "v1";
  policy_digest = "";
}

built : new_registry "v1" gates transitions ≡ ok registry
unfolding new_registry check_gates validate_gate check_artifacts check_transitions check_references
    check_bound contains trim_space
built = refl

unbound_is_refused :
    new_registry "v1" (gate "stray" (λ s. []) ∷ gates) transitions
    ≡ err (gate_unbound "stray" "approve")
unfolding new_registry check_gates validate_gate check_artifacts check_transitions check_references
    check_bound contains trim_space
unbound_is_refused = refl

passes : evaluate some registry (snapshot 1) ≡ []
unfolding evaluate find_transition contains gate_findings sort_issues
passes = refl

evaluate_iff_example : (evaluate some registry (snapshot 1) ≡ []) ↔ (
    (ids : List String) × (find_transition transitions "approve" ≡ some ids)
    × (registry.version ≡ "v1")
    × All (IsClear some ids (snapshot 1)) gates)
evaluate_iff_example = evaluate_iff some registry (snapshot 1)

new_registry-FoundNothing_example : All (FoundNothing some (snapshot 1)) gates
new_registry-FoundNothing_example =
    new_registry-FoundNothing some "v1" gates transitions registry (snapshot 1) built passes
