-- ===== src/Gates/Evaluate.antt =====
-- internal/core/gates/registry.go: the evaluation of a registry on a snapshot. `clone` is
-- cloneSnapshot, which passes a snapshot through encoding/json.
use Prim.Native.Nat.{compare as compare_ℕ, Ordering}
use Prim.Native.String.{compare}
use Prim.Native.String as Text
use specd_cli.Base.{
  String, Bool, true, false, not, ◌||◌, Option, none, some, List, [], ◌∷◌, ◌++◌, map, ◌==◌,
  if◌then◌else◌, contains, trim_space,
}
use specd_cli.Plan.Model.{Location}
use specd_cli.Gates.Defs.{Snapshot, Issue, Finding, Gate, Registry, find_transition}

abbrev pub join : String → String → String
join s t = Text.◌++◌ s t

-- cmp.Or
abbrev pub or_else : Ordering → Ordering → Ordering
or_else Ordering.eq o = o
or_else Ordering.lt o = Ordering.lt
or_else Ordering.gt o = Ordering.gt

abbrev pub compare_issues : Issue → Issue → Ordering
compare_issues a b = or_else (compare a.location.path b.location.path) (
    or_else (compare_ℕ a.location.offset b.location.offset) (
      or_else (compare_ℕ a.location.line b.location.line) (
        or_else (compare_ℕ a.location.column b.location.column)
          (or_else (compare a.problem b.problem) (compare a.repair b.repair)))))

abbrev pub at_most : Ordering → Bool
at_most Ordering.gt = false
at_most _ = true

-- slices.SortStableFunc: an issue goes before those that are not below it.
unfoldable pub insert_issue : Issue → List Issue → List Issue
insert_issue x [] = x ∷ []
insert_issue x (y ∷ ys) = if at_most (compare_issues x y) then x ∷ y ∷ ys else y ∷ insert_issue x ys

unfoldable pub sort_issues : List Issue → List Issue
unfolding insert_issue
sort_issues [] = []
sort_issues (x ∷ xs) = insert_issue x (sort_issues xs)

abbrev pub nowhere : Location
nowhere = record { path = ""; offset = 0; line = 0; column = 0 }

abbrev pub refusal : String → String → Finding
refusal problem repair = record {
  gate = "gate_registry";
  severity = "error";
  location = nowhere;
  problem = problem;
  repair = repair;
}

-- the loop over the sorted issues of one gate
abbrev pub finding_of : {Q : Type 0} → Gate Q → Issue → Finding
finding_of gate issue =
    if trim_space issue.problem == "" || trim_space issue.repair == ""
    then refusal (join "gate " (join gate.id " returned a non-actionable issue"))
        "repair the gate evaluator to return one problem and one repair"
    else record {
      gate = gate.id;
      severity = gate.severity;
      location = issue.location;
      problem = issue.problem;
      repair = issue.repair;
    }

-- `gate.Evaluate(input)`; newRegistry refuses a gate without an evaluator.
abbrev pub issues_of : {Q : Type 0} → Gate Q → Snapshot Q → List Issue
issues_of gate input = elim gate.evaluate [ none ↦ [] | some f ↦ f input ]

module _ {Q : Type 0} (clone : Snapshot Q → Option (Snapshot Q)) where
  unfoldable pub gate_findings : Snapshot Q → Gate Q → List Finding
  gate_findings snapshot gate = elim (clone snapshot) [
    | none ↦
        refusal (join "snapshot cannot be isolated for gate " gate.id)
          "repair the canonical snapshot and rerun check"
        ∷ []
    | some input ↦ map (finding_of gate) (sort_issues (issues_of gate input))
  ]

  unfoldable pub run_gates : List String → Snapshot Q → List (Gate Q) → List Finding
  run_gates selected snapshot [] = []
  run_gates selected snapshot (gate ∷ gates) =
      let rest = run_gates selected snapshot gates in
      if not (contains selected gate.id) then rest else gate_findings snapshot gate ++ rest

  abbrev pub version_findings : Registry Q → Snapshot Q → List Finding
  version_findings registry snapshot =
      if not (snapshot.registry_version == registry.version)
      then refusal "snapshot registry version does not match active registry"
          (join "reassemble the snapshot with registry version " registry.version)
        ∷ []
      else []

  unfoldable pub evaluate : Registry Q → Snapshot Q → List Finding
  unfolding run_gates
  evaluate registry snapshot = elim (find_transition registry.transitions snapshot.transition) [
    | none ↦
        refusal "transition has no registered gate set" "select a registered lifecycle transition"
        ∷ []
    | some ids ↦ version_findings registry snapshot ++ run_gates ids snapshot registry.gates
  ]
