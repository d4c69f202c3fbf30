-- ===== src/Gates/Complete.antt =====
-- What a pass under a registry of newRegistry proves: internal/core/gates/registry.go.
use specd_cli.Base.{
  String, ◌≡◌, refl, sym, ap, subst, ◌∙◌, inl, inr, true, Option, some, List, [], ◌∷◌, contains,
  All, arith, Option-cases, ok, is_some,
}
use specd_cli.Gates.Defs.{
  Snapshot, Issue, Gate, Registry, Transition, find_transition, names, validate_gate, check_gates,
  check_bound, new_registry,
}
use specd_cli.Gates.Evaluate.{issues_of, evaluate}
use specd_cli.Gates.Passing.{IsClear, evaluate_iff}

HasEvaluator : {Q : Type 0} → Gate Q → Type 0
HasEvaluator gate = is_some gate.evaluate ≡ true

IsBound : {Q : Type 0} → List Transition → Gate Q → Type 0
IsBound transitions gate = names (find_transition transitions gate.transition) gate.id ≡ true

validate_gate-HasEvaluator :
    {Q : Type 0} (gate : Gate Q) → validate_gate gate ≡ ok tt → HasEvaluator gate
unfolding validate_gate HasEvaluator
validate_gate-HasEvaluator gate h = ground arith

check_gates-HasEvaluator :
    {Q : Type 0} (seen : List String) (gates : List (Gate Q))
    → check_gates seen gates ≡ ok tt
    → All HasEvaluator gates
unfolding check_gates
check_gates-HasEvaluator seen [] h = tt
check_gates-HasEvaluator seen (gate ∷ gates) h = (
  validate_gate-HasEvaluator gate (ground arith),
  check_gates-HasEvaluator (gate.id ∷ seen) gates (ground arith),
)

check_bound-IsBound :
    {Q : Type 0} (transitions : List Transition) (gates : List (Gate Q))
    → check_bound transitions gates ≡ ok tt
    → All (IsBound transitions) gates
unfolding check_bound IsBound
check_bound-IsBound transitions [] h = tt
check_bound-IsBound transitions (gate ∷ gates) h =
    (ground arith, check_bound-IsBound transitions gates (ground arith))

-- The gate, where it belongs to the transition, was given a copy of the snapshot and found nothing.
abbrev pub FoundNothing :
    {Q : Type 0} → (Snapshot Q → Option (Snapshot Q)) → Snapshot Q → Gate Q → Type 0
FoundNothing {Q} clone snapshot gate =
    gate.transition ≡ snapshot.transition
    → (f : Snapshot Q → List Issue) × (input : Snapshot Q) × (gate.evaluate ≡ some f)
      × (clone snapshot ≡ some input)
      × (f input ≡ [])

issues_of-some :
    {Q : Type 0} (gate : Gate Q) (f : Snapshot Q → List Issue) (input : Snapshot Q)
    → gate.evaluate ≡ some f
    → issues_of gate input ≡ f input
issues_of-some gate f input given = rw (given, issues_of) refl

clear-FoundNothing :
    {Q : Type 0} (clone : Snapshot Q → Option (Snapshot Q)) (snapshot : Snapshot Q)
    (transitions : List Transition) (ids : List String) (gate : Gate Q)
    → find_transition transitions snapshot.transition ≡ some ids
    → HasEvaluator gate
    → IsBound transitions gate
    → IsClear clone ids snapshot gate
    → FoundNothing clone snapshot gate
unfolding HasEvaluator IsBound
clear-FoundNothing clone snapshot transitions ids gate known has bound clear same =
    let chosen : contains ids gate.id ≡ true =
      subst (λ o. names o gate.id ≡ true) (ap (find_transition transitions) same ∙ known) bound in
    elim clear [
      | inl out ↦ absurd (ground (arith, chosen, out))
      | inr (input, cloned, nothing) ↦ elim (Option-cases gate.evaluate) [
        | inl absent ↦ absurd (ground (arith, absent))
        | inr (f, given) ↦
            (f, input, given, cloned, sym (issues_of-some gate f input given) ∙ nothing)
      ]
    ]

All-FoundNothing :
    {Q : Type 0} (clone : Snapshot Q → Option (Snapshot Q)) (snapshot : Snapshot Q)
    (transitions : List Transition) (ids : List String) (gates : List (Gate Q))
    → find_transition transitions snapshot.transition ≡ some ids
    → All HasEvaluator gates
    → All (IsBound transitions) gates
    → All (IsClear clone ids snapshot) gates
    → All (FoundNothing clone snapshot) gates
All-FoundNothing clone snapshot transitions ids [] known has bound clear = tt
All-FoundNothing clone snapshot transitions ids (gate ∷ gates) known has bound clear = (
  clear-FoundNothing clone snapshot transitions ids gate known has.0 bound.0 clear.0,
  All-FoundNothing clone snapshot transitions ids gates known has.1 bound.1 clear.1,
)

-- Under a registry that newRegistry built, a snapshot passes only if every gate of its transition has
-- an evaluator that was run on a copy of the snapshot and found nothing: no gate is left out.
pub new_registry-FoundNothing :
    {Q : Type 0} (clone : Snapshot Q → Option (Snapshot Q)) (version : String)
    (gates : List (Gate Q)) (transitions : List Transition) (registry : Registry Q)
    (snapshot : Snapshot Q)
    → new_registry version gates transitions ≡ ok registry
    → evaluate clone registry snapshot ≡ []
    → All (FoundNothing clone snapshot) gates
unfolding new_registry
new_registry-FoundNothing clone version gates transitions registry snapshot built passes =
    let made : record { version = version; gates = gates; transitions = transitions } ≡ registry =
      ground arith in
    let checked : check_gates [] gates ≡ ok tt = ground arith in
    let bound : check_bound transitions gates ≡ ok tt = ground arith in
    let (ids, known, same, clear) =
      (evaluate_iff clone (record { version = version; gates = gates; transitions = transitions })
          snapshot).0
        (subst (λ r. evaluate clone r snapshot ≡ []) (sym made) passes) in
    All-FoundNothing clone snapshot transitions ids gates known
      (check_gates-HasEvaluator [] gates checked) (check_bound-IsBound transitions gates bound)
      clear
