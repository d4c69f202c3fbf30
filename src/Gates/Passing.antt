-- ===== src/Gates/Passing.antt =====
-- When the registry of internal/core/gates/registry.go lets a snapshot pass.
use specd_cli.Base.{
  String, ◌≡◌, refl, sym, subst, ◌⊎◌, inl, inr, ◌↔◌, false, Option, some, List, [], ◌∷◌, ◌++◌, map,
  ◌==◌, contains, All, arith, eq_iff, Bool-cases, Option-cases,
}
use specd_cli.Gates.Defs.{Snapshot, Issue, Gate, Registry, find_transition}
use specd_cli.Gates.Evaluate.{
  insert_issue, sort_issues, finding_of, issues_of, gate_findings, run_gates, version_findings,
  evaluate,
}

nil-append : {A : Type 0} (xs ys : List A) → (xs ++ ys ≡ []) ↔ ((xs ≡ []) × (ys ≡ []))
nil-append [] ys = (λ h. (refl, h), λ h. h.1)
nil-append (x ∷ xs) ys = (λ h. cc, λ h. cc)

nil-sort_issues : (xs : List Issue) → (sort_issues xs ≡ []) ↔ (xs ≡ [])
unfolding sort_issues
nil-sort_issues [] = (λ h. h, λ h. h)
nil-sort_issues (x ∷ xs) =
    elim (sort_issues xs) as (λ sorted. (insert_issue x sorted ≡ []) ↔ (x ∷ xs ≡ [])) [
      | [] ↦ (λ h. cc, λ h. cc)
      | y ∷ ys ↦ (λ h. absurd (ground arith), λ h. cc)
    ]

nil-map : {A B : Type 0} (f : A → B) (xs : List A) → (map f xs ≡ []) ↔ (xs ≡ [])
nil-map f [] = (λ h. refl, λ h. refl)
nil-map f (x ∷ xs) = (λ h. cc, λ h. cc)

module _ {Q : Type 0} (clone : Snapshot Q → Option (Snapshot Q)) where
  -- The gate is not selected, or it was given a copy of the snapshot and found nothing.
  abbrev pub IsClear : List String → Snapshot Q → Gate Q → Type 0
  IsClear selected snapshot gate =
      (contains selected gate.id ≡ false)
      ⊎ ((input : Snapshot Q) × (clone snapshot ≡ some input) × (issues_of gate input ≡ []))

  gate_findings_iff :
      (snapshot : Snapshot Q) (gate : Gate Q)
      → (gate_findings clone snapshot gate ≡ [])
        ↔ ((input : Snapshot Q) × (clone snapshot ≡ some input) × (issues_of gate input ≡ []))
  unfolding gate_findings
  gate_findings_iff snapshot gate = elim (Option-cases (clone snapshot)) [
    | inl absent ↦ rw absent (λ h. cc, λ h. cc)
    | inr (input, cloned) ↦
        let sorted = nil-sort_issues (issues_of gate input) in
        let mapped = nil-map (finding_of gate) (sort_issues (issues_of gate input)) in
        rw (cloned, gate_findings)
          (
            λ h. (input, refl, sorted.0 (mapped.0 h)),
            λ (other, same, h).
                let is : input ≡ other = ground arith in
                mapped.1 (sorted.1 (subst (λ i. issues_of gate i ≡ []) (sym is) h)),
          )
  ]

  run_gates_iff :
      (selected : List String) (snapshot : Snapshot Q) (gates : List (Gate Q))
      → (run_gates clone selected snapshot gates ≡ []) ↔ All (IsClear selected snapshot) gates
  unfolding run_gates
  run_gates_iff selected snapshot [] = (λ h. tt, λ h. refl)
  run_gates_iff selected snapshot (gate ∷ gates) =
      let rest = run_gates_iff selected snapshot gates in
      let here = gate_findings_iff snapshot gate in
      let both =
        nil-append (gate_findings clone snapshot gate) (run_gates clone selected snapshot gates) in
      elim (Bool-cases (contains selected gate.id)) [
        | inl chosen ↦ rw chosen (
          λ h. let (now, later) = both.0 h in (inr (here.0 now), rest.0 later),
          λ h. both.1 (elim h.0 [ inl out ↦ absurd (cc) | inr clear ↦ here.1 clear ], rest.1 h.1),
        )
        | inr out ↦ rw out (λ h. (inl refl, rest.0 h), λ h. rest.1 h.1)
      ]

  -- A snapshot passes, without any finding, exactly when its transition is registered, it was made for
  -- the active version of the registry, and each gate that the transition selects was given a copy of
  -- the snapshot and found no issue in it; nothing else lets it pass.
  pub evaluate_iff :
      (registry : Registry Q) (snapshot : Snapshot Q)
      → (evaluate clone registry snapshot ≡ []) ↔ (
          (ids : List String) × (find_transition registry.transitions snapshot.transition
            ≡ some ids)
          × (snapshot.registry_version ≡ registry.version)
          × All (IsClear ids snapshot) registry.gates)
  unfolding evaluate
  evaluate_iff registry snapshot =
      elim (Option-cases (find_transition registry.transitions snapshot.transition)) [
        | inl absent ↦ rw absent (λ h. cc, λ h. cc)
        | inr (ids, known) ↦
            let gates = run_gates_iff ids snapshot registry.gates in
            elim (Bool-cases (snapshot.registry_version == registry.version)) [
              | inl same ↦
                  rw (known, same, evaluate, version_findings)
                    (
                      λ h. (
                        ids,
                        refl,
                        (eq_iff snapshot.registry_version registry.version).0 same,
                        gates.0 h,
                      ),
                      λ (other, is, version, clear).
                          let ids_same : ids ≡ other = ground arith in
                          gates.1 (
                            subst (λ l. All (IsClear l snapshot) registry.gates) (sym ids_same)
                              clear),
                    )
              | inr other ↦
                  rw (known, other, evaluate, version_findings)
                    (
                      λ h. cc,
                      λ (l, is, version, clear). absurd (
                          ground (
                            arith,
                            other,
                            (eq_iff snapshot.registry_version registry.version).1 version,
                          )),
                    )
            ]
      ]
