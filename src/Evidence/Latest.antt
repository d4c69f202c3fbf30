-- ===== src/Evidence/Latest.antt =====
-- Which test run `Project` of internal/core/evidence/evidence.go reports.
use specd_cli.Base.{
  ℕ, String, ◌≡◌, refl, ap, ◌∙◌, ◌⊎◌, inl, inr, Bool, true, false, Option, none, some, List, [],
  ◌∷◌, ◌++◌, ok, arith, Bool-cases, Outcome-cases, Option-cases, All,
}
use specd_cli.State.Tokens.{Stream}
use specd_cli.Evidence.Defs.{Instant, TestRun, Subject, matches_test_run, applicable_test_run}
use specd_cli.Evidence.Production.{Production}
use specd_cli.Evidence.Proof.{IsProof, applicable_test_run-IsProof}
use specd_cli.Evidence.Ledger.{
  Item, decode_test_run, project_items, project_evidence, if_applicable,
}

module _ {P : Type 0} (parse_time : String → Option Instant) (now : ℕ) (stream_of : P → Stream)
    (unmarshal_test_run : P → Option TestRun) (unmarshal_production : P → Option Production)
    (class_field : P → Option String) (ends : P → Bool) where
  abbrev pub read : Item P → Option TestRun
  read item =
      decode_test_run parse_time now stream_of unmarshal_test_run unmarshal_production class_field
        ends item.payload

  -- No record of the list is a test run that matches the subject.
  abbrev pub IsUnmatched : Subject → Item P → Type 0
  IsUnmatched subject item =
      (v : TestRun) → read item ≡ some v → matches_test_run parse_time v subject ≡ false

  -- The test run is that of the last record of the list that matches the subject.
  abbrev pub IsLatest : Subject → List (Item P) → TestRun → Type 0
  IsLatest subject items v =
      (before : List (Item P)) × (item : Item P) × (after : List (Item P)) × (items
        ≡ before ++ item ∷ after)
      × (read item ≡ some v)
      × (matches_test_run parse_time v subject ≡ true)
      × All (IsUnmatched subject) after

  IsLatest-cons :
      (subject : Subject) (item : Item P) (items : List (Item P)) (v : TestRun)
      → IsLatest subject items v
      → IsLatest subject (item ∷ items) v
  IsLatest-cons subject item items v (before, last, after, split, found, fits, none_after) =
      (item ∷ before, last, after, ap (λ l. item ∷ l) split, found, fits, none_after)

  project_items-IsLatest :
      (subject : Subject) (seen : List String) (latest : Option TestRun) (items : List (Item P))
      (result : Option TestRun)
      → project_items parse_time now stream_of unmarshal_test_run unmarshal_production class_field
          ends subject seen latest items
        ≡ ok result
      → ((result ≡ latest) × All (IsUnmatched subject) items)
        ⊎ ((v : TestRun) × (result ≡ some v) × IsLatest subject items v)
  unfolding project_items
  project_items-IsLatest subject seen latest [] result h = inl (ground arith, tt)
  project_items-IsLatest subject seen latest (item ∷ items) result h =
      elim (Option-cases (read item)) [
        | inl absent ↦ absurd (ground (arith, absent))
        | inr (v, found) ↦ elim (Bool-cases (matches_test_run parse_time v subject)) [
          | inl fits ↦
              elim (project_items-IsLatest subject (item.id ∷ seen) (some v) items result
                (ground (arith, found, fits))) [
                  | inl (same, none_after) ↦
                      inr (v, same, ([], item, items, refl, found, fits, none_after))
                  | inr (w, is, later) ↦ inr (w, is, IsLatest-cons subject item items w later)
                ]
          | inr fails ↦
              elim (project_items-IsLatest subject (item.id ∷ seen) latest items result
                (ground (arith, found, fails))) [
                  | inl (same, none_after) ↦
                      inl (same, (λ w e. ground (arith, e, found, fails), none_after))
                  | inr (w, is, later) ↦ inr (w, is, IsLatest-cons subject item items w later)
                ]
        ]
      ]

  -- Where the projection succeeds, it reports the test run of the last record that matches the subject
  -- if that one is a proof for it, and nothing if no record matches or the last that matches does not
  -- apply: an earlier pass does not outlive a later failure.
  pub project_evidence-IsLatest :
      (subject : Subject) (items : List (Item P)) (result : Option TestRun)
      → project_evidence parse_time now stream_of unmarshal_test_run unmarshal_production
          class_field ends subject items
        ≡ ok result
      → ((v : TestRun) × (result ≡ some v)
          × IsLatest subject items v
          × IsProof parse_time now v subject)
        ⊎ ((result ≡ none) × All (IsUnmatched subject) items)
        ⊎ ((v : TestRun) × (result ≡ none)
            × IsLatest subject items v
            × (applicable_test_run parse_time now v subject ≡ false))
  unfolding project_evidence
  project_evidence-IsLatest subject items result h =
      elim (Outcome-cases (
        project_items parse_time now stream_of unmarshal_test_run unmarshal_production class_field
          ends subject [] none items)) [
            | inr (e, refused) ↦ absurd (ground (arith, refused))
            | inl (latest, done) ↦
                let is : result ≡ if_applicable parse_time now subject latest =
                  ground (arith, done) in
                elim (project_items-IsLatest subject [] none items latest done) [
                  | inl (nothing, unmatched) ↦
                      inr (inl (is ∙ ap (if_applicable parse_time now subject) nothing, unmatched))
                  | inr (v, found, last) ↦
                      elim (Bool-cases (applicable_test_run parse_time now v subject)) [
                        | inl applies ↦ inl (
                          v,
                          is ∙ rw (found, applies),
                          last,
                          applicable_test_run-IsProof parse_time now v subject applies,
                        )
                        | inr fails ↦ inr (inr (v, is ∙ rw (found, fails), last, fails))
                      ]
                ]
          ]
