-- ===== src/Evidence/Missing.antt =====
-- Which required checks `MissingProduction` of internal/core/evidence/production.go reports.
use specd_cli.Base.{
  ℕ, String, ◌≡◌, ◌≢◌, ◌⊎◌, Bool, true, false, ◌||◌, Option, List, [], ◌∷◌, if◌then◌else◌,
}
use specd_cli.Evidence.Defs.{Instant, Subject}
use specd_cli.Evidence.Production.{
  RequiredCheck, Production, ProductionSubject, applicable_production,
}
use specd_cli.Evidence.Ledger.{wanted}

-- A value stands in the list.
abbrev pub In : Production → List Production → Type 0
In v [] = ⊥
In v (x ∷ xs) = (v ≡ x) ⊎ In v xs

module _ (parse_time : String → Option Instant) (now : ℕ) where
  unfoldable pub proven : List Production → ProductionSubject → Bool
  proven [] want = false
  proven (v ∷ values) want = applicable_production parse_time now v want || proven values want

  -- The checks without proof among the values, in their order.
  unfoldable pub unproven :
      Subject → String → List Production → List RequiredCheck → List RequiredCheck
  unproven subject policy values [] = []
  unproven subject policy values (check ∷ checks) =
      let rest = unproven subject policy values checks in
      if proven values (wanted subject policy check) then rest else check ∷ rest

  -- A value proves the check under another policy, the one of the digest.
  abbrev pub IsDrift : Subject → String → List Production → String → Type 0
  IsDrift subject policy values prior =
      (v : Production) × (check : RequiredCheck) × In v values
      × (v.policy_digest ≡ prior)
      × (prior ≢ policy)
      × (v.passed ≡ true)
      × (applicable_production parse_time now v (wanted subject prior check) ≡ true)
