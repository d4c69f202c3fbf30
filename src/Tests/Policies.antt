-- ===== src/Tests/Policies.antt =====
-- Runs of internal/core/policy.go, with the text itself in the place of its hash.
use specd_cli.Base.{
  in_segments, All, false, [], ◌∷◌, String, ◌≡◌, refl, ◌⊎◌, ◌↔◌, true, some, ok, is_ok, trim_space,
}
use specd_cli.Policy.Defs.{
  PolicyTransition, required, production, check_required_checks, production_policy, resolve_profile,
  validate_policy, default_policy_digest, policy_digest, check_policy_transition,
}
use specd_cli.Evidence.Defs.{class_test_run}
use specd_cli.Evidence.Production.{valid_check}
use specd_cli.Policy.Laws.{
  IsBinding, HasNothing, IsRequirable, validate_policy_iff, check_policy_transition_iff,
}

abbrev hash : String → String
hash s = s

abbrev to_production : PolicyTransition
to_production = record {
  from = default_policy_digest hash;
  to = policy_digest hash production_policy;
  approver = "ada";
  reason = "release";
}

spaced_name : resolve_profile " production " ≡ ok production_policy
unfolding resolve_profile trim_space
spaced_name = refl

validate_policy_iff_example : (is_ok (validate_policy production_policy) ≡ true) ↔ (
    ((production_policy.profile ≡ "default") × HasNothing production_policy)
    ⊎ ((production_policy.profile ≡ "production")
        × All IsRequirable production_policy.required_checks))
validate_policy_iff_example = validate_policy_iff production_policy

-- A test run is no check that a policy requires.
requires_test_run :
    is_ok (
      validate_policy
        (record production_policy { required_checks = required class_test_run "x" ∷ [] }))
    ≡ false
unfolding validate_policy production check_required_checks valid_check in_segments
requires_test_run = refl

check_policy_transition_iff_example :
    (is_ok (
        check_policy_transition hash
          (default_policy_digest hash)
          production_policy
          (some to_production))
      ≡ true)
    ↔ ((default_policy_digest hash ≡ policy_digest hash production_policy)
        ⊎ ((t : PolicyTransition) × (some to_production ≡ some t)
            × IsBinding hash (default_policy_digest hash) production_policy t))
check_policy_transition_iff_example =
    check_policy_transition_iff hash (default_policy_digest hash) production_policy
      (some to_production)
