-- ===== src/Policy/Defs.antt =====
-- internal/core/policy.go: the policies, their rules and digest, and the transition between them.
-- `hash` is SHA-256 of a text as lower hex digits.
use Prim.Native.String as Text
use specd_cli.Base.{
  String, Bool, true, false, not, ◌&&◌, ◌||◌, Option, none, some, List, [], ◌∷◌, ◌++◌, map, ◌==◌,
  if◌then◌else◌, sort_texts, trim_space, Outcome, ok, err, ◌>>◌, refuse_if,
}
use specd_cli.Evidence.Defs.{class_test_run}
use specd_cli.Evidence.Production.{
  RequiredCheck, valid_check, class_build, class_lint, class_review,
}

pub record Policy : Type 0 where
  pub profile : String
  pub full_design : Bool
  pub bidirectional_trace : Bool
  pub acceptance_reach : Bool
  pub required_checks : List RequiredCheck

pub record PolicyTransition : Type 0 where
  pub from : String
  pub to : String
  pub approver : String
  pub reason : String

pub data PolicyRefusal : Type 0 where
  policy_unknown : String → PolicyRefusal
  production_rules : PolicyRefusal
  check_unknown : RequiredCheck → PolicyRefusal
  policy_drift : String → String → PolicyRefusal
  transition_unbound : PolicyRefusal

abbrev pub required : String → String → RequiredCheck
required class check_id = record { class = class; check_id = check_id }

abbrev pub default_policy : Policy
default_policy = record {
  profile = "default";
  full_design = false;
  bidirectional_trace = false;
  acceptance_reach = false;
  required_checks = [];
}

abbrev pub production_policy : Policy
production_policy = record {
  profile = "production";
  full_design = true;
  bidirectional_trace = true;
  acceptance_reach = true;
  required_checks =
      required class_build "compile"
      ∷ required class_lint "go-vet"
      ∷ required class_review "change-review"
      ∷ [];
}

-- `name` is trimmed before it is compared.
unfoldable pub resolve_profile : String → Outcome PolicyRefusal Policy
resolve_profile name =
    if trim_space name == "" || trim_space name == "default"
    then ok default_policy
    else if trim_space name == "production"
    then ok production_policy
    else err (policy_unknown name)

unfoldable pub production : Policy → Bool
production policy = policy.profile == "production"

abbrev pub check_text : RequiredCheck → String
check_text check = Text.◌++◌ check.class (Text.◌++◌ "/" check.check_id)

abbrev pub rule_if : Bool → String → List String
rule_if true rule = rule ∷ []
rule_if false rule = []

unfoldable pub rules : Policy → List String
rules policy = sort_texts (
    rule_if policy.full_design "rule=full-design"
    ++ rule_if policy.bidirectional_trace "rule=bidirectional-trace"
    ++ rule_if policy.acceptance_reach "rule=acceptance-reach"
    ++ map (λ check. Text.◌++◌ "check=" (check_text check)) policy.required_checks)

abbrev pub no_rules : List String → Bool
no_rules [] = true
no_rules (r ∷ rs) = false

unfoldable pub check_required_checks : List RequiredCheck → Outcome PolicyRefusal (Unit {0})
check_required_checks [] = ok tt
check_required_checks (check ∷ checks) = do
  refuse_if (not (valid_check check) || check.class == class_test_run) (check_unknown check)
  check_required_checks checks

unfoldable pub validate_policy : Policy → Outcome PolicyRefusal (Unit {0})
validate_policy policy = do
  refuse_if (not (policy.profile == "default") && not (policy.profile == "production"))
      (policy_unknown policy.profile)
  refuse_if (not (production policy) && not (no_rules (rules policy))) production_rules
  check_required_checks policy.required_checks

-- strings.Join with a newline
unfoldable pub join_lines : List String → String
join_lines [] = ""
join_lines (x ∷ []) = x
join_lines (x ∷ y ∷ ys) = Text.◌++◌ x (Text.◌++◌ "\n" (join_lines (y ∷ ys)))

module _ (hash : String → String) where
  abbrev pub default_policy_digest : String
  default_policy_digest = hash "specd-v2-default-policy-v1"

  unfoldable pub policy_digest : Policy → String
  policy_digest policy =
      if not (production policy)
      then default_policy_digest
      else hash (Text.◌++◌ "profile=production\n" (join_lines (rules policy)))

  unfoldable pub check_policy_transition :
      String → Policy → Option PolicyTransition → Outcome PolicyRefusal (Unit {0})
  check_policy_transition recorded current transition =
      if recorded == policy_digest current then ok tt else elim transition [
        | none ↦ err (policy_drift recorded (policy_digest current))
        | some t ↦
            if not (t.from == recorded)
              || not (t.to == policy_digest current)
              || trim_space t.approver == ""
              || trim_space t.reason == ""
            then err transition_unbound
            else ok tt
      ]
