-- ===== src/Policy/Laws.antt =====
-- When a policy is valid, and when it may change: internal/core/policy.go.
use Prim.Native.String as Text
use specd_cli.Base.{
  Bool, List, [], ◌∷◌, ◌++◌, map, All, insert_text, ◌∙◌, String, ◌≡◌, ◌≢◌, refl, sym, subst, ◌⊎◌,
  inl, inr, ◌↔◌, true, false, Option, none, some, ◌==◌, trim_space, sort_texts, is_ok, arith,
  eq_iff, Bool-cases,
}
use specd_cli.Evidence.Defs.{class_test_run}
use specd_cli.Evidence.Production.{RequiredCheck, valid_check}
use specd_cli.Policy.Defs.{
  Policy, PolicyTransition, validate_policy, production, rules, check_required_checks,
  policy_digest, check_policy_transition, rule_if, no_rules, check_text,
}

no_rules-insert_text : (x : String) (xs : List String) → no_rules (insert_text x xs) ≡ false
unfolding insert_text
no_rules-insert_text x [] = refl
no_rules-insert_text x (y ∷ ys) = ground arith

no_rules-sort_texts : (xs : List String) → no_rules (sort_texts xs) ≡ no_rules xs
unfolding sort_texts
no_rules-sort_texts [] = refl
no_rules-sort_texts (x ∷ xs) = no_rules-insert_text x (sort_texts xs)

-- No rule is on, and no check is required.
abbrev pub HasNothing : Policy → Type 0
HasNothing p =
    (p.full_design ≡ false)
    × (p.bidirectional_trace ≡ false)
    × (p.acceptance_reach ≡ false)
    × (p.required_checks ≡ [])

lists-HasNothing :
    (f b a : Bool) (checks : List RequiredCheck)
    → no_rules (
        rule_if f "rule=full-design"
        ++ rule_if b "rule=bidirectional-trace"
        ++ rule_if a "rule=acceptance-reach"
        ++ map (λ check. Text.◌++◌ "check=" (check_text check)) checks)
      ≡ true
    → (f ≡ false) × (b ≡ false) × (a ≡ false) × (checks ≡ [])
lists-HasNothing false false false [] h = (refl, refl, refl, refl)
lists-HasNothing false false false (check ∷ checks) h = cc
lists-HasNothing false false true checks h = cc
lists-HasNothing false true a checks h = cc
lists-HasNothing true b a checks h = cc

rules-HasNothing : (p : Policy) → no_rules (rules p) ≡ true → HasNothing p
unfolding rules
rules-HasNothing p h =
    lists-HasNothing p.full_design p.bidirectional_trace p.acceptance_reach p.required_checks
      (sym (no_rules-sort_texts _) ∙ h)

HasNothing-rules : (p : Policy) → HasNothing p → no_rules (rules p) ≡ true
unfolding rules
HasNothing-rules p (f, b, a, none_required) =
    no_rules-sort_texts _ ∙ rw (f, b, a, none_required) refl

-- A check that production may require
abbrev pub IsRequirable : RequiredCheck → Type 0
IsRequirable check = (valid_check check ≡ true) × (check.class ≢ class_test_run)

checks-IsRequirable :
    (checks : List RequiredCheck)
    → is_ok (check_required_checks checks) ≡ true
    → All IsRequirable checks
unfolding check_required_checks
checks-IsRequirable [] h = tt
checks-IsRequirable (check ∷ checks) h = (
  (ground (arith, h), λ e. ground (arith, h, (eq_iff check.class class_test_run).1 e)),
  checks-IsRequirable checks (ground (arith, h)),
)

IsRequirable-checks :
    (checks : List RequiredCheck)
    → All IsRequirable checks
    → is_ok (check_required_checks checks) ≡ true
unfolding check_required_checks
IsRequirable-checks [] all = refl
IsRequirable-checks (check ∷ checks) ((fits, other), all) =
    let rest = IsRequirable-checks checks all in
    let not_run : (check.class == class_test_run) ≡ false =
      elim (Bool-cases (check.class == class_test_run)) [
        | inl e ↦ absurd (other ((eq_iff check.class class_test_run).0 e))
        | inr e ↦ e
      ] in
    rw (fits, not_run) rest

-- A policy is valid exactly when its profile is default, no rule of it is on and it requires no check,
-- or its profile is production and each check that it requires is a known one and no test run.
pub validate_policy_iff :
    (p : Policy)
    → (is_ok (validate_policy p) ≡ true) ↔ (
        ((p.profile ≡ "default") × HasNothing p)
        ⊎ ((p.profile ≡ "production") × All IsRequirable p.required_checks))
unfolding validate_policy production
validate_policy_iff p = elim (Bool-cases (p.profile == "production")) [
  | inl e ↦
      let is = (eq_iff p.profile "production").0 e in
      (
        λ h. inr (is, checks-IsRequirable p.required_checks (ground (arith, h, e))),
        λ h. elim h [
          | inl (d, nothing) ↦ cc (is, d)
          | inr (q, all) ↦ ground (arith, e, IsRequirable-checks p.required_checks all)
        ],
      )
  | inr e ↦ (
    λ h. inl (
      (eq_iff p.profile "default").0 (ground (arith, h, e)),
      rules-HasNothing p (ground (arith, h, e)),
    ),
    λ h. elim h [
      | inl (d, nothing) ↦
          let default = (eq_iff p.profile "default").1 d in
          let no_checks : is_ok (check_required_checks p.required_checks) ≡ true =
            IsRequirable-checks p.required_checks (subst (All IsRequirable) (sym nothing.3) tt) in
          ground (arith, e, default, HasNothing-rules p nothing, no_checks)
      | inr (q, all) ↦ absurd (ground (arith, e, (eq_iff p.profile "production").1 q))
    ],
  )
]

module _ (hash : String → String) where
  abbrev pub IsBinding : String → Policy → PolicyTransition → Type 0
  IsBinding recorded current t =
      (t.from ≡ recorded)
      × (t.to ≡ policy_digest hash current)
      × (trim_space t.approver ≢ "")
      × (trim_space t.reason ≢ "")

  passes :
      (recorded : String) (current : Policy) (transition : Option PolicyTransition)
      → recorded == policy_digest hash current ≡ false
      → is_ok (check_policy_transition hash recorded current transition) ≡ true
      → (t : PolicyTransition) × (transition ≡ some t) × IsBinding recorded current t
  unfolding check_policy_transition
  passes recorded current none moved h = absurd (ground (arith, moved))
  passes recorded current (some t) moved h = (
    t,
    refl,
    (
      (eq_iff t.from recorded).0 (ground (arith, moved)),
      (eq_iff t.to (policy_digest hash current)).0 (ground (arith, moved)),
      λ e. ground (arith, moved, (eq_iff (trim_space t.approver) "").1 e),
      λ e. ground (arith, moved, (eq_iff (trim_space t.reason) "").1 e),
    ),
  )

  accepts :
      (recorded : String) (current : Policy) (transition : Option PolicyTransition)
      (t : PolicyTransition)
      → transition ≡ some t
      → IsBinding recorded current t
      → is_ok (check_policy_transition hash recorded current transition) ≡ true
  unfolding check_policy_transition
  accepts recorded current none t is bound = cc
  accepts recorded current (some u) t is bound =
      let same : u ≡ t = ground arith in
      subst (λ w. is_ok (check_policy_transition hash recorded current (some w)) ≡ true) (sym same)
        (ground (
          arith,
          (eq_iff t.from recorded).1 bound.0,
          (eq_iff t.to (policy_digest hash current)).1 bound.1,
          (eq_iff (trim_space t.approver) "").0,
          (eq_iff (trim_space t.reason) "").0,
          bound.2,
          bound.3,
        ))

  -- Work that is bound to a policy digest goes on under the current policy exactly where the digests
  -- agree, or a transition is recorded from the one to the other with an approver and a reason that
  -- are not blank.
  pub check_policy_transition_iff :
      (recorded : String) (current : Policy) (transition : Option PolicyTransition)
      → (is_ok (check_policy_transition hash recorded current transition) ≡ true) ↔ (
          (recorded ≡ policy_digest hash current)
          ⊎ ((t : PolicyTransition) × (transition ≡ some t) × IsBinding recorded current t))
  unfolding check_policy_transition
  check_policy_transition_iff recorded current transition =
      let target = policy_digest hash current in
      elim (Bool-cases (recorded == target)) [
        | inl same ↦ (λ h. inl ((eq_iff recorded target).0 same), λ h. ground (arith, same))
        | inr moved ↦ (
          λ h. inr (passes recorded current transition moved h),
          λ h. elim h [
            | inl same ↦ absurd (ground (arith, moved, (eq_iff recorded target).1 same))
            | inr (t, is, bound) ↦ accepts recorded current transition t is bound
          ],
        )
      ]
