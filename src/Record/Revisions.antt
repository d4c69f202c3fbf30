-- ===== src/Record/Revisions.antt =====
-- What the validation of internal/core/record/record.go says of the revisions of a record.
use specd_cli.Base.{
  ◌≡◌, refl, ap, ◌∙◌, Outcome-cases, ◌⊎◌, inl, inr, ℕ, String, Bool, true, false, ◌||◌, Option,
  none, some, ◌==◌, eq_iff, arith, ok, >>-eq-ok, Bool-cases, is_some,
}
use specd_cli.State.Defs.{count_up}
use specd_cli.Record.Types.{Record, Codec}
use specd_cli.Record.Defs.{
  is_transition, is_value, steps_forward, validate_family_kind, check_payload, record_identity,
  check_identity, validate_record,
}

abbrev pub moves : String → Bool
moves kind = kind == "created" || is_transition kind

module _ (codec : Codec) (r : Record) where
  identity_is : check_identity codec r ≡ ok tt → record_identity codec r ≡ ok r.id
  unfolding check_identity
  identity_is h = elim (Outcome-cases (record_identity codec r)) [
    | inr (e, refused) ↦ absurd (ground (arith, refused))
    | inl (want, done) ↦ done ∙ ap ok (ground (arith, done, eq_iff r.id want))
  ]

  pub validate_record-parts :
      validate_record codec r ≡ ok tt
      → (validate_family_kind r ≡ ok tt)
        × (check_payload codec r ≡ ok tt)
        × (record_identity codec r ≡ ok r.id)
  unfolding validate_record
  validate_record-parts h =
      let a = >>-eq-ok _ _ h in
      let b = >>-eq-ok _ _ a.1 in
      let c = >>-eq-ok _ _ b.1 in
      let d = >>-eq-ok _ _ c.1 in
      let e = >>-eq-ok _ _ d.1 in let f = >>-eq-ok _ _ e.1 in (c.0, f.0, identity_is f.1)

-- The revisions that a record carries: none, or a step forward by one on words of 64 bits.
pub record Steps (r : Record) : Type 0 where
  pub before : ℕ
  pub expected : r.expected_revision ≡ some before
  pub resulting : r.resulting_revision ≡ some (count_up before)

Steps-of_forward :
    (r : Record) (a b : Option ℕ)
    → r.expected_revision ≡ a
    → r.resulting_revision ≡ b
    → steps_forward a b ≡ true
    → Steps r
Steps-of_forward r none b e f h = cc
Steps-of_forward r (some a) none e f h = cc
Steps-of_forward r (some a) (some b) e f h = record {
  before = a;
  expected = e;
  resulting = f ∙ ap some (ground arith);
}

pub is_value_iff : (o : Option ℕ) (n : ℕ) → is_value o n ≡ true → o ≡ some n
is_value_iff none n h = cc
is_value_iff (some m) n h = ap some (ground arith)

none-of_is_some : (o : Option ℕ) → is_some o ≡ false → o ≡ none
none-of_is_some none h = refl
none-of_is_some (some m) h = cc

moves_not :
    (kind other : String) → moves kind ≡ true → moves other ≡ false → (kind == other) ≡ false
moves_not kind other h n = elim (Bool-cases (kind == other)) [
  | inl e ↦ cc (h, n, ap moves ((eq_iff kind other).0 e))
  | inr e ↦ e
]

one_follows : steps_forward (some 0) (some 1) ≡ true
unfolding count_up
one_follows = refl

family_kind-moves : (r : Record) → validate_family_kind r ≡ ok tt → moves r.kind ≡ true → Steps r
unfolding validate_family_kind
family_kind-moves r h m =
    let friction = moves_not r.kind "friction" m refl in
    let observed = moves_not r.kind "observed" m refl in
    elim (Bool-cases (r.kind == "created")) [
      | inl c ↦
          Steps-of_forward r (some 0) (some 1)
            (is_value_iff r.expected_revision 0 (ground (arith, h)))
            (is_value_iff r.resulting_revision 1 (ground (arith, h))) one_follows
      | inr c ↦
          Steps-of_forward r r.expected_revision r.resulting_revision refl refl (ground (arith, h))
    ]

family_kind-rests :
    (r : Record)
    → validate_family_kind r ≡ ok tt
    → moves r.kind ≡ false
    → (r.expected_revision ≡ none) × (r.resulting_revision ≡ none)
unfolding validate_family_kind
family_kind-rests r h m = (
  none-of_is_some r.expected_revision (ground (arith, h)),
  none-of_is_some r.resulting_revision (ground (arith, h)),
)

-- A record that validates and whose kind moves the change carries its revision and the one after it;
-- any other carries none.
pub validate_record-Steps :
    (codec : Codec) (r : Record)
    → validate_record codec r ≡ ok tt
    → (moves r.kind ≡ true → Steps r)
      × (moves r.kind ≡ false → (r.expected_revision ≡ none) × (r.resulting_revision ≡ none))
validate_record-Steps codec r h =
    let fits = (validate_record-parts codec r h).0 in
    (family_kind-moves r fits, family_kind-rests r fits)

pub validate_record-revisions :
    (codec : Codec) (r : Record)
    → validate_record codec r ≡ ok tt
    → Steps r ⊎ ((r.expected_revision ≡ none) × (r.resulting_revision ≡ none))
validate_record-revisions codec r h = elim (Bool-cases (moves r.kind)) [
  | inl m ↦ inl ((validate_record-Steps codec r h).0 m)
  | inr m ↦ inr ((validate_record-Steps codec r h).1 m)
]
