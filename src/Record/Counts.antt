-- ===== src/Record/Counts.antt =====
-- The revisions along a ledger (internal/core/record/record.go): each transition of a change counts up.
use specd_cli.Base.{
  ◌≡◌, refl, sym, ap, ◌∙◌, subst, ℕ, ◌+◌, String, false, Option, none, some, List, [], ◌∷◌, ◌++◌,
  ◌==◌, arith, eq_iff, ok, inl, inr, Bool-cases, Option-cases, is_some, if◌then◌else◌,
}
use Prim.Native.Nat.{◌^◌, ◌%◌}
use mathlib.Core.List.{append-nil}
use specd_cli.State.Replace.{Bytes}
use specd_cli.State.Defs.{count_up}
use specd_cli.Record.Types.{Record, Codec}
use specd_cli.Record.Replay.{replay}
use specd_cli.Record.Append.{prior_revision, first_some, breaks_chain}
use specd_cli.Record.Revisions.{validate_record-revisions}
use specd_cli.Record.Fits.{
  Fits, first_some_assoc, first_some-none, revision_for, prior_revision-snoc,
}
use specd_cli.Record.Lines.{FitAll}
use specd_cli.Record.Ledger.{append-cons, unbroken, replay-Reads}

abbrev expected_for : String → Record → Option ℕ
expected_for x r = if r.change == x then r.expected_revision else none

-- The revision that the change's first transition expects.
unfoldable pub first_expected : String → List Record → Option ℕ
first_expected x [] = none
first_expected x (r ∷ rs) = first_some (expected_for x r) (first_expected x rs)

-- The number of the change's transitions.
unfoldable pub transitions : String → List Record → ℕ
transitions x [] = 0
transitions x (r ∷ rs) = (if is_some (expected_for x r) then 1 else 0) + transitions x rs

abbrev pub counted : Option ℕ → ℕ → Option ℕ
counted none n = none
counted (some start) n = some ((start + n) % 2 ^ 64)

first_expected-snoc :
    (x : String) (front : List Record) (r : Record)
    → first_expected x (front ++ r ∷ []) ≡ first_some (first_expected x front) (expected_for x r)
unfolding first_expected
first_expected-snoc x [] r = first_some-none (expected_for x r)
first_expected-snoc x (f ∷ front) r =
    ap (first_some (expected_for x f)) (first_expected-snoc x front r)
    ∙ sym (first_some_assoc (expected_for x f) (first_expected x front) (expected_for x r))

transitions-snoc :
    (x : String) (front : List Record) (r : Record)
    → transitions x (front ++ r ∷ [])
      ≡ transitions x front + (if is_some (expected_for x r) then 1 else 0)
unfolding transitions
transitions-snoc x [] r = omega arith
transitions-snoc x (f ∷ front) r = omega (arith, transitions-snoc x front r)

first_some-is_none : (a b : Option ℕ) → first_some a b ≡ none → (a ≡ none) × (b ≡ none)
first_some-is_none none b h = (refl, h)
first_some-is_none (some a) b h = cc

none-transitions :
    (x : String) (rs : List Record) → first_expected x rs ≡ none → transitions x rs ≡ 0
unfolding first_expected transitions
none-transitions x [] h = refl
none-transitions x (r ∷ rs) h =
    let parts = first_some-is_none (expected_for x r) (first_expected x rs) h in
    rw (parts.0, none-transitions x rs parts.1) refl

count_up-counted : (s k : ℕ) → count_up ((s + k) % 2 ^ 64) ≡ (s + (k + 1)) % 2 ^ 64
unfolding count_up
count_up-counted s k = omega arith

abbrev Counts : String → List Record → Type 0
Counts x rs = prior_revision x rs ≡ counted (first_expected x rs) (transitions x rs)

module _ (x : String) (front : List Record) (r : Record) where
  Counts-of_parts :
      (expected resulting : Option ℕ)
      → expected_for x r ≡ expected
      → revision_for x r ≡ resulting
      → first_some resulting (prior_revision x front)
        ≡ counted
            (first_some (first_expected x front) expected)
            (transitions x front + (if is_some expected then 1 else 0))
      → Counts x (front ++ r ∷ [])
  Counts-of_parts expected resulting e v h =
      prior_revision-snoc x front r
      ∙ ap (λ o. first_some o (prior_revision x front)) v
      ∙ h
      ∙ sym (
          ap (λ o. counted o (transitions x (front ++ r ∷ []))) (first_expected-snoc x front r)
          ∙ ap (counted (first_some (first_expected x front) (expected_for x r)))
              (transitions-snoc x front r)
          ∙ ap
              (λ o.
                counted (first_some (first_expected x front) o)
                  (transitions x front + (if is_some o then 1 else 0)))
              e)

  Counts-quiet :
      Counts x front
      → expected_for x r ≡ none
      → revision_for x r ≡ none
      → Counts x (front ++ r ∷ [])
  Counts-quiet c e v = Counts-of_parts none none e v (
      c
      ∙ ap (λ o. counted o (transitions x front)) (sym (first_some-none (first_expected x front)))
      ∙ ap (counted (first_some (first_expected x front) none)) (omega arith))

  first_step :
      (before : ℕ)
      → first_expected x front ≡ none
      → some (count_up before)
        ≡ counted (first_some (first_expected x front) (some before)) (transitions x front + 1)
  unfolding count_up
  first_step before e = rw (e, none-transitions x front e) refl

  next_step :
      (before start : ℕ)
      → Counts x front
      → breaks_chain (some before) (prior_revision x front) ≡ false
      → first_expected x front ≡ some start
      → some (count_up before)
        ≡ counted (first_some (first_expected x front) (some before)) (transitions x front + 1)
  next_step before start c f e =
      let here =
        unbroken before ((start + transitions x front) % 2 ^ 64) (some before)
          (prior_revision x front) f refl (c ∙ ap (λ o. counted o (transitions x front)) e) in
      ap (λ n. some (count_up n)) here
      ∙ ap some (count_up-counted start (transitions x front))
      ∙ ap (λ o. counted (first_some o (some before)) (transitions x front + 1)) (sym e)

  Counts-snoc :
      (codec : Codec) (family : String)
      → Counts x front
      → Fits codec family front r
      → Counts x (front ++ r ∷ [])
  Counts-snoc codec family c f = elim (Bool-cases (r.change == x)) [
    | inr m ↦ Counts-quiet c (rw m refl) (rw m refl)
    | inl m ↦ elim (validate_record-revisions codec r f.valid) [
      | inr (e, v) ↦ Counts-quiet c (rw (m, e) refl) (rw (m, v) refl)
      | inl s ↦
          let follows : breaks_chain (some s.before) (prior_revision x front) ≡ false =
            sym (ap (λ o. breaks_chain o (prior_revision x front)) s.expected)
            ∙ sym (
                ap (λ c. breaks_chain r.expected_revision (prior_revision c front))
                  ((eq_iff r.change x).0 m))
            ∙ f.follows in
          Counts-of_parts (some s.before) (some (count_up s.before)) (rw (m, s.expected) refl)
            (rw (m, s.resulting) refl)
            (elim (Option-cases (first_expected x front)) [
              | inl e ↦ first_step s.before e
              | inr (start, e) ↦ next_step s.before start c follows e
            ])
    ]
  ]

FitAll-Counts :
    (codec : Codec) (family x : String) (front records : List Record)
    → Counts x front
    → FitAll codec family front records
    → Counts x (front ++ records)
FitAll-Counts codec family x front [] c f = subst (Counts x) (sym (append-nil front)) c
FitAll-Counts codec family x front (r ∷ rs) c f = subst (Counts x) (append-cons front rs r) (
    FitAll-Counts codec family x (front ++ r ∷ []) rs (Counts-snoc x front r codec family c f.0)
      f.1)

-- In a ledger that `replay` accepts, the revision that a change has reached is the one its first
-- transition expects plus the number of its transitions, on words of 64 bits; a change without a
-- transition has none.
pub replay-counts :
    (codec : Codec) (family : String) (raw : Bytes) (records : List Record) (torn : Option ℕ)
    (x : String)
    → replay codec family raw ≡ ok (records, torn)
    → prior_revision x records ≡ counted (first_expected x records) (transitions x records)
unfolding prior_revision first_expected transitions
replay-counts codec family raw records torn x h =
    FitAll-Counts codec family x [] records refl (replay-Reads codec family raw records torn h).fit
