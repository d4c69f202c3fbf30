-- ===== src/Record/Fits.antt =====
-- When a turn of the loop of `replay` (internal/core/record/record.go) takes its line.
use specd_cli.Base.{
  ◌≡◌, refl, sym, ap, ◌∙◌, inl, inr, ℕ, String, true, false, ◌||◌, Option, none, some, List, [],
  ◌∷◌, ◌++◌, ◌==◌, arith, refuse_if, ◌>>◌, >>-eq-ok, refuse_if-eq-ok, not, subst, ok_injective, ok,
  contains, Outcome-cases, Bool-cases, if◌then◌else◌, eq_iff,
}
use specd_cli.State.Replace.{Bytes}
use specd_cli.State.Defs.{count_up, refused_as-eq-ok}
use specd_cli.Record.Types.{Record, Codec}
use specd_cli.Record.Defs.{no_bytes, decode_with, validate_record}
use specd_cli.Record.Replay.{
  Chains, line_family, line_invalid, duplicate_line, chain_of, next_chains, gap_line, judge_record,
  replay_line,
}
use specd_cli.Record.Append.{has_id, prior_revision, breaks_chain, first_some}
use specd_cli.Record.Revisions.{validate_record-revisions}

-- The record may follow the ledger `front`.
pub record Fits (codec : Codec) (family : String) (front : List Record) (r : Record) : Type 0 where
  pub valid : validate_record codec r ≡ ok tt
  pub same_family : r.family ≡ family
  pub fresh : has_id r.id front ≡ false
  pub follows : breaks_chain r.expected_revision (prior_revision r.change front) ≡ false

-- What the loop holds after the records `front`.
pub record Holds (front : List Record) (ids : List String) (chains : Chains) : Type 0 where
  pub same_ids : (x : String) → contains ids x ≡ has_id x front
  pub same_chains : (x : String) → chain_of chains x ≡ prior_revision x front

has_id-snoc :
    (x : String) (front : List Record) (r : Record)
    → has_id x (front ++ r ∷ []) ≡ (r.id == x || has_id x front)
has_id-snoc x [] r = refl
has_id-snoc x (f ∷ front) r = ground (arith, has_id-snoc x front r)

pub first_some_assoc {ℓ} :
    {A : Type ℓ} (a b c : Option A) → first_some (first_some a b) c ≡ first_some a (first_some b c)
first_some_assoc none b c = refl
first_some_assoc (some a) b c = refl

pub first_some-none {ℓ} : {A : Type ℓ} (a : Option A) → first_some a none ≡ a
first_some-none none = refl
first_some-none (some a) = refl

abbrev pub revision_for : String → Record → Option ℕ
revision_for x r = if r.change == x then r.resulting_revision else none

pub prior_revision-append :
    (x : String) (front back : List Record)
    → prior_revision x (front ++ back) ≡ first_some (prior_revision x back) (prior_revision x front)
unfolding prior_revision
prior_revision-append x [] back = sym (first_some-none (prior_revision x back))
prior_revision-append x (f ∷ front) back =
    ap (λ o. first_some o (revision_for x f)) (prior_revision-append x front back)
    ∙ first_some_assoc (prior_revision x back) (prior_revision x front) (revision_for x f)

pub prior_revision-snoc :
    (x : String) (front : List Record) (r : Record)
    → prior_revision x (front ++ r ∷ []) ≡ first_some (revision_for x r) (prior_revision x front)
unfolding prior_revision
prior_revision-snoc x front r = prior_revision-append x front (r ∷ [])

pub no_revision :
    (r : Record) (x : String) {before : Option ℕ}
    → r.resulting_revision ≡ none
    → before ≡ first_some (revision_for x r) before
no_revision r x e = elim (Bool-cases (r.change == x)) [ inl m ↦ rw (m, e) refl | inr m ↦ rw m refl ]

pub start-Holds : Holds [] [] []
unfolding contains chain_of prior_revision
start-Holds = record { same_ids = λ x. refl; same_chains = λ x. refl }

module _ (codec : Codec) (family : String) (front : List Record) (ids : List String)
    (chains : Chains) (k : Holds front ids chains) (number : ℕ) where
  -- The chains after a record that carries `before` and `after`, or no revision.
  chains-after :
      (r : Record) (before after : ℕ)
      → r.resulting_revision ≡ some after
      → (x : String) → chain_of ((r.change, after) ∷ chains) x ≡ prior_revision x (front ++ r ∷ [])
  unfolding chain_of
  chains-after r before after e x =
      (elim (Bool-cases (r.change == x)) [
        | inl m ↦ rw (m, e) refl
        | inr m ↦ rw (m) (k.same_chains x)
      ])
      ∙ sym (prior_revision-snoc x front r)

  chains-rest :
      (r : Record)
      → r.resulting_revision ≡ none
      → (x : String) → chain_of chains x ≡ prior_revision x (front ++ r ∷ [])
  chains-rest r e x = k.same_chains x ∙ no_revision r x e ∙ sym (prior_revision-snoc x front r)

  next_chains-moving :
      (r : Record) (before after : ℕ)
      → r.expected_revision ≡ some before
      → r.resulting_revision ≡ some after
      → next_chains number chains r ≡ (
          refuse_if
            (breaks_chain r.expected_revision (prior_revision r.change front))
            (gap_line number)
          >> ok ((r.change, after) ∷ chains))
  unfolding next_chains
  next_chains-moving r before after e f = rw (e, f, sym (k.same_chains r.change)) refl

  next_chains-resting :
      (r : Record) → r.expected_revision ≡ none → next_chains number chains r ≡ ok chains
  unfolding next_chains
  next_chains-resting r e = rw e refl

  next_chains-Holds :
      (r : Record) (chains' : Chains)
      → validate_record codec r ≡ ok tt
      → next_chains number chains r ≡ ok chains'
      → (breaks_chain r.expected_revision (prior_revision r.change front) ≡ false)
        × ((x : String) → chain_of chains' x ≡ prior_revision x (front ++ r ∷ []))
  next_chains-Holds r chains' v h = elim (validate_record-revisions codec r v) [
    | inl s ↦
        let taken =
          >>-eq-ok
            (refuse_if (breaks_chain r.expected_revision (prior_revision r.change front))
              (gap_line number))
            _
            (sym (next_chains-moving r s.before (count_up s.before) s.expected s.resulting) ∙ h) in
        (
          ground (arith, taken.0),
          λ x.
              ap (λ c. chain_of c x) (ok_injective refl (sym taken.1))
              ∙ chains-after r s.before (count_up s.before) s.resulting x,
        )
    | inr (e, f) ↦ (
      rw e refl,
      λ x. ap (λ c. chain_of c x) (ok_injective h (next_chains-resting r e)) ∙ chains-rest r f x,
    )
  ]

  next_chains-total :
      (r : Record)
      → validate_record codec r ≡ ok tt
      → breaks_chain r.expected_revision (prior_revision r.change front) ≡ false
      → (chains' : Chains) × (next_chains number chains r ≡ ok chains')
  next_chains-total r v h = elim (validate_record-revisions codec r v) [
    | inl s ↦ (
      (r.change, count_up s.before) ∷ chains,
      next_chains-moving r s.before (count_up s.before) s.expected s.resulting ∙ rw h refl,
    )
    | inr (e, f) ↦ (chains, next_chains-resting r e)
  ]

  pub judge-Fits :
      (r : Record) (chains' : Chains)
      → judge_record codec family number ids chains r ≡ ok chains'
      → Fits codec family front r × Holds (front ++ r ∷ []) (r.id ∷ ids) chains'
  unfolding judge_record contains
  judge-Fits r chains' h =
      let a = >>-eq-ok _ _ h in
      let b = refuse_if-eq-ok (not (r.family == family)) (line_family number) _ a.1 in
      let c = refuse_if-eq-ok (contains ids r.id) (duplicate_line number) _ b.1 in
      let valid = refused_as-eq-ok (line_invalid number) (validate_record codec r) a.0 in
      let follows = next_chains-Holds r chains' valid c.1 in
      (
        record {
          valid = valid;
          same_family = ground (arith, b.0, eq_iff r.family family);
          fresh = ground (arith, c.0, k.same_ids r.id);
          follows = follows.0;
        },
        record {
          same_ids = λ x. ground (arith, k.same_ids x, has_id-snoc x front r);
          same_chains = follows.1;
        },
      )

  pub judge-of_Fits :
      (r : Record)
      → Fits codec family front r
      → (chains' : Chains) × (judge_record codec family number ids chains r ≡ ok chains')
  unfolding judge_record
  judge-of_Fits r f =
      let (chains', done) = next_chains-total r f.valid f.follows in
      let same : (r.family == family) ≡ true = (eq_iff r.family family).1 f.same_family in
      (chains', rw (f.valid, same, k.same_ids r.id, f.fresh, done) refl)

module _ (codec : Codec) (family : String) (number : ℕ) (ids : List String) (chains : Chains) where
  pub replay_line-parts :
      (line : Bytes) (r : Record) (chains' : Chains)
      → replay_line codec family number ids chains line ≡ ok (r, chains')
      → (no_bytes line ≡ false)
        × (decode_with codec codec.unmarshal_record line ≡ ok r)
        × (judge_record codec family number ids chains r ≡ ok chains')
  unfolding replay_line
  replay_line-parts line r chains' h =
      elim (Outcome-cases (decode_with codec codec.unmarshal_record line)) [
        | inr (e, refused) ↦ absurd (ground (arith, refused, h))
        | inl (found, decoded) ↦
            elim (Outcome-cases (judge_record codec family number ids chains found)) [
              | inr (e, refused) ↦ absurd (ground (arith, decoded, refused, h))
              | inl (c, judged) ↦ elim (Bool-cases (no_bytes line)) [
                | inl empty ↦ absurd (ground (arith, h))
                | inr full ↦
                    let same : (found, c) ≡ (r, chains') =
                      ok_injective (rw (full, decoded, judged) refl) h in
                    (
                      full,
                      decoded ∙ ap (λ p. ok (p.0)) same,
                      subst
                          (λ (p : Record × Chains).
                            judge_record codec family number ids chains p.0 ≡ ok p.1)
                          same judged,
                    )
              ]
            ]
      ]

  pub replay_line-of_parts :
      (line : Bytes) (r : Record) (chains' : Chains)
      → no_bytes line ≡ false
      → decode_with codec codec.unmarshal_record line ≡ ok r
      → judge_record codec family number ids chains r ≡ ok chains'
      → replay_line codec family number ids chains line ≡ ok (r, chains')
  unfolding replay_line
  replay_line-of_parts line r chains' e d j = rw (e, d, j) refl
