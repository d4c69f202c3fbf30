-- ===== src/Record/Ledger.antt =====
-- What the records that `replay` (internal/core/record/record.go) gives have in common.
use specd_cli.Base.{
  ◌≡◌, refl, sym, ap, ◌∙◌, ℕ, ◌+◌, String, true, false, not, ◌&&◌, ◌||◌, Option, none, some, List,
  [], ◌∷◌, ◌++◌, ◌==◌, eq_iff, arith, All, distinct, distinct-snoc, contains, ok, Outcome-cases,
  refuse_if-eq-ok, ok_injective, some_injective, inl, inr, subst, length,
}
use mathlib.Core.List.{append-nil}
use specd_cli.State.Replace.{Bytes}
use specd_cli.Record.Types.{Record, Codec}
use specd_cli.Record.Defs.{no_bytes, validate_record}
use specd_cli.Record.Replay.{lacks_newline, cut_lines, torn_line, replay_lines, replay}
use specd_cli.Record.Append.{has_id, prior_revision, breaks_chain}
use specd_cli.Record.Fits.{Fits, start-Holds, prior_revision-append}
use specd_cli.Record.Lines.{FitAll, DecodeAll, replay_lines-reads, replay_lines-takes}

-- How the bytes of a ledger are read as its records.
pub record Reads (codec : Codec) (family : String) (raw : Bytes) (records : List Record)
    (torn : Option ℕ) : Type 0 where
  pub no_json_tail : (not (no_bytes (cut_lines raw).1) && codec.is_json (cut_lines raw).1) ≡ false
  pub lines : DecodeAll codec (cut_lines raw).0 records
  pub fit : FitAll codec family [] records
  pub tail : torn ≡ torn_line (cut_lines raw)

module _ (codec : Codec) (family : String) (raw : Bytes) where
  pub replay-of_Reads :
      (records : List Record) (torn : Option ℕ)
      → Reads codec family raw records torn
      → replay codec family raw ≡ ok (records, torn)
  unfolding replay
  replay-of_Reads records torn k =
      let read =
        replay_lines-takes codec family 1 [] [] [] (cut_lines raw).0 records start-Holds k.lines
          k.fit in
      rw (k.no_json_tail, read, k.tail) refl

  pub replay-Reads :
      (records : List Record) (torn : Option ℕ)
      → replay codec family raw ≡ ok (records, torn)
      → Reads codec family raw records torn
  unfolding replay
  replay-Reads records torn h =
      let a =
        refuse_if-eq-ok (not (no_bytes (cut_lines raw).1) && codec.is_json (cut_lines raw).1)
          (lacks_newline (length (cut_lines raw).0 + 1)) _ h in
      elim (Outcome-cases (replay_lines codec family 1 [] [] (cut_lines raw).0)) [
        | inr (e, refused) ↦ absurd (ground (arith, refused, h))
        | inl (found, done) ↦
            let same : (found, torn_line (cut_lines raw)) ≡ (records, torn) =
              ok_injective (rw (a.0, done) refl) h in
            let read =
              replay_lines-reads codec family 1 [] [] [] (cut_lines raw).0 found start-Holds done in
            record {
              no_json_tail = a.0;
              lines =
                  subst (λ rs. DecodeAll codec (cut_lines raw).0 rs) (ap (λ p. p.0) same) read.0;
              fit = subst (λ rs. FitAll codec family [] rs) (ap (λ p. p.0) same) read.1;
              tail = sym (ap (λ (p : List Record × Option ℕ). p.1) same);
            }
      ]

abbrev pub ids_of : List Record → List String
ids_of [] = []
ids_of (r ∷ rs) = r.id ∷ ids_of rs

-- A ledger of one family: its records validate, no two share an id, and a record expects the revision
-- that the change's latest transition before it gave.
pub record IsLedger (codec : Codec) (family : String) (records : List Record) : Type 0 where
  pub valid : All (λ r. (validate_record codec r ≡ ok tt) × (r.family ≡ family)) records
  pub ids : distinct (ids_of records) ≡ true
  pub contiguous :
      (front mid back : List Record) (a b : Record) (given expected : ℕ)
      → records ≡ front ++ a ∷ mid ++ b ∷ back
      → a.change ≡ b.change
      → a.resulting_revision ≡ some given
      → b.expected_revision ≡ some expected
      → prior_revision b.change mid ≡ none
      → expected ≡ given

pub append-cons :
    (front back : List Record) (r : Record) → (front ++ r ∷ []) ++ back ≡ front ++ r ∷ back
append-cons [] back r = refl
append-cons (f ∷ front) back r = ap (λ rs. f ∷ rs) (append-cons front back r)

has_id-ids_of : (x : String) (rs : List Record) → contains (ids_of rs) x ≡ has_id x rs
unfolding contains
has_id-ids_of x [] = refl
has_id-ids_of x (r ∷ rs) = ap (λ b. r.id == x || b) (has_id-ids_of x rs)

ids_of-snoc : (rs : List Record) (r : Record) → ids_of (rs ++ r ∷ []) ≡ ids_of rs ++ r.id ∷ []
ids_of-snoc [] r = refl
ids_of-snoc (f ∷ rs) r = ap (λ ids. f.id ∷ ids) (ids_of-snoc rs r)

pub unbroken :
    (expected given : ℕ) (o p : Option ℕ)
    → breaks_chain o p ≡ false
    → o ≡ some expected
    → p ≡ some given
    → expected ≡ given
unbroken expected given o none h e q = cc
unbroken expected given none (some p) h e q = cc
unbroken expected given (some o) (some p) h e q =
    sym (some_injective e) ∙ (ground (arith, h) ∙ some_injective q)

module _ (codec : Codec) (family : String) where
  FitAll-valid :
      (front records : List Record)
      → FitAll codec family front records
      → All (λ r. (validate_record codec r ≡ ok tt) × (r.family ≡ family)) records
  FitAll-valid front [] f = tt
  FitAll-valid front (r ∷ rs) f =
      ((f.0.valid, f.0.same_family), FitAll-valid (front ++ r ∷ []) rs f.1)

  FitAll-distinct :
      (front records : List Record)
      → FitAll codec family front records
      → distinct (ids_of front) ≡ true
      → distinct (ids_of (front ++ records)) ≡ true
  FitAll-distinct front [] f d = subst (λ l. distinct (ids_of l) ≡ true) (sym (append-nil front)) d
  FitAll-distinct front (r ∷ rs) f d =
      subst (λ l. distinct (ids_of l) ≡ true) (append-cons front rs r)
        (FitAll-distinct (front ++ r ∷ []) rs f.1 (
          ap distinct (ids_of-snoc front r)
          ∙ distinct-snoc (ids_of front) r.id d (has_id-ids_of r.id front ∙ f.0.fresh)))

  pub FitAll-at :
      (done front back : List Record) (r : Record)
      → FitAll codec family done (front ++ r ∷ back)
      → Fits codec family (done ++ front) r
  FitAll-at done [] back r f = subst (λ l. Fits codec family l r) (sym (append-nil done)) f.0
  FitAll-at done (x ∷ front) back r f =
      subst (λ l. Fits codec family l r) (append-cons done front x)
        (FitAll-at (done ++ x ∷ []) front back r f.1)

  prior-after :
      (front mid : List Record) (a b : Record) (given : ℕ)
      → a.change ≡ b.change
      → a.resulting_revision ≡ some given
      → prior_revision b.change mid ≡ none
      → prior_revision b.change (front ++ a ∷ mid) ≡ some given
  unfolding prior_revision
  prior-after front mid a b given same e h =
      let here : (a.change == b.change) ≡ true = (eq_iff a.change b.change).1 same in
      prior_revision-append b.change front (a ∷ mid) ∙ rw (h, here, e) refl

  pub FitAll-IsLedger :
      (records : List Record) → FitAll codec family [] records → IsLedger codec family records
  unfolding distinct
  FitAll-IsLedger records f = record {
    valid = FitAll-valid [] records f;
    ids = FitAll-distinct [] records f refl;
    contiguous = λ front mid back a b given expected split same given_is expected_is quiet.
        let at =
          FitAll-at [] (front ++ a ∷ mid) back b (subst (λ l. FitAll codec family [] l) split f) in
        let prior = prior-after front mid a b given same given_is quiet in
        unbroken expected given b.expected_revision (prior_revision b.change (front ++ a ∷ mid))
          at.follows expected_is prior;
  }

-- Whatever bytes a ledger holds, when `replay` accepts them its records form a ledger of the family.
pub replay-IsLedger :
    (codec : Codec) (family : String) (raw : Bytes) (records : List Record) (torn : Option ℕ)
    → replay codec family raw ≡ ok (records, torn)
    → IsLedger codec family records
replay-IsLedger codec family raw records torn h =
    FitAll-IsLedger codec family records (replay-Reads codec family raw records torn h).fit
