-- ===== src/Transaction/Current.antt =====
-- The check of the current bytes in `commitLocked` (internal/core/transaction/transaction.go).
use specd_cli.Base.{
  ◌≡◌, refl, sym, ap, ◌∙◌, subst, ◌⊎◌, inl, inr, ℕ, zero, suc, String, Bool, true, false, Option,
  some, List, [], ◌∷◌, ◌==◌, eq_iff, arith, Bool-cases, ok, Outcome-cases, ok_injective,
  some_injective,
}
use specd_cli.State.Replace.{Bytes}
use specd_cli.Transaction.Types.{Output, Place, Call, Outside, Store}
use specd_cli.Transaction.Apply.{resolve, read_target}
use specd_cli.Transaction.Commit.{check_current}
use specd_cli.Transaction.Recoverable.{nth, digest_of, Settled}
use specd_cli.Transaction.Turn.{resolve-same, read_target-digest}

-- What the check of the current bytes found: each output holds its old or its new bytes.
abbrev pub Status : Outside → Store → Output → Type 0
Status outside s o =
    Settled outside.codec.sha256_hex s o
    ⊎ (digest_of outside.codec.sha256_hex (s.nodes o.path) ≡ some o.before)

abbrev pub Checked : Outside → Store → List Output → Type 0
Checked outside s outputs = (i : ℕ) (o : Output) → nth i outputs ≡ some o → Status outside s o

all-cons {ℓ} :
    (P : Output → Type ℓ) (o : Output) (outputs : List Output)
    → P o
    → ((i : ℕ) (q : Output) → nth i outputs ≡ some q → P q)
    → (i : ℕ) (q : Output) → nth i (o ∷ outputs) ≡ some q
    → P q
all-cons P o outputs p rest zero q h = subst P (some_injective h) p
all-cons P o outputs p rest (suc i) q h = rest i q h

module _ (outside : Outside) (fails : Call → Bool) (partial : Place → Option Bytes)
    (s : Store) where
  -- The bytes that the loop reads of an output
  read-digest :
      (o : Output) (target current : String)
      → resolve outside fails o.path ≡ ok target
      → read_target outside fails s target ≡ ok current
      → digest_of outside.codec.sha256_hex (s.nodes o.path) ≡ some current
  read-digest o target current r h =
      ap (λ p. digest_of outside.codec.sha256_hex (s.nodes p))
        (sym (resolve-same outside fails o.path target r))
      ∙ read_target-digest outside fails s target current h

  pub check_current-Checked :
      (outputs : List Output) (noop b : Bool)
      → check_current outside fails partial s outputs noop ≡ ok b
      → Checked outside s outputs
        × (b ≡ true
            → (noop ≡ true)
              × ((i : ℕ) (o : Output)
                  → nth i outputs ≡ some o
                  → Settled outside.codec.sha256_hex s o))
  unfolding check_current
  check_current-Checked [] noop b h =
      ((λ i o there. cc), λ e. (ok_injective refl h ∙ e, λ i o there. cc))
  check_current-Checked (o ∷ outputs) noop b h =
      elim (Outcome-cases (resolve outside fails o.path)) [
        | inr (e, refused) ↦ absurd (ground (arith, refused, h))
        | inl (t, r) ↦ elim (Outcome-cases (read_target outside fails s t)) [
          | inr (e, refused) ↦ absurd (ground (arith, r, refused, h))
          | inl (current, read) ↦ elim (Bool-cases (current == o.after)) [
            | inl new ↦
                let d = read-digest o t current r read in
                let settled : Settled outside.codec.sha256_hex s o =
                  d ∙ ap some ((eq_iff current o.after).0 new) in
                let rest = check_current-Checked outputs noop b (ground (arith, r, read, new, h)) in
                (
                  all-cons (Status outside s) o outputs (inl settled) rest.0,
                  λ e. (
                    (rest.1 e).0,
                    all-cons (Settled outside.codec.sha256_hex s) o outputs settled (rest.1 e).1,
                  ),
                )
            | inr new ↦ elim (Bool-cases (current == o.before)) [
              | inl old ↦
                  let d = read-digest o t current r read in
                  let rest =
                    check_current-Checked outputs false b (ground (arith, r, read, new, old, h)) in
                  (
                    all-cons (Status outside s) o outputs
                        (inr (d ∙ ap some ((eq_iff current o.before).0 old))) rest.0,
                    λ e. absurd (cc ((rest.1 e).0)),
                  )
              | inr old ↦ absurd (ground (arith, r, read, new, old, h))
            ]
          ]
        ]
      ]
