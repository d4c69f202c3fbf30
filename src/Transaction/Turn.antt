-- ===== src/Transaction/Turn.antt =====
-- How a turn of the loop of `apply` over the outputs goes (internal/core/transaction/transaction.go),
-- for a manifest without moves.
use specd_cli.Base.{
  ◌≡◌, refl, sym, ap, ◌∙◌, ◌⊎◌, inl, inr, ℕ, String, Bool, some, List, [], ◌∷◌, ◌==◌, eq_iff, arith,
  Bool-cases, ok, err, Outcome-cases,
}
use specd_cli.State.Replace.{Bytes}
use specd_cli.Transaction.Types.{
  Output, Move, Manifest, at_target, at_staged, Call, TransactionRefusal, ambiguous, Outside, Store,
}
use specd_cli.Transaction.Apply.{
  resolve, read_target, read_staged, locate, locate_moved, replace_output, apply_output,
}
use specd_cli.Transaction.Recoverable.{digest_of, Settled}

module _ (outside : Outside) (fails : Call → Bool) where
  pub resolve-same : (p t : String) → resolve outside fails p ≡ ok t → t ≡ p
  unfolding resolve
  resolve-same p t h = ground (arith, h)

  pub unmoved :
      (s : Store) (p : String) (moves : List Move)
      → moves ≡ []
      → locate_moved outside fails s p moves ≡ p
  unfolding locate_moved
  unmoved s p [] e = refl
  unmoved s p (m ∷ moves) e = cc

  locate-same :
      (s : Store) (m : Manifest) (p t : String)
      → m.moves ≡ []
      → locate outside fails s m p ≡ ok t
      → t ≡ p
  unfolding locate
  locate-same s m p t e h = elim (Outcome-cases (resolve outside fails p)) [
    | inr (r, refused) ↦ absurd (ground (arith, refused, h))
    | inl (found, done) ↦
        ground (arith, done, h, unmoved s found m.moves e) ∙ resolve-same p found done
  ]

  pub read_target-digest :
      (s : Store) (p current : String)
      → read_target outside fails s p ≡ ok current
      → digest_of outside.codec.sha256_hex (s.nodes p) ≡ some current
  unfolding read_target
  read_target-digest s p current h = ground (arith, h)

  -- How a turn of the loop goes: it stops with an error, finds the new bytes, or replaces.
  pub apply_output-cases :
      (m : Manifest) (i : ℕ) (o : Output) (s : Store)
      → m.moves ≡ []
      → ((e : TransactionRefusal) × (apply_output outside fails m i o s ≡ (err e, s)))
        ⊎ (((apply_output outside fails m i o s ≡ (ok tt, s))
              × Settled outside.codec.sha256_hex s o)
            ⊎ ((raw : Bytes) × ((outside.codec.sha256_hex raw ≡ o.after)
                  × (apply_output outside fails m i o s
                      ≡ replace_output outside fails m.id i o o.path raw s))))
  unfolding apply_output
  apply_output-cases m i o s e = elim (Outcome-cases (locate outside fails s m o.path)) [
    | inr (r, refused) ↦ inl (r, rw (apply_output, refused) refl)
    | inl (t, found) ↦ elim (Outcome-cases (read_target outside fails s t)) [
      | inr (r, refused) ↦ inl (r, rw (apply_output, found, refused) refl)
      | inl (current, read) ↦ elim (Bool-cases (current == o.after)) [
        | inl new ↦ inr (
            inl (
              rw (apply_output, found, read, new) refl,
              ap (λ p. digest_of outside.codec.sha256_hex (s.nodes p))
                    (sym (locate-same s m o.path t e found))
                  ∙ read_target-digest s t current read
                  ∙ ap some ((eq_iff current o.after).0 new),
            ))
        | inr new ↦ elim (Bool-cases (current == o.before)) [
          | inr old ↦ inl (ambiguous (at_target t), rw (apply_output, found, read, new, old) refl)
          | inl old ↦ elim (Outcome-cases (read_staged outside fails s m.id i)) [
            | inr (r, refused) ↦ inl (r, rw (apply_output, found, read, new, old, refused) refl)
            | inl (raw, staged) ↦ elim (Bool-cases (outside.codec.sha256_hex raw == o.after)) [
              | inr bad ↦ inl (
                ambiguous (at_staged m.id i),
                rw (apply_output, found, read, new, old, staged, bad) refl,
              )
              | inl good ↦ inr (
                  inr (
                    raw,
                    (
                      (eq_iff (outside.codec.sha256_hex raw) o.after).0 good,
                      rw (apply_output, found, read, new, old, staged, good)
                          (ap (λ p. replace_output outside fails m.id i o p raw s)
                            (locate-same s m o.path t e found)),
                    ),
                  ))
            ]
          ]
        ]
      ]
    ]
  ]
