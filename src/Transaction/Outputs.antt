-- ===== src/Transaction/Outputs.antt =====
-- The loop of `apply` over the outputs (internal/core/transaction/transaction.go), for a manifest
-- without moves: what holds wherever it stops, and when it succeeds.
use specd_cli.Base.{
  ◌≡◌, refl, sym, ap, ◌∙◌, subst, inl, inr, ℕ, zero, suc, ◌+◌, ◌<◌, Bool, Option, some, List, [],
  ◌∷◌, arith, Bool-cases, nat_eq, length, Outcome, ok, some_injective,
}
use Prim.Native.String.{◌++◌ as ◌<>◌}
use specd_cli.State.Replace.{Bytes}
use specd_cli.Transaction.Types.{
  Output, Manifest, at_target, Call, make_dir, rename, sync_dir, hooked, TransactionRefusal, io,
  interrupted, Outside, Store,
}
use specd_cli.Transaction.Steps.{◌⨾◌, make_parents, put_staged}
use specd_cli.Transaction.Apply.{replace_output, apply_output, apply_outputs}
use specd_cli.Transaction.Turn.{apply_output-cases}
use specd_cli.Transaction.Triples.{Triple, ⨾-Triple, quiet-Triple, change-Triple}
use specd_cli.Transaction.Recoverable.{
  nth, Settled, Recoverable, AllSettled, Apart, make_parents-Recoverable, make_parents-Settled,
  put_staged-Settled, put_staged-keeps, put_staged-Recoverable,
}

pub nth-lt : (i : ℕ) (os : List Output) (o : Output) → nth i os ≡ some o → i < length os
nth-lt i [] o h = cc
nth-lt zero (x ∷ os) o h = omega arith
nth-lt (suc i) (x ∷ os) o h = omega (arith, nth-lt i os o h)

-- After `n` outputs: the files can be recovered, and those outputs hold their new bytes.
pub record Progress (outside : Outside) (m : Manifest) (journal : Option Bytes) (n : ℕ) (s : Store)
    : Type 0 where
  pub recoverable : Recoverable outside.codec.sha256_hex m s
  pub settled :
      (j : ℕ) (p : Output) → j < n → nth j m.outputs ≡ some p → Settled outside.codec.sha256_hex s p
  pub same_journal : s.journals m.id ≡ journal

module _ (outside : Outside) (fails : Call → Bool) (m : Manifest) (journal : Option Bytes)
    (apart : Apart m.outputs) (unmoving : m.moves ≡ []) where
  forget : (n : ℕ) (s : Store) → Progress outside m journal n s → Progress outside m journal 0 s
  forget n s p = record {
    recoverable = p.recoverable;
    settled = λ j q h. absurd (omega (arith, h));
    same_journal = p.same_journal;
  }

  module _ (i : ℕ) (o : Output) (here : nth i m.outputs ≡ some o) where
    advance :
        (s : Store)
        → Progress outside m journal i s
        → Settled outside.codec.sha256_hex s o
        → Progress outside m journal (suc i) s
    advance s p h = record {
      recoverable = p.recoverable;
      settled = λ j q k there. elim (Bool-cases (nat_eq i j)) [
        | inl e ↦
            subst (Settled outside.codec.sha256_hex s)
              (some_injective (sym here ∙ ap (λ k. nth k m.outputs) (ground (arith, e)) ∙ there)) h
        | inr e ↦ p.settled j q (ground (arith, e, k)) there
      ];
      same_journal = p.same_journal;
    }

    make_parents-Progress :
        (s : Store)
        → Progress outside m journal i s
        → Progress outside m journal i (make_parents o.path s)
    unfolding make_parents
    make_parents-Progress s p = record {
      recoverable =
          make_parents-Recoverable outside.codec.sha256_hex m apart i o here s p.recoverable;
      settled = λ j q k there.
          make_parents-Settled outside.codec.sha256_hex m apart i o here s j q there
            (p.settled j q k there);
      same_journal = p.same_journal;
    }

    put_staged-Progress :
        (raw : Bytes)
        → outside.codec.sha256_hex raw ≡ o.after
        → (s : Store) → Progress outside m journal i s
        → Progress outside m journal (suc i) (put_staged m.id i o.path raw s)
    unfolding put_staged
    put_staged-Progress raw new s p =
        advance (put_staged m.id i o.path raw s)
          (record {
            recoverable =
                put_staged-Recoverable outside.codec.sha256_hex m apart i o here raw new s
                  p.recoverable;
            settled = λ j q k there.
                put_staged-keeps outside.codec.sha256_hex m apart i o here raw new s j q there
                  (p.settled j q k there);
            same_journal = p.same_journal;
          })
          (put_staged-Settled outside.codec.sha256_hex m apart i o here raw new s)

    replace_output-Triple :
        (raw : Bytes)
        → outside.codec.sha256_hex raw ≡ o.after
        → Triple
            (Progress outside m journal i)
            (replace_output outside fails m.id i o o.path raw)
            (Progress outside m journal 0)
            (Progress outside m journal (suc i))
    unfolding replace_output
    replace_output-Triple raw new =
        let I = Progress outside m journal 0 in
        let P = Progress outside m journal i in
        let Q = Progress outside m journal (suc i) in
        ⨾-Triple I P P Q _ _
          (quiet-Triple I P (fails (hooked ("before-replace:" <> o.path)))
            (interrupted (at_target o.path)) (forget i))
          (⨾-Triple I P P Q _ _
            (change-Triple I P P (fails (make_dir (at_target o.path))) (io (at_target o.path))
              (make_parents o.path) (forget i) (forget i) make_parents-Progress)
            (⨾-Triple I P Q Q _ _
              (change-Triple I P Q (fails (rename (at_target o.path))) (io (at_target o.path))
                (put_staged m.id i o.path raw) (forget i) (forget (suc i))
                (put_staged-Progress raw new))
              (⨾-Triple I Q Q Q _ _
                (quiet-Triple I Q (fails (sync_dir (at_target o.path))) (io (at_target o.path))
                  (forget (suc i)))
                (quiet-Triple I Q (fails (hooked ("after-replace:" <> o.path)))
                  (interrupted (at_target o.path)) (forget (suc i))))))

    pub apply_output-Triple :
        Triple
          (Progress outside m journal i)
          (apply_output outside fails m i o)
          (Progress outside m journal 0)
          (Progress outside m journal (suc i))
    apply_output-Triple s p =
        let Holds = λ (r : Outcome TransactionRefusal (Unit {0}) × Store).
          Progress outside m journal 0 r.1
          × (r.0 ≡ ok tt → Progress outside m journal (suc i) r.1) in
        elim (apply_output-cases outside fails m i o s unmoving) [
          | inl (e, stopped) ↦ subst Holds (sym stopped) (forget i s p, λ h. cc)
          | inr (inl (done, settled)) ↦
              subst Holds (sym done) (forget i s p, λ h. advance s p settled)
          | inr (inr (raw, (new, replaced))) ↦
              subst Holds (sym replaced) (replace_output-Triple raw new s p)
        ]

  apply_outputs-Triple :
      (i : ℕ) (rest : List Output)
      → ((k : ℕ) (q : Output) → nth k rest ≡ some q → nth (i + k) m.outputs ≡ some q)
      → Triple
          (Progress outside m journal i)
          (apply_outputs outside fails m i rest)
          (Progress outside m journal 0)
          (Progress outside m journal (i + length rest))
  unfolding apply_outputs
  apply_outputs-Triple i [] suffix s p =
      (forget i s p, λ h. subst (λ n. Progress outside m journal n s) (omega arith) p)
  apply_outputs-Triple i (o ∷ rest) suffix s p =
      let here : nth i m.outputs ≡ some o =
        ap (λ k. nth k m.outputs) (omega arith) ∙ suffix 0 o refl in
      let t =
        ⨾-Triple (Progress outside m journal 0) (Progress outside m journal i)
          (Progress outside m journal (suc i)) (Progress outside m journal (suc i + length rest))
          (apply_output outside fails m i o) (apply_outputs outside fails m (suc i) rest)
          (apply_output-Triple i o here)
          (apply_outputs-Triple (suc i) rest
            (λ k q e. ap (λ n. nth n m.outputs) (omega arith) ∙ suffix (suc k) q e))
          s p in
      (
        t.0,
        λ h.
            subst
              (λ n.
                Progress outside m journal n
                  ((apply_output outside fails m i o ⨾ apply_outputs outside fails m (suc i) rest)
                    s).1)
              (omega arith) (t.1 h),
      )

  -- Wherever the loop over the outputs stops, the files can be recovered and the journal stands; when
  -- it succeeds, every output holds its new bytes.
  pub outputs-Triple :
      Triple
        (Progress outside m journal 0)
        (apply_outputs outside fails m 0 m.outputs)
        (Progress outside m journal 0)
        (λ s. Progress outside m journal 0 s × AllSettled outside.codec.sha256_hex m s)
  outputs-Triple s p =
      let t =
        apply_outputs-Triple 0 m.outputs (λ k q e. ap (λ n. nth n m.outputs) (omega arith) ∙ e) s
          p in
      (
        t.0,
        λ h. (
          forget (0 + length m.outputs) (apply_outputs outside fails m 0 m.outputs s).1 (t.1 h),
          λ j q there. (t.1 h).settled j q (omega (arith, nth-lt j m.outputs q there)) there,
        ),
      )
