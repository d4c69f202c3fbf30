-- ===== src/Transaction/Staging.antt =====
-- The staging of `commitLocked` (internal/core/transaction/transaction.go), before the journal.
use specd_cli.Base.{
  ◌≡◌, refl, sym, ap, ◌∙◌, subst, inl, inr, ℕ, suc, String, ◌+◌, ◌<◌, Bool, true, false, Option,
  none, some, List, [], ◌∷◌, eq_iff, arith, Bool-cases, if◌then◌else◌, nat_eq, length, Outcome, ok,
  err, some_injective,
}
use specd_cli.State.Replace.{Bytes}
use specd_cli.Transaction.Types.{
  Write, Output, Manifest, Place, at_stage, at_staged, Call, make_dir, sync_dir, clear, write_file,
  hooked, TransactionRefusal, io, interrupted, Outside, Store,
}
use specd_cli.Transaction.Plan.{bytes_or_none}
use specd_cli.Transaction.Steps.{◌⨾◌, drop_stage}
use specd_cli.Transaction.Commit.{
  bytes_for, stage_with, write_staged, make_stage, stage_file, stage_outputs, stage_all,
}
use specd_cli.Transaction.Triples.{Triple, ⨾-Triple, quiet-Triple, change-Triple}
use specd_cli.Transaction.Recoverable.{nth}

-- No target and no journal has changed since `s`.
abbrev pub Untouched : Store → Store → Type 0
Untouched s t = (t.nodes ≡ s.nodes) × ((id : String) → t.journals id ≡ s.journals id)

abbrev pub planned : List Write → Output → Bytes
planned writes o = bytes_or_none (bytes_for writes o.path)

-- The first `n` outputs are staged.
pub record Staged (m : Manifest) (writes : List Write) (s : Store) (n : ℕ) (t : Store)
    : Type 0 where
  pub untouched : Untouched s t
  pub stage : ℕ → Option Bytes
  pub is_stage : t.stages m.id ≡ some stage
  pub holds :
      (j : ℕ) (p : Output) → j < n → nth j m.outputs ≡ some p → stage j ≡ some (planned writes p)

module _ (outside : Outside) (fails : Call → Bool) (partial : Place → Option Bytes) (m : Manifest)
    (writes : List Write) (s : Store) where
  Staged-untouched : (n : ℕ) (t : Store) → Staged m writes s n t → Untouched s t
  Staged-untouched n t k = k.untouched

  write_staged-Staged :
      (i : ℕ) (o : Output)
      → nth i m.outputs ≡ some o
      → (t : Store) → Staged m writes s i t
      → Staged m writes s (suc i) (write_staged m.id i (some (planned writes o)) t)
  unfolding write_staged
  write_staged-Staged i o here t k = record {
    untouched = k.untouched;
    stage = λ j. if nat_eq j i then some (planned writes o) else k.stage j;
    is_stage =
        ap
          (λ b. if b then stage_with i (some (planned writes o)) (t.stages m.id) else t.stages m.id)
          ((eq_iff m.id m.id).1 refl)
        ∙ ap (stage_with i (some (planned writes o))) k.is_stage;
    holds = λ j p h there. elim (Bool-cases (nat_eq j i)) [
      | inl e ↦ rw e (
          ap (λ q. some (planned writes q))
            (some_injective (sym here ∙ ap (λ n. nth n m.outputs) (ground (arith, e)) ∙ there)))
      | inr e ↦ rw e (k.holds j p (ground (arith, e, h)) there)
    ];
  }

  stops :
      (i : ℕ) (raw : Bytes) (t : Store)
      → fails (write_file (at_staged m.id i)) ≡ true
      → stage_file outside fails partial m.id i raw t
        ≡ (err (io (at_staged m.id i)), write_staged m.id i (partial (at_staged m.id i)) t)
  unfolding stage_file
  stops i raw t e = rw (stage_file, e) refl

  goes :
      (i : ℕ) (raw : Bytes) (t : Store)
      → fails (write_file (at_staged m.id i)) ≡ false
      → stage_file outside fails partial m.id i raw t ≡ (ok tt, write_staged m.id i (some raw) t)
  unfolding stage_file
  goes i raw t e = rw (stage_file, e) refl

  make_stage-Staged : (t : Store) → Untouched s t → Staged m writes s 0 (make_stage m.id t)
  unfolding make_stage
  make_stage-Staged t u = record {
    untouched = u;
    stage = λ i. none;
    is_stage = rw ((eq_iff m.id m.id).1 refl) refl;
    holds = λ j p h there. absurd (omega (arith, h));
  }

  stage_file-Triple :
      (i : ℕ) (o : Output)
      → nth i m.outputs ≡ some o
      → Triple
          (Staged m writes s i)
          (stage_file outside fails partial m.id i (planned writes o))
          (Untouched s)
          (Staged m writes s (suc i))
  unfolding stage_file write_staged
  stage_file-Triple i o here t k =
      let Holds = λ (r : Outcome TransactionRefusal (Unit {0}) × Store).
        Untouched s r.1 × (r.0 ≡ ok tt → Staged m writes s (suc i) r.1) in
      elim (Bool-cases (fails (write_file (at_staged m.id i)))) [
        | inl e ↦ subst Holds (sym (stops i (planned writes o) t e)) (k.untouched, λ h. cc)
        | inr e ↦
            subst Holds (sym (goes i (planned writes o) t e))
              (k.untouched, λ h. write_staged-Staged i o here t k)
      ]

  stage_outputs-Triple :
      (i : ℕ) (rest : List Output)
      → ((k : ℕ) (q : Output) → nth k rest ≡ some q → nth (i + k) m.outputs ≡ some q)
      → Triple
          (Staged m writes s i)
          (stage_outputs outside fails partial writes m.id i rest)
          (Untouched s)
          (Staged m writes s (i + length rest))
  unfolding stage_outputs
  stage_outputs-Triple i [] suffix t k =
      (k.untouched, λ h. subst (λ n. Staged m writes s n t) (omega arith) k)
  stage_outputs-Triple i (o ∷ rest) suffix t k =
      let here : nth i m.outputs ≡ some o =
        ap (λ k. nth k m.outputs) (omega arith) ∙ suffix 0 o refl in
      let both =
        ⨾-Triple (Untouched s) (Staged m writes s i) (Staged m writes s (suc i))
          (Staged m writes s (suc i + length rest))
          (stage_file outside fails partial m.id i (planned writes o))
          (stage_outputs outside fails partial writes m.id (suc i) rest)
          (stage_file-Triple i o here)
          (stage_outputs-Triple (suc i) rest
            (λ k q e. ap (λ n. nth n m.outputs) (omega arith) ∙ suffix (suc k) q e))
          t k in
      (
        both.0,
        λ h.
            subst
              (λ n.
                Staged m writes s n
                  ((stage_file outside fails partial m.id i (planned writes o)
                      ⨾ stage_outputs outside fails partial writes m.id (suc i) rest)
                    t).1)
              (omega arith) (both.1 h),
      )

  -- Wherever the staging stops, nothing is touched; when it succeeds every output is staged.
  pub stage_all-Triple :
      Triple
        (Untouched s)
        (stage_all outside fails partial writes m)
        (Untouched s)
        (Staged m writes s (0 + length m.outputs))
  unfolding stage_all drop_stage
  stage_all-Triple =
      let U = Untouched s in
      let Q = Staged m writes s (0 + length m.outputs) in
      ⨾-Triple U U U Q _ _
        (change-Triple U U U (fails (clear (at_stage m.id))) (io (at_stage m.id)) (drop_stage m.id)
          (λ t u. u) (λ t u. u) (λ t u. u))
        (⨾-Triple U U (Staged m writes s 0) Q _ _
          (change-Triple U U (Staged m writes s 0) (fails (make_dir (at_stage m.id)))
            (io (at_stage m.id)) (make_stage m.id) (λ t u. u) (Staged-untouched 0)
            make_stage-Staged)
          (⨾-Triple U (Staged m writes s 0) Q Q _ _
            (stage_outputs-Triple 0 m.outputs
              (λ k q e. ap (λ n. nth n m.outputs) (omega arith) ∙ e))
            (⨾-Triple U Q Q Q _ _
              (quiet-Triple U Q (fails (sync_dir (at_stage m.id))) (io (at_stage m.id))
                (Staged-untouched (0 + length m.outputs)))
              (quiet-Triple U Q (fails (hooked "after-stage")) (interrupted (at_stage m.id))
                (Staged-untouched (0 + length m.outputs))))))
