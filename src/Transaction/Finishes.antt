-- ===== src/Transaction/Finishes.antt =====
-- `apply` (internal/core/transaction/transaction.go) of a manifest without moves, when no call fails.
use specd_cli.Base.{
  ◌≡◌, refl, sym, ap, ◌∙◌, subst, ◌⊎◌, inl, inr, ℕ, suc, ◌+◌, String, Bool, false, Option, some,
  List, [], ◌∷◌, ◌==◌, eq_iff, arith, Bool-cases, Outcome, ok,
}
use specd_cli.State.Replace.{Bytes}
use specd_cli.Record.Append.{Disk, LedgerPath}
use specd_cli.Transaction.Types.{Output, Manifest, Call, TransactionRefusal, Outside, Store}
use specd_cli.Transaction.Steps.{
  ◌⨾◌, make_parents, put_staged, drop_journal, drop_stage, staged_file, is_absent,
}
use specd_cli.Transaction.Apply.{
  resolve, read_target, read_staged, locate, replace_output, apply_output, apply_outputs,
  apply_moves, append_bound, clean_up_transaction, apply,
}
use specd_cli.Transaction.Triples.{Triple, go_on-ok, Ends, ⨾-Ends, ⨾-Triple, both-Triple}
use specd_cli.Transaction.Turn.{unmoved, apply_output-cases}
use specd_cli.Transaction.Recoverable.{
  nth, digest_of, Settled, Waiting, Recoverable, AllSettled, Apart,
}
use specd_cli.Transaction.Outputs.{Progress, apply_output-Triple, outputs-Triple}
use specd_cli.Transaction.OldOrNew.{Finished, apply-Triple}

-- No call fails, and no hook stops the run.
abbrev pub calm : Call → Bool
calm c = false

module _ (outside : Outside) (m : Manifest) (unmoving : m.moves ≡ []) where
  locate-calm :
      (s : Store) (p : String) → resolve outside calm p ≡ ok p → locate outside calm s m p ≡ ok p
  unfolding locate
  locate-calm s p h = elim (Bool-cases (is_absent (s.nodes p))) [
    | inl e ↦ rw (locate, h, e) (ap ok (unmoved outside calm s p m.moves unmoving))
    | inr e ↦ rw (locate, h, e) refl
  ]

  read_target-calm :
      (s : Store) (p d : String)
      → digest_of outside.codec.sha256_hex (s.nodes p) ≡ some d
      → read_target outside calm s p ≡ ok d
  unfolding read_target
  read_target-calm s p d h = ground (arith, h)

  read_staged-calm :
      (s : Store) (i : ℕ) (raw : Bytes)
      → staged_file (s.stages m.id) i ≡ some raw
      → read_staged outside calm s m.id i ≡ ok raw
  unfolding read_staged
  read_staged-calm s i raw h = rw h refl

  replace_output-calm :
      (i : ℕ) (o : Output) (p : String) (raw : Bytes) (s : Store)
      → (replace_output outside calm m.id i o p raw s).0 ≡ ok tt
  unfolding replace_output
  replace_output-calm i o p raw s = refl

  apply_output-ends :
      (i : ℕ) (o : Output) (s : Store)
      → resolve outside calm o.path ≡ ok o.path
      → Settled outside.codec.sha256_hex s o ⊎ Waiting outside.codec.sha256_hex s m.id i o
      → (apply_output outside calm m i o s).0 ≡ ok tt
  unfolding apply_output
  apply_output-ends i o s r (inl h) =
      rw
        (
          apply_output,
          locate-calm s o.path r,
          read_target-calm s o.path o.after h,
          (eq_iff o.after o.after).1 refl,
        )
        refl
  apply_output-ends i o s r (inr w) = elim (Bool-cases (o.before == o.after)) [
    | inl same ↦
        rw (apply_output, locate-calm s o.path r, read_target-calm s o.path o.before w.old, same)
          refl
    | inr other ↦
        rw
          (
            apply_output,
            locate-calm s o.path r,
            read_target-calm s o.path o.before w.old,
            other,
            (eq_iff o.before o.before).1 refl,
            read_staged-calm s i w.staged w.is_staged,
            (eq_iff (outside.codec.sha256_hex w.staged) o.after).1 w.is_new,
          )
          (replace_output-calm i o o.path w.staged s)
  ]

-- The resolution of every output path succeeds.
abbrev pub Resolves : Outside → Manifest → Type 0
Resolves outside m =
    (i : ℕ) (o : Output) → nth i m.outputs ≡ some o → resolve outside calm o.path ≡ ok o.path

-- The steps on the outputs leave the history alone.
module _ (outside : Outside) (m : Manifest) (unmoving : m.moves ≡ []) (history : Option Bytes) where
  abbrev Same : Store → Type 0
  Same s = s.history ≡ history

  replace_output-Same :
      (i : ℕ) (o : Output) (p : String) (raw : Bytes)
      → Triple Same (replace_output outside calm m.id i o p raw) Same Same
  unfolding replace_output make_parents put_staged
  replace_output-Same i o p raw s h = (h, λ k. h)

  apply_output-Same : (i : ℕ) (o : Output) → Triple Same (apply_output outside calm m i o) Same Same
  apply_output-Same i o s h =
      let Holds = λ (r : Outcome TransactionRefusal (Unit {0}) × Store).
        Same r.1 × (r.0 ≡ ok tt → Same r.1) in
      elim (apply_output-cases outside calm m i o s unmoving) [
        | inl (e, stopped) ↦ subst Holds (sym stopped) (h, λ k. h)
        | inr (inl (done, settled)) ↦ subst Holds (sym done) (h, λ k. h)
        | inr (inr (raw, (new, replaced))) ↦
            subst Holds (sym replaced) (replace_output-Same i o o.path raw s h)
      ]

  apply_outputs-Same :
      (i : ℕ) (rest : List Output) → Triple Same (apply_outputs outside calm m i rest) Same Same
  unfolding apply_outputs
  apply_outputs-Same i [] s h = (h, λ k. h)
  apply_outputs-Same i (o ∷ rest) s h =
      ⨾-Triple Same Same Same Same (apply_output outside calm m i o)
        (apply_outputs outside calm m (suc i) rest) (apply_output-Same i o)
        (apply_outputs-Same (suc i) rest) s h

module _ (outside : Outside) (m : Manifest) (journal : Option Bytes) (apart : Apart m.outputs)
    (unmoving : m.moves ≡ []) (resolves : Resolves outside m) where
  apply_outputs-Ends :
      (i : ℕ) (rest : List Output)
      → ((k : ℕ) (q : Output) → nth k rest ≡ some q → nth (i + k) m.outputs ≡ some q)
      → Ends (Progress outside m journal i) (apply_outputs outside calm m i rest)
  unfolding apply_outputs
  apply_outputs-Ends i [] suffix s p = refl
  apply_outputs-Ends i (o ∷ rest) suffix s p =
      let here : nth i m.outputs ≡ some o =
        ap (λ k. nth k m.outputs) (omega arith) ∙ suffix 0 o refl in
      ⨾-Ends (Progress outside m journal i) (Progress outside m journal 0)
        (Progress outside m journal (suc i)) (apply_output outside calm m i o)
        (apply_outputs outside calm m (suc i) rest)
        (apply_output-Triple outside calm m journal apart unmoving i o here)
        (λ t q.
          apply_output-ends outside m unmoving i o t (resolves i o here) (q.recoverable i o here))
        (apply_outputs-Ends (suc i) rest
          (λ k q e. ap (λ n. nth n m.outputs) (omega arith) ∙ suffix (suc k) q e))
        s p

clean_up-ends :
    (outside : Outside) (path : LedgerPath) (disk : Disk) (locked : Bool) (id : String) (s : Store)
    → (clean_up_transaction outside path disk locked calm id s).0 ≡ ok tt
unfolding clean_up_transaction drop_journal drop_stage
clean_up-ends outside path disk locked id s = refl

-- From files that can be recovered, `apply` of a manifest without moves succeeds when no call fails,
-- the output paths resolve, no output path stands above another, and the append of the bound record
-- succeeds or finds it there: every output then holds its new bytes, with no journal and no stage left.
pub apply-finishes :
    (outside : Outside) (path : LedgerPath) (disk : Disk) (locked : Bool) (m : Manifest) (s : Store)
    → Apart m.outputs
    → m.moves ≡ []
    → Resolves outside m
    → ((t : Store) → t.history ≡ s.history → (append_bound outside path disk locked m t).0 ≡ ok tt)
    → Recoverable outside.codec.sha256_hex m s
    → ((apply outside path disk locked calm m s).0 ≡ ok tt)
      × Finished outside m (apply outside path disk locked calm m s).1
unfolding apply apply_moves
apply-finishes outside path disk locked m s apart unmoving resolves appends k =
    let Start = λ (t : Store). Progress outside m (s.journals m.id) 0 t × (t.history ≡ s.history) in
    let start : Progress outside m (s.journals m.id) 0 s = record {
      recoverable = k;
      settled = λ j p h there. absurd (omega (arith, h));
      same_journal = refl;
    } in
    let ends =
      ⨾-Ends Start (λ t. Progress outside m (s.journals m.id) 0 t × (t.history ≡ s.history))
        (λ t.
          (Progress outside m (s.journals m.id) 0 t × AllSettled outside.codec.sha256_hex m t)
          × (t.history ≡ s.history))
        (apply_outputs outside calm m 0 m.outputs)
        (apply_moves outside calm m.moves
          ⨾ append_bound outside path disk locked m
          ⨾ clean_up_transaction outside path disk locked calm m.id)
        (both-Triple (Progress outside m (s.journals m.id) 0)
          (Progress outside m (s.journals m.id) 0)
          (λ t. Progress outside m (s.journals m.id) 0 t × AllSettled outside.codec.sha256_hex m t)
          (λ t. t.history ≡ s.history) (λ t. t.history ≡ s.history) (λ t. t.history ≡ s.history)
          (apply_outputs outside calm m 0 m.outputs)
          (outputs-Triple outside calm m (s.journals m.id) apart unmoving)
          (apply_outputs-Same outside m unmoving s.history 0 m.outputs))
        (λ t q.
          apply_outputs-Ends outside m (s.journals m.id) apart unmoving resolves 0 m.outputs
            (λ i o e. ap (λ n. nth n m.outputs) (omega arith) ∙ e) t q.0)
        (λ t q.
          subst
            (λ moves.
              ((apply_moves outside calm moves
                  ⨾ append_bound outside path disk locked m
                  ⨾ clean_up_transaction outside path disk locked calm m.id)
                t).0
              ≡ ok tt)
            (sym unmoving)
            (go_on-ok (clean_up_transaction outside path disk locked calm m.id)
              (append_bound outside path disk locked m t) (appends t q.1)
              (clean_up-ends outside path disk locked m.id
                (append_bound outside path disk locked m t).1)))
        s (start, refl) in
    (
      ends,
      (apply-Triple outside path disk locked calm m (s.journals m.id) apart unmoving s start).1
          ends,
    )
