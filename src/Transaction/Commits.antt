-- ===== src/Transaction/Commits.antt =====
-- `commitLocked` (internal/core/transaction/transaction.go) of a manifest without moves: whatever call
-- fails and wherever a hook stops it.
use specd_cli.Base.{
  ◌==◌, String, ◌≡◌, refl, sym, ap, ◌∙◌, subst, ◌⊎◌, inl, inr, ℕ, ◌+◌, Bool, true, false, ◌&&◌,
  Option, none, some, List, [], ◌∷◌, ◌++◌, eq_iff, arith, Bool-cases, if◌then◌else◌, nat_eq, length,
  Outcome, is_ok, ok, err, Outcome-cases,
}
use specd_cli.State.Replace.{
  Bytes, Files, System, Replaced, replaced, stopped_at, Action, atomic_replace,
  atomic_replace-whole, atomic_replace-synced, Replaced-cases,
}
use specd_cli.Record.Append.{Disk, LedgerPath}
use specd_cli.Record.Defs.{no_bytes}
use specd_cli.Transaction.Types.{
  Write, Output, Manifest, Request, Committed, Place, at_stage, at_journal, Call, remove, hooked,
  TransactionRefusal, io, interrupted, unsafe_target, Outside, Store,
}
use specd_cli.Transaction.Steps.{drop_stage, staged_file}
use specd_cli.Transaction.Apply.{apply}
use specd_cli.Transaction.Commit.{
  set_journal, check_current, stage_all, write_journal, commit_steps, commit_checked, commit_locked,
}
use specd_cli.Transaction.Triples.{Triple, ⨾-Triple, quiet-Triple, weaken-Triple}
use specd_cli.Transaction.Recoverable.{nth, digest_of, AllSettled, Apart}
use specd_cli.Transaction.Outputs.{Progress, nth-lt}
use specd_cli.Transaction.OldOrNew.{OldOrNew, Finished, apply-Triple}
use specd_cli.Transaction.Staging.{Untouched, Staged, planned, stage_all-Triple}
use specd_cli.Transaction.Current.{Checked, check_current-Checked}

module _ (outside : Outside) (path : LedgerPath) (disk : Disk) (locked : Bool) (system : System)
    (fails : Call → Bool) (partial : Place → Option Bytes) (m : Manifest) (writes : List Write)
    (encoded : Bytes) (s : Store) (marshals : outside.marshal_manifest m ≡ some encoded)
    (synced : system.syncs_directory ≡ true) (checked : Checked outside s m.outputs)
    (stages_new : (i : ℕ) (o : Output)
      → nth i m.outputs ≡ some o
      → outside.codec.sha256_hex (planned writes o) ≡ o.after) where
  -- Nothing is touched, or the transaction is committed and each output is old or new.
  abbrev Safe : Store → Type 0
  Safe t = Untouched s t ⊎ OldOrNew outside m (some (encoded ++ 10 ∷ [])) t

  journal-Progress :
      (t : Store)
      → Staged m writes s (0 + length m.outputs) t
      → Progress outside m
          (some (encoded ++ 10 ∷ []))
          0
          (set_journal m.id (some (encoded ++ 10 ∷ [])) t)
  unfolding set_journal
  journal-Progress t k = record {
    recoverable = λ i o there. elim (checked i o there) [
      | inl h ↦
          inl (ap (λ nodes. digest_of outside.codec.sha256_hex (nodes o.path)) k.untouched.0 ∙ h)
      | inr h ↦ inr (record {
        old = ap (λ nodes. digest_of outside.codec.sha256_hex (nodes o.path)) k.untouched.0 ∙ h;
        staged = planned writes o;
        is_staged =
            ap (λ stage. staged_file stage i) k.is_stage
            ∙ k.holds i o (omega (arith, nth-lt i m.outputs o there)) there;
        is_new = stages_new i o there;
      })
    ];
    settled = λ j p h there. absurd (omega (arith, h));
    same_journal = rw ((eq_iff m.id m.id).1 refl) refl;
  }

  abbrev run_replace : Store → Replaced × Files
  run_replace t =
      atomic_replace system (λ step. false) (encoded ++ 10 ∷ [])
        (record { content = t.journals m.id; temporary = none })

  journal-written :
      (t : Store)
      → (run_replace t).0 ≡ replaced
      → write_journal outside fails partial system m t
        ≡ (ok tt, set_journal m.id (run_replace t).1.content t)
  unfolding write_journal
  journal-written t e = rw (write_journal, marshals, e) refl

  journal-stopped :
      (t : Store) (a : Action)
      → (run_replace t).0 ≡ stopped_at a
      → write_journal outside fails partial system m t ≡ (
        err (io (at_journal m.id)),
        if fails (remove (at_stage m.id))
            then set_journal m.id (run_replace t).1.content t
            else drop_stage m.id (set_journal m.id (run_replace t).1.content t),
      )
  unfolding write_journal
  journal-stopped t a e = rw (write_journal, marshals, e) refl

  same_journal :
      (t : Store) (content : Option Bytes)
      → Untouched s t
      → content ≡ t.journals m.id
      → (id : String) → (set_journal m.id content t).journals id ≡ s.journals id
  unfolding set_journal
  same_journal t content u e id = elim (Bool-cases (id == m.id)) [
    | inl q ↦ rw q (e ∙ ap t.journals (sym ((eq_iff id m.id).0 q)) ∙ u.1 id)
    | inr q ↦ rw q (u.1 id)
  ]

  -- Removing the stage or not after a journal that was not replaced touches nothing.
  stopped-Untouched :
      (t : Store) (content : Option Bytes) (b : Bool)
      → Untouched s t
      → content ≡ t.journals m.id
      → Untouched s
          (if b then set_journal m.id content t else drop_stage m.id (set_journal m.id content t))
  unfolding set_journal drop_stage
  stopped-Untouched t content true u e = (u.0, λ id. same_journal t content u e id)
  stopped-Untouched t content false u e = (u.0, λ id. same_journal t content u e id)

  write_journal-Triple :
      Triple
        (Staged m writes s (0 + length m.outputs))
        (write_journal outside fails partial system m)
        Safe
        (Progress outside m (some (encoded ++ 10 ∷ [])) 0)
  write_journal-Triple t k =
      let J = some (encoded ++ 10 ∷ []) in
      let Holds = λ (r : Outcome TransactionRefusal (Unit {0}) × Store).
        Safe r.1 × (r.0 ≡ ok tt → Progress outside m J 0 r.1) in
      let whole =
        atomic_replace-whole system (λ step. false) (encoded ++ 10 ∷ [])
          (record { content = t.journals m.id; temporary = none }) in
      elim (Replaced-cases (run_replace t).0) [
        | inl e ↦
            let p =
              subst (λ content. Progress outside m J 0 (set_journal m.id content t))
                (sym ((whole.0 e).0)) (journal-Progress t k) in
            subst Holds (sym (journal-written t e))
              (inr (inl (p.same_journal, p.recoverable)), λ h. p)
        | inr (a, e) ↦
            let kept = whole.1 a e (λ q.
              atomic_replace-synced system (λ step. false) (encoded ++ 10 ∷ [])
                (record { content = t.journals m.id; temporary = none }) synced
                (e ∙ ap stopped_at q)) in
            subst Holds (sym (journal-stopped t a e)) (
              inl (
                  stopped-Untouched t (run_replace t).1.content (fails (remove (at_stage m.id)))
                    k.untouched kept),
              λ h. cc,
            )
      ]

  pub commit_steps-Triple :
      Apart m.outputs
      → m.moves ≡ []
      → Triple
          (Untouched s)
          (commit_steps outside fails partial path disk locked system writes m)
          Safe
          (Finished outside m)
  unfolding commit_steps
  commit_steps-Triple apart unmoving =
      let J = some (encoded ++ 10 ∷ []) in
      let U = Untouched s in
      let S = Staged m writes s (0 + length m.outputs) in
      let P = Progress outside m J 0 in
      let R = Finished outside m in
      ⨾-Triple Safe U S R _ _
        (weaken-Triple U U Safe S (stage_all outside fails partial writes m) (λ t u. inl u)
          (stage_all-Triple outside fails partial m writes s))
        (⨾-Triple Safe S P R _ _ write_journal-Triple (
          ⨾-Triple Safe P P R _ _
            (quiet-Triple Safe P (fails (hooked "after-manifest")) (interrupted (at_journal m.id))
              (λ t p. inr (inl (p.same_journal, p.recoverable))))
            (weaken-Triple P (OldOrNew outside m J) Safe R (apply outside path disk locked fails m)
              (λ t k. inr k) (apply-Triple outside path disk locked fails m J apart unmoving))))

-- What a commit may leave, and what its success says.
abbrev pub Ending :
    Outside → Manifest → Store → Bytes → Outcome TransactionRefusal Committed × Store → Type 0
Ending outside m s encoded r =
    (Untouched s r.1 ⊎ OldOrNew outside m (some (encoded ++ 10 ∷ [])) r.1)
    × (is_ok r.0 ≡ true → AllSettled outside.codec.sha256_hex m r.1)

commit_checked-Ending :
    (outside : Outside) (path : LedgerPath) (disk : Disk) (locked : Bool) (system : System)
    (fails : Call → Bool) (partial : Place → Option Bytes) (writes : List Write) (m : Manifest)
    (noop : Bool) (s : Store) (encoded : Bytes)
    → (noop ≡ true → AllSettled outside.codec.sha256_hex m s)
    → Triple
        (Untouched s)
        (commit_steps outside fails partial path disk locked system writes m)
        (λ t. Untouched s t ⊎ OldOrNew outside m (some (encoded ++ 10 ∷ [])) t)
        (Finished outside m)
    → Ending outside m s encoded
        (commit_checked outside fails partial path disk locked system writes m noop s)
unfolding commit_checked
commit_checked-Ending outside path disk locked system fails partial writes m noop s encoded settled
      t =
    let whole = commit_checked outside fails partial path disk locked system writes m noop s in
    let steps = commit_steps outside fails partial path disk locked system writes m s in
    let after = t s (refl, λ id. refl) in
    elim (Bool-cases (noop && nat_eq (length m.moves) 0 && no_bytes m.bound_record)) [
      | inl e ↦
          let same : whole ≡ (ok (record { manifest = m; no_op = true }), s) =
            rw (commit_checked, e) refl in
          subst (Ending outside m s encoded) (sym same)
            (inl (refl, λ id. refl), λ h. settled (ground (arith, e)))
      | inr e ↦
          elim (Outcome-cases
            (commit_steps outside fails partial path disk locked system writes m s).0) [
              | inl (done, f) ↦
                  let same : whole ≡ (ok (record { manifest = m; no_op = false }), steps.1) =
                    rw (commit_checked, e, f) refl in
                  subst (Ending outside m s encoded) (sym same) (after.0, λ h. (after.1 f).settled)
              | inr (r, f) ↦
                  let same : whole ≡ (err r, steps.1) = rw (commit_checked, e, f) refl in
                  subst (Ending outside m s encoded) (sym same) (after.0, λ h. cc)
            ]
    ]

-- `commitLocked` of a manifest without moves, whose staged bytes have the declared digests: whatever
-- call fails and wherever a hook stops it, no target and no journal has changed, or the journal of the
-- manifest stands and the files can be recovered, or every output holds its new bytes; and when it
-- succeeds every output does. The manifest marshals, the managed directory can be synced after the
-- journal is renamed, and no output path stands above another.
pub commit_locked-OldOrNew :
    (outside : Outside) (path : LedgerPath) (disk : Disk) (locked : Bool) (system : System)
    (fails : Call → Bool) (partial : Place → Option Bytes) (request : Request) (m : Manifest)
    (s : Store) (encoded : Bytes)
    → outside.marshal_manifest m ≡ some encoded
    → system.syncs_directory ≡ true
    → m.moves ≡ []
    → Apart m.outputs
    → ((i : ℕ) (o : Output)
        → nth i m.outputs ≡ some o
        → outside.codec.sha256_hex (planned request.outputs o) ≡ o.after)
    → let (result, s') = commit_locked outside fails partial path disk locked system request m s in
      (Untouched s s' ⊎ OldOrNew outside m (some (encoded ++ 10 ∷ [])) s')
      × (is_ok result ≡ true → AllSettled outside.codec.sha256_hex m s')
unfolding commit_locked
commit_locked-OldOrNew outside path disk locked system fails partial request m s encoded marshals
      synced unmoving apart new =
    let whole = commit_locked outside fails partial path disk locked system request m s in
    elim (Bool-cases outside.may_write_root) [
      | inr e ↦
          let same : whole ≡ (err (unsafe_target ""), s) = rw (commit_locked, e) refl in
          subst (Ending outside m s encoded) (sym same) (inl (refl, λ id. refl), λ h. cc)
      | inl e ↦ elim (Outcome-cases (check_current outside fails partial s m.outputs true)) [
        | inr (r, f) ↦
            let same : whole ≡ (err r, s) = rw (commit_locked, f, e) refl in
            subst (Ending outside m s encoded) (sym same) (inl (refl, λ id. refl), λ h. cc)
        | inl (noop, f) ↦
            let (checked, all) =
              check_current-Checked outside fails partial s m.outputs true noop f in
            let same : whole
                ≡ commit_checked outside fails partial path disk locked system request.outputs m
                    noop s =
              rw (commit_locked, f, e) refl in
            subst (Ending outside m s encoded) (sym same) (
              commit_checked-Ending outside path disk locked system fails partial request.outputs m
                noop s encoded (λ h. (all h).1)
                (commit_steps-Triple outside path disk locked system fails partial m request.outputs
                  encoded s marshals synced checked new apart unmoving))
      ]
    ]
