-- ===== src/Transaction/OldOrNew.antt =====
-- `apply` (internal/core/transaction/transaction.go) of a manifest without moves.
use specd_cli.Base.{
  ◌≡◌, refl, sym, subst, ◌⊎◌, inl, inr, String, Bool, Option, none, [], eq_iff, arith, Bool-cases,
  Option-cases, Outcome, ok, err,
}
use specd_cli.State.Replace.{Bytes}
use specd_cli.Record.Defs.{no_bytes}
use specd_cli.Record.Types.{Record}
use specd_cli.Record.Replay.{LedgerRefusal}
use specd_cli.Record.Append.{Disk, LedgerPath, append_record}
use specd_cli.Transaction.Types.{
  Manifest, at_stage, at_journal, at_managed, Call, sync_dir, remove, hooked, io, interrupted,
  Outside, Store,
}
use specd_cli.Transaction.Steps.{drop_journal, drop_stage}
use specd_cli.Transaction.Apply.{
  apply_outputs, apply_moves, is_duplicate, after_append, append_item, append_bound,
  clean_up_transaction, apply,
}
use specd_cli.Transaction.Triples.{
  Triple, ⨾-Triple, skip-Triple, quiet-Triple, change-Triple, weaken-Triple,
}
use specd_cli.Transaction.Recoverable.{Recoverable, AllSettled, Apart, keep_status}
use specd_cli.Transaction.Outputs.{Progress, outputs-Triple}

-- The journal still stands and the files can be recovered, or every output holds its new bytes.
abbrev pub OldOrNew : Outside → Manifest → Option Bytes → Store → Type 0
OldOrNew outside m journal s =
    ((s.journals m.id ≡ journal) × Recoverable outside.codec.sha256_hex m s)
    ⊎ AllSettled outside.codec.sha256_hex m s

-- Every output holds its new bytes, and neither journal nor stage is left.
pub record Finished (outside : Outside) (m : Manifest) (s : Store) : Type 0 where
  pub settled : AllSettled outside.codec.sha256_hex m s
  pub no_journal : s.journals m.id ≡ none
  pub no_stage : s.stages m.id ≡ none

after_append-store : (o : Outcome LedgerRefusal (Unit {0})) (s : Store) → (after_append o s).1 ≡ s
after_append-store (ok done) s = refl
after_append-store (err e) s = elim (Bool-cases (is_duplicate e)) [
  | inl d ↦ rw d refl
  | inr d ↦ rw d refl
]

drop_journal-none : (id : String) (s : Store) → (drop_journal id s).journals id ≡ none
unfolding drop_journal
drop_journal-none id s = rw ((eq_iff id id).1 refl) refl

drop_stage-none : (id : String) (s : Store) → (drop_stage id s).stages id ≡ none
unfolding drop_stage
drop_stage-none id s = rw ((eq_iff id id).1 refl) refl

module _ (outside : Outside) (path : LedgerPath) (disk : Disk) (locked : Bool) where
  append_item-history :
      (r : Record) (s : Store)
      → (h : Option Bytes) × ((append_item outside.codec path disk locked r s).1
          ≡ record s { history = h })
  append_item-history r s = (
    (append_record outside.codec path disk locked s.history "history" r).1,
    after_append-store (append_record outside.codec path disk locked s.history "history" r).0
        (record s {
          history = (append_record outside.codec path disk locked s.history "history" r).1;
        }),
  )

  -- The append of the bound record changes the history alone.
  append_bound-history :
      (m : Manifest) (s : Store)
      → (h : Option Bytes) × ((append_bound outside path disk locked m s).1
          ≡ record s { history = h })
  unfolding append_bound
  append_bound-history m s = elim (Bool-cases (no_bytes m.bound_record)) [
    | inl e ↦ (s.history, rw (append_bound, e) refl)
    | inr e ↦ elim (Option-cases (outside.unmarshal_item m.bound_record)) [
      | inl f ↦ (s.history, rw (append_bound, e, f) refl)
      | inr (r, f) ↦ let (h, g) = append_item-history r s in (h, rw (append_bound, e, f) g)
    ]
  ]

  append_bound-Triple :
      (m : Manifest) (P I : Store → Type 0)
      → ((s : Store) (h : Option Bytes) → P s → P (record s { history = h }))
      → ((s : Store) → P s → I s)
      → Triple P (append_bound outside path disk locked m) I P
  append_bound-Triple m P I keeps i s p =
      let (h, e) = append_bound-history m s in
      let after : P (append_bound outside path disk locked m s).1 = subst P (sym e) (keeps s h p) in
      (i (append_bound outside path disk locked m s).1 after, λ k. after)

module _ (outside : Outside) (path : LedgerPath) (disk : Disk) (locked : Bool) (fails : Call → Bool)
    (m : Manifest) (journal : Option Bytes) where
  abbrev Done : Store → Type 0
  Done s = Progress outside m journal 0 s × AllSettled outside.codec.sha256_hex m s

  clean_up-Triple :
      (I : Store → Type 0)
      → ((s : Store) → AllSettled outside.codec.sha256_hex m s → I s)
      → Triple
          (AllSettled outside.codec.sha256_hex m)
          (clean_up_transaction outside path disk locked fails m.id)
          I
          (Finished outside m)
  unfolding clean_up_transaction drop_journal drop_stage
  clean_up-Triple I i =
      let P = AllSettled outside.codec.sha256_hex m in
      let Q = λ (s : Store). AllSettled outside.codec.sha256_hex m s × (s.journals m.id ≡ none) in
      let R = Finished outside m in
      ⨾-Triple I P P R _ _
        (quiet-Triple I P (fails (hooked "before-cleanup")) (interrupted (at_journal m.id)) i)
        (⨾-Triple I P Q R _ _
          (change-Triple I P Q (fails (remove (at_journal m.id))) (io (at_journal m.id))
            (drop_journal m.id) i (λ s q. i s q.0) (λ s p. (p, drop_journal-none m.id s)))
          (⨾-Triple I Q Q R _ _
            (quiet-Triple I Q (fails (sync_dir (at_journal m.id))) (io (at_journal m.id))
              (λ s q. i s q.0))
            (⨾-Triple I Q R R _ _
              (change-Triple I Q R (fails (remove (at_stage m.id))) (io (at_stage m.id))
                (drop_stage m.id) (λ s q. i s q.0) (λ s q. i s q.settled)
                (λ s q. record {
                  settled = q.0;
                  no_journal = q.1;
                  no_stage = drop_stage-none m.id s;
                }))
              (quiet-Triple I R (fails (sync_dir at_managed)) (io at_managed)
                (λ s q. i s q.settled)))))

  apply_moves-Triple :
      (P I : Store → Type 0)
      → ((s : Store) → P s → I s)
      → m.moves ≡ []
      → Triple P (apply_moves outside fails m.moves) I P
  unfolding apply_moves
  apply_moves-Triple P I i e =
      subst (λ moves. Triple P (apply_moves outside fails moves) I P) (sym e) (skip-Triple I P i)

  standing : (s : Store) → Progress outside m journal 0 s → OldOrNew outside m journal s
  standing s p = inl (p.same_journal, p.recoverable)

  Done-standing : (s : Store) → Done s → OldOrNew outside m journal s
  Done-standing s d = standing s d.0

  keeps_history : (s : Store) (h : Option Bytes) → Done s → Done (record s { history = h })
  keeps_history s h d = (
    record {
      recoverable = λ i o here.
          keep_status outside.codec.sha256_hex s (record s { history = h }) m.id i o refl refl
            (d.0.recoverable i o here);
      settled = λ i o k here. d.1 i o here;
      same_journal = d.0.same_journal;
    },
    d.1,
  )

  pub apply-Triple :
      Apart m.outputs
      → m.moves ≡ []
      → Triple
          (Progress outside m journal 0)
          (apply outside path disk locked fails m)
          (OldOrNew outside m journal)
          (Finished outside m)
  unfolding apply
  apply-Triple apart unmoving =
      let I = OldOrNew outside m journal in
      let P = Progress outside m journal 0 in
      let R = Finished outside m in
      ⨾-Triple I P Done R _ _
        (weaken-Triple P P I Done (apply_outputs outside fails m 0 m.outputs) standing
          (outputs-Triple outside fails m journal apart unmoving))
        (⨾-Triple I Done Done R _ _ (apply_moves-Triple Done I Done-standing unmoving) (
          ⨾-Triple I Done Done R _ _
            (append_bound-Triple outside path disk locked m Done I keeps_history Done-standing)
            (λ s d. clean_up-Triple I (λ s n. inr n) s d.1)))

-- From files that can be recovered, wherever `apply` of a manifest without moves stops, be it at a
-- refusal, at a failing call or at a hook, its journal stands and the files can be recovered still, or
-- every output holds its new bytes; and when it succeeds every output does, with no journal and no
-- stage left. No output path stands above another.
pub apply-OldOrNew :
    (outside : Outside) (path : LedgerPath) (disk : Disk) (locked : Bool) (fails : Call → Bool)
    (m : Manifest) (s : Store)
    → Apart m.outputs
    → m.moves ≡ []
    → Recoverable outside.codec.sha256_hex m s
    → let (result, s') = apply outside path disk locked fails m s in
      OldOrNew outside m (s.journals m.id) s' × (result ≡ ok tt → Finished outside m s')
apply-OldOrNew outside path disk locked fails m s apart unmoving k =
    apply-Triple outside path disk locked fails m (s.journals m.id) apart unmoving s (record {
      recoverable = k;
      settled = λ j p h there. absurd (omega (arith, h));
      same_journal = refl;
    })
