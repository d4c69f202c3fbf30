-- ===== src/Transaction/Whole.antt =====
-- A whole commit of internal/core/transaction/transaction.go: what `CommitUnderRootLock` leaves.
use specd_cli.Base.{
  ◌≡◌, refl, sym, subst, inl, inr, Bool, true, Option, some, List, [], Outcome, ok, err,
  Outcome-cases,
}
use specd_cli.State.Replace.{Bytes, System}
use specd_cli.Record.Append.{Disk, LedgerPath}
use specd_cli.Transaction.Types.{
  Manifest, Request, Committed, Place, Call, TransactionRefusal, Outside, Store, Entry,
}
use specd_cli.Transaction.Plan.{plan}
use specd_cli.Transaction.Commit.{commit_locked}
use specd_cli.Transaction.Recover.{recover_locked, time_or_zero, commit_under_root_lock}
use specd_cli.Transaction.Recoverable.{Apart}
use specd_cli.Transaction.Commits.{Ending, commit_locked-OldOrNew}
use specd_cli.Transaction.Planned.{plan-digests, plan-moves}

module _ (outside : Outside) (fails fails' : Call → Bool) (partial : Place → Option Bytes)
    (path : LedgerPath) (disk disk' : Disk) (locked : Bool) (system : System)
    (listing : Option (List Entry)) (request : Request) (m : Manifest) (s : Store) where
  abbrev recovered : Outcome TransactionRefusal (Unit {0}) × Store
  recovered = recover_locked outside fails path disk locked (time_or_zero request.now) listing s

  abbrev whole : Outcome TransactionRefusal Committed × Store
  whole =
      commit_under_root_lock outside fails fails' partial path disk disk' locked system listing
        request s

  refused-whole :
      (e : TransactionRefusal)
      → plan outside request ≡ ok m
      → recovered.0 ≡ err e
      → whole ≡ (err e, recovered.1)
  unfolding commit_under_root_lock
  refused-whole e planned h = rw (commit_under_root_lock, planned, h) refl

  committed-whole :
      plan outside request ≡ ok m
      → recovered.0 ≡ ok tt
      → whole ≡ commit_locked outside fails' partial path disk' locked system request m recovered.1
  unfolding commit_under_root_lock
  committed-whole planned h = rw (commit_under_root_lock, planned, h) refl

-- `CommitUnderRootLock` of a request without moves that `plan` accepts: whatever call fails and
-- wherever a hook stops it, every target and every journal is as the recovery before it leaves
-- them, or the journal of its manifest stands and the files can be recovered, or every output holds its
-- new bytes; and when it succeeds every output does. The manifest marshals, the managed directory can
-- be synced after the journal is renamed, and no output path stands above another.
pub commit_under_root_lock-OldOrNew :
    (outside : Outside) (fails fails' : Call → Bool) (partial : Place → Option Bytes)
    (path : LedgerPath) (disk disk' : Disk) (locked : Bool) (system : System)
    (listing : Option (List Entry)) (request : Request) (m : Manifest) (s : Store) (encoded : Bytes)
    → plan outside request ≡ ok m
    → outside.marshal_manifest m ≡ some encoded
    → system.syncs_directory ≡ true
    → request.moves ≡ []
    → Apart m.outputs
    → Ending outside m
        (recover_locked outside fails path disk locked (time_or_zero request.now) listing s).1
        encoded
        (commit_under_root_lock outside fails fails' partial path disk disk' locked system listing
          request s)
commit_under_root_lock-OldOrNew outside fails fails' partial path disk disk' locked system listing
      request m s encoded planned marshals synced unmoving apart =
    let at_start =
      (recover_locked outside fails path disk locked (time_or_zero request.now) listing s).1 in
    elim (Outcome-cases
      (recover_locked outside fails path disk locked (time_or_zero request.now) listing s).0) [
        | inr (e, h) ↦
            subst (Ending outside m at_start encoded)
              (sym (
                refused-whole outside fails fails' partial path disk disk' locked system listing
                  request m s e planned h))
              (inl (refl, λ id. refl), λ k. cc)
        | inl (done, h) ↦
            subst (Ending outside m at_start encoded)
              (sym (
                committed-whole outside fails fails' partial path disk disk' locked system listing
                  request m s planned h))
              (commit_locked-OldOrNew outside path disk' locked system fails' partial request m
                at_start encoded marshals synced (plan-moves outside request m planned unmoving)
                apart (plan-digests outside request m planned).0)
      ]
