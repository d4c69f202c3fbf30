-- ===== src/Tests/Transactions.antt =====
-- Runs of internal/core/transaction on two outputs: one replaces a file, one makes one.
use specd_cli.Base.{
  ◌≡◌, refl, sym, ap, ◌∙◌, subst, ◌⊎◌, inl, inr, ℕ, zero, suc, String, Bool, true, false, Option,
  none, some, [], ◌∷◌, ◌==◌, if◌then◌else◌, Outcome, ok, err, is_ok, pos, some_injective, clean,
  has_prefix, contains_any,
}
use specd_cli.State.Replace.{Bytes, System, atomic_replace}
use specd_cli.Record.Appends.{healthy}
use specd_cli.Transaction.Types.{
  Output, Manifest, Request, Committed, at_target, Call, rename, TransactionRefusal, io,
  staged_missing, at_staged, Outside, Node, absent, regular, Store,
}
use specd_cli.Transaction.Plan.{under, valid_relative, any_bad_segment}
use specd_cli.Transaction.Apply.{
  resolve, append_bound, apply, apply_outputs, apply_output, locate, locate_moved, read_target,
  read_staged, replace_output,
}
use specd_cli.Transaction.Steps.{put_staged, make_parents, drop_stage, staged_file}
use specd_cli.Transaction.Commit.{
  commit_locked, bytes_for, check_current, commit_checked, commit_steps, stage_all, stage_outputs,
  stage_file, write_journal, set_journal, write_staged, make_stage,
}
use specd_cli.Transaction.Recoverable.{nth, Settled, Recoverable, Waiting, AllSettled, Apart}
use specd_cli.Transaction.OldOrNew.{OldOrNew, Finished, apply-OldOrNew}
use specd_cli.Transaction.Finishes.{calm, Resolves, apply-finishes}
use specd_cli.Transaction.Staging.{Untouched, planned}
use specd_cli.Transaction.Commits.{commit_locked-OldOrNew}
use specd_cli.Tests.Records.{codec, history_file}

abbrev spec_a : Output
spec_a = record { path = "a"; before = "bb"; after = "aa" }

abbrev spec_b : Output
spec_b = record { path = "b"; before = ""; after = "bb" }

abbrev two_outputs : Manifest
two_outputs = record {
  schema_version = pos 1;
  id = "t";
  operation = "sync";
  change = "c";
  revision = 1;
  timestamp = "T0Z";
  outputs = spec_a ∷ spec_b ∷ [];
  moves = [];
  bound_record = [];
}

abbrev pub outside : Outside
outside = record {
  codec = codec;
  marshal_manifest = λ m. some (1 ∷ []);
  unmarshal_manifest = λ raw. none;
  unmarshal_item = λ raw. none;
  format_time = λ n. "T0Z";
  parse_stamp = λ s. none;
  may_write = λ p. true;
  may_write_root = true;
}

abbrev old_nodes : String → Node
old_nodes p = if p == "a" then regular (66 ∷ []) else absent

abbrev both_staged : ℕ → Option Bytes
both_staged zero = some (65 ∷ [])
both_staged (suc i) = some (66 ∷ [])

-- A committed transaction of which nothing is applied.
abbrev committed : Store
committed = record {
  nodes = old_nodes;
  stages = λ id. if id == "t" then some both_staged else none;
  journals = λ id. if id == "t" then some (1 ∷ 10 ∷ []) else none;
  history = none;
}

-- Before the transaction
abbrev pub untouched : Store
untouched = record committed { stages = λ id. none; journals = λ id. none }

abbrev pub request : Request
request = record {
  operation = "sync";
  change = "c";
  revision = 1;
  now = some 1;
  outputs =
      record { path = "a"; before = "bb"; bytes = some (65 ∷ []) }
      ∷ record { path = "b"; before = ""; bytes = some (66 ∷ []) }
      ∷ [];
  moves = [];
  bound_record = none;
}

abbrev pub working : System
working = record {
  creates = true;
  chmods = true;
  writes = 100;
  syncs = true;
  closes = true;
  renames = true;
  syncs_directory = true;
  removes = true;
}

-- The second rename fails.
abbrev pub fails_at_b : Call → Bool
fails_at_b (rename (at_target p)) = p == "b"
fails_at_b c = false

committed-Recoverable : Recoverable codec.sha256_hex two_outputs committed
committed-Recoverable zero o h =
    subst
      (λ q. Settled codec.sha256_hex committed q ⊎ Waiting codec.sha256_hex committed "t" zero q)
      (some_injective h)
      (inr (record { old = refl; staged = 65 ∷ []; is_staged = refl; is_new = refl }))
committed-Recoverable (suc zero) o h =
    subst (λ q. Settled codec.sha256_hex committed q ⊎ Waiting codec.sha256_hex committed "t" 1 q)
      (some_injective h)
      (inr (record { old = refl; staged = 66 ∷ []; is_staged = refl; is_new = refl }))
committed-Recoverable (suc (suc i)) o h = cc

pub apart_paths :
    (x y o p : Output)
    → some x ≡ some o
    → some y ≡ some p
    → under x.path y.path ≡ false
    → under o.path p.path ≡ false
apart_paths x y o p h k e =
    ap (λ (q : Output). under q.path p.path) (sym (some_injective h))
    ∙ ap (λ (q : Output). under x.path q.path) (sym (some_injective k))
    ∙ e

two_outputs-Apart : Apart two_outputs.outputs
unfolding under has_prefix
two_outputs-Apart zero zero o p h k = inl refl
two_outputs-Apart zero (suc zero) o p h k = inr (apart_paths spec_a spec_b o p h k refl)
two_outputs-Apart (suc zero) zero o p h k = inr (apart_paths spec_b spec_a o p h k refl)
two_outputs-Apart (suc zero) (suc zero) o p h k = inl refl
two_outputs-Apart (suc (suc i)) j o p h k = cc
two_outputs-Apart i (suc (suc j)) o p h k = cc

two_outputs-Resolves : Resolves outside two_outputs
unfolding resolve valid_relative clean contains_any any_bad_segment
two_outputs-Resolves zero o h =
    subst (λ (q : Output). resolve outside calm q.path ≡ ok q.path) (some_injective h) refl
two_outputs-Resolves (suc zero) o h =
    subst (λ (q : Output). resolve outside calm q.path ≡ ok q.path) (some_injective h) refl
two_outputs-Resolves (suc (suc i)) o h = cc

digests :
    (i : ℕ) (o : Output)
    → nth i two_outputs.outputs ≡ some o
    → codec.sha256_hex (planned request.outputs o) ≡ o.after
unfolding bytes_for
digests zero o h =
    subst (λ (q : Output). codec.sha256_hex (planned request.outputs q) ≡ q.after)
      (some_injective h) refl
digests (suc zero) o h =
    subst (λ (q : Output). codec.sha256_hex (planned request.outputs q) ≡ q.after)
      (some_injective h) refl
digests (suc (suc i)) o h = cc

no_record :
    (t : Store)
    → t.history ≡ none
    → (append_bound outside history_file healthy true two_outputs t).0 ≡ ok tt
unfolding append_bound
no_record t h = refl

-- The second rename fails: the first output is new, the second is old and staged, the journal stands.
second_fails :
    let (result, s) = apply outside history_file healthy true fails_at_b two_outputs committed in
    (result ≡ err (io (at_target "b")))
    × (s.nodes "a" ≡ regular (65 ∷ []))
    × (s.nodes "b" ≡ absent)
    × (s.journals "t" ≡ some (1 ∷ 10 ∷ []))
unfolding apply apply_outputs apply_output locate resolve valid_relative clean contains_any
    any_bad_segment read_target read_staged replace_output put_staged make_parents under
    locate_moved
second_fails = (refl, refl, refl, refl)

apply-OldOrNew_example :
    let (result, s') = apply outside history_file healthy true fails_at_b two_outputs committed in
    OldOrNew outside two_outputs (some (1 ∷ 10 ∷ [])) s'
    × (result ≡ ok tt → Finished outside two_outputs s')
apply-OldOrNew_example =
    apply-OldOrNew outside history_file healthy true fails_at_b two_outputs committed
      two_outputs-Apart refl committed-Recoverable

apply-finishes_example :
    ((apply outside history_file healthy true calm two_outputs committed).0 ≡ ok tt)
    × Finished outside two_outputs
        (apply outside history_file healthy true calm two_outputs committed).1
apply-finishes_example =
    apply-finishes outside history_file healthy true two_outputs committed two_outputs-Apart refl
      two_outputs-Resolves no_record committed-Recoverable

commit_locked-OldOrNew_example :
    let (result, s') =
      commit_locked outside fails_at_b
        (λ p. none)
        history_file
        healthy
        true
        working
        request
        two_outputs
        untouched in
    (Untouched untouched s' ⊎ OldOrNew outside two_outputs (some (1 ∷ 10 ∷ [])) s')
    × (is_ok result ≡ true → AllSettled codec.sha256_hex two_outputs s')
commit_locked-OldOrNew_example =
    commit_locked-OldOrNew outside history_file healthy true working fails_at_b (λ p. none) request
      two_outputs untouched (1 ∷ []) refl refl refl two_outputs-Apart digests

abbrev unsynced : System
unsynced = record working { syncs_directory = false }

abbrev left : Outcome TransactionRefusal Committed × Store
left =
    commit_locked outside calm (λ p. none) history_file healthy true unsynced request two_outputs
      untouched

-- The directory cannot be synced after the journal is renamed: the journal stands and the stage is
-- removed, and the recovery that follows refuses.
unsynced_journal :
    (left.1.journals "t" ≡ some (1 ∷ 10 ∷ []))
    × (staged_file (left.1.stages "t") 0 ≡ none)
    × ((apply outside history_file healthy true calm two_outputs left.1).0
        ≡ err (staged_missing (at_staged "t" 0)))
unfolding commit_locked check_current commit_checked commit_steps stage_all stage_outputs stage_file
    write_journal atomic_replace drop_stage set_journal write_staged make_stage bytes_for apply
    apply_outputs apply_output locate resolve valid_relative clean contains_any any_bad_segment
    read_target read_staged replace_output put_staged make_parents under locate_moved
unsynced_journal = (refl, refl, refl)
