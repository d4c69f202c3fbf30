-- ===== src/Scope/Defs.antt =====
-- internal/core/scope.go: managed paths, the loop of `CheckScope` over the changes that Git reports,
-- and sortedUnique. Parameters: the maps of declared and of allowed managed paths, and `traverses`,
-- which says that rejectScopeSymlink or rejectManagedAlias refuses a path of the file system.
use specd_cli.Base.{
  Option, is_some, String, Bool, true, false, not, ◌&&◌, ◌||◌, List, [], ◌∷◌, ◌++◌, ◌==◌,
  if◌then◌else◌, sort_texts, Outcome, ok, err, ◌>>=◌, ◌>>◌, refuse_if, has_prefix, has_suffix,
}
use specd_cli.State.Replace.{Bytes}
use specd_cli.State.Defs.{refused_as}
use specd_cli.Record.Types.{Codec}
use specd_cli.Record.Replay.{LedgerRefusal, replay_file}

pub record GitScopeChange : Type 0 where
  pub kind : String
  pub path : String
  pub previous_path : String

pub data ScopeRefusal : Type 0 where
  scope_path : String → ScopeRefusal
  scope_outside : List String → ScopeRefusal
  scope_ledger : LedgerRefusal → ScopeRefusal
  scope_history : ScopeRefusal

unfoldable pub managed_scope_path : String → Bool
unfolding has_prefix
managed_scope_path value =
    value == ".specd" || has_prefix value ".specd/" || value == ".git" || has_prefix value ".git/"

unfoldable pub managed_lock_path : String → Bool
unfolding has_suffix
managed_lock_path value = managed_scope_path value && has_suffix value ".lock"

unfoldable pub item_paths : GitScopeChange → List String
item_paths item =
    if item.previous_path == "" then item.path ∷ [] else item.previous_path ∷ item.path ∷ []

-- the loop of sortedUnique over the sorted values
unfoldable pub drop_repeats : List String → List String
drop_repeats [] = []
drop_repeats (x ∷ []) = x ∷ []
drop_repeats (x ∷ y ∷ ys) = let rest = drop_repeats (y ∷ ys) in if x == y then rest else x ∷ rest

unfoldable pub sorted_unique : List String → List String
unfolding drop_repeats
sorted_unique values = drop_repeats (sort_texts values)

-- the variables `changed` and `offending`
pub record Paths : Type 0 where
  pub changed : List String
  pub offending : List String

abbrev pub offend : List String → Paths → Paths
offend more s = record s { offending = s.offending ++ more }

abbrev pub is_nil : List String → Bool
is_nil [] = true
is_nil (x ∷ xs) = false

module _ (declared allowed traverses : String → Bool) where
  unfoldable pub check_path : String → Paths → Outcome ScopeRefusal Paths
  check_path path s =
      if managed_lock_path path
      then ok s
      else if managed_scope_path path
      then if allowed path then ok s else ok (offend (path ∷ []) s)
      else if not (declared path)
      then ok (offend (path ∷ []) s)
      else if traverses path
      then err (scope_path path)
      else ok (record s { changed = s.changed ++ path ∷ [] })

  unfoldable pub check_paths : List String → Paths → Outcome ScopeRefusal Paths
  check_paths [] s = ok s
  check_paths (path ∷ paths) s = do s' ← check_path path s; check_paths paths s'

  unfoldable pub check_change : GitScopeChange → Paths → Outcome ScopeRefusal Paths
  check_change item s =
      if not (item.kind == "A") && not (item.kind == "M")
      then ok (offend (item_paths item) s)
      else check_paths (item_paths item) s

  unfoldable pub check_changes : List GitScopeChange → Paths → Outcome ScopeRefusal Paths
  check_changes [] s = ok s
  check_changes (item ∷ items) s = do s' ← check_change item s; check_changes items s'

  -- The loop of `CheckScope` over the changes that deriveScopeChanges gave, and the verdict
  unfoldable pub judge_changes : List GitScopeChange → Outcome ScopeRefusal (List String)
  judge_changes changes = do
    s ← check_changes changes (record { changed = []; offending = [] })
    refuse_if (not (is_nil (sorted_unique s.offending))) (scope_outside (sorted_unique s.offending))
    ok (sorted_unique s.changed)

-- The evidence ledger, and the paths of the files that an attempt writes
pub record AttemptFiles : Type 0 where
  pub read_fails : Bool
  pub evidence : Option Bytes
  pub state_path : String
  pub history_path : String
  pub evidence_path : String

-- The map of `validatedAttemptManagedPaths`
abbrev pub allowed_paths : AttemptFiles → String → Bool
allowed_paths files p = p == files.state_path || p == files.history_path || p == files.evidence_path

module _ (codec : Codec) where
  unfoldable pub validated_attempt_managed_paths :
      AttemptFiles → Outcome ScopeRefusal (String → Bool)
  validated_attempt_managed_paths files = do
    replayed ←
        refused_as scope_ledger (replay_file codec "evidence" files.read_fails files.evidence)
    refuse_if (is_some replayed.1) scope_history
    ok (allowed_paths files)

  -- The end of `CheckScope`, from the declared files on
  unfoldable pub check_scope :
      AttemptFiles
      → (String → Bool)
      → (String → Bool)
      → List GitScopeChange
      → Outcome ScopeRefusal (List String)
  check_scope files declared traverses changes = do
    allowed ← validated_attempt_managed_paths files
    judge_changes declared allowed traverses changes
