-- ===== src/State/Replace.antt =====
-- internal/core/persist/atomic.go: the replacement of a file. The operating system is a parameter: it
-- answers each call, and `writes` is the number of bytes that a write call gets to the disk.
-- `AtomicReplace` is one straight line of calls that returns at the first error, so it is the list
-- `actions` with the interpreter `run`; the deferred function is `clean_up`.
use specd_cli.Base.{
  ℕ, zero, suc, String, ◌≡◌, refl, ◌⊎◌, inl, inr, Bool, true, false, Option, none, some, List, [],
  ◌∷◌, ltb, if◌then◌else◌, length, ◌&&◌, ◌==◌, arith, ◌≢◌, not, ap, All,
}

abbrev pub Bytes : Type 0
Bytes = List ℕ

pub record Files : Type 0 where
  pub content : Option Bytes
  pub temporary : Option Bytes

pub record System : Type 0 where
  pub creates : Bool
  pub chmods : Bool
  pub writes : ℕ
  pub syncs : Bool
  pub closes : Bool
  pub renames : Bool
  pub syncs_directory : Bool
  pub removes : Bool

pub data Action : Type 0 where
  hooked : String → Action
  create chmod write sync close rename sync_directory : Action

abbrev pub actions : List Action
actions =
    hooked "before-create"
    ∷ create
    ∷ chmod
    ∷ write
    ∷ hooked "after-write"
    ∷ sync
    ∷ hooked "after-sync"
    ∷ close
    ∷ hooked "before-rename"
    ∷ rename
    ∷ sync_directory
    ∷ []

pub data Replaced : Type 0 where
  replaced : Replaced
  stopped_at : Action → Replaced

abbrev pub first_bytes : ℕ → Bytes → Bytes
first_bytes zero bytes = []
first_bytes (suc n) [] = []
first_bytes (suc n) (b ∷ bs) = b ∷ first_bytes n bs

-- One call: whether it succeeded, and the files after it. The text of a hook that is not nil fails
-- the step where `hook` says so.
unfoldable pub perform : System → (String → Bool) → Bytes → Action → Files → Bool × Files
perform system hook bytes (hooked step) files = (not (hook step), files)
perform system hook bytes create files =
    if system.creates then (true, record files { temporary = some [] }) else (false, files)
perform system hook bytes chmod files = (system.chmods, files)
perform system hook bytes write files = (
  not (ltb system.writes (length bytes)),
  record files { temporary = some (first_bytes system.writes bytes) },
)
perform system hook bytes sync files = (system.syncs, files)
perform system hook bytes close files = (system.closes, files)
perform system hook bytes rename files =
    if system.renames
    then (true, record { content = files.temporary; temporary = none })
    else (false, files)
perform system hook bytes sync_directory files = (system.syncs_directory, files)

unfoldable pub run : System → (String → Bool) → Bytes → List Action → Files → Replaced × Files
unfolding perform
run system hook bytes [] files = (replaced, files)
run system hook bytes (a ∷ rest) files =
    let (succeeds, files') = perform system hook bytes a files in
    let last = run system hook bytes rest files' in
    if succeeds then last else (stopped_at a, files')

-- The removal is deferred once CreateTemp has made the temporary file.
abbrev pub made_temporary : Replaced → Bool
made_temporary replaced = true
made_temporary (stopped_at (hooked step)) = not (step == "before-create")
made_temporary (stopped_at create) = false
made_temporary (stopped_at a) = true

-- The deferred function; after the rename there is no temporary file to remove.
unfoldable pub clean_up : System → Replaced → Files → Files
clean_up system result files =
    if made_temporary result && system.removes then record files { temporary = none } else files

unfoldable pub atomic_replace : System → (String → Bool) → Bytes → Files → Replaced × Files
unfolding run clean_up
atomic_replace system hook bytes files =
    let (result, files') = run system hook bytes actions files in
    (result, clean_up system result files')

-- The files after each call that a run makes, the states that a crash can leave.
unfoldable pub visited : System → (String → Bool) → Bytes → List Action → Files → List Files
unfolding perform
visited system hook bytes [] files = files ∷ []
visited system hook bytes (a ∷ rest) files =
    let (succeeds, files') = perform system hook bytes a files in
    let later = visited system hook bytes rest files' in
    if succeeds then files ∷ later else files ∷ files' ∷ []

all_bytes : (n : ℕ) (bytes : Bytes) → ltb n (length bytes) ≡ false → first_bytes n bytes ≡ bytes
all_bytes zero [] h = refl
all_bytes zero (b ∷ bs) h = ground arith
all_bytes (suc n) [] h = refl
all_bytes (suc n) (b ∷ bs) h = ap (λ tail. b ∷ tail) (all_bytes n bs (ground arith))

abbrev pub IsWhole : Option Bytes → Bytes → Files → Type 0
IsWhole old bytes files = (files.content ≡ old) ⊎ (files.content ≡ some bytes)

-- Whatever the calls answer and wherever a hook stops it, the replaced file holds at every moment of
-- the replacement its old content or all of the new data.
pub visited-IsWhole :
    (system : System) (hook : String → Bool) (bytes : Bytes) (files : Files)
    → All (IsWhole files.content bytes) (visited system hook bytes actions files)
unfolding visited
visited-IsWhole system hook bytes files = ground (arith, all_bytes system.writes bytes)

-- A replacement that succeeds leaves the new data and no temporary file; one that stops before the
-- directory is synced leaves the old content; and where files can be removed and there was no
-- temporary file before, there is none behind.
pub atomic_replace-whole :
    (system : System) (hook : String → Bool) (bytes : Bytes) (files : Files)
    → let (result, files') = atomic_replace system hook bytes files in
      (result ≡ replaced → (files'.content ≡ some bytes) × (files'.temporary ≡ none))
      × ((a : Action) → result ≡ stopped_at a → a ≢ sync_directory → files'.content ≡ files.content)
      × (system.removes ≡ true → files.temporary ≡ none → files'.temporary ≡ none)
unfolding atomic_replace
atomic_replace-whole system hook bytes files = ground (arith, all_bytes system.writes bytes)

pub Replaced-cases : (r : Replaced) → (r ≡ replaced) ⊎ ((a : Action) × (r ≡ stopped_at a))
Replaced-cases replaced = inl refl
Replaced-cases (stopped_at a) = inr (a, refl)

pub Action-cases : (a : Action) → (a ≡ sync_directory) ⊎ (a ≢ sync_directory)
Action-cases sync_directory = inl refl
Action-cases (hooked step) = inr (λ e. cc)
Action-cases create = inr (λ e. cc)
Action-cases chmod = inr (λ e. cc)
Action-cases write = inr (λ e. cc)
Action-cases sync = inr (λ e. cc)
Action-cases close = inr (λ e. cc)
Action-cases rename = inr (λ e. cc)

-- A replacement does not stop at a directory that can be synced.
pub atomic_replace-synced :
    (system : System) (hook : String → Bool) (bytes : Bytes) (files : Files)
    → system.syncs_directory ≡ true
    → (atomic_replace system hook bytes files).0 ≢ stopped_at sync_directory
unfolding atomic_replace
atomic_replace-synced system hook bytes files h e = ground (arith, h, e)
