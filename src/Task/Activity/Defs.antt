-- ===== src/Task/Activity/Defs.antt =====
-- internal/core/taskactivity.go: the persisted activity of a task, its legal edges, and the
-- projection of the persisted activity object onto the canonical task ids.
-- A Go `TaskActivity` is a string; `other` carries one that is none of the five constants.
-- A `json.RawMessage` of the decoded state is one JSON value, as `Raw` shows it to `json.Unmarshal`.
-- A Go map is an association list without an order that the code relies on: `persisted` lists its
-- entries, and the code sorts the keys before it reads them.
use specd_cli.Base.{
  ℕ, ◌+◌, String, Bool, true, false, not, ◌||◌, Option, none, some, List, [], ◌∷◌, map, ◌==◌,
  if◌then◌else◌, contains, is_some, sort_texts, Outcome, ok, err, ◌>>=◌, ◌>>◌, refuse_if,
}

pub data TaskActivity : Type 0 where
  pending in_progress completed failed blocked : TaskActivity
  other : String → TaskActivity

abbrev pub same_activity : TaskActivity → TaskActivity → Bool
same_activity pending pending = true
same_activity in_progress in_progress = true
same_activity completed completed = true
same_activity failed failed = true
same_activity blocked blocked = true
same_activity (other s) (other t) = s == t
same_activity _ _ = false

-- slices.Contains on activities
unfoldable pub has : List TaskActivity → TaskActivity → Bool
has [] a = false
has (x ∷ xs) a = same_activity x a || has xs a

abbrev pub task_activities : List TaskActivity
task_activities = pending ∷ in_progress ∷ completed ∷ failed ∷ blocked ∷ []

-- the map literal `taskActivityTransitions`; a missing key gives the nil slice
abbrev pub task_activity_transitions : TaskActivity → List TaskActivity
task_activity_transitions pending = in_progress ∷ blocked ∷ []
task_activity_transitions in_progress = completed ∷ failed ∷ []
task_activity_transitions failed = in_progress ∷ blocked ∷ []
task_activity_transitions blocked = pending ∷ []
task_activity_transitions _ = []

unfoldable pub valid : TaskActivity → Bool
unfolding has
valid a = has task_activities a

unfoldable pub can_transition_task_activity : TaskActivity → TaskActivity → Bool
unfolding valid
can_transition_task_activity from to =
    if not (valid from) || not (valid to) then false else has (task_activity_transitions from) to

unfoldable pub next_task_activities : TaskActivity → List TaskActivity
unfolding valid
next_task_activities from = if not (valid from) then [] else task_activity_transitions from

-- What json.Unmarshal sees of one value: a string, `null`, or anything else.
pub data Raw : Type 0 where
  null not_text : Raw
  text : String → Raw

-- The activity that a text names.
unfoldable pub activity_of : String → TaskActivity
activity_of s =
    if s == "pending"
    then pending
    else if s == "in_progress"
    then in_progress
    else if s == "completed"
    then completed
    else if s == "failed"
    then failed
    else if s == "blocked"
    then blocked
    else other s

-- Unmarshalling `null` into a string leaves the zero value, the empty text.
unfoldable pub decode_task_activity : Raw → Option TaskActivity
unfolding valid activity_of
decode_task_activity null = if valid (activity_of "") then some (activity_of "") else none
decode_task_activity not_text = none
decode_task_activity (text s) = if valid (activity_of s) then some (activity_of s) else none

abbrev pub Persisted : Type 0
Persisted = List (String × Raw)

-- `persisted[id]`
unfoldable pub raw_of : Persisted → String → Option Raw
raw_of [] id = none
raw_of ((k, raw) ∷ rest) id = if k == id then some raw else raw_of rest id

unfoldable pub project_task_activity : Persisted → String → Option TaskActivity
unfolding raw_of decode_task_activity
project_task_activity persisted id = elim (raw_of persisted id) [
  | none ↦ some pending
  | some raw ↦ decode_task_activity raw
]

pub record TaskActivityProjection : Type 0 where
  pub id : String
  pub activity : TaskActivity

-- The refusals, before their texts are formatted.
pub data ActivityRefusal : Type 0 where
  empty_id : ℕ → ActivityRefusal
  duplicated_id unknown_task malformed_activity : String → ActivityRefusal

unfoldable pub check_ids : List String → List String → ℕ → Outcome ActivityRefusal (Unit {0})
check_ids known [] position = ok tt
check_ids known (id ∷ ids) position = do
  refuse_if (id == "") (empty_id (position + 1))
  refuse_if (contains known id) (duplicated_id id)
  check_ids (id ∷ known) ids (position + 1)

unfoldable pub check_entries :
    List String → Persisted → List String → Outcome ActivityRefusal (Unit {0})
unfolding raw_of decode_task_activity
check_entries known persisted [] = ok tt
check_entries known persisted (id ∷ ids) = do
  refuse_if (not (contains known id)) (unknown_task id)
  refuse_if (not (is_some (project_task_activity persisted id))) (malformed_activity id)
  check_entries known persisted ids

unfoldable pub project_rows :
    Persisted → List String → Outcome ActivityRefusal (List TaskActivityProjection)
project_rows persisted [] = ok []
project_rows persisted (id ∷ ids) = elim (project_task_activity persisted id) [
  | none ↦ err (malformed_activity id)
  | some activity ↦ do
    rows ← project_rows persisted ids
    ok (record { id = id; activity = activity } ∷ rows)
]

abbrev pub keys : Persisted → List String
keys = map (λ entry. entry.0)

unfoldable pub project_task_activities :
    List String → Persisted → Outcome ActivityRefusal (List TaskActivityProjection)
unfolding check_ids check_entries project_rows
project_task_activities canonical_ids persisted = do
  check_ids [] canonical_ids 0
  check_entries canonical_ids persisted (sort_texts (keys persisted))
  project_rows persisted canonical_ids
