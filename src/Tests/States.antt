-- ===== src/Tests/States.antt =====
-- Runs of internal/core/persist and internal/core/state, with JSON instantiated by two bytes for the
-- revision and the stage.
use specd_cli.Base.{
  ℕ, String, ◌≡◌, ◌≢◌, refl, ap, subst, ◌⊎◌, Bool, true, false, Option, none, some, [], ◌∷◌, ◌==◌,
  if◌then◌else◌, All, Outcome, ok, err, is_ok, nat_eq, contains, arith,
}
use specd_cli.State.Replace.{
  Bytes, Files, System, replaced, stopped_at, Action, sync_directory, actions, atomic_replace,
  visited, IsWhole, visited-IsWhole, atomic_replace-whole,
}
use specd_cli.State.Tokens.{
  Stream, open_object, close_object, end_of_file, duplicate_key, reject_duplicate_keys, walk,
  ensure_eof,
}
use specd_cli.State.Json.{
  Json, atom, object, member, end, tokens_of, no_repeats, reject_duplicate_keys_iff,
}
use specd_cli.State.Defs.{
  State, StateRefusal, stale_revision, replace_fails, initial, validate, count_up, encode, decode,
  prepare_mutation, mutate_state,
}
use specd_cli.State.Laws.{Prepared, mutate_state-commits, second_mutation-stale}

abbrev pub good_system : System
good_system = record {
  creates = true;
  chmods = true;
  writes = 100;
  syncs = true;
  closes = true;
  renames = true;
  syncs_directory = true;
  removes = true;
}

abbrev full_disk : System
full_disk = record good_system { writes = 1 }

abbrev old_file : Files
old_file = record { content = some (7 ∷ 0 ∷ 10 ∷ []); temporary = none }

abbrev no_hook : String → Bool
no_hook step = false

abbrev sample : ℕ → ℕ → State Unit
sample revision stage = record (initial "change" "create") {
  revision = revision;
  stage = if nat_eq stage 1 then "approved" else "planning";
}

abbrev marshal : State Unit → Option Bytes
marshal s = some (s.revision ∷ (if s.stage == "approved" then 1 else 0) ∷ [])

abbrev unmarshal : Bytes → Option (State Unit × Stream)
unmarshal (r ∷ n ∷ rest) = some (sample r n, record { tokens = []; ending = end_of_file })
unmarshal _ = none

abbrev stream_of : Bytes → Stream
stream_of bytes = record { tokens = open_object ∷ close_object ∷ []; ending = end_of_file }

abbrev approve : State Unit → Outcome StateRefusal (State Unit)
approve s = ok (record s { stage = "approved" })

approve_keeps : (s s' : State Unit) → approve s ≡ ok s' → s'.revision ≡ s.revision
approve_keeps s s' h = ground arith

approved_file :
    mutate_state marshal unmarshal stream_of good_system true old_file "change" 7 approve
    ≡ (ok (sample 8 1), record { content = some (8 ∷ 1 ∷ 10 ∷ []); temporary = none })
unfolding mutate_state prepare_mutation decode reject_duplicate_keys walk ensure_eof validate encode
    count_up atomic_replace
approved_file = refl

visited-IsWhole_example :
    All
      (IsWhole (some (7 ∷ 0 ∷ 10 ∷ [])) (1 ∷ 2 ∷ []))
      (visited full_disk no_hook (1 ∷ 2 ∷ []) actions old_file)
visited-IsWhole_example = visited-IsWhole full_disk no_hook (1 ∷ 2 ∷ []) old_file

atomic_replace-whole_example :
    let (result, files') = atomic_replace full_disk no_hook (1 ∷ 2 ∷ []) old_file in
    (result ≡ replaced → (files'.content ≡ some (1 ∷ 2 ∷ [])) × (files'.temporary ≡ none))
    × ((a : Action)
        → result ≡ stopped_at a
        → a ≢ sync_directory
        → files'.content ≡ some (7 ∷ 0 ∷ 10 ∷ []))
    × (true ≡ true → old_file.temporary ≡ none → files'.temporary ≡ none)
atomic_replace-whole_example = atomic_replace-whole full_disk no_hook (1 ∷ 2 ∷ []) old_file

abbrev repeating : Json
repeating =
    object (member "a" atom (member "b" (object (member "k" atom (member "k" atom end))) end))

repeated_key :
    reject_duplicate_keys (record { tokens = tokens_of repeating []; ending = end_of_file })
    ≡ err (duplicate_key "k")
unfolding reject_duplicate_keys walk tokens_of contains
repeated_key = refl

reject_duplicate_keys_iff_example :
    is_ok (reject_duplicate_keys (record { tokens = tokens_of repeating []; ending = end_of_file }))
    ≡ no_repeats repeating
reject_duplicate_keys_iff_example = reject_duplicate_keys_iff repeating

mutate_state-commits_example :
    let (result, files') =
      mutate_state marshal unmarshal stream_of good_system true old_file "change" 7 approve in
    ((next : State Unit)
      → result ≡ ok next
      → (encoded : Bytes) × Prepared marshal unmarshal stream_of
          (some (7 ∷ 0 ∷ 10 ∷ []))
          "change"
          7
          approve
          next
          encoded
        × (files'.content ≡ some encoded))
    × ((e : StateRefusal)
        → result ≡ err e
        → (files'.content ≡ some (7 ∷ 0 ∷ 10 ∷ [])) ⊎ (e ≡ replace_fails sync_directory))
mutate_state-commits_example =
    mutate_state-commits marshal unmarshal stream_of good_system true old_file "change" 7 approve

reads_back :
    (encoded : Bytes)
    → encode marshal unmarshal stream_of (sample 8 1) ≡ ok encoded
    → decode marshal unmarshal stream_of encoded "change" ≡ ok (sample 8 1)
unfolding encode decode validate reject_duplicate_keys walk ensure_eof
reads_back encoded h =
    let same : 8 ∷ 1 ∷ 10 ∷ [] ≡ encoded = ground arith in
    subst (λ bytes. decode marshal unmarshal stream_of bytes "change" ≡ ok (sample 8 1)) same refl

second_mutation-stale_example :
    (mutate_state marshal unmarshal stream_of full_disk true
      (mutate_state marshal unmarshal stream_of good_system true old_file "change" 7 approve).1
      "change"
      7
      approve).0
    ≡ err (stale_revision 7 8)
second_mutation-stale_example =
    second_mutation-stale marshal unmarshal stream_of good_system true old_file "change" 7 approve
      (sample 8 1) (omega arith) approve_keeps reads_back (ap (λ r. r.0) approved_file) full_disk
      approve
