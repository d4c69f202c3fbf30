-- ===== src/Task/Transition/Recovers.antt =====
-- internal/core/tasktransition.go: a decision to append a record is made again from that record.
use specd_cli.Base.{
  ◌≡◌, refl, sym, ap, ◌∙◌, subst, ℕ, String, Bool, true, false, not, Option, none, some, List, [],
  ◌∷◌, ◌++◌, ◌==◌, eq_iff, arith, nat_eq, is_some, ok, ok_injective, >>=-eq-ok, >>-eq-ok,
  refuse_if-eq-ok, trim_space,
}
use specd_cli.State.Replace.{Bytes}
use specd_cli.State.Defs.{State, needs, refused_as, refused_as-eq-ok, decode}
use specd_cli.Record.Types.{Record, Codec}
use specd_cli.Record.Defs.{new_record, canonical_payload, record_identity, validate_record}
use specd_cli.Record.Append.{has_id}
use specd_cli.Record.Replay.{replay_file}
use specd_cli.Task.Activity.Defs.{Raw, TaskActivity, same_activity}
use specd_cli.Task.Transition.Types.{
  plan_invalid, state_unreadable, stale_revision, history_fails, history_torn,
  TaskTransitionRequest, TaskTransition,
}
use specd_cli.Task.Transition.Defs.{
  recoverable_record, recoverable_task_transition, may_recover, history_actor,
  decode_task_transition,
}
use specd_cli.Task.Transition.Run.{
  World, Decision, choose, admissible, admit, decide, history_record, differs,
}
use specd_cli.Task.Transition.Performed.{decide-Decided}
use specd_cli.Task.Transition.Admitted.{admit-Admitted, same_activity_self}

last_recovers :
    (change : String) (revision : ℕ) (items : List Record) (item : Record)
    → may_recover change revision item ≡ true
    → recoverable_record change revision (items ++ item ∷ []) ≡ some item
unfolding recoverable_record
last_recovers change revision [] item h = rw h refl
last_recovers change revision (x ∷ items) item h =
    rw (last_recovers change revision items item h) refl

last_actor :
    (items : List Record) (item : Record)
    → has_id item.id items ≡ false
    → history_actor (items ++ item ∷ []) item.id ≡ item.actor
unfolding history_actor
last_actor [] item h = rw ((eq_iff item.id item.id).1 refl) refl
last_actor (x ∷ items) item h =
    let other : (x.id == item.id) ≡ false = ground (arith, h) in
    rw other (last_actor items item (ground (arith, h)))

-- The fields that `New` keeps
new_record-keeps :
    (codec : Codec) (r made : Record)
    → new_record codec r ≡ ok made
    → (made.change ≡ r.change)
      × (made.kind ≡ r.kind)
      × (made.expected_revision ≡ r.expected_revision)
      × (made.resulting_revision ≡ r.resulting_revision)
      × (made.actor ≡ r.actor)
unfolding new_record
new_record-keeps codec r made h =
    let (payload, canonical, a) = >>=-eq-ok (canonical_payload codec r.payload) _ h in
    let (id, named, b) = >>=-eq-ok (record_identity codec _) _ a in
    let c = >>-eq-ok (validate_record codec _) _ b in
    let same = ok_injective refl c.1 in
    (
      sym (ap (λ (x : Record). x.change) same),
      sym (ap (λ (x : Record). x.kind) same),
      sym (ap (λ (x : Record). x.expected_revision) same),
      sym (ap (λ (x : Record). x.resulting_revision) same),
      sym (ap (λ (x : Record). x.actor) same),
    )

-- A decision to append a record is of the request and of what was projected.
choose-fresh :
    (world : World) (history : List Record) (request : TaskTransitionRequest) (current : State Raw)
    (from : TaskActivity) (recovered : Option (TaskTransition × String)) (d : Decision)
    → choose world history request current from recovered ≡ ok d
    → d.recovery ≡ none
    → (d.current ≡ current)
      × (d.transition.task ≡ request.task)
      × (d.transition.from ≡ from)
      × (d.transition.to ≡ request.to)
unfolding choose
choose-fresh world history request current from none d h fresh =
    let same = ok_injective h refl in
    (
      ap (λ (x : Decision). x.current) same,
      ap (λ (x : Decision). x.transition.task) same,
      ap (λ (x : Decision). x.transition.from) same,
      ap (λ (x : Decision). x.transition.to) same,
    )
choose-fresh world history request current from (some found) d h fresh =
    let done = refuse_if-eq-ok (differs history request from found) _ _ h in
    cc (ap (λ (x : Decision). x.recovery) (ok_injective refl done.1), fresh)

module _ (world : World) (request : TaskTransitionRequest) (records : List Record) (d : Decision)
    (item : Record) (actor : item.actor ≡ trim_space request.actor)
    (fresh : has_id item.id records ≡ false) (decided : d.recovery ≡ none) where
  abbrev resumed : Decision
  resumed = record d { recovery = some item.id }

  choose-again :
      (from : TaskActivity) (recovered : Option (TaskTransition × String))
      → choose world records request d.current from recovered ≡ ok d
      → choose world (records ++ item ∷ []) request d.current from (some (d.transition, item.id))
        ≡ ok resumed
  unfolding choose
  choose-again from recovered h =
      let (same, task, begin, to) =
        choose-fresh world records request d.current from recovered d h decided in
      let named : (d.transition.task == request.task) ≡ true =
        (eq_iff d.transition.task request.task).1 task in
      let begun : same_activity d.transition.from from ≡ true =
        ap (λ a. same_activity a from) begin ∙ same_activity_self from in
      let ended : same_activity d.transition.to request.to ≡ true =
        ap (λ a. same_activity a request.to) to ∙ same_activity_self request.to in
      let by : (history_actor (records ++ item ∷ []) item.id == trim_space request.actor) ≡ true =
        (eq_iff _ _).1 (last_actor records item fresh ∙ actor) in
      let alike : differs (records ++ item ∷ []) request from (d.transition, item.id) ≡ false =
        ground (arith, named, begun, ended, by) in
      rw alike refl

  admit-again :
      (recovered : Option (TaskTransition × String))
      → admit world records request d.current recovered ≡ ok d
      → admit world (records ++ item ∷ []) request d.current (some (d.transition, item.id))
        ≡ ok resumed
  unfolding admit
  admit-again recovered h =
      let (from, passed, chosen) = >>=-eq-ok (admissible world request d.current) _ h in
      rw passed (choose-again from recovered chosen)

-- The record that a decision appends is the one that a later run recovers.
appended-may_recover :
    (world : World) (change : String) (request : TaskTransitionRequest) (d : Decision)
    (item : Record)
    → new_record world.codec (history_record world request d.current d.transition change) ≡ ok item
    → (may_recover change d.current.revision item ≡ true) × (item.actor ≡ trim_space request.actor)
unfolding history_record
appended-may_recover world change request d item h =
    let made = history_record world request d.current d.transition change in
    let (same_change, same_kind, expected, resulting, actor) =
      new_record-keeps world.codec made item h in
    (rw (same_change, same_kind, expected, resulting) (ground (arith, eq_iff change change)), actor)

module _ (world : World) (change : String) (request : TaskTransitionRequest) (read_fails : Bool)
    (content history history' : Option Bytes) (records : List Record) (d : Decision) (item : Record)
    (decided : decide world change request read_fails content history ≡ ok d)
    (unrecovered : d.recovery ≡ none)
    (replayed : replay_file world.codec "history" read_fails history ≡ ok (records, none))
    (made : new_record world.codec (history_record world request d.current d.transition change)
      ≡ ok item)
    (fresh : has_id item.id records ≡ false)
    (replayed' : replay_file world.codec "history" read_fails history'
      ≡ ok (records ++ item ∷ [], none))
    (decodes : decode_task_transition world.unmarshal_transition item.payload
      ≡ ok d.transition) where
  recovers-again :
      recoverable_task_transition world.unmarshal_transition
        (records ++ item ∷ [])
        change
        d.current.revision
      ≡ ok (some (d.transition, item.id))
  unfolding recoverable_task_transition
  recovers-again =
      let recovered =
        last_recovers change d.current.revision records item
          (appended-may_recover world change request d item made).0 in
      rw (recoverable_task_transition, recovered, decodes) refl

  decide-admits :
      (recovered : Option (TaskTransition × String)) × (admit world records request d.current
          recovered
        ≡ ok d)
  unfolding decide
  decide-admits =
      let (raw, found, a) = >>=-eq-ok (needs content state_unreadable) _ decided in
      let reading = decode world.marshal world.unmarshal world.codec.stream_of raw change in
      let (current, decoded, b) = >>=-eq-ok (refused_as plan_invalid reading) _ a in
      let (revision, c) =
        refuse_if-eq-ok (not (nat_eq current.revision request.expected_revision))
          (stale_revision request.expected_revision current.revision) _ b in
      let (replay, read, e) =
        >>=-eq-ok (refused_as history_fails (replay_file world.codec "history" read_fails history))
          _ c in
      let (whole, f) = refuse_if-eq-ok (is_some replay.1) history_torn _ e in
      let (recovered, g, i) =
        >>=-eq-ok
          (recoverable_task_transition world.unmarshal_transition replay.0 change current.revision)
          _ f in
      let same = (admit-Admitted world replay.0 request current recovered d i).0 in
      let records_read : (records, none) ≡ replay = ok_injective replayed (
        refused_as-eq-ok history_fails (replay_file world.codec "history" read_fails history)
          read) in
      let admitted : admit world records request d.current recovered ≡ ok d =
        subst (λ (s : State Raw). admit world records request s recovered ≡ ok d) (sym same)
          (subst (λ (rs : List Record). admit world rs request current recovered ≡ ok d)
            (sym (ap (λ (r : List Record × Option ℕ). r.0) records_read)) i) in
      (recovered, admitted)

  pub decide-again :
      decide world change request read_fails content history'
      ≡ ok (record d { recovery = some item.id })
  unfolding decide
  decide-again =
      let (raw, found, decoded, revision, admitted) =
        decide-Decided world change request read_fails content history d decided in
      let again =
        admit-again world request records d item
          (appended-may_recover world change request d item made).1 fresh unrecovered
          decide-admits.0 decide-admits.1 in
      rw (found, decoded, revision, replayed', recovers-again, again) refl
