-- ===== src/Task/Transition/Performed.antt =====
-- internal/core/tasktransition.go: what a successful `TransitionTaskActivity` has done.
use specd_cli.Base.{
  ◌≡◌, refl, sym, ap, ◌∙◌, subst, inl, inr, String, Bool, true, false, not, ◌==◌, Option, some,
  nat_eq, is_some, arith, Bool-cases, Option-cases, Outcome-cases, Outcome, ok, err, ok_injective,
  >>=-eq-ok, refuse_if-eq-ok, trim_space,
}
use specd_cli.State.Replace.{
  Bytes, Files, System, atomic_replace, atomic_replace-whole, Replaced-cases,
}
use specd_cli.State.Defs.{State, needs, refused_as, refused_as-eq-ok, decode, encode}
use specd_cli.Record.Defs.{new_record}
use specd_cli.Record.Replay.{replay_file}
use specd_cli.Record.Append.{Disk, LedgerPath, append_record}
use specd_cli.Task.Activity.Defs.{Raw}
use specd_cli.Task.Transition.Types.{
  TaskTransitionRequest, TaskTransition, TransitionRefusal, plan_invalid, state_unreadable,
  stale_revision, history_fails, history_torn, unauthorized, lock_fails, encode_refused,
  replace_fails, record_refused, append_refused, interrupted,
}
use specd_cli.Task.Transition.Defs.{recoverable_task_transition}
use specd_cli.Task.Transition.Run.{
  World, Decision, decide, next_state, persist_task_transition_state, history_record,
  record_and_persist, carry_out, transition_task_activity,
}
use specd_cli.Task.Transition.Follows.{Follows, next_state-Follows}
use specd_cli.Task.Transition.Admitted.{Admitted, admit-Admitted, needs-some}

abbrev Answer : Type 0
Answer = Outcome TransitionRefusal TaskTransition × Option Bytes × Files

-- The state file holds a state that follows `current` by `t`.
abbrev pub Holds : World → State Raw → TaskTransition → Files → Type 0
Holds world current t files =
    (id : String) × (next : State Raw) × (encoded : Bytes) × Follows current t id next
    × (encode world.marshal world.unmarshal world.codec.stream_of next ≡ ok encoded)
    × (files.content ≡ some encoded)

module _ (world : World) (system : System) (current : State Raw) (t : TaskTransition) where
  abbrev Persisted : Outcome TransitionRefusal TaskTransition × Files → Type 0
  Persisted (result, files') =
      (t' : TaskTransition) → result ≡ ok t' → (t ≡ t') × Holds world current t files'

  persist-Persisted :
      (id : String) (files : Files)
      → Persisted (persist_task_transition_state world system current t id files)
  unfolding persist_task_transition_state
  persist-Persisted id files =
      let whole = persist_task_transition_state world system current t id files in
      elim (Outcome-cases (
        encode world.marshal world.unmarshal world.codec.stream_of
          (next_state world current t id))) [
            | inr (r, e) ↦
                let same : whole ≡ (err (encode_refused r), files) =
                  rw (persist_task_transition_state, e) refl in
                subst Persisted (sym same) (λ t' h. cc)
            | inl (encoded, e) ↦
                let replacement = atomic_replace system (λ step. false) encoded files in
                elim (Replaced-cases replacement.0) [
                  | inr (a, f) ↦
                      let same : whole ≡ (err (replace_fails a), replacement.1) =
                        rw (persist_task_transition_state, e, f) refl in
                      subst Persisted (sym same) (λ t' h. cc)
                  | inl f ↦
                      let same : whole ≡ (ok t, replacement.1) =
                        rw (persist_task_transition_state, e, f) refl in
                      subst Persisted (sym same) (λ t' h. (
                        ok_injective refl h,
                        (
                          id,
                          next_state world current t id,
                          encoded,
                          next_state-Follows world current t id,
                          e,
                          ((atomic_replace-whole system (λ step. false) encoded files).0 f).0,
                        ),
                      ))
                ]
          ]

module _ (world : World) (change : String) (request : TaskTransitionRequest) (system : System)
    (path : LedgerPath) (disk : Disk) (locked fails_after : Bool) (d : Decision)
    (history : Option Bytes) (files : Files) where
  abbrev Carried : Answer → Type 0
  Carried (result, history', files') =
      Persisted world system d.current d.transition (result, files')

  record_and_persist-Carried :
      Carried (
        record_and_persist world change request system path disk locked fails_after d history files)
  unfolding record_and_persist
  record_and_persist-Carried =
      let whole =
        record_and_persist world change request system path disk locked fails_after d history
          files in
      let item =
        new_record world.codec (history_record world request d.current d.transition change) in
      elim (Outcome-cases item) [
        | inr (r, f) ↦
            let same : whole ≡ (err (record_refused r), history, files) =
              rw (record_and_persist, f) refl in
            subst Carried (sym same) (λ t' h. cc)
        | inl (made, f) ↦
            let appended = append_record world.codec path disk locked history "history" made in
            elim (Outcome-cases appended.0) [
              | inr (r, g) ↦
                  let same : whole ≡ (err (append_refused r), appended.1, files) =
                    rw (record_and_persist, f, g) refl in
                  subst Carried (sym same) (λ t' h. cc)
              | inl (done, g) ↦ elim (Bool-cases fails_after) [
                | inl k ↦
                    let same : whole ≡ (err interrupted, appended.1, files) =
                      rw (record_and_persist, f, g, k) refl in
                    subst Carried (sym same) (λ t' h. cc)
                | inr k ↦
                    let last =
                      persist_task_transition_state world system d.current d.transition made.id
                        files in
                    let same : whole ≡ (last.0, appended.1, last.1) =
                      rw (record_and_persist, f, g, k) refl in
                    subst Carried (sym same)
                      (persist-Persisted world system d.current d.transition made.id files)
              ]
            ]
      ]

  carry_out-Carried :
      Carried (carry_out world change request system path disk locked fails_after d history files)
  unfolding carry_out record_and_persist
  carry_out-Carried =
      let whole =
        carry_out world change request system path disk locked fails_after d history files in
      elim (Option-cases d.recovery) [
        | inr (id, e) ↦
            let last = persist_task_transition_state world system d.current d.transition id files in
            let same : whole ≡ (last.0, history, last.1) = rw (carry_out, e) refl in
            subst Carried (sym same)
              (persist-Persisted world system d.current d.transition id files)
        | inl e ↦
            let same : whole
                ≡ record_and_persist world change request system path disk locked fails_after d
                    history files =
              rw (carry_out, e) refl in
            subst Carried (sym same) record_and_persist-Carried
      ]

-- What a successful transition leaves, and what it was admitted on.
pub record Performed (world : World) (change : String) (request : TaskTransitionRequest)
    (files : Files) (t : TaskTransition) (files' : Files) : Type 0 where
  pub decision : Decision
  pub admitted : Admitted world request decision
  pub raw : Bytes
  pub was_read : files.content ≡ some raw
  pub decoded :
      decode world.marshal world.unmarshal world.codec.stream_of raw change ≡ ok decision.current
  pub at_revision : nat_eq decision.current.revision request.expected_revision ≡ true
  pub returned : decision.transition ≡ t
  pub written : Holds world decision.current decision.transition files'

module _ (world : World) (change : String) (request : TaskTransitionRequest) where
  abbrev pub Decided : Option Bytes → Decision → Type 0
  Decided content d =
      (raw : Bytes) × (content ≡ some raw)
      × (decode world.marshal world.unmarshal world.codec.stream_of raw change ≡ ok d.current)
      × (nat_eq d.current.revision request.expected_revision ≡ true)
      × Admitted world request d

  pub decide-Decided :
      (read_fails : Bool) (content history : Option Bytes) (d : Decision)
      → decide world change request read_fails content history ≡ ok d
      → Decided content d
  unfolding decide
  decide-Decided read_fails content history d h =
      let (raw, found, a) = >>=-eq-ok (needs content state_unreadable) _ h in
      let reading = decode world.marshal world.unmarshal world.codec.stream_of raw change in
      let (current, decoded, b) = >>=-eq-ok (refused_as plan_invalid reading) _ a in
      let (revision, c) =
        refuse_if-eq-ok (not (nat_eq current.revision request.expected_revision))
          (stale_revision request.expected_revision current.revision) _ b in
      let (replayed, read, e) =
        >>=-eq-ok (refused_as history_fails (replay_file world.codec "history" read_fails history))
          _ c in
      let (whole, f) = refuse_if-eq-ok (is_some replayed.1) history_torn _ e in
      let (recovered, g, i) =
        >>=-eq-ok
          (recoverable_task_transition world.unmarshal_transition replayed.0 change
            current.revision)
          _ f in
      let (same, admitted) = admit-Admitted world replayed.0 request current recovered d i in
      (
        raw,
        needs-some content state_unreadable found,
        refused_as-eq-ok plan_invalid reading decoded ∙ ap ok (sym same),
        ap (λ (s : State Raw). nat_eq s.revision request.expected_revision) same
            ∙ ground (arith, revision),
        admitted,
      )

-- A transition of a task that succeeds was asked for at the revision of the decoded state, of a task of
-- the plan's graph, along a legal edge from the task's projected activity and not to completion; a
-- start was of a task that readiness lets start. What is returned is that task and that edge. The state
-- file holds the encoding of a state whose revision is one more on words of 64 bits, in which the task
-- has its new activity and every other task its old one, and whose other fields but the name of the
-- last transition are those of the decoded state.
pub transition_task_activity-Performed :
    (world : World) (change : String) (request : TaskTransitionRequest) (system : System)
    (path : LedgerPath) (disk : Disk) (locked ledger_locked fails_after : Bool)
    (history : Option Bytes) (files : Files) (t : TaskTransition)
    → let (result, history', files') =
        transition_task_activity world change request system path disk locked ledger_locked
          fails_after history files in
      result ≡ ok t → Performed world change request files t files'
unfolding transition_task_activity
transition_task_activity-Performed world change request system path disk locked ledger_locked
      fails_after history files =
    let whole =
      transition_task_activity world change request system path disk locked ledger_locked
        fails_after history files in
    let Goal : Answer → Type 0 = λ answer.
      (t : TaskTransition) → answer.0 ≡ ok t → Performed world change request files t answer.2 in
    elim (Bool-cases (trim_space request.actor == "")) [
      | inl e ↦
          let same : whole ≡ (err unauthorized, history, files) =
            rw (transition_task_activity, e) refl in
          subst Goal (sym same) (λ t h. cc)
      | inr e ↦ elim (Bool-cases locked) [
        | inr l ↦
            let same : whole ≡ (err lock_fails, history, files) =
              rw (transition_task_activity, l, e) refl in
            subst Goal (sym same) (λ t h. cc)
        | inl l ↦
            elim (Outcome-cases
              (decide world change request disk.read_fails files.content history)) [
                | inr (r, f) ↦
                    let same : whole ≡ (err r, history, files) =
                      rw (transition_task_activity, f, l, e) refl in
                    subst Goal (sym same) (λ t h. cc)
                | inl (d, f) ↦
                    let carried =
                      carry_out world change request system path disk ledger_locked fails_after d
                        history files in
                    let same : whole ≡ carried = rw (transition_task_activity, f, l, e) refl in
                    let (raw, found, decoded, revision, admitted) =
                      decide-Decided world change request disk.read_fails files.content history d
                        f in
                    subst Goal (sym same) (λ t h.
                      let (returned, holds) =
                        carry_out-Carried world change request system path disk ledger_locked
                          fails_after d history files t h in
                      record {
                        decision = d;
                        admitted = admitted;
                        raw = raw;
                        was_read = found;
                        decoded = decoded;
                        at_revision = revision;
                        returned = returned;
                        written = holds;
                      })
              ]
      ]
    ]
