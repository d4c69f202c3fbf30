-- ===== src/Task/Transition/Resumed.antt =====
-- internal/core/tasktransition.go: a transition that stopped between the history and the state.
use specd_cli.Base.{
  ◌≡◌, refl, sym, ap, ◌∙◌, String, Bool, true, false, Option, none, some, List, [], ◌∷◌, ◌++◌, ◌==◌,
  Outcome, ok, err, trim_space,
}
use specd_cli.State.Replace.{Bytes, Files, System}
use specd_cli.Record.Types.{Record}
use specd_cli.Record.Defs.{new_record}
use specd_cli.Record.Append.{Disk, LedgerPath, append_record, has_id}
use specd_cli.Record.Replay.{replay_file}
use specd_cli.Task.Transition.Types.{
  interrupted, TransitionRefusal, TaskTransitionRequest, TaskTransition,
}
use specd_cli.Task.Transition.Defs.{decode_task_transition}
use specd_cli.Task.Transition.Run.{
  World, Decision, decide, history_record, carry_out, record_and_persist,
  persist_task_transition_state, transition_task_activity,
}
use specd_cli.Task.Transition.Recovers.{decide-again}

-- The run that appends the record and stops before it writes the state, and the run that follows it.
module _ (world : World) (change : String) (request : TaskTransitionRequest) (system : System)
    (path : LedgerPath) (disk : Disk) (ledger_locked : Bool)
    (named : (trim_space request.actor == "") ≡ false) where
  abbrev run :
      Bool → Option Bytes → Files → Outcome TransitionRefusal TaskTransition × Option Bytes × Files
  run stops history files =
      transition_task_activity world change request system path disk true ledger_locked stops
        history files

  run-carries :
      (stops : Bool) (history : Option Bytes) (files : Files) (d : Decision)
      → decide world change request disk.read_fails files.content history ≡ ok d
      → run stops history files
        ≡ carry_out world change request system path disk ledger_locked stops d history files
  unfolding transition_task_activity
  run-carries stops history files d h = rw (transition_task_activity, h, named) refl

  carry_out-records :
      (stops : Bool) (history : Option Bytes) (files : Files) (d : Decision)
      → d.recovery ≡ none
      → carry_out world change request system path disk ledger_locked stops d history files
        ≡ record_and_persist world change request system path disk ledger_locked stops d history
            files
  unfolding carry_out record_and_persist
  carry_out-records stops history files d h = rw (carry_out, h) refl

  records-interrupted :
      (history history' : Option Bytes) (files : Files) (d : Decision) (item : Record)
      → new_record world.codec (history_record world request d.current d.transition change)
        ≡ ok item
      → append_record world.codec path disk ledger_locked history "history" item ≡ (ok tt, history')
      → record_and_persist world change request system path disk ledger_locked true d history files
        ≡ (err interrupted, history', files)
  unfolding record_and_persist
  records-interrupted history history' files d item h k =
      rw (record_and_persist, h, ap (λ a. a.0) k)
        (ap (λ (x : Option Bytes). (err interrupted, x, files)) (ap (λ a. a.1) k))

  records-persists :
      (history history' : Option Bytes) (files : Files) (d : Decision) (item : Record)
      → new_record world.codec (history_record world request d.current d.transition change)
        ≡ ok item
      → append_record world.codec path disk ledger_locked history "history" item ≡ (ok tt, history')
      → record_and_persist world change request system path disk ledger_locked false d history files
        ≡ carry_out world change request system path disk ledger_locked false
            (record d { recovery = some item.id })
            history'
            files
  unfolding record_and_persist carry_out
  records-persists history history' files d item h k =
      let last = persist_task_transition_state world system d.current d.transition item.id files in
      rw (record_and_persist, h, ap (λ a. a.0) k)
        (ap (λ (x : Option Bytes). (last.0, x, last.1)) (ap (λ a. a.1) k))

-- A transition of which the history record is appended: when the run stops there, the state file is as
-- it was, and the same request run again on that history answers and leaves what the run without the
-- stop does. The actor is named, the decision was to append and not to recover, the id of the record is
-- new, the history replays before and behind the append, and the payload of the record decodes.
pub interrupted-resumes :
    (world : World) (change : String) (request : TaskTransitionRequest) (system : System)
    (path : LedgerPath) (disk : Disk) (ledger_locked : Bool) (history history' : Option Bytes)
    (files : Files) (records : List Record) (d : Decision) (item : Record)
    → (trim_space request.actor == "") ≡ false
    → decide world change request disk.read_fails files.content history ≡ ok d
    → d.recovery ≡ none
    → replay_file world.codec "history" disk.read_fails history ≡ ok (records, none)
    → new_record world.codec (history_record world request d.current d.transition change) ≡ ok item
    → has_id item.id records ≡ false
    → append_record world.codec path disk ledger_locked history "history" item ≡ (ok tt, history')
    → replay_file world.codec "history" disk.read_fails history' ≡ ok (records ++ item ∷ [], none)
    → decode_task_transition world.unmarshal_transition item.payload ≡ ok d.transition
    → (transition_task_activity world change request system path disk true ledger_locked true
          history files
        ≡ (err interrupted, history', files))
      × (transition_task_activity world change request system path disk true ledger_locked false
            history' files
          ≡ transition_task_activity world change request system path disk true ledger_locked false
              history files)
interrupted-resumes world change request system path disk ledger_locked history history' files
      records d item named decided unrecovered replayed made fresh appended replayed' decodes =
    let again =
      decide-again world change request disk.read_fails files.content history history' records d
        item decided unrecovered replayed made fresh replayed' decodes in
    let carries = run-carries world change request system path disk ledger_locked named in
    let starts = carry_out-records world change request system path disk ledger_locked named in
    (
      carries true history files d decided
          ∙ starts true history files d unrecovered
          ∙ records-interrupted world change request system path disk ledger_locked named history
              history' files d item made appended,
      carries false history' files (record d { recovery = some item.id }) again
          ∙ sym (
              carries false history files d decided
              ∙ starts false history files d unrecovered
              ∙ records-persists world change request system path disk ledger_locked named history
                  history' files d item made appended),
    )
