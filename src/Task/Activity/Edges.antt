-- ===== src/Task/Activity/Edges.antt =====
-- The legal edges of internal/core/taskactivity.go and what can be reached by them.
use specd_cli.Base.{◌≡◌, ◌≢◌, refl, true, arith}
use specd_cli.Task.Activity.Defs.{
  TaskActivity, pending, in_progress, completed, failed, blocked, other,
  can_transition_task_activity, valid, has,
}

data Edge : TaskActivity → TaskActivity → Type 0 where
  start : Edge pending in_progress
  hold : Edge pending blocked
  finish : Edge in_progress completed
  give_up : Edge in_progress failed
  retry : Edge failed in_progress
  shelve : Edge failed blocked
  release : Edge blocked pending

-- What the transitions of `CanTransitionTaskActivity` come to, one after the other
pub data Reach (a : TaskActivity) : TaskActivity → Type 0 where
  here : Reach a a
  next : {b c : TaskActivity} → Reach a b → can_transition_task_activity b c ≡ true → Reach a c

can-Edge : (a b : TaskActivity) → can_transition_task_activity a b ≡ true → Edge a b
unfolding can_transition_task_activity
can-Edge pending in_progress h = start
can-Edge pending blocked h = hold
can-Edge in_progress completed h = finish
can-Edge in_progress failed h = give_up
can-Edge failed in_progress h = retry
can-Edge failed blocked h = shelve
can-Edge blocked pending h = release
can-Edge a b h = absurd (ground arith)

target-valid : (a b : TaskActivity) → can_transition_task_activity a b ≡ true → valid b ≡ true
unfolding can_transition_task_activity
target-valid a b h = ground arith

reached-valid : {a b : TaskActivity} → Reach a b → valid a ≡ true → valid b ≡ true
reached-valid here v = v
reached-valid (next {b} {c} r h) v = target-valid b c h

no-Edge-from_completed : {a b : TaskActivity} → Edge a b → a ≢ completed
no-Edge-from_completed start e = cc
no-Edge-from_completed hold e = cc
no-Edge-from_completed finish e = cc
no-Edge-from_completed give_up e = cc
no-Edge-from_completed retry e = cc
no-Edge-from_completed shelve e = cc
no-Edge-from_completed release e = cc

completed-stuck : {a b : TaskActivity} → Reach a b → a ≡ completed → b ≡ completed
completed-stuck here e = e
completed-stuck (next {b} {c} r h) e =
    absurd (no-Edge-from_completed (can-Edge b c h) (completed-stuck r e))

reach_done : (a : TaskActivity) → valid a ≡ true → Reach a completed
unfolding valid has can_transition_task_activity
reach_done pending h = next (next {b = pending} {c = in_progress} here refl) refl
reach_done in_progress h = next here refl
reach_done completed h = here
reach_done failed h = next (next {b = failed} {c = in_progress} here refl) refl
reach_done blocked h =
    next (next {b = pending} {c = in_progress} (next {b = blocked} {c = pending} here refl) refl)
      refl
reach_done (other s) h = absurd (ground arith)

-- Along the transitions that `CanTransitionTaskActivity` allows, every valid activity can come to
-- completed and comes to valid activities only, and from completed nothing else is reached.
pub reach-completed :
    (a : TaskActivity)
    → valid a ≡ true
    → Reach a completed
      × ((b : TaskActivity) → Reach a b → valid b ≡ true)
      × ((b : TaskActivity) → Reach completed b → b ≡ completed)
reach-completed a h = (reach_done a h, λ b r. reached-valid r h, λ b r. completed-stuck r refl)
