-- ===== src/Task/Transition/Follows.antt =====
-- internal/core/tasktransition.go: the state that `persistTaskTransitionState` writes, beside the one
-- that was read.
use Prim.Native.Nat.{◌^◌, ◌%◌}
use specd_cli.Base.{
  ◌≡◌, refl, ap, ◌∙◌, inl, inr, ◌+◌, String, false, some, [], ◌∷◌, ◌==◌, eq_iff, Bool-cases,
}
use specd_cli.State.Defs.{State, count_up}
use specd_cli.Task.Activity.Defs.{Raw, text, Persisted, raw_of}
use specd_cli.Task.Transition.Types.{TaskTransition}
use specd_cli.Task.Transition.Defs.{name_of, set_task, tasks_of}
use specd_cli.Task.Transition.Run.{World, next_state}

raw_of-set_task :
    (tasks : Persisted) (id : String) (raw : Raw) → raw_of (set_task tasks id raw) id ≡ some raw
unfolding raw_of set_task
raw_of-set_task [] id raw = rw ((eq_iff id id).1 refl) refl
raw_of-set_task ((key, old) ∷ rest) id raw = elim (Bool-cases (key == id)) [
  | inl e ↦ rw (e, e) refl
  | inr e ↦ rw (e, e) (raw_of-set_task rest id raw)
]

raw_of-other :
    (tasks : Persisted) (id other : String) (raw : Raw)
    → (id == other) ≡ false
    → raw_of (set_task tasks id raw) other ≡ raw_of tasks other
unfolding raw_of set_task
raw_of-other [] id other raw h = rw h refl
raw_of-other ((key, old) ∷ rest) id other raw h = elim (Bool-cases (key == id)) [
  | inl e ↦
      let differs : (key == other) ≡ false = ap (λ k. k == other) ((eq_iff key id).0 e) ∙ h in
      rw (e, differs) refl
  | inr e ↦ rw (e, raw_of-other rest id other raw h) refl
]

-- The revision is one more on words of 64 bits, the task has the new activity and every other task its
-- old one, and the history's record is named; the rest of the state is as it was.
pub record Follows (current : State Raw) (t : TaskTransition) (id : String) (next : State Raw)
    : Type 0 where
  pub counted : next.revision ≡ (current.revision + 1) % 2 ^ 64
  pub moved : raw_of (tasks_of next) t.task ≡ some (text (name_of t.to))
  pub others :
      (other : String)
      → (t.task == other) ≡ false
      → raw_of (tasks_of next) other ≡ raw_of (tasks_of current) other
  pub named : next.last_transition ≡ id
  pub same_version : next.schema_version ≡ current.schema_version
  pub same_change : next.change ≡ current.change
  pub same_stage : next.stage ≡ current.stage
  pub same_condition : next.condition ≡ current.condition
  pub same_approvals : next.approvals ≡ current.approvals
  pub same_creation : next.created_by ≡ current.created_by
  pub same_extensions : next.extensions ≡ current.extensions

pub next_state-Follows :
    (world : World) (current : State Raw) (t : TaskTransition) (id : String)
    → Follows current t id (next_state world current t id)
unfolding count_up
next_state-Follows world current t id = record {
  counted = refl;
  moved = raw_of-set_task (tasks_of current) t.task (text (name_of t.to));
  others = λ other h. raw_of-other (tasks_of current) t.task other (text (name_of t.to)) h;
  named = refl;
  same_version = refl;
  same_change = refl;
  same_stage = refl;
  same_condition = refl;
  same_approvals = refl;
  same_creation = refl;
  same_extensions = refl;
}
