-- ===== src/Transaction/Steps.antt =====
-- internal/core/transaction/transaction.go: the calls that change the managed files, as steps.
-- A step takes the files to a result and the files after it. `fails` says which calls of the operating
-- system, and which hooks, answer with an error that the code returns; the first error ends a run, so a
-- crash before a call leaves the files that an error of the call leaves.
use specd_cli.Base.{
  ℕ, String, Bool, true, false, not, ◌&&◌, Option, none, some, ◌==◌, if◌then◌else◌, nat_eq, Outcome,
  ok, err,
}
use Prim.Native.String.{◌++◌ as ◌<>◌}
use specd_cli.State.Replace.{Bytes}
use specd_cli.Transaction.Types.{Move, TransactionRefusal, Node, absent, directory, regular, Store}
use specd_cli.Transaction.Plan.{under}

abbrev pub Step : Type 0
Step = Store → Outcome TransactionRefusal (Unit {0}) × Store

infixr 4 ◌⨾◌
abbrev pub go_on :
    Step
    → Outcome TransactionRefusal (Unit {0}) × Store
    → Outcome TransactionRefusal (Unit {0}) × Store
go_on g (err e, s) = (err e, s)
go_on g (ok done, s) = g s

abbrev pub ◌⨾◌ : Step → Step → Step
(f ⨾ g) s = go_on g (f s)

abbrev pub skip : Step
skip s = (ok tt, s)

-- A call that changes nothing the model holds.
abbrev pub quiet : Bool → TransactionRefusal → Step
quiet failing e s = if failing then (err e, s) else (ok tt, s)

-- A call that changes the files as `f` says.
abbrev pub change : Bool → TransactionRefusal → (Store → Store) → Step
change failing e f s = if failing then (err e, s) else (ok tt, f s)

-- MkdirAll of the parent of a target: a missing path above it becomes a directory.
abbrev pub made : Bool → Node → Node
made true absent = directory
made above node = node

unfoldable pub make_parents : String → Store → Store
make_parents target s = record s {
  nodes = λ p. made (under target p && not (target == p)) (s.nodes p);
}

abbrev pub drop_staged : ℕ → Option (ℕ → Option Bytes) → Option (ℕ → Option Bytes)
drop_staged index none = none
drop_staged index (some stage) = some (λ i. if nat_eq i index then none else stage i)

-- Rename of the staged file on its target
unfoldable pub put_staged : String → ℕ → String → Bytes → Store → Store
put_staged id index target raw s = record s {
  nodes = λ p. if p == target then regular raw else s.nodes p;
  stages = λ other. if other == id then drop_staged index (s.stages other) else s.stages other;
}

unfoldable pub cut_prefix : String → String → String
cut_prefix s String.[] = s
cut_prefix String.[] (String.◌∷◌ d t) = ""
cut_prefix (String.◌∷◌ c s) (String.◌∷◌ d t) = cut_prefix s t

-- Rename of a directory
unfoldable pub move_tree : Move → Store → Store
unfolding cut_prefix
move_tree m s = record s {
  nodes = λ p.
      if under p m.target
      then s.nodes (m.source <> cut_prefix p m.target)
      else if under p m.source
      then absent
      else s.nodes p;
}

unfoldable pub drop_journal : String → Store → Store
drop_journal id s = record s { journals = λ other. if other == id then none else s.journals other }

unfoldable pub drop_stage : String → Store → Store
drop_stage id s = record s { stages = λ other. if other == id then none else s.stages other }

abbrev pub is_absent : Node → Bool
is_absent absent = true
is_absent node = false

abbrev pub is_dir : Node → Bool
is_dir directory = true
is_dir node = false

abbrev pub staged_file : Option (ℕ → Option Bytes) → ℕ → Option Bytes
staged_file none index = none
staged_file (some stage) index = stage index
