-- ===== src/Task/Graph/Order.antt =====
-- The invariant of the ordering loop of internal/core/taskgraph.go, and the order that it returns.
use mathlib.Core.List.{append-nil, append_assoc}
use specd_cli.Base.{
  String, ◌≡◌, true, false, List, [], ◌∷◌, ◌++◌, eq_iff, contains, contains-append, count, distinct,
  distinct-snoc, ℤ, pos, negsuc, is_negative, arith, inl, inr, Bool-cases,
}
use specd_cli.Task.Graph.Defs.{update, release}
use specd_cli.Task.Graph.Kahn.{
  unmet, unmet-append, AllIn, AllIn-of_unmet, release-negative, release-pos,
}

-- Each id of the list has all its dependencies before it, in `seen` or in the list.
abbrev pub IsTopological : (String → List String) → List String → List String → Type 0
IsTopological dependencies seen [] = Unit
IsTopological dependencies seen (x ∷ xs) =
    AllIn seen (dependencies x) × IsTopological dependencies (seen ++ x ∷ []) xs

IsTopological-snoc :
    (dependencies : String → List String) (seen xs : List String) (y : String)
    → IsTopological dependencies seen xs
    → AllIn (seen ++ xs) (dependencies y)
    → IsTopological dependencies seen (xs ++ y ∷ [])
IsTopological-snoc dependencies seen [] y h k = (rw (← append-nil seen) k, tt)
IsTopological-snoc dependencies seen (x ∷ xs) y h k =
    (h.0, IsTopological-snoc dependencies (seen ++ x ∷ []) xs y h.1 (rw append_assoc k))

-- What the loop of `BuildTaskGraph` keeps, over the maps that it does not change.
module _ (authored : List String) (dependencies dependents : String → List String) where
  pub record Ordering (indegree : String → ℤ) (order : List String) : Type 0 where
    pub open_count :
        (x : String)
        → contains authored x ≡ true
        → contains order x ≡ false
        → indegree x ≡ pos (unmet order (dependencies x))
    pub done_negative : (x : String) → contains order x ≡ true → is_negative (indegree x) ≡ true
    pub known : (x : String) → contains order x ≡ true → contains authored x ≡ true
    pub once : distinct order ≡ true
    pub topological : IsTopological dependencies [] order

  module _
      (mirrored : (d x : String)
        → contains authored x ≡ true
        → count x (dependents d) ≡ count d (dependencies x))
      (indegree : String → ℤ) (order : List String) (inv : Ordering indegree order) (next : String)
      (is_known : contains authored next ≡ true) (ready : indegree next ≡ pos 0) where
    next_is_new : contains order next ≡ false
    next_is_new = elim (Bool-cases (contains order next)) [
      | inl e ↦ absurd (ground (arith, inv.done_negative next))
      | inr e ↦ e
    ]

    next_is_free : AllIn order (dependencies next)
    next_is_free =
        AllIn-of_unmet order (dependencies next)
          (ground (arith, inv.open_count next is_known next_is_new))

    pub Ordering-round :
        Ordering (release (dependents next) (update indegree next (negsuc 0))) (order ++ next ∷ [])
    unfolding contains
    Ordering-round = record {
      open_count = λ x k n.
          release-pos (dependents next) (update indegree next (negsuc 0)) x
            (unmet (order ++ next ∷ []) (dependencies x))
            (ground (
              arith,
              contains-append order (next ∷ []) x,
              inv.open_count x k,
              mirrored next x k,
              unmet-append order next (dependencies x) next_is_new,
            ));
      done_negative = λ x m.
          release-negative (dependents next) (update indegree next (negsuc 0)) x
            (ground (arith, contains-append order (next ∷ []) x, inv.done_negative x));
      known = λ x m.
          ground (arith, contains-append order (next ∷ []) x, inv.known x, eq_iff next x, is_known);
      once = distinct-snoc order next inv.once next_is_new;
      topological = IsTopological-snoc dependencies [] order next inv.topological next_is_free;
    }
