-- ===== src/Task/Graph/Kahn.antt =====
-- The ordering loop of internal/core/taskgraph.go: what one round does to the indegrees, the
-- invariant that every round keeps, and the order that the loop returns.
use specd_cli.Base.{
  ℕ, ◌+◌, String, ◌≡◌, ◌≢◌, refl, true, false, List, [], ◌∷◌, ◌++◌, ◌==◌, eq_iff, if◌then◌else◌,
  length, contains, contains-append, count, ℤ, pos, pred_ℤ, is_zero, is_negative,
  pred_ℤ-is_negative, pred_ℤ-suc, is_zero-pos, arith, All, inl, inr, Bool-cases,
}
use specd_cli.Task.Graph.Defs.{update, next_ready, release}

-- How many dependencies are not in `order`.
unfoldable pub unmet : List String → List String → ℕ
unmet order [] = 0
unmet order (d ∷ ds) = (if contains order d then 0 else 1) + unmet order ds

pub unmet-nil : (ds : List String) → unmet [] ds ≡ length ds
unfolding unmet contains
unmet-nil [] = refl
unmet-nil (d ∷ ds) = omega (arith, unmet-nil ds)

pub unmet-append :
    (order : List String) (x : String) (ds : List String)
    → contains order x ≡ false
    → unmet order ds ≡ unmet (order ++ x ∷ []) ds + count x ds
unfolding unmet count contains
unmet-append order x [] h = refl
unmet-append order x (d ∷ ds) h =
    ground
      (arith, contains-append order (x ∷ []) d, eq_iff x d, eq_iff d x, unmet-append order x ds)

abbrev pub AllIn : List String → List String → Type 0
AllIn order = All (λ d. contains order d ≡ true)

pub AllIn-of_unmet : (order ds : List String) → unmet order ds ≡ 0 → AllIn order ds
unfolding unmet
AllIn-of_unmet order [] h = tt
AllIn-of_unmet order (d ∷ ds) h = (ground arith, AllIn-of_unmet order ds (ground arith))

pub release-negative :
    (ds : List String) (m : String → ℤ) (x : String)
    → is_negative (m x) ≡ true
    → is_negative (release ds m x) ≡ true
unfolding release
release-negative [] m x h = h
release-negative (d ∷ ds) m x h =
    ground (
      arith,
      eq_iff d x,
      pred_ℤ-is_negative (m x),
      release-negative ds (update m d (pred_ℤ (m d))) x,
    )

pub release-pos :
    (ds : List String) (m : String → ℤ) (x : String) (k : ℕ)
    → m x ≡ pos (k + count x ds)
    → release ds m x ≡ pos k
unfolding release count
release-pos [] m x k h = ground arith
release-pos (d ∷ ds) m x k h = elim (Bool-cases (d == x)) [
  | inl e ↦
      release-pos ds (update m d (pred_ℤ (m d))) x k
        (ground (arith, eq_iff d x, pred_ℤ-suc (k + count x ds)))
  | inr e ↦ release-pos ds (update m d (pred_ℤ (m d))) x k (ground arith)
]

-- The id that a round picks is known and has indegree 0.
pub next_ready-ready :
    (indegree : String → ℤ) (ids : List String)
    → next_ready indegree ids ≢ ""
    → (contains ids (next_ready indegree ids) ≡ true) × (indegree (next_ready indegree ids) ≡ pos 0)
unfolding next_ready contains
next_ready-ready indegree [] h = absurd (h refl)
next_ready-ready indegree (id ∷ ids) h =
    ground (arith, eq_iff id id, is_zero-pos (indegree id), next_ready-ready indegree ids)

-- Where a round finds no id, every known id has an indegree that is not 0.
pub next_ready-none :
    (indegree : String → ℤ) (ids : List String) (x : String)
    → contains ids "" ≡ false
    → next_ready indegree ids ≡ ""
    → contains ids x ≡ true
    → is_zero (indegree x) ≡ false
unfolding next_ready contains
next_ready-none indegree [] x n h c = cc
next_ready-none indegree (id ∷ ids) x n h c =
    ground (arith, eq_iff id x, eq_iff id "", next_ready-none indegree ids x)
