-- ===== src/Task/Graph/Waves.antt =====
-- The waves of internal/core/taskgraph.go: each task stands one wave above its highest dependency.
use specd_cli.Base.{
  ℕ, ◌+◌, ◌≤◌, ◌<◌, String, ◌≡◌, refl, sym, true, Option, none, some, List, [], ◌∷◌, ◌==◌, eq_iff,
  if◌then◌else◌, ltb, contains, arith, All, All-of_contains, inl, inr, ◌⊎◌, Bool-cases,
}
use specd_cli.Task.Graph.Defs.{update, wave_or_zero, wave_of}

abbrev pub Below : Option ℕ → ℕ → Type 0
Below none w = ⊥
Below (some v) w = v < w

-- The wave lies above the wave of every dependency, and right above one of them unless it is 0.
abbrev pub Level : (String → Option ℕ) → List String → Option ℕ → Type 0
Level wave ds none = ⊥
Level wave ds (some w) =
    All (λ d. Below (wave d) w) ds
    × ((w ≡ 0) ⊎ ((d : String) × (contains ds d ≡ true) × (wave_or_zero (wave d) + 1 ≡ w)))

wave_of-le : (wave : String → Option ℕ) (ds : List String) (w : ℕ) → w ≤ wave_of wave ds w
unfolding wave_of
wave_of-le wave [] w = omega arith
wave_of-le wave (d ∷ ds) w =
    let candidate = wave_or_zero (wave d) + 1 in
    ground (arith, wave_of-le wave ds (if ltb w candidate then candidate else w))

pub wave_of-above :
    (wave : String → Option ℕ) (ds : List String) (w : ℕ)
    → All (λ d. wave_or_zero (wave d) < wave_of wave ds w) ds
unfolding wave_of
wave_of-above wave [] w = tt
wave_of-above wave (d ∷ ds) w =
    let candidate = wave_or_zero (wave d) + 1 in
    let w' = if ltb w candidate then candidate else w in
    (ground (arith, wave_of-le wave ds w'), wave_of-above wave ds w')

pub wave_of-attained :
    (wave : String → Option ℕ) (ds : List String) (w : ℕ)
    → (wave_of wave ds w ≡ w)
      ⊎ ((d : String) × (contains ds d ≡ true) × (wave_or_zero (wave d) + 1 ≡ wave_of wave ds w))
unfolding wave_of contains
wave_of-attained wave [] w = inl refl
wave_of-attained wave (d ∷ ds) w =
    let candidate = wave_or_zero (wave d) + 1 in
    elim (Bool-cases (ltb w candidate)) [
      | inl e ↦ elim (wave_of-attained wave ds candidate) [
        | inl p ↦ inr (d, ground (arith, eq_iff d d), rw e (ground arith))
        | inr (d', m, q) ↦ inr (d', ground arith, rw e q)
      ]
      | inr e ↦ elim (wave_of-attained wave ds w) [
        | inl p ↦ inl (rw e p)
        | inr (d', m, q) ↦ inr (d', ground arith, rw e q)
      ]
    ]

pub Below-of_some :
    (wave : String → Option ℕ) (w : ℕ) (ds : List String)
    → All (λ d. wave_or_zero (wave d) < w) ds
    → ((d : String) → contains ds d ≡ true → (v : ℕ) × (wave d ≡ some v))
    → All (λ d. Below (wave d) w) ds
unfolding contains
Below-of_some wave w [] h k = tt
Below-of_some wave w (d ∷ ds) h k =
    let (v, e) = k d (ground (arith, eq_iff d d)) in
    (rw e (rw e at h.0), Below-of_some wave w ds h.1 (λ x m. k x (ground arith)))

Below-update :
    (wave : String → Option ℕ) (id : String) (v w : ℕ) (ds : List String)
    → wave id ≡ none
    → All (λ d. Below (wave d) w) ds
    → All (λ d. Below (update wave id (some v) d) w) ds
Below-update wave id v w [] fresh h = tt
Below-update wave id v w (d ∷ ds) fresh h = (kept d h.0, Below-update wave id v w ds fresh h.1)
  where
    kept : (d : String) → Below (wave d) w → Below (update wave id (some v) d) w
    kept d b = elim (Bool-cases (id == d)) [
      | inl e ↦ absurd (rw (sym ((eq_iff id d).0 e), fresh) at b)
      | inr e ↦ rw e b
    ]

pub Level-update :
    (wave : String → Option ℕ) (id : String) (v : ℕ) (ds : List String) (o : Option ℕ)
    → wave id ≡ none
    → Level wave ds o
    → Level (update wave id (some v)) ds o
Level-update wave id v ds none fresh h = h
Level-update wave id v ds (some w) fresh h = (
  Below-update wave id v w ds fresh h.0,
  elim h.1 [
    | inl e ↦ inl e
    | inr (d, m, e) ↦ elim (Bool-cases (id == d)) [
      | inl same ↦ absurd (
          rw (sym ((eq_iff id d).0 same), fresh) at
            (All-of_contains (λ d. Below (wave d) w) ds d h.0 m))
      | inr apart ↦ inr (d, m, rw apart e)
    ]
  ],
)
