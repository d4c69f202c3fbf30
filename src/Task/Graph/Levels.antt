-- ===== src/Task/Graph/Levels.antt =====
-- The wave lists of internal/core/taskgraph.go agree with its wave map, and both with the levels.
use mathlib.Core.List.{append-nil, append_assoc}
use mathlib.Core.Path.{subst₂}
use specd_cli.Base.{
  ℕ, zero, suc, String, ◌≡◌, refl, sym, ◌∙◌, ap, subst, Bool, true, false, ◌&&◌, ◌||◌, Option, none,
  some, List, [], ◌∷◌, ◌++◌, ◌==◌, eq_iff, nat_eq, contains, contains-append, distinct, ok, arith,
  All-of_contains, inl, inr, Bool-cases,
}
use specd_cli.Plan.Model.{Tasks}
use specd_cli.Task.Graph.Defs.{
  TaskGraph, update, wave_of, grow, append_at, assign_waves, build_task_graph,
}
use specd_cli.Task.Graph.Kahn.{AllIn}
use specd_cli.Task.Graph.Order.{IsTopological}
use specd_cli.Task.Graph.Build.{assign_waves-fields, graph_start, graph_of, build-Parts}
use specd_cli.Task.Graph.Sound.{Orders, build-IsTopological}
use specd_cli.Task.Graph.Waves.{Level, Level-update, Below-of_some, wave_of-above, wave_of-attained}

-- The list of wave `w`, empty where there is none.
unfoldable pub wave_list : List (List String) → ℕ → List String
wave_list [] w = []
wave_list (l ∷ ls) zero = l
wave_list (l ∷ ls) (suc w) = wave_list ls w

abbrev pub is_wave : Option ℕ → ℕ → Bool
is_wave none w = false
is_wave (some v) w = nat_eq v w

wave_list-append_at :
    (n : ℕ) (id : String) (ls : List (List String)) (w : ℕ) (x : String)
    → contains (wave_list (append_at n id (grow n ls)) w) x
      ≡ (contains (wave_list ls w) x || (nat_eq n w && id == x))
unfolding wave_list append_at grow contains
wave_list-append_at zero id [] zero x = ground arith
wave_list-append_at zero id [] (suc w) x = ground arith
wave_list-append_at zero id (l ∷ ls) zero x = ground (arith, contains-append l (id ∷ []) x)
wave_list-append_at zero id (l ∷ ls) (suc w) x = ground arith
wave_list-append_at (suc n) id [] zero x = ground arith
wave_list-append_at (suc n) id [] (suc w) x = ground (arith, wave_list-append_at n id [] w x)
wave_list-append_at (suc n) id (l ∷ ls) zero x = ground arith
wave_list-append_at (suc n) id (l ∷ ls) (suc w) x = ground (arith, wave_list-append_at n id ls w x)

-- What `assign_waves` keeps while the ids of `seen` have their waves.
record Leveled (seen : List String) (g : TaskGraph) : Type 0 where
  level : (x : String) → contains seen x ≡ true → Level g.wave (g.dependencies x) (g.wave x)
  fresh : (x : String) → contains seen x ≡ false → g.wave x ≡ none
  listed : (w : ℕ) (x : String) → contains (wave_list g.waves w) x ≡ is_wave (g.wave x) w

pub Level-some :
    (wave : String → Option ℕ) (ds : List String) (o : Option ℕ)
    → Level wave ds o
    → (v : ℕ) × (o ≡ some v)
Level-some wave ds none h = absurd h
Level-some wave ds (some v) h = (v, refl)

-- One round of the loop.
abbrev wave_round : String → TaskGraph → TaskGraph
wave_round id g =
    let wave = wave_of g.wave (g.dependencies id) 0 in
    record g { wave = update g.wave id (some wave); waves = append_at wave id (grow wave g.waves) }

module _ (seen : List String) (g : TaskGraph) (inv : Leveled seen g) (id : String)
    (new : contains seen id ≡ false) (free : AllIn seen (g.dependencies id)) where
  new-Level : Level g.wave (g.dependencies id) (some (wave_of g.wave (g.dependencies id) 0))
  new-Level = (
    Below-of_some g.wave (wave_of g.wave (g.dependencies id) 0) (g.dependencies id)
        (wave_of-above g.wave (g.dependencies id) 0)
        (λ d m. Level-some g.wave (g.dependencies d) (g.wave d) (
          inv.level d
            (All-of_contains (λ x. contains seen x ≡ true) (g.dependencies id) d free m))),
    wave_of-attained g.wave (g.dependencies id) 0,
  )

  Leveled-round : Leveled (seen ++ id ∷ []) (wave_round id g)
  unfolding contains
  Leveled-round =
      let w = wave_of g.wave (g.dependencies id) 0 in
      record {
        level = λ x m. elim (Bool-cases (id == x)) [
          | inl e ↦
              subst
                (λ y.
                  Level (update g.wave id (some w)) (g.dependencies y)
                    (update g.wave id (some w) y))
                ((eq_iff id x).0 e)
                (rw ((eq_iff id id).1 refl) (
                  Level-update g.wave id w (g.dependencies id) (some w) (inv.fresh id new)
                    new-Level))
          | inr e ↦ rw e (
              Level-update g.wave id w (g.dependencies x) (g.wave x) (inv.fresh id new)
                (inv.level x (ground (arith, contains-append seen (id ∷ []) x))))
        ];
        fresh = λ x n. ground (arith, contains-append seen (id ∷ []) x, inv.fresh x);
        listed = λ v x. ground (
          arith,
          wave_list-append_at w id g.waves v x,
          inv.listed v x,
          inv.fresh id new,
          eq_iff id x,
        );
      }

append_cons :
    (seen : List String) (id : String) (ids : List String)
    → seen ++ (id ∷ ids) ≡ (seen ++ (id ∷ [])) ++ ids
append_cons seen id ids = sym (append_assoc seen (id ∷ []) ids)

assign_waves-Leveled :
    (ids seen : List String) (g : TaskGraph)
    → Leveled seen g
    → IsTopological g.dependencies seen ids
    → distinct ids ≡ true
    → ((x : String) → contains ids x ≡ true → contains seen x ≡ false)
    → Leveled (seen ++ ids) (assign_waves ids g)
unfolding assign_waves contains distinct
assign_waves-Leveled [] seen g inv t u apart = rw append-nil inv
assign_waves-Leveled (id ∷ ids) seen g inv t u apart =
    let new : contains seen id ≡ false = apart id (ground (arith, eq_iff id id)) in
    rw (append_cons seen id ids) (
      assign_waves-Leveled ids (seen ++ id ∷ []) (wave_round id g)
        (Leveled-round seen g inv id new t.0) t.1 (ground arith)
        (λ x m. ground (arith, contains-append seen (id ∷ []) x, apart x, eq_iff id x)))

Leveled-start : (g : TaskGraph) → g.waves ≡ [] → ((x : String) → g.wave x ≡ none) → Leveled [] g
unfolding contains wave_list
Leveled-start g e n = record { level = λ x m. cc; fresh = λ x m. n x; listed = λ w x. rw (e, n) }

Leveled-of :
    (plan : Tasks) (dependents : String → List String) (order : List String) (g : TaskGraph)
    → g ≡ graph_of plan dependents order
    → Orders plan g
    → Leveled g.order g
unfolding contains
Leveled-of plan dependents order g built sorted =
    let start = graph_start plan dependents order in
    let (a, o, d, _) = assign_waves-fields order start in
    let order_is : g.order ≡ order = ap (λ (k : TaskGraph). k.order) built ∙ o in
    let deps_are : g.dependencies ≡ start.dependencies =
      ap (λ (k : TaskGraph). k.dependencies) built ∙ d in
    subst₂ Leveled (sym order_is) (sym built) (
      assign_waves-Leveled order [] start (Leveled-start start refl (λ x. refl))
        (subst₂ (λ m l. IsTopological m [] l) deps_are order_is sorted.2) (rw order_is at sorted.3)
        (λ x m. refl))

-- In a built graph every task has a wave: above the waves of all its dependencies, right above one
-- of them unless it is 0. The wave lists hold an id exactly at its wave, and no other text.
pub build-Level :
    (plan : Tasks) (g : TaskGraph)
    → build_task_graph plan ≡ ok g
    → ((x : String) → contains g.authored x ≡ true → Level g.wave (g.dependencies x) (g.wave x))
      × ((w : ℕ) (x : String) → contains (wave_list g.waves w) x ≡ is_wave (g.wave x) w)
      × ((x : String) → contains g.authored x ≡ false → g.wave x ≡ none)
build-Level plan g h =
    let parts = build-Parts plan g h in
    let sorted = build-IsTopological plan g h in
    let inv = Leveled-of plan parts.dependents parts.order g parts.waved sorted in
    (λ x k. inv.level x (sorted.4 x ∙ k), inv.listed, λ x k. inv.fresh x (sorted.4 x ∙ k))
