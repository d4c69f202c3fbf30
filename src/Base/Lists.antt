-- ===== src/Base/Lists.antt =====
-- Lists measured by native numbers, membership of texts, and the counting lemmas on them.
use Prim.Native.Nat.{ℕ, suc, ◌+◌, ◌≤◌}
use Prim.Native.String.{String}
use mathlib.Core.Path.{◌≡◌, refl, ap, subst}
use mathlib.Core.Logic.{inl, inr}
use mathlib.Core.Bool.{Bool, true, false, ◌||◌}
use mathlib.Core.List.{List, [], ◌∷◌, ◌++◌, map}
use native.Mathlib.Omega.{arith}
use text.Mathlib.TextEquality.{eq_iff}
use specd_cli.Base.Tests.{◌==◌, if◌then◌else◌, Bool-cases}

module _ {ℓ} {A : Type ℓ} where
  abbrev pub length : List A → ℕ
  length [] = 0
  length (x ∷ xs) = suc (length xs)

  pub length-append : (xs ys : List A) → length (xs ++ ys) ≡ length xs + length ys
  length-append [] ys = omega arith
  length-append (x ∷ xs) ys = omega (arith, length-append xs ys)

-- A predicate at every element of a list.
abbrev pub All {ℓ κ} : {A : Type ℓ} → (A → Type κ) → List A → Type κ
All P [] = Unit
All P (x ∷ xs) = P x × All P xs

-- slices.Contains on strings, and the key test of a set built as `map[string]bool`.
unfoldable pub contains : List String → String → Bool
contains [] x = false
contains (y ∷ ys) x = y == x || contains ys x

-- How often a string occurs.
unfoldable pub count : String → List String → ℕ
count x [] = 0
count x (y ∷ ys) = (if y == x then 1 else 0) + count x ys

-- No string occurs twice.
unfoldable pub distinct : List String → Bool
distinct [] = true
distinct (x ∷ xs) = if contains xs x then false else distinct xs

pub contains-append :
    (xs ys : List String) (x : String) → contains (xs ++ ys) x ≡ (contains xs x || contains ys x)
unfolding contains
contains-append [] ys x = refl
contains-append (z ∷ xs) ys x = ground (arith, contains-append xs ys x)

pub count-append : (x : String) (xs ys : List String) → count x (xs ++ ys) ≡ count x xs + count x ys
unfolding count
count-append x [] ys = omega arith
count-append x (z ∷ xs) ys = omega (arith, count-append x xs ys)

pub count_of_not_contains : (x : String) (xs : List String) → contains xs x ≡ false → count x xs ≡ 0
unfolding count contains
count_of_not_contains x [] h = refl
count_of_not_contains x (y ∷ xs) h = ground (arith, count_of_not_contains x xs)

pub All-of_contains {ℓ} :
    (P : String → Type ℓ) (xs : List String) (x : String) → All P xs → contains xs x ≡ true → P x
unfolding contains
All-of_contains P [] x h m = cc
All-of_contains P (y ∷ xs) x h m = elim (Bool-cases (y == x)) [
  | inl e ↦ subst P ((eq_iff y x).0 e) h.0
  | inr e ↦ All-of_contains P xs x h.1 (ground arith)
]

pub distinct-snoc :
    (xs : List String) (x : String)
    → distinct xs ≡ true
    → contains xs x ≡ false
    → distinct (xs ++ x ∷ []) ≡ true
unfolding distinct contains
distinct-snoc [] x d h = refl
distinct-snoc (y ∷ xs) x d h =
    ground (arith, contains-append xs (x ∷ []) y, eq_iff x y, eq_iff y x, distinct-snoc xs x)

without : String → List String → List String
without x [] = []
without x (y ∷ ys) = if y == x then ys else y ∷ without x ys

length-without :
    (x : String) (ys : List String) → contains ys x ≡ true → length ys ≡ suc (length (without x ys))
unfolding contains without
length-without x [] h = cc
length-without x (y ∷ ys) h = ground (arith, length-without x ys)

contains-without :
    (x : String) (ys : List String) (z : String)
    → contains ys z ≡ true
    → (x == z) ≡ false
    → contains (without x ys) z ≡ true
unfolding contains without
contains-without x [] z h n = cc
contains-without x (y ∷ ys) z h n =
    ground (arith, eq_iff y x, eq_iff x z, eq_iff y z, contains-without x ys z)

-- Distinct texts that all stand in another list are at most as many.
pub length-le_of_distinct :
    (xs ys : List String)
    → distinct xs ≡ true
    → ((x : String) → contains xs x ≡ true → contains ys x ≡ true)
    → length xs ≤ length ys
unfolding contains distinct
length-le_of_distinct [] ys d h = omega arith
length-le_of_distinct (x ∷ xs) ys d h = omega (
  arith,
  length-without x ys (h x (ground (arith, eq_iff x x))),
  length-le_of_distinct xs (without x ys) (ground arith)
      (λ z m. contains-without x ys z (h z (ground arith)) (ground (arith, eq_iff x z))),
)

pub length-map {ℓ κ} :
    {A : Type ℓ} {B : Type κ} (f : A → B) (xs : List A) → length (map f xs) ≡ length xs
length-map f [] = refl
length-map f (x ∷ xs) = ap suc (length-map f xs)

pub All-intro {ℓ} :
    (P : String → Type ℓ) (xs : List String)
    → ((x : String) → contains xs x ≡ true → P x)
    → All P xs
unfolding contains
All-intro P [] h = tt
All-intro P (y ∷ xs) h =
    (h y (ground (arith, eq_iff y y)), All-intro P xs (λ x m. h x (ground arith)))

pub All-append {ℓ} :
    {A : Type 0} (P : A → Type ℓ) (front back : List A)
    → All P front
    → All P back
    → All P (front ++ back)
All-append P (first ∷ rest) back f b = (f.0, All-append P rest back f.1 b)
All-append P [] back f b = b
