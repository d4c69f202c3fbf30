-- ===== src/Base/Texts.antt =====
-- Texts: strings.TrimSpace and the order of Go strings.
use Prim.Native.Nat.{ℕ}
use Prim.Native.Char.{code}
use Prim.Native.String.{String}
use Prim.Native.String.{compare}
use mathlib.Core.Path.{◌≡◌, refl, ◌∙◌, ap}
use mathlib.Core.List.{List, [], ◌∷◌}
use native.Mathlib.Omega.{arith}
use text.Mathlib.Text.{is_le}
use specd_cli.Base.Lists.{contains}
use mathlib.Core.Bool.{Bool, ◌&&◌, ◌||◌}
use specd_cli.Base.Tests.{◌==◌, leb, nat_eq, if◌then◌else◌}

-- unicode.IsSpace on a code point.
unfoldable pub is_space : ℕ → Bool
is_space c =
    (leb 9 c && leb c 13)
    || nat_eq c 32
    || nat_eq c 0x85
    || nat_eq c 0xa0
    || nat_eq c 0x1680
    || (leb 0x2000 c && leb c 0x200a)
    || nat_eq c 0x2028
    || nat_eq c 0x2029
    || nat_eq c 0x202f
    || nat_eq c 0x205f
    || nat_eq c 0x3000

unfoldable pub trim_left : String → String
unfolding is_space
trim_left String.[] = String.[]
trim_left (String.◌∷◌ c s) =
    let rest = trim_left s in if is_space (code c) then rest else String.◌∷◌ c s

unfoldable pub trim_right : String → String
unfolding is_space
trim_right String.[] = String.[]
trim_right (String.◌∷◌ c s) =
    let rest = trim_right s in
    if is_space (code c) && (rest == "") then String.[] else String.◌∷◌ c rest

-- strings.TrimSpace
unfoldable pub trim_space : String → String
unfolding trim_left trim_right
trim_space s = trim_right (trim_left s)

-- slices.Sort on strings
unfoldable pub insert_text : String → List String → List String
insert_text x [] = x ∷ []
insert_text x (y ∷ ys) = if is_le (compare x y) then x ∷ y ∷ ys else y ∷ insert_text x ys

unfoldable pub sort_texts : List String → List String
unfolding insert_text
sort_texts [] = []
sort_texts (x ∷ xs) = insert_text x (sort_texts xs)

contains-insert_text :
    (x : String) (ys : List String) (z : String)
    → contains (insert_text x ys) z ≡ (x == z || contains ys z)
unfolding insert_text contains
contains-insert_text x [] z = refl
contains-insert_text x (y ∷ ys) z = ground (arith, contains-insert_text x ys z)

pub contains-sort_texts :
    (xs : List String) (z : String) → contains (sort_texts xs) z ≡ contains xs z
unfolding sort_texts contains
contains-sort_texts [] z = refl
contains-sort_texts (x ∷ xs) z =
    contains-insert_text x (sort_texts xs) z ∙ ap (λ b. x == z || b) (contains-sort_texts xs z)
