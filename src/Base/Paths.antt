-- ===== src/Base/Paths.antt =====
-- Go's package path on texts: strings.Split at one character, and path.Clean.
use Prim.Native.Nat.{ℕ}
use Prim.Native.Char.{code}
use Prim.Native.String.{String, ◌++◌ as ◌<>◌}
use mathlib.Core.Bool.{Bool, ◌||◌}
use mathlib.Core.List.{List, [], ◌∷◌}
use specd_cli.Base.Tests.{◌==◌, nat_eq, if◌then◌else◌}
use specd_cli.Base.Chars.{has_prefix}

abbrev grow_first : String → List String → List String
grow_first c [] = c ∷ []
grow_first c (first ∷ rest) = (c <> first) ∷ rest

-- strings.Split with one character
unfoldable pub split_at : ℕ → String → List String
split_at d String.[] = "" ∷ []
split_at d (String.◌∷◌ c s) =
    let rest = split_at d s in
    if nat_eq (code c) d then "" ∷ rest else grow_first (String.◌∷◌ c "") rest

-- One element of the path; the result stands in reverse.
unfoldable pub push_segment : Bool → List String → String → List String
push_segment rooted [] s =
    if s == "" || s == "."
    then []
    else if s == ".."
    then (if rooted then [] else s ∷ [])
    else s ∷ []
push_segment rooted (top ∷ below) s =
    if s == "" || s == "."
    then top ∷ below
    else if s == ".."
    then (if top == ".." then s ∷ top ∷ below else below)
    else s ∷ top ∷ below

unfoldable pub push_segments : Bool → List String → List String → List String
unfolding push_segment
push_segments rooted done [] = done
push_segments rooted done (s ∷ ss) = push_segments rooted (push_segment rooted done s) ss

unfoldable pub join_back : List String → String → String
join_back [] suffix = suffix
join_back (s ∷ ss) suffix = join_back ss (if suffix == "" then s else s <> "/" <> suffix)

-- path.Clean
unfoldable pub clean : String → String
unfolding has_prefix split_at push_segments join_back
clean value =
    let rooted = has_prefix value "/" in
    let joined = join_back (push_segments rooted [] (split_at 47 value)) "" in
    if rooted then "/" <> joined else if joined == "" then "." else joined
