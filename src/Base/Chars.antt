-- ===== src/Base/Chars.antt =====
-- Tests on the characters of a text: strings.ContainsAny, HasPrefix and HasSuffix, the digits of hex.
use Prim.Native.Nat.{ℕ}
use Prim.Native.Char.{code}
use Prim.Native.String.{String}
use mathlib.Core.Bool.{Bool, true, false, ◌&&◌, ◌||◌}
use mathlib.Core.List.{List, [], ◌∷◌}
use specd_cli.Base.Tests.{◌==◌, leb, nat_eq, if◌then◌else◌}

-- membership of a code point
unfoldable pub has_code : List ℕ → ℕ → Bool
has_code [] c = false
has_code (d ∷ ds) c = nat_eq d c || has_code ds c

-- strings.ContainsAny, the set given by its code points
unfoldable pub contains_any : String → List ℕ → Bool
unfolding has_code
contains_any String.[] set = false
contains_any (String.◌∷◌ c s) set = has_code set (code c) || contains_any s set

-- strings.HasSuffix with one character
unfoldable pub ends_with : String → ℕ → Bool
ends_with String.[] last = false
ends_with (String.◌∷◌ c s) last = if s == "" then nat_eq (code c) last else ends_with s last

abbrev pub is_digit : ℕ → Bool
is_digit c = leb 48 c && leb c 57

abbrev pub is_lower : ℕ → Bool
is_lower c = leb 97 c && leb c 122

unfoldable pub all_lower_hex : String → Bool
all_lower_hex String.[] = true
all_lower_hex (String.◌∷◌ c s) =
    (is_digit (code c) || (leb 97 (code c) && leb (code c) 102)) && all_lower_hex s

-- `^[a-z0-9]+(?:-[a-z0-9]+)*$`; `opened` says that a segment has begun.
unfoldable pub in_segments : Bool → String → Bool
in_segments opened String.[] = opened
in_segments opened (String.◌∷◌ c s) =
    let more = in_segments true s in
    let next = in_segments false s in
    if is_lower (code c) || is_digit (code c) then more else opened && nat_eq (code c) 45 && next

-- strings.HasPrefix and strings.HasSuffix
unfoldable pub has_prefix : String → String → Bool
has_prefix s String.[] = true
has_prefix String.[] (String.◌∷◌ d t) = false
has_prefix (String.◌∷◌ c s) (String.◌∷◌ d t) = String.◌∷◌ c "" == String.◌∷◌ d "" && has_prefix s t

unfoldable pub has_suffix : String → String → Bool
has_suffix String.[] t = t == ""
has_suffix (String.◌∷◌ c s) t = String.◌∷◌ c s == t || has_suffix s t
