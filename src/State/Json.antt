-- ===== src/State/Json.antt =====
-- What the duplicate check of internal/core/state/state.go accepts: the tokens of a JSON value none
-- of whose objects repeats a key.
use specd_cli.Base.{
  ℕ, zero, suc, ◌+◌, ◌≤◌, ◌<◌, String, ◌≡◌, refl, Bool, true, false, not, ◌&&◌, List, [], ◌∷◌,
  length, contains, Outcome, ok, err, ◌>>=◌, is_ok, arith, Outcome-cases, Bool-cases, inl, inr,
}
use specd_cli.State.Tokens.{
  DecodeRefusal, Token, open_object, close_object, open_array, close_array, scalar, text,
  end_of_file, walk, walk_members, walk_elements, ensure_eof, reject_duplicate_keys,
}

mutual
  pub data Json : Type 0 where
    atom : Json
    quoted : String → Json
    array : Elements → Json
    object : Members → Json

  pub data Elements : Type 0 where
    no_more : Elements
    element : Json → Elements → Elements

  pub data Members : Type 0 where
    end : Members
    member : String → Json → Members → Members

-- The tokens of a value before those of the text behind it.
unfoldable mutual
  pub tokens_of : Json → List Token → List Token
  tokens_of atom rest = scalar ∷ rest
  tokens_of (quoted s) rest = text s ∷ rest
  tokens_of (array es) rest = open_array ∷ tokens_of_elements es rest
  tokens_of (object ms) rest = open_object ∷ tokens_of_members ms rest

  pub tokens_of_elements : Elements → List Token → List Token
  tokens_of_elements no_more rest = close_array ∷ rest
  tokens_of_elements (element v es) rest = tokens_of v (tokens_of_elements es rest)

  pub tokens_of_members : Members → List Token → List Token
  tokens_of_members end rest = close_object ∷ rest
  tokens_of_members (member key v ms) rest = text key ∷ tokens_of v (tokens_of_members ms rest)

unfoldable mutual
  size : Json → ℕ
  size atom = 1
  size (quoted s) = 1
  size (array es) = suc (size_elements es)
  size (object ms) = suc (size_members ms)

  size_elements : Elements → ℕ
  size_elements no_more = 1
  size_elements (element v es) = size v + size_elements es

  size_members : Members → ℕ
  size_members end = 1
  size_members (member key v ms) = suc (size v + size_members ms)

-- No object of the value repeats a key: each key is new after the keys `seen` before it.
unfoldable mutual
  pub no_repeats : Json → Bool
  no_repeats atom = true
  no_repeats (quoted s) = true
  no_repeats (array es) = no_repeats_elements es
  no_repeats (object ms) = no_repeats_members [] ms

  pub no_repeats_elements : Elements → Bool
  no_repeats_elements no_more = true
  no_repeats_elements (element v es) = no_repeats v && no_repeats_elements es

  pub no_repeats_members : List String → Members → Bool
  no_repeats_members seen end = true
  no_repeats_members seen (member key v ms) =
      not (contains seen key) && no_repeats v && no_repeats_members (key ∷ seen) ms

size-positive : (v : Json) → 0 < size v
unfolding size
size-positive atom = omega arith
size-positive (quoted s) = omega arith
size-positive (array es) = omega arith
size-positive (object ms) = omega arith

size_elements-positive : (es : Elements) → 0 < size_elements es
unfolding size
size_elements-positive no_more = omega arith
size_elements-positive (element v es) = omega (arith, size-positive v)

-- Where the value is good the walk leaves the rest, and otherwise it fails.
abbrev Walks : Outcome DecodeRefusal (List Token) → Bool → List Token → Type 0
Walks result good rest = (good ≡ true → result ≡ ok rest) × (good ≡ false → is_ok result ≡ false)

-- A chain of two walks is good where both are.
Walks-bind :
    (m : Outcome DecodeRefusal (List Token))
    (next : List Token → Outcome DecodeRefusal (List Token)) {first second : Bool}
    {later rest : List Token}
    → Walks m first later
    → Walks (next later) second rest
    → Walks (m >>= next) (first && second) rest
Walks-bind m next {first = true} w v = (λ k. rw (w.0 refl) (v.0 k), λ k. rw (w.0 refl) (v.1 k))
Walks-bind (ok a) next {first = false} w v = absurd (ground (arith, w.1 refl))
Walks-bind (err e) next {first = false} w v = (λ k. absurd (ground arith), λ k. refl)

mutual
  unfolding size tokens_of

  length-tokens_of :
      (v : Json) (rest : List Token) → length (tokens_of v rest) ≡ size v + length rest
  length-tokens_of atom rest = omega arith
  length-tokens_of (quoted s) rest = omega arith
  length-tokens_of (array es) rest = omega (arith, length-tokens_of_elements es rest)
  length-tokens_of (object ms) rest = omega (arith, length-tokens_of_members ms rest)

  length-tokens_of_elements :
      (es : Elements) (rest : List Token)
      → length (tokens_of_elements es rest) ≡ size_elements es + length rest
  length-tokens_of_elements no_more rest = omega arith
  length-tokens_of_elements (element v es) rest =
      omega
        (arith, length-tokens_of v (tokens_of_elements es rest), length-tokens_of_elements es rest)

  length-tokens_of_members :
      (ms : Members) (rest : List Token)
      → length (tokens_of_members ms rest) ≡ size_members ms + length rest
  length-tokens_of_members end rest = omega arith
  length-tokens_of_members (member key v ms) rest =
      omega
        (arith, length-tokens_of v (tokens_of_members ms rest), length-tokens_of_members ms rest)

walk_elements-element :
    (n : ℕ) (v : Json) (rest : List Token)
    → walk_elements (suc n) (tokens_of v rest) ≡ (walk n (tokens_of v rest) >>= walk_elements n)
unfolding walk_elements tokens_of
walk_elements-element n atom rest = refl
walk_elements-element n (quoted s) rest = refl
walk_elements-element n (array es) rest = refl
walk_elements-element n (object ms) rest = refl

mutual
  unfolding walk tokens_of size no_repeats

  walk-Walks :
      (n : ℕ) (v : Json) (rest : List Token)
      → size v ≤ n
      → Walks (walk n (tokens_of v rest)) (no_repeats v) rest
  walk-Walks zero v rest h = absurd (omega (arith, size-positive v))
  walk-Walks (suc n) atom rest h = ground arith
  walk-Walks (suc n) (quoted s) rest h = ground arith
  walk-Walks (suc n) (array es) rest h = walk_elements-Walks n es rest (omega arith)
  walk-Walks (suc n) (object ms) rest h = walk_members-Walks n [] ms rest (omega arith)

  walk_elements-Walks :
      (n : ℕ) (es : Elements) (rest : List Token)
      → size_elements es ≤ n
      → Walks (walk_elements n (tokens_of_elements es rest)) (no_repeats_elements es) rest
  walk_elements-Walks zero no_more rest h = absurd (omega arith)
  walk_elements-Walks (suc n) no_more rest h = ground arith
  walk_elements-Walks zero (element v es) rest h = absurd (omega (arith, size-positive v))
  walk_elements-Walks (suc n) (element v es) rest h =
      let later = tokens_of_elements es rest in
      let here = walk-Walks n v later (omega (arith, size_elements-positive es)) in
      let there = walk_elements-Walks n es rest (omega (arith, size-positive v)) in
      rw (walk_elements-element n v later) (Walks-bind (walk n _) _ here there)

  walk_members-Walks :
      (n : ℕ) (seen : List String) (ms : Members) (rest : List Token)
      → size_members ms ≤ n
      → Walks (walk_members n seen (tokens_of_members ms rest)) (no_repeats_members seen ms) rest
  walk_members-Walks zero seen end rest h = absurd (omega arith)
  walk_members-Walks (suc n) seen end rest h = ground arith
  walk_members-Walks zero seen (member key v ms) rest h = absurd (omega arith)
  walk_members-Walks (suc n) seen (member key v ms) rest h =
      let later = tokens_of_members ms rest in
      let here = walk-Walks n v later (omega arith) in
      let there = walk_members-Walks n (key ∷ seen) ms rest (omega arith) in
      elim (Bool-cases (contains seen key)) [
        | inl repeated ↦ ground arith
        | inr new ↦ rw new (Walks-bind (walk n _) _ here there)
      ]

-- A file that holds one JSON value passes the duplicate check exactly when no object of the value,
-- however deep, gives one key twice; the fuel is enough for every value.
pub reject_duplicate_keys_iff :
    (v : Json)
    → is_ok (reject_duplicate_keys (record { tokens = tokens_of v []; ending = end_of_file }))
      ≡ no_repeats v
unfolding reject_duplicate_keys ensure_eof
reject_duplicate_keys_iff v =
    let w = walk-Walks (length (tokens_of v [])) v [] (omega (arith, length-tokens_of v [])) in
    elim (Bool-cases (no_repeats v)) [
      | inl good ↦ rw (good, w.0 good)
      | inr bad ↦ elim (Outcome-cases (walk (length (tokens_of v [])) (tokens_of v []))) [
        | inl (a, e) ↦ absurd (ground (arith, e, w.1 bad))
        | inr (e, k) ↦ rw (bad, k)
      ]
    ]
