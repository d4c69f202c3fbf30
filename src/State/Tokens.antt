-- ===== src/State/Tokens.antt =====
-- The duplicate check of internal/core/state/state.go: `rejectDuplicateKeys` and `ensureEOF`.
-- The tokens that `json.Decoder.Token` gives are a parameter, a list with what follows the last one:
-- the end of the file or a syntax error. `More` says no before a closing delimiter and at the end.
-- `walk` and its two loops recur on fuel, since each call takes one token at least.
use specd_cli.Base.{
  ℕ, zero, suc, String, List, [], ◌∷◌, length, contains, Outcome, ok, err, ◌>>=◌, ◌>>◌, refuse_if,
}

pub data Token : Type 0 where
  open_object close_object open_array close_array scalar : Token
  text : String → Token

pub data Ending : Type 0 where
  end_of_file syntax_error : Ending

pub record Stream : Type 0 where
  pub tokens : List Token
  pub ending : Ending

pub data DecodeRefusal : Type 0 where
  duplicate_key : String → DecodeRefusal
  malformed trailing_value : DecodeRefusal

unfoldable mutual
  pub walk : ℕ → List Token → Outcome DecodeRefusal (List Token)
  walk zero ts = err malformed
  walk (suc n) [] = err malformed
  walk (suc n) (open_object ∷ ts) = walk_members n [] ts
  walk (suc n) (open_array ∷ ts) = walk_elements n ts
  walk (suc n) (t ∷ ts) = ok ts

  -- the loop over an object; the decoder gives a text for each key
  pub walk_members : ℕ → List String → List Token → Outcome DecodeRefusal (List Token)
  walk_members zero seen ts = err malformed
  walk_members (suc n) seen [] = err malformed
  walk_members (suc n) seen (close_object ∷ ts) = ok ts
  walk_members (suc n) seen (close_array ∷ ts) = ok ts
  walk_members (suc n) seen (text key ∷ ts) = do
    refuse_if (contains seen key) (duplicate_key key)
    rest ← walk n ts
    walk_members n (key ∷ seen) rest
  walk_members (suc n) seen (t ∷ ts) = err malformed

  pub walk_elements : ℕ → List Token → Outcome DecodeRefusal (List Token)
  walk_elements zero ts = err malformed
  walk_elements (suc n) [] = err malformed
  walk_elements (suc n) (close_object ∷ ts) = ok ts
  walk_elements (suc n) (close_array ∷ ts) = ok ts
  walk_elements (suc n) (t ∷ ts) = do rest ← walk n (t ∷ ts); walk_elements n rest

-- `ensureEOF`
unfoldable pub ensure_eof : List Token → Ending → Outcome DecodeRefusal (Unit {0})
ensure_eof (t ∷ ts) ending = err trailing_value
ensure_eof [] end_of_file = ok tt
ensure_eof [] syntax_error = err malformed

unfoldable pub reject_duplicate_keys : Stream → Outcome DecodeRefusal (Unit {0})
reject_duplicate_keys stream = do
  rest ← walk (length stream.tokens) stream.tokens
  ensure_eof rest stream.ending
