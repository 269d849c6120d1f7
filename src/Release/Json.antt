-- ===== src/Release/Json.antt =====
-- `rejectDuplicateJSONKeys` and `walkJSONValue`: a walk over the tokens of a JSON text.
pub mod Values
pub mod Walk
use wanctl.Prelude.{ℕ, zero, suc, Bool, true, false, ◌||◌, List, [], ◌∷◌, if◌then◌else◌}
use wanctl.Bytes.{Text, text_eq}

-- `json.Token`. Numbers, booleans and null have one constructor: the walk does not look at them.
pub data Token : Type 0 where
  open_object close_object open_array close_array : Token
  string : Text → Token
  scalar : Token

-- What a decoder answers, token after token: `io.EOF` or another error at the end.
pub data Tokens : Type 0 where
  end_of_text broken : Tokens
  token : Token → Tokens → Tokens

-- `done` with the tokens that are left, or an error.
pub data Outcome : Type 0 where
  done : Tokens → Outcome
  duplicate malformed out_of_fuel : Outcome

abbrev pub and_then : Outcome → (Tokens → Outcome) → Outcome
and_then (done rest) k = k rest
and_then duplicate k = duplicate
and_then malformed k = malformed
and_then out_of_fuel k = out_of_fuel

unfoldable pub seen_before : Text → List Text → Bool
unfolding text_eq
seen_before key [] = false
seen_before key (k ∷ ks) = text_eq k key || seen_before key ks

-- `walkJSONValue` on a value's first token. The loops over an object's fields and an array's items
-- end where `More` finds the closing delimiter; each turn and each value cost a unit of fuel.
unfoldable mutual
  unfolding seen_before

  pub walk_value : ℕ → Token → Tokens → Outcome
  walk_value zero t rest = out_of_fuel
  walk_value (suc f) open_object rest = walk_fields f [] rest
  walk_value (suc f) open_array rest = walk_items f rest
  walk_value (suc f) close_object rest = malformed
  walk_value (suc f) close_array rest = malformed
  walk_value (suc f) (string s) rest = done rest
  walk_value (suc f) scalar rest = done rest

  pub walk_fields : ℕ → List Text → Tokens → Outcome
  walk_fields zero seen ts = out_of_fuel
  walk_fields (suc f) seen (token close_object rest) = done rest
  walk_fields (suc f) seen (token (string key) (token v rest)) =
      let walk = and_then (walk_value f v rest) (walk_fields f (key ∷ seen)) in
      if seen_before key seen then duplicate else walk
  walk_fields (suc f) seen (token (string key) _) =
      if seen_before key seen then duplicate else malformed
  walk_fields (suc f) seen _ = malformed

  pub walk_items : ℕ → Tokens → Outcome
  walk_items zero ts = out_of_fuel
  walk_items (suc f) (token close_array rest) = done rest
  walk_items (suc f) (token v rest) =
      let walk = and_then (walk_value f v rest) (walk_items f) in walk
  walk_items (suc f) _ = malformed

unfoldable pub count : Tokens → ℕ
count end_of_text = 0
count broken = 0
count (token _ rest) = suc (count rest)

-- Nothing may follow the value.
unfoldable pub at_end : Tokens → Outcome
at_end end_of_text = done end_of_text
at_end _ = malformed

unfoldable pub reject_duplicate_json_keys : Tokens → Outcome
unfolding walk_value count at_end
reject_duplicate_json_keys (token first rest) =
    and_then (walk_value (suc (count rest)) first rest) at_end
reject_duplicate_json_keys _ = malformed
