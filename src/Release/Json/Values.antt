-- ===== src/Release/Json/Values.antt =====
-- JSON values, their tokens, and whether an object in them has a key twice.
use wanctl.Prelude.{Bool, true, false, ◌&&◌, ◌||◌, not}
use wanctl.Bytes.{Text, text_eq}
use wanctl.Release.Json.{
  Token, Tokens, open_object, close_object, open_array, close_array, string, scalar, token,
}

mutual
  pub data Json : Type 0 where
    atom : Json
    text : Text → Json
    array : Items → Json
    object : Fields → Json

  pub data Items : Type 0 where
    nil : Items
    cons : Json → Items → Items

  pub data Fields : Type 0 where
    end : Fields
    field : Text → Json → Fields → Fields

-- The tokens of a value, before those that follow it. A value has a first token.
abbrev pub first_of_value : Json → Token
first_of_value atom = scalar
first_of_value (text s) = string s
first_of_value (array xs) = open_array
first_of_value (object fs) = open_object

unfoldable mutual
  pub after_first : Json → Tokens → Tokens
  after_first atom rest = rest
  after_first (text s) rest = rest
  after_first (array xs) rest = items_tokens xs rest
  after_first (object fs) rest = fields_tokens fs rest

  pub items_tokens : Items → Tokens → Tokens
  items_tokens nil rest = token close_array rest
  items_tokens (cons v xs) rest = token (first_of_value v) (after_first v (items_tokens xs rest))

  pub fields_tokens : Fields → Tokens → Tokens
  fields_tokens end rest = token close_object rest
  fields_tokens (field k v fs) rest =
      token (string k) (token (first_of_value v) (after_first v (fields_tokens fs rest)))

unfoldable pub has_key : Text → Fields → Bool
has_key k end = false
has_key k (field j v fs) = text_eq k j || has_key k fs

-- No object has a key twice.
unfoldable mutual
  pub unique : Json → Bool
  unique atom = true
  unique (text s) = true
  unique (array xs) = unique_items xs
  unique (object fs) = unique_fields fs

  pub unique_items : Items → Bool
  unique_items nil = true
  unique_items (cons v xs) = unique v && unique_items xs

  pub unique_fields : Fields → Bool
  unique_fields end = true
  unique_fields (field k v fs) = not (has_key k fs) && (unique v && unique_fields fs)
