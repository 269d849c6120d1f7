-- ===== src/Encoding/Base64.antt =====
-- `base64.StdEncoding`: padded, not strict, and blind to line breaks when it decodes.
pub mod RoundTrip
use wanctl.Prelude.{
  ℕ, ◌+◌, ◌-◌, ◌*◌, ◌/◌, ◌%◌, Bool, ◌||◌, not, Option, none, some, List, [], ◌∷◌, ◌++◌, ◌==◌, ltb,
  leb, ◌&&◌, if◌then◌else◌, filter, ◌>>=◌,
}
use wanctl.Bytes.{Text, is_empty}

-- the character of a 6-bit value, and the value of a character
unfoldable pub char_of : ℕ → ℕ
char_of v =
    if ltb v 26
    then v + 65
    else if ltb v 52
    then v + 71
    else if ltb v 62
    then v - 4
    else if v == 62
    then 43
    else 47

unfoldable pub value_of : ℕ → Option ℕ
value_of c =
    if leb 65 c && leb c 90
    then some (c - 65)
    else if leb 97 c && leb c 122
    then some (c - 71)
    else if leb 48 c && leb c 57
    then some (c + 4)
    else if c == 43
    then some 62
    else if c == 47
    then some 63
    else none

abbrev pub pad : ℕ
pad = 61

-- `EncodeToString`
unfoldable pub encode : Text → Text
encode [] = []
encode (a ∷ []) = char_of (a / 4) ∷ char_of (a % 4 * 16) ∷ pad ∷ pad ∷ []
encode (a ∷ b ∷ []) =
    char_of (a / 4) ∷ char_of (a % 4 * 16 + b / 16) ∷ char_of (b % 16 * 4) ∷ pad ∷ []
encode (a ∷ b ∷ c ∷ s) =
    char_of (a / 4)
    ∷ char_of (a % 4 * 16 + b / 16)
    ∷ char_of (b % 16 * 4 + c / 64)
    ∷ char_of (c % 64)
    ∷ encode s

unfoldable pub line_break : ℕ → Bool
line_break c = c == 10 || c == 13

unfoldable pub last_one : ℕ → ℕ → Text → Option Text
last_one a b rest =
    if is_empty rest
    then (do w ← value_of a; x ← value_of b; some ((w * 4 + x / 16) ∷ []))
    else none

unfoldable pub last_two : ℕ → ℕ → ℕ → Text → Option Text
last_two a b c rest =
    if is_empty rest
    then (do
      w ← value_of a
      x ← value_of b
      y ← value_of c
      some ((w * 4 + x / 16) ∷ (x % 16 * 16 + y / 4) ∷ []))
    else none

unfoldable pub whole : ℕ → ℕ → ℕ → ℕ → Option Text → Option Text
whole a b c d tail = do
  w ← value_of a
  x ← value_of b
  y ← value_of c
  z ← value_of d
  t ← tail
  some ((w * 4 + x / 16) ∷ (x % 16 * 16 + y / 4) ∷ (y % 4 * 64 + z) ∷ t)

-- The four-character groups, once the line breaks are gone.
unfoldable pub groups : Text → Option Text
unfolding last_one last_two whole
groups [] = some []
groups (a ∷ b ∷ c ∷ d ∷ rest) =
    let tail = groups rest in
    if c == pad
    then (if d == pad then last_one a b rest else none)
    else if d == pad
    then last_two a b c rest
    else whole a b c d tail
groups _ = none

-- `DecodeString`; `none` is a `CorruptInputError`.
unfoldable pub decode : Text → Option Text
unfolding groups line_break
decode s = groups (filter (λ c. not (line_break c)) s)
