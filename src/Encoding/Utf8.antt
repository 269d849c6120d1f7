-- ===== src/Encoding/Utf8.antt =====
-- `unicode/utf8` and `unicode/utf16`, as far as the code calls them.
pub mod Prefix
pub mod Replaced
use wanctl.Prelude.{
  ℕ, zero, suc, ◌+◌, ◌-◌, ◌*◌, ◌/◌, ◌%◌, Bool, true, false, ◌&&◌, ◌||◌, List, [], ◌∷◌, ◌++◌, ◌==◌,
  ltb, leb, if◌then◌else◌, length, not,
}
use wanctl.Bytes.{Text}

-- `utf8.RuneError`
abbrev pub rune_error : ℕ
rune_error = 0xFFFD

-- How many bytes a character with this first byte takes; 1 for a byte that begins none.
unfoldable pub rune_size : ℕ → ℕ
rune_size a =
    if leb 0xC2 a && leb a 0xDF
    then 2
    else if leb 0xE0 a && leb a 0xEF
    then 3
    else if leb 0xF0 a && leb a 0xF4
    then 4
    else 1

unfoldable pub continues : ℕ → Bool
continues c = leb 0x80 c && leb c 0xBF

-- The second byte that may follow the first one.
unfoldable pub second_fits : ℕ → ℕ → Bool
second_fits a b =
    leb (if a == 0xE0 then 0xA0 else if a == 0xF0 then 0x90 else 0x80) b
    && leb b (if a == 0xED then 0x9F else if a == 0xF4 then 0x8F else 0xBF)

unfoldable pub decode2 : ℕ → Text → ℕ × ℕ
decode2 a (b ∷ _) = if second_fits a b then (a % 32 * 64 + b % 64, 2) else (rune_error, 1)
decode2 a [] = (rune_error, 1)

unfoldable pub decode3 : ℕ → Text → ℕ × ℕ
decode3 a (b ∷ c ∷ _) =
    if second_fits a b && continues c
    then (a % 16 * 4096 + b % 64 * 64 + c % 64, 3)
    else (rune_error, 1)
decode3 a _ = (rune_error, 1)

unfoldable pub decode4 : ℕ → Text → ℕ × ℕ
decode4 a (b ∷ c ∷ d ∷ _) =
    if second_fits a b && (continues c && continues d)
    then (a % 8 * 262144 + b % 64 * 4096 + c % 64 * 64 + d % 64, 4)
    else (rune_error, 1)
decode4 a _ = (rune_error, 1)

-- `utf8.DecodeRune`: the character and how many bytes it takes.
unfoldable pub decode_rune : Text → ℕ × ℕ
unfolding rune_size decode2 decode3 decode4 second_fits continues
decode_rune [] = (rune_error, 0)
decode_rune (a ∷ rest) =
    if ltb a 0x80
    then (a, 1)
    else if rune_size a == 2
    then decode2 a rest
    else if rune_size a == 3
    then decode3 a rest
    else if rune_size a == 4
    then decode4 a rest
    else (rune_error, 1)

-- `range` over a string, and `[]rune(s)`; `skip` counts the bytes of the character just read.
unfoldable pub runes_from : ℕ → Text → List ℕ
unfolding decode_rune
runes_from skip [] = []
runes_from (suc skip) (c ∷ s) = runes_from skip s
runes_from zero (c ∷ s) = let (r, size) = decode_rune (c ∷ s) in r ∷ runes_from (size - 1) s

unfoldable pub runes : Text → List ℕ
unfolding runes_from
runes s = runes_from 0 s

-- `utf8.Valid`
unfoldable pub valid_from : ℕ → Text → Bool
unfolding decode_rune
valid_from skip [] = true
valid_from (suc skip) (c ∷ s) = valid_from skip s
valid_from zero (c ∷ s) =
    let (r, size) = decode_rune (c ∷ s) in
    not (r == rune_error && size == 1) && valid_from (size - 1) s

unfoldable pub valid : Text → Bool
unfolding valid_from
valid s = valid_from 0 s

-- `utf8.RuneStart`
unfoldable pub rune_start : ℕ → Bool
rune_start b = not (leb 0x80 b && leb b 0xBF)

unfoldable pub second_breaks : ℕ → Text → Bool
second_breaks a [] = false
second_breaks a (b ∷ []) = not (second_fits a b)
second_breaks a (b ∷ c ∷ _) = not (second_fits a b) || not (continues c)

-- `utf8.FullRune`
unfoldable pub full_rune : Text → Bool
unfolding rune_size second_breaks second_fits continues
full_rune [] = false
full_rune (a ∷ s) = leb (rune_size a) (length (a ∷ s)) || second_breaks a s

-- `utf16.Encode`
unfoldable pub utf16_units : ℕ → List ℕ
utf16_units r =
    if ltb r 0xD800 || (leb 0xE000 r && ltb r 0x10000)
    then r ∷ []
    else if leb 0x10000 r && leb r 0x10FFFF
    then (0xD800 + (r - 0x10000) / 1024 % 1024) ∷ (0xDC00 + (r - 0x10000) % 1024) ∷ []
    else rune_error ∷ []

unfoldable pub utf16_encode : List ℕ → List ℕ
unfolding utf16_units
utf16_encode [] = []
utf16_encode (r ∷ rs) = utf16_units r ++ utf16_encode rs
