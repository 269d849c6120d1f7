-- ===== src/Bytes/Trim.antt =====
-- `strings.TrimSpace`: the bytes of Unicode's white space, dropped from both ends.
pub mod Plain
pub mod Twice
use wanctl.Prelude.{ℕ, zero, suc, ◌-◌, Bool, ◌&&◌, ◌||◌, [], ◌∷◌, ◌==◌, leb, if◌then◌else◌, reverse}
use wanctl.Bytes.{Text}

-- tab, newline, vertical tab, form feed, carriage return and space
unfoldable pub ascii_space : ℕ → Bool
ascii_space c = (leb 9 c && leb c 13) || c == 32

-- U+0085 and U+00A0
unfoldable pub space2 : ℕ → ℕ → Bool
space2 a b = a == 0xC2 && (b == 0x85 || b == 0xA0)

-- U+1680, U+2000 to U+200A, U+2028, U+2029, U+202F, U+205F and U+3000
unfoldable pub space3 : ℕ → ℕ → ℕ → Bool
space3 a b c =
    (a == 0xE1 && b == 0x9A && c == 0x80)
    || (a == 0xE2
        && b == 0x80
        && ((leb 0x80 c && leb c 0x8A) || c == 0xA8 || c == 0xA9 || c == 0xAF))
    || (a == 0xE2 && b == 0x81 && c == 0x9F)
    || (a == 0xE3 && b == 0x80 && c == 0x80)

-- How many bytes the white space at the front takes, 0 for none.
unfoldable pub space_width : Text → ℕ
unfolding ascii_space space2 space3
space_width [] = 0
space_width (a ∷ []) = if ascii_space a then 1 else 0
space_width (a ∷ b ∷ []) = if ascii_space a then 1 else if space2 a b then 2 else 0
space_width (a ∷ b ∷ c ∷ _) =
    if ascii_space a then 1 else if space2 a b then 2 else if space3 a b c then 3 else 0

-- The same for the end of a text, which is read backwards.
unfoldable pub space_width_end : Text → ℕ
unfolding ascii_space space2 space3
space_width_end [] = 0
space_width_end (a ∷ []) = if ascii_space a then 1 else 0
space_width_end (a ∷ b ∷ []) = if ascii_space a then 1 else if space2 b a then 2 else 0
space_width_end (a ∷ b ∷ c ∷ _) =
    if ascii_space a then 1 else if space2 b a then 2 else if space3 c b a then 3 else 0

-- `skip` counts the bytes of the white space that is being dropped.
unfoldable pub trim_front : (Text → ℕ) → ℕ → Text → Text
trim_front width skip [] = []
trim_front width (suc skip) (c ∷ s) = trim_front width skip s
trim_front width zero (c ∷ s) =
    let w = width (c ∷ s) in let rest = trim_front width (w - 1) s in if w == 0 then c ∷ s else rest

unfoldable pub trim_space : Text → Text
unfolding trim_front space_width space_width_end
trim_space s = reverse (trim_front space_width_end 0 (reverse (trim_front space_width 0 s)))
