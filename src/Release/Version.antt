-- ===== src/Release/Version.antt =====
-- Release versions and their order (`parseVersion`, `compareVersion`).
pub mod Order
pub mod Parsed
use wanctl.Prelude.{
  ℕ, zero, suc, ◌+◌, ◌-◌, ◌*◌, Bool, true, false, ◌&&◌, ◌||◌, not, Option, none, some, List, [],
  ◌∷◌, ◌++◌, ◌==◌, ltb, leb, if◌then◌else◌, length, ◌>>=◌, ℤ, pos, negsuc,
}
use wanctl.Bytes.{Text, codes, cut_prefix, is_empty}

pub record Version : Type 0 where
  pub major : Text
  pub minor : Text
  pub patch : Text
  pub beta : Text

unfoldable pub is_digit : ℕ → Bool
is_digit c = leb b'0' c && leb c b'9'

-- The longest run of digits at the front, and what follows it.
unfoldable pub digits : Text → Text × Text
unfolding is_digit
digits [] = ([], [])
digits (c ∷ s) = let (ds, rest) = digits s in if is_digit c then (c ∷ ds, rest) else ([], c ∷ s)

-- `[1-9][0-9]*`
unfoldable pub positive : Text → Bool
positive [] = false
positive (c ∷ _) = not (c == b'0')

-- `0|[1-9][0-9]*`
unfoldable pub number : Text → Bool
unfolding positive
number s = positive s || (length s == 1)

-- `(0|[1-9][0-9]*)` at the front of a text that goes on with no digit.
unfoldable pub take_number : Text → Option (Text × Text)
unfolding number digits
take_number s = let (ds, rest) = digits s in if number ds then some (ds, rest) else none

-- `(?:-beta\.([1-9][0-9]*))?$`: the number, empty where there is none.
unfoldable pub take_beta : Text → Option Text
unfolding positive digits
take_beta [] = some []
take_beta (c ∷ s) = do
  rest ← cut_prefix (c ∷ s) (codes "-beta.")
  if positive (digits rest).0 && is_empty (digits rest).1 then some (digits rest).0 else none

-- `parseVersion`, by the pattern that the regular expression states; `none` is its error.
unfoldable pub parse_version : Text → Option Version
unfolding take_number take_beta
parse_version value = do
  s0 ← cut_prefix value (codes "v")
  (a, s1) ← take_number s0
  s2 ← cut_prefix s1 (codes ".")
  (b, s3) ← take_number s2
  s4 ← cut_prefix s3 (codes ".")
  (c, s5) ← take_number s4
  beta ← take_beta s5
  some (record { major = a; minor = b; patch = c; beta = beta })

-- `strings.Compare`
unfoldable pub compare_text : Text → Text → ℤ
compare_text [] [] = pos 0
compare_text [] (_ ∷ _) = negsuc 0
compare_text (_ ∷ _) [] = pos 1
compare_text (a ∷ s) (b ∷ t) =
    let rest = compare_text s t in if ltb a b then negsuc 0 else if ltb b a then pos 1 else rest

unfoldable pub compare_number : Text → Text → ℤ
unfolding compare_text
compare_number a b =
    if ltb (length a) (length b)
    then negsuc 0
    else if ltb (length b) (length a)
    then pos 1
    else compare_text a b

-- The result of the first comparison that does not end in 0.
abbrev pub or_else : ℤ → ℤ → ℤ
or_else (pos zero) next = next
or_else c next = c

unfoldable pub compare_beta : Text → Text → ℤ
unfolding compare_number
compare_beta a b =
    if is_empty a && not (is_empty b)
    then pos 1
    else if not (is_empty a) && is_empty b
    then negsuc 0
    else compare_number a b

unfoldable pub compare_version : Version → Version → ℤ
unfolding compare_number compare_beta
compare_version a b = or_else (compare_number a.major b.major) (
    or_else (compare_number a.minor b.minor)
      (or_else (compare_number a.patch b.patch) (compare_beta a.beta b.beta)))

unfoldable pub compare_versions : Text → Text → Option ℤ
unfolding parse_version compare_version
compare_versions a b = do av ← parse_version a; bv ← parse_version b; some (compare_version av bv)
