-- ===== src/Bytes.antt =====
-- Go strings and byte slices as lists of bytes, with the functions of `strings` that the code calls.
pub mod Laws
pub mod Trim
use wanctl.Prelude.{
  ℕ, suc, ◌+◌, ◌-◌, String, code, Bool, true, false, ◌&&◌, ◌||◌, List, [], ◌∷◌, ◌++◌, ◌==◌, leb,
  if◌then◌else◌, length, take, drop, reverse, Option, none, some,
}

abbrev pub Text : Type 0
Text = List ℕ

-- The bytes of an ASCII literal.
abbrev pub codes : String → Text
codes String.[] = []
codes (String.◌∷◌ c s) = code c ∷ codes s

-- `==` on strings
unfoldable pub text_eq : Text → Text → Bool
text_eq [] [] = true
text_eq (a ∷ s) (b ∷ t) = a == b && text_eq s t
text_eq _ _ = false

abbrev pub is_empty : Text → Bool
is_empty [] = true
is_empty (_ ∷ _) = false

-- `strings.HasPrefix` and `strings.HasSuffix`, as the standard library compares slices.
unfoldable pub has_prefix : Text → Text → Bool
has_prefix s pre = leb (length pre) (length s) && text_eq (take (length pre) s) pre

unfoldable pub has_suffix : Text → Text → Bool
has_suffix s post = leb (length post) (length s) && text_eq (drop (length s - length post) s) post

-- `strings.Contains`
unfoldable pub contains : Text → Text → Bool
unfolding has_prefix
contains [] seq = has_prefix [] seq
contains (c ∷ s) seq = has_prefix (c ∷ s) seq || contains s seq

-- `strings.CutPrefix`: what follows the prefix, if it is there.
unfoldable pub cut_prefix : Text → Text → Option Text
unfolding has_prefix
cut_prefix s pre = if has_prefix s pre then some (drop (length pre) s) else none

-- `strings.Cut` at one byte: what stands before its first occurrence and after it.
unfoldable pub cut_at : ℕ → Text → Option (Text × Text)
cut_at b [] = none
cut_at b (c ∷ s) =
    let rest = cut_at b s in
    if c == b then some ([], s) else elim rest [ none ↦ none | some (p, q) ↦ some (c ∷ p, q) ]
