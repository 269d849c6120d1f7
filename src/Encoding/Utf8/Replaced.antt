-- ===== src/Encoding/Utf8/Replaced.antt =====
-- What encoding/json makes of a string: every byte that is not part of a character becomes U+FFFD.
use wanctl.Prelude.{
  ℕ, suc, zero, [], ◌∷◌, ◌++◌, ◌-◌, ◌≡◌, ◌≤◌, ◌==◌, ◌&&◌, not, true, false, refl, ap, ◌∙◌,
  if◌then◌else◌, take, drop, arith, take-append-drop, Bool,
}
use wanctl.Bytes.{Text}
use wanctl.Encoding.Utf8.{rune_error, decode_rune, valid, valid_from}
use wanctl.Encoding.Utf8.Prefix.{decode_rune-size}

-- U+FFFD in UTF-8
abbrev pub replacement : Text
replacement = 0xEF ∷ 0xBF ∷ 0xBD ∷ []

unfoldable pub replaced_from : ℕ → Text → Text
replaced_from skip [] = []
replaced_from (suc skip) (c ∷ s) = replaced_from skip s
replaced_from zero (c ∷ s) =
    let p = decode_rune (c ∷ s) in
    let rest = replaced_from (p.1 - 1) s in
    (if p.0 == rune_error && p.1 == 1 then replacement else take p.1 (c ∷ s)) ++ rest

unfoldable pub replaced : Text → Text
unfolding replaced_from
replaced s = replaced_from 0 s

both_true : (b c : Bool) → (not b && c) ≡ true → (b ≡ false) × (c ≡ true)
both_true b c h = ground arith

replaced_from-valid :
    (skip : ℕ) (s : Text) → valid_from skip s ≡ true → replaced_from skip s ≡ drop skip s
unfolding replaced_from valid_from
replaced_from-valid zero [] h = refl
replaced_from-valid (suc skip) [] h = refl
replaced_from-valid (suc skip) (c ∷ s) h = replaced_from-valid skip s h
replaced_from-valid zero (c ∷ s) h =
    let p = decode_rune (c ∷ s) in
    let (good, rest) = both_true (p.0 == rune_error && p.1 == 1) (valid_from (p.1 - 1) s) h in
    ap (λ b. (if b then replacement else take p.1 (c ∷ s)) ++ replaced_from (p.1 - 1) s) good
    ∙ ap (λ t. take p.1 (c ∷ s) ++ t) (replaced_from-valid (p.1 - 1) s rest)
    ∙ cut p.1 (decode_rune-size c s).0
  where
    cut : (n : ℕ) → 1 ≤ n → take n (c ∷ s) ++ drop (n - 1) s ≡ c ∷ s
    cut zero l = absurd (omega arith)
    cut (suc n) l =
        ap (λ k. take (suc n) (c ∷ s) ++ drop k s) (omega arith) ∙ take-append-drop (suc n) (c ∷ s)

-- Valid UTF-8 is kept.
pub replaced-valid : (s : Text) → valid s ≡ true → replaced s ≡ s
unfolding replaced valid
replaced-valid s h = replaced_from-valid 0 s h
