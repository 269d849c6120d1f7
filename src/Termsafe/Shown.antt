-- ===== src/Termsafe/Shown.antt =====
-- Which text is safe to show on a terminal (internal/termsafe/termsafe.go).
use wanctl.Termsafe.{hex_digits}
use wanctl.Prelude.{
  ◌/◌, ◌^◌, ◌%◌, ℕ, suc, zero, List, [], ◌∷◌, ◌++◌, ◌-◌, ◌≡◌, ◌<◌, ◌==◌, ◌&&◌, ◌||◌, not, leb, ltb,
  true, false, refl, ap, ◌∙◌, length, Bool, arith, All,
}
use wanctl.Bytes.{Text}
use wanctl.Encoding.Hex.{hex_digit}
use wanctl.Encoding.Utf8.{rune_error, decode_rune, valid, valid_from, runes, runes_from}
use wanctl.Encoding.Utf8.Prefix.{decode_rune-ascii}

-- A printable character, a newline or a tab; a carriage return only where it is asked for.
unfoldable pub shown : Bool → ℕ → Bool
shown keep_cr r =
    (leb 0x20 r && (not (r == 0x7f) && not (leb 0x80 r && leb r 0x9f)))
    || (r == 10 || (r == 9 || (r == 13 && keep_cr)))

unfoldable pub lf_first : List ℕ → Bool
lf_first [] = false
lf_first (r ∷ rs) = r == 10

-- Every character is shown, where a carriage return may also stand before a newline.
unfoldable pub calm : Bool → List ℕ → Bool
calm keep_cr [] = true
calm keep_cr (r ∷ rs) = (shown keep_cr r || (r == 13 && lf_first rs)) && calm keep_cr rs

unfoldable pub safe : Bool → Text → Bool
safe keep_cr t = valid t && calm keep_cr (runes t)

runes_from-skip : (t x : Text) → runes_from (length t) (t ++ x) ≡ runes x
unfolding runes_from runes
runes_from-skip [] x = refl
runes_from-skip (c ∷ t) x = runes_from-skip t x

valid_from-skip : (t x : Text) → valid_from (length t) (t ++ x) ≡ valid x
unfolding valid_from valid
valid_from-skip [] x = refl
valid_from-skip (c ∷ t) x = valid_from-skip t x

-- A character in front of a text.
pub runes-char :
    (a r : ℕ) (t x : Text)
    → decode_rune (a ∷ t ++ x) ≡ (r, length (a ∷ t))
    → runes (a ∷ t ++ x) ≡ r ∷ runes x
unfolding runes_from runes
runes-char a r t x e =
    ap (λ p. p.0 ∷ runes_from (p.1 - 1) (t ++ x)) e
    ∙ ap (λ n. r ∷ runes_from n (t ++ x)) (omega arith)
    ∙ ap (λ l. r ∷ l) (runes_from-skip t x)

pub valid-char :
    (a r : ℕ) (t x : Text)
    → decode_rune (a ∷ t ++ x) ≡ (r, length (a ∷ t))
    → (r == rune_error && leb (length (a ∷ t)) 1) ≡ false
    → valid (a ∷ t ++ x) ≡ valid x
unfolding valid_from valid
valid-char a r t x e h =
    ap (λ p. not (p.0 == rune_error && p.1 == 1) && valid_from (p.1 - 1) (t ++ x)) e
    ∙ ap (λ n. not (r == rune_error && length (a ∷ t) == 1) && valid_from n (t ++ x)) (omega arith)
    ∙ ap (λ b. not (r == rune_error && length (a ∷ t) == 1) && b) (valid_from-skip t x)
    ∙ ground arith

pub safe-char :
    (keep_cr : Bool) (a r : ℕ) (t x : Text)
    → decode_rune (a ∷ t ++ x) ≡ (r, length (a ∷ t))
    → (r == rune_error && leb (length (a ∷ t)) 1) ≡ false
    → shown keep_cr r ≡ true
    → safe keep_cr x ≡ true
    → safe keep_cr (a ∷ t ++ x) ≡ true
unfolding safe calm
safe-char keep_cr a r t x e h s g =
    rw (runes-char a r t x e) (rw (valid-char a r t x e h) (ground arith))

-- Escapes are plain ASCII.
abbrev pub plain : ℕ → Bool
plain c = leb 0x20 c && ltb c 0x7f

pub safe-plain :
    (keep_cr : Bool) (out x : Text)
    → All (λ c. plain c ≡ true) out
    → safe keep_cr x ≡ true
    → safe keep_cr (out ++ x) ≡ true
unfolding shown
safe-plain keep_cr [] x h g = g
safe-plain keep_cr (c ∷ out) x h g =
    safe-char keep_cr c c [] (out ++ x) (decode_rune-ascii c (out ++ x) (ground (arith, h.0)))
      (ground (arith, h.0)) (ground (arith, h.0)) (safe-plain keep_cr out x h.1 g)

pub hex_digits-plain : (v n : ℕ) → All (λ c. plain c ≡ true) (hex_digits v n)
unfolding hex_digits hex_digit
hex_digits-plain v zero = tt
hex_digits-plain v (suc n) = (digit_plain (v / 16 ^ n % 16) (omega arith), hex_digits-plain v n)
  where
    digit_plain : (d : ℕ) → d < 16 → plain (hex_digit d) ≡ true
    digit_plain d h = ground arith
