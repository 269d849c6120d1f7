-- ===== src/Termsafe/Tail.antt =====
-- incompleteTail, of internal/termsafe/termsafe.go.
use wanctl.Prelude.{
  ap, subst, inl, inr, ◌-◌, ltb, Bool-cases, ◌≤◌, arith, ℕ, suc, zero, [], ◌∷◌, ◌≡◌, ◌≢◌, true,
  false, refl, length, drop,
}
use wanctl.Bytes.{Text}
use wanctl.Encoding.Utf8.{rune_size, continues, second_fits, rune_start, second_breaks, full_rune}
use wanctl.Termsafe.{first_byte, tail_from, incomplete_tail}

-- No character is cut off by the end of the text.
abbrev pub Whole : Text → Type 0
Whole [] = Unit
Whole (c ∷ s) = (full_rune (c ∷ s) ≡ true) × Whole s

-- A character that is cut off begins with a byte that starts one, and goes on with others.
open_start : (a : ℕ) (s : Text) → full_rune (a ∷ s) ≡ false → rune_start a ≡ true
unfolding full_rune rune_size rune_start
open_start a s h = ground arith

open_second : (a c : ℕ) (s : Text) → full_rune (a ∷ c ∷ s) ≡ false → rune_start c ≡ false
unfolding full_rune rune_size second_breaks second_fits rune_start
open_second a c [] h = ground arith
open_second a c (d ∷ s) h = ground arith

open_third : (a c d : ℕ) (s : Text) → full_rune (a ∷ c ∷ d ∷ s) ≡ false → rune_start d ≡ false
unfolding full_rune rune_size second_breaks continues rune_start
open_third a c d s h = ground arith

open_short : (a c d k : ℕ) (s : Text) → full_rune (a ∷ c ∷ d ∷ k ∷ s) ≡ true
unfolding full_rune rune_size
open_short a c d k s = ground arith

incomplete_tail-open : (a : ℕ) (s : Text) → full_rune (a ∷ s) ≡ false → incomplete_tail (a ∷ s) ≢ 0
unfolding incomplete_tail tail_from first_byte
incomplete_tail-open a [] h = ground (arith, open_start a [] h)
incomplete_tail-open a (c ∷ []) h = ground (arith, open_start a (c ∷ []) h, open_second a c [] h)
incomplete_tail-open a (c ∷ d ∷ []) h =
    ground (arith, open_start a (c ∷ d ∷ []) h, open_second a c (d ∷ []) h, open_third a c d [] h)
incomplete_tail-open a (c ∷ d ∷ k ∷ s) h = absurd (ground (arith, open_short a c d k s))

drop_cons :
    (k c : ℕ) (s : Text) → k ≤ length s → drop (length (c ∷ s) - k) (c ∷ s) ≡ drop (length s - k) s
drop_cons k c s h =
    let e : length (c ∷ s) - k ≡ suc (length s - k) = omega arith in ap (λ n. drop n (c ∷ s)) e

tail_cons : (n k c m : ℕ) (s : Text) → tail_from n k s ≡ suc m → tail_from n k (c ∷ s) ≡ suc m
unfolding tail_from
tail_cons zero k c m s h = h
tail_cons (suc n) k c m s h = elim (Bool-cases (ltb (length s) k)) [
  | inl t ↦ absurd (ground arith)
  | inr t ↦ let e = drop_cons k c s (ground arith) in ground (arith, e, tail_cons n (suc k) c m s)
]

-- A text with no tail to hold cuts no character off.
pub incomplete_tail-Whole : (s : Text) → incomplete_tail s ≡ 0 → Whole s
unfolding incomplete_tail
incomplete_tail-Whole [] h = tt
incomplete_tail-Whole (c ∷ s) h = (
  elim (Bool-cases (full_rune (c ∷ s))) [
    | inl e ↦ e
    | inr e ↦ absurd (incomplete_tail-open c s e h)
  ],
  incomplete_tail-Whole s (no_tail (tail_from 4 1 s) refl),
)
  where
    no_tail : (m : ℕ) → tail_from 4 1 s ≡ m → tail_from 4 1 s ≡ 0
    no_tail zero e = e
    no_tail (suc m) e = absurd (ground (arith, tail_cons 4 1 c m s e, h))

-- What is held is a part of the text that begins with the start of a character.
pub tail_start :
    (n k m : ℕ) (s : Text)
    → tail_from n k s ≡ suc m
    → (suc m ≤ length s) × (rune_start (first_byte (drop (length s - suc m) s)) ≡ true)
unfolding tail_from
tail_start zero k m s h = absurd (ground arith)
tail_start (suc n) k m s h = elim (Bool-cases (ltb (length s) k)) [
  | inl t ↦ absurd (ground arith)
  | inr t ↦ elim (Bool-cases (rune_start (first_byte (drop (length s - k) s)))) [
    | inr u ↦ tail_start n (suc k) m s (ground arith)
    | inl u ↦
        let e : k ≡ suc m = ground arith in
        subst (λ j. (j ≤ length s) × (rune_start (first_byte (drop (length s - j) s)) ≡ true)) e
          (ground arith, u)
  ]
]
