-- ===== src/Bytes/Trim/Twice.antt =====
-- A trimmed text has nothing left to trim.
use wanctl.Prelude.{
  ℕ, zero, suc, ◌-◌, ◌≡◌, refl, sym, ap, subst, ◌∙◌, ◌⊎◌, inl, inr, [], ◌∷◌, ◌++◌, arith, ◌==◌,
  ==_iff, reverse, reverse-append, reverse-reverse, Bool-cases,
}
use wanctl.Bytes.{Text}
use wanctl.Bytes.Trim.{space_width, space_width_end, trim_front, trim_space}

-- What is left begins with no white space, or is empty.
abbrev Settled : (Text → ℕ) → Text → Type 0
Settled width s = (s ≡ []) ⊎ (width s ≡ 0)

trim_front-Settled :
    (width : Text → ℕ) (skip : ℕ) (s : Text) → Settled width (trim_front width skip s)
unfolding trim_front
trim_front-Settled width skip [] = inl refl
trim_front-Settled width (suc skip) (c ∷ s) = trim_front-Settled width skip s
trim_front-Settled width zero (c ∷ s) = elim (Bool-cases (width (c ∷ s) == 0)) [
  | inl e ↦ rw e (inr ((==_iff (width (c ∷ s)) 0).0 e))
  | inr e ↦ rw e (trim_front-Settled width (width (c ∷ s) - 1) s)
]

-- Only bytes at the front go.
trim_front-suffix :
    (width : Text → ℕ) (skip : ℕ) (s : Text) → (gone : Text) × (s ≡ gone ++ trim_front width skip s)
unfolding trim_front
trim_front-suffix width skip [] = ([], refl)
trim_front-suffix width (suc skip) (c ∷ s) =
    let (gone, e) = trim_front-suffix width skip s in (c ∷ gone, ap (λ l. c ∷ l) e)
trim_front-suffix width zero (c ∷ s) = elim (Bool-cases (width (c ∷ s) == 0)) [
  | inl e ↦ ([], rw e)
  | inr e ↦
      let (gone, f) = trim_front-suffix width (width (c ∷ s) - 1) s in
      (c ∷ gone, rw e (ap (λ l. c ∷ l) f))
]

trim_front-fixed : (width : Text → ℕ) (s : Text) → Settled width s → trim_front width 0 s ≡ s
unfolding trim_front
trim_front-fixed width [] h = refl
trim_front-fixed width (c ∷ s) (inl e) = cc
trim_front-fixed width (c ∷ s) (inr e) = rw e

-- White space at the front of a text is there whatever follows the text.
space_width-append : (a : ℕ) (s t : Text) → space_width ((a ∷ s) ++ t) ≡ 0 → space_width (a ∷ s) ≡ 0
unfolding space_width
space_width-append a [] [] h = h
space_width-append a [] (x ∷ []) h = ground arith
space_width-append a [] (x ∷ y ∷ t) h = ground arith
space_width-append a (b ∷ []) [] h = h
space_width-append a (b ∷ []) (x ∷ t) h = ground arith
space_width-append a (b ∷ c ∷ s) t h = h

Settled-prefix : (s t : Text) → Settled space_width (s ++ t) → Settled space_width s
Settled-prefix [] t h = inl refl
Settled-prefix (a ∷ s) t (inl e) = cc
Settled-prefix (a ∷ s) t (inr e) = inr (space_width-append a s t e)

-- Trimming twice is trimming once.
pub trim_space_idem : (s : Text) → trim_space (trim_space s) ≡ trim_space s
unfolding trim_space
trim_space_idem s =
    let u = trim_front space_width 0 s in
    let r = trim_front space_width_end 0 (reverse u) in
    let (gone, split) = trim_front-suffix space_width_end 0 (reverse u) in
    let joined = sym (reverse-reverse u) ∙ ap reverse split ∙ reverse-append gone r in
    let front =
      Settled-prefix (reverse r) (reverse gone)
        (subst (Settled space_width) joined (trim_front-Settled space_width 0 s)) in
    ap (λ l. reverse (trim_front space_width_end 0 (reverse l)))
      (trim_front-fixed space_width (reverse r) front)
    ∙ ap (λ l. reverse (trim_front space_width_end 0 l)) (reverse-reverse r)
    ∙ ap reverse
        (trim_front-fixed space_width_end r (trim_front-Settled space_width_end 0 (reverse u)))
