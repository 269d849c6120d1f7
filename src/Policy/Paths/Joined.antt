-- ===== src/Policy/Paths/Joined.antt =====
-- Cleaned paths as strings, and the elements that they are joined from.
use wanctl.Prelude.{
  ℕ, ◌≡◌, refl, sym, ap, ◌∙◌, inl, inr, ◌≢◌, List, [], ◌∷◌, ◌++◌, reverse, reverse-append, arith,
  ◌==◌, All, Bool-cases,
}
use wanctl.Bytes.{Text}
use wanctl.Policy.Paths.{slash, push_first, elements, join_kept}
use wanctl.Policy.Paths.Laws.{NoSlash}

push_first-append :
    (c : ℕ) (es fs : List Text) → es ≢ [] → push_first c (es ++ fs) ≡ push_first c es ++ fs
push_first-append c [] fs h = absurd (h refl)
push_first-append c (e ∷ es) fs h = refl

elements-ne-nil : (s : Text) → elements s ≢ []
unfolding elements
elements-ne-nil [] h = cc
elements-ne-nil (c ∷ s) h = elim (Bool-cases (c == slash)) [
  | inl e ↦ ground arith
  | inr e ↦ other (elements s) (rw (e, elements) at h)
]
  where
    other : (es : List Text) → push_first c es ≡ [] → ⊥
    other [] k = cc
    other (f ∷ fs) k = cc

-- Splitting at a slash is splitting both sides.
pub elements-append : (s t : Text) → elements (s ++ slash ∷ t) ≡ elements s ++ elements t
unfolding elements
elements-append [] t = refl
elements-append (c ∷ s) t = elim (Bool-cases (c == slash)) [
  | inl e ↦ rw e (ap (λ l. [] ∷ l) (elements-append s t))
  | inr e ↦ rw e (
      ap (push_first c) (elements-append s t)
      ∙ push_first-append c (elements s) (elements t) (elements-ne-nil s))
]

pub elements_one : (e : Text) → NoSlash e → elements e ≡ e ∷ []
unfolding elements
elements_one [] h = refl
elements_one (c ∷ e) h = rw h.0 (ap (push_first c) (elements_one e h.1))

pub elements-join_kept :
    (ks : List Text) → ks ≢ [] → All NoSlash ks → elements (join_kept ks) ≡ reverse ks
unfolding join_kept
elements-join_kept [] n h = absurd (n refl)
elements-join_kept (e ∷ []) n h = elements_one e h.0
elements-join_kept (e ∷ d ∷ ks) n h =
    elements-append (join_kept (d ∷ ks)) e
    ∙ ap (λ l. l ++ elements e) (elements-join_kept (d ∷ ks) (λ p. cc) h.1)
    ∙ ap (λ l. reverse (d ∷ ks) ++ l) (elements_one e h.0)
    ∙ sym (reverse-append (e ∷ []) (d ∷ ks))
