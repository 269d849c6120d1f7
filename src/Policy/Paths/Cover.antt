-- ===== src/Policy/Paths/Cover.antt =====
-- A directory rule covers exactly the paths below its directory, element by element.
use wanctl.Prelude.{
  ℕ, ◌≡◌, refl, sym, ap, ap₂, subst, ◌∙◌, inl, inr, ◌≢◌, ◌↔◌, true, List, [], ◌∷◌, ◌++◌,
  append_assoc, reverse, reverse-append, reverse-reverse, arith, length, drop, All, Bool-cases,
}
use wanctl.Bytes.{Text, text_eq, has_prefix}
use wanctl.Bytes.Laws.{text_eq_iff, text_eq_refl, has_prefix-split, has_prefix-append}
use wanctl.Policy.Paths.{
  slash, elements, is_rooted, kept_of, join_kept, clean_join, clean, covers, within,
}
use wanctl.Policy.Paths.Laws.{IsReal, kept_of-IsReal, NoSlash, kept_of-NoSlash}
use wanctl.Policy.Paths.Joined.{elements-append, elements-join_kept}

join_kept-append :
    (ext ks : List Text)
    → ext ≢ []
    → ks ≢ []
    → join_kept (ext ++ ks) ≡ join_kept ks ++ slash ∷ join_kept ext
unfolding join_kept
join_kept-append [] ks n m = absurd (n refl)
join_kept-append (e ∷ ext) [] n m = absurd (m refl)
join_kept-append (e ∷ []) (d ∷ ks) n m = refl
join_kept-append (e ∷ f ∷ ext) (d ∷ ks) n m =
    ap (λ l. l ++ slash ∷ e) (join_kept-append (f ∷ ext) (d ∷ ks) (λ p. cc) m)
    ∙ append_assoc (join_kept (d ∷ ks)) (slash ∷ join_kept (f ∷ ext)) (slash ∷ e)

All-append_right {ℓ κ} :
    {A : Type ℓ} (P : A → Type κ) (xs ys : List A) → All P (xs ++ ys) → All P ys
All-append_right P [] ys h = h
All-append_right P (x ∷ xs) ys h = All-append_right P xs ys h.1

-- Elements that a string splits into are what it was joined from.
elements_of_join :
    (ks es : List Text) → All NoSlash ks → ks ≢ [] → elements (join_kept ks) ≡ es → ks ≡ reverse es
elements_of_join ks es h n e =
    sym (reverse-reverse ks) ∙ ap reverse (sym (elements-join_kept ks n h) ∙ e)

-- Joined elements that begin with an empty one are none at all.
join_kept-NoSlash :
    (ks : List Text) (rest : Text) → All NoSlash ks → All IsReal ks → join_kept ks ≢ slash ∷ rest
join_kept-NoSlash [] rest h r e = unfold join_kept in cc
join_kept-NoSlash (k ∷ ks) rest h r e =
    let first : elements (slash ∷ rest) ≡ [] ∷ elements rest = unfold elements in refl in
    let split =
      elements_of_join (k ∷ ks) ([] ∷ elements rest) h (λ p. cc) (ap elements e ∙ first) in
    impossible (
      All-append_right IsReal (reverse (elements rest)) ([] ∷ [])
        (subst (All IsReal) (split ∙ reverse-append ([] ∷ []) (elements rest)) r))
  where
    impossible : All IsReal ([] ∷ []) → ⊥
    impossible x = cc x.0.full

-- The cleaned form of an absolute path.
pub clean_rooted : (s : Text) → is_rooted s ≡ true → clean s ≡ slash ∷ join_kept (kept_of s)
unfolding clean
clean_rooted s h = rw (h, clean_join)

-- `Within` on an absolute directory is the test on the cleaned paths.
within_rooted : (d path : Text) → is_rooted d ≡ true → within d path ≡ covers (clean d) (clean path)
unfolding within
within_rooted [] path h = cc
within_rooted (c ∷ d) path h = refl

append-cons-ne-nil : (s t : Text) (c : ℕ) → [] ≢ s ++ c ∷ t
append-cons-ne-nil [] t c h = cc
append-cons-ne-nil (x ∷ s) t c h = cc

join_kept-nil : join_kept [] ≡ []
unfolding join_kept
join_kept-nil = refl

elements-nil : elements [] ≡ [] ∷ []
unfolding elements
elements-nil = refl

-- Real elements do not join to the empty string.
joined_empty : (ks : List Text) → All NoSlash ks → All IsReal ks → ks ≢ [] → join_kept ks ≡ [] → ⊥
joined_empty ks h r n e =
    impossible
      (subst (All IsReal) (elements_of_join ks ([] ∷ []) h n (ap elements e ∙ elements-nil)) r)
  where
    impossible : All IsReal ([] ∷ []) → ⊥
    impossible x = cc x.0.full

-- Joining is one to one on real elements.
same_elements :
    (kd kp : List Text)
    → All NoSlash kd
    → All NoSlash kp
    → All IsReal kd
    → kd ≢ []
    → join_kept kp ≡ join_kept kd
    → kp ≡ kd
same_elements kd [] nd np rd n e = absurd (joined_empty kd nd rd n (sym e ∙ join_kept-nil))
same_elements kd (k ∷ ks) nd np rd n e =
    elements_of_join (k ∷ ks) (elements (join_kept (k ∷ ks))) np (λ p. cc) refl
    ∙ ap (λ s. reverse (elements s)) e
    ∙ sym (elements_of_join kd (elements (join_kept kd)) nd n refl)

-- A joined path that goes on below another has the other's elements at its root.
below_elements :
    (kd kp : List Text) (rest : Text)
    → All NoSlash kd
    → All NoSlash kp
    → kd ≢ []
    → join_kept kp ≡ join_kept kd ++ slash ∷ rest
    → kp ≡ reverse (elements rest) ++ kd
below_elements kd [] rest nd np n e =
    absurd (append-cons-ne-nil (join_kept kd) rest slash (unfold join_kept in e))
below_elements kd (k ∷ ks) rest nd np n e =
    let split =
      elements_of_join (k ∷ ks) (elements (join_kept kd) ++ elements rest) np (λ p. cc)
        (ap elements e ∙ elements-append (join_kept kd) rest) in
    split
    ∙ ap (λ l. reverse (l ++ elements rest)) (elements-join_kept kd n nd)
    ∙ reverse-append (reverse kd) (elements rest)
    ∙ ap (λ l. reverse (elements rest) ++ l) (reverse-reverse kd)

-- The test on the strings, as a statement about the elements.
covers_sound :
    (kd kp : List Text)
    → All NoSlash kd
    → All NoSlash kp
    → All IsReal kd
    → kd ≢ []
    → covers (slash ∷ join_kept kd) (slash ∷ join_kept kp) ≡ true
    → (ext : List Text) × (kp ≡ ext ++ kd)
covers_sound kd kp nd np rd n h =
    elim (Bool-cases (text_eq (slash ∷ join_kept kp) (slash ∷ join_kept kd))) [
      | inl same ↦ ([], same_elements kd kp nd np rd n (tail_eq ((text_eq_iff _ _).0 same)))
      | inr other ↦
          let prefixed : has_prefix (slash ∷ join_kept kp) ((slash ∷ join_kept kd) ++ slash ∷ [])
              ≡ true =
            unfold covers in ground arith in
          let rest = drop (length ((slash ∷ join_kept kd) ++ slash ∷ [])) (slash ∷ join_kept kp) in
          (
            reverse (elements rest),
            below_elements kd kp rest nd np n (
                tail_eq (
                  has_prefix-split (slash ∷ join_kept kp) ((slash ∷ join_kept kd) ++ slash ∷ [])
                    prefixed
                  ∙ append_assoc (slash ∷ join_kept kd) (slash ∷ []) rest)),
          )
    ]
  where
    tail_eq : {s t : Text} → slash ∷ s ≡ slash ∷ t → s ≡ t
    tail_eq p = cc

covers_complete :
    (ext kd : List Text)
    → kd ≢ []
    → covers (slash ∷ join_kept kd) (slash ∷ join_kept (ext ++ kd)) ≡ true
unfolding covers
covers_complete [] kd n = ground (arith, text_eq_refl (slash ∷ join_kept kd))
covers_complete (e ∷ ext) kd n = rw (join_kept-append (e ∷ ext) kd (λ p. cc) n) (
    ground (
      arith,
      append_assoc (slash ∷ join_kept kd) (slash ∷ []) (join_kept (e ∷ ext)),
      has_prefix-append ((slash ∷ join_kept kd) ++ slash ∷ []) (join_kept (e ∷ ext)),
    ))

-- For absolute paths, and a directory other than the root: the directory covers the path exactly
-- where the elements of the cleaned path begin with those of the cleaned directory. No .., no
-- doubled slash and no sibling with a longer name gets past a directory rule.
pub within_iff :
    (d path : Text)
    → is_rooted d ≡ true
    → is_rooted path ≡ true
    → kept_of d ≢ []
    → (within d path ≡ true) ↔ ((ext : List Text) × (kept_of path ≡ ext ++ kept_of d))
within_iff d path hd hp n =
    let form = within_rooted d path hd ∙ ap₂ covers (clean_rooted d hd) (clean_rooted path hp) in
    (
      λ h.
          covers_sound (kept_of d) (kept_of path) (kept_of-NoSlash d) (kept_of-NoSlash path)
            (kept_of-IsReal d hd) n (sym form ∙ h),
      λ (ext, e).
          form
          ∙ ap (λ k. covers (slash ∷ join_kept (kept_of d)) (slash ∷ join_kept k)) e
          ∙ covers_complete ext (kept_of d) n,
    )

root_covers :
    (kp : List Text)
    → All NoSlash kp
    → All IsReal kp
    → covers (slash ∷ join_kept []) (slash ∷ join_kept kp) ≡ true
    → kp ≡ []
root_covers [] h r c = refl
root_covers (k ∷ ks) h r c =
    let top = slash ∷ join_kept [] in
    let p = slash ∷ join_kept (k ∷ ks) in
    elim (Bool-cases (text_eq p top)) [
      | inl same ↦ absurd (
          joined_empty (k ∷ ks) h r (λ q. cc)
            (tail_of ((text_eq_iff p top).0 same) ∙ join_kept-nil))
      | inr other ↦
          let prefixed : has_prefix p (top ++ slash ∷ []) ≡ true = unfold covers in ground arith in
          let rest = drop (length (top ++ slash ∷ [])) p in
          absurd (
            join_kept-NoSlash (k ∷ ks) rest h r (
              tail_of (has_prefix-split p (top ++ slash ∷ []) prefixed)
              ∙ ap (λ l. (l ++ slash ∷ []) ++ rest) join_kept-nil))
    ]
  where
    tail_of : {s t : Text} → slash ∷ s ≡ slash ∷ t → s ≡ t
    tail_of p = cc

-- For absolute paths, a rule for the root directory covers the root alone, and nothing below it.
pub within_root :
    (d path : Text)
    → is_rooted d ≡ true
    → is_rooted path ≡ true
    → kept_of d ≡ []
    → (within d path ≡ true) ↔ (kept_of path ≡ [])
within_root d path hd hp n =
    let form =
      within_rooted d path hd
      ∙ ap₂ covers (clean_rooted d hd ∙ ap (λ k. slash ∷ join_kept k) n) (clean_rooted path hp) in
    (
      λ h.
          root_covers (kept_of path) (kept_of-NoSlash path) (kept_of-IsReal path hp) (sym form ∙ h),
      λ e.
          form
          ∙ ap (λ k. covers (slash ∷ join_kept []) (slash ∷ join_kept k)) e
          ∙ (unfold covers in ground (arith, text_eq_refl (slash ∷ join_kept []))),
    )
