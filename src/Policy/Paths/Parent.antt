-- ===== src/Policy/Paths/Parent.antt =====
-- A file's own directory, and cleaning what is clean.
use wanctl.Prelude.{
  All-reverse, ◌≡◌, refl, sym, ap, ap₂, ◌∙◌, inl, inr, ◌≢◌, Bool, true, false, ◌||◌, List, [], ◌∷◌,
  ◌++◌, append-nil, append_assoc, reverse, reverse-append, reverse-reverse, All, Bool-cases,
}
use wanctl.Bytes.{Text, text_eq, is_empty}
use wanctl.Policy.Paths.{
  slash, dot, dot_dot, elements, keep_element, keep_all, is_rooted, kept_of, join_kept, clean,
  up_to_slash, dir_of, within,
}
use wanctl.Policy.Paths.Laws.{IsReal, kept_of-IsReal, NoSlash, kept_of-NoSlash}
use wanctl.Policy.Paths.Joined.{elements-append, elements-join_kept, elements_one}
use wanctl.Policy.Paths.Cover.{clean_rooted, within_iff, within_root}

keep_all-append :
    (r : Bool) (k xs ys : List Text) → keep_all r k (xs ++ ys) ≡ keep_all r (keep_all r k xs) ys
unfolding keep_all
keep_all-append r k [] ys = refl
keep_all-append r k (x ∷ xs) ys = keep_all-append r (keep_element r k x) xs ys

keep_element_real : (r : Bool) (k : List Text) (e : Text) → IsReal e → keep_element r k e ≡ e ∷ k
unfolding keep_element
keep_element_real r k e h = rw (h.full, h.no_dot, h.no_dot_dot)

keep_all_real : (r : Bool) (k es : List Text) → All IsReal es → keep_all r k es ≡ reverse es ++ k
unfolding keep_all
keep_all_real r k [] h = refl
keep_all_real r k (e ∷ es) h =
    ap (λ l. keep_all r l es) (keep_element_real r k e h.0)
    ∙ keep_all_real r (e ∷ k) es h.1
    ∙ sym (append_assoc (reverse es) (e ∷ []) k)
    ∙ ap (λ l. l ++ k) (sym (reverse-append (e ∷ []) es))

elements-slash : (s : Text) → elements (slash ∷ s) ≡ [] ∷ elements s
unfolding elements
elements-slash s = refl

-- The elements of a joined absolute path.
kept_of-joined :
    (ks : List Text) → All NoSlash ks → All IsReal ks → kept_of (slash ∷ join_kept ks) ≡ ks
unfolding kept_of
kept_of-joined [] n r = unfold join_kept keep_element in refl
kept_of-joined (k ∷ ks) n r =
    ap (keep_all true []) (elements-slash (join_kept (k ∷ ks)))
    ∙ (unfold keep_element in ap (keep_all true []) (elements-join_kept (k ∷ ks) (λ p. cc) n))
    ∙ keep_all_real true [] (reverse (k ∷ ks)) (All-reverse IsReal (k ∷ ks) r)
    ∙ append-nil (reverse (reverse (k ∷ ks)))
    ∙ reverse-reverse (k ∷ ks)

clean-IsRooted : (path : Text) → is_rooted path ≡ true → is_rooted (clean path) ≡ true
clean-IsRooted path h = ap is_rooted (clean_rooted path h)

kept_of-clean : (path : Text) → is_rooted path ≡ true → kept_of (clean path) ≡ kept_of path
kept_of-clean path h =
    ap kept_of (clean_rooted path h)
    ∙ kept_of-joined (kept_of path) (kept_of-NoSlash path) (kept_of-IsReal path h)

-- Cleaning an absolute path twice is cleaning it once.
pub clean_idem : (path : Text) → is_rooted path ≡ true → clean (clean path) ≡ clean path
clean_idem path h =
    clean_rooted (clean path) (clean-IsRooted path h)
    ∙ ap (λ k. slash ∷ join_kept k) (kept_of-clean path h)
    ∙ sym (clean_rooted path h)

up_to_slash_base : (b x : Text) → NoSlash b → up_to_slash (b ++ slash ∷ x) ≡ slash ∷ x
unfolding up_to_slash
up_to_slash_base [] x h = refl
up_to_slash_base (c ∷ b) x h = rw h.0 (up_to_slash_base b x h.1)

-- `filepath.Dir` of a path is its cleaned part up to the last slash.
dir_of_base :
    (pre base : Text) → NoSlash base → dir_of (pre ++ slash ∷ base) ≡ clean (pre ++ slash ∷ [])
unfolding dir_of
dir_of_base pre base h = ap clean (ap (λ s. reverse (up_to_slash s)) turned ∙ cut)
  where
    turned : reverse (pre ++ slash ∷ base) ≡ reverse base ++ slash ∷ reverse pre
    turned =
        reverse-append pre (slash ∷ base)
        ∙ ap (λ l. l ++ reverse pre) (reverse-append (slash ∷ []) base)
        ∙ append_assoc (reverse base) (slash ∷ []) (reverse pre)

    cut : reverse (up_to_slash (reverse base ++ slash ∷ reverse pre)) ≡ pre ++ slash ∷ []
    cut =
        ap reverse (up_to_slash_base (reverse base) (reverse pre) (All-reverse _ base h))
        ∙ reverse-append (slash ∷ []) (reverse pre)
        ∙ ap (λ l. l ++ slash ∷ []) (reverse-reverse pre)

is_rooted-append : (pre s t : Text) → is_rooted (pre ++ slash ∷ s) ≡ is_rooted (pre ++ slash ∷ t)
is_rooted-append [] s t = refl
is_rooted-append (c ∷ pre) s t = refl

-- The elements of a path are those of its directory, and its base name.
kept_of_base :
    (pre base : Text)
    → NoSlash base
    → is_rooted (pre ++ slash ∷ base) ≡ true
    → kept_of (pre ++ slash ∷ base) ≡ keep_element true (kept_of (pre ++ slash ∷ [])) base
unfolding kept_of
kept_of_base pre base h r =
    ap₂ (λ x es. keep_all x [] es) r
      (elements-append pre base ∙ ap (λ l. elements pre ++ l) (elements_one base h))
    ∙ keep_all-append true [] (elements pre) (base ∷ [])
    ∙ (unfold keep_all in ap (λ k. keep_element true k base) (sym upper))
  where
    upper :
        keep_all (is_rooted (pre ++ slash ∷ [])) [] (elements (pre ++ slash ∷ []))
        ≡ keep_all true [] (elements pre)
    upper =
        ap₂ (λ x es. keep_all x [] es) (is_rooted-append pre [] base ∙ r)
          (elements-append pre [] ∙ ap (λ l. elements pre ++ l) (elements_one [] tt))
        ∙ keep_all-append true [] (elements pre) ([] ∷ [])
        ∙ (unfold keep_all keep_element in refl)

keep_element-ext :
    (k : List Text) (base : Text)
    → text_eq base dot_dot ≡ false
    → (ext : List Text) × (keep_element true k base ≡ ext ++ k)
unfolding keep_element
keep_element-ext k base h = elim (Bool-cases (is_empty base || text_eq base dot)) [
  | inl q ↦ ([], rw q)
  | inr q ↦ (base ∷ [], rw (q, h))
]

module _ (pre base : Text) (h : NoSlash base) (r : is_rooted (pre ++ slash ∷ base) ≡ true) where
  rooted_above : is_rooted (pre ++ slash ∷ []) ≡ true
  rooted_above = is_rooted-append pre [] base ∙ r

  kept_of-dir_of : kept_of (dir_of (pre ++ slash ∷ base)) ≡ kept_of (pre ++ slash ∷ [])
  kept_of-dir_of =
      ap kept_of (dir_of_base pre base h) ∙ kept_of-clean (pre ++ slash ∷ []) rooted_above

  dir_of-IsRooted : is_rooted (dir_of (pre ++ slash ∷ base)) ≡ true
  dir_of-IsRooted =
      ap is_rooted (dir_of_base pre base h) ∙ clean-IsRooted (pre ++ slash ∷ []) rooted_above

  -- The directory of a file below some directory covers the file.
  pub within-dir_of :
      text_eq base dot_dot ≡ false
      → kept_of (pre ++ slash ∷ []) ≢ []
      → within (dir_of (pre ++ slash ∷ base)) (pre ++ slash ∷ base) ≡ true
  within-dir_of nd n =
      let (ext, e) = keep_element-ext (kept_of (pre ++ slash ∷ [])) base nd in
      (within_iff (dir_of (pre ++ slash ∷ base)) (pre ++ slash ∷ base) dir_of-IsRooted r
          (λ q. n (sym kept_of-dir_of ∙ q))).1
        (ext, kept_of_base pre base h r ∙ e ∙ ap (λ k. ext ++ k) (sym kept_of-dir_of))

  -- The directory of a file that stands directly below the root does not cover the file.
  pub within-dir_of_root :
      IsReal base
      → kept_of (pre ++ slash ∷ []) ≡ []
      → within (dir_of (pre ++ slash ∷ base)) (pre ++ slash ∷ base) ≢ true
  within-dir_of_root real top w =
      let none_kept =
        (within_root (dir_of (pre ++ slash ∷ base)) (pre ++ slash ∷ base) dir_of-IsRooted r
            (kept_of-dir_of ∙ top)).0
          w in
      cons_not_nil (
        sym (keep_element_real true (kept_of (pre ++ slash ∷ [])) base real)
        ∙ sym (kept_of_base pre base h r)
        ∙ none_kept)
    where
      cons_not_nil : {x : Text} {xs : List Text} → x ∷ xs ≡ [] → ⊥
      cons_not_nil p = cc
