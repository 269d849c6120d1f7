-- ===== src/Policy/Paths/Laws.antt =====
-- What a file rule's directory covers.
use wanctl.Prelude.{
  ℕ, ◌≡◌, refl, inl, inr, Bool, true, false, ◌||◌, List, [], ◌∷◌, arith, ◌==◌, All, Bool-cases,
}
use wanctl.Bytes.{Text, text_eq, is_empty}
use wanctl.Policy.Paths.{
  slash, push_first, dot, dot_dot, elements, step_up, keep_element, keep_all, is_rooted, kept_of,
}

-- An element that names a real directory entry: not empty, and no step in place or up.
pub record IsReal (e : Text) : Type 0 where
  pub full : is_empty e ≡ false
  pub no_dot : text_eq e dot ≡ false
  pub no_dot_dot : text_eq e dot_dot ≡ false

step_up-IsReal : (kept : List Text) → All IsReal kept → All IsReal (step_up true kept)
unfolding step_up
step_up-IsReal [] h = tt
step_up-IsReal (top ∷ below) h = rw h.0.no_dot_dot h.1

keep_element-IsReal :
    (kept : List Text) (e : Text) → All IsReal kept → All IsReal (keep_element true kept e)
unfolding keep_element
keep_element-IsReal kept e h = elim (Bool-cases (is_empty e || text_eq e dot)) [
  | inl skipped ↦ rw skipped h
  | inr solid ↦ rw solid (elim (Bool-cases (text_eq e dot_dot)) [
    | inl up ↦ rw up (step_up-IsReal kept h)
    | inr down ↦
        rw down ((record { full = ground arith; no_dot = ground arith; no_dot_dot = down }), h)
  ])
]

keep_all-IsReal : (kept es : List Text) → All IsReal kept → All IsReal (keep_all true kept es)
unfolding keep_all
keep_all-IsReal kept [] h = h
keep_all-IsReal kept (e ∷ es) h =
    keep_all-IsReal (keep_element true kept e) es (keep_element-IsReal kept e h)

-- A cleaned absolute path has real elements only: no `..` is left in it.
pub kept_of-IsReal : (path : Text) → is_rooted path ≡ true → All IsReal (kept_of path)
unfolding kept_of
kept_of-IsReal path h = rw h (keep_all-IsReal [] (elements path) tt)

-- An element holds no slash.
abbrev pub NoSlash : Text → Type 0
NoSlash = All (λ c. (c == slash) ≡ false)

All-push_first :
    (c : ℕ) (es : List Text) → (c == slash) ≡ false → All NoSlash es → All NoSlash (push_first c es)
All-push_first c [] h hs = ((h, tt), tt)
All-push_first c (e ∷ es) h hs = ((h, hs.0), hs.1)

elements-NoSlash : (s : Text) → All NoSlash (elements s)
unfolding elements
elements-NoSlash [] = (tt, tt)
elements-NoSlash (c ∷ s) = elim (Bool-cases (c == slash)) [
  | inl e ↦ rw e (tt, elements-NoSlash s)
  | inr e ↦ rw e (All-push_first c (elements s) e (elements-NoSlash s))
]

step_up-NoSlash : (r : Bool) (kept : List Text) → All NoSlash kept → All NoSlash (step_up r kept)
unfolding step_up
step_up-NoSlash true [] h = tt
step_up-NoSlash false [] h = ((refl, (refl, tt)), tt)
step_up-NoSlash r (top ∷ below) h = elim (Bool-cases (text_eq top dot_dot)) [
  | inl e ↦ rw e ((refl, (refl, tt)), h)
  | inr e ↦ rw e h.1
]

keep_element-NoSlash :
    (r : Bool) (kept : List Text) (e : Text)
    → All NoSlash kept
    → NoSlash e
    → All NoSlash (keep_element r kept e)
unfolding keep_element
keep_element-NoSlash r kept e h he = elim (Bool-cases (is_empty e || text_eq e dot)) [
  | inl skipped ↦ rw skipped h
  | inr solid ↦ rw solid (elim (Bool-cases (text_eq e dot_dot)) [
    | inl up ↦ rw up (step_up-NoSlash r kept h)
    | inr down ↦ rw down (he, h)
  ])
]

keep_all-NoSlash :
    (r : Bool) (kept es : List Text)
    → All NoSlash kept
    → All NoSlash es
    → All NoSlash (keep_all r kept es)
unfolding keep_all
keep_all-NoSlash r kept [] h hs = h
keep_all-NoSlash r kept (e ∷ es) h hs =
    keep_all-NoSlash r (keep_element r kept e) es (keep_element-NoSlash r kept e h hs.0) hs.1

pub kept_of-NoSlash : (path : Text) → All NoSlash (kept_of path)
unfolding kept_of
kept_of-NoSlash path =
    keep_all-NoSlash (is_rooted path) [] (elements path) tt (elements-NoSlash path)
