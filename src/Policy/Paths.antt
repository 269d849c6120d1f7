-- ===== src/Policy/Paths.antt =====
-- `Within`, over `filepath.Clean` and `filepath.Dir` of a Unix system.
pub mod Laws
pub mod Joined
pub mod Cover
pub mod Parent
use wanctl.Prelude.{ℕ, Bool, true, false, ◌||◌, List, [], ◌∷◌, ◌++◌, ◌==◌, if◌then◌else◌, reverse}
use wanctl.Bytes.{Text, text_eq, is_empty, has_prefix}

abbrev pub slash : ℕ
slash = b'/'

abbrev pub dot : Text
dot = b'.' ∷ []

abbrev pub dot_dot : Text
dot_dot = b'.' ∷ b'.' ∷ []

abbrev push_first : ℕ → List Text → List Text
push_first c [] = (c ∷ []) ∷ []
push_first c (s ∷ ss) = (c ∷ s) ∷ ss

-- The elements between slashes, empty ones included.
unfoldable pub elements : Text → List Text
elements [] = [] ∷ []
elements (c ∷ s) = let rest = elements s in if c == slash then [] ∷ rest else push_first c rest

-- One element onto the elements kept so far, the last one first.
unfoldable pub step_up : Bool → List Text → List Text
step_up rooted [] = if rooted then [] else dot_dot ∷ []
step_up rooted (top ∷ below) = if text_eq top dot_dot then dot_dot ∷ top ∷ below else below

unfoldable pub keep_element : Bool → List Text → Text → List Text
unfolding step_up
keep_element rooted kept e =
    if is_empty e || text_eq e dot
    then kept
    else if text_eq e dot_dot
    then step_up rooted kept
    else e ∷ kept

unfoldable pub keep_all : Bool → List Text → List Text → List Text
unfolding keep_element
keep_all rooted kept [] = kept
keep_all rooted kept (e ∷ es) = keep_all rooted (keep_element rooted kept e) es

abbrev pub is_rooted : Text → Bool
is_rooted [] = false
is_rooted (c ∷ _) = c == slash

-- The elements of the cleaned path, the last one first.
unfoldable pub kept_of : Text → List Text
unfolding keep_all elements
kept_of path = keep_all (is_rooted path) [] (elements path)

-- The elements joined again, from the last one.
unfoldable pub join_kept : List Text → Text
join_kept [] = []
join_kept (e ∷ []) = e
join_kept (e ∷ d ∷ below) = join_kept (d ∷ below) ++ (slash ∷ e)

unfoldable pub clean_join : Bool → Text → Text
clean_join true joined = slash ∷ joined
clean_join false [] = dot
clean_join false (c ∷ s) = c ∷ s

-- `filepath.Clean`
unfoldable pub clean : Text → Text
unfolding clean_join join_kept kept_of
clean path = clean_join (is_rooted path) (join_kept (kept_of path))

-- A text up to its last slash, the slash included, read backwards.
unfoldable pub up_to_slash : Text → Text
up_to_slash [] = []
up_to_slash (c ∷ s) = let rest = up_to_slash s in if c == slash then c ∷ s else rest

-- `filepath.Dir`
unfoldable pub dir_of : Text → Text
unfolding clean up_to_slash
dir_of path = clean (reverse (up_to_slash (reverse path)))

-- The test of `Within` on cleaned paths.
unfoldable pub covers : Text → Text → Bool
covers top p = text_eq p top || has_prefix p (top ++ slash ∷ [])

unfoldable pub within : Text → Text → Bool
unfolding covers clean
within [] path = true
within (c ∷ d) path = covers (clean (c ∷ d)) (clean path)
