-- ===== src/Bytes/Laws.antt =====
-- The laws of the byte-string tests.
use wanctl.Prelude.{
  Bool-cases, ◌-◌, ◌≡◌, inl, inr, refl, sym, ap, ◌∙◌, ◌↔◌, true, [], ◌∷◌, ◌++◌, arith, length, take,
  drop, length-append, take-append, drop-append, take-append-drop,
}
use wanctl.Bytes.{some, cut_prefix, Text, text_eq, has_prefix, has_suffix}

pub text_eq_refl : (s : Text) → text_eq s s ≡ true
unfolding text_eq
text_eq_refl [] = refl
text_eq_refl (c ∷ s) = ground (arith, text_eq_refl s)

pub text_eq→eq : (s t : Text) → text_eq s t ≡ true → s ≡ t
unfolding text_eq
text_eq→eq [] [] h = refl
text_eq→eq (a ∷ s) (b ∷ t) h = ground (arith, text_eq→eq s t)
text_eq→eq [] (b ∷ t) h = cc
text_eq→eq (a ∷ s) [] h = cc

pub text_eq_iff : (s t : Text) → (text_eq s t ≡ true) ↔ (s ≡ t)
text_eq_iff s t = (text_eq→eq s t, λ e. rw e (text_eq_refl t))

pub has_prefix-append : (pre s : Text) → has_prefix (pre ++ s) pre ≡ true
unfolding has_prefix
has_prefix-append pre s = rw take-append (ground (arith, length-append pre s, text_eq_refl pre))

pub has_suffix-append : (s post : Text) → has_suffix (s ++ post) post ≡ true
unfolding has_suffix
has_suffix-append s post =
    let e : length (s ++ post) - length post ≡ length s = omega (arith, length-append s post) in
    rw e (rw drop-append (ground (arith, length-append s post, text_eq_refl post)))

-- A string that has the prefix is the prefix and the rest.
pub has_prefix-split : (s pre : Text) → has_prefix s pre ≡ true → s ≡ pre ++ drop (length pre) s
unfolding has_prefix
has_prefix-split s pre h =
    sym (take-append-drop (length pre) s)
    ∙ ap (λ l. l ++ drop (length pre) s) (text_eq→eq (take (length pre) s) pre (ground arith))

pub has_suffix-split :
    (s post : Text) → has_suffix s post ≡ true → s ≡ take (length s - length post) s ++ post
unfolding has_suffix
has_suffix-split s post h =
    let n = length s - length post in
    sym (take-append-drop n s) ∙ ap (λ l. take n s ++ l) (text_eq→eq (drop n s) post (ground arith))

-- What `CutPrefix` finds is the prefix and the rest.
pub cut_prefix-split : (s pre : Text) {rest : Text} → cut_prefix s pre ≡ some rest → s ≡ pre ++ rest
unfolding cut_prefix
cut_prefix-split s pre h = elim (Bool-cases (has_prefix s pre)) [
  | inl e ↦ has_prefix-split s pre e ∙ ap (λ l. pre ++ l) (ground arith)
  | inr e ↦ ground arith
]
