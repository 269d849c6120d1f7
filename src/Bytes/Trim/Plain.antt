-- ===== src/Bytes/Trim/Plain.antt =====
-- Trimming leaves a text alone whose ends are plain ASCII.
use wanctl.Prelude.{
  All-reverse, All, ℕ, ◌<◌, ◌≡◌, refl, sym, ap, ◌∙◌, [], ◌∷◌, ◌++◌, arith, reverse, append_assoc,
  reverse-append, reverse-reverse,
}
use wanctl.Bytes.{Text}
use wanctl.Bytes.Trim.{space_width, space_width_end, trim_front, trim_space}

-- an ASCII character other than white space
pub record IsPlain (c : ℕ) : Type 0 where
  pub ascii : c < 128
  pub solid : 32 < c

space_width-plain : (a : ℕ) (s : Text) → IsPlain a → space_width (a ∷ s) ≡ 0
unfolding space_width
space_width-plain a [] h = ground arith
space_width-plain a (b ∷ []) h = ground arith
space_width-plain a (b ∷ c ∷ s) h = ground arith

space_width_end-plain : (a : ℕ) (s : Text) → IsPlain a → space_width_end (a ∷ s) ≡ 0
unfolding space_width_end
space_width_end-plain a [] h = ground arith
space_width_end-plain a (b ∷ []) h = ground arith
space_width_end-plain a (b ∷ c ∷ s) h = ground arith

trim_front_stop :
    (width : Text → ℕ) (a : ℕ) (s : Text) → width (a ∷ s) ≡ 0 → trim_front width 0 (a ∷ s) ≡ a ∷ s
unfolding trim_front
trim_front_stop width a s h = rw h

pub trim_space-plain :
    (a z : ℕ) (m : Text)
    → IsPlain a
    → IsPlain z
    → trim_space ((a ∷ m) ++ z ∷ []) ≡ (a ∷ m) ++ z ∷ []
unfolding trim_space
trim_space-plain a z m ha hz =
    ap (λ s. reverse (trim_front space_width_end 0 (reverse s)))
      (trim_front_stop space_width a (m ++ z ∷ []) (space_width-plain a (m ++ z ∷ []) ha))
    ∙ ap (λ s. reverse (trim_front space_width_end 0 s)) (reverse-append (a ∷ m) (z ∷ []))
    ∙ ap reverse (
        trim_front_stop space_width_end z (reverse (a ∷ m))
          (space_width_end-plain z (reverse (a ∷ m)) hz))
    ∙ ap reverse (sym (reverse-append (a ∷ m) (z ∷ [])))
    ∙ reverse-reverse ((a ∷ m) ++ z ∷ [])

pub trim_space-ends :
    (a z : ℕ) (m post : Text)
    → IsPlain a
    → IsPlain z
    → trim_space (a ∷ (m ++ (post ++ z ∷ []))) ≡ a ∷ (m ++ (post ++ z ∷ []))
trim_space-ends a z m post ha hz = rw (← append_assoc) (trim_space-plain a z (m ++ post) ha hz)

pub trim_space-All_plain : (s : Text) → All IsPlain s → trim_space s ≡ s
unfolding trim_space
trim_space-All_plain s h =
    ap (λ l. reverse (trim_front space_width_end 0 (reverse l)))
      (stop_front space_width space_width-plain s h)
    ∙ ap reverse
        (stop_front space_width_end space_width_end-plain (reverse s) (All-reverse IsPlain s h))
    ∙ reverse-reverse s
  where
    stop_front :
        (width : Text → ℕ)
        → ((a : ℕ) (s : Text) → IsPlain a → width (a ∷ s) ≡ 0)
        → (s : Text) → All IsPlain s
        → trim_front width 0 s ≡ s
    stop_front width no_space [] h = refl
    stop_front width no_space (a ∷ s) h = trim_front_stop width a s (no_space a s h.0)
