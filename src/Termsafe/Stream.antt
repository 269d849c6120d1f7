-- ===== src/Termsafe/Stream.antt =====
-- The Writer of internal/termsafe/termsafe.go over a whole stream.
use wanctl.Prelude.{
  length-drop, take-append-drop, Bool-cases, ℕ, suc, zero, List, [], ◌∷◌, ◌++◌, ◌-◌, ◌≡◌, ◌⊎◌, ◌≤◌,
  inl, inr, true, refl, sym, ap, ◌∙◌, length, drop, take, Bool, arith, append-nil, append_assoc,
  subst, concat,
}
use wanctl.Bytes.{Text}
use wanctl.Encoding.Utf8.{decode_rune, rune_start, full_rune}
use wanctl.Encoding.Utf8.Prefix.{
  decode_rune-append, decode_rune-size, decode_rune-open, decode_rune-cut,
}
use wanctl.Termsafe.{
  first_byte, escape_rune, append_one, escape_by, incomplete_tail, write_data, write, flush,
}
use wanctl.Termsafe.Tail.{Whole, incomplete_tail-Whole, tail_start}

take-append_le : (n : ℕ) (s x : Text) → n ≤ length s → take n (s ++ x) ≡ take n s
take-append_le zero s x h = refl
take-append_le (suc n) [] x h = absurd (omega arith)
take-append_le (suc n) (c ∷ s) x h = ap (λ t. c ∷ t) (take-append_le n s x (omega arith))

escape_rune-append :
    (keep_cr : Bool) (a : ℕ) (s x : Text) (r size : ℕ)
    → size ≤ length (a ∷ s)
    → escape_rune keep_cr (a ∷ s ++ x) (r, size) ≡ escape_rune keep_cr (a ∷ s) (r, size)
unfolding escape_rune first_byte
escape_rune-append keep_cr a s x r size h = rw (take-append_le size (a ∷ s) x h) refl

escape_rune-size :
    (keep_cr : Bool) (b : Text) (r size : ℕ)
    → 1 ≤ size
    → (1 ≤ (escape_rune keep_cr b (r, size)).1) × ((escape_rune keep_cr b (r, size)).1 ≤ size)
unfolding escape_rune
escape_rune-size keep_cr b r size h = ground arith

pub append_one-size :
    (keep_cr : Bool) (a : ℕ) (s : Text)
    → (1 ≤ (append_one keep_cr (a ∷ s)).1) × ((append_one keep_cr (a ∷ s)).1 ≤ length (a ∷ s))
unfolding append_one
append_one-size keep_cr a s =
    let d = decode_rune-size a s in
    let p = decode_rune (a ∷ s) in
    let e = escape_rune-size keep_cr (a ∷ s) p.0 p.1 d.0 in (e.0, omega (arith, e.1, d.1))

-- Where a character ends, or another begins after it, the first step reads no further.
append_one-append :
    (keep_cr : Bool) (a : ℕ) (s x : Text)
    → (full_rune (a ∷ s) ≡ true) ⊎ (rune_start (first_byte x) ≡ true)
    → append_one keep_cr (a ∷ s ++ x) ≡ append_one keep_cr (a ∷ s)
unfolding append_one first_byte
append_one-append keep_cr a s x h =
    ap (escape_rune keep_cr (a ∷ s ++ x)) (same_rune x h)
    ∙ escape_rune-append keep_cr a s x (decode_rune (a ∷ s)).0 (decode_rune (a ∷ s)).1
        (decode_rune-size a s).1
  where
    same_rune :
        (x : Text)
        → (full_rune (a ∷ s) ≡ true) ⊎ (rune_start (first_byte x) ≡ true)
        → decode_rune (a ∷ s ++ x) ≡ decode_rune (a ∷ s)
    same_rune x (inl e) = decode_rune-append a s x e
    same_rune [] (inr e) = ap (λ t. decode_rune (a ∷ t)) (append-nil s)
    same_rune (b ∷ x) (inr e) = elim (Bool-cases (full_rune (a ∷ s))) [
      | inl f ↦ decode_rune-append a s (b ∷ x) f
      | inr f ↦ decode_rune-open a s b x f e ∙ sym (decode_rune-cut a s f)
    ]

-- The text may be cut here.
abbrev Boundary : Text → Text → Type 0
Boundary body x = Whole body ⊎ (rune_start (first_byte x) ≡ true)

first_whole :
    (c : ℕ) (s x : Text)
    → Boundary (c ∷ s) x
    → (full_rune (c ∷ s) ≡ true) ⊎ (rune_start (first_byte x) ≡ true)
first_whole c s x (inl w) = inl w.0
first_whole c s x (inr e) = inr e

later-Boundary : (c : ℕ) (s x : Text) → Boundary (c ∷ s) x → Boundary s x
later-Boundary c s x (inl w) = inl w.1
later-Boundary c s x (inr e) = inr e

escape_by-append :
    (keep_cr : Bool) (skip : ℕ) (body x : Text)
    → skip ≤ length body
    → Boundary body x
    → escape_by (append_one keep_cr) skip (body ++ x)
      ≡ escape_by (append_one keep_cr) skip body ++ escape_by (append_one keep_cr) 0 x
unfolding escape_by
escape_by-append keep_cr zero [] x h w = refl
escape_by-append keep_cr (suc skip) [] x h w = absurd (omega arith)
escape_by-append keep_cr (suc skip) (c ∷ s) x h w =
    escape_by-append keep_cr skip s x (omega arith) (later-Boundary c s x w)
escape_by-append keep_cr zero (c ∷ s) x h w =
    let p = append_one keep_cr (c ∷ s) in
    let e = append_one-append keep_cr c s x (first_whole c s x w) in
    let b = append_one-size keep_cr c s in
    let ih =
      escape_by-append keep_cr (p.1 - 1) s x (omega (arith, b.0, b.1)) (later-Boundary c s x w) in
    ap (λ q. q.0 ++ escape_by (append_one keep_cr) (q.1 - 1) (s ++ x)) e
    ∙ ap (λ t. p.0 ++ t) ih
    ∙ sym (
        append_assoc p.0 (escape_by (append_one keep_cr) (p.1 - 1) s)
          (escape_by (append_one keep_cr) 0 x))

-- All that a Writer gives out for these writes and the Flush after them.
unfoldable pub stream : Text → List Text → Text
stream held [] = (flush held).0
stream held (p ∷ ps) = let (out, held') = write p held in out ++ stream held' ps

first_byte-append : (s x : Text) → 1 ≤ length s → first_byte (s ++ x) ≡ first_byte s
unfolding first_byte
first_byte-append [] x h = absurd (omega arith)
first_byte-append (c ∷ s) x h = refl

-- Where a write is cut is a boundary, whatever follows.
write-Boundary :
    (m : ℕ) (all q : Text)
    → incomplete_tail all ≡ m
    → Boundary (take (length all - m) all) (drop (length all - m) all ++ q)
unfolding incomplete_tail
write-Boundary zero all q e =
    inl (
      subst Whole (sym (take_all (length all - 0) all (omega arith))) (incomplete_tail-Whole all e))
  where
    take_all : (n : ℕ) (s : Text) → length s ≤ n → take n s ≡ s
    take_all zero [] h = refl
    take_all zero (c ∷ s) h = absurd (omega arith)
    take_all (suc n) [] h = refl
    take_all (suc n) (c ∷ s) h = ap (λ t. c ∷ t) (take_all n s (omega arith))
write-Boundary (suc m) all q e =
    let t = tail_start 4 1 m all e in
    let n = length all - suc m in
    inr (
      subst (λ c. rune_start c ≡ true)
        (sym (first_byte-append (drop n all) q (omega (arith, length-drop n all, t.0)))) t.1)

write_data-split :
    (all q : Text)
    → escape_by (append_one true) 0 (all ++ q)
      ≡ (write_data all).0 ++ escape_by (append_one true) 0 ((write_data all).1 ++ q)
unfolding write_data
write_data-split all q =
    let n = length all - incomplete_tail all in
    ap (λ t. escape_by (append_one true) 0 (t ++ q)) (sym (take-append-drop n all))
    ∙ ap (escape_by (append_one true) 0) (append_assoc (take n all) (drop n all) q)
    ∙ escape_by-append true 0 (take n all) (drop n all ++ q) (omega arith)
        (write-Boundary (incomplete_tail all) all q refl)

pub stream-concat :
    (ps : List Text) (held : Text)
    → stream held ps ≡ escape_by (append_one true) 0 (held ++ concat ps)
unfolding stream write flush
stream-concat [] held = ap (escape_by (append_one true) 0) (sym (append-nil held))
stream-concat (p ∷ ps) held =
    let w = write p held in
    ap (λ t. w.0 ++ t) (stream-concat ps w.1)
    ∙ sym (write_data-split (held ++ p) (concat ps))
    ∙ ap (escape_by (append_one true) 0) (append_assoc held p (concat ps))
