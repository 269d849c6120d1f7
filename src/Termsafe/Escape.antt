-- ===== src/Termsafe/Escape.antt =====
-- Escape, of internal/termsafe/termsafe.go, on text that is safe to show.
use wanctl.Prelude.{
  subst, take-append-drop, not, ℕ, suc, zero, [], ◌∷◌, ◌++◌, ◌-◌, ◌≡◌, ◌≤◌, ◌<◌, ◌==◌, ◌&&◌, ◌||◌,
  inl, inr, true, false, refl, ap, ◌∙◌, drop, take, Bool, Bool-cases, arith,
}
use wanctl.Encoding.Utf8.Prefix.{decode_rune-ascii, decode_rune-size, ascii-decode_rune}
use wanctl.Bytes.{Text}
use wanctl.Encoding.Utf8.{rune_error, decode_rune, valid, valid_from, runes, runes_from}
use wanctl.Termsafe.{kept_control, escape_rune, append_one, escape_by, at_crlf, escape_step, escape}
use wanctl.Termsafe.Safe.{safe-escaped}
use wanctl.Termsafe.Shown.{shown, lf_first, calm, safe}

-- A character that is shown is copied.
escape_rune-shown :
    (a r size : ℕ) (s : Text)
    → (r == rune_error && size == 1) ≡ false
    → 1 ≤ size
    → ((r < 0x80) → (a ≡ r) × (size ≡ 1))
    → shown false r ≡ true
    → escape_rune false (a ∷ s) (r, size) ≡ (take size (a ∷ s), size)
unfolding escape_rune kept_control shown
escape_rune-shown a r size s h l f w = elim (Bool-cases (kept_control false r)) [
  | inr k ↦ ground arith
  | inl k ↦ let (e, e') = f (ground arith) in rw e' (rw e (ground arith))
]

both_true : (b c : Bool) → (b && c) ≡ true → (b ≡ true) × (c ≡ true)
both_true b c h = ground arith

not-true : (b : Bool) → not b ≡ true → b ≡ false
not-true b h = ground arith

-- What the checks say of the first character, and of what follows it.
first_valid :
    (a : ℕ) (s : Text)
    → valid_from 0 (a ∷ s) ≡ true
    → (((decode_rune (a ∷ s)).0 == rune_error && (decode_rune (a ∷ s)).1 == 1) ≡ false)
      × (valid_from ((decode_rune (a ∷ s)).1 - 1) s ≡ true)
unfolding valid_from
first_valid a s h =
    let p = decode_rune (a ∷ s) in
    let bad = p.0 == rune_error && p.1 == 1 in
    let (good, rest) = both_true (not bad) (valid_from (p.1 - 1) s) h in (not-true bad good, rest)

first_calm :
    (a : ℕ) (s : Text)
    → calm false (runes_from 0 (a ∷ s)) ≡ true
    → ((shown false (decode_rune (a ∷ s)).0
          || ((decode_rune (a ∷ s)).0 == 13
              && lf_first (runes_from ((decode_rune (a ∷ s)).1 - 1) s)))
        ≡ true)
      × (calm false (runes_from ((decode_rune (a ∷ s)).1 - 1) s) ≡ true)
unfolding runes_from calm
first_calm a s h =
    let p = decode_rune (a ∷ s) in
    let rs = runes_from (p.1 - 1) s in
    both_true (shown false p.0 || (p.0 == 13 && lf_first rs)) (calm false rs) h

-- A carriage return that is not before a newline is not shown.
not_crlf :
    (a : ℕ) (s : Text)
    → at_crlf (a ∷ s) ≡ false
    → (decode_rune (a ∷ s)).0 ≡ 13
    → lf_first (runes_from ((decode_rune (a ∷ s)).1 - 1) s) ≡ false
unfolding at_crlf runes_from lf_first
not_crlf a [] h e = refl
not_crlf a (b ∷ s) h e =
    let p = decode_rune (a ∷ b ∷ s) in
    let (e', one) = ascii-decode_rune a (b ∷ s) (omega (arith, e)) in
    let here = ap (λ n. lf_first (runes_from (n - 1) (b ∷ s))) one in
    here
    ∙ next (decode_rune (b ∷ s)).0 (ground (arith, e', e, h)) (λ l. (ascii-decode_rune b s l).0)
  where
    next : (r : ℕ) → (b == 10) ≡ false → (r < 0x80 → b ≡ r) → (r == 10) ≡ false
    next r h f = elim (Bool-cases (r == 10)) [
      | inr e ↦ e
      | inl e ↦ absurd (ground (arith, f (ground arith)))
    ]

-- A safe text is copied character by character, a newline with the carriage return before it.
escape_step-copies :
    (a : ℕ) (s : Text)
    → at_crlf (a ∷ s) ≡ false
    → valid_from 0 (a ∷ s) ≡ true
    → calm false (runes_from 0 (a ∷ s)) ≡ true
    → escape_step (a ∷ s) ≡ (take (decode_rune (a ∷ s)).1 (a ∷ s), (decode_rune (a ∷ s)).1)
unfolding escape_step append_one
escape_step-copies a s n v c =
    let p = decode_rune (a ∷ s) in
    let w : shown false p.0 ≡ true = elim (Bool-cases (p.0 == 13)) [
      | inl e ↦ ground (arith, (first_calm a s c).0, not_crlf a s n (ground arith))
      | inr e ↦ ground (arith, (first_calm a s c).0)
    ] in
    rw n (
      escape_rune-shown a p.0 p.1 s (first_valid a s v).0 (decode_rune-size a s).0
        (λ l. ascii-decode_rune a s l) w)

copied :
    (a : ℕ) (s : Text)
    → at_crlf (a ∷ s) ≡ false
    → valid_from 0 (a ∷ s) ≡ true
    → calm false (runes_from 0 (a ∷ s)) ≡ true
    → escape_by escape_step ((decode_rune (a ∷ s)).1 - 1) s ≡ drop ((decode_rune (a ∷ s)).1 - 1) s
    → escape_by escape_step 0 (a ∷ s) ≡ a ∷ s
unfolding escape_by
copied a s n v c ih =
    let p = decode_rune (a ∷ s) in
    ap (λ q. q.0 ++ escape_by escape_step (q.1 - 1) s) (escape_step-copies a s n v c)
    ∙ ap (λ t. take p.1 (a ∷ s) ++ t) ih
    ∙ cut p.1 (decode_rune-size a s).0
  where
    cut : (n : ℕ) → 1 ≤ n → take n (a ∷ s) ++ drop (n - 1) s ≡ a ∷ s
    cut zero l = absurd (omega arith)
    cut (suc n) l =
        ap (λ k. take (suc n) (a ∷ s) ++ drop k s) (omega arith) ∙ take-append-drop (suc n) (a ∷ s)

crlf_ascii : (a b : ℕ) (s : Text) → at_crlf (a ∷ b ∷ s) ≡ true → (a < 0x80) × (b < 0x80)
unfolding at_crlf
crlf_ascii a b s h = ground arith

drop_nil : (n : ℕ) → Path Text [] (drop n [])
drop_nil zero = refl
drop_nil (suc n) = refl

-- Past a carriage return and a newline, the checks go on.
past_ascii :
    (a : ℕ) (s : Text)
    → a < 0x80
    → (valid_from 0 (a ∷ s) ≡ true) × (calm false (runes_from 0 (a ∷ s)) ≡ true)
    → (valid_from 0 s ≡ true) × (calm false (runes_from 0 s) ≡ true)
past_ascii a s l h =
    let one : (decode_rune (a ∷ s)).1 - 1 ≡ 0 = ap (λ p. p.1 - 1) (decode_rune-ascii a s l) in
    subst (λ n. (valid_from n s ≡ true) × (calm false (runes_from n s) ≡ true)) one
      ((first_valid a s h.0).1, (first_calm a s h.1).1)

past_crlf :
    (a b : ℕ) (s : Text)
    → at_crlf (a ∷ b ∷ s) ≡ true
    → (valid_from 0 (a ∷ b ∷ s) ≡ true) × (calm false (runes_from 0 (a ∷ b ∷ s)) ≡ true)
    → (valid_from 0 s ≡ true) × (calm false (runes_from 0 s) ≡ true)
past_crlf a b s n h =
    let (l, l') = crlf_ascii a b s n in past_ascii b s l' (past_ascii a (b ∷ s) l h)

crlf_copied :
    (a b : ℕ) (s : Text)
    → at_crlf (a ∷ b ∷ s) ≡ true
    → escape_by escape_step 0 s ≡ s
    → escape_by escape_step 0 (a ∷ b ∷ s) ≡ a ∷ b ∷ s
unfolding escape_by escape_step at_crlf
crlf_copied a b s h ih =
    let e : a ≡ 13 = ground arith in
    let e' : b ≡ 10 = ground arith in rw e (rw e' (ap (λ t. 13 ∷ 10 ∷ t) ih))

escape_by-copies :
    (skip : ℕ) (t : Text)
    → valid_from skip t ≡ true
    → calm false (runes_from skip t) ≡ true
    → escape_by escape_step skip t ≡ drop skip t
unfolding escape_by at_crlf valid_from runes_from
escape_by-copies zero [] v c = refl
escape_by-copies (suc skip) [] v c = refl
escape_by-copies (suc skip) (a ∷ s) v c = escape_by-copies skip s v c
escape_by-copies zero (a ∷ []) v c = copied a [] refl v c (drop_nil ((decode_rune (a ∷ [])).1 - 1))
escape_by-copies zero (a ∷ b ∷ s) v c = elim (Bool-cases (at_crlf (a ∷ b ∷ s))) [
  | inl n ↦
      let h = past_crlf a b s n (v, c) in crlf_copied a b s n (escape_by-copies zero s h.0 h.1)
  | inr n ↦ copied a (b ∷ s) n v c (
      escape_by-copies ((decode_rune (a ∷ b ∷ s)).1 - 1) (b ∷ s) (first_valid a (b ∷ s) v).1
        (first_calm a (b ∷ s) c).1)
]

-- An escaped message is valid UTF-8 of which every character is printable, a newline, a tab, or a
-- carriage return before a newline; and it is left as it is when it is escaped again.
pub safe-escape : (t : Text) → (safe false (escape t) ≡ true) × (escape (escape t) ≡ escape t)
unfolding safe escape valid runes
safe-escape t =
    let h = safe-escaped t in
    let e = escape t in
    let b = both_true (valid e) (calm false (runes e)) h in (h, escape_by-copies 0 e b.0 b.1)
