-- ===== src/Termsafe/Safe.antt =====
-- The output of appendOne, of Escape and of the Writer (internal/termsafe/termsafe.go).
use wanctl.Termsafe.{
  at_crlf, first_byte, hex_digits, append_hex, kept_control, escape_rune, append_one, escape_by,
  escape_step, escape,
}
use wanctl.Termsafe.Stream.{stream, stream-concat}
use wanctl.Prelude.{
  concat, if◌then◌else◌, take-append-drop, All-append, length-take, ℕ, suc, zero, List, [], ◌∷◌,
  ◌++◌, ◌-◌, ◌≡◌, ◌==◌, ◌&&◌, ◌||◌, leb, ltb, true, false, refl, sym, ap, ◌∙◌, length, drop, take,
  Bool, arith, All,
}
use wanctl.Bytes.{Text, codes}
use wanctl.Encoding.Utf8.{rune_error, decode_rune, valid, valid_from, runes, runes_from}
use wanctl.Encoding.Utf8.Prefix.{
  decode_rune-append, decode_rune-size, decode_rune-rune_size, full_rune-by_size, decode_rune-ascii,
}
use wanctl.Termsafe.Shown.{
  shown, lf_first, calm, safe, plain, safe-char, safe-plain, hex_digits-plain, runes-char,
  valid-char,
}

-- A character, cut out of a text, is the same character before any other text.
decode_rune-take :
    (a n : ℕ) (s x : Text)
    → ((decode_rune (a ∷ s)).0 == rune_error && leb (decode_rune (a ∷ s)).1 1) ≡ false
    → (decode_rune (a ∷ s)).1 ≡ suc n
    → decode_rune (a ∷ take n s ++ x) ≡ ((decode_rune (a ∷ s)).0, length (a ∷ take n s))
decode_rune-take a n s x h e =
    let size = decode_rune-rune_size a s h in
    let most = decode_rune-size a s in
    let long : suc n ≡ length (a ∷ take n s) = omega (arith, length-take n s, most.1, e) in
    let f = full_rune-by_size a (take n s) (omega (arith, size, e, long)) in
    let same : decode_rune (a ∷ take n s) ≡ decode_rune (a ∷ s) =
      sym (decode_rune-append a (take n s) (drop n s) f)
      ∙ ap (λ t. decode_rune (a ∷ t)) (take-append-drop n s) in
    decode_rune-append a (take n s) x f ∙ same ∙ ap (λ k. ((decode_rune (a ∷ s)).0, k)) (e ∙ long)

safe-take :
    (keep_cr : Bool) (a n : ℕ) (s x : Text)
    → ((decode_rune (a ∷ s)).0 == rune_error && leb (decode_rune (a ∷ s)).1 1) ≡ false
    → (decode_rune (a ∷ s)).1 ≡ suc n
    → shown keep_cr (decode_rune (a ∷ s)).0 ≡ true
    → safe keep_cr x ≡ true
    → safe keep_cr (take (suc n) (a ∷ s) ++ x) ≡ true
safe-take keep_cr a n s x h e w g =
    let d = decode_rune-take a n s x h e in
    let long : suc n ≡ length (a ∷ take n s) =
      omega (arith, length-take n s, (decode_rune-size a s).1, e) in
    safe-char keep_cr a (decode_rune (a ∷ s)).0 (take n s) x d (ground (arith, long, h, e)) w g

append_hex-plain :
    (prefix : Text) (v n : ℕ)
    → All (λ c. plain c ≡ true) prefix
    → All (λ c. plain c ≡ true) (append_hex prefix v n)
unfolding append_hex
append_hex-plain prefix v n h =
    All-append (λ c. plain c ≡ true) prefix (hex_digits v n) h (hex_digits-plain v n)

if-split :
    (P : Text × ℕ → Type 0) (b : Bool) {p q : Text × ℕ}
    → (b ≡ true → P p)
    → (b ≡ false → P q)
    → P (if b then p else q)
if-split P true f g = f refl
if-split P false f g = g refl

safe-kept :
    (keep_cr : Bool) (r : ℕ) (x : Text)
    → kept_control keep_cr r ≡ true
    → safe keep_cr x ≡ true
    → safe keep_cr (r ∷ x) ≡ true
unfolding kept_control shown
safe-kept keep_cr r x k g =
    safe-char keep_cr r r [] x (decode_rune-ascii r x (ground arith)) (ground arith) (ground arith)
      g

printable :
    (keep_cr : Bool) (r : ℕ)
    → kept_control keep_cr r ≡ false
    → (ltb r 0x20 || r == 0x7f) ≡ false
    → (leb 0x80 r && leb r 0x9f) ≡ false
    → shown keep_cr r ≡ true
unfolding kept_control shown
printable keep_cr r k c u = ground arith

-- One step's output may stand before any safe text.
safe-escape_rune :
    (keep_cr : Bool) (a r size : ℕ) (s x : Text)
    → decode_rune (a ∷ s) ≡ (r, size)
    → safe keep_cr x ≡ true
    → safe keep_cr ((escape_rune keep_cr (a ∷ s) (r, size)).0 ++ x) ≡ true
unfolding escape_rune
safe-escape_rune keep_cr a r size s x d g =
    let P : Text × ℕ → Type 0 = λ p. safe keep_cr (p.0 ++ x) ≡ true in
    if-split P (r == rune_error && leb size 1)
      (λ e. safe-hex (codes "\\x") (first_byte (a ∷ s)) 2 (refl, (refl, tt)))
      (λ e.
        if-split P (kept_control keep_cr r) (λ k. safe-kept keep_cr r x k g)
          (λ k.
            if-split P (ltb r 0x20 || r == 0x7f)
              (λ c. safe-hex (codes "\\x") r 2 (refl, (refl, tt)))
              (λ c.
                if-split P (leb 0x80 r && leb r 0x9f)
                  (λ u. safe-hex (codes "\\u") r 4 (refl, (refl, tt)))
                  (λ u. whole size d e (printable keep_cr r k c u)))))
  where
    safe-hex :
        (prefix : Text) (v n : ℕ)
        → All (λ c. plain c ≡ true) prefix
        → safe keep_cr (append_hex prefix v n ++ x) ≡ true
    safe-hex prefix v n h =
        safe-plain keep_cr (append_hex prefix v n) x (append_hex-plain prefix v n h) g

    whole :
        (n : ℕ)
        → decode_rune (a ∷ s) ≡ (r, n)
        → (r == rune_error && leb n 1) ≡ false
        → shown keep_cr r ≡ true
        → safe keep_cr (take n (a ∷ s) ++ x) ≡ true
    whole zero d e w = absurd (omega (arith, (decode_rune-size a s).0, ap (λ p. p.1) d))
    whole (suc n) d e w =
        safe-take keep_cr a n s x (ap (λ p. p.0 == rune_error && leb p.1 1) d ∙ e) (ap (λ p. p.1) d)
          (ap (λ p. shown keep_cr p.0) d ∙ w) g

safe-append_one :
    (keep_cr : Bool) (a : ℕ) (s x : Text)
    → safe keep_cr x ≡ true
    → safe keep_cr ((append_one keep_cr (a ∷ s)).0 ++ x) ≡ true
unfolding append_one
safe-append_one keep_cr a s x g =
    safe-escape_rune keep_cr a (decode_rune (a ∷ s)).0 (decode_rune (a ∷ s)).1 s x refl g

safe-escape_by :
    (keep_cr : Bool) (step : Text → Text × ℕ)
    → ((a : ℕ) (s x : Text) → safe keep_cr x ≡ true → safe keep_cr ((step (a ∷ s)).0 ++ x) ≡ true)
    → (skip : ℕ) (t : Text) → safe keep_cr (escape_by step skip t) ≡ true
unfolding escape_by safe valid valid_from runes runes_from calm
safe-escape_by keep_cr step h skip [] = refl
safe-escape_by keep_cr step h (suc skip) (c ∷ t) = safe-escape_by keep_cr step h skip t
safe-escape_by keep_cr step h zero (c ∷ t) =
    h c t (escape_by step ((step (c ∷ t)).1 - 1) t)
      (safe-escape_by keep_cr step h ((step (c ∷ t)).1 - 1) t)

-- However a stream is cut into writes, within characters too, what a Writer gives out for them and
-- the Flush after them is the whole stream escaped at once; and it is valid UTF-8 of which every
-- character is printable, a newline, a tab or a carriage return.
pub safe-stream :
    (ps : List Text)
    → (stream [] ps ≡ escape_by (append_one true) 0 (concat ps)) × (safe true (stream [] ps) ≡ true)
safe-stream ps =
    let e = stream-concat ps [] in
    let h = safe-escape_by true (append_one true) (safe-append_one true) 0 (concat ps) in
    (e, ap (safe true) e ∙ h)

safe-crlf : (x : Text) → safe false x ≡ true → safe false (13 ∷ 10 ∷ x) ≡ true
unfolding safe calm lf_first shown
safe-crlf x g =
    let r = runes-char 13 13 [] (10 ∷ x) (decode_rune-ascii 13 (10 ∷ x) (omega arith)) in
    let r' = runes-char 10 10 [] x (decode_rune-ascii 10 x (omega arith)) in
    let v = valid-char 13 13 [] (10 ∷ x) (decode_rune-ascii 13 (10 ∷ x) (omega arith)) refl in
    let v' = valid-char 10 10 [] x (decode_rune-ascii 10 x (omega arith)) refl in
    rw r (rw r' (rw v (rw v' g)))

safe-escape_step :
    (a : ℕ) (s x : Text) → safe false x ≡ true → safe false ((escape_step (a ∷ s)).0 ++ x) ≡ true
unfolding escape_step
safe-escape_step a s x g =
    if-split (λ p. safe false (p.0 ++ x) ≡ true) (at_crlf (a ∷ s)) (λ e. safe-crlf x g)
      (λ e. safe-append_one false a s x g)

pub safe-escaped : (t : Text) → safe false (escape t) ≡ true
unfolding escape
safe-escaped t = safe-escape_by false escape_step safe-escape_step 0 t
