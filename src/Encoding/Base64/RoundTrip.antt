-- ===== src/Encoding/Base64/RoundTrip.antt =====
-- Decoding an encoded text gives it back.
use wanctl.Prelude.{
  ℕ, ◌+◌, ◌*◌, ◌/◌, ◌%◌, ◌<◌, ◌≡◌, refl, ap, ◌∙◌, false, not, some, [], ◌∷◌, arith, ◌==◌, filter,
  All,
}
use wanctl.Bytes.{Text}
use wanctl.Encoding.Base64.{
  char_of, value_of, pad, encode, line_break, last_one, last_two, whole, groups, decode,
}

pub value_of-char_of : (v : ℕ) → v < 64 → value_of (char_of v) ≡ some v
unfolding value_of char_of
value_of-char_of v h = ground arith

pub char_of-ne-pad : (v : ℕ) → (char_of v == pad) ≡ false
unfolding char_of
char_of-ne-pad v = ground arith

char_of-line_break : (v : ℕ) → line_break (char_of v) ≡ false
unfolding char_of line_break
char_of-line_break v = ground arith

-- No character of an encoded text is skipped by the decoder.
filter-encode : (s : Text) → filter (λ c. not (line_break c)) (encode s) ≡ encode s
unfolding encode filter
filter-encode [] = refl
filter-encode (a ∷ []) = simp char_of-line_break (unfold line_break in refl)
filter-encode (a ∷ b ∷ []) = simp char_of-line_break (unfold line_break in refl)
filter-encode (a ∷ b ∷ c ∷ s) = simp (char_of-line_break, filter-encode s)

groups-whole :
    (a b c d : ℕ) (rest : Text)
    → (c == pad) ≡ false
    → (d == pad) ≡ false
    → groups (a ∷ b ∷ c ∷ d ∷ rest) ≡ whole a b c d (groups rest)
unfolding groups
groups-whole a b c d rest hc hd = rw (hc, hd)

whole-char_of :
    (w x y z : ℕ) (t : Text)
    → w < 64
    → x < 64
    → y < 64
    → z < 64
    → whole (char_of w) (char_of x) (char_of y) (char_of z) (some t)
      ≡ some ((w * 4 + x / 16) ∷ (x % 16 * 16 + y / 4) ∷ (y % 4 * 64 + z) ∷ t)
unfolding whole
whole-char_of w x y z t hw hx hy hz =
    simp
      (value_of-char_of w hw, value_of-char_of x hx, value_of-char_of y hy, value_of-char_of z hz)

-- The three bytes of a group come back from its four six-bit values.
group_bytes :
    (a b c : ℕ)
    → a < 256
    → b < 256
    → c < 256
    → (a / 4 * 4 + (a % 4 * 16 + b / 16) / 16 ≡ a)
      × ((a % 4 * 16 + b / 16) % 16 * 16 + (b % 16 * 4 + c / 64) / 4 ≡ b)
      × ((b % 16 * 4 + c / 64) % 4 * 64 + c % 64 ≡ c)
group_bytes a b c ha hb hc = omega arith

groups-encode : (s : Text) → All (λ c. c < 256) s → groups (encode s) ≡ some s
unfolding encode
groups-encode [] h = unfold groups in refl
groups-encode (a ∷ []) h =
    unfold groups last_one in
    rw (value_of-char_of (a / 4) (omega arith), value_of-char_of (a % 4 * 16) (omega arith))
      (ground arith)
groups-encode (a ∷ b ∷ []) h =
    unfold groups last_two in
    rw char_of-ne-pad (
      rw
        (
          value_of-char_of (a / 4) (omega arith),
          value_of-char_of (a % 4 * 16 + b / 16) (omega arith),
          value_of-char_of (b % 16 * 4) (omega arith),
        )
        (ground arith))
groups-encode (a ∷ b ∷ c ∷ s) h =
    let (ea, eb, ec) = group_bytes a b c (omega arith) (omega arith) (omega arith) in
    groups-whole (char_of (a / 4)) (char_of (a % 4 * 16 + b / 16)) (char_of (b % 16 * 4 + c / 64))
      (char_of (c % 64)) (encode s) (char_of-ne-pad _) (char_of-ne-pad _)
    ∙ ap
        (whole (char_of (a / 4)) (char_of (a % 4 * 16 + b / 16)) (char_of (b % 16 * 4 + c / 64))
          (char_of (c % 64)))
        (groups-encode s h.1.1.1)
    ∙ whole-char_of (a / 4) (a % 4 * 16 + b / 16) (b % 16 * 4 + c / 64) (c % 64) s (omega arith)
        (omega arith) (omega arith) (omega arith)
    ∙ cc (ea, eb, ec)

-- Every list of bytes is decoded from its encoding.
pub decode-encode : (s : Text) → All (λ c. c < 256) s → decode (encode s) ≡ some s
unfolding decode
decode-encode s h = rw filter-encode (groups-encode s h)
