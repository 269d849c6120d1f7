-- ===== src/Script/Names.antt =====
-- The short form of a script's name: shown for a whole token and for nothing else.
use wanctl.Prelude.{
  ℕ, ◌<◌, ◌≡◌, refl, ap, ◌∙◌, ◌⊎◌, inl, inr, Bool, true, false, ◌&&◌, none, some, [], ◌∷◌, ◌++◌,
  arith, ◌==◌, length, take, drop, drop-append, All, Bool-cases, Option-cases,
}
use wanctl.Bytes.{Text, text_eq, has_prefix, cut_prefix, cut_at}
use wanctl.Bytes.Laws.{has_prefix-append, has_prefix-split, text_eq_iff}
use wanctl.Encoding.Hex.{hex_encode, length-hex_encode}
use wanctl.Script.{
  Interp, power_shell, posix, interp_name, canonical_prefix, token, lower_hex, ellipsis, short_hex,
  known_interp, short_digest, short_rest, short,
}

-- The label that a token is shown as.
abbrev pub label : Text → Text → Text
label interp digest = canonical_prefix ++ (interp ++ b':' ∷ (take short_hex digest ++ ellipsis))

-- A whole token: the prefix, a known interpreter and 64 lower-case hex digits.
pub record IsToken (tok interp digest : Text) : Type 0 where
  pub whole : tok ≡ canonical_prefix ++ (interp ++ b':' ∷ digest)
  pub known : (interp ≡ interp_name posix) ⊎ (interp ≡ interp_name power_shell)
  pub size : length digest ≡ 64
  pub hex : lower_hex digest ≡ true

cut_at-split : (b : ℕ) (s p q : Text) → cut_at b s ≡ some (p, q) → s ≡ p ++ b ∷ q
unfolding cut_at
cut_at-split b [] p q h = cc
cut_at-split b (c ∷ s) p q h = elim (Bool-cases (c == b)) [
  | inl e ↦ ground (arith)
  | inr e ↦ elim (Option-cases (cut_at b s)) [
    | inl n ↦ absurd (ground arith)
    | inr (pair, f) ↦ ground (arith, cut_at-split b s pair.0 pair.1)
  ]
]

known_interp-cases :
    (s : Text) → known_interp s ≡ true → (s ≡ interp_name posix) ⊎ (s ≡ interp_name power_shell)
unfolding known_interp
known_interp-cases s h =
    ground (arith, text_eq_iff s (interp_name posix), text_eq_iff s (interp_name power_shell))

-- The test that `Short` makes of what follows the prefix.
abbrev names_token : Text → Text → Bool
names_token interp digest = known_interp interp && (length digest == 64 && lower_hex digest)

short_digest_whole :
    (tok interp digest : Text)
    → names_token interp digest ≡ true
    → short_digest tok interp digest ≡ label interp digest
unfolding short_digest
short_digest_whole tok interp digest h = rw h

short_digest_other :
    (tok interp digest : Text)
    → names_token interp digest ≡ false
    → short_digest tok interp digest ≡ tok
unfolding short_digest
short_digest_other tok interp digest h = rw h

short_digest-cases :
    (tok interp digest : Text)
    → tok ≡ canonical_prefix ++ (interp ++ b':' ∷ digest)
    → (short_digest tok interp digest ≡ tok)
      ⊎ (IsToken tok interp digest × (short_digest tok interp digest ≡ label interp digest))
short_digest-cases tok interp digest e = elim (Bool-cases (names_token interp digest)) [
  | inl h ↦ inr (
    record {
      whole = e;
      known = known_interp-cases interp (ground arith);
      size = ground arith;
      hex = ground arith;
    },
    short_digest_whole tok interp digest h,
  )
  | inr h ↦ inl (short_digest_other tok interp digest h)
]

short_rest-none : (tok rest : Text) → cut_at b':' rest ≡ none → short_rest tok rest ≡ tok
unfolding short_rest
short_rest-none tok rest h = rw (h, short_rest)

short_rest-some :
    (tok rest interp digest : Text)
    → cut_at b':' rest ≡ some (interp, digest)
    → short_rest tok rest ≡ short_digest tok interp digest
unfolding short_rest
short_rest-some tok rest interp digest h = rw (h, short_rest)

short-other : (tok : Text) → has_prefix tok canonical_prefix ≡ false → short tok ≡ tok
unfolding short cut_prefix
short-other tok h = rw (h, cut_prefix, short)

short-prefixed :
    (tok : Text)
    → has_prefix tok canonical_prefix ≡ true
    → short tok ≡ short_rest tok (drop (length canonical_prefix) tok)
unfolding short cut_prefix
short-prefixed tok h = rw (h, cut_prefix, short)

-- What `Short` does to a text that begins with the prefix.
short_rest-cases :
    (tok rest : Text)
    → tok ≡ canonical_prefix ++ rest
    → (short_rest tok rest ≡ tok)
      ⊎ ((interp : Text) × (digest : Text) × IsToken tok interp digest
          × (short_rest tok rest ≡ label interp digest))
short_rest-cases tok rest e = elim (Option-cases (cut_at b':' rest)) [
  | inl n ↦ inl (short_rest-none tok rest n)
  | inr ((interp, digest), f) ↦
      let whole = e ∙ ap (λ r. canonical_prefix ++ r) (cut_at-split b':' rest interp digest f) in
      let same = short_rest-some tok rest interp digest f in
      elim (short_digest-cases tok interp digest whole) [
        | inl kept ↦ inl (same ∙ kept)
        | inr (named, cut) ↦ inr (interp, digest, named, same ∙ cut)
      ]
]

-- A text is abbreviated only where it is a whole token, and then to the label of its interpreter
-- and digest; every other text stays as it is.
pub short-cases :
    (tok : Text)
    → (short tok ≡ tok)
      ⊎ ((interp : Text) × (digest : Text) × IsToken tok interp digest
          × (short tok ≡ label interp digest))
short-cases tok = elim (Bool-cases (has_prefix tok canonical_prefix)) [
  | inl h ↦
      let rest = drop (length canonical_prefix) tok in
      let same = short-prefixed tok h in
      elim (short_rest-cases tok rest (has_prefix-split tok canonical_prefix h)) [
        | inl kept ↦ inl (same ∙ kept)
        | inr (interp, digest, named, cut) ↦ inr (interp, digest, named, same ∙ cut)
      ]
  | inr h ↦ inl (short-other tok h)
]

lower_hex-hex_encode : (s : Text) → All (λ c. c < 256) s → lower_hex (hex_encode s) ≡ true
unfolding lower_hex hex_encode
lower_hex-hex_encode [] h = refl
lower_hex-hex_encode (b ∷ s) h = ground (arith, lower_hex-hex_encode s h.1)

known_interp-interp_name : (i : Interp) → known_interp (interp_name i) ≡ true
unfolding known_interp text_eq
known_interp-interp_name posix = refl
known_interp-interp_name power_shell = refl

cut_at-token :
    (i : Interp) (digest : Text)
    → cut_at b':' (interp_name i ++ b':' ∷ digest) ≡ some (interp_name i, digest)
unfolding cut_at interp_name
cut_at-token posix digest = refl
cut_at-token power_shell digest = refl

-- The token of a digest of 32 bytes is abbreviated to its label.
pub short-token :
    (i : Interp) (sum : Text)
    → length sum ≡ 32
    → All (λ c. c < 256) sum
    → short (token i sum) ≡ label (interp_name i) (hex_encode sum)
unfolding token
short-token i sum size bytes =
    let rest = interp_name i ++ b':' ∷ hex_encode sum in
    short-prefixed (token i sum) (has_prefix-append canonical_prefix rest)
    ∙ ap (short_rest (token i sum)) (drop-append canonical_prefix rest)
    ∙ short_rest-some (token i sum) rest (interp_name i) (hex_encode sum)
        (cut_at-token i (hex_encode sum))
    ∙ short_digest_whole (token i sum) (interp_name i) (hex_encode sum) (
        ground (
          arith,
          known_interp-interp_name i,
          length-hex_encode sum,
          lower_hex-hex_encode sum bytes,
        ))
