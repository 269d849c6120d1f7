-- ===== src/Release/Manifest/Trusted.antt =====
-- An accepted manifest is signed by a key that the build trusts.
use wanctl.Prelude.Results.{>>=-ok, ok, ok-injective, refuse-ok}
use wanctl.Release.Manifest.{
  bad_json, no_duplicates, bad_length, max_manifest_size, unverified, bad_signature, no_key,
  sized_key, Manifest, parse_manifest, split, put_key, decode_key, key_id, read_keys,
  parse_trusted_keys, verify_manifest,
}
use wanctl.Prelude.{
  not-false, ltb, ap, subst, ◌∙◌, ◌≡◌, arith, Bool, true, not, Option, none, some, List, [], ◌∷◌,
  All, ◌==◌, ◌||◌, length, any, Bool-cases, inl, inr, ◌⊎◌,
}
use wanctl.Bytes.{Text, text_eq, is_empty}
use wanctl.Bytes.Trim.{trim_space}
use wanctl.Release.Json.{Tokens}
use wanctl.Release.Manifest.Accepted.{IsSoundManifest, check_decoded-IsSound}
use wanctl.Encoding.Base64

-- A key that the build lists, once white space is left out.
abbrev pub Listed : Text → List Text → Type 0
Listed key [] = ⊥
Listed key (v ∷ vs) =
    ((Base64.decode (trim_space v) ≡ some key) × (length key ≡ 32)) ⊎ Listed key vs

module _ (P : Text → Type 0) where
  put_key-All :
      (id key : Text) (ks : List (Text × Text))
      → P key
      → All (λ k. P k.1) ks
      → All (λ k. P k.1) (put_key id key ks)
  unfolding put_key
  put_key-All id key [] p h = (p, tt)
  put_key-All id key ((i, j) ∷ ks) p h = elim (Bool-cases (text_eq i id)) [
    | inl e ↦ rw e (p, h.1)
    | inr e ↦ rw e (h.0, put_key-All id key ks p h.1)
  ]

  any-All :
      (test : Text × Text → Bool) (ks : List (Text × Text))
      → any test ks ≡ true
      → All (λ k. P k.1) ks
      → (k : Text × Text) × P k.1 × (test k ≡ true)
  unfolding any
  any-All test [] t h = cc
  any-All test (k ∷ ks) t h = elim (Bool-cases (test k)) [
    | inl e ↦ (k, h.0, e)
    | inr e ↦ any-All test ks (ground arith) h.1
  ]

sized_key-Listed :
    (o : Option Text) (key : Text) → sized_key o ≡ ok key → (o ≡ some key) × (length key ≡ 32)
unfolding sized_key
sized_key-Listed none key h = cc
sized_key-Listed (some raw) key h =
    let e : raw ≡ key = ground arith in (ap some e, subst (λ r. length r ≡ 32) e (ground arith))

decode_key-Listed :
    (v key : Text) → decode_key v ≡ ok key → (Base64.decode v ≡ some key) × (length key ≡ 32)
unfolding decode_key
decode_key-Listed v key h = sized_key-Listed (Base64.decode v) key h

read_keys-All :
    (sha256 : Text → Text) (P : Text → Type 0) (keys : List (Text × Text)) (vs : List Text)
    {out : List (Text × Text)}
    → ((key : Text) → Listed key vs → P key)
    → All (λ k. P k.1) keys
    → read_keys sha256 keys vs ≡ ok out
    → All (λ k. P k.1) out
unfolding read_keys
read_keys-All sha256 P keys [] l h e = subst (All (λ k. P k.1)) (ok-injective e) h
read_keys-All sha256 P keys (v ∷ vs) l h e = elim (Bool-cases (is_empty (trim_space v))) [
  | inl b ↦ read_keys-All sha256 P keys vs (λ key k. l key (inr k)) h (rw b at e)
  | inr b ↦
      let (key, d, e') =
        >>=-ok (decode_key (trim_space v))
          (λ key. read_keys sha256 (put_key (key_id sha256 key) key keys) vs) (rw b at e) in
      read_keys-All sha256 P (put_key (key_id sha256 key) key keys) vs (λ k m. l k (inr m))
        (put_key-All P (key_id sha256 key) key keys
          (l key (inl (decode_key-Listed (trim_space v) key d))) h)
        e'
]

parse_trusted_keys-Listed :
    (sha256 : Text → Text) (trusted : Text) {keys : List (Text × Text)}
    → parse_trusted_keys sha256 trusted ≡ ok keys
    → All (λ k. Listed k.1 (split b',' trusted)) keys
unfolding parse_trusted_keys
parse_trusted_keys-Listed sha256 trusted h =
    let (read, r, h1) = >>=-ok (read_keys sha256 [] (split b',' trusted)) _ h in
    let n = refuse-ok (length read == 0) no_key _ h1 in
    read_keys-All sha256 (λ key. Listed key (split b',' trusted)) [] (split b',' trusted) (λ k l. l)
      tt (r ∙ n.1)

parse_manifest-IsSound :
    (tokens : Text → Tokens) (decode : Text → Option Manifest) (raw : Text) {m : Manifest}
    → parse_manifest tokens decode raw ≡ ok m
    → IsSoundManifest m × (decode raw ≡ some m) × (no_duplicates (tokens raw) ≡ true)
unfolding parse_manifest
parse_manifest-IsSound tokens decode raw h =
    let a = refuse-ok (length raw == 0 || ltb max_manifest_size (length raw)) bad_length _ h in
    let b = refuse-ok (not (no_duplicates (tokens raw))) bad_json _ a.1 in
    let c = check_decoded-IsSound (decode raw) b.1 in
    (c.0, c.1, not-false (no_duplicates (tokens raw)) b.0)

module _ (sha256 : Text → Text) (tokens : Text → Tokens) (decode : Text → Option Manifest)
    (verify : Text → Text → Text → Bool) where
  -- A release manifest that is verified has a signature by a key that the build lists, repeats no
  -- JSON key, and is sound: schema 1, a version that parses, at least one artifact, no platform
  -- twice, and every artifact with the name of its platform, a size within the limit and a digest
  -- of 32 bytes.
  pub verify_manifest-IsSound :
      (raw signature trusted : Text) (m : Manifest)
      → verify_manifest sha256 tokens decode verify raw signature trusted ≡ ok m
      → IsSoundManifest m
        × (decode raw ≡ some m)
        × (no_duplicates (tokens raw) ≡ true)
        × ((key : Text) × Listed key (split b',' trusted) × (verify key raw signature ≡ true))
  unfolding verify_manifest
  verify_manifest-IsSound raw signature trusted m h =
      let (parsed, p, h1) = >>=-ok (parse_manifest tokens decode raw) _ h in
      let (keys, k, h2) = >>=-ok (parse_trusted_keys sha256 trusted) _ h1 in
      let s = refuse-ok (not (length signature == 64)) bad_signature _ h2 in
      let v = refuse-ok (not (any (λ k. verify k.1 raw signature) keys)) unverified _ s.1 in
      let c = parse_manifest-IsSound tokens decode raw p in
      let (found, l, t) =
        any-All (λ key. Listed key (split b',' trusted)) (λ k. verify k.1 raw signature) keys
          (ground arith) (parse_trusted_keys-Listed sha256 trusted k) in
      (
        subst IsSoundManifest (ok-injective v.1) c.0,
        c.1 ∙ ap some (ok-injective v.1),
        c.2,
        (found.1, l, t),
      )
