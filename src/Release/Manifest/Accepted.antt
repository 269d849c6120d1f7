-- ===== src/Release/Manifest/Accepted.antt =====
-- What an accepted manifest is.
use wanctl.Prelude.Results.{ok-injective, >>-ok, refuse-ok, ok}
use wanctl.Release.Manifest.{
  check_decoded, Artifact, Manifest, max_artifact_size, base, artifact_name, good_size, good_digest,
  digest_fits, platform, check_artifact, check_artifacts, is_one, check_manifest, bad_schema,
  bad_version, incomplete, duplicate_platform,
}
use wanctl.Prelude.{
  ap, subst, ℕ, ◌≤◌, ◌<◌, ◌≡◌, ◌≢◌, refl, arith, true, false, not, Option, none, some, List, [],
  ◌∷◌, All, All-map, ◌==◌, ◌||◌, sym, length, is_some, ℤ, pos, negsuc, Option-cases, inl, inr,
}
use wanctl.Bytes.{Text, text_eq}
use wanctl.Bytes.Laws.{text_eq_iff}
use wanctl.Encoding.Hex.{hex_decode}
use wanctl.Release.Json.{seen_before}
use wanctl.Release.Version.{Version, parse_version}

pub record IsSound (a : Artifact) : Type 0 where
  pub named : a.name ≡ artifact_name a.os a.arch
  pub no_directory : base a.name ≡ a.name
  pub sized : (n : ℕ) × (a.size ≡ pos n) × (0 < n) × (n ≤ max_artifact_size)
  pub digest : (raw : Text) × (hex_decode a.sha256 ≡ some raw) × (length raw ≡ 32)

abbrev pub OnePerPlatform : List Artifact → Type 0
OnePerPlatform [] = Unit
OnePerPlatform (a ∷ rest) = All (λ b. platform b ≢ platform a) rest × OnePerPlatform rest

pub record IsSoundManifest (m : Manifest) : Type 0 where
  pub schema : m.schema ≡ pos 1
  pub version : (v : Version) × (parse_version m.version ≡ some v)
  pub some_artifact : m.artifacts ≢ []
  pub sound : All IsSound m.artifacts
  pub one_each : OnePerPlatform m.artifacts

good_size-pos :
    (s : ℤ) → good_size s ≡ true → (n : ℕ) × (s ≡ pos n) × (0 < n) × (n ≤ max_artifact_size)
unfolding good_size
good_size-pos (pos n) h = (n, refl, ground arith, ground arith)
good_size-pos (negsuc n) h = cc

digest_fits-raw :
    (s : Text) (o : Option Text)
    → digest_fits s o ≡ true
    → (raw : Text) × (o ≡ some raw) × (length raw ≡ 32)
unfolding digest_fits
digest_fits-raw s none h = cc
digest_fits-raw s (some raw) h = (raw, refl, ground arith)

good_digest-raw :
    (s : Text) → good_digest s ≡ true → (raw : Text) × (hex_decode s ≡ some raw) × (length raw ≡ 32)
unfolding good_digest
good_digest-raw s h = digest_fits-raw s (hex_decode s) h

some_left {ℓ} : {A : Type ℓ} (xs : List A) → (length xs == 0) ≡ false → xs ≢ []
some_left [] h e = cc
some_left (x ∷ xs) h e = cc

seen_before-tail :
    (k j : Text) (ks : List Text) → seen_before k (j ∷ ks) ≡ false → seen_before k ks ≡ false
unfolding seen_before
seen_before-tail k j ks h = ground arith

seen_before-head : (k j : Text) (ks : List Text) → seen_before k (j ∷ ks) ≡ false → k ≢ j
unfolding seen_before
seen_before-head k j ks h e = ground (arith, (text_eq_iff j k).1 (sym e))

is_one-pos : (n : ℤ) → is_one n ≡ true → n ≡ pos 1
unfolding is_one
is_one-pos (pos n) h = ground arith
is_one-pos (negsuc n) h = cc

is_some-version :
    (s : Text) → is_some (parse_version s) ≡ true → (v : Version) × (parse_version s ≡ some v)
is_some-version s h = elim (Option-cases (parse_version s)) [
  | inl e ↦ absurd (ground arith)
  | inr p ↦ p
]

check_artifact-IsSound : (a : Artifact) → check_artifact a ≡ ok tt → IsSound a
unfolding check_artifact
check_artifact-IsSound a h =
    let parts : (text_eq (base a.name) a.name ≡ true)
        × (text_eq a.name (artifact_name a.os a.arch) ≡ true)
        × (good_size a.size ≡ true)
        × (good_digest a.sha256 ≡ true) =
      (ground arith, ground arith, ground arith, ground arith) in
    record {
      named = (text_eq_iff _ _).0 parts.1;
      no_directory = (text_eq_iff _ _).0 parts.0;
      sized = good_size-pos a.size parts.2;
      digest = good_digest-raw a.sha256 parts.3;
    }

-- The artifacts are sound, on platforms that differ from those seen before and from one another.
check_artifacts-IsSound :
    (seen : List Text) (xs : List Artifact)
    → check_artifacts seen xs ≡ ok tt
    → All IsSound xs × All (λ a. seen_before (platform a) seen ≡ false) xs × OnePerPlatform xs
unfolding check_artifacts
check_artifacts-IsSound seen [] h = (tt, tt, tt)
check_artifacts-IsSound seen (a ∷ rest) h =
    let h0 = >>-ok (check_artifact a) _ h in
    let h1 = refuse-ok (seen_before (platform a) seen) duplicate_platform _ h0.1 in
    let ih = check_artifacts-IsSound (platform a ∷ seen) rest h1.1 in
    (
      (check_artifact-IsSound a h0.0, ih.0),
      (h1.0, All-map _ _ (λ b e. seen_before-tail (platform b) (platform a) seen e) rest ih.1),
      (All-map _ _ (λ b e. seen_before-head (platform b) (platform a) seen e) rest ih.1, ih.2),
    )

check_manifest-IsSound :
    (m : Manifest) {r : Manifest} → check_manifest m ≡ ok r → (m ≡ r) × IsSoundManifest m
unfolding check_manifest
check_manifest-IsSound m h =
    let h0 = refuse-ok (not (is_one m.schema)) bad_schema _ h in
    let h1 = refuse-ok (not (is_some (parse_version m.version))) bad_version _ h0.1 in
    let h2 =
      refuse-ok (not (is_some m.published_at) || (length m.artifacts == 0)) incomplete _ h1.1 in
    let h3 = >>-ok (check_artifacts [] m.artifacts) (ok m) h2.1 in
    let c = check_artifacts-IsSound [] m.artifacts h3.0 in
    (
      ok-injective h3.1,
      record {
        schema = is_one-pos m.schema (ground arith);
        version = is_some-version m.version (ground arith);
        some_artifact = some_left m.artifacts (ground arith);
        sound = c.0;
        one_each = c.2;
      },
    )

pub check_decoded-IsSound :
    (o : Option Manifest) {m : Manifest} → check_decoded o ≡ ok m → IsSoundManifest m × (o ≡ some m)
unfolding check_decoded
check_decoded-IsSound none h = cc
check_decoded-IsSound (some n) h =
    let c = check_manifest-IsSound n h in (subst IsSoundManifest c.0 c.1, ap some c.0)
