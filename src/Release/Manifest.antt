-- ===== src/Release/Manifest.antt =====
-- Manifests, their checks and their signatures (`ParseManifest`, `ParseTrustedKeys`,
-- `VerifyManifest`).
pub mod Accepted
pub mod Trusted
use wanctl.Prelude.{
  ℕ, ◌+◌, Bool, true, false, ◌&&◌, ◌||◌, not, Option, none, some, List, [], ◌∷◌, ◌++◌, ◌==◌, ltb,
  leb, reverse, take, map, is_some, if◌then◌else◌, length, any, ℤ, pos, negsuc,
}
use wanctl.Prelude.Results.{Fallible, ok, err, ◌>>=◌, ◌>>◌, refuse}
use wanctl.Bytes.{Text, codes, text_eq, is_empty}
use wanctl.Bytes.Trim.{trim_space}
use wanctl.Encoding.Base64
use wanctl.Encoding.Hex.{hex_encode, hex_decode}
use wanctl.Release.Json.{Tokens, done, seen_before, reject_duplicate_json_keys}
use wanctl.Release.Version.{parse_version}

-- `size` is an int64, as it stands in the JSON text.
pub record Artifact : Type 0 where
  pub os : Text
  pub arch : Text
  pub name : Text
  pub size : ℤ
  pub sha256 : Text

-- `published_at` is none at the zero time.
pub record Manifest : Type 0 where
  pub schema : ℤ
  pub version : Text
  pub published_at : Option ℕ
  pub artifacts : List Artifact

pub data ReleaseError : Type 0 where
  bad_length bad_json bad_schema bad_version incomplete : ReleaseError
  bad_identity bad_name bad_size bad_digest duplicate_platform : ReleaseError
  bad_key no_key bad_signature unverified : ReleaseError
  no_file not_closed wrong_size wrong_digest : ReleaseError
  bad_current beta_not_allowed up_to_date no_artifact version_mismatch : ReleaseError

abbrev pub Result {ℓ} : Type ℓ → Type ℓ
Result A = Fallible ReleaseError A

abbrev pub max_manifest_size : ℕ
max_manifest_size = 1048576

abbrev pub max_artifact_size : ℕ
max_artifact_size = 67108864

-- `filepath.Base`, on the text read backwards: trailing slashes go, then all up to the last slash.
unfoldable pub skip_slashes : Text → Text
skip_slashes [] = []
skip_slashes (c ∷ s) = let rest = skip_slashes s in if c == b'/' then rest else c ∷ s

unfoldable pub until_slash : Text → Text
until_slash [] = []
until_slash (c ∷ s) = let rest = until_slash s in if c == b'/' then [] else c ∷ rest

unfoldable pub base : Text → Text
unfolding skip_slashes until_slash
base [] = codes "."
base (c ∷ s) =
    let last = reverse (until_slash (skip_slashes (reverse (c ∷ s)))) in
    if is_empty last then codes "/" else last

unfoldable pub artifact_name : Text → Text → Text
unfolding text_eq
artifact_name os arch =
    let name = codes "wanctl-" ++ (os ++ (codes "-" ++ arch)) in
    if text_eq os (codes "windows") then name ++ codes ".exe" else name

unfoldable pub apk_arch : Text → Text
apk_arch goarch = goarch ++ codes ".apk"

-- `strings.ToLower` on ASCII text.
unfoldable pub to_lower : Text → Text
to_lower = map (λ c. if leb b'A' c && leb c b'Z' then c + 32 else c)

unfoldable pub good_size : ℤ → Bool
good_size (pos n) = ltb 0 n && leb n max_artifact_size
good_size (negsuc n) = false

-- 32 bytes in lower-case hex
unfoldable pub digest_fits : Text → Option Text → Bool
digest_fits s none = false
digest_fits s (some raw) = length raw == 32 && text_eq s (to_lower s)

unfoldable pub good_digest : Text → Bool
unfolding hex_decode to_lower text_eq digest_fits
good_digest s = digest_fits s (hex_decode s)

unfoldable pub platform : Artifact → Text
platform a = a.os ++ (codes "/" ++ a.arch)

unfoldable pub check_artifact : Artifact → Result (Unit {0})
unfolding base artifact_name good_size good_digest text_eq
check_artifact a = do
  refuse
      (is_empty a.os
        || (is_empty a.arch || (is_empty a.name || not (text_eq (base a.name) a.name))))
      bad_identity
  refuse (not (text_eq a.name (artifact_name a.os a.arch))) bad_name
  refuse (not (good_size a.size)) bad_size
  refuse (not (good_digest a.sha256)) bad_digest

-- The loop over the artifacts, with the platforms seen so far.
unfoldable pub check_artifacts : List Text → List Artifact → Result (Unit {0})
unfolding check_artifact platform seen_before
check_artifacts seen [] = ok tt
check_artifacts seen (a ∷ rest) = do
  check_artifact a
  refuse (seen_before (platform a) seen) duplicate_platform
  check_artifacts (platform a ∷ seen) rest

unfoldable pub is_one : ℤ → Bool
is_one (pos n) = n == 1
is_one (negsuc n) = false

-- The checks of a manifest that is decoded.
unfoldable pub check_manifest : Manifest → Result Manifest
unfolding is_one parse_version check_artifacts
check_manifest m = do
  refuse (not (is_one m.schema)) bad_schema
  refuse (not (is_some (parse_version m.version))) bad_version
  refuse (not (is_some m.published_at) || (length m.artifacts == 0)) incomplete
  check_artifacts [] m.artifacts
  ok m

unfoldable pub check_decoded : Option Manifest → Result Manifest
unfolding check_manifest
check_decoded none = err bad_json
check_decoded (some m) = check_manifest m

unfoldable pub no_duplicates : Tokens → Bool
unfolding reject_duplicate_json_keys
no_duplicates ts = elim (reject_duplicate_json_keys ts) [ done _ ↦ true | _ ↦ false ]

-- `tokens` is what a decoder over the text answers, token after token; `decode` is its `Decode`
-- with `DisallowUnknownFields`, which fails where anything follows the value.
module _ (tokens : Text → Tokens) (decode : Text → Option Manifest) where
  unfoldable pub parse_manifest : Text → Result Manifest
  unfolding no_duplicates check_decoded
  parse_manifest raw = do
    refuse (length raw == 0 || ltb max_manifest_size (length raw)) bad_length
    refuse (not (no_duplicates (tokens raw))) bad_json
    check_decoded (decode raw)

abbrev extend_first : ℕ → List Text → List Text
extend_first c [] = (c ∷ []) ∷ []
extend_first c (s ∷ ss) = (c ∷ s) ∷ ss

-- `strings.Split` at one byte
unfoldable pub split : ℕ → Text → List Text
split b [] = [] ∷ []
split b (c ∷ s) = let rest = split b s in if c == b then [] ∷ rest else extend_first c rest

-- The map of keys: an ID stands for the key that came last.
unfoldable pub put_key : Text → Text → List (Text × Text) → List (Text × Text)
unfolding text_eq
put_key id key [] = (id, key) ∷ []
put_key id key ((i, k) ∷ ks) =
    let rest = put_key id key ks in if text_eq i id then (id, key) ∷ ks else (i, k) ∷ rest

unfoldable pub sized_key : Option Text → Result Text
sized_key none = err bad_key
sized_key (some key) = if length key == 32 then ok key else err bad_key

unfoldable pub decode_key : Text → Result Text
unfolding Base64.decode sized_key
decode_key v = sized_key (Base64.decode v)

-- `sha256` is `sha256.Sum256`.
module _ (sha256 : Text → Text) where
  unfoldable pub key_id : Text → Text
  unfolding hex_encode
  key_id key = hex_encode (take 8 (sha256 key))

  unfoldable pub read_keys : List (Text × Text) → List Text → Result (List (Text × Text))
  unfolding put_key key_id trim_space decode_key
  read_keys keys [] = ok keys
  read_keys keys (v ∷ vs) =
      let skipped = read_keys keys vs in
      let taken =
        (decode_key (trim_space v) >>= λ key. read_keys (put_key (key_id key) key keys) vs) in
      if is_empty (trim_space v) then skipped else taken

  unfoldable pub parse_trusted_keys : Text → Result (List (Text × Text))
  unfolding read_keys split
  parse_trusted_keys encoded = do
    keys ← read_keys [] (split b',' encoded)
    refuse (length keys == 0) no_key
    ok keys

-- `verify` is `ed25519.Verify`.
module _ (sha256 : Text → Text) (tokens : Text → Tokens) (decode : Text → Option Manifest)
    (verify : Text → Text → Text → Bool) where
  unfoldable pub verify_manifest : Text → Text → Text → Result Manifest
  unfolding parse_manifest parse_trusted_keys any
  verify_manifest raw signature trusted = do
    m ← parse_manifest tokens decode raw
    keys ← parse_trusted_keys sha256 trusted
    refuse (not (length signature == 64)) bad_signature
    refuse (not (any (λ k. verify k.1 raw signature) keys)) unverified
    ok m
