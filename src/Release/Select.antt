-- ===== src/Release/Select.antt =====
-- The choice of an artifact (`Select`, `SelectExact`) and the check of what was fetched
-- (`VerifyArtifact`, `VerifyDirectory`).
pub mod Eligible
pub mod Directory
use wanctl.Release.Manifest.{
  not_closed, Artifact, Manifest, Result, ReleaseError, bad_version, bad_current, beta_not_allowed,
  up_to_date, no_artifact, version_mismatch, no_file, wrong_size, wrong_digest, verify_manifest,
}
use wanctl.Prelude.Results.{err, ok, refuse, ◌>>=◌, ◌>>◌}
use wanctl.Prelude.{
  ℕ, ◌+◌, Bool, true, false, ◌&&◌, not, Option, none, some, List, [], ◌∷◌, ◌==◌, take, is_some,
  if◌then◌else◌, length, ℤ, pos, negsuc, zero, suc,
}
use wanctl.Bytes.{Text, codes, text_eq, is_empty}
use wanctl.Encoding.Hex.{hex_encode}
use wanctl.Release.Version.{Version, parse_version, compare_version}
use wanctl.Release.Json.{Tokens}

unfoldable pub find_artifact : Text → Text → List Artifact → Result Artifact
unfolding text_eq
find_artifact os arch [] = err no_artifact
find_artifact os arch (a ∷ rest) =
    let later = find_artifact os arch rest in
    if text_eq a.os os && text_eq a.arch arch then ok a else later

unfoldable pub select_artifact : Manifest → Text → Text → Result Artifact
unfolding find_artifact
select_artifact m os arch = find_artifact os arch m.artifacts

-- A build that has a version of its own.
unfoldable pub versioned : Text → Bool
unfolding text_eq
versioned current = not (is_empty current) && not (text_eq current (codes "dev"))

-- The version of a build that has none.
abbrev pub no_version : Version
no_version = record { major = []; minor = []; patch = []; beta = [] }

unfoldable pub parsed : ReleaseError → Option Version → Result Version
parsed e none = err e
parsed e (some v) = ok v

unfoldable pub is_newer : ℤ → Bool
is_newer (pos zero) = false
is_newer (pos (suc n)) = true
is_newer (negsuc n) = false

unfoldable pub current_version : Text → Result Version
unfolding versioned parsed parse_version
current_version current =
    if versioned current then parsed bad_current (parse_version current) else ok no_version

-- `Select`
unfoldable pub select : Manifest → Text → Text → Text → Result Artifact
unfolding parsed parse_version current_version is_newer compare_version select_artifact versioned
select m os arch current = do
  next ← parsed bad_version (parse_version m.version)
  now ← current_version current
  refuse (not (is_empty next.beta) && is_empty now.beta) beta_not_allowed
  refuse (versioned current && not (is_newer (compare_version next now))) up_to_date
  select_artifact m os arch

-- `SelectExact`
unfoldable pub select_exact : Manifest → Text → Text → Text → Result Artifact
unfolding parse_version select_artifact text_eq
select_exact m os arch requested = do
  refuse (not (is_some (parse_version requested))) bad_version
  refuse (not (text_eq m.version requested)) version_mismatch
  select_artifact m os arch

-- What `io.LimitReader(r, size+1)` lets through.
unfoldable pub limited : ℤ → Text → Text
limited (pos n) content = take (n + 1) content
limited (negsuc n) content = []

unfoldable pub is_size : ℤ → ℕ → Bool
is_size (pos n) k = k == n
is_size (negsuc n) k = false

-- `sha256` is `sha256.Sum256`.
module _ (sha256 : Text → Text) where
  unfoldable pub verify_artifact : Text → Artifact → Result (Unit {0})
  unfolding limited is_size hex_encode text_eq
  verify_artifact content a =
      let copied = limited a.size content in
      do
        refuse (not (is_size a.size (length copied))) wrong_size
        refuse (not (text_eq (hex_encode (sha256 copied)) a.sha256)) wrong_digest

  unfoldable pub verify_file : Option Text → Bool → Artifact → Result (Unit {0})
  unfolding verify_artifact
  verify_file none closes a = err no_file
  verify_file (some content) closes a = do verify_artifact content a; refuse (not closes) not_closed

  -- `file` is what the directory holds under a name, and `closes` whether that file is closed
  -- without an error.
  unfoldable pub verify_files :
      (Text → Option Text) → (Text → Bool) → List Artifact → Result (Unit {0})
  unfolding verify_file
  verify_files file closes [] = ok tt
  verify_files file closes (a ∷ rest) = do
    verify_file (file a.name) (closes a.name) a
    verify_files file closes rest

module _ (sha256 : Text → Text) (tokens : Text → Tokens) (decode : Text → Option Manifest)
    (verify : Text → Text → Text → Bool) where
  unfoldable pub verify_directory :
      (Text → Option Text) → (Text → Bool) → Text → Text → Text → Result (Unit {0})
  unfolding verify_manifest verify_files
  verify_directory file closes raw signature trusted = do
    m ← verify_manifest sha256 tokens decode verify raw signature trusted
    verify_files sha256 file closes m.artifacts
