-- ===== src/Examples/Release.antt =====
-- Releases at concrete inputs (`internal/release/release.go`).
use wanctl.Prelude.Results.{ok}
use wanctl.Prelude.{
  All, filter, ◌≡◌, ◌↔◌, refl, arith, Bool, true, Option, some, [], ◌∷◌, if◌then◌else◌, pos, negsuc,
  inl, inr, ℕ, zero, suc,
}
use wanctl.Bytes.{Text, codes, cut_prefix}
use wanctl.Encoding.Base64
use wanctl.Release.Json.{
  Tokens, duplicate, at_end, end_of_text, token, scalar, reject_duplicate_json_keys,
}
use wanctl.Release.Json.Values.{Json, atom, object, end, field, first_of_value, after_first, unique}
use wanctl.Release.Json.Walk.{reject_duplicate_json_keys-unique}
use wanctl.Release.Version.{Version, number, parse_version, compare_version}
use wanctl.Release.Version.Order.{IsVersion, Older, numbers_of, compare_version-Older}
use wanctl.Release.Manifest.{Artifact, Manifest, split, verify_manifest, no_duplicates}
use wanctl.Release.Manifest.Accepted.{IsSoundManifest}
use wanctl.Release.Manifest.Trusted.{Listed, verify_manifest-IsSound}
use wanctl.Release.Select.{select, verify_directory}
use wanctl.Release.Select.Eligible.{Offers, MayMove, select-MayMove}
use wanctl.Release.Select.Directory.{Holds, verify_directory-Holds}

abbrev stable : Version
stable = record { major = codes "1"; minor = codes "9"; patch = codes "0"; beta = [] }

abbrev next_beta : Version
next_beta = record { major = codes "1"; minor = codes "10"; patch = codes "0"; beta = codes "2" }

stable-IsVersion : IsVersion stable
unfolding number
stable-IsVersion = record {
  major_number = record { all_digits = omega arith; canonical = refl };
  minor_number = record { all_digits = omega arith; canonical = refl };
  patch_number = record { all_digits = omega arith; canonical = refl };
  beta_number = inl refl;
}

next_beta-IsVersion : IsVersion next_beta
unfolding number
next_beta-IsVersion = record {
  major_number = record { all_digits = omega arith; canonical = refl };
  minor_number = record { all_digits = omega arith; canonical = refl };
  patch_number = record { all_digits = omega arith; canonical = refl };
  beta_number = inr (record { all_digits = omega arith; canonical = refl });
}

compare_version-Older_example :
    ((compare_version stable next_beta ≡ negsuc 0)
      ↔ Older (numbers_of stable) (numbers_of next_beta))
    × ((compare_version stable next_beta ≡ pos 1)
        ↔ Older (numbers_of next_beta) (numbers_of stable))
compare_version-Older_example =
    compare_version-Older stable next_beta stable-IsVersion next_beta-IsVersion

abbrev twice : Json
twice = object (field (codes "size") atom (field (codes "size") atom end))

reject_duplicate_json_keys-unique_example :
    reject_duplicate_json_keys (token (first_of_value twice) (after_first twice end_of_text))
    ≡ (if unique twice then at_end end_of_text else duplicate)
reject_duplicate_json_keys-unique_example = reject_duplicate_json_keys-unique twice end_of_text

-- 32 zero bytes, and their text in hex.
abbrev times : ℕ → ℕ → Text
times zero b = []
times (suc n) b = b ∷ times n b

abbrev binary : Artifact
binary = record {
  os = codes "linux";
  arch = codes "amd64";
  name = codes "wanctl-linux-amd64";
  size = pos 1;
  sha256 = times 64 b'0';
}

abbrev manifest : Manifest
manifest = record {
  schema = pos 1;
  version = codes "v1.10.0";
  published_at = some 7;
  artifacts = binary ∷ [];
}

abbrev digest : Text → Text
digest s = times 32 0

abbrev tokens_of : Text → Tokens
tokens_of raw = token scalar end_of_text

abbrev decoded : Text → Option Manifest
decoded raw = some manifest

abbrev accepts : Text → Text → Text → Bool
accepts key raw signature = true

-- 32 zero bytes in base64
abbrev trusted_key : Text
trusted_key = codes "AAAAAAAAAAAAAAAAAAAAAAAAAAAAAAAAAAAAAAAAAAA="

verified :
    verify_manifest digest tokens_of decoded accepts (codes "{}") (times 64 0) trusted_key
    ≡ ok manifest
unfolding verify_manifest cut_prefix filter Base64.value_of
verified = refl

verify_manifest-IsSound_example :
    IsSoundManifest manifest
    × (decoded (codes "{}") ≡ some manifest)
    × (no_duplicates (tokens_of (codes "{}")) ≡ true)
    × ((key : Text) × Listed key (split b',' trusted_key)
        × (accepts key (codes "{}") (times 64 0) ≡ true))
verify_manifest-IsSound_example =
    verify_manifest-IsSound digest tokens_of decoded accepts (codes "{}") (times 64 0) trusted_key
      manifest verified

selected : select manifest (codes "linux") (codes "amd64") (codes "v1.9.0") ≡ ok binary
unfolding select cut_prefix
selected = refl

select-MayMove_example :
    Offers (codes "linux") (codes "amd64") binary manifest.artifacts
    × ((v : Version) × (parse_version manifest.version ≡ some v) × MayMove (codes "v1.9.0") v)
select-MayMove_example =
    select-MayMove manifest (codes "linux") (codes "amd64") (codes "v1.9.0") selected

abbrev one_file : Text → Option Text
one_file name = some (7 ∷ [])

directory_verified :
    verify_directory digest tokens_of decoded accepts one_file
      (λ name. true)
      (codes "{}")
      (times 64 0)
      trusted_key
    ≡ ok tt
unfolding verify_directory cut_prefix filter Base64.value_of
directory_verified = refl

verify_directory-Holds_example :
    (m : Manifest) × (verify_manifest digest tokens_of decoded accepts
        (codes "{}")
        (times 64 0)
        trusted_key
      ≡ ok m)
    × All (Holds digest one_file) m.artifacts
verify_directory-Holds_example =
    verify_directory-Holds digest tokens_of decoded accepts one_file (λ name. true) (codes "{}")
      (times 64 0) trusted_key directory_verified
