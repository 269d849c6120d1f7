-- ===== src/Release/Select/Directory.antt =====
-- A directory that is verified holds what the signed manifest names (`VerifyDirectory`).
use wanctl.Prelude.Results.{>>-ok, >>=-ok, ok, refuse, refuse-ok}
use wanctl.Prelude.{
  not-false, ==_iff, ℕ, ◌+◌, ◌≡◌, refl, arith, All, Bool, true, false, not, Option, none, some,
  List, [], ◌∷◌, take, zero, suc, length, ℤ, pos, negsuc, ap, ◌∙◌, Option-cases, inl, inr, sym,
  subst,
}
use wanctl.Bytes.{Text}
use wanctl.Bytes.Laws.{text_eq_iff}
use wanctl.Encoding.Hex.{hex_encode}
use wanctl.Release.Json.{Tokens}
use wanctl.Release.Manifest.{Artifact, Manifest, wrong_size, wrong_digest, verify_manifest}
use wanctl.Release.Select.{
  limited, is_size, verify_artifact, verify_file, verify_files, verify_directory,
}

-- The directory has a file of the artifact's name, of its size and digest, to the last byte.
abbrev pub Holds : (Text → Text) → (Text → Option Text) → Artifact → Type 0
Holds sha256 file a =
    (content : Text) × (file a.name ≡ some content)
    × (pos (length content) ≡ a.size)
    × (hex_encode (sha256 content) ≡ a.sha256)

-- A text that is cut after one byte more than the size, and still has the size, is not cut.
take_whole : (n : ℕ) (s : Text) → length (take (suc n) s) ≡ n → take (suc n) s ≡ s
take_whole n [] h = refl
take_whole zero (c ∷ s) h = absurd (omega arith)
take_whole (suc n) (c ∷ s) h = ap (λ l. c ∷ l) (take_whole n s (omega arith))

add-suc-one : (n : ℕ) → suc n ≡ n + 1
add-suc-one n = omega arith

limited_whole :
    (size : ℤ) (content : Text)
    → is_size size (length (limited size content)) ≡ true
    → (limited size content ≡ content) × (pos (length content) ≡ size)
unfolding limited is_size
limited_whole (negsuc n) content h = cc
limited_whole (pos n) content h =
    let k : length (take (n + 1) content) ≡ n = (==_iff _ n).0 h in
    let w : take (n + 1) content ≡ content =
      subst (λ j. take j content ≡ content) (add-suc-one n)
        (take_whole n content (subst (λ j. length (take j content) ≡ n) (sym (add-suc-one n)) k)) in
    (w, ap pos (ap length (sym w) ∙ k))

not_refused : (b : Bool) → refuse (not b) wrong_digest ≡ ok tt → b ≡ true
not_refused true h = refl
not_refused false h = cc

verify_artifact-whole :
    (sha256 : Text → Text) (content : Text) (a : Artifact)
    → verify_artifact sha256 content a ≡ ok tt
    → (pos (length content) ≡ a.size) × (hex_encode (sha256 content) ≡ a.sha256)
unfolding verify_artifact
verify_artifact-whole sha256 content a h =
    let s = refuse-ok (not (is_size a.size (length (limited a.size content)))) wrong_size _ h in
    let w = limited_whole a.size content (not-false _ s.0) in
    (
      w.1,
      subst (λ c. hex_encode (sha256 c) ≡ a.sha256) w.0
          ((text_eq_iff _ a.sha256).0 (not_refused _ s.1)),
    )

no_content :
    (sha256 : Text → Text) (file : Text → Option Text) (closed : Bool) (a : Artifact)
    → verify_file sha256 none closed a ≡ ok tt
    → Holds sha256 file a
unfolding verify_file
no_content sha256 file closed a h = cc

verify_file-Holds :
    (sha256 : Text → Text) (file : Text → Option Text) (closed : Bool) (a : Artifact)
    → verify_file sha256 (file a.name) closed a ≡ ok tt
    → Holds sha256 file a
unfolding verify_file
verify_file-Holds sha256 file closed a h = elim (Option-cases (file a.name)) [
  | inl e ↦ no_content sha256 file closed a (subst (λ o. verify_file sha256 o closed a ≡ ok tt) e h)
  | inr (content, e) ↦
      let w =
        verify_artifact-whole sha256 content a
          (>>-ok (verify_artifact sha256 content a) _
            (subst (λ o. verify_file sha256 o closed a ≡ ok tt) e h)).0 in
      (content, e, w.0, w.1)
]

verify_files-Holds :
    (sha256 : Text → Text) (file : Text → Option Text) (closes : Text → Bool) (xs : List Artifact)
    → verify_files sha256 file closes xs ≡ ok tt
    → All (Holds sha256 file) xs
unfolding verify_files
verify_files-Holds sha256 file closes [] h = tt
verify_files-Holds sha256 file closes (a ∷ rest) h =
    let s = >>-ok (verify_file sha256 (file a.name) (closes a.name) a) _ h in
    (
      verify_file-Holds sha256 file (closes a.name) a s.0,
      verify_files-Holds sha256 file closes rest s.1,
    )

module _ (sha256 : Text → Text) (tokens : Text → Tokens) (decode : Text → Option Manifest)
    (verify : Text → Text → Text → Bool) where
  -- A directory that is verified has, for every artifact of a manifest that is verified, a file of
  -- its name that is exactly of its size and digest.
  pub verify_directory-Holds :
      (file : Text → Option Text) (closes : Text → Bool) (raw signature trusted : Text)
      → verify_directory sha256 tokens decode verify file closes raw signature trusted ≡ ok tt
      → (m : Manifest) × (verify_manifest sha256 tokens decode verify raw signature trusted ≡ ok m)
        × All (Holds sha256 file) m.artifacts
  unfolding verify_directory
  verify_directory-Holds file closes raw signature trusted h =
      let (m, v, f) =
        >>=-ok (verify_manifest sha256 tokens decode verify raw signature trusted) _ h in
      (m, v, verify_files-Holds sha256 file closes m.artifacts f)
