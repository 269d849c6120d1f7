-- ===== src/Release/Select/Eligible.antt =====
-- What `Select` chooses: an artifact of the platform, of a version that the build may move to.
use wanctl.Prelude.Results.{>>=-ok, ok, ok-injective, refuse-ok}
use wanctl.Prelude.{
  sym, subst, ◌≡◌, ◌≢◌, ◌⊎◌, inl, inr, refl, arith, Bool, true, false, ◌&&◌, not, Option, none,
  some, List, [], ◌∷◌, Bool-cases,
}
use wanctl.Bytes.{Text, text_eq, is_empty}
use wanctl.Bytes.Laws.{text_eq_iff}
use wanctl.Release.Version.{Version, parse_version, compare_version}
use wanctl.Release.Version.Order.{
  IsVersion, Older, numbers_of, compare_version-Older, compare_version-Small,
}
use wanctl.Release.Version.Parsed.{parse_version_lem}
use wanctl.Release.Manifest.{
  Artifact, Manifest, ReleaseError, bad_version, bad_current, beta_not_allowed, up_to_date,
}
use wanctl.Release.Select.{
  find_artifact, versioned, no_version, parsed, is_newer, current_version, select,
}

-- The artifact stands in the list, and is of the platform.
abbrev pub Offers : Text → Text → Artifact → List Artifact → Type 0
Offers os arch a [] = ⊥
Offers os arch a (b ∷ rest) = ((b ≡ a) × (a.os ≡ os) × (a.arch ≡ arch)) ⊎ Offers os arch a rest

-- A build with no version of its own takes no beta. Any other takes what is newer, and takes a beta
-- only if it is a beta.
abbrev pub MayMove : Text → Version → Type 0
MayMove current v =
    ((versioned current ≡ false) × (v.beta ≡ []))
    ⊎ ((w : Version) × (parse_version current ≡ some w)
        × Older (numbers_of w) (numbers_of v)
        × ((v.beta ≡ []) ⊎ (w.beta ≢ [])))

find_artifact-Offers :
    (os arch : Text) (xs : List Artifact) {a : Artifact}
    → find_artifact os arch xs ≡ ok a
    → Offers os arch a xs
unfolding find_artifact
find_artifact-Offers os arch [] h = cc
find_artifact-Offers os arch (b ∷ rest) {a = a} h =
    elim (Bool-cases (text_eq b.os os && text_eq b.arch arch)) [
      | inl e ↦
          let same : b ≡ a = ok-injective (rw e at h) in
          inl (
            same,
            subst (λ x. x.os ≡ os) same ((text_eq_iff b.os os).0 (ground arith)),
            subst (λ x. x.arch ≡ arch) same ((text_eq_iff b.arch arch).0 (ground arith)),
          )
      | inr e ↦ inr (find_artifact-Offers os arch rest (rw e at h))
    ]

parsed-ok : (e : ReleaseError) (o : Option Version) {v : Version} → parsed e o ≡ ok v → o ≡ some v
unfolding parsed
parsed-ok e none h = cc
parsed-ok e (some w) h = cc

is_newer-Older :
    (v w : Version)
    → IsVersion v
    → IsVersion w
    → is_newer (compare_version v w) ≡ true
    → Older (numbers_of w) (numbers_of v)
unfolding is_newer
is_newer-Older v w i j h = elim (compare_version-Small v w i j) [
  | inl e ↦ absurd (ground arith)
  | inr (inl e) ↦ absurd (ground arith)
  | inr (inr e) ↦ (compare_version-Older v w i j).1.0 e
]

beta_allowed :
    (next now : Text) → (not (is_empty next) && is_empty now) ≡ false → (next ≡ []) ⊎ (now ≢ [])
beta_allowed [] now h = inl refl
beta_allowed (c ∷ s) [] h = cc
beta_allowed (c ∷ s) (d ∷ t) h = inr (λ e. cc)

newer_left : (b : Bool) → (true && not b) ≡ false → b ≡ true
newer_left b h = ground arith

no_beta : (s : Text) → (not (is_empty s) && true) ≡ false → s ≡ []
no_beta [] h = refl
no_beta (c ∷ s) h = cc

may_move :
    (current : Text) (v now : Version)
    → IsVersion v
    → current_version current ≡ ok now
    → (not (is_empty v.beta) && is_empty now.beta) ≡ false
    → (versioned current && not (is_newer (compare_version v now))) ≡ false
    → MayMove current v
unfolding current_version
may_move current v now i c b n = elim (Bool-cases (versioned current)) [
  | inl e ↦
      let p = parsed-ok bad_current (parse_version current) (rw e at c) in
      inr (
        now,
        p,
        is_newer-Older v now i (parse_version_lem current p).0
            (newer_left (is_newer (compare_version v now)) (rw e at n)),
        beta_allowed v.beta now.beta b,
      )
  | inr e ↦
      let same : no_version ≡ now = ok-injective (rw e at c) in
      inl (
        e,
        no_beta v.beta
            (subst (λ w. (not (is_empty v.beta) && is_empty w.beta) ≡ false) (sym same) b),
      )
]

-- An artifact that is selected for an update is one of the manifest's, for the platform. A build
-- with a version of its own moves only to a version that is newer as numbers, and to a beta only
-- from a beta; a build with none takes no beta.
pub select-MayMove :
    (m : Manifest) (os arch current : Text) {a : Artifact}
    → select m os arch current ≡ ok a
    → Offers os arch a m.artifacts
      × ((v : Version) × (parse_version m.version ≡ some v) × MayMove current v)
unfolding select
select-MayMove m os arch current h =
    let (next, p, h1) = >>=-ok (parsed bad_version (parse_version m.version)) _ h in
    let (now, c, h2) = >>=-ok (current_version current) _ h1 in
    let b = refuse-ok (not (is_empty next.beta) && is_empty now.beta) beta_not_allowed _ h2 in
    let n =
      refuse-ok (versioned current && not (is_newer (compare_version next now))) up_to_date _ b.1 in
    let e = parsed-ok bad_version (parse_version m.version) p in
    (
      find_artifact-Offers os arch m.artifacts n.1,
      (next, e, may_move current next now (parse_version_lem m.version e).0 c b.0 n.0),
    )
