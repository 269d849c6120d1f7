-- ===== src/Release/Version/Order.antt =====
-- The comparison of versions as texts is that of the numbers they stand for.
use wanctl.Prelude.{
  ℕ, ◌+◌, ◌-◌, ◌*◌, ◌≤◌, ◌<◌, ◌≡◌, ◌↔◌, ◌⊎◌, inl, inr, refl, arith, All, true, Option, none, some,
  [], ◌∷◌, ltb, if◌then◌else◌, length, ℤ, pos, negsuc,
}
use wanctl.Bytes.{Text}
use wanctl.Release.Version.{
  Version, positive, number, compare_text, compare_number, or_else, compare_beta, compare_version,
}

-- The number that a text of digits stands for.
abbrev pub value_from : ℕ → Text → ℕ
value_from acc [] = acc
value_from acc (c ∷ s) = value_from (acc * 10 + (c - b'0')) s

abbrev pub Digit : ℕ → Type 0
Digit c = (b'0' ≤ c) × (c ≤ b'9')

-- A decimal number with no leading zero.
pub record IsNumber (s : Text) : Type 0 where
  pub all_digits : All Digit s
  pub canonical : number s ≡ true

abbrev pub sign : ℕ → ℕ → ℤ
sign a b = if ltb a b then negsuc 0 else if ltb b a then pos 1 else pos 0

le-value_from : (acc : ℕ) (s : Text) → acc ≤ value_from acc s
le-value_from acc [] = omega arith
le-value_from acc (c ∷ s) = omega (arith, le-value_from (acc * 10 + (c - b'0')) s)

-- A shorter text with a smaller number in front stands for a smaller number.
value_from-lt :
    (a b : ℕ) (s t : Text)
    → All Digit s
    → length s ≤ length t
    → a < b
    → value_from a s < value_from b t
value_from-lt a b [] t ds l h = omega (arith, le-value_from b t)
value_from-lt a b (c ∷ s) [] ds l h = absurd (omega arith)
value_from-lt a b (c ∷ s) (d ∷ t) ds l h =
    value_from-lt (a * 10 + (c - b'0')) (b * 10 + (d - b'0')) s t ds.1 (omega arith) (omega arith)

compare_text-value :
    (acc : ℕ) (s t : Text)
    → All Digit s
    → All Digit t
    → length s ≡ length t
    → compare_text s t ≡ sign (value_from acc s) (value_from acc t)
unfolding compare_text
compare_text-value acc [] [] ds dt l = ground arith
compare_text-value acc [] (d ∷ t) ds dt l = absurd (omega arith)
compare_text-value acc (c ∷ s) [] ds dt l = absurd (omega arith)
compare_text-value acc (c ∷ s) (d ∷ t) ds dt l = ground (
  arith,
  value_from-lt (acc * 10 + (c - b'0')) (acc * 10 + (d - b'0')) s t ds.1,
  value_from-lt (acc * 10 + (d - b'0')) (acc * 10 + (c - b'0')) t s dt.1,
  compare_text-value (acc * 10 + (c - b'0')) s t ds.1 dt.1,
)

-- Where the second text is longer, its number is larger.
shorter-lt :
    (s t : Text) → IsNumber s → IsNumber t → length s < length t → value_from 0 s < value_from 0 t
unfolding number positive
shorter-lt s [] n m l = absurd (omega arith)
shorter-lt [] (d ∷ t) n m l = absurd (cc (n.canonical))
shorter-lt (c ∷ s) (d ∷ t) n m l =
    let first : 0 < 0 + (d - b'0') = ground arith in
    value_from-lt 0 (0 + (d - b'0')) (c ∷ s) t n.all_digits (omega arith) first

pub compare_number-value :
    (s t : Text)
    → IsNumber s
    → IsNumber t
    → compare_number s t ≡ sign (value_from 0 s) (value_from 0 t)
unfolding compare_number
compare_number-value s t n m = ground (
  arith,
  shorter-lt s t n m,
  shorter-lt t s m n,
  compare_text-value 0 s t n.all_digits m.all_digits,
)

-- What a version stands for.
pub record Numbers : Type 0 where
  pub major : ℕ
  pub minor : ℕ
  pub patch : ℕ
  pub beta : Option ℕ

abbrev pub beta_of : Text → Option ℕ
beta_of [] = none
beta_of (c ∷ s) = some (value_from 0 (c ∷ s))

abbrev pub numbers_of : Version → Numbers
numbers_of v = record {
  major = value_from 0 v.major;
  minor = value_from 0 v.minor;
  patch = value_from 0 v.patch;
  beta = beta_of v.beta;
}

-- A beta comes before the release of its number, and betas are in the order of their numbers.
abbrev pub EarlierBeta : Option ℕ → Option ℕ → Type 0
EarlierBeta none b = ⊥
EarlierBeta (some m) none = Unit
EarlierBeta (some m) (some n) = m < n

abbrev pub Older : Numbers → Numbers → Type 0
Older v w =
    (v.major < w.major)
    ⊎ ((v.major ≡ w.major)
        × ((v.minor < w.minor)
            ⊎ ((v.minor ≡ w.minor)
                × ((v.patch < w.patch) ⊎ ((v.patch ≡ w.patch) × EarlierBeta v.beta w.beta)))))

-- Every part of a version that parses is a number, and the beta may be missing.
pub record IsVersion (v : Version) : Type 0 where
  pub major_number : IsNumber v.major
  pub minor_number : IsNumber v.minor
  pub patch_number : IsNumber v.patch
  pub beta_number : (v.beta ≡ []) ⊎ IsNumber v.beta

abbrev sign_beta : Option ℕ → Option ℕ → ℤ
sign_beta none none = pos 0
sign_beta none (some n) = pos 1
sign_beta (some m) none = negsuc 0
sign_beta (some m) (some n) = sign m n

compare_beta-value :
    (s t : Text)
    → (s ≡ []) ⊎ IsNumber s
    → (t ≡ []) ⊎ IsNumber t
    → compare_beta s t ≡ sign_beta (beta_of s) (beta_of t)
unfolding compare_beta compare_number compare_text
compare_beta-value [] [] n m = refl
compare_beta-value [] (d ∷ t) n m = refl
compare_beta-value (c ∷ s) [] n m = refl
compare_beta-value (c ∷ s) (d ∷ t) (inl e) m = cc
compare_beta-value (c ∷ s) (d ∷ t) (inr n) (inl e) = cc
compare_beta-value (c ∷ s) (d ∷ t) (inr n) (inr m) = compare_number-value (c ∷ s) (d ∷ t) n m

-- A part that differs decides, and one that does not leaves the decision to the parts below it.
part-decides :
    {L G : Type 0} (a b : ℕ) (r : ℤ)
    → (r ≡ negsuc 0) ↔ L
    → (r ≡ pos 1) ↔ G
    → ((or_else (sign a b) r ≡ negsuc 0) ↔ ((a < b) ⊎ ((a ≡ b) × L)))
      × ((or_else (sign a b) r ≡ pos 1) ↔ ((b < a) ⊎ ((b ≡ a) × G)))
part-decides a b r l g = ground arith

beta-decides :
    (p q : Option ℕ)
    → ((sign_beta p q ≡ negsuc 0) ↔ EarlierBeta p q) × ((sign_beta p q ≡ pos 1) ↔ EarlierBeta q p)
beta-decides none none = ground arith
beta-decides none (some n) = ground arith
beta-decides (some m) none = ground arith
beta-decides (some m) (some n) = ground arith

-- For versions whose parts are decimal numbers with no leading zero, of any length: the comparison
-- of the texts is -1 exactly where the first version is older as numbers, part by part with a beta
-- before its release, and 1 exactly where the second is.
pub compare_version-Older :
    (v w : Version)
    → IsVersion v
    → IsVersion w
    → ((compare_version v w ≡ negsuc 0) ↔ Older (numbers_of v) (numbers_of w))
      × ((compare_version v w ≡ pos 1) ↔ Older (numbers_of w) (numbers_of v))
unfolding compare_version
compare_version-Older v w i j =
    let b = beta-decides (beta_of v.beta) (beta_of w.beta) in
    let p = part-decides (value_from 0 v.patch) (value_from 0 w.patch) _ b.0 b.1 in
    let n = part-decides (value_from 0 v.minor) (value_from 0 w.minor) _ p.0 p.1 in
    rw
      (
        compare_number-value v.major w.major i.major_number j.major_number,
        compare_number-value v.minor w.minor i.minor_number j.minor_number,
        compare_number-value v.patch w.patch i.patch_number j.patch_number,
        compare_beta-value v.beta w.beta i.beta_number j.beta_number,
      )
      (part-decides (value_from 0 v.major) (value_from 0 w.major) _ n.0 n.1)

abbrev pub Small : ℤ → Type 0
Small r = (r ≡ negsuc 0) ⊎ ((r ≡ pos 0) ⊎ (r ≡ pos 1))

part-Small : (a b : ℕ) (r : ℤ) → Small r → Small (or_else (sign a b) r)
part-Small a b r h = ground arith

beta-Small : (p q : Option ℕ) → Small (sign_beta p q)
beta-Small none none = ground arith
beta-Small none (some n) = ground arith
beta-Small (some m) none = ground arith
beta-Small (some m) (some n) = ground arith

pub compare_version-Small :
    (v w : Version) → IsVersion v → IsVersion w → Small (compare_version v w)
unfolding compare_version
compare_version-Small v w i j =
    rw
      (
        compare_number-value v.major w.major i.major_number j.major_number,
        compare_number-value v.minor w.minor i.minor_number j.minor_number,
        compare_number-value v.patch w.patch i.patch_number j.patch_number,
        compare_beta-value v.beta w.beta i.beta_number j.beta_number,
      )
      (part-Small (value_from 0 v.major) (value_from 0 w.major) _ (
        part-Small (value_from 0 v.minor) (value_from 0 w.minor) _ (
          part-Small (value_from 0 v.patch) (value_from 0 w.patch) _
            (beta-Small (beta_of v.beta) (beta_of w.beta)))))
