-- ===== src/Release/Version/Parsed.antt =====
-- What `parseVersion` accepts: numbers with no leading zero.
use wanctl.Prelude.{
  append-nil, ap₂, ◌∙◌, some-injective, sym, ap, subst, ◌≡◌, ◌⊎◌, inl, inr, refl, arith, All, true,
  none, some, [], ◌∷◌, ◌++◌, ◌&&◌, Bool-cases, if◌then◌else◌, >>=-eq-some,
}
use wanctl.Bytes.{Text, codes, cut_prefix, is_empty}
use wanctl.Bytes.Laws.{cut_prefix-split}
use wanctl.Release.Version.{
  Version, is_digit, positive, number, digits, take_number, take_beta, parse_version,
}
use wanctl.Release.Version.Order.{Digit, IsNumber, IsVersion}

digits-Digit : (s : Text) → All Digit (digits s).0
unfolding digits
digits-Digit [] = tt
digits-Digit (c ∷ s) = elim (Bool-cases (is_digit c)) [
  | inl e ↦ rw e (unfold is_digit in ground arith, digits-Digit s)
  | inr e ↦ rw e tt
]

digits-append : (s : Text) → (digits s).0 ++ (digits s).1 ≡ s
unfolding digits
digits-append [] = refl
digits-append (c ∷ s) = elim (Bool-cases (is_digit c)) [
  | inl e ↦ rw e (ap (λ l. c ∷ l) (digits-append s))
  | inr e ↦ rw e refl
]

-- A text of digits that is captured, and what follows it.
take_number_lem :
    (s ds rest : Text) → take_number s ≡ some (ds, rest) → IsNumber ds × (s ≡ ds ++ rest)
unfolding take_number
take_number_lem s ds rest h =
    let parts : (number ds ≡ true) × ((digits s).0 ≡ ds) × ((digits s).1 ≡ rest) = ground arith in
    (
      record { all_digits = subst (All Digit) parts.1 (digits-Digit s); canonical = parts.0 },
      sym (digits-append s) ∙ ap₂ (λ a b. a ++ b) parts.1 parts.2,
    )

abbrev pub beta_suffix : Text → Text
beta_suffix [] = []
beta_suffix (c ∷ s) = codes "-beta." ++ c ∷ s

positive-number : (s : Text) → positive s ≡ true → number s ≡ true
unfolding number
positive-number s h = ground arith

is_empty→nil : (s : Text) → is_empty s ≡ true → s ≡ []
is_empty→nil [] h = refl
is_empty→nil (c ∷ s) h = cc

beta_suffix-positive : (b : Text) → positive b ≡ true → beta_suffix b ≡ codes "-beta." ++ b
unfolding positive
beta_suffix-positive [] h = cc
beta_suffix-positive (c ∷ b) h = refl

-- The number of a beta takes all that follows the word.
beta_parts :
    (s rest b : Text)
    → s ≡ codes "-beta." ++ rest
    → (if positive (digits rest).0 && is_empty (digits rest).1 then some (digits rest).0 else none)
      ≡ some b
    → ((b ≡ []) ⊎ IsNumber b) × (s ≡ beta_suffix b)
beta_parts s rest b cut h =
    let parts : (positive b ≡ true) × ((digits rest).0 ≡ b) × ((digits rest).1 ≡ []) =
      (ground arith, ground arith, is_empty→nil _ (ground arith)) in
    let whole : rest ≡ b =
      sym (digits-append rest) ∙ ap₂ (λ x y. x ++ y) parts.1 parts.2 ∙ append-nil b in
    (
      inr (record {
        all_digits = subst (All Digit) parts.1 (digits-Digit rest);
        canonical = positive-number b parts.0;
      }),
      cut ∙ ap (λ l. codes "-beta." ++ l) whole ∙ sym (beta_suffix-positive b parts.0),
    )

take_beta_lem : (s b : Text) → take_beta s ≡ some b → ((b ≡ []) ⊎ IsNumber b) × (s ≡ beta_suffix b)
unfolding take_beta
take_beta_lem [] b h =
    subst (λ t. ((t ≡ []) ⊎ IsNumber t) × ([] ≡ beta_suffix t)) (some-injective h) (inl refl, refl)
take_beta_lem (c ∷ s) b h =
    let (rest, cut, e) = >>=-eq-some (cut_prefix (c ∷ s) (codes "-beta.")) _ h in
    beta_parts (c ∷ s) rest b (cut_prefix-split (c ∷ s) (codes "-beta.") cut) e

-- A version as text.
abbrev pub version_text : Version → Text
version_text v =
    codes "v"
    ++ (v.major ++ (codes "." ++ (v.minor ++ (codes "." ++ (v.patch ++ beta_suffix v.beta)))))

assemble :
    (s s0 a r1 s2 b r3 s4 c r5 t : Text)
    → s ≡ codes "v" ++ s0
    → s0 ≡ a ++ r1
    → r1 ≡ codes "." ++ s2
    → s2 ≡ b ++ r3
    → r3 ≡ codes "." ++ s4
    → s4 ≡ c ++ r5
    → r5 ≡ beta_suffix t
    → s ≡ version_text (record { major = a; minor = b; patch = c; beta = t })
assemble s s0 a r1 s2 b r3 s4 c r5 t e0 e1 e2 e3 e4 e5 e6 = cc

pub parse_version_lem :
    (s : Text) {v : Version} → parse_version s ≡ some v → IsVersion v × (s ≡ version_text v)
unfolding parse_version
parse_version_lem s h =
    let (s0, c0, h0) = >>=-eq-some (cut_prefix s (codes "v")) _ h in
    let (n1, t1, h1) = >>=-eq-some (take_number s0) _ h0 in
    let (s2, c2, h2) = >>=-eq-some (cut_prefix n1.1 (codes ".")) _ h1 in
    let (n3, t3, h3) = >>=-eq-some (take_number s2) _ h2 in
    let (s4, c4, h4) = >>=-eq-some (cut_prefix n3.1 (codes ".")) _ h3 in
    let (n5, t5, h5) = >>=-eq-some (take_number s4) _ h4 in
    let (b, t6, h6) = >>=-eq-some (take_beta n5.1) _ h5 in
    let m1 = take_number_lem s0 n1.0 n1.1 t1 in
    let m3 = take_number_lem s2 n3.0 n3.1 t3 in
    let m5 = take_number_lem s4 n5.0 n5.1 t5 in
    let m6 = take_beta_lem n5.1 b t6 in
    subst (λ u. IsVersion u × (s ≡ version_text u)) (some-injective h6)
      (
        record {
          major_number = m1.0;
          minor_number = m3.0;
          patch_number = m5.0;
          beta_number = m6.0;
        },
        assemble s s0 n1.0 n1.1 s2 n3.0 n3.1 s4 n5.0 n5.1 b (cut_prefix-split s (codes "v") c0) m1.1
            (cut_prefix-split n1.1 (codes ".") c2) m3.1 (cut_prefix-split n3.1 (codes ".") c4) m5.1
            m6.1,
      )
