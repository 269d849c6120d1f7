-- ===== src/Approvals/LateGrants/Scripts.antt =====
-- A late approval of a script is bound to the whole script that was asked about.
use wanctl.Prelude.{
  ◌≡◌, refl, sym, subst, ◌∙◌, inl, inr, Bool, true, false, ◌&&◌, ◌||◌, not, List, [], ◌∷◌, arith,
  if◌then◌else◌, All, Bool-cases, false≢true,
}
use wanctl.Bytes.{Text, text_eq, is_empty}
use wanctl.Bytes.Laws.{text_eq→eq}
use wanctl.Policy.{Kind, kind_eq}
use wanctl.Approvals.LateGrants.{
  AskedScript, Result, ok, err, many_scripts, resolve_from, resolve, ◌>>=◌,
}

ok_inj : (x y : Text) → ok x ≡ ok y → x ≡ y
ok_inj x y e = ground arith

module _ (kind : Kind) (fp label : Text) where
  -- The card of the script showed this label, to this controller.
  abbrev pub named : AskedScript → Bool
  named s = kind_eq s.kind kind && (text_eq s.fp fp && text_eq s.label label)

  skipped :
      (s : AskedScript)
      → named s ≡ false
      → (not (kind_eq s.kind kind) || (not (text_eq s.fp fp) || not (text_eq s.label label))) ≡ true
  skipped s h = ground arith

  used :
      (s : AskedScript)
      → named s ≡ true
      → (not (kind_eq s.kind kind) || (not (text_eq s.fp fp) || not (text_eq s.label label)))
        ≡ false
  used s h = ground arith

  step-skip :
      (token : Text) (s : AskedScript) (ss : List AskedScript)
      → named s ≡ false
      → resolve_from kind fp label token (s ∷ ss) ≡ resolve_from kind fp label token ss
  unfolding resolve_from
  step-skip token s ss h = rw (skipped s h) refl

  step-many :
      (token : Text) (s : AskedScript) (ss : List AskedScript)
      → named s ≡ true
      → (not (is_empty token) && not (text_eq token s.token)) ≡ true
      → resolve_from kind fp label token (s ∷ ss) ≡ err many_scripts
  unfolding resolve_from
  step-many token s ss h m = rw (used s h, m) refl

  step-found :
      (token : Text) (s : AskedScript) (ss : List AskedScript)
      → named s ≡ true
      → (not (is_empty token) && not (text_eq token s.token)) ≡ false
      → resolve_from kind fp label token (s ∷ ss) ≡ resolve_from kind fp label s.token ss
  unfolding resolve_from
  step-found token s ss h m = rw (used s h, m) refl

  resolve_from-All :
      (token t : Text) (ss : List AskedScript)
      → All (λ (s : AskedScript). is_empty s.token ≡ false) ss
      → resolve_from kind fp label token ss ≡ ok t
      → (is_empty token ≡ false → t ≡ token) × All (λ s. named s ≡ true → s.token ≡ t) ss
  unfolding resolve_from
  resolve_from-All token t [] a h = (λ e. sym (ok_inj token t h), tt)
  resolve_from-All token t (s ∷ ss) a h = elim (Bool-cases (named s)) [
    | inr n ↦
        let (k, r) = resolve_from-All token t ss a.1 (sym (step-skip token s ss n) ∙ h) in
        (k, (λ m. absurd (false≢true (sym n ∙ m)), r))
    | inl n ↦ elim (Bool-cases (not (is_empty token) && not (text_eq token s.token))) [
      | inl m ↦ absurd (err_ok (sym (step-many token s ss n m) ∙ h))
      | inr m ↦
          let (k, r) = resolve_from-All s.token t ss a.1 (sym (step-found token s ss n m) ∙ h) in
          (λ e. k a.0 ∙ sym (text_eq→eq token s.token (ground arith)), (λ _. sym (k a.0), r))
    ]
  ]
    where
      err_ok : {x : Text} → err many_scripts ≡ ok x → ⊥
      err_ok e = absurd (ground arith)

  key_of :
      (s t key : Text)
      → is_empty s ≡ false
      → s ≡ t
      → ok (if is_empty t then label else t) ≡ ok key
      → s ≡ key
  key_of s t key n e h =
      e
      ∙ ok_inj t key (
          subst (λ b. ok (if b then label else t) ≡ ok key) (subst (λ x. is_empty x ≡ false) e n) h)

  chosen :
      (t key : Text) (ss : List AskedScript)
      → All (λ (s : AskedScript). is_empty s.token ≡ false) ss
      → ok (if is_empty t then label else t) ≡ ok key
      → All (λ s. named s ≡ true → s.token ≡ t) ss
      → All (λ s. named s ≡ true → s.token ≡ key) ss
  chosen t key [] a e r = tt
  chosen t key (s ∷ ss) a e r =
      ((λ n. key_of s.token t key a.0 (r.0 n) e), chosen t key ss a.1 e r.1)

  -- Where a label is resolved to a key, and no token is empty, every script that was asked about
  -- under the label has the key as its token: two scripts of one label are refused.
  pub resolve-All :
      (key : Text) (ss : List AskedScript)
      → All (λ (s : AskedScript). is_empty s.token ≡ false) ss
      → resolve kind fp label ss ≡ ok key
      → All (λ s. named s ≡ true → s.token ≡ key) ss
  unfolding resolve
  resolve-All key ss a h = by_token (resolve_from kind fp label [] ss) refl h
    where
      by_token :
          (r : Result Text)
          → resolve_from kind fp label [] ss ≡ r
          → (r >>= λ token. ok (if is_empty token then label else token)) ≡ ok key
          → All (λ s. named s ≡ true → s.token ≡ key) ss
      by_token (err e) q h = absurd (ground arith)
      by_token (ok t) q h = chosen t key ss a h (resolve_from-All [] t ss a q).1

  -- A label that names no script asked about stays as it is.
  resolve-unnamed :
      (token : Text) (ss : List AskedScript)
      → All (λ s. named s ≡ false) ss
      → resolve_from kind fp label token ss ≡ ok token
  unfolding resolve_from
  resolve-unnamed token [] a = refl
  resolve-unnamed token (s ∷ ss) a = step-skip token s ss a.0 ∙ resolve-unnamed token ss a.1
