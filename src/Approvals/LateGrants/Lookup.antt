-- ===== src/Approvals/LateGrants/Lookup.antt =====
-- Looking through the grants for one that releases a request.
use wanctl.Prelude.{
  ◌≡◌, refl, sym, ap, subst, ◌∙◌, inl, inr, Bool, true, false, not, none, some, List, [], ◌∷◌,
  arith, ◌==◌, filter, All, Bool-cases, ==_iff, false≢true,
}
use wanctl.Bytes.{Text}
use wanctl.Bytes.Laws.{text_eq→eq}
use wanctl.Policy.{Kind}
use wanctl.Policy.Engine.Matching.{kind_eq→eq}
use wanctl.Approvals.LateGrants.{LateGrant, same_grant}
use wanctl.Approvals.LateGrants.Store.{find_in}
use wanctl.Approvals.LateGrants.Invariant.{same_as, Distinct}

module _ (kind : Kind) (fp key cwd : Text) where
  same_grant-fields :
      (x : LateGrant)
      → same_grant kind fp key cwd x ≡ true
      → (x.kind ≡ kind) × (x.fp ≡ fp) × (x.key ≡ key) × (x.cwd ≡ cwd)
  unfolding same_grant
  same_grant-fields x h = (
    kind_eq→eq x.kind kind (ground arith),
    text_eq→eq x.fp fp (ground arith),
    text_eq→eq x.key key (ground arith),
    text_eq→eq x.cwd cwd (ground arith),
  )

  -- A grant that releases the request makes every other grant's test for it the request's own.
  same_as-request :
      (x y : LateGrant)
      → same_grant kind fp key cwd y ≡ true
      → same_as y x ≡ same_grant kind fp key cwd x
  same_as-request x y h =
      let (k, f, e, c) = same_grant-fields y h in
      ap (λ z. same_grant z y.fp y.key y.cwd x) k
      ∙ ap (λ z. same_grant kind z y.key y.cwd x) f
      ∙ ap (λ z. same_grant kind fp z y.cwd x) e
      ∙ ap (λ z. same_grant kind fp key z x) c

  pub find_in-filter :
      (p : LateGrant → Bool) (xs : List LateGrant)
      → find_in kind fp key cwd xs ≡ none
      → find_in kind fp key cwd (filter p xs) ≡ none
  unfolding find_in filter
  find_in-filter p [] h = h
  find_in-filter p (x ∷ xs) h = ground (arith, find_in-filter p xs)

  -- Where one grant releases the request, no other one does.
  find_in-others :
      (x : LateGrant) (xs : List LateGrant)
      → same_grant kind fp key cwd x ≡ true
      → All (λ y. same_as y x ≡ false) xs
      → find_in kind fp key cwd xs ≡ none
  unfolding find_in
  find_in-others x [] h a = refl
  find_in-others x (y ∷ xs) h a = elim (Bool-cases (same_grant kind fp key cwd y)) [
    | inl e ↦ absurd (false≢true (sym a.0 ∙ same_as-request x y e ∙ h))
    | inr e ↦ rw e (find_in-others x xs h a.1)
  ]

  abbrev pub without : LateGrant → List LateGrant → List LateGrant
  without x xs = filter (λ y. not (y.id == x.id)) xs

  find_in-without :
      (x : LateGrant) (p : LateGrant → Bool) (xs : List LateGrant)
      → find_in kind fp key cwd xs ≡ none
      → find_in kind fp key cwd (without x (filter p xs)) ≡ none
  find_in-without x p xs h =
      find_in-filter (λ y. not (y.id == x.id)) (filter p xs) (find_in-filter p xs h)

  without-same : (x : LateGrant) (xs : List LateGrant) → without x (x ∷ xs) ≡ without x xs
  unfolding filter
  without-same x xs = rw ((==_iff x.id x.id).1 refl) refl

  find_in-without_cons :
      (x y : LateGrant) (xs : List LateGrant)
      → same_grant kind fp key cwd y ≡ false
      → find_in kind fp key cwd (without x xs) ≡ none
      → find_in kind fp key cwd (without x (y ∷ xs)) ≡ none
  unfolding find_in filter
  find_in-without_cons x y xs e h = elim (Bool-cases (y.id == x.id)) [
    | inl i ↦ rw i h
    | inr i ↦ rw (i, e) h
  ]

  -- The one grant that releases the request is the one found: without it nothing releases it.
  pub find_in-spent :
      (p : LateGrant → Bool) (x : LateGrant) (xs : List LateGrant)
      → Distinct xs
      → find_in kind fp key cwd xs ≡ some x
      → find_in kind fp key cwd (without x (filter p xs)) ≡ none
  unfolding filter find_in
  find_in-spent p x [] d h = absurd (ground arith)
  find_in-spent p x (y ∷ xs) d h = elim (Bool-cases (same_grant kind fp key cwd y)) [
    | inl e ↦
        let same : x ≡ y = ground arith in
        let gone = find_in-without x p xs (find_in-others y xs e d.0) in
        elim (Bool-cases (p y)) [
          | inl k ↦ rw k (
              subst (λ z. find_in kind fp key cwd (without x (z ∷ filter p xs)) ≡ none) same
                (subst (λ l. find_in kind fp key cwd l ≡ none) (sym (without-same x (filter p xs)))
                  gone))
          | inr k ↦ rw k gone
        ]
    | inr e ↦
        let gone = find_in-spent p x xs d.1 (ground arith) in
        elim (Bool-cases (p y)) [
          | inl k ↦ rw k (find_in-without_cons x y (filter p xs) e gone)
          | inr k ↦ rw k gone
        ]
  ]
