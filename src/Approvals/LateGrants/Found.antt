-- ===== src/Approvals/LateGrants/Found.antt =====
-- What `find` and `useLateGrant` do, case by case.
use wanctl.Prelude.{
  ◌⊎◌, ℕ, ◌≡◌, refl, ap, inl, inr, Bool, true, false, ◌&&◌, not, none, some, [], arith,
  if◌then◌else◌, Bool-cases, Option-cases,
}
use wanctl.Bytes.{Text, is_empty}
use wanctl.Policy.{Request}
use wanctl.Approvals.LateGrants.{LateGrant, LateGrants, runs_command, grant_key, prune}
use wanctl.Approvals.LateGrants.Store.{
  find_in, find, take, use_late_grant, Decision, unhandled, inactive, late_approved,
}

pub late≢unhandled : ¬ (late_approved ≡ unhandled)
late≢unhandled e = absurd (ground arith)

module _ (sha256 : Text → Text) (req : Request) where
  -- The directory that a grant must name to release the request.
  abbrev pub wanted_cwd : Text
  wanted_cwd = if runs_command req.kind then req.cwd else []

  -- What stops `find` before it looks at the grants.
  abbrev pub unnamed : Bool
  unnamed = runs_command req.kind && is_empty req.cwd

  find-unnamed : (now : ℕ) (g : LateGrants) → unnamed ≡ true → find sha256 req now g ≡ (none, g)
  unfolding find
  find-unnamed now g b = rw b refl

  find-keyless :
      (now : ℕ) (g : LateGrants)
      → grant_key sha256 req.kind req ≡ none
      → find sha256 req now g ≡ (none, g)
  unfolding find
  find-keyless now g k = elim (Bool-cases unnamed) [ inl b ↦ rw b refl | inr b ↦ rw (b, k) refl ]

  find-peerless :
      (now : ℕ) (g : LateGrants) → is_empty req.peer ≡ true → find sha256 req now g ≡ (none, g)
  unfolding find
  find-peerless now g p = elim (Bool-cases unnamed) [
    | inl b ↦ rw b refl
    | inr b ↦ elim (Option-cases (grant_key sha256 req.kind req)) [
      | inl k ↦ rw (b, k) refl
      | inr (key, k) ↦ rw (b, k, p) refl
    ]
  ]

  find-looks :
      (now : ℕ) (g : LateGrants) (key : Text)
      → unnamed ≡ false
      → grant_key sha256 req.kind req ≡ some key
      → is_empty req.peer ≡ false
      → find sha256 req now g
        ≡ (find_in req.kind req.peer key wanted_cwd (prune now g).grants, prune now g)
  unfolding find
  find-looks now g key b k p = rw (b, k, p) refl

  -- The use of a grant, as soon as `find` is known.
  pub use-none :
      (checks : Bool) (now later : ℕ) (g h : LateGrants)
      → find sha256 req now g ≡ (none, h)
      → use_late_grant sha256 req checks now later g ≡ (unhandled, h)
  unfolding use_late_grant
  use-none checks now later g h e = rw (e, use_late_grant) (ap (λ r. (unhandled, r.1)) e)

  -- What an approval leaves, once `find` and `take` have answered.
  unfoldable pub settled : Bool → Bool × LateGrants → LateGrants → Decision × LateGrants
  settled checks taken h =
      let (gone, left) = taken in
      if not checks
      then (inactive, h)
      else if gone
      then (late_approved, left)
      else (unhandled, left)

  pub settled-approved :
      (checks : Bool) (taken : Bool × LateGrants) (h : LateGrants)
      → (settled checks taken h).0 ≡ late_approved
      → (settled checks taken h).1 ≡ taken.1
  unfolding settled
  settled-approved true (true, left) h e = refl
  settled-approved true (false, left) h e = refl
  settled-approved false (gone, left) h e = absurd (ground arith)

  pub use-some :
      (checks : Bool) (now later : ℕ) (g h : LateGrants) (x : LateGrant)
      → find sha256 req now g ≡ (some x, h)
      → use_late_grant sha256 req checks now later g ≡ settled checks (take x later h) h
  unfolding use_late_grant settled
  use-some checks now later g h x e =
      rw (e, use_late_grant) (ap (λ r. settled checks (take x later r.1) r.1) e)

  -- `find` always answers nothing before it looks, or it always looks for one key.
  abbrev pub Looks : Text → Type 0
  Looks key =
      (now : ℕ) (g : LateGrants)
      → find sha256 req now g
        ≡ (find_in req.kind req.peer key wanted_cwd (prune now g).grants, prune now g)

  pub find-cases :
      ((now : ℕ) (g : LateGrants) → find sha256 req now g ≡ (none, g)) ⊎ ((key : Text) × Looks key)
  find-cases = elim (Bool-cases unnamed) [
    | inl b ↦ inl (λ now g. find-unnamed now g b)
    | inr b ↦ elim (Option-cases (grant_key sha256 req.kind req)) [
      | inl k ↦ inl (λ now g. find-keyless now g k)
      | inr (key, k) ↦ elim (Bool-cases (is_empty req.peer)) [
        | inl p ↦ inl (λ now g. find-peerless now g p)
        | inr p ↦ inr (key, λ now g. find-looks now g key b k p)
      ]
    ]
  ]
