-- ===== src/Approvals/LateGrants/OneShot.antt =====
-- A late approval lets one request through, once.
use wanctl.Prelude.{
  ◌≢◌, ℕ, ◌≡◌, refl, sym, ap, subst, ◌∙◌, inl, inr, Bool, none, some, ltb, filter, Option-cases,
}
use wanctl.Bytes.{Text}
use wanctl.Policy.{Request}
use wanctl.Approvals.LateGrants.{LateGrant, LateGrants, prune}
use wanctl.Approvals.LateGrants.Store.{
  spend, find_in, find, take, use_late_grant, unhandled, late_approved,
}
use wanctl.Approvals.LateGrants.Lookup.{find_in-filter, find_in-spent, without}
use wanctl.Approvals.LateGrants.Found.{
  Looks, wanted_cwd, find-cases, use-none, use-some, settled-approved, late≢unhandled,
}
use wanctl.Approvals.LateGrants.Invariant.{prune-Inv, Inv}

take-left :
    (x : LateGrant) (later : ℕ) (g : LateGrants) → (take x later g).1 ≡ spend x.id (prune later g)
unfolding take
take-left x later g = refl

module _ (sha256 : Text → Text) (req : Request) where
  nothing-approved :
      (checks : Bool) (now later : ℕ) (g h : LateGrants)
      → find sha256 req now g ≡ (none, h)
      → (use_late_grant sha256 req checks now later g).0 ≢ late_approved
  nothing-approved checks now later g h e a =
      late≢unhandled (sym a ∙ ap (λ r. r.0) (use-none sha256 req checks now later g h e))

  -- Once the grant is spent, nothing is left that releases the request.
  spent_look :
      (now later again : ℕ) (g : LateGrants) (key cwd : Text) (x : LateGrant)
      → Inv g
      → find_in req.kind req.peer key cwd (prune now g).grants ≡ some x
      → find_in req.kind req.peer key cwd
          (prune again (spend x.id (prune later (prune now g)))).grants
        ≡ none
  unfolding prune spend
  spent_look now later again g key cwd x i h =
      find_in-filter req.kind req.peer key cwd (λ y. ltb again y.expires)
        (without req.kind req.peer key cwd x
          (filter (λ y. ltb later y.expires) (prune now g).grants))
        (find_in-spent req.kind req.peer key cwd (λ y. ltb later y.expires) x (prune now g).grants
          (Inv.distinct (prune-Inv now g i)) h)

  again_unhandled :
      (checks : Bool) (now later : ℕ) (g : LateGrants) (key : Text)
      → Looks sha256 req key
      → find_in req.kind req.peer key (wanted_cwd sha256 req) (prune now g).grants ≡ none
      → (use_late_grant sha256 req checks now later g).0 ≡ unhandled
  again_unhandled checks now later g key look n =
      ap (λ r. r.0)
        (use-none sha256 req checks now later g (prune now g)
          (look now g ∙ ap (λ o. (o, prune now g)) n))

  use-left :
      (checks : Bool) (now later : ℕ) (g : LateGrants) (x : LateGrant)
      → find sha256 req now g ≡ (some x, prune now g)
      → (use_late_grant sha256 req checks now later g).0 ≡ late_approved
      → (use_late_grant sha256 req checks now later g).1 ≡ spend x.id (prune later (prune now g))
  use-left checks now later g x e a =
      let used = use-some sha256 req checks now later g (prune now g) x e in
      ap (λ r. r.1) used
      ∙ settled-approved sha256 req checks (take x later (prune now g)) (prune now g)
          (sym (ap (λ r. r.0) used) ∙ a)
      ∙ take-left x later (prune now g)

  -- From a store that keeps its invariant: when a late approval lets a request through, the same
  -- request made again, at any times, is not let through by a late approval.
  pub one_use :
      (checks again_checks : Bool) (now later again again_later : ℕ) (g : LateGrants)
      → Inv g
      → (use_late_grant sha256 req checks now later g).0 ≡ late_approved
      → (use_late_grant sha256 req again_checks again again_later
          (use_late_grant sha256 req checks now later g).1).0
        ≡ unhandled
  one_use checks again_checks now later again again_later g i a = elim (find-cases sha256 req) [
    | inl no_look ↦ absurd (nothing-approved checks now later g g (no_look now g) a)
    | inr (key, look) ↦
        elim (Option-cases
          (find_in req.kind req.peer key (wanted_cwd sha256 req) (prune now g).grants)) [
            | inl n ↦ absurd (
                nothing-approved checks now later g (prune now g)
                  (look now g ∙ ap (λ o. (o, prune now g)) n) a)
            | inr (x, h) ↦
                subst
                  (λ l. (use_late_grant sha256 req again_checks again again_later l).0 ≡ unhandled)
                  (sym
                    (use-left checks now later g x (look now g ∙ ap (λ o. (o, prune now g)) h) a))
                  (again_unhandled again_checks again again_later
                    (spend x.id (prune later (prune now g))) key look
                    (spent_look now later again g key (wanted_cwd sha256 req) x i h))
          ]
  ]
