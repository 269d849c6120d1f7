-- ===== src/Approvals/LateGrants/Operations.antt =====
-- The operations of the store of late grants make only the single changes that keep its invariant.
use wanctl.Prelude.{
  ℕ, ◌+◌, ◌≡◌, refl, sym, subst, inl, inr, ◌⊎◌, Bool, true, false, Option, none, some, [],
  if◌then◌else◌, arith,
}
use wanctl.Bytes.{Text}
use wanctl.Policy.{Kind, Request}
use wanctl.Approvals.LateGrants.{
  LateGrant, LateGrants, Result, InstallError, ok, err, install_key, prune,
}
use wanctl.Approvals.LateGrants.Store.{
  check_request, install_checked, install, asked, find, take, use_late_grant,
}
use wanctl.Approvals.LateGrants.Found.{find-cases, use-none, use-some, settled}
use wanctl.Approvals.LateGrants.Invariant.{
  Inv, Reach, here, next, pruned, granted, recorded, spent, Reach-Inv,
}

abbrev pub empty_store : LateGrants
empty_store = record { grants = []; scripts = []; next_id = 0 }

empty-Inv : Inv empty_store
empty-Inv = record {
  distinct = tt;
  issued = tt;
  few_grants = omega arith;
  few_scripts = omega arith;
}

Result-cases :
    {A : Type 0} (r : Result A) → ((e : InstallError) × (r ≡ err e)) ⊎ ((a : A) × (r ≡ ok a))
Result-cases (ok a) = inr (a, refl)
Result-cases (err e) = inl (e, refl)

trans : {g h k : LateGrants} → Reach g h → Reach h k → Reach g k
trans r here = r
trans r (next s t) = next (trans r s) t

install_checked-Reach :
    (kind : Kind) (label fp dir : Text) (expires : ℕ) (g : LateGrants)
    → Reach g (install_checked kind label fp dir expires g).1
unfolding install_checked
install_checked-Reach kind label fp dir expires g =
    elim (Result-cases (install_key kind fp label g.scripts)) [
      | inl (e, h) ↦ rw (h, install_checked) here
      | inr (key, h) ↦ rw (h, install_checked) (next here (granted kind fp key dir expires))
    ]

install-Reach :
    (kind : Kind) (label fp approver cwd : Text) (window now : ℕ) (g : LateGrants)
    → Reach g (install kind label fp approver cwd window now g).1
unfolding install
install-Reach kind label fp approver cwd window now g =
    elim (Result-cases (check_request kind label fp approver cwd)) [
      | inl (e, h) ↦ rw (h, install) here
      | inr (dir, h) ↦
          rw (h, install)
            (trans (next here (pruned now))
              (install_checked-Reach kind label fp dir (now + window) (prune now g)))
    ]

module _ (sha256 : Text → Text) (req : Request) where
  asked-Reach : (now : ℕ) (g : LateGrants) → Reach g (asked sha256 req now g)
  unfolding asked
  asked-Reach now g =
      choose _ _ here (choose _ _ here (next (next here (pruned now)) (recorded _ _ _ _ now)))
    where
      choose :
          (b : Bool) (x : LateGrants) {y : LateGrants}
          → Reach g x
          → Reach g y
          → Reach g (if b then x else y)
      choose true x r s = r
      choose false x r s = s

  find-Reach : (now : ℕ) (g : LateGrants) → Reach g (find sha256 req now g).1
  unfolding find
  find-Reach now g = elim (find-cases sha256 req) [
    | inl no_look ↦ subst (λ r. Reach g r.1) (sym (no_look now g)) here
    | inr (key, look) ↦ subst (λ r. Reach g r.1) (sym (look now g)) (next here (pruned now))
  ]

  take-Reach : (grant : LateGrant) (now : ℕ) (g : LateGrants) → Reach g (take grant now g).1
  unfolding take
  take-Reach grant now g = next (next here (pruned now)) (spent grant.id)

  settled-Reach :
      {g : LateGrants} (checks : Bool) (taken : Bool × LateGrants) (h : LateGrants)
      → Reach g h
      → Reach h taken.1
      → Reach g (settled sha256 req checks taken h).1
  unfolding settled
  settled-Reach true (true, left) h r s = trans r s
  settled-Reach true (false, left) h r s = trans r s
  settled-Reach false (gone, left) h r s = r

  use-Reach :
      (checks : Bool) (now later : ℕ) (g : LateGrants)
      → Reach g (use_late_grant sha256 req checks now later g).1
  unfolding use_late_grant
  use-Reach checks now later g = use_found (find sha256 req now g) refl (find-Reach now g)
    where
      use_found :
          (r : Option LateGrant × LateGrants)
          → find sha256 req now g ≡ r
          → Reach g r.1
          → Reach g (use_late_grant sha256 req checks now later g).1
      use_found (none, h) e r =
          subst (λ r. Reach g r.1) (sym (use-none sha256 req checks now later g h e)) r
      use_found (some x, h) e r =
          subst (λ r. Reach g r.1) (sym (use-some sha256 req checks now later g h x e))
            (settled-Reach checks (take x later h) h r (take-Reach x later h))

-- What the agent does to its store, from the empty one.
pub data Used (sha256 : Text → Text) : LateGrants → Type 0 where
  fresh : Used sha256 empty_store
  installed :
      {g : LateGrants} (kind : Kind) (label fp approver cwd : Text) (window now : ℕ)
      → Used sha256 g
      → Used sha256 (install kind label fp approver cwd window now g).1
  asked_about :
      {g : LateGrants} (req : Request) (now : ℕ)
      → Used sha256 g
      → Used sha256 (asked sha256 req now g)
  used :
      {g : LateGrants} (req : Request) (checks : Bool) (now later : ℕ)
      → Used sha256 g
      → Used sha256 (use_late_grant sha256 req checks now later g).1

-- Whatever is installed, asked about and used, the store keeps at most 32 grants and 64 scripts,
-- and no two grants release the same request.
pub Used-Inv : (sha256 : Text → Text) (g : LateGrants) → Used sha256 g → Inv g
Used-Inv sha256 _ fresh = empty-Inv
Used-Inv sha256 _ (installed {g} kind label fp approver cwd window now u) =
    Reach-Inv (Used-Inv sha256 g u) (install-Reach kind label fp approver cwd window now g)
Used-Inv sha256 _ (asked_about {g} req now u) =
    Reach-Inv (Used-Inv sha256 g u) (asked-Reach sha256 req now g)
Used-Inv sha256 _ (used {g} req checks now later u) =
    Reach-Inv (Used-Inv sha256 g u) (use-Reach sha256 req checks now later g)
