-- ===== src/Approvals/LateGrants/Store.antt =====
-- The operations on the store: `install`, `asked`, `find`, `take` and their use.
use wanctl.Prelude.{
  ℕ, suc, ◌+◌, Bool, ◌&&◌, not, Option, none, some, List, [], ◌∷◌, ◌++◌, ◌==◌, ltb, if◌then◌else◌,
  length, filter,
}
use wanctl.Bytes.{Text, text_eq, is_empty}
use wanctl.Policy.{Kind, kind_eq, Request}
use wanctl.Policy.Command.{command_pattern, command_label}
use wanctl.Trust.{valid_fingerprint}
use wanctl.Approvals.LateGrants.{
  max_late_grants, max_asked_scripts, LateGrant, AskedScript, LateGrants, Result, ok, err,
  bad_fingerprint, no_approver, ◌>>◌, runs_command, grant_key, prune, same_grant, check_label,
  check_cwd, install_key, make_room,
}

unfoldable pub put_grant : Kind → Text → Text → Text → ℕ → LateGrants → LateGrants
unfolding same_grant make_room
put_grant kind fp key cwd expires g =
    let others = filter (λ x. not (same_grant kind fp key cwd x)) g.grants in
    record g {
      grants =
          make_room max_late_grants others
          ++ record {
            id = g.next_id;
            kind = kind;
            fp = fp;
            cwd = cwd;
            key = key;
            expires = expires;
          }
            ∷ [];
      next_id = suc g.next_id;
    }

-- The checks of `install` that need no lock; the result is the directory that the grant names.
unfoldable pub check_request : Kind → Text → Text → Text → Text → Result Text
unfolding check_label valid_fingerprint check_cwd
check_request kind label fp approver cwd = do
  check_label kind label
  if valid_fingerprint fp then ok tt else err bad_fingerprint
  if is_empty approver then err no_approver else ok tt
  check_cwd kind cwd

unfoldable pub install_checked :
    Kind → Text → Text → Text → ℕ → LateGrants → Result (Unit {0}) × LateGrants
unfolding install_key put_grant
install_checked kind label fp dir expires g = elim (install_key kind fp label g.scripts) [
  | err e ↦ (err e, g)
  | ok key ↦ (ok tt, put_grant kind fp key dir expires g)
]

unfoldable pub install :
    Kind → Text → Text → Text → Text → ℕ → ℕ → LateGrants → Result (Unit {0}) × LateGrants
unfolding check_request install_checked prune
install kind label fp approver cwd window now g = elim (check_request kind label fp approver cwd) [
  | err e ↦ (err e, g)
  | ok dir ↦ install_checked kind label fp dir (now + window) (prune now g)
]

unfoldable pub same_script : Kind → Text → Text → AskedScript → Bool
same_script kind fp token s = kind_eq s.kind kind && (text_eq s.fp fp && text_eq s.token token)

unfoldable pub put_script : Kind → Text → Text → Text → ℕ → LateGrants → LateGrants
unfolding same_script make_room
put_script kind fp label token now g = record g {
  scripts =
      make_room max_asked_scripts (filter (λ s. not (same_script kind fp token s)) g.scripts)
      ++ record { kind = kind; fp = fp; label = label; token = token; at = now } ∷ [];
}

unfoldable pub find_in : Kind → Text → Text → Text → List LateGrant → Option LateGrant
unfolding same_grant
find_in kind fp key cwd [] = none
find_in kind fp key cwd (x ∷ xs) =
    let rest = find_in kind fp key cwd xs in if same_grant kind fp key cwd x then some x else rest

-- The grant leaves the list, if it is still in it.
unfoldable pub spend : ℕ → LateGrants → LateGrants
spend n g = record g { grants = filter (λ x. not (x.id == n)) g.grants }

-- `take`: whether the grant was still there, and the store without it.
unfoldable pub take : LateGrant → ℕ → LateGrants → Bool × LateGrants
unfolding prune spend
take grant now g =
    let g' = prune now g in
    let left = spend grant.id g' in (ltb (length left.grants) (length g'.grants), left)

pub data Decision : Type 0 where
  unhandled inactive late_approved : Decision

module _ (sha256 : Text → Text) where
  unfoldable pub asked : Request → ℕ → LateGrants → LateGrants
  unfolding put_script prune
  asked req now g =
      if not (runs_command req.kind)
      then g
      else if text_eq (command_label sha256 req.cmd) (command_pattern sha256 req.cmd)
      then g
      else put_script req.kind req.peer (command_label sha256 req.cmd)
          (command_pattern sha256 req.cmd) now (prune now g)

  -- `find`, and the store that its pruning leaves.
  unfoldable pub find : Request → ℕ → LateGrants → Option LateGrant × LateGrants
  unfolding grant_key find_in prune
  find req now g =
      let cwd = if runs_command req.kind then req.cwd else [] in
      if runs_command req.kind && is_empty req.cwd
      then (none, g)
      else elim (grant_key sha256 req.kind req) [
        | none ↦ (none, g)
        | some key ↦
            if is_empty req.peer
            then (none, g)
            else (find_in req.kind req.peer key cwd (prune now g).grants, prune now g)
      ]

  -- `useLateGrant`; `checks` is what `checksPass` says, `now` and `later` are the two clock readings.
  unfoldable pub use_late_grant : Request → Bool → ℕ → ℕ → LateGrants → Decision × LateGrants
  unfolding find take
  use_late_grant req checks now later g =
      let (found, g') = find req now g in
      elim found [
        | none ↦ (unhandled, g')
        | some grant ↦
            let (spent, g'') = take grant later g' in
            if not checks
            then (inactive, g')
            else if spent
            then (late_approved, g'')
            else (unhandled, g'')
      ]
