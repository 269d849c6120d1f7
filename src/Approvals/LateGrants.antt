-- ===== src/Approvals/LateGrants.antt =====
-- The one-shot grants that late approvals install (`lateGrants`).
--
-- A grant is a pointer in the source, and `take` compares pointers: `id` numbers the grants in the
-- order in which they were allocated. Times are nanoseconds. `sha256` is `sha256.Sum256`.
pub mod Store
pub mod Invariant
pub mod Lookup
pub mod Found
pub mod Operations
pub mod OneShot
pub mod Scripts
use wanctl.Prelude.{
  ℕ, suc, ◌+◌, ◌-◌, ◌*◌, Bool, true, false, ◌&&◌, ◌||◌, not, Option, none, some, List, [], ◌∷◌,
  ◌++◌, ◌==◌, ltb, leb, if◌then◌else◌, length, drop, filter,
}
use wanctl.Bytes.{Text, codes, text_eq, is_empty, has_prefix}
use wanctl.Encoding.Base64
use wanctl.Policy.{Kind, exec, read, write, logs, exec_elevated, other_kind, kind_eq, Request}
use wanctl.Policy.Paths.{clean, is_rooted}
use wanctl.Policy.Command.{command_pattern, command_label}

abbrev pub second_ns : ℕ
second_ns = 1000000000

abbrev pub max_late_grants : ℕ
max_late_grants = 32

abbrev pub max_asked_scripts : ℕ
max_asked_scripts = 64

unfoldable pub asked_script_ttl : ℕ
asked_script_ttl = 24 * 3600 * second_ns

-- `protocol.LateGrantWindow`, 30 minutes
unfoldable pub late_grant_window_max : ℕ
late_grant_window_max = 30 * 60 * second_ns

pub record LateGrant : Type 0 where
  pub id : ℕ
  pub kind : Kind
  pub fp : Text
  pub cwd : Text
  pub key : Text
  pub expires : ℕ

pub record AskedScript : Type 0 where
  pub kind : Kind
  pub fp : Text
  pub label : Text
  pub token : Text
  pub at : ℕ

pub record LateGrants : Type 0 where
  pub grants : List LateGrant
  pub scripts : List AskedScript
  pub next_id : ℕ

pub data InstallError : Type 0 where
  no_label logs_label unknown_kind bad_fingerprint no_approver bad_cwd many_scripts : InstallError

pub data Result (Answer : Type 0) : Type 0 where
  err : InstallError → Result Answer
  ok : Answer → Result Answer

infixl 5 ◌>>=◌ ◌>>◌
abbrev pub ◌>>=◌ : {Answer Next : Type 0} → Result Answer → (Answer → Result Next) → Result Next
err reason >>= next = err reason
ok answer >>= next = next answer

abbrev pub ◌>>◌ : {Next : Type 0} → Result (Unit {0}) → Result Next → Result Next
first >> second = first >>= λ _. second

abbrev pub runs_command : Kind → Bool
runs_command exec = true
runs_command exec_elevated = true
runs_command _ = false

-- `grantKey`; `none` is a kind that no grant can release.
unfoldable pub grant_key : (Text → Text) → Kind → Request → Option Text
grant_key sha256 exec req = some (command_pattern sha256 req.cmd)
grant_key sha256 exec_elevated req = some (command_pattern sha256 req.cmd)
grant_key sha256 read req = some req.path
grant_key sha256 write req = some req.path
grant_key sha256 logs req = some []
grant_key sha256 (other_kind _) req = none

-- `lateGrantWindow`, of a positive or zero number of seconds, or of a negative one.
unfoldable pub late_grant_window : ℕ → Bool → ℕ
unfolding late_grant_window_max
late_grant_window sec negative =
    if negative
    then second_ns
    else if sec == 0 || ltb 1800 sec
    then late_grant_window_max
    else sec * second_ns

unfoldable pub live_script : ℕ → AskedScript → Bool
unfolding asked_script_ttl
live_script now s = not (leb asked_script_ttl (now - s.at))

-- `pruneLocked`
unfoldable pub prune : ℕ → LateGrants → LateGrants
unfolding live_script
prune now g = record g {
  grants = filter (λ x. ltb now x.expires) g.grants;
  scripts = filter (live_script now) g.scripts;
}

unfoldable pub same_grant : Kind → Text → Text → Text → LateGrant → Bool
same_grant kind fp key cwd x =
    kind_eq x.kind kind && (text_eq x.fp fp && (text_eq x.key key && text_eq x.cwd cwd))

unfoldable pub check_label : Kind → Text → Result (Unit {0})
check_label logs label = if is_empty label then ok tt else err logs_label
check_label (other_kind _) label = err unknown_kind
check_label _ label = if is_empty label then err no_label else ok tt

unfoldable pub check_cwd : Kind → Text → Result Text
check_cwd kind cwd =
    if runs_command kind
    then (if not (is_rooted cwd) || not (text_eq (clean cwd) cwd) then err bad_cwd else ok cwd)
    else ok []

-- The loop of `resolveLocked`; `token` is the one found so far.
unfoldable pub resolve_from : Kind → Text → Text → Text → List AskedScript → Result Text
resolve_from kind fp label token [] = ok token
resolve_from kind fp label token (s ∷ ss) =
    let skip = resolve_from kind fp label token ss in
    let found = resolve_from kind fp label s.token ss in
    if not (kind_eq s.kind kind) || (not (text_eq s.fp fp) || not (text_eq s.label label))
    then skip
    else if not (is_empty token) && not (text_eq token s.token)
    then err many_scripts
    else found

unfoldable pub resolve : Kind → Text → Text → List AskedScript → Result Text
unfolding resolve_from
resolve kind fp label ss = do
  token ← resolve_from kind fp label [] ss
  ok (if is_empty token then label else token)

unfoldable pub install_key : Kind → Text → Text → List AskedScript → Result Text
unfolding resolve
install_key kind fp label ss = if runs_command kind then resolve kind fp label ss else ok label

-- `slices.Delete(g, 0, 1)` where the list is full.
unfoldable pub make_room {ℓ} : {A : Type ℓ} → ℕ → List A → List A
make_room limit xs = if leb limit (length xs) then drop 1 xs else xs
