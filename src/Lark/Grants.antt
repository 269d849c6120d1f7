-- ===== src/Lark/Grants.antt =====
-- internal/lark/grants.go: the one-shot grants behind the buttons of a card.
pub mod OneShot
pub mod WrongChat
use wanctl.Prelude.{
  ℕ, ◌+◌, Bool, true, false, ◌||◌, not, Option, none, some, List, [], ◌∷◌, ltb, is_some,
  if◌then◌else◌, ℤ, pos, negsuc,
}
use wanctl.Bytes.{Text, text_eq, is_empty}

-- five minutes, in nanoseconds
abbrev pub expired_grant_retention : ℕ
expired_grant_retention = 300000000000

pub data GrantError : Type 0 where
  invalid_grant grant_not_found chat_mismatch nonce_consumed grant_expired : GrantError
  grant_unbound event_duplicate no_random : GrantError

pub record Grant : Type 0 where
  pub nonce : Text
  pub ns : Text
  pub device : Text
  pub pending_id : Text
  pub pairing_fp : Text
  pub chat_id : Text
  pub expires_at : ℕ

pub data Result : Type 0 where
  ok : Grant → Result
  err : GrantError → Result

-- A Go map with text keys.
abbrev pub Map : Type 0 → Type 0
Map V = Text → Option V

abbrev pub put : {V : Type 0} → Text → V → Map V → Map V
put k v m = λ j. if text_eq j k then some v else m j

abbrev pub delete : {V : Type 0} → Text → Map V → Map V
delete k m = λ j. if text_eq j k then none else m j

pub record Grants : Type 0 where
  pub active : Map Grant
  pub consumed : Map ℕ
  pub expired : Map ℕ
  pub events : Map ℕ

-- `NewGrants`, and `initLocked` on the zero value.
abbrev pub new_grants : Grants
new_grants = record {
  active = λ k. none;
  consumed = λ k. none;
  expired = λ k. none;
  events = λ k. none;
}

-- What stays of an entry, by the time at which it ends.
abbrev pub keep_time : ℕ → Option ℕ → Option ℕ
keep_time now none = none
keep_time now (some at) = if ltb now at then some at else none

abbrev pub keep_grant : ℕ → Option Grant → Option Grant
keep_grant now none = none
keep_grant now (some r) = if ltb now r.expires_at then some r else none

-- A grant that has ended is remembered as expired for a while.
abbrev pub lapse : ℕ → Option Grant → Option ℕ → Option ℕ
lapse now none old = old
lapse now (some r) old = if ltb now r.expires_at then old else some (now + expired_grant_retention)

-- `cleanupLocked`, the loops in their order
unfoldable pub cleanup : ℕ → Grants → Grants
cleanup now g = record {
  active = λ k. keep_grant now (g.active k);
  consumed = λ k. keep_time now (g.consumed k);
  events = λ k. keep_time now (g.events k);
  expired = λ k. keep_time now (lapse now (g.active k) (g.expired k));
}

-- A duration in nanoseconds; one that is not positive is refused.
abbrev pub positive : ℤ → Bool
positive (pos n) = ltb 0 n
positive (negsuc n) = false

abbrev pub after : ℕ → ℤ → ℕ
after now (pos n) = now + n
after now (negsuc n) = now

abbrev pub same_Bool : Bool → Bool → Bool
same_Bool true b = b
same_Bool false b = not b

unfoldable pub issue_nonce :
    Option Text → Text → Text → Text → Text → Text → ℕ → ℕ → Grants → Result × Grants
unfolding cleanup text_eq
issue_nonce none ns device pending pairing chat ends now g = (err no_random, g)
issue_nonce (some nonce) ns device pending pairing chat ends now g =
    let r : Grant = record {
      nonce = nonce;
      ns = ns;
      device = device;
      pending_id = pending;
      pairing_fp = pairing;
      chat_id = chat;
      expires_at = ends;
    } in
    let g' = cleanup now g in (ok r, record g' { active = put nonce r g'.active })

-- `Issue`; `random` is the encoded nonce, or none where there is no randomness.
unfoldable pub issue :
    Option Text → Text → Text → Text → Text → Text → ℤ → ℕ → Grants → Result × Grants
unfolding issue_nonce
issue random ns device pending pairing chat ttl now g =
    if is_empty ns
      || (is_empty device
          || (not (positive ttl) || same_Bool (is_empty pending) (is_empty pairing)))
    then (err invalid_grant, g)
    else issue_nonce random ns device pending pairing chat (after now ttl) now g

-- Why a nonce that is not active is refused.
unfoldable pub missing : Text → Grants → Result
missing nonce g =
    if is_some (g.consumed nonce)
    then err nonce_consumed
    else if is_some (g.expired nonce)
    then err grant_expired
    else err grant_not_found

-- On the entry that was active before the cleanup, and the store after it.
unfoldable pub bind_found : Option Grant → Text → Text → ℕ → Grants → Result × Grants
unfolding missing text_eq
bind_found none nonce chat now g = (missing nonce g, g)
bind_found (some r) nonce chat now g =
    let bound = record r { chat_id = chat } in
    if not (ltb now r.expires_at)
    then (err grant_expired, g)
    else if not (is_empty r.chat_id || text_eq r.chat_id chat)
    then (err chat_mismatch, g)
    else (ok bound, record g { active = put nonce bound g.active })

unfoldable pub bind_chat : Text → Text → ℕ → Grants → Result × Grants
unfolding bind_found cleanup
bind_chat nonce chat now g =
    if is_empty nonce || is_empty chat
    then (err invalid_grant, g)
    else bind_found (g.active nonce) nonce chat now (cleanup now g)

unfoldable pub consume_found : Option Grant → Text → Text → Text → ℕ → Grants → Result × Grants
unfolding missing text_eq
consume_found none nonce chat event now g = (missing nonce g, g)
consume_found (some r) nonce chat event now g =
    let seen = record g { events = put event r.expires_at g.events } in
    if not (ltb now r.expires_at)
    then (err grant_expired, record g { active = delete nonce g.active })
    else if is_empty r.chat_id
    then (err grant_unbound, g)
    else if not (text_eq r.chat_id chat)
    then (err chat_mismatch, seen)
    else (
      ok r,
      record seen { active = delete nonce g.active; consumed = put nonce r.expires_at g.consumed },
    )

unfoldable pub consume : Text → Text → Text → ℕ → Grants → Result × Grants
unfolding consume_found cleanup
consume nonce chat event now g =
    let g' = cleanup now g in
    if is_empty nonce || (is_empty chat || is_empty event)
    then (err invalid_grant, g)
    else if is_some (g'.events event)
    then (err event_duplicate, g')
    else consume_found (g.active nonce) nonce chat event now g'
