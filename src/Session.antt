-- ===== src/Session.antt =====
-- What a relay tells a device about a session (internal/sessionauth/sessionauth.go).
--
-- Capabilities are the number that Go's uint8 holds. A time is in nanoseconds, 0 for the zero time.
pub mod Grants
use wanctl.Prelude.{
  ℕ, Bool, true, false, ◌&&◌, ◌||◌, not, List, [], ◌∷◌, ◌++◌, ◌==◌, ltb, if◌then◌else◌, bit_and,
  bit_or,
}
use wanctl.Bytes.{Text, codes, text_eq, is_empty}
use wanctl.Bytes.Trim.{trim_space}

abbrev pub Capabilities : Type 0
Capabilities = ℕ

abbrev pub cap_exec : Capabilities
cap_exec = 1

abbrev pub cap_console : Capabilities
cap_console = 16

abbrev pub use_capabilities : Capabilities
use_capabilities = 15

abbrev pub full_capabilities : Capabilities
full_capabilities = 31

abbrev pub capability_names : List (Text × Capabilities)
capability_names =
    (codes "exec", cap_exec)
    ∷ (codes "read", 2)
    ∷ (codes "write", 4)
    ∷ (codes "logs", 8)
    ∷ (codes "console", cap_console)
    ∷ []

unfoldable pub has_all : Capabilities → Capabilities → Bool
has_all c required = bit_and c required == required

-- No bit stands outside the full capabilities where `c` and they have all of `c` in common.
unfoldable pub caps_valid : Capabilities → Bool
caps_valid c = not (c == 0) && (bit_and c full_capabilities == c)

unfoldable pub names_of : Capabilities → List (Text × Capabilities) → List Text
unfolding has_all
names_of c [] = []
names_of c (item ∷ items) =
    let rest = names_of c items in if has_all c item.1 then item.0 ∷ rest else rest

-- `strings.Join(names, ",")`
unfoldable pub join_names : List Text → Text
join_names [] = []
join_names (n ∷ []) = n
join_names (n ∷ m ∷ ns) = n ++ b',' ∷ join_names (m ∷ ns)

unfoldable pub caps_text : Capabilities → Text
unfolding names_of join_names
caps_text c = join_names (names_of c capability_names)

unfoldable push_char : ℕ → List Text → List Text
push_char c [] = (c ∷ []) ∷ []
push_char c (s ∷ ss) = (c ∷ s) ∷ ss

-- `strings.Split(value, ",")`
unfoldable pub split_names : Text → List Text
unfolding push_char
split_names [] = [] ∷ []
split_names (c ∷ s) = let rest = split_names s in if c == b',' then [] ∷ rest else push_char c rest

pub data Parsed : Type 0 where
  caps : Capabilities → Parsed
  empty_capabilities : Parsed
  unknown_capability duplicate_capability : Text → Parsed

-- The capability of a name, 0 where there is none.
unfoldable pub cap_named : Text → List (Text × Capabilities) → Capabilities
cap_named name [] = 0
cap_named name (item ∷ items) =
    let rest = cap_named name items in if text_eq name item.0 then item.1 else rest

-- The loop of `Parse`.
unfoldable pub parse_names : Capabilities → List Text → Parsed
unfolding cap_named has_all
parse_names c [] = caps c
parse_names c (raw ∷ rest) =
    let name = trim_space raw in
    let found = cap_named name capability_names in
    let parsed = parse_names (bit_or c found) rest in
    if found == 0
    then unknown_capability name
    else if has_all c found
    then duplicate_capability name
    else parsed

unfoldable pub parse_caps : Text → Parsed
unfolding parse_names split_names
parse_caps value =
    if is_empty (trim_space value) then empty_capabilities else parse_names 0 (split_names value)

-- `Open`, less `Op` and `URL`, which no check here reads.
pub record Open : Type 0 where
  pub session : Text
  pub caller_namespace : Text
  pub owner_namespace : Text
  pub device : Text
  pub capabilities : Capabilities
  pub grant_id : Text
  pub credential_id : Text
  pub controller_fingerprint : Text
  pub expires_at : ℕ
  pub exec_only : Text

unfoldable pub controller_ok : Text → Open → Bool
controller_ok fp o = not (is_empty o.exec_only) || text_eq o.controller_fingerprint fp

-- The grant has a time, and it is still to come.
unfoldable pub grant_runs : ℕ → Open → Bool
grant_runs now o = not (o.expires_at == 0) && ltb now o.expires_at

-- The first part of `ValidFor`: a scoped session, or any session of a grant.
unfoldable pub grant_fits : ℕ → Open → Bool
unfolding grant_runs
grant_fits now o =
    if not (is_empty o.exec_only)
    then not (is_empty o.grant_id)
      && (not (is_empty o.credential_id) && (grant_runs now o && (o.capabilities == cap_exec)))
    else is_empty o.grant_id
      || (not (is_empty o.credential_id)
          && (not (is_empty o.controller_fingerprint)
              && (grant_runs now o && (o.capabilities == use_capabilities))))

unfoldable pub valid_for : Text → ℕ → Open → Bool
unfolding grant_fits caps_valid
valid_for device now o =
    grant_fits now o
    && (not (is_empty o.session)
        && (not (is_empty o.caller_namespace)
            && (not (is_empty o.owner_namespace)
                && (text_eq o.device device && caps_valid o.capabilities))))
