-- ===== src/Policy/Engine.antt =====
-- The rule engine: its state, its two files, and every operation on them.
--
-- A file's JSON is taken at its value: `rules_file` holds the rules that were written, or `none`
-- for bytes that do not unmarshal. `written` says whether a write (and its rename) succeeded.
pub mod Matching
pub mod Remember
pub mod RememberFile
pub mod Restart
use wanctl.Prelude.{
  map, ℕ, zero, suc, Bool, true, false, ◌&&◌, ◌||◌, not, Option, none, some, List, [], ◌∷◌, ◌++◌,
  ◌==◌, ltb, if◌then◌else◌, length, take, drop, any, ℤ, pos, negsuc,
}
use wanctl.Encoding.Utf8.Replaced.{replaced}
use wanctl.Bytes.{Text, codes, text_eq, is_empty}
use wanctl.Bytes.Trim.{trim_space}
use wanctl.Policy.{
  Mode, normal, bypass, other_mode, Scope, dir_scope, global_scope, other_scope, Kind, exec, read,
  write, logs, exec_elevated, other_kind, kind_eq, is_global, is_dir, Request, Rule, Parser,
  match_command,
}
use wanctl.Policy.Paths.{within, dir_of}
use wanctl.Policy.Command.{command_pattern}

pub record Engine : Type 0 where
  pub rules : List Rule
  pub mode : Mode
  pub has_mode_path : Bool
  pub ps_shell : Bool

pub data RulesFile : Type 0 where
  missing unreadable : RulesFile
  contents : Option (List Rule) → RulesFile

pub record Disk : Type 0 where
  pub rules_file : RulesFile
  pub mode_file : Option Text

pub data ModeClass : Type 0 where
  unset given : ModeClass

abbrev pub mode_class : Mode → ModeClass
mode_class (other_mode []) = unset
mode_class _ = given

abbrev pub no_mode : Mode
no_mode = other_mode []

unfoldable pub mode_text : Mode → Text
mode_text normal = codes "normal"
mode_text bypass = codes "bypass"
mode_text (other_mode t) = t

-- The `switch` of `loadMode`, on the trimmed contents.
unfoldable pub parse_mode : Text → Mode
parse_mode m =
    if text_eq m (codes "normal")
    then normal
    else if text_eq m (codes "bypass")
    then bypass
    else no_mode

unfoldable pub load_mode : Disk → Mode
unfolding parse_mode
load_mode d = elim d.mode_file [ none ↦ no_mode | some b ↦ parse_mode (trim_space b) ]

unfoldable pub save_mode : Engine → Bool → Disk → Disk
unfolding mode_text
save_mode e written d =
    if e.has_mode_path && written
    then record d { mode_file = some (mode_text e.mode ++ codes "\n") }
    else d

unfoldable pub with_mode : Mode → Engine
with_mode m = record { rules = []; mode = m; has_mode_path = true; ps_shell = false }

abbrev pub or_normal : Mode → Mode
or_normal (other_mode []) = normal
or_normal m = m

unfoldable pub read_rules : RulesFile → Engine → Option Engine
read_rules missing e = some e
read_rules unreadable e = none
read_rules (contents none) e = none
read_rules (contents (some rs)) e = some (record e { rules = rs })

-- `Open`; `none` is an error.
unfoldable pub open_engine : Mode → Bool → Disk → Option Engine × Disk
unfolding load_mode save_mode with_mode read_rules
open_engine mode written d = elim (mode_class mode) [
  | unset ↦ (read_rules d.rules_file (with_mode (or_normal (load_mode d))), d)
  | given ↦ let e = with_mode mode in (read_rules d.rules_file e, save_mode e written d)
]

unfoldable pub set_mode : Engine → Mode → Bool → Disk → Engine × Disk
unfolding save_mode
set_mode e m written d = let e' = record e { mode = m } in (e', save_mode e' written d)

unfoldable pub set_power_shell : Engine → Bool → Engine
set_power_shell e v = record e { ps_shell = v }

-- What comes back of a rule that encoding/json writes and reads: its strings, with every byte that is
-- not part of a UTF-8 character replaced.
unfoldable pub json_kind : Kind → Kind
json_kind (other_kind t) = other_kind (replaced t)
json_kind k = k

unfoldable pub json_scope : Scope → Scope
json_scope (other_scope t) = other_scope (replaced t)
json_scope s = s

unfoldable pub json_rule : Rule → Rule
unfolding json_kind json_scope
json_rule r = record {
  kind = json_kind r.kind;
  pattern = replaced r.pattern;
  dir = replaced r.dir;
  scope = json_scope r.scope;
  added = r.added;
}

-- `save`: a temporary file and a rename; the result says whether both succeeded.
unfoldable pub save : Engine → Bool → Disk → Disk × Bool
unfolding json_rule
save e written d =
    if written
    then (record d { rules_file = contents (some (map json_rule e.rules)) }, true)
    else (d, false)

unfoldable pub stamped : Rule → ℕ → Rule
stamped r now = if r.added == 0 then record r { added = now } else r

unfoldable pub add : Engine → Rule → ℕ → Bool → Disk → Engine × Disk × Bool
unfolding save stamped
add e r now written d =
    let e' = record e { rules = e.rules ++ stamped r now ∷ [] } in
    let (d', ok) = save e' written d in (e', d', ok)

unfoldable pub remove_at : Engine → ℕ → Bool → Disk → Engine × Disk × Bool
unfolding save
remove_at e i written d =
    let e' = record e { rules = take i e.rules ++ drop (suc i) e.rules } in
    let (d', ok) = save e' written d in (e', d', ok)

unfoldable pub remove : Engine → ℤ → Bool → Disk → Engine × Disk × Bool
unfolding remove_at
remove e (negsuc _) written d = (e, d, false)
remove e (pos i) written d =
    if ltb i (length e.rules) then remove_at e i written d else (e, d, false)

abbrev is_elevated : Kind → Bool
is_elevated exec_elevated = true
is_elevated _ = false

abbrev is_bypass : Mode → Bool
is_bypass bypass = true
is_bypass _ = false

unfoldable pub bypasses : Engine → Kind → Bool → Bool
bypasses e kind elevation_enabled =
    if not (is_bypass e.mode) then false else if is_elevated kind then elevation_enabled else true

unfoldable pub in_scope : Rule → Request → Bool
in_scope r req =
    is_global r.scope || (is_dir r.scope && (text_eq r.dir req.cwd && not (is_empty req.cwd)))

module _ (sha256 : Text → Text) (parse : Parser) where
  unfoldable pub matches_exec : Rule → Request → Bool → Bool
  unfolding in_scope
  matches_exec r req ps_shell =
      if not (kind_eq r.kind req.kind)
        || not (match_command sha256 parse r.pattern req.cmd ps_shell)
      then false
      else in_scope r req

  unfoldable pub matches_kind : Kind → Rule → Request → Bool → Bool
  unfolding matches_exec
  matches_kind exec r req ps_shell = matches_exec r req ps_shell
  matches_kind exec_elevated r req ps_shell = matches_exec r req ps_shell
  matches_kind read r req ps_shell =
      (kind_eq r.kind read || kind_eq r.kind write) && within r.pattern req.path
  matches_kind write r req ps_shell = kind_eq r.kind write && within r.pattern req.path
  matches_kind logs r req ps_shell = kind_eq r.kind logs && is_global r.scope
  matches_kind (other_kind _) r req ps_shell = false

  unfoldable pub rule_matches : Rule → Request → Bool → Bool
  unfolding matches_kind
  rule_matches r req ps_shell = matches_kind req.kind r req ps_shell

  unfoldable pub allowed : Engine → Request → Bool
  unfolding rule_matches
  allowed e req = any (λ r. rule_matches r req e.ps_shell) e.rules

  unfoldable pub first_match : List Rule → Request → Bool → Option Text
  unfolding rule_matches
  first_match [] req ps_shell = none
  first_match (r ∷ rs) req ps_shell =
      let rest = first_match rs req ps_shell in
      if rule_matches r req ps_shell then some r.pattern else rest

  unfoldable pub allowed_file_root : Engine → Request → Option Text
  unfolding first_match
  allowed_file_root e req =
      if not (kind_eq req.kind read) && not (kind_eq req.kind write)
      then none
      else first_match e.rules req e.ps_shell

unfoldable pub exec_rule : Request → Scope → Text → ℕ → Rule
exec_rule req scope pattern now =
    if is_dir scope && not (is_empty req.cwd)
    then record { kind = req.kind; pattern = pattern; dir = req.cwd; scope = scope; added = now }
    else record { kind = req.kind; pattern = pattern; dir = []; scope = global_scope; added = now }

unfoldable pub file_rule : Request → Scope → ℕ → Rule
file_rule req scope now = record {
  kind = req.kind;
  pattern = if is_dir scope then dir_of req.path else [];
  dir = [];
  scope = scope;
  added = now;
}

unfoldable pub rule_by_kind : (Text → Text) → Kind → Request → Scope → ℕ → Rule
unfolding exec_rule file_rule
rule_by_kind sha256 exec req scope now = exec_rule req scope (command_pattern sha256 req.cmd) now
rule_by_kind sha256 exec_elevated req scope now =
    exec_rule req scope (command_pattern sha256 req.cmd) now
rule_by_kind sha256 read req scope now = file_rule req scope now
rule_by_kind sha256 write req scope now = file_rule req scope now
rule_by_kind sha256 logs req scope now = record {
  kind = req.kind;
  pattern = codes "*";
  dir = [];
  scope = global_scope;
  added = now;
}
rule_by_kind sha256 (other_kind _) req scope now = record {
  kind = req.kind;
  pattern = [];
  dir = [];
  scope = scope;
  added = now;
}

-- `RuleFor`
unfoldable pub rule_for : (Text → Text) → Request → Scope → ℕ → Rule
unfolding rule_by_kind
rule_for sha256 req scope now = rule_by_kind sha256 req.kind req scope now
