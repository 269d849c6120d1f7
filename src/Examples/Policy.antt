-- ===== src/Examples/Policy.antt =====
-- Rules and requests at concrete inputs (`internal/policy/policy.go`).
use wanctl.Encoding.Hex.{hex_encode}
use wanctl.Prelude.{any, ◌≡◌, ◌↔◌, ◌++◌, ◌∷◌, [], List, refl, true, false, none, some, arith}
use wanctl.Bytes.{has_prefix, has_suffix, Text, codes, text_eq}
use wanctl.Bytes.Trim.{trim_space}
use wanctl.Script.{canonical_prefix}
use wanctl.Policy.{
  kind_eq, single_simple, normal, dir_scope, Kind, exec, read, Request, Rule, Parser, match_command,
}
use wanctl.Policy.Paths.{clean, within, kept_of}
use wanctl.Policy.Paths.Cover.{within_iff, within_root}
use wanctl.Policy.Paths.Parent.{clean_idem}
use wanctl.Policy.Command.{Covers, match_command-Covers}
use wanctl.Policy.Command.Carried.{match_command-command}
use wanctl.Script.{posix, token, command}
use wanctl.Encoding.Base64
use wanctl.Encoding.Utf8.{valid, decode_rune}
use wanctl.Policy.Engine.{
  Engine, Disk, missing, no_mode, open_engine, set_mode, stamped, add, rule_matches, allowed,
  rule_for,
}
use wanctl.Policy.Engine.Remember.{remembered_command-allowed}
use wanctl.Policy.Engine.RememberFile.{remembered_file-allowed, remembered_at_root}
use wanctl.Policy.Engine.Restart.{is_normal, open_engine-add}

-- 32 bytes, whatever they sum.
abbrev sum : Text → Text
sum _ = codes "0123456789abcdef0123456789abcdef"

-- A parser that finds one simple command in every text.
abbrev parse : Parser
parse _ = some (
    record {
      negated = false;
      background = false;
      coprocess = false;
      disown = false;
      semicolon = false;
      redirs = 0;
      is_call = true;
      nodes = [];
    }
    ∷ [])

abbrev request : Kind → Text → Text → Request
request kind cmd path = record {
  kind = kind;
  cmd = cmd;
  path = path;
  cwd = codes "/srv";
  peer = codes "SHA256:a";
  via = [];
}

abbrev reads_log : Request
reads_log = request read [] (codes "/var/log/app")

abbrev log_rule : Rule
log_rule = record {
  kind = read;
  pattern = codes "/var/log";
  dir = [];
  scope = dir_scope;
  added = 7;
}

abbrev engine : Engine
engine = record { rules = log_rule ∷ []; mode = normal; has_mode_path = true; ps_shell = false }

abbrev disk : Disk
disk = record { rules_file = missing; mode_file = none }

match_command-Covers_example :
    Covers parse false (trim_space (codes "git *")) (trim_space (codes "git log"))
unfolding trim_space canonical_prefix match_command has_prefix text_eq single_simple has_suffix
match_command-Covers_example =
    match_command-Covers sum parse (codes "git *") (codes "git log") false refl refl

within_iff_example :
    (within (codes "/var/log") (codes "/var/log/app") ≡ true)
    ↔ ((ext : List Text) × (kept_of (codes "/var/log/app") ≡ ext ++ kept_of (codes "/var/log")))
unfolding kept_of text_eq kind_eq
within_iff_example =
    within_iff (codes "/var/log") (codes "/var/log/app") refl refl (λ e. absurd (ground arith))

within_root_example : (within (codes "/") (codes "/etc") ≡ true) ↔ (kept_of (codes "/etc") ≡ [])
unfolding kept_of text_eq kind_eq
within_root_example = within_root (codes "/") (codes "/etc") refl refl refl

clean_idem_example : clean (clean (codes "/a/../b")) ≡ clean (codes "/a/../b")
clean_idem_example = clean_idem (codes "/a/../b") refl

log_allowed : allowed sum parse engine reads_log ≡ true
unfolding allowed within any kind_eq text_eq has_prefix
log_allowed = refl

remembered_command-allowed_example :
    allowed sum parse
      (add engine (rule_for sum (request exec (codes "ls") []) dir_scope 9) 9 true disk).0
      (request exec (codes "ls") [])
    ≡ true
unfolding trim_space canonical_prefix has_prefix text_eq
remembered_command-allowed_example =
    remembered_command-allowed sum parse engine (request exec (codes "ls") []) dir_scope 9 true disk
      (λ x. ground arith) (λ e. refl) tt

remembered_file-allowed_example :
    allowed sum parse (add engine (rule_for sum reads_log dir_scope 9) 9 true disk).0 reads_log
    ≡ true
unfolding kept_of text_eq kind_eq
remembered_file-allowed_example =
    remembered_file-allowed sum parse engine reads_log 9 true disk (codes "/var/log") (codes "app")
      refl refl (ground arith) refl refl (λ e. absurd (ground arith))

remembered_at_root_example :
    rule_matches sum parse
      (rule_for sum (request read [] (codes "/notes")) dir_scope 9)
      (request read [] (codes "/notes"))
      false
    ≡ false
unfolding kept_of text_eq kind_eq
remembered_at_root_example =
    remembered_at_root sum parse (request read [] (codes "/notes")) 9 false [] (codes "notes") refl
      refl (ground arith) refl (record { full = refl; no_dot = refl; no_dot_dot = refl }) refl

open_engine-add_example :
    (let (e', d') = set_mode engine normal true disk in
      (open_engine no_mode true (add e' log_rule 9 true d').1).0)
    ≡ some (record {
      rules = engine.rules ++ stamped log_rule 9 ∷ [];
      mode = normal;
      has_mode_path = true;
      ps_shell = false;
    })
unfolding valid decode_rune
open_engine-add_example =
    open_engine-add engine normal disk log_rule 9 true is_normal refl ((refl, refl, refl, refl), tt)
      (refl, refl, refl, refl)

-- The name of the script `ls`, and the command that carries it.
abbrev ls_name : Text
ls_name = token posix (sum (codes "ls"))

abbrev ls_command : Text
ls_command = codes "printf %s 'bHM=' | base64 -d | sh"

match_command-command_example :
    ((match_command sum parse ls_name ls_command false ≡ true)
      ↔ (trim_space ls_name ≡ token posix (sum (codes "ls"))))
    × (match_command sum parse ls_name ls_name false ≡ false)
unfolding trim_space canonical_prefix has_prefix text_eq command Base64.encode Base64.char_of token
    hex_encode
match_command-command_example =
    match_command-command sum parse ls_name ls_name false posix (codes "ls") (codes "ls") ls_command
      (ground arith) refl refl refl refl
