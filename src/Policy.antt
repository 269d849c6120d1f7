-- ===== src/Policy.antt =====
-- internal/policy/policy.go: the device's allow-list of command rules and file roots.
--
-- The shell parser is mvdan.cc/sh, which is not part of the repository: it is the parameter `parse`,
-- and what the code reads from its result is the record `Stmt`. Reading and writing the two files are
-- the arguments that say what the operating system answered.
pub mod Paths
pub mod Command
pub mod Engine
use wanctl.Prelude.{
  ℕ, ◌-◌, Bool, true, false, ◌&&◌, ◌||◌, not, Option, none, some, List, [], ◌∷◌, ◌++◌, ◌==◌,
  if◌then◌else◌, length, take, any,
}
use wanctl.Bytes.{Text, codes, text_eq, is_empty, has_prefix, has_suffix, contains}
use wanctl.Bytes.Trim.{trim_space}
use wanctl.Script
use wanctl.Script.{canonical_prefix}

pub data Mode : Type 0 where
  normal bypass : Mode
  other_mode : Text → Mode

pub data Scope : Type 0 where
  dir_scope global_scope : Scope
  other_scope : Text → Scope

pub data Kind : Type 0 where
  exec read write logs exec_elevated : Kind
  other_kind : Text → Kind

unfoldable pub kind_eq : Kind → Kind → Bool
kind_eq exec exec = true
kind_eq read read = true
kind_eq write write = true
kind_eq logs logs = true
kind_eq exec_elevated exec_elevated = true
kind_eq (other_kind s) (other_kind t) = text_eq s t
kind_eq _ _ = false

abbrev pub is_global : Scope → Bool
is_global global_scope = true
is_global _ = false

abbrev pub is_dir : Scope → Bool
is_dir dir_scope = true
is_dir _ = false

pub record Request : Type 0 where
  pub kind : Kind
  pub cmd : Text
  pub path : Text
  pub cwd : Text
  pub peer : Text
  pub via : Text

pub record Rule : Type 0 where
  pub kind : Kind
  pub pattern : Text
  pub dir : Text
  pub scope : Scope
  pub added : ℕ  -- nanoseconds, 0 for the zero time

-- What the code reads of a parsed statement. `nodes` lists what `syntax.Walk` meets, in its order.
pub data Node : Type 0 where
  cmd_subst proc_subst other_node : Node

pub record Stmt : Type 0 where
  pub negated : Bool
  pub background : Bool
  pub coprocess : Bool
  pub disown : Bool
  pub semicolon : Bool
  pub redirs : ℕ
  pub is_call : Bool
  pub nodes : List Node

abbrev pub Parser : Type 0
Parser = Text → Option (List Stmt)

-- The callback of `syntax.Walk`: once a substitution is met, `safe` stays false.
unfoldable pub walk_safe : Bool → List Node → Bool
walk_safe safe [] = safe
walk_safe safe (cmd_subst ∷ ns) = walk_safe false ns
walk_safe safe (proc_subst ∷ ns) = walk_safe false ns
walk_safe safe (other_node ∷ ns) = walk_safe safe ns

unfoldable pub plain_stmt : Stmt → Bool
unfolding walk_safe
plain_stmt s =
    if s.negated || s.background || s.coprocess || s.disown || s.semicolon || not (s.redirs == 0)
    then false
    else if not s.is_call
    then false
    else walk_safe true s.nodes

unfoldable pub single_simple : Parser → Text → Bool
unfolding plain_stmt
single_simple parse cmd = elim (parse cmd) [
  | none ↦ false
  | some [] ↦ false
  | some (s ∷ []) ↦ plain_stmt s
  | some (s ∷ t ∷ _) ↦ false
]

abbrev pub eval_marks : List Text
eval_marks =
    codes "@("
    ∷ codes "$("
    ∷ codes "&{"
    ∷ codes ".{"
    ∷ codes "${"
    ∷ codes "`"
    ∷ codes ";"
    ∷ codes "|"
    ∷ codes "&"
    ∷ []

unfoldable pub power_shell_eval : Text → Bool
unfolding any contains
power_shell_eval c = any (contains c) eval_marks

unfoldable pub matches_script : (Text → Text) → Text → Text → Bool
matches_script sha256 p c = elim (Script.canonical sha256 c) [
  | none ↦ false
  | some tok ↦ text_eq tok p
]

abbrev pub any_args : Text
any_args = codes " *"

-- The prefix forms: `p` itself, extended by arguments.
unfoldable pub matches_prefix : Text → Text → Bool
matches_prefix p c =
    if has_suffix p any_args
    then has_prefix c (take (length p - 1) p)
    else has_prefix c (p ++ codes " ")

-- `matchCommand` after both texts are trimmed.
unfoldable pub match_trimmed : (Text → Text) → Parser → Text → Text → Bool → Bool
unfolding matches_script matches_prefix
match_trimmed sha256 parse p c ps_shell =
    if has_prefix p canonical_prefix
    then matches_script sha256 p c
    else if text_eq c p
    then true
    else if text_eq p (codes "*")
    then true
    else if not (single_simple parse c)
    then false
    else if ps_shell && power_shell_eval c
    then false
    else matches_prefix p c

unfoldable pub match_command : (Text → Text) → Parser → Text → Text → Bool → Bool
unfolding match_trimmed
match_command sha256 parse p c ps_shell =
    match_trimmed sha256 parse (trim_space p) (trim_space c) ps_shell
