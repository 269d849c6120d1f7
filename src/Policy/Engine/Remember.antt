-- ===== src/Policy/Engine/Remember.antt =====
-- A remembered decision covers the request that it was made for.
use wanctl.Prelude.{
  ◌%◌, All-append, ◌/◌, subst, ◌<◌, ℕ, ◌≡◌, refl, sym, ap, ◌∙◌, inl, inr, Bool, true, false, none,
  some, List, [], ◌∷◌, ◌++◌, arith, ◌==◌, All, any, Bool-cases, Option-cases,
}
use wanctl.Policy.{
  Scope, Kind, exec, read, write, logs, exec_elevated, other_kind, kind_eq, Request, Rule, Parser,
  match_command, match_trimmed,
}
use wanctl.Policy.Engine.{
  rule_by_kind, matches_kind, Engine, Disk, in_scope, exec_rule, stamped, matches_exec,
  rule_matches, allowed, add, rule_for,
}
use wanctl.Bytes.{Text, codes, has_prefix}
use wanctl.Bytes.Laws.{text_eq_refl, has_prefix-append}
use wanctl.Bytes.Trim.{trim_space}
use wanctl.Bytes.Trim.Plain.{IsPlain, trim_space-All_plain}
use wanctl.Bytes.Trim.Twice.{trim_space_idem}
use wanctl.Encoding.Hex.{hex_encode, hex_digit}
use wanctl.Script.{Interp, posix, power_shell, interp_name, canonical_prefix, token}
use wanctl.Script.Transport.{canonical-token}
use wanctl.Policy.Command.{command_pattern, match_command-script, canonical-trim_space}
use wanctl.Script

hex_digit-IsPlain : (v : ℕ) → v < 16 → IsPlain (hex_digit v)
unfolding hex_digit
hex_digit-IsPlain v h = ground arith

hex_encode-IsPlain : (s : Text) → All (λ c. c < 256) s → All IsPlain (hex_encode s)
unfolding hex_encode
hex_encode-IsPlain [] h = tt
hex_encode-IsPlain (b ∷ s) h = (
  hex_digit-IsPlain (b / 16) (omega arith),
  (hex_digit-IsPlain (b % 16) (omega arith), hex_encode-IsPlain s h.1),
)

-- The name of a script has nothing to trim.
token-IsPlain : (i : Interp) (sum : Text) → All (λ c. c < 256) sum → All IsPlain (token i sum)
unfolding token canonical_prefix interp_name
token-IsPlain posix sum h =
    All-append IsPlain (codes "script:sh:") (hex_encode sum) (omega arith)
      (hex_encode-IsPlain sum h)
token-IsPlain power_shell sum h =
    All-append IsPlain (codes "script:powershell:") (hex_encode sum) (omega arith)
      (hex_encode-IsPlain sum h)

-- What `sha256.Sum256` returns is a list of bytes.
abbrev pub SumsBytes : (Text → Text) → Type 0
SumsBytes sha256 = (x : Text) → All (λ c. c < 256) (sha256 x)

-- The command is no command line that is spelled like the name of a script.
abbrev pub NotName : (Text → Text) → Text → Type 0
NotName sha256 cmd =
    Script.canonical sha256 cmd ≡ none → has_prefix (trim_space cmd) canonical_prefix ≡ false

token-prefix : (i : Interp) (sum : Text) → has_prefix (token i sum) canonical_prefix ≡ true
unfolding token
token-prefix i sum = has_prefix-append canonical_prefix (interp_name i ++ b':' ∷ hex_encode sum)

match_trimmed_self :
    (sha256 : Text → Text) (parse : Parser) (p : Text) (ps_shell : Bool)
    → has_prefix p canonical_prefix ≡ false
    → match_trimmed sha256 parse p p ps_shell ≡ true
unfolding match_trimmed
match_trimmed_self sha256 parse p ps_shell h = rw (h, text_eq_refl p)

command_pattern-none :
    (sha256 : Text → Text) (cmd : Text)
    → Script.canonical sha256 cmd ≡ none
    → command_pattern sha256 cmd ≡ trim_space cmd
unfolding command_pattern
command_pattern-none sha256 cmd h = rw (canonical-trim_space sha256 cmd ∙ h, command_pattern)

command_pattern-some :
    (sha256 : Text → Text) (cmd tok : Text)
    → Script.canonical sha256 cmd ≡ some tok
    → command_pattern sha256 cmd ≡ tok
unfolding command_pattern
command_pattern-some sha256 cmd tok h = rw (canonical-trim_space sha256 cmd ∙ h, command_pattern)

module _ (sha256 : Text → Text) (parse : Parser) (cmd : Text) (ps_shell : Bool) where
  script_pattern :
      SumsBytes sha256
      → (tok : Text) → Script.canonical sha256 cmd ≡ some tok
      → match_command sha256 parse tok cmd ps_shell ≡ true
  script_pattern bytes tok h =
      let (i, raw, e) = canonical-token sha256 cmd tok h in
      let whole =
        trim_space-All_plain tok
          (subst (All IsPlain) (sym e) (token-IsPlain i (sha256 raw) (bytes raw))) in
      (match_command-script sha256 parse tok cmd ps_shell
          (ap (λ t. has_prefix t canonical_prefix) (whole ∙ e) ∙ token-prefix i (sha256 raw))).1
        (h ∙ ap some (sym whole))

  plain_pattern :
      has_prefix (trim_space cmd) canonical_prefix ≡ false
      → match_command sha256 parse (trim_space cmd) cmd ps_shell ≡ true
  unfolding match_command
  plain_pattern h =
      ap (λ p. match_trimmed sha256 parse p (trim_space cmd) ps_shell) (trim_space_idem cmd)
      ∙ match_trimmed_self sha256 parse (trim_space cmd) ps_shell h

  -- The pattern that is remembered for a command matches the command.
  match_command-command_pattern :
      SumsBytes sha256
      → NotName sha256 cmd
      → match_command sha256 parse (command_pattern sha256 cmd) cmd ps_shell ≡ true
  match_command-command_pattern bytes ordinary = elim (Option-cases (Script.canonical sha256 cmd)) [
    | inl n ↦ rw (command_pattern-none sha256 cmd n) (plain_pattern (ordinary n))
    | inr (tok, h) ↦ rw (command_pattern-some sha256 cmd tok h) (script_pattern bytes tok h)
  ]

-- A kind of request that runs a command.
abbrev pub IsCommand : Kind → Type 0
IsCommand exec = Unit
IsCommand exec_elevated = Unit
IsCommand _ = ⊥

in_scope-exec_rule :
    (req : Request) (scope : Scope) (pattern : Text) (now : ℕ)
    → in_scope (exec_rule req scope pattern now) req ≡ true
unfolding in_scope exec_rule
in_scope-exec_rule req scope pattern now = ground (arith, text_eq_refl req.cwd)

exec_rule-fields :
    (req : Request) (scope : Scope) (pattern : Text) (now : ℕ)
    → ((exec_rule req scope pattern now).pattern ≡ pattern)
      × ((exec_rule req scope pattern now).kind ≡ req.kind)
unfolding exec_rule
exec_rule-fields req scope pattern now = ground arith

module _ (sha256 : Text → Text) (parse : Parser) (req : Request) (scope : Scope) (now : ℕ) where
  matches_exec-exec_rule :
      (ps : Bool) (pattern : Text)
      → kind_eq req.kind req.kind ≡ true
      → match_command sha256 parse pattern req.cmd ps ≡ true
      → matches_exec sha256 parse (exec_rule req scope pattern now) req ps ≡ true
  unfolding matches_exec
  matches_exec-exec_rule ps pattern k h =
      let (p, q) = exec_rule-fields req scope pattern now in
      rw (p, q) (rw (k, h) (in_scope-exec_rule req scope pattern now))

  matches_kind-rule_by_kind :
      (ps : Bool) (k : Kind)
      → SumsBytes sha256
      → NotName sha256 req.cmd
      → IsCommand k
      → req.kind ≡ k
      → matches_kind sha256 parse k (rule_by_kind sha256 k req scope now) req ps ≡ true
  unfolding matches_kind rule_by_kind
  matches_kind-rule_by_kind ps exec bytes ordinary c e =
      matches_exec-exec_rule ps (command_pattern sha256 req.cmd)
        (ap (λ x. kind_eq x x) e ∙ (unfold kind_eq in refl))
        (match_command-command_pattern sha256 parse req.cmd ps bytes ordinary)
  matches_kind-rule_by_kind ps exec_elevated bytes ordinary c e =
      matches_exec-exec_rule ps (command_pattern sha256 req.cmd)
        (ap (λ x. kind_eq x x) e ∙ (unfold kind_eq in refl))
        (match_command-command_pattern sha256 parse req.cmd ps bytes ordinary)
  matches_kind-rule_by_kind ps read bytes ordinary c e = absurd c
  matches_kind-rule_by_kind ps write bytes ordinary c e = absurd c
  matches_kind-rule_by_kind ps logs bytes ordinary c e = absurd c
  matches_kind-rule_by_kind ps (other_kind t) bytes ordinary c e = absurd c

-- When a rule was added plays no part in matching.
rule_matches-added :
    (sha256 : Text → Text) (parse : Parser) (r : Rule) (n : ℕ) (k : Kind) (req : Request)
    (ps : Bool)
    → matches_kind sha256 parse k (record r { added = n }) req ps
      ≡ matches_kind sha256 parse k r req ps
unfolding matches_kind
rule_matches-added sha256 parse r n exec req ps = refl
rule_matches-added sha256 parse r n exec_elevated req ps = refl
rule_matches-added sha256 parse r n read req ps = refl
rule_matches-added sha256 parse r n write req ps = refl
rule_matches-added sha256 parse r n logs req ps = refl
rule_matches-added sha256 parse r n (other_kind t) req ps = refl

any_last {ℓ} :
    {A : Type ℓ} (p : A → Bool) (xs : List A) (x : A) → p x ≡ true → any p (xs ++ x ∷ []) ≡ true
unfolding any
any_last p [] x h = rw h
any_last p (y ∷ xs) x h = ground (arith, any_last p xs x h)

rule_matches-stamped :
    (sha256 : Text → Text) (parse : Parser) (r : Rule) (now : ℕ) (req : Request) (ps : Bool)
    → rule_matches sha256 parse (stamped r now) req ps ≡ rule_matches sha256 parse r req ps
unfolding rule_matches stamped
rule_matches-stamped sha256 parse r now req ps = elim (Bool-cases (r.added == 0)) [
  | inl z ↦ rw z (rule_matches-added sha256 parse r now req.kind req ps)
  | inr z ↦ rw z
]

-- Adding a rule that matches a request allows the request.
pub allowed-add :
    (sha256 : Text → Text) (parse : Parser) (e : Engine) (r : Rule) (req : Request) (now : ℕ)
    (written : Bool) (d : Disk)
    → rule_matches sha256 parse r req e.ps_shell ≡ true
    → allowed sha256 parse (add e r now written d).0 req ≡ true
unfolding allowed add stamped
allowed-add sha256 parse e r req now written d h =
    any_last (λ x. rule_matches sha256 parse x req e.ps_shell) e.rules (stamped r now)
      (rule_matches-stamped sha256 parse r now req e.ps_shell ∙ h)

-- A command whose answer is remembered, in any scope, is allowed by the rule that is added for it,
-- where the command is no command line spelled like the name of a script, and digests are bytes.
pub remembered_command-allowed :
    (sha256 : Text → Text) (parse : Parser) (e : Engine) (req : Request) (scope : Scope) (now : ℕ)
    (written : Bool) (d : Disk)
    → SumsBytes sha256
    → NotName sha256 req.cmd
    → IsCommand req.kind
    → allowed sha256 parse (add e (rule_for sha256 req scope now) now written d).0 req ≡ true
remembered_command-allowed sha256 parse e req scope now written d bytes ordinary c =
    allowed-add sha256 parse e (rule_for sha256 req scope now) req now written d (
      unfold rule_matches rule_for in
      matches_kind-rule_by_kind sha256 parse req scope now e.ps_shell req.kind bytes ordinary c
        refl)
