-- ===== src/Policy/Command.antt =====
-- What a command pattern matches: `MatchCommand`, `CommandPattern` and `CommandLabel`.
pub mod Carried
use wanctl.Prelude.{
  ◌-◌, ◌≡◌, refl, sym, ap, ◌∙◌, ◌⊎◌, inl, inr, ◌↔◌, Bool, true, false, ◌&&◌, not, Option, none,
  some, ◌∷◌, ◌++◌, append_assoc, arith, if◌then◌else◌, length, take, drop, length-append,
  take-append, Bool-cases,
}
use wanctl.Bytes.{Text, codes, text_eq, has_prefix, has_suffix}
use wanctl.Bytes.Laws.{text_eq_iff, has_prefix-split, has_suffix-split}
use wanctl.Bytes.Trim.{trim_space}
use wanctl.Script
use wanctl.Script.{canonical_prefix, recognise}
use wanctl.Script.Transport.{transport_payload-trim_space}
use wanctl.Policy.{
  Parser, single_simple, power_shell_eval, matches_script, any_args, matches_prefix, match_trimmed,
  match_command,
}

unfoldable pub command_pattern : (Text → Text) → Text → Text
command_pattern sha256 cmd =
    let c = trim_space cmd in elim (Script.canonical sha256 c) [ none ↦ c | some tok ↦ tok ]

unfoldable pub command_label : (Text → Text) → Text → Text
command_label sha256 cmd =
    let c = trim_space cmd in
    elim (Script.canonical sha256 c) [ none ↦ c | some tok ↦ Script.short tok ]

-- `Canonical` trims by itself.
pub canonical-trim_space :
    (sha256 : Text → Text) (c : Text)
    → Script.canonical sha256 (trim_space c) ≡ Script.canonical sha256 c
unfolding Script.canonical
canonical-trim_space sha256 c = rw (transport_payload-trim_space c)

names_option :
    (o : Option Text) (p : Text)
    → (elim o [ none ↦ false | some tok ↦ text_eq tok p ]) ≡ true ↔ (o ≡ some p)
names_option none p = (λ h. cc, λ h. cc)
names_option (some tok) p =
    (λ h. ap some ((text_eq_iff tok p).0 h), λ h. (text_eq_iff tok p).1 (ground arith))

matches_script_iff :
    (sha256 : Text → Text) (p c : Text)
    → (matches_script sha256 p c ≡ true) ↔ (Script.canonical sha256 c ≡ some p)
unfolding matches_script
matches_script_iff sha256 p c = names_option (Script.canonical sha256 c) p

-- Only the stem of a prefix pattern, a space and arguments are matched.
abbrev pub Extends : Text → Text → Type 0
Extends p c =
    (stem : Text) × (args : Text) × (c ≡ stem ++ b' ' ∷ args)
    × ((p ≡ stem) ⊎ (p ≡ stem ++ any_args))

-- All of a starred pattern but its star.
stem_space : (p stem : Text) → p ≡ stem ++ any_args → take (length p - 1) p ≡ stem ++ codes " "
stem_space p stem e =
    ap (λ q. take (length q - 1) q) (e ∙ sym (append_assoc stem (codes " ") (codes "*")))
    ∙ rw count (take-append (stem ++ codes " ") (codes "*"))
  where
    count : length ((stem ++ codes " ") ++ codes "*") - 1 ≡ length (stem ++ codes " ")
    count = omega (arith, length-append (stem ++ codes " ") (codes "*"))

prefix_starred :
    (p c : Text)
    → has_suffix p any_args ≡ true
    → matches_prefix p c ≡ has_prefix c (take (length p - 1) p)
unfolding matches_prefix
prefix_starred p c s = rw s

prefix_bare :
    (p c : Text)
    → has_suffix p any_args ≡ false
    → matches_prefix p c ≡ has_prefix c (p ++ codes " ")
unfolding matches_prefix
prefix_bare p c s = rw s

Extends-of :
    (stem p c : Text)
    → has_prefix c (stem ++ codes " ") ≡ true
    → (p ≡ stem) ⊎ (p ≡ stem ++ any_args)
    → Extends p c
Extends-of stem p c h form =
    let args = drop (length (stem ++ codes " ")) c in
    (
      stem,
      args,
      has_prefix-split c (stem ++ codes " ") h ∙ append_assoc stem (codes " ") args,
      form,
    )

matches_prefix-Extends : (p c : Text) → matches_prefix p c ≡ true → Extends p c
matches_prefix-Extends p c h = elim (Bool-cases (has_suffix p any_args)) [
  | inl starred ↦
      let stem = take (length p - 2) p in
      let split : p ≡ stem ++ any_args = has_suffix-split p any_args starred in
      Extends-of stem p c
        (sym (ap (has_prefix c) (stem_space p stem split)) ∙ sym (prefix_starred p c starred) ∙ h)
        (inr split)
  | inr bare ↦ Extends-of p p c (sym (prefix_bare p c bare) ∙ h) (inl refl)
]

-- The ways in which a pattern that names no script matches a trimmed command.
pub data Covers (parse : Parser) (ps_shell : Bool) (p c : Text) : Type 0 where
  exactly : c ≡ p → Covers parse ps_shell p c
  anything : p ≡ codes "*" → Covers parse ps_shell p c
  extended :
      single_simple parse c ≡ true
      → (ps_shell && power_shell_eval c) ≡ false
      → Extends p c
      → Covers parse ps_shell p c

three_tests :
    (a b c : Bool)
    → (if not a then false else if b then false else c) ≡ true
    → (a ≡ true) × (b ≡ false) × (c ≡ true)
three_tests true false c h = (refl, refl, h)
three_tests true true c h = cc
three_tests false b c h = cc

match_trimmed_extended :
    (sha256 : Text → Text) (parse : Parser) (p c : Text) (ps_shell : Bool)
    → has_prefix p canonical_prefix ≡ false
    → text_eq c p ≡ false
    → text_eq p (codes "*") ≡ false
    → match_trimmed sha256 parse p c ps_shell ≡ true
    → (single_simple parse c ≡ true)
      × ((ps_shell && power_shell_eval c) ≡ false)
      × (matches_prefix p c ≡ true)
unfolding match_trimmed
match_trimmed_extended sha256 parse p c ps_shell h e w m =
    three_tests (single_simple parse c) (ps_shell && power_shell_eval c) (matches_prefix p c)
      (rw (h, e, w) at m)

Covers-of :
    (sha256 : Text → Text) (parse : Parser) (p c : Text) (ps_shell : Bool)
    → has_prefix p canonical_prefix ≡ false
    → match_trimmed sha256 parse p c ps_shell ≡ true
    → Covers parse ps_shell p c
Covers-of sha256 parse p c ps_shell h m = elim (Bool-cases (text_eq c p)) [
  | inl same ↦ exactly ((text_eq_iff c p).0 same)
  | inr e ↦ elim (Bool-cases (text_eq p (codes "*"))) [
    | inl star ↦ anything ((text_eq_iff p (codes "*")).0 star)
    | inr w ↦
        let (simple, quiet, prefixed) = match_trimmed_extended sha256 parse p c ps_shell h e w m in
        extended simple quiet (matches_prefix-Extends p c prefixed)
  ]
]

module _ (sha256 : Text → Text) (parse : Parser) (p c : Text) (ps_shell : Bool) where
  -- A pattern that begins with script: matches exactly the commands that carry the script of that
  -- name: no command line whose text is the name, and no prefix or wildcard form.
  pub match_command-script :
      has_prefix (trim_space p) canonical_prefix ≡ true
      → (match_command sha256 parse p c ps_shell ≡ true)
        ↔ (Script.canonical sha256 c ≡ some (trim_space p))
  match_command-script h =
      let same : match_command sha256 parse p c ps_shell
          ≡ matches_script sha256 (trim_space p) (trim_space c) =
        unfold match_command match_trimmed in rw h in
      rw (same, ← canonical-trim_space sha256 c)
        (matches_script_iff sha256 (trim_space p) (trim_space c))

  -- A pattern that names no script matches a command only where it is the command, is *, or
  -- extends by arguments one simple command that carries no PowerShell evaluation on a PowerShell
  -- device. White space around both is left out.
  pub match_command-Covers :
      has_prefix (trim_space p) canonical_prefix ≡ false
      → match_command sha256 parse p c ps_shell ≡ true
      → Covers parse ps_shell (trim_space p) (trim_space c)
  match_command-Covers h m =
      Covers-of sha256 parse (trim_space p) (trim_space c) ps_shell h (unfold match_command in m)
