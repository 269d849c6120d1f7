-- ===== src/Policy/Command/Carried.antt =====
-- MatchCommand, of internal/policy/policy.go, on the commands that carry scripts and on the texts that
-- are spelled like the name of one.
use wanctl.Prelude.{
  ℕ, ◌==◌, false≢true, ◌≡◌, ◌↔◌, ◌<◌, refl, sym, ap, ◌∙◌, Bool, true, false, none, some,
  some-injective, [], ◌∷◌, All, arith, Bool-cases, inl, inr,
}
use wanctl.Bytes.{codes, Text, text_eq, has_prefix}
use wanctl.Bytes.Trim.{trim_space}
use wanctl.Script
use wanctl.Script.{
  posix, power_shell, Interp, canonical_prefix, before, after, wrapped, recognise,
  transport_payload, carried, ok, command, token,
}
use wanctl.Script.Transport.{canonical-command}
use wanctl.Policy.{Parser, match_command}
use wanctl.Policy.Command.{match_command-script}

name_start : (c : ℕ) (t : Text) → has_prefix (c ∷ t) canonical_prefix ≡ true → c ≡ 115
unfolding has_prefix canonical_prefix text_eq
name_start c t h = ground arith

other_start : (a c : ℕ) (pre t : Text) → (c == a) ≡ false → has_prefix (c ∷ t) (a ∷ pre) ≡ false
unfolding has_prefix text_eq
other_start a c pre t h = ground arith

not-wrapped : (c pre post : Text) → has_prefix c pre ≡ false → wrapped c pre post ≡ false
unfolding wrapped
not-wrapped c pre post h = ground arith

not-before : (i : Interp) (t : Text) → has_prefix (115 ∷ t) (before i) ≡ false
unfolding before
not-before posix t = other_start 112 115 (codes "rintf %s '") t refl
not-before power_shell t =
    other_start 112 115 (codes "owershell -NoProfile -NonInteractive -EncodedCommand '") t refl

recognise-start : (t : Text) → recognise (115 ∷ t) ≡ none
unfolding recognise
recognise-start t = rw (not-wrapped (115 ∷ t) (before posix) (after posix) (not-before posix t)) (
    rw (not-wrapped (115 ∷ t) (before power_shell) (after power_shell) (not-before power_shell t))
      refl)

-- A name is no transport.
recognise-name : (t : Text) → has_prefix t canonical_prefix ≡ true → recognise t ≡ none
recognise-name [] h = absurd (false≢true (unfold has_prefix canonical_prefix in h))
recognise-name (c ∷ t) h = ap (λ a. recognise (a ∷ t)) (name_start c t h) ∙ recognise-start t

canonical-name :
    (sha256 : Text → Text) (c : Text)
    → has_prefix (trim_space c) canonical_prefix ≡ true
    → Script.canonical sha256 c ≡ none
unfolding Script.canonical transport_payload
canonical-name sha256 c h = rw (recognise-name (trim_space c) h) refl

module _ (sha256 : Text → Text) (parse : Parser) (p c : Text) (ps_shell : Bool) where
  match_command-name :
      has_prefix (trim_space p) canonical_prefix ≡ true
      → has_prefix (trim_space c) canonical_prefix ≡ true
      → match_command sha256 parse p c ps_shell ≡ false
  match_command-name h g = elim (Bool-cases (match_command sha256 parse p c ps_shell)) [
    | inr e ↦ e
    | inl e ↦
        let q = (match_command-script sha256 parse p c ps_shell h).0 e in
        let n = canonical-name sha256 c g in absurd cc
  ]

  -- A pattern that begins with script: matches the command built from a script of bytes exactly
  -- where the pattern is the name of that interpreter and of the digest of the bytes carried; and
  -- it matches no text that itself begins with script:.
  pub match_command-command :
      (i : Interp) (script raw cmd : Text)
      → All (λ b. b < 256) script
      → carried i script ≡ ok raw
      → command i script ≡ ok cmd
      → has_prefix (trim_space p) canonical_prefix ≡ true
      → has_prefix (trim_space c) canonical_prefix ≡ true
      → ((match_command sha256 parse p cmd ps_shell ≡ true) ↔ (trim_space p ≡ token i (sha256 raw)))
        × (match_command sha256 parse p c ps_shell ≡ false)
  match_command-command i script raw cmd bytes hr hc h g =
      let carries = canonical-command sha256 i script raw cmd bytes hr hc in
      let same = match_command-script sha256 parse p cmd ps_shell h in
      (
        (
          (λ m. some-injective (sym (same.0 m) ∙ carries)),
          (λ e. same.1 (carries ∙ ap some (sym e))),
        ),
        match_command-name h g,
      )
