-- ===== src/Policy/Engine/Restart.antt =====
-- What an agent finds again after a restart: its mode and its rules.
use wanctl.Prelude.{
  All, All-append, map, ap, ◌∙◌, refl, Bool-cases, inl, inr, ◌==◌, ℕ, ◌≡◌, Bool, true, false, some,
  List, [], ◌∷◌, ◌++◌,
}
use wanctl.Bytes.{text_eq}
use wanctl.Bytes.Trim.{trim_space}
use wanctl.Encoding.Utf8.{valid}
use wanctl.Encoding.Utf8.Replaced.{replaced-valid}
use wanctl.Policy.{
  Kind, exec, read, write, logs, exec_elevated, other_kind, Scope, dir_scope, global_scope,
  other_scope, Mode, normal, bypass, Rule,
}
use wanctl.Policy.Engine.{
  json_kind, json_scope, json_rule, Engine, contents, Disk, no_mode, open_engine, set_mode, add,
  stamped,
}

-- The two modes that a mode file can hold.
pub data IsMode : Mode → Type 0 where
  is_normal : IsMode normal
  is_bypass : IsMode bypass

-- Whether the strings of a rule are valid UTF-8.
abbrev kind_valid : Kind → Bool
kind_valid (other_kind t) = valid t
kind_valid _ = true

abbrev scope_valid : Scope → Bool
scope_valid (other_scope t) = valid t
scope_valid _ = true

abbrev pub IsUtf8 : Rule → Type 0
IsUtf8 r =
    (kind_valid r.kind ≡ true)
    × (valid r.pattern ≡ true)
    × (valid r.dir ≡ true)
    × (scope_valid r.scope ≡ true)

json_kind-valid : (k : Kind) → kind_valid k ≡ true → json_kind k ≡ k
unfolding json_kind
json_kind-valid (other_kind t) h = ap other_kind (replaced-valid t h)
json_kind-valid exec h = refl
json_kind-valid read h = refl
json_kind-valid write h = refl
json_kind-valid logs h = refl
json_kind-valid exec_elevated h = refl

json_scope-valid : (s : Scope) → scope_valid s ≡ true → json_scope s ≡ s
unfolding json_scope
json_scope-valid (other_scope t) h = ap other_scope (replaced-valid t h)
json_scope-valid dir_scope h = refl
json_scope-valid global_scope h = refl

json_rule-IsUtf8 : (r : Rule) → IsUtf8 r → json_rule r ≡ r
unfolding json_rule
json_rule-IsUtf8 r h =
    ap (λ k. record (json_rule r) { kind = k }) (json_kind-valid r.kind h.0)
    ∙ ap (λ t. record (json_rule r) { kind = r.kind; pattern = t }) (replaced-valid r.pattern h.1)
    ∙ ap (λ t. record (json_rule r) { kind = r.kind; pattern = r.pattern; dir = t })
        (replaced-valid r.dir h.2)
    ∙ ap (λ t. record r { scope = t }) (json_scope-valid r.scope h.3)

map-json_rule : (rs : List Rule) → All IsUtf8 rs → map json_rule rs ≡ rs
map-json_rule [] h = refl
map-json_rule (r ∷ rs) h =
    ap (λ x. x ∷ map json_rule rs) (json_rule-IsUtf8 r h.0)
    ∙ ap (λ xs. r ∷ xs) (map-json_rule rs h.1)

stamped-IsUtf8 : (r : Rule) (now : ℕ) → IsUtf8 r → IsUtf8 (stamped r now)
unfolding stamped
stamped-IsUtf8 r now h = elim (Bool-cases (r.added == 0)) [ inl e ↦ rw e h | inr e ↦ rw e h ]

reopened :
    (e : Engine) (m : Mode) (d : Disk) (r : Rule) (now : ℕ) (written : Bool)
    → IsMode m
    → e.has_mode_path ≡ true
    → (let (e', d') = set_mode e m true d in
        (open_engine no_mode written (add e' r now true d').1).0)
      ≡ some (record {
        rules = map json_rule (e.rules ++ stamped r now ∷ []);
        mode = m;
        has_mode_path = true;
        ps_shell = false;
      })
unfolding open_engine set_mode add trim_space text_eq
reopened e m d r now written is_normal hp = rw hp
reopened e m d r now written is_bypass hp = rw hp

-- After the mode is set to normal or bypass and a rule is added, both written, and where the texts
-- of all rules are valid UTF-8, an engine that is opened with no mode given has that mode and
-- every rule, the new one last.
pub open_engine-add :
    (e : Engine) (m : Mode) (d : Disk) (r : Rule) (now : ℕ) (written : Bool)
    → IsMode m
    → e.has_mode_path ≡ true
    → All IsUtf8 e.rules
    → IsUtf8 r
    → (let (e', d') = set_mode e m true d in
        (open_engine no_mode written (add e' r now true d').1).0)
      ≡ some (record {
        rules = e.rules ++ stamped r now ∷ [];
        mode = m;
        has_mode_path = true;
        ps_shell = false;
      })
open_engine-add e m d r now written is_m hp hs h =
    let all : List Rule = e.rules ++ stamped r now ∷ [] in
    reopened e m d r now written is_m hp
    ∙ ap (λ rs. some (record { rules = rs; mode = m; has_mode_path = true; ps_shell = false }))
        (map-json_rule all
          (All-append IsUtf8 e.rules (stamped r now ∷ []) hs (stamped-IsUtf8 r now h, tt)))

-- Where the rules file holds rules, an engine that is opened in the mode normal or bypass has that
-- mode whatever the mode file says, and an engine that is opened later with none is the same.
pub open_engine_given :
    (m : Mode) (d : Disk) (rs : List Rule) (written : Bool)
    → IsMode m
    → d.rules_file ≡ contents (some rs)
    → let (first, d') = open_engine m true d in
      (first ≡ some (record { rules = rs; mode = m; has_mode_path = true; ps_shell = false }))
      × ((open_engine no_mode written d').0 ≡ first)
unfolding open_engine trim_space text_eq
open_engine_given m d rs written is_normal h = (rw h, rw h)
open_engine_given m d rs written is_bypass h = (rw h, rw h)
