-- ===== src/Policy/Engine/RememberFile.antt =====
-- A remembered answer to a read or a write, and the directory that it covers.
use wanctl.Prelude.{
  false≢true, ◌≢◌, ℕ, ◌≡◌, refl, ap, ◌∙◌, inl, inr, Bool, true, false, [], ◌∷◌, ◌++◌, if◌then◌else◌,
  Bool-cases,
}
use wanctl.Policy.{
  is_dir, Scope, dir_scope, Kind, exec, read, write, logs, exec_elevated, other_kind, kind_eq,
  Request, Parser,
}
use wanctl.Policy.Paths.{slash, dot_dot, is_rooted, kept_of, dir_of, within}
use wanctl.Policy.Paths.Laws.{IsReal, NoSlash}
use wanctl.Policy.Paths.Parent.{within-dir_of, within-dir_of_root}
use wanctl.Policy.Engine.Matching.{is_file}
use wanctl.Policy.Engine.Remember.{allowed-add}
use wanctl.Policy.Engine.{
  file_rule, rule_by_kind, matches_kind, Engine, Disk, rule_matches, allowed, add, rule_for,
}
use wanctl.Bytes.{Text, text_eq}

-- A file request is matched by the rule remembered for it exactly where the rule's pattern covers
-- its path.
matches_kind-file_rule :
    (sha256 : Text → Text) (parse : Parser) (req : Request) (scope : Scope) (now : ℕ) (ps : Bool)
    (k : Kind)
    → is_file k ≡ true
    → req.kind ≡ k
    → matches_kind sha256 parse k (rule_by_kind sha256 k req scope now) req ps
      ≡ within (if is_dir scope then dir_of req.path else []) req.path
unfolding matches_kind rule_by_kind file_rule
matches_kind-file_rule sha256 parse req scope now ps read h e = rw e (unfold kind_eq in refl)
matches_kind-file_rule sha256 parse req scope now ps write h e = rw e (unfold kind_eq in refl)
matches_kind-file_rule sha256 parse req scope now ps exec h e =
    absurd (false≢true (unfold kind_eq in h))
matches_kind-file_rule sha256 parse req scope now ps logs h e =
    absurd (false≢true (unfold kind_eq in h))
matches_kind-file_rule sha256 parse req scope now ps exec_elevated h e =
    absurd (false≢true (unfold kind_eq in h))
matches_kind-file_rule sha256 parse req scope now ps (other_kind t) h e =
    absurd (false≢true (unfold kind_eq in h))

-- A read or a write whose answer is remembered for its directory is allowed by the rule that is
-- added for it, where the path is absolute, its last element is not .., and its directory is not
-- the root.
pub remembered_file-allowed :
    (sha256 : Text → Text) (parse : Parser) (e : Engine) (req : Request) (now : ℕ) (written : Bool)
    (d : Disk) (pre base : Text)
    → is_file req.kind ≡ true
    → req.path ≡ pre ++ slash ∷ base
    → NoSlash base
    → is_rooted (pre ++ slash ∷ base) ≡ true
    → text_eq base dot_dot ≡ false
    → kept_of (pre ++ slash ∷ []) ≢ []
    → allowed sha256 parse (add e (rule_for sha256 req dir_scope now) now written d).0 req ≡ true
remembered_file-allowed sha256 parse e req now written d pre base f p h r nd n =
    allowed-add sha256 parse e (rule_for sha256 req dir_scope now) req now written d
      (matched ∙ ap (λ s. within (dir_of s) s) p ∙ within-dir_of pre base h r nd n)
  where
    matched :
        rule_matches sha256 parse (rule_for sha256 req dir_scope now) req e.ps_shell
        ≡ within (dir_of req.path) req.path
    matched =
        unfold rule_matches rule_for in
        matches_kind-file_rule sha256 parse req dir_scope now e.ps_shell req.kind f refl

-- The rule remembered for the directory of a file that stands directly below the root does not
-- match the request that it was remembered for.
pub remembered_at_root :
    (sha256 : Text → Text) (parse : Parser) (req : Request) (now : ℕ) (ps : Bool) (pre base : Text)
    → is_file req.kind ≡ true
    → req.path ≡ pre ++ slash ∷ base
    → NoSlash base
    → is_rooted (pre ++ slash ∷ base) ≡ true
    → IsReal base
    → kept_of (pre ++ slash ∷ []) ≡ []
    → rule_matches sha256 parse (rule_for sha256 req dir_scope now) req ps ≡ false
remembered_at_root sha256 parse req now ps pre base f p h r real top =
    matched ∙ ap (λ s. within (dir_of s) s) p ∙ refused
  where
    matched :
        rule_matches sha256 parse (rule_for sha256 req dir_scope now) req ps
        ≡ within (dir_of req.path) req.path
    matched =
        unfold rule_matches rule_for in
        matches_kind-file_rule sha256 parse req dir_scope now ps req.kind f refl

    refused : within (dir_of (pre ++ slash ∷ base)) (pre ++ slash ∷ base) ≡ false
    refused = elim (Bool-cases (within (dir_of (pre ++ slash ∷ base)) (pre ++ slash ∷ base))) [
      | inl t ↦ absurd (within-dir_of_root pre base h r real top t)
      | inr q ↦ q
    ]
