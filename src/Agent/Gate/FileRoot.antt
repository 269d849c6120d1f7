-- ===== src/Agent/Gate/FileRoot.antt =====
-- gateFile, of internal/agent/agent.go: the directory in which the file may be opened.
use wanctl.Prelude.{
  if◌then◌else◌, [], false≢true, ℕ, true, none, some, Option, ◌≡◌, inl, inr, refl, arith,
  Bool-cases,
}
use wanctl.Bytes.{Text}
use wanctl.Policy.Paths.{within, dir_of}
use wanctl.Policy.{
  Scope, is_dir, Mode, normal, bypass, other_mode, Kind, kind_eq, exec, read, write, logs,
  exec_elevated, other_kind, Request, Parser,
}
use wanctl.Policy.Engine.{Engine, rule_by_kind, rule_for, allowed_file_root}
use wanctl.Policy.Engine.Matching.{is_file, allowed_file_root-within}
use wanctl.Approvals.LateGrants.Store.{Decision, unhandled, inactive, late_approved, use_late_grant}
use wanctl.Agent.Gate.{
  Word, bypassed, pre_approved, late, approved, remembered, delegation_inactive, denied,
  unsupported, Device, Course, give, settle, decide_late, mode_bypasses, file_with_root, gate_file,
}

-- The directory in which the file may be opened, for each way in which a request passes: the whole
-- volume in bypass mode, the pattern of the first rule that matches, for an approval for once the
-- directory of the path, and for one that is remembered the directory or, globally, the whole volume.
abbrev pub RootFor : (Text → Text) → Parser → Request → Engine → Word → Text → Type 0
RootFor sha256 parse req e bypassed root = (e.mode ≡ bypass) × (root ≡ [])
RootFor sha256 parse req e pre_approved root =
    (allowed_file_root sha256 parse e req ≡ some root) × (within root req.path ≡ true)
RootFor sha256 parse req e late root = root ≡ dir_of req.path
RootFor sha256 parse req e approved root = root ≡ dir_of req.path
RootFor sha256 parse req e (remembered scope) root =
    root ≡ (if is_dir scope then dir_of req.path else [])
RootFor sha256 parse req e delegation_inactive root = ⊥
RootFor sha256 parse req e denied root = ⊥
RootFor sha256 parse req e unsupported root = ⊥

-- The rule for a read or a write names the directory, or nothing.
file_rule-root :
    (sha256 : Text → Text) (req : Request) (scope : Scope) (now : ℕ) (k : Kind)
    → is_file k ≡ true
    → (rule_by_kind sha256 k req scope now).pattern ≡ (if is_dir scope then dir_of req.path else [])
unfolding kind_eq rule_by_kind
file_rule-root sha256 req scope now read f = refl
file_rule-root sha256 req scope now write f = refl
file_rule-root sha256 req scope now exec f = absurd (false≢true f)
file_rule-root sha256 req scope now exec_elevated f = absurd (false≢true f)
file_rule-root sha256 req scope now logs f = absurd (false≢true f)
file_rule-root sha256 req scope now (other_kind t) f = absurd (false≢true f)

module _ (sha256 : Text → Text) (parse : Parser) (req : Request) (e : Engine) where
  settle-RootFor :
      (c : Course) (d : Device)
      → is_file req.kind ≡ true
      → let o = settle (rule_for sha256 req c.answer.scope c.added_at) (dir_of req.path) c d in
        o.ok ≡ true → RootFor sha256 parse req e o.word o.root
  unfolding settle give rule_for
  settle-RootFor c d f h = elim (Bool-cases c.checks_after) [
    | inr n ↦ absurd (ground arith)
    | inl n ↦ elim (Bool-cases c.answer.allow) [
      | inr a ↦ absurd (ground arith)
      | inl a ↦ elim (Bool-cases c.answer.remember) [
        | inl m ↦ rw (n, a, m) (file_rule-root sha256 req c.answer.scope c.added_at req.kind f)
        | inr m ↦ rw (n, a, m) refl
      ]
    ]
  ]

  decide-RootFor :
      (x : Decision) (d noted : Device) (c : Course)
      → is_file req.kind ≡ true
      → let o =
          decide_late x
            (rule_for sha256 req c.answer.scope c.added_at)
            (dir_of req.path)
            d
            noted
            c in
        o.ok ≡ true → RootFor sha256 parse req e o.word o.root
  unfolding decide_late give
  decide-RootFor late_approved d noted c f h = refl
  decide-RootFor inactive d noted c f h = absurd (false≢true h)
  decide-RootFor unhandled d noted c f h = settle-RootFor c (c.meanwhile noted) f h

bypass_mode : (m : Mode) → mode_bypasses m ≡ true → m ≡ bypass
unfolding mode_bypasses
bypass_mode bypass h = refl
bypass_mode normal h = absurd (false≢true h)
bypass_mode (other_mode t) h = absurd (false≢true h)

module _ (sha256 : Text → Text) (parse : Parser) (req : Request) where
  file_with_root-RootFor :
      (o : Option Text) (c : Course) (d : Device)
      → is_file req.kind ≡ true
      → allowed_file_root sha256 parse d.engine req ≡ o
      → (file_with_root sha256 parse o req c d).ok ≡ true
      → RootFor sha256 parse req d.engine
          (file_with_root sha256 parse o req c d).word
          (file_with_root sha256 parse o req c d).root
  unfolding file_with_root give
  file_with_root-RootFor (some root) c d f e h =
      (e, allowed_file_root-within sha256 parse d.engine req root e)
  file_with_root-RootFor none c d f e h =
      let (x, left) = use_late_grant sha256 req c.checks c.now c.later d.grants in
      let d' : Device = record d { grants = left } in
      decide-RootFor sha256 parse req d.engine x d' d' c f h

  -- Where a read or a write passes its gate, the root that it answers is: empty, which is the
  -- whole volume, in bypass mode; by a rule, the one that the engine reports, which covers the
  -- path; by a late approval, or the owner's for once, the directory of the path; and by an answer
  -- that is remembered, that directory where its scope is the directory, and empty otherwise.
  pub gate_file-RootFor :
      (c : Course) (d : Device)
      → is_file req.kind ≡ true
      → (gate_file sha256 parse req c d).ok ≡ true
      → RootFor sha256 parse req d.engine
          (gate_file sha256 parse req c d).word
          (gate_file sha256 parse req c d).root
  unfolding gate_file give
  gate_file-RootFor c d f h = elim (Bool-cases (mode_bypasses d.engine.mode)) [
    | inl b ↦ rw b (bypass_mode d.engine.mode b, refl)
    | inr b ↦ rw b (
        file_with_root-RootFor (allowed_file_root sha256 parse d.engine req) c d f refl
          (ground (arith, h, b)))
  ]
