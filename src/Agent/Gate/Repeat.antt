-- ===== src/Agent/Gate/Repeat.antt =====
-- gate, of internal/agent/agent.go, on its branches and on a request that comes again.
use wanctl.Prelude.{
  ◌≢◌, true, false, ◌≡◌, ◌⊎◌, inl, inr, refl, ap, ◌∙◌, sym, subst, Bool-cases, false≢true, arith,
  [],
}
use wanctl.Bytes.{Text}
use wanctl.Policy.{Scope, Request, Rule, Parser}
use wanctl.Policy.Engine.{add, bypasses, allowed, rule_for}
use wanctl.Approvals.LateGrants.{LateGrants}
use wanctl.Approvals.LateGrants.Invariant.{Inv}
use wanctl.Approvals.LateGrants.OneShot.{one_use}
use wanctl.Approvals.LateGrants.Store.{
  Decision, unhandled, inactive, late_approved, asked, use_late_grant,
}
use wanctl.Policy.Engine.Remember.{SumsBytes, NotName, IsCommand, remembered_command-allowed}
use wanctl.Agent.Gate.{
  Device, Course, bypassed, pre_approved, late, remembered, give, late_request, settle, decide_late,
  gate,
}

module _ (sha256 : Text → Text) (parse : Parser) (canonical_dir : Text → Text) (req : Request) where
  -- What the late approvals answer, and the store that they leave.
  abbrev pub looked : Course → Device → Decision × LateGrants
  looked c d =
      use_late_grant sha256 (late_request canonical_dir req.kind req) c.checks c.now c.later
        d.grants

  abbrev pub noted : Course → Device → Device
  noted c d = record d {
    grants = asked sha256 (late_request canonical_dir req.kind req) c.asked_at (looked c d).1;
  }

  abbrev the_rule : Course → Rule
  the_rule c = rule_for sha256 req c.answer.scope c.added_at

  gate-bypassed :
      (c : Course) (d : Device)
      → bypasses d.engine req.kind d.elevation_enabled ≡ true
      → gate sha256 parse canonical_dir req c d ≡ give true bypassed [] d
  unfolding gate
  gate-bypassed c d h = rw h refl

  gate-pre_approved :
      (c : Course) (d : Device)
      → bypasses d.engine req.kind d.elevation_enabled ≡ false
      → allowed sha256 parse d.engine req ≡ true
      → gate sha256 parse canonical_dir req c d ≡ give true pre_approved [] d
  unfolding gate
  gate-pre_approved c d h a = rw (h, a) refl

  gate-late :
      (c : Course) (d : Device)
      → bypasses d.engine req.kind d.elevation_enabled ≡ false
      → allowed sha256 parse d.engine req ≡ false
      → gate sha256 parse canonical_dir req c d
        ≡ record (decide_late
            (looked c d).0
            (the_rule c)
            []
            (record d { grants = (looked c d).1 })
            (noted c d)
            c) { root = [] }
  unfolding gate
  gate-late c d h a = rw (h, a) refl

-- An answer that is remembered adds the rule.
settle-remembered :
    (rule : Rule) (root : Text) (c : Course) (d : Device) (s : Scope)
    → (settle rule root c d).word ≡ remembered s
    → (settle rule root c d).device.engine ≡ (add d.engine rule c.added_at c.written d.disk).0
unfolding settle give
settle-remembered rule root c d s h = elim (Bool-cases c.checks_after) [
  | inr e ↦ absurd cc
  | inl e ↦ elim (Bool-cases c.answer.allow) [
    | inr a ↦ absurd cc
    | inl a ↦ elim (Bool-cases c.answer.remember) [ inr m ↦ absurd cc | inl m ↦ rw (e, a, m) refl ]
  ]
]

-- Where the owner is asked, an answer lets the request through only if the owner allows it and the
-- delegation still runs.
settle-ok :
    (rule : Rule) (root : Text) (c : Course) (d : Device)
    → (settle rule root c d).ok ≡ true
    → (c.answer.allow ≡ true) × (c.checks_after ≡ true)
unfolding settle give
settle-ok rule root c d h = elim (Bool-cases c.checks_after) [
  | inr e ↦ absurd (ground arith)
  | inl e ↦ elim (Bool-cases c.answer.allow) [ inr a ↦ absurd (ground arith) | inl a ↦ (a, e) ]
]

settle-never_late :
    (rule : Rule) (root : Text) (c : Course) (d : Device) → (settle rule root c d).word ≢ late
unfolding settle give
settle-never_late rule root c d h = elim (Bool-cases c.checks_after) [
  | inr e ↦ cc
  | inl e ↦ elim (Bool-cases c.answer.allow) [
    | inr a ↦ cc
    | inl a ↦ elim (Bool-cases c.answer.remember) [ inr m ↦ cc | inl m ↦ cc ]
  ]
]

module _ (rule : Rule) (root : Text) (d noted : Device) (c : Course) where
  decide-remembered :
      (x : Decision) (s : Scope)
      → (decide_late x rule root d noted c).word ≡ remembered s
      → (decide_late x rule root d noted c).device.engine
        ≡ (add (c.meanwhile noted).engine rule c.added_at c.written (c.meanwhile noted).disk).0
  unfolding decide_late give
  decide-remembered late_approved s h = cc
  decide-remembered inactive s h = cc
  decide-remembered unhandled s h = settle-remembered rule root c (c.meanwhile noted) s h

  decide-late_word :
      (x : Decision)
      → (decide_late x rule root d noted c).word ≡ late
      → (x ≡ late_approved) × ((decide_late x rule root d noted c).device ≡ d)
  unfolding decide_late give
  decide-late_word late_approved h = (refl, refl)
  decide-late_word inactive h = absurd cc
  decide-late_word unhandled h = absurd (settle-never_late rule root c (c.meanwhile noted) h)

  decide-ok :
      (x : Decision)
      → (decide_late x rule root d noted c).ok ≡ true
      → (x ≡ late_approved) ⊎ ((x ≡ unhandled) × (c.answer.allow ≡ true) × (c.checks_after ≡ true))
  unfolding decide_late give
  decide-ok late_approved h = inl refl
  decide-ok inactive h = absurd (false≢true h)
  decide-ok unhandled h =
      let p = settle-ok rule root c (c.meanwhile noted) h in inr (refl, p.0, p.1)

module _ (sha256 : Text → Text) (parse : Parser) (canonical_dir : Text → Text) (req : Request) where
  -- A gate that has a word of its own neither bypassed the policy nor found a rule.
  gate-cases :
      (c : Course) (d : Device)
      → (gate sha256 parse canonical_dir req c d ≡ give true bypassed [] d)
        ⊎ ((gate sha256 parse canonical_dir req c d ≡ give true pre_approved [] d)
            ⊎ ((bypasses d.engine req.kind d.elevation_enabled ≡ false)
                × (allowed sha256 parse d.engine req ≡ false)))
  gate-cases c d = elim (Bool-cases (bypasses d.engine req.kind d.elevation_enabled)) [
    | inl b ↦ inl (gate-bypassed sha256 parse canonical_dir req c d b)
    | inr b ↦ elim (Bool-cases (allowed sha256 parse d.engine req)) [
      | inl a ↦ inr (inl (gate-pre_approved sha256 parse canonical_dir req c d b a))
      | inr a ↦ inr (inr (b, a))
    ]
  ]

  gate-remembered :
      (c : Course) (d : Device) (s : Scope)
      → (gate sha256 parse canonical_dir req c d).word ≡ remembered s
      → SumsBytes sha256
      → NotName sha256 req.cmd
      → IsCommand req.kind
      → allowed sha256 parse (gate sha256 parse canonical_dir req c d).device.engine req ≡ true
  unfolding give
  gate-remembered c d s h bytes ordinary k = elim (gate-cases c d) [
    | inl e ↦ absurd cc
    | inr (inl e) ↦ absurd cc
    | inr (inr (b, a)) ↦
        let n = noted sha256 parse canonical_dir req c d in
        let g = gate-late sha256 parse canonical_dir req c d b a in
        let x = (looked sha256 parse canonical_dir req c d) in
        let rule = rule_for sha256 req c.answer.scope c.added_at in
        let e =
          ap (λ o. o.device.engine) g
          ∙ decide-remembered rule [] (record d { grants = x.1 }) n c x.0 s
              (sym (ap (λ o. o.word) g) ∙ h) in
        subst (λ y. allowed sha256 parse y req ≡ true) (sym e)
          (remembered_command-allowed sha256 parse (c.meanwhile n).engine req c.answer.scope
            c.added_at c.written (c.meanwhile n).disk bytes ordinary k)
  ]

  -- Where the owner's answer to a command was remembered, whatever happened to the device while
  -- the owner was asked, and in any scope, the same command passes the gate again and changes
  -- nothing of the device; the command is no command line spelled like the name of a script, and
  -- digests are bytes.
  pub gate-again :
      (c again : Course) (d : Device) (s : Scope)
      → SumsBytes sha256
      → NotName sha256 req.cmd
      → IsCommand req.kind
      → (gate sha256 parse canonical_dir req c d).word ≡ remembered s
      → ((gate sha256 parse canonical_dir req again
            (gate sha256 parse canonical_dir req c d).device).ok
          ≡ true)
        × ((gate sha256 parse canonical_dir req again
              (gate sha256 parse canonical_dir req c d).device).device
            ≡ (gate sha256 parse canonical_dir req c d).device)
  unfolding give
  gate-again c again d s bytes ordinary k h =
      let d' = (gate sha256 parse canonical_dir req c d).device in
      let p = gate-remembered c d s h bytes ordinary k in
      elim (gate-cases again d') [
        | inl e ↦ (ap (λ o. o.ok) e, ap (λ o. o.device) e)
        | inr (inl e) ↦ (ap (λ o. o.ok) e, ap (λ o. o.device) e)
        | inr (inr (b, a)) ↦ absurd (ground (arith, p, a))
      ]

  gate-late_word :
      (c : Course) (d : Device)
      → (gate sha256 parse canonical_dir req c d).word ≡ late
      → (bypasses d.engine req.kind d.elevation_enabled ≡ false)
        × (allowed sha256 parse d.engine req ≡ false)
        × ((looked sha256 parse canonical_dir req c d).0 ≡ late_approved)
        × ((gate sha256 parse canonical_dir req c d).device
            ≡ record d { grants = (looked sha256 parse canonical_dir req c d).1 })
  unfolding give
  gate-late_word c d h = elim (gate-cases c d) [
    | inl e ↦ absurd cc
    | inr (inl e) ↦ absurd cc
    | inr (inr (b, a)) ↦
        let g = gate-late sha256 parse canonical_dir req c d b a in
        let x = looked sha256 parse canonical_dir req c d in
        let w =
          decide-late_word (rule_for sha256 req c.answer.scope c.added_at) []
            (record d { grants = x.1 }) (noted sha256 parse canonical_dir req c d) c x.0
            (sym (ap (λ o. o.word) g) ∙ h) in
        (b, a, w.0, ap (λ o. o.device) g ∙ w.1)
  ]

  pub gate-ok :
      (c : Course) (d : Device)
      → (gate sha256 parse canonical_dir req c d).ok ≡ true
      → (bypasses d.engine req.kind d.elevation_enabled ≡ true)
        ⊎ ((allowed sha256 parse d.engine req ≡ true)
            ⊎ (((looked sha256 parse canonical_dir req c d).0 ≡ late_approved)
                ⊎ (((looked sha256 parse canonical_dir req c d).0 ≡ unhandled)
                    × (c.answer.allow ≡ true)
                    × (c.checks_after ≡ true))))
  gate-ok c d h = elim (Bool-cases (bypasses d.engine req.kind d.elevation_enabled)) [
    | inl b ↦ inl b
    | inr b ↦ elim (Bool-cases (allowed sha256 parse d.engine req)) [
      | inl a ↦ inr (inl a)
      | inr a ↦
          let g = gate-late sha256 parse canonical_dir req c d b a in
          let x = looked sha256 parse canonical_dir req c d in
          inr (
            inr (
              decide-ok (rule_for sha256 req c.answer.scope c.added_at) []
                (record d { grants = x.1 }) (noted sha256 parse canonical_dir req c d) c x.0
                (sym (ap (λ o. o.ok) g) ∙ h)))
    ]
  ]

  -- From a device whose late approvals keep their invariant: where a late approval let a request
  -- through the gate, the same request passes the gate again, at any times, only if the owner
  -- allows it then and the delegation still runs.
  pub gate-once :
      (c again : Course) (d : Device)
      → Inv d.grants
      → (gate sha256 parse canonical_dir req c d).word ≡ late
      → (gate sha256 parse canonical_dir req again
          (gate sha256 parse canonical_dir req c d).device).ok
        ≡ true
      → (again.answer.allow ≡ true) × (again.checks_after ≡ true)
  gate-once c again d i w h =
      let (b, a, l, e) = gate-late_word c d w in
      let d' : Device = record d { grants = (looked sha256 parse canonical_dir req c d).1 } in
      let u =
        one_use sha256 (late_request canonical_dir req.kind req) c.checks again.checks c.now c.later
          again.now again.later d.grants i l in
      elim (gate-ok again d'
        (subst (λ y. (gate sha256 parse canonical_dir req again y).ok ≡ true) e h)) [
          | inl p ↦ absurd (ground (arith, p, b))
          | inr (inl p) ↦ absurd (ground (arith, p, a))
          | inr (inr (inl p)) ↦ absurd cc
          | inr (inr (inr p)) ↦ (p.1, p.2)
        ]
