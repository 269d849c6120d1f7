-- ===== src/Agent/Gate/Passes.antt =====
-- gate, of internal/agent/agent.go: what a request passes by.
use wanctl.Prelude.{Bool, true, false, ◌≡◌, ◌⊎◌, inl, inr, refl, arith}
use wanctl.Bytes.{Text}
use mathlib.Core.List.{Memᴰ}
use wanctl.Policy.{
  Mode, normal, bypass, other_mode, Kind, kind_eq, exec, read, write, logs, exec_elevated,
  other_kind, Request, Rule, Parser,
}
use wanctl.Policy.Engine.{Engine, bypasses, rule_matches}
use wanctl.Policy.Engine.Matching.{Grants, allowed-Grants}
use wanctl.Approvals.LateGrants.Store.{late_approved}
use wanctl.Agent.Gate.{Device, Course, gate}
use wanctl.Agent.Gate.Repeat.{looked, gate-ok}

bypasses-cases :
    (m : Mode) (k : Kind) (e : Engine) (elevation : Bool)
    → e.mode ≡ m
    → bypasses e k elevation ≡ true
    → (m ≡ bypass) × ((kind_eq k exec_elevated ≡ false) ⊎ (elevation ≡ true))
unfolding bypasses kind_eq
bypasses-cases normal k e x q h = absurd (ground arith)
bypasses-cases (other_mode t) k e x q h = absurd (ground arith)
bypasses-cases bypass exec e x q h = (refl, inl refl)
bypasses-cases bypass read e x q h = (refl, inl refl)
bypasses-cases bypass write e x q h = (refl, inl refl)
bypasses-cases bypass logs e x q h = (refl, inl refl)
bypasses-cases bypass (other_kind t) e x q h = (refl, inl refl)
bypasses-cases bypass exec_elevated e x q h = (refl, inr (ground arith))

module _ (sha256 : Text → Text) (parse : Parser) (canonical_dir : Text → Text) (req : Request) where
  -- A request that passes the gate passes by bypass mode, an elevated command only where elevation
  -- is switched on too; or by a rule of the engine that matches it, whose kind may let requests of
  -- its kind through; or by a late approval; or the owner allowed it and the delegation still ran
  -- after the answer.
  pub gate-Grants :
      (c : Course) (d : Device)
      → (gate sha256 parse canonical_dir req c d).ok ≡ true
      → ((d.engine.mode ≡ bypass)
          × ((kind_eq req.kind exec_elevated ≡ false) ⊎ (d.elevation_enabled ≡ true)))
        ⊎ (((r : Rule) × Memᴰ r d.engine.rules
              × (rule_matches sha256 parse r req d.engine.ps_shell ≡ true)
              × Grants r.kind req.kind)
            ⊎ (((looked sha256 parse canonical_dir req c d).0 ≡ late_approved)
                ⊎ ((c.answer.allow ≡ true) × (c.checks_after ≡ true))))
  gate-Grants c d h = elim (gate-ok sha256 parse canonical_dir req c d h) [
    | inl b ↦ inl (bypasses-cases d.engine.mode req.kind d.engine d.elevation_enabled refl b)
    | inr (inl a) ↦ inr (inl (allowed-Grants sha256 parse d.engine req a))
    | inr (inr (inl l)) ↦ inr (inr (inl l))
    | inr (inr (inr p)) ↦ inr (inr (inr (p.1, p.2)))
  ]
