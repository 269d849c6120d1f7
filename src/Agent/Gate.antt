-- ===== src/Agent/Gate.antt =====
-- internal/agent/agent.go, gate and gateFile: whether a request may proceed. They ask the policy
-- engine, then the late approvals, then the owner.
pub mod Repeat
pub mod Passes
pub mod FileRoot
use wanctl.Prelude.{some, none, [], false, not, Option, if◌then◌else◌, true, ℕ, Bool}
use wanctl.Bytes.{Text, codes, text_eq}
use wanctl.Policy.{Mode, bypass, Scope, Kind, exec, exec_elevated, logs, Request, Rule, Parser}
use wanctl.Policy.Paths.{dir_of}
use wanctl.Policy.Engine.{Engine, Disk, add, bypasses, allowed, allowed_file_root, rule_for}
use wanctl.Approvals.LateGrants.{LateGrants}
use wanctl.Approvals.LateGrants.Store.{
  Decision, unhandled, inactive, late_approved, asked, use_late_grant,
}

-- What the device keeps between requests.
pub record Device : Type 0 where
  pub engine : Engine
  pub disk : Disk
  pub grants : LateGrants
  pub elevation_enabled : Bool

-- `policy.Decision`: the owner's answer.
pub record Answer : Type 0 where
  pub allow : Bool
  pub remember : Bool
  pub scope : Scope

-- What one call meets: the clocks that it reads, what `checksPass` says at a late grant and after the
-- owner's answer, what happens to the device while the owner is asked, and whether the file of the
-- rules can be written.
pub record Course : Type 0 where
  pub now : ℕ
  pub later : ℕ
  pub checks : Bool
  pub asked_at : ℕ
  pub meanwhile : Device → Device
  pub answer : Answer
  pub checks_after : Bool
  pub added_at : ℕ
  pub written : Bool

-- The decision string; `late` is the one of `useLateGrant`.
pub data Word : Type 0 where
  bypassed pre_approved delegation_inactive denied approved late unsupported : Word
  remembered : Scope → Word

pub record Outcome : Type 0 where
  pub ok : Bool
  pub word : Word
  pub root : Text  -- what gateFile answers besides
  pub device : Device

unfoldable pub give : Bool → Word → Text → Device → Outcome
give ok word root d = record { ok = ok; word = word; root = root; device = d }

-- The request that is compared with late approvals.
unfoldable pub late_request : (Text → Text) → Kind → Request → Request
late_request canonical_dir exec req = record req { cwd = canonical_dir req.cwd }
late_request canonical_dir exec_elevated req = record req { cwd = canonical_dir req.cwd }
late_request canonical_dir _ req = req

-- What is done with the owner's answer; `rule` is the rule to remember, and `asked_root` the root
-- of an approval for once.
unfoldable pub settle : Rule → Text → Course → Device → Outcome
settle rule asked_root c d =
    if not c.checks_after
    then give false delegation_inactive [] d
    else if not c.answer.allow
    then give false denied [] d
    else if c.answer.remember
    then (let (engine, disk, written) = add d.engine rule c.added_at c.written d.disk in
        give true (remembered c.answer.scope) rule.pattern
          (record d { engine = engine; disk = disk }))
    else give true approved asked_root d

-- The owner is asked where no late approval decided; `noted` is the device when that begins.
unfoldable pub decide_late : Decision → Rule → Text → Device → Device → Course → Outcome
unfolding settle
decide_late late_approved rule asked_root d noted c = give true late asked_root d
decide_late inactive rule asked_root d noted c = give false delegation_inactive [] d
decide_late unhandled rule asked_root d noted c = settle rule asked_root c (c.meanwhile noted)

unfoldable pub mode_bypasses : Mode → Bool
mode_bypasses bypass = true
mode_bypasses _ = false

unfoldable pub read_event_log : Text
read_event_log = codes "read-event-log"

module _ (sha256 : Text → Text) (parse : Parser) where
  -- `gate`; `canonical_dir` is `canonicalApprovalDir`, which walks the file system.
  unfoldable pub gate : (Text → Text) → Request → Course → Device → Outcome
  unfolding late_request decide_late
  gate canonical_dir req c d =
      let wanted = late_request canonical_dir req.kind req in
      let (decision, left) = use_late_grant sha256 wanted c.checks c.now c.later d.grants in
      let d' = record d { grants = left } in
      let noted = record d { grants = asked sha256 wanted c.asked_at left } in
      let rule = rule_for sha256 req c.answer.scope c.added_at in
      if bypasses d.engine req.kind d.elevation_enabled
      then give true bypassed [] d
      else if allowed sha256 parse d.engine req
      then give true pre_approved [] d
      else record (decide_late decision rule [] d' noted c) { root = [] }

  -- `gateDataCapability`
  unfoldable pub gate_data_capability : (Text → Text) → Text → Text → Course → Device → Outcome
  unfolding gate
  gate_data_capability canonical_dir cap peer c d =
      if text_eq cap read_event_log
      then gate canonical_dir
          (record { kind = logs; cmd = []; path = []; cwd = []; peer = peer; via = [] }) c d
      else give false unsupported [] d

  unfoldable pub file_with_root : Option Text → Request → Course → Device → Outcome
  unfolding decide_late
  file_with_root (some root) req c d = give true pre_approved root d
  file_with_root none req c d =
      let (decision, left) = use_late_grant sha256 req c.checks c.now c.later d.grants in
      let d' = record d { grants = left } in
      decide_late decision (rule_for sha256 req c.answer.scope c.added_at) (dir_of req.path) d' d' c

  -- `gateFile`
  unfoldable pub gate_file : Request → Course → Device → Outcome
  unfolding file_with_root mode_bypasses
  gate_file req c d =
      if mode_bypasses d.engine.mode
      then give true bypassed [] d
      else file_with_root (allowed_file_root sha256 parse d.engine req) req c d
