-- ===== src/Examples/Gate.antt =====
-- The gate at concrete inputs (`internal/agent/agent.go`).
use wanctl.Prelude.{true, false, none, [], ◌≡◌, ◌⊎◌, refl, arith, filter, any}
use wanctl.Bytes.Trim.{trim_space}
use wanctl.Script.{canonical_prefix}
use wanctl.Bytes.{has_prefix, Text, codes, text_eq}
use mathlib.Core.List.{Memᴰ}
use wanctl.Policy.{
  Parser, Rule, Request, Kind, kind_eq, exec, read, exec_elevated, normal, bypass, dir_scope,
}
use wanctl.Policy.Engine.{bypasses, allowed, allowed_file_root, missing, rule_matches}
use wanctl.Policy.Engine.Matching.{Grants}
use wanctl.Approvals.LateGrants.{LateGrants}
use wanctl.Approvals.LateGrants.Store.{use_late_grant, late_approved, put_grant}
use wanctl.Approvals.LateGrants.Invariant.{Inv, here, next, granted, Reach-Inv}
use wanctl.Approvals.LateGrants.Operations.{empty_store, fresh, Used-Inv}
use wanctl.Agent.Gate.FileRoot.{RootFor, gate_file-RootFor}
use wanctl.Agent.Gate.{gate_file, give, Device, Course, gate}
use wanctl.Agent.Gate.Repeat.{looked, gate-again, gate-once}
use wanctl.Agent.Gate.Passes.{gate-Grants}

-- 32 bytes, whatever they sum.
abbrev digest : Text → Text
digest _ = codes "0123456789abcdef0123456789abcdef"

-- No text is a command line.
abbrev no_parse : Parser
no_parse _ = none

-- Nothing is known of directories.
abbrev nowhere : Text → Text
nowhere _ = []

abbrev wanted : Kind → Text → Text → Request
wanted kind cmd path = record {
  kind = kind;
  cmd = cmd;
  path = path;
  cwd = codes "/srv";
  peer = codes "SHA256:a";
  via = [];
}

abbrev on_device : LateGrants → Device
on_device grants = record {
  engine = record { rules = []; mode = normal; has_mode_path = true; ps_shell = false };
  disk = record { rules_file = missing; mode_file = none };
  grants = grants;
  elevation_enabled = false;
}

-- The owner answers `a`: allowed, and remembered for the directory.
abbrev remembers : Course
remembers = record {
  now = 5;
  later = 6;
  checks = true;
  asked_at = 7;
  meanwhile = λ d. d;
  answer = record { allow = true; remember = true; scope = dir_scope };
  checks_after = true;
  added_at = 9;
  written = true;
}

abbrev make : Request
make = wanted exec (codes "make") []

gate-again_example :
    ((gate digest no_parse nowhere make remembers
        (gate digest no_parse nowhere make remembers (on_device empty_store)).device).ok
      ≡ true)
    × ((gate digest no_parse nowhere make remembers
          (gate digest no_parse nowhere make remembers (on_device empty_store)).device).device
        ≡ (gate digest no_parse nowhere make remembers (on_device empty_store)).device)
unfolding has_prefix canonical_prefix trim_space gate bypasses allowed any use_late_grant give
gate-again_example =
    gate-again digest no_parse nowhere make remembers remembers (on_device empty_store) dir_scope
      (λ x. ground arith) (λ e. refl) tt refl

abbrev hosts : Request
hosts = wanted read [] (codes "/etc/hosts")

-- The store in which a late approval of the request waits, for 100 ns.
abbrev waiting : LateGrants
waiting = put_grant read (codes "SHA256:a") (codes "/etc/hosts") [] 100 empty_store

waiting-Inv : Inv waiting
waiting-Inv =
    Reach-Inv (Used-Inv digest empty_store fresh)
      (next here (granted read (codes "SHA256:a") (codes "/etc/hosts") [] 100))

gate-once_example : (remembers.answer.allow ≡ true) × (remembers.checks_after ≡ true)
unfolding gate bypasses allowed any use_late_grant filter put_grant kind_eq text_eq give
gate-once_example =
    gate-once digest no_parse nowhere hosts remembers remembers (on_device waiting) waiting-Inv refl
      refl

abbrev as_root : Request
as_root = wanted exec_elevated (codes "reboot") []

gate-Grants_example :
    ((normal ≡ bypass) × ((kind_eq exec_elevated exec_elevated ≡ false) ⊎ (false ≡ true)))
    ⊎ (((r : Rule) × Memᴰ r []
          × (rule_matches digest no_parse r as_root false ≡ true)
          × Grants r.kind exec_elevated)
        ⊎ (((looked digest no_parse nowhere as_root remembers (on_device empty_store)).0
              ≡ late_approved)
            ⊎ ((true ≡ true) × (true ≡ true))))
unfolding gate bypasses allowed any use_late_grant give
gate-Grants_example =
    gate-Grants digest no_parse nowhere as_root remembers (on_device empty_store) refl

-- The owner answers `y`: allowed for once.
abbrev allows : Course
allows = record remembers { answer = record { allow = true; remember = false; scope = dir_scope } }

gate_file-RootFor_example :
    RootFor digest no_parse hosts
      (on_device empty_store).engine
      (gate_file digest no_parse hosts allows (on_device empty_store)).word
      (gate_file digest no_parse hosts allows (on_device empty_store)).root
unfolding kind_eq gate_file allowed_file_root use_late_grant filter give
gate_file-RootFor_example =
    gate_file-RootFor digest no_parse hosts allows (on_device empty_store) refl refl
