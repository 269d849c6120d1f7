-- ===== src/Examples/Approvals.antt =====
-- Late approvals and the phone's outbox at concrete inputs (`internal/agent/approvals.go`).
use wanctl.Prelude.{filter, ◌≡◌, ◌∷◌, [], refl, true, All}
use wanctl.Bytes.{Text, codes, text_eq}
use wanctl.Policy.{kind_eq, exec, read, Request}
use wanctl.Approvals.LateGrants.{LateGrants, AskedScript, resolve}
use wanctl.Approvals.LateGrants.Store.{install, use_late_grant, unhandled, put_grant}
use wanctl.Approvals.LateGrants.Invariant.{Inv, here, next, granted, Reach-Inv}
use wanctl.Approvals.LateGrants.Operations.{empty_store, fresh, installed, used, Used-Inv}
use wanctl.Approvals.LateGrants.OneShot.{one_use}
use wanctl.Approvals.LateGrants.Scripts.{named, resolve-All}
use wanctl.Approvals.Outbox.{ApprovalPhone, ApprovalCard, state_done}

-- 32 bytes, whatever they sum.
abbrev sum : Text → Text
sum _ = codes "0123456789abcdef0123456789abcdef"

abbrev listing : Request
listing = record {
  kind = read;
  cmd = [];
  path = codes "/etc/hosts";
  cwd = [];
  peer = codes "SHA256:a";
  via = [];
}

-- The store in which a late approval of the request waits, for 100 ns.
abbrev waiting : LateGrants
waiting = put_grant read (codes "SHA256:a") (codes "/etc/hosts") [] 100 empty_store

waiting-Inv : Inv waiting
waiting-Inv =
    Reach-Inv (Used-Inv sum empty_store fresh)
      (next here (granted read (codes "SHA256:a") (codes "/etc/hosts") [] 100))

one_use_example :
    (use_late_grant sum listing true 7 8 (use_late_grant sum listing true 5 6 waiting).1).0
    ≡ unhandled
unfolding use_late_grant put_grant filter kind_eq text_eq
one_use_example = one_use sum listing true true 5 6 7 8 waiting waiting-Inv refl

Used-Inv_example :
    Inv
      (use_late_grant sum listing true 7 8
        (install read
          (codes "/etc/hosts")
          (codes "SHA256:a")
          (codes "owner")
          []
          100
          5
          empty_store).1).1
Used-Inv_example =
    Used-Inv sum
      (use_late_grant sum listing true 7 8
        (install read (codes "/etc/hosts") (codes "SHA256:a") (codes "owner") [] 100 5
          empty_store).1).1
      (used listing true 7 8
        (installed read (codes "/etc/hosts") (codes "SHA256:a") (codes "owner") [] 100 5 fresh))

abbrev script_asked : AskedScript
script_asked = record {
  kind = exec;
  fp = codes "SHA256:a";
  label = codes "script:sh:01";
  token = codes "script:sh:0123";
  at = 5;
}

resolve-All_example :
    All
      (λ s.
        named exec (codes "SHA256:a") (codes "script:sh:01") s ≡ true
        → s.token ≡ codes "script:sh:0123")
      (script_asked ∷ [])
unfolding resolve kind_eq text_eq
resolve-All_example =
    resolve-All exec (codes "SHA256:a") (codes "script:sh:01") (codes "script:sh:0123")
      (script_asked ∷ []) (refl, tt) refl

abbrev phone : ApprovalPhone
phone = record { outbox = []; consoles = 0 ∷ []; next_id = 1 }

abbrev done_card : ApprovalCard
done_card = record { card_id = codes "a1"; state = state_done }
