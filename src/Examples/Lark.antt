-- ===== src/Examples/Lark.antt =====
-- One-shot grants at concrete inputs (`internal/lark/grants.go`).
use wanctl.Prelude.{List, ◌≡◌, refl, arith, [], ◌∷◌}
use wanctl.Bytes.{codes, text_eq}
use wanctl.Lark.Grants.{Grant, Grants, ok, err, chat_mismatch, new_grants, put, consume}
use wanctl.Lark.Grants.OneShot.{Call, binding, consuming, run, IsRefused, consume_once}
use wanctl.Lark.Grants.WrongChat.{wrong_chat-keeps}

abbrev grant : Grant
grant = record {
  nonce = codes "n";
  ns = codes "home";
  device = codes "desk";
  pending_id = codes "p";
  pairing_fp = [];
  chat_id = codes "owner";
  expires_at = 100;
}

abbrev issued : Grants
issued = record new_grants { active = put (codes "n") grant new_grants.active }

abbrev calls_between : List Call
calls_between =
    binding (codes "n") (codes "owner") 20
    ∷ consuming (codes "n") (codes "owner") (codes "f") 30
    ∷ []

consume_once_example :
    IsRefused
      (consume
        (codes "n")
        (codes "owner")
        (codes "g")
        40
        (run calls_between (consume (codes "n") (codes "owner") (codes "e") 10 issued).1)).0
unfolding consume text_eq
consume_once_example =
    consume_once (codes "n") (codes "owner") (codes "e") (codes "owner") (codes "g") 10 40 issued
      grant calls_between refl (tt, (tt, tt))

wrong_chat-keeps_example :
    ((consume (codes "n") (codes "guest") (codes "e") 10 issued).0 ≡ err chat_mismatch)
    × ((consume
          (codes "n")
          (codes "owner")
          (codes "f")
          20
          (consume (codes "n") (codes "guest") (codes "e") 10 issued).1).0
        ≡ ok grant)
unfolding text_eq
wrong_chat-keeps_example =
    wrong_chat-keeps (codes "n") (codes "guest") (codes "e") (codes "f") 10 20 issued grant
      (record { active = refl; named = refl; bound = refl })
      (record { from_chat = refl; numbered = refl; unseen = refl })
      (record { from_chat = refl; numbered = refl; unseen = refl }) (λ e. absurd (ground arith))
      (λ e. absurd (ground arith)) (omega arith) (omega arith)
