-- ===== src/Examples/Session.antt =====
-- Session capabilities at concrete inputs (`internal/sessionauth/sessionauth.go`).
use wanctl.Prelude.{◌≡◌, refl, [], arith}
use wanctl.Bytes.{codes}
use wanctl.Session.{use_capabilities, caps_valid, caps_text, parse_caps, caps, Open}
use wanctl.Session.Grants.{parse_caps-caps_text}

parse_caps-caps_text_example : parse_caps (caps_text use_capabilities) ≡ caps use_capabilities
unfolding caps_valid
parse_caps-caps_text_example = parse_caps-caps_text use_capabilities (omega arith) refl

-- A session of a grant that runs until 90.
abbrev granted : Open
granted = record {
  session = codes "s";
  caller_namespace = codes "caller";
  owner_namespace = codes "owner";
  device = codes "dev";
  capabilities = use_capabilities;
  grant_id = codes "g";
  credential_id = codes "c";
  controller_fingerprint = codes "SHA256:a";
  expires_at = 90;
  exec_only = [];
}
