-- ===== src/Examples/Trust.antt =====
-- Pinned peers at concrete inputs (`internal/transport/trust.go`).
use wanctl.Trust.Pins.{OneEach, Bound, pin-Bound}
use wanctl.Trust.Reordered.{pin-mismatch}
use mathlib.Core.List.Permᴰ
use wanctl.Prelude.{some, filter, ◌≡◌, refl, true, false, [], ◌∷◌, arith}
use wanctl.Bytes.{Text, codes, text_eq, has_prefix}
use wanctl.Trust.{Peer, valid_fingerprint, mismatch, pin_peers, get_by_name}
use wanctl.Trust.OneEach.{pin-OneEach}
use wanctl.Encoding.Base64

-- The fingerprint of 32 zero bytes.
abbrev zeros : Text
zeros = codes "SHA256:AAAAAAAAAAAAAAAAAAAAAAAAAAAAAAAAAAAAAAAAAAA="

abbrev server : Peer
server = record {
  fingerprint = codes "SHA256:old";
  name = codes "owner/dev";
  label = [];
  added = 3;
  last_seen = 3;
}

zeros-valid : valid_fingerprint zeros ≡ true
unfolding valid_fingerprint Base64.decode has_prefix text_eq filter Base64.value_of
zeros-valid = refl

pin-Bound_example :
    Bound (codes "owner/dev") zeros 9 (pin_peers (codes "owner/dev") zeros true 9 (server ∷ [])).1
unfolding pin_peers valid_fingerprint Base64.decode has_prefix text_eq filter Base64.value_of
pin-Bound_example = pin-Bound (codes "owner/dev") zeros 9 true (server ∷ []) (tt, tt) refl

pin-OneEach_example : OneEach (pin_peers (codes "owner/dev") zeros true 9 (server ∷ [])).1
pin-OneEach_example = pin-OneEach (codes "owner/dev") zeros 9 true (server ∷ []) (tt, tt)

abbrev other : Peer
other = record server { name = codes "owner/tab" }

-- The pin goes through the map in another order than the look-up.
pin-mismatch_example :
    (pin_peers (codes "owner/dev") zeros false 9 (other ∷ server ∷ [])
      ≡ (mismatch (codes "SHA256:old"), other ∷ server ∷ []))
    × (get_by_name (codes "owner/dev") (other ∷ server ∷ []) ≡ some server)
unfolding get_by_name text_eq
pin-mismatch_example =
    pin-mismatch (codes "owner/dev") zeros 9 server (server ∷ other ∷ []) (other ∷ server ∷ [])
      ((refl, tt), (tt, tt)) (Permᴰ.swap refl refl) zeros-valid refl (λ e. absurd (ground arith))
