-- ===== src/Examples/Termsafe.antt =====
-- Text for a terminal at concrete inputs (`internal/termsafe/termsafe.go`).
use wanctl.Prelude.{false, List, [], ◌∷◌, ◌++◌, ◌≡◌, refl, true, concat}
use wanctl.Bytes.{Text, codes}
use wanctl.Encoding.Utf8.{rune_start, full_rune, decode_rune}
use wanctl.Termsafe.{
  append_one, escape_by, escape, write, write_data, incomplete_tail, tail_from, first_byte,
  escape_rune, kept_control, append_hex, flush, escape_step, at_crlf,
}
use wanctl.Termsafe.Stream.{stream}
use wanctl.Termsafe.Shown.{safe}
use wanctl.Termsafe.Safe.{safe-stream}
use wanctl.Termsafe.Escape.{safe-escape}

-- A character and a control of two bytes that are split across writes, and one that never ends.
abbrev writes : List Text
writes =
    (13 ∷ 27 ∷ 91 ∷ [])
    ∷ (0xE4 ∷ [])
    ∷ (0xBD ∷ 0xA0 ∷ [])
    ∷ (0xC2 ∷ [])
    ∷ (0x9B ∷ [])
    ∷ (0xE5 ∷ 0xA5 ∷ [])
    ∷ []

streamed :
    stream [] writes ≡ 13 ∷ (codes "\\x1b[" ++ (0xE4 ∷ 0xBD ∷ 0xA0 ∷ codes "\\u009b\\xe5\\xa5"))
unfolding stream write write_data escape_by incomplete_tail tail_from rune_start first_byte
    full_rune append_one escape_rune decode_rune kept_control append_hex flush
streamed = refl

safe-stream_example :
    (stream [] writes ≡ escape_by (append_one true) 0 (concat writes))
    × (safe true (stream [] writes) ≡ true)
safe-stream_example = safe-stream writes

abbrev message : Text
message = 13 ∷ (codes "ok" ++ (0xC2 ∷ 0x9B ∷ 0x9B ∷ 13 ∷ 10 ∷ 9 ∷ []))

escaped : escape message ≡ codes "\\x0dok\\u009b\\x9b" ++ (13 ∷ 10 ∷ 9 ∷ [])
unfolding escape escape_by escape_step at_crlf append_one escape_rune decode_rune kept_control
    append_hex first_byte
escaped = refl

safe-escape_example :
    (safe false (escape message) ≡ true) × (escape (escape message) ≡ escape message)
safe-escape_example = safe-escape message
