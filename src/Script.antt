-- ===== src/Script.antt =====
-- internal/script/script.go: scripts carried as inert commands, and their stable names.
pub mod Transport
pub mod Names
use wanctl.Prelude.{
  ℕ, ◌+◌, ◌-◌, ◌/◌, ◌%◌, ◌≡◌, Bool, true, false, ◌&&◌, ◌||◌, not, Option, none, some, List, [], ◌∷◌,
  ◌++◌, ◌==◌, ltb, leb, if◌then◌else◌, length, take, drop, ◌>>=◌,
}
use wanctl.Bytes.{Text, codes, text_eq, has_prefix, has_suffix, cut_prefix, cut_at}
use wanctl.Bytes.Trim.{trim_space}
use wanctl.Encoding.Base64
use wanctl.Encoding.Hex.{hex_encode}
use wanctl.Encoding.Utf8.{runes, valid, utf16_encode}

pub data Interp : Type 0 where
  power_shell posix : Interp

unfoldable pub interp_name : Interp → Text
interp_name power_shell = codes "powershell"
interp_name posix = codes "sh"

unfoldable pub max_command : ℕ
max_command = 24000

unfoldable pub ps_prologue : Text
ps_prologue = codes "$ProgressPreference='SilentlyContinue';\n"

pub data ScriptError : Type 0 where
  too_large not_utf8 : ScriptError

pub data Result {ℓ} (A : Type ℓ) : Type ℓ where
  ok : A → Result A
  err : ScriptError → Result A

-- The bytes of 16-bit units, the low one first.
unfoldable pub little_endian : List ℕ → Text
little_endian [] = []
little_endian (u ∷ us) = (u % 256) ∷ (u / 256 % 256) ∷ little_endian us

unfoldable pub utf16_le : Text → Text
unfolding little_endian
utf16_le s = little_endian (utf16_encode (runes s))

abbrev pub byte_order_mark : Text
byte_order_mark = 0xEF ∷ 0xBB ∷ 0xBF ∷ []

-- `bytes.TrimPrefix(source, BOM)`
unfoldable pub drop_mark : Text → Text
drop_mark s = if has_prefix s byte_order_mark then drop 3 s else s

unfoldable pub session_source : Interp → Text → Result Text
unfolding ps_prologue drop_mark
session_source posix source = ok source
session_source power_shell source =
    let src = drop_mark source in if valid src then ok (ps_prologue ++ src) else err not_utf8

-- What stands before and after the payload of a transport.
unfoldable pub before : Interp → Text
before posix = codes "printf %s '"
before power_shell = codes "powershell -NoProfile -NonInteractive -EncodedCommand '"

unfoldable pub after : Interp → Text
after posix = codes "' | base64 -d | sh"
after power_shell = codes "'"

-- The bytes that a script's transport encodes.
unfoldable pub carried : Interp → Text → Result Text
unfolding session_source
carried posix script = ok script
carried power_shell script = elim (session_source power_shell script) [
  | ok src ↦ ok (utf16_le src)
  | err e ↦ err e
]

unfoldable pub envelope : Interp → Text → Text
envelope interp raw = before interp ++ (Base64.encode raw ++ after interp)

unfoldable pub within_limit : Text → Result Text
unfolding max_command
within_limit cmd = if ltb max_command (length cmd) then err too_large else ok cmd

unfoldable pub command : Interp → Text → Result Text
unfolding carried envelope within_limit before after
command interp script = elim (carried interp script) [
  | ok raw ↦ within_limit (envelope interp raw)
  | err e ↦ err e
]

unfoldable pub wrapped : Text → Text → Text → Bool
wrapped c pre post =
    leb (length pre + length post) (length c) && (has_prefix c pre && has_suffix c post)

-- `c[len(pre) : len(c)-len(post)]`
unfoldable pub payload : Text → Text → Text → Text
payload c pre post = drop (length pre) (take (length c - length post) c)

unfoldable pub recognise : Text → Option (Interp × Text)
recognise c =
    if wrapped c (before posix) (after posix)
    then some (posix, payload c (before posix) (after posix))
    else if wrapped c (before power_shell) (after power_shell)
    then some (power_shell, payload c (before power_shell) (after power_shell))
    else none

unfoldable pub transport_payload : Text → Option (Interp × Text)
unfolding recognise wrapped payload before after
transport_payload s = recognise (trim_space s)

unfoldable pub canonical_prefix : Text
canonical_prefix = codes "script:"

abbrev pub short_hex : ℕ
short_hex = 16

unfoldable pub token : Interp → Text → Text
unfolding canonical_prefix interp_name
token interp sum = canonical_prefix ++ (interp_name interp ++ b':' ∷ hex_encode sum)

-- `sha256` is `sha256.Sum256`.
unfoldable pub canonical : (Text → Text) → Text → Option Text
unfolding token
canonical sha256 cmd = do
  (interp, enc) ← transport_payload cmd
  raw ← Base64.decode enc
  some (token interp (sha256 raw))

unfoldable pub lower_hex : Text → Bool
lower_hex [] = true
lower_hex (c ∷ s) = not ((ltb c b'0' || ltb b'9' c) && (ltb c b'a' || ltb b'f' c)) && lower_hex s

-- "…" in UTF-8
abbrev pub ellipsis : Text
ellipsis = 0xE2 ∷ 0x80 ∷ 0xA6 ∷ []

unfoldable pub known_interp : Text → Bool
unfolding interp_name
known_interp s = text_eq s (interp_name posix) || text_eq s (interp_name power_shell)

unfoldable pub short_digest : Text → Text → Text → Text
unfolding known_interp lower_hex canonical_prefix
short_digest tok interp digest =
    if known_interp interp && (length digest == 64 && lower_hex digest)
    then canonical_prefix ++ (interp ++ b':' ∷ (take short_hex digest ++ ellipsis))
    else tok

unfoldable pub short_rest : Text → Text → Text
unfolding short_digest
short_rest tok rest = elim (cut_at b':' rest) [
  | none ↦ tok
  | some (interp, digest) ↦ short_digest tok interp digest
]

unfoldable pub short : Text → Text
unfolding short_rest canonical_prefix
short tok = elim (cut_prefix tok canonical_prefix) [ none ↦ tok | some rest ↦ short_rest tok rest ]
