-- ===== src/Examples/Script.antt =====
-- Carried scripts and their names at concrete inputs (`internal/script/script.go`).
use wanctl.Prelude.{◌≡◌, refl, some, arith}
use wanctl.Bytes.{Text, codes}
use wanctl.Encoding.Base64
use wanctl.Script.{posix, command, canonical, token}
use wanctl.Script.Transport.{canonical-command}

-- 32 bytes, whatever they sum.
abbrev sum : Text → Text
sum _ = codes "0123456789abcdef0123456789abcdef"

abbrev script : Text
script = codes "ls"

-- The transport of the script.
abbrev transport : Text
transport = codes "printf %s 'bHM=' | base64 -d | sh"

canonical-command_example : canonical sum transport ≡ some (token posix (sum script))
unfolding command Base64.encode Base64.char_of
canonical-command_example =
    canonical-command sum posix script script transport (ground arith) refl refl
