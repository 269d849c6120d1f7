-- ===== src/Adb/Wire.antt =====
-- internal/adb/wire.go: the frames of the protocol.
pub mod RoundTrip
use wanctl.Prelude.{
  ℕ, ◌+◌, ◌-◌, ◌*◌, ◌/◌, ◌%◌, ◌^◌, Bool, true, false, ◌&&◌, ◌||◌, not, Option, none, some, List, [],
  ◌∷◌, ◌++◌, ◌==◌, ltb, leb, take, drop, map, any, if◌then◌else◌, length,
}
use wanctl.Prelude.Results.{Fallible, ok, err, ◌>>=◌, ◌>>◌, refuse}
use wanctl.Bytes.{Text, codes, is_empty}
use wanctl.Encoding.Hex.{hex_encode}

-- `binary.LittleEndian.PutUint32` and `Uint32`
unfoldable pub put_word : ℕ → Text
put_word n = (n % 256) ∷ (n / 256 % 256) ∷ (n / 65536 % 256) ∷ (n / 16777216 % 256) ∷ []

-- At least four bytes are there, as every call sees to.
unfoldable pub word : Text → ℕ
word (a ∷ b ∷ c ∷ d ∷ _) = a + b * 256 + c * 65536 + d * 16777216
word _ = 0

-- The tag of a message, from its spelling.
unfoldable pub cmd : Text → ℕ
unfolding word
cmd s = word s

unfoldable pub cmd_cnxn : ℕ
unfolding cmd
cmd_cnxn = cmd (codes "CNXN")

unfoldable pub cmd_auth : ℕ
unfolding cmd
cmd_auth = cmd (codes "AUTH")

unfoldable pub cmd_open : ℕ
unfolding cmd
cmd_open = cmd (codes "OPEN")

unfoldable pub cmd_okay : ℕ
unfolding cmd
cmd_okay = cmd (codes "OKAY")

unfoldable pub cmd_clse : ℕ
unfolding cmd
cmd_clse = cmd (codes "CLSE")

unfoldable pub cmd_wrte : ℕ
unfolding cmd
cmd_wrte = cmd (codes "WRTE")

unfoldable pub cmd_stls : ℕ
unfolding cmd
cmd_stls = cmd (codes "STLS")

-- `%08x`: eight hex digits, the high ones first.
unfoldable pub hex_word : ℕ → Text
unfolding hex_encode
hex_word n =
    hex_encode ((n / 16777216 % 256) ∷ (n / 65536 % 256) ∷ (n / 256 % 256) ∷ (n % 256) ∷ [])

unfoldable pub command_name : ℕ → Text
unfolding put_word any hex_word
command_name c =
    if any (λ ch. ltb ch 0x20 || ltb 0x7E ch) (put_word c)
    then codes "0x" ++ hex_word c
    else put_word c

abbrev pub header_size : ℕ
header_size = 24

abbrev pub max_payload : ℕ
max_payload = 1048576

pub record Message : Type 0 where
  pub command : ℕ
  pub arg0 : ℕ
  pub arg1 : ℕ
  pub payload : Text

-- A sum in uint32.
unfoldable pub checksum_from : ℕ → Text → ℕ
checksum_from sum [] = sum
checksum_from sum (b ∷ s) = checksum_from ((sum + b) % 2 ^ 32) s

unfoldable pub checksum : Text → ℕ
unfolding checksum_from
checksum s = checksum_from 0 s

-- `^ 0xffffffff` on a uint32: every bit the other way.
unfoldable pub complement : ℕ → ℕ
complement n = 0xFFFFFFFF - n

unfoldable pub header : Message → Text
unfolding put_word checksum complement
header m =
    put_word m.command
    ++ (put_word m.arg0
        ++ (put_word m.arg1
            ++ (put_word (length m.payload % 2 ^ 32)
                ++ (put_word (checksum m.payload) ++ put_word (complement m.command)))))

-- What `write` puts on the wire, in one write.
unfoldable pub write : Message → Text
write m = header m ++ m.payload

pub data WireError : Type 0 where
  eof unexpected_eof bad_magic too_large bad_checksum : WireError

abbrev pub Result {ℓ} : Type ℓ → Type ℓ
Result A = Fallible WireError A

-- `io.ReadFull`: the bytes, and what is left of the stream.
unfoldable pub read_full : ℕ → Text → Result (Text × Text)
read_full n s =
    if leb n (length s)
    then ok (take n s, drop n s)
    else if is_empty s
    then err eof
    else err unexpected_eof

-- The payload that a header announces.
unfoldable pub read_payload : Bool → ℕ → ℕ → Text → Result (Text × Text)
unfolding read_full checksum
read_payload verify size want s = do
  (body, rest) ← read_full size s
  refuse (verify && not (checksum body == want)) bad_checksum
  ok (body, rest)

-- The words of a header: the checks, and the payload that follows.
unfoldable pub accept : ℕ → ℕ → ℕ → ℕ → ℕ → ℕ → ℕ → Bool → Text → Result (Message × Text)
accept command arg0 arg1 size want magic limit verify rest = do
  refuse (not (magic == complement command)) bad_magic
  refuse (ltb limit size) too_large
  (body, left) ← (if size == 0 then ok ([], rest) else read_payload verify size want rest)
  ok (record { command = command; arg0 = arg0; arg1 = arg1; payload = body }, left)

-- `readMessage` on a stream, with what is left of it.
unfoldable pub read_message : Text → ℕ → Bool → Result (Message × Text)
read_message s limit verify = do
  (hdr, rest) ← read_full header_size s
  accept (word hdr) (word (drop 4 hdr)) (word (drop 8 hdr)) (word (drop 12 hdr))
      (word (drop 16 hdr)) (word (drop 20 hdr)) limit verify rest
