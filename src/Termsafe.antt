-- ===== src/Termsafe.antt =====
-- internal/termsafe/termsafe.go: text from elsewhere, made safe to put on a terminal.
pub mod Escape
pub mod Shown
pub mod Safe
pub mod Stream
pub mod Tail
use wanctl.Prelude.{
  ◌%◌, ◌^◌, not, ◌/◌, suc, zero, ltb, drop, leb, take, ◌&&◌, ◌||◌, false, ◌-◌, ◌==◌, Bool,
  if◌then◌else◌, length, true, ◌∷◌, ◌++◌, ◌≡◌, [], ℕ,
}
use wanctl.Encoding.Utf8.{rune_error, decode_rune, rune_start, full_rune}
use wanctl.Encoding.Hex.{hex_digit}
use wanctl.Bytes.{Text, codes, is_empty}

-- The loop of `appendHex`, from the digit with this number downward.
unfoldable pub hex_digits : ℕ → ℕ → Text
unfolding hex_digit
hex_digits v zero = []
hex_digits v (suc n) = hex_digit (v / 16 ^ n % 16) ∷ hex_digits v n

unfoldable pub append_hex : Text → ℕ → ℕ → Text
unfolding hex_digits
append_hex prefix v n = prefix ++ hex_digits v n

unfoldable pub first_byte : Text → ℕ
first_byte [] = 0
first_byte (c ∷ s) = c

-- The characters that are left alone though they are controls.
unfoldable pub kept_control : Bool → ℕ → Bool
kept_control keep_cr r = r == 10 || (r == 9 || (r == 13 && keep_cr))

unfoldable pub escape_rune : Bool → Text → ℕ × ℕ → Text × ℕ
escape_rune keep_cr b (r, size) =
    if r == rune_error && leb size 1
    then (append_hex (codes "\\x") (first_byte b) 2, 1)
    else if kept_control keep_cr r
    then (r ∷ [], 1)
    else if ltb r 0x20 || r == 0x7f
    then (append_hex (codes "\\x") r 2, 1)
    else if leb 0x80 r && leb r 0x9f
    then (append_hex (codes "\\u") r 4, size)
    else (take size b, size)

-- `appendOne`: what it appends, and how many bytes it takes.
unfoldable pub append_one : Bool → Text → Text × ℕ
append_one keep_cr b = escape_rune keep_cr b (decode_rune b)

-- A loop over the bytes that takes as many as each step says.
unfoldable pub escape_by : (Text → Text × ℕ) → ℕ → Text → Text
escape_by step skip [] = []
escape_by step (suc skip) (c ∷ s) = escape_by step skip s
escape_by step zero (c ∷ s) = let (out, n) = step (c ∷ s) in out ++ escape_by step (n - 1) s

unfoldable pub at_crlf : Text → Bool
at_crlf (c ∷ d ∷ s) = c == 13 && d == 10
at_crlf _ = false

unfoldable pub escape_step : Text → Text × ℕ
escape_step b = if at_crlf b then (13 ∷ 10 ∷ [], 2) else append_one false b

-- `Escape`
unfoldable pub escape : Text → Text
escape s = escape_by escape_step 0 s

-- The loop of `incompleteTail` from the end on, for this many more bytes; `k` is `len(b) - i`.
unfoldable pub tail_from : ℕ → ℕ → Text → ℕ
tail_from zero k b = 0
tail_from (suc n) k b =
    let rest = tail_from n (suc k) b in
    let tail = drop (length b - k) b in
    if ltb (length b) k
    then 0
    else if not (rune_start (first_byte tail))
    then rest
    else if full_rune tail
    then 0
    else k

unfoldable pub incomplete_tail : Text → ℕ
incomplete_tail b = tail_from 4 1 b

-- What `Write` gives to the underlying writer, and what it holds then: both are so whether that
-- writer fails or not.
unfoldable pub write_data : Text → Text × Text
write_data all =
    let body = length all - incomplete_tail all in
    (escape_by (append_one true) 0 (take body all), drop body all)

unfoldable pub write : Text → Text → Text × Text
write p held = write_data (held ++ p)

-- `Flush`
unfoldable pub flush : Text → Text × Text
flush held = (escape_by (append_one true) 0 held, [])
