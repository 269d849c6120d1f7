-- ===== src/Adb/Wire/RoundTrip.antt =====
-- A message that is written is read back, and what follows it is left.
use wanctl.Prelude.Results.{ok}
use wanctl.Prelude.{
  ℕ, ◌+◌, ◌%◌, ◌^◌, ◌≤◌, ◌<◌, ◌≡◌, refl, arith, Bool, true, false, not, ◌&&◌, [], ◌∷◌, ◌++◌, ◌==◌,
  ltb, leb, drop, length, if◌then◌else◌, length-append, take-append, drop-append, append_assoc,
  subst,
}
use wanctl.Bytes.{Text}
use wanctl.Adb.Wire.{
  put_word, word, Message, checksum, checksum_from, complement, header, write, read_full,
  read_payload, read_message, header_size, accept,
}

word-put_word : (n : ℕ) (s : Text) → n < 2 ^ 32 → word (put_word n ++ s) ≡ n
unfolding word put_word
word-put_word n s h = omega arith

checksum_from-lt : (sum : ℕ) (s : Text) → sum < 2 ^ 32 → checksum_from sum s < 2 ^ 32
unfolding checksum_from
checksum_from-lt sum [] h = h
checksum_from-lt sum (b ∷ s) h = checksum_from-lt ((sum + b) % 2 ^ 32) s (omega arith)

checksum-lt : (s : Text) → checksum s < 2 ^ 32
unfolding checksum
checksum-lt s = checksum_from-lt 0 s (omega arith)

read_full-append : (s rest : Text) → read_full (length s) (s ++ rest) ≡ ok (s, rest)
unfolding read_full
read_full-append s rest =
    let e : leb (length s) (length (s ++ rest)) ≡ true = ground (arith, length-append s rest) in
    rw (e, take-append, drop-append)

-- The fields of a message fit uint32.
pub record Fits (m : Message) : Type 0 where
  pub command : m.command < 2 ^ 32
  pub arg0 : m.arg0 < 2 ^ 32
  pub arg1 : m.arg1 < 2 ^ 32

verified : (verify : Bool) (n : ℕ) → (verify && not (n == n)) ≡ false
verified verify n = ground arith

read_payload-append :
    (verify : Bool) (s rest : Text)
    → read_payload verify (length s) (checksum s) (s ++ rest) ≡ ok (s, rest)
unfolding read_payload
read_payload-append verify s rest = rw (read_full-append s rest) (rw (verified verify (checksum s)))

body-append :
    (verify : Bool) (s rest : Text)
    → (if length s == 0
        then ok ([], s ++ rest)
        else read_payload verify (length s) (checksum s) (s ++ rest))
      ≡ ok (s, rest)
body-append verify [] rest = refl
body-append verify (c ∷ s) rest =
    let e : (length (c ∷ s) == 0) ≡ false = ground arith in
    rw e (read_payload-append verify (c ∷ s) rest)

accept_lem :
    (command arg0 arg1 limit : ℕ) (verify : Bool) (s rest : Text)
    → length s ≤ limit
    → accept command arg0 arg1 (length s) (checksum s) (complement command) limit verify (s ++ rest)
      ≡ ok (record { command = command; arg0 = arg0; arg1 = arg1; payload = s }, rest)
unfolding accept
accept_lem command arg0 arg1 limit verify s rest l =
    let e : not (complement command == complement command) ≡ false = ground arith in
    let f : ltb limit (length s) ≡ false = ground arith in rw (e, f, body-append verify s rest)

length-header : (m : Message) → length (header m) ≡ 24
unfolding header
length-header m = refl

abbrev Words : Message → Text → Type 0
Words m h =
    (word h ≡ m.command)
    × (word (drop 4 h) ≡ m.arg0)
    × (word (drop 8 h) ≡ m.arg1)
    × (word (drop 12 h) ≡ length m.payload)
    × (word (drop 16 h) ≡ checksum m.payload)
    × (word (drop 20 h) ≡ complement m.command)

header-Words : (m : Message) → Fits m → length m.payload < 2 ^ 32 → Words m (header m)
unfolding header word
header-Words m f l = omega (arith, checksum-lt m.payload)

-- A frame whose words fit 32 bits and whose payload is within the reader's limit is read back as
-- it was written, with its checksum verified or not, and what follows it is left on the stream.
pub read_message-write :
    (m : Message) (rest : Text) (limit : ℕ) (verify : Bool)
    → Fits m
    → length m.payload ≤ limit
    → limit < 2 ^ 32
    → read_message (write m ++ rest) limit verify ≡ ok (m, rest)
unfolding read_message write
read_message-write m rest limit verify f l k =
    let w = header-Words m f (omega arith) in
    let start : read_full header_size (header m ++ (m.payload ++ rest))
        ≡ ok (header m, m.payload ++ rest) =
      subst (λ n. read_full n (header m ++ (m.payload ++ rest)) ≡ ok (header m, m.payload ++ rest))
        (length-header m) (read_full-append (header m) (m.payload ++ rest)) in
    rw (append_assoc (header m) m.payload rest, start, w.0, w.1, w.2, w.3, w.4, w.5)
      (accept_lem m.command m.arg0 m.arg1 limit verify m.payload rest l)
