-- ===== src/Script/Transport.antt =====
-- What `Canonical` reads from a command that `Command` built.
use wanctl.Prelude.{
  ◌>>=◌, none, Option, ℕ, ◌-◌, ◌<◌, ◌≡◌, ap, subst, ◌∙◌, true, false, some, List, [], ◌∷◌, ◌++◌,
  append_assoc, arith, length, length-append, take-append, drop-append, All,
}
use wanctl.Bytes.{Text, codes, text_eq, has_prefix}
use wanctl.Bytes.Laws.{has_prefix-append, has_suffix-append}
use wanctl.Bytes.Trim.{trim_space}
use wanctl.Bytes.Trim.Twice.{trim_space_idem}
use wanctl.Bytes.Trim.Plain.{trim_space-ends}
use wanctl.Encoding.Utf8.{runes, utf16_encode}
use wanctl.Encoding.Base64.RoundTrip.{decode-encode}
use wanctl.Script.{
  Interp, power_shell, posix, Result, ok, err, little_endian, utf16_le, session_source, before,
  after, carried, envelope, within_limit, command, wrapped, payload, transport_payload, recognise,
  token, canonical,
}
use wanctl.Encoding.Base64

little_endian-bytes : (us : List ℕ) → All (λ c. c < 256) (little_endian us)
unfolding little_endian
little_endian-bytes [] = tt
little_endian-bytes (u ∷ us) = (omega arith, (omega arith, little_endian-bytes us))

utf16_le-bytes : (src : Text) → All (λ c. c < 256) (utf16_le src)
unfolding utf16_le
utf16_le-bytes src = little_endian-bytes (utf16_encode (runes src))

ok_injective : {s t : Text} → ◌≡◌ {A = Result Text} (ok s) (ok t) → s ≡ t
ok_injective h = cc

-- Whatever the interpreter, what is encoded is a list of bytes.
carried-bytes :
    (i : Interp) (script raw : Text)
    → All (λ c. c < 256) script
    → carried i script ≡ ok raw
    → All (λ c. c < 256) raw
unfolding carried
carried-bytes posix script raw hb h = rw (ok_injective h) at hb
carried-bytes power_shell script raw hb h = encoded (session_source power_shell script) h
  where
    encoded :
        (r : Result Text)
        → ◌≡◌ {A = Result Text} (elim r [ ok src ↦ ok (utf16_le src) | err e ↦ err e ]) (ok raw)
        → All (λ c. c < 256) raw
    encoded (ok src) e = subst (All (λ c. c < 256)) (ok_injective e) (utf16_le-bytes src)
    encoded (err e) e' = cc

wrapped-append : (pre enc post : Text) → wrapped (pre ++ (enc ++ post)) pre post ≡ true
unfolding wrapped
wrapped-append pre enc post = ground (
  arith,
  length-append pre (enc ++ post),
  length-append enc post,
  has_prefix-append pre (enc ++ post),
  append_assoc pre enc post,
  has_suffix-append (pre ++ enc) post,
)

payload-append : (pre enc post : Text) → payload (pre ++ (enc ++ post)) pre post ≡ enc
unfolding payload
payload-append pre enc post = rw (← append_assoc) (
    let e : length ((pre ++ enc) ++ post) - length post ≡ length (pre ++ enc) =
      omega (arith, length-append (pre ++ enc) post) in
    rw e (rw take-append (drop-append pre enc)))

trim_space-envelope : (i : Interp) (raw : Text) → trim_space (envelope i raw) ≡ envelope i raw
unfolding envelope before after
trim_space-envelope posix raw =
    trim_space-ends b'p' b'h' (codes "rintf %s '" ++ Base64.encode raw) (codes "' | base64 -d | s")
      (omega arith) (omega arith)
trim_space-envelope power_shell raw =
    trim_space-ends b'p' 39
      (codes "owershell -NoProfile -NonInteractive -EncodedCommand '" ++ Base64.encode raw) []
      (omega arith) (omega arith)

-- A PowerShell transport does not begin like a POSIX one.
not-wrapped_posix :
    (raw : Text) → wrapped (envelope power_shell raw) (before posix) (after posix) ≡ false
unfolding wrapped has_prefix text_eq envelope before after
not-wrapped_posix raw = ground arith

recognise-envelope :
    (i : Interp) (raw : Text) → recognise (envelope i raw) ≡ some (i, Base64.encode raw)
unfolding recognise envelope
recognise-envelope posix raw =
    rw (wrapped-append (before posix) (Base64.encode raw) (after posix)) (rw payload-append)
recognise-envelope power_shell raw = rw (not-wrapped_posix raw) (
    rw (wrapped-append (before power_shell) (Base64.encode raw) (after power_shell))
      (rw payload-append))

pub transport_payload-envelope :
    (i : Interp) (raw : Text) → transport_payload (envelope i raw) ≡ some (i, Base64.encode raw)
unfolding transport_payload
transport_payload-envelope i raw =
    ap recognise (trim_space-envelope i raw) ∙ recognise-envelope i raw

within_limit-ok : (s cmd : Text) → within_limit s ≡ ok cmd → s ≡ cmd
unfolding within_limit
within_limit-ok s cmd h = ground arith

-- A command is its envelope, and is within the limit.
pub command-eq-envelope :
    (i : Interp) (script raw cmd : Text)
    → carried i script ≡ ok raw
    → command i script ≡ ok cmd
    → envelope i raw ≡ cmd
unfolding command
command-eq-envelope i script raw cmd hr hc =
    within_limit-ok (envelope i raw) cmd (rw (hr, command) at hc)

module _ (sha256 : Text → Text) where
  -- Where a command is built from a script of bytes, its canonical name is that of the interpreter
  -- and of the digest of the very bytes that the command carries.
  pub canonical-command :
      (i : Interp) (script raw cmd : Text)
      → All (λ c. c < 256) script
      → carried i script ≡ ok raw
      → command i script ≡ ok cmd
      → canonical sha256 cmd ≡ some (token i (sha256 raw))
  unfolding canonical
  canonical-command i script raw cmd hb hr hc = rw (← command-eq-envelope i script raw cmd hr hc) (
      rw (transport_payload-envelope i raw)
        (rw (decode-encode raw (carried-bytes i script raw hb hr))))

-- White space around a command does not change the script that it is found to carry.
pub transport_payload-trim_space :
    (s : Text) → transport_payload (trim_space s) ≡ transport_payload s
unfolding transport_payload
transport_payload-trim_space s = ap recognise (trim_space_idem s)

-- Whatever `Canonical` returns is the name of some bytes.
pub canonical-token :
    (sha256 : Text → Text) (cmd tok : Text)
    → canonical sha256 cmd ≡ some tok
    → (i : Interp) × (raw : Text) × (tok ≡ token i (sha256 raw))
canonical-token sha256 cmd tok h = named (transport_payload cmd) (unfold canonical in h)
  where
    decoded :
        (i : Interp) (o : Option Text)
        → (o >>= λ raw. some (token i (sha256 raw))) ≡ some tok
        → (i : Interp) × (raw : Text) × (tok ≡ token i (sha256 raw))
    decoded i none e = absurd (ground (arith, e))
    decoded i (some raw) e = (i, raw, ground (arith, e))

    named :
        (o : Option (Interp × Text))
        → (o >>= λ (i, enc). Base64.decode enc >>= λ raw. some (token i (sha256 raw))) ≡ some tok
        → (i : Interp) × (raw : Text) × (tok ≡ token i (sha256 raw))
    named none e = absurd (ground (arith, e))
    named (some (i, enc)) e = decoded i (Base64.decode enc) e
