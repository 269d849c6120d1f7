-- ===== src/Trust.antt =====
-- The set of trusted peers (internal/transport/trust.go).
--
-- The Go map is a list in the order in which a call goes through it, keyed by fingerprint and name.
-- Another call may go through another order: a statement on two calls is on two lists.
-- `written` says whether the file could be written; a store in memory alone has no file. The file is
-- the list of peers that was saved last, or `none` where its bytes do not parse.
pub mod Pins
pub mod OneEach
pub mod Reordered
use wanctl.Prelude.{
  ◌==◌, length, drop, map, ℕ, Bool, true, false, ◌&&◌, not, Option, none, some, List, [], ◌∷◌, ◌++◌,
  if◌then◌else◌, filter,
}
use wanctl.Bytes.{codes, has_prefix, Text, text_eq, is_empty}
use wanctl.Encoding.Base64
use wanctl.Encoding.Utf8.Replaced.{replaced}

-- `ValidFingerprint`
unfoldable pub valid_fingerprint : Text → Bool
valid_fingerprint fp =
    if not (has_prefix fp (codes "SHA256:"))
    then false
    else elim (Base64.decode (drop 7 fp)) [ none ↦ false | some b ↦ length b == 32 ]

pub record Peer : Type 0 where
  pub fingerprint : Text
  pub name : Text
  pub label : Text
  pub added : ℕ
  pub last_seen : ℕ

pub record Store : Type 0 where
  pub has_path : Bool
  pub peers : List Peer

pub data PeersFile : Type 0 where
  missing unreadable : PeersFile
  contents : Option (List Peer) → PeersFile

pub data Outcome : Type 0 where
  done : Outcome
  no_name bad_fingerprint not_saved : Outcome
  mismatch : Text → Outcome

unfoldable pub new_mem_store : Store
new_mem_store = record { has_path = false; peers = [] }

unfoldable pub same_key : Text → Text → Peer → Bool
same_key fp name p = text_eq p.fingerprint fp && text_eq p.name name

-- `m[peerKey(fp, name)] = p`
unfoldable pub put : Peer → List Peer → List Peer
unfolding same_key
put p [] = p ∷ []
put p (q ∷ qs) = let rest = put p qs in if same_key p.fingerprint p.name q then p ∷ qs else q ∷ rest

-- The map of the peers that a file holds: a later one with the same key wins.
unfoldable pub put_all : List Peer → List Peer → List Peer
unfolding put
put_all [] m = m
put_all (p ∷ ps) m = put_all ps (put p m)

-- `load`; `none` is an error, and the store stays as it is.
unfoldable pub load : PeersFile → Store → Option Store
unfolding put_all
load missing s = some (record s { peers = [] })
load unreadable s = none
load (contents none) s = none
load (contents (some ps)) s = some (record s { peers = put_all ps [] })

unfoldable pub open_store : PeersFile → Option Store
unfolding load
open_store file = load file (record { has_path = true; peers = [] })

-- The first peer that passes a test.
unfoldable pub first_peer : (Peer → Bool) → List Peer → Option Peer
first_peer test [] = none
first_peer test (p ∷ ps) = let rest = first_peer test ps in if test p then some p else rest

unfoldable pub get_by_fingerprint : Text → List Peer → Option Peer
unfolding first_peer
get_by_fingerprint fp ps = first_peer (λ p. text_eq p.fingerprint fp) ps

-- `Get`, which reads the file again first, and keeps the store where that fails.
unfoldable pub get : Text → PeersFile → Store → Option Peer × Store
unfolding load get_by_fingerprint
get fp file s =
    let s' = if s.has_path then elim (load file s) [ none ↦ s | some t ↦ t ] else s in
    (get_by_fingerprint fp s'.peers, s')

unfoldable pub get_by_name : Text → List Peer → Option Peer
unfolding first_peer
get_by_name name ps = if is_empty name then none else first_peer (λ p. text_eq p.name name) ps

-- What comes back of a peer that encoding/json writes and reads: every byte of its strings that is not
-- part of a UTF-8 character is replaced.
unfoldable pub json_peer : Peer → Peer
json_peer p = record p {
  fingerprint = replaced p.fingerprint;
  name = replaced p.name;
  label = replaced p.label;
}

-- `save`: its error, and the file afterwards.
unfoldable pub save : Bool → Store → PeersFile → Outcome × PeersFile
unfolding json_peer
save written s file =
    if not s.has_path
    then (done, file)
    else if written
    then (done, contents (some (map json_peer s.peers)))
    else (not_saved, file)

unfoldable pub saved : Bool → Store → PeersFile → Outcome × Store × PeersFile
unfolding save
saved written s file = let (outcome, file') = save written s file in (outcome, s, file')

unfoldable pub new_peer : Text → Text → Text → ℕ → Peer
new_peer fp name label now = record {
  fingerprint = fp;
  name = name;
  label = label;
  added = now;
  last_seen = now;
}

unfoldable pub add_labeled :
    Text → Text → Text → ℕ → Bool → Store → PeersFile → Outcome × Store × PeersFile
unfolding new_peer put saved
add_labeled fp name label now written s file =
    saved written (record s { peers = put (new_peer fp name label now) s.peers }) file

-- What the loop of `Pin` comes to: the peer is there, another one stands in its way, or none is left.
pub data Scan : Type 0 where
  present : List Peer → Scan
  in_way : Text → Scan
  absent : List Peer → Scan

unfoldable pub keep_peer : Peer → Scan → Scan
keep_peer p (present ps) = present (p ∷ ps)
keep_peer p (in_way fp) = in_way fp
keep_peer p (absent ps) = absent (p ∷ ps)

unfoldable pub scan : Text → Text → Bool → ℕ → List Peer → Scan
unfolding keep_peer
scan name fp replace now [] = absent []
scan name fp replace now (p ∷ ps) =
    let rest = scan name fp replace now ps in
    if not (text_eq p.name name)
    then keep_peer p rest
    else if text_eq p.fingerprint fp
    then present (record p { last_seen = now } ∷ ps)
    else if not replace
    then in_way p.fingerprint
    else rest

-- The peers after the loop, with the new one where none was there.
unfoldable pub pinned : Text → Text → ℕ → List Peer → Scan → Outcome × List Peer
unfolding new_peer put
pinned name fp now m (present ps) = (done, ps)
pinned name fp now m (in_way stored) = (mismatch stored, m)
pinned name fp now m (absent ps) = (done, put (new_peer fp name [] now) ps)

-- `Pin` on the map, before it is saved.
unfoldable pub pin_peers : Text → Text → Bool → ℕ → List Peer → Outcome × List Peer
unfolding scan pinned
pin_peers name fp replace now m =
    if is_empty name
    then (no_name, m)
    else if not (valid_fingerprint fp)
    then (bad_fingerprint, m)
    else pinned name fp now m (scan name fp replace now m)

abbrev is_done : Outcome → Bool
is_done done = true
is_done _ = false

unfoldable pub pin : Text → Text → Bool → ℕ → Bool → Store → PeersFile → Outcome × Store × PeersFile
unfolding pin_peers saved
pin name fp replace now written s file =
    let (outcome, m) = pin_peers name fp replace now s.peers in
    if is_done outcome then saved written (record s { peers = m }) file else (outcome, s, file)

unfoldable pub touch : Text → ℕ → Bool → Store → PeersFile → Store × PeersFile
unfolding saved
touch fp now written s file =
    let (_, s', file') =
      saved written
        (record s {
          peers =
              map (λ p. if text_eq p.fingerprint fp then record p { last_seen = now } else p)
                s.peers;
        })
        file in
    (s', file')

unfoldable pub remove_name : Text → Bool → Store → PeersFile → Outcome × Store × PeersFile
unfolding saved
remove_name name written s file =
    if is_empty name
    then (done, s, file)
    else saved written (record s { peers = filter (λ p. not (text_eq p.name name)) s.peers }) file

-- `Remove`
unfoldable pub remove_fingerprint : Text → Bool → Store → PeersFile → Outcome × Store × PeersFile
unfolding saved
remove_fingerprint fp written s file =
    saved written (record s { peers = filter (λ p. not (text_eq p.fingerprint fp)) s.peers }) file
