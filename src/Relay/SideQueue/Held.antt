-- ===== src/Relay/SideQueue/Held.antt =====
-- The calls of a direction (sideQueue in internal/relay/http.go) and what they leave it holding.
use wanctl.Relay.SideQueue.{
  attach, commit_seq, SideQueue, new_side_queue, unreserve, admit_seq, close,
}
use wanctl.Relay.Residency.{Residency}
use wanctl.Relay.SideQueue.Push.{push}
use wanctl.Relay.SideQueue.Take.{take_up_to, take_window, poll_drain, free}
use wanctl.Prelude.{Option, ℕ, Bool}
use wanctl.Bytes.{Text}

-- Every call that a direction meets, in any order and with any arguments, and whatever the other
-- directions do to the relay's account meanwhile.
pub data Called : SideQueue → Type 0 where
  opened : Called new_side_queue
  attached : {q : SideQueue} (pool : Residency) (ns : Text) → Called q → Called (attach pool ns q)
  accounted :
      {q : SideQueue} (pool : Option Residency) → Called q → Called (record q { pool = pool })
  admitted :
      {q : SideQueue} (seq n : ℕ) (waited : Bool) → Called q → Called (admit_seq seq n waited q).2
  committed :
      {q : SideQueue} (seq room : ℕ) (b : Text) → Called q → Called (commit_seq seq b room q).1
  unreserved : {q : SideQueue} (room : ℕ) → Called q → Called (unreserve room q)
  pushed : {q : SideQueue} (b : Text) (waited : Bool) → Called q → Called (push b waited q).1
  polled :
      {q : SideQueue} (ack limit : ℕ) (expired : Bool)
      → Called q
      → Called (take_up_to ack limit expired q).1
  windowed :
      {q : SideQueue} (ack want limit : ℕ) (expired : Bool)
      → Called q
      → Called (take_window ack want limit expired q).1
  drained : {q : SideQueue} (expired : Bool) → Called q → Called (poll_drain expired q).2
  closed : {q : SideQueue} → Called q → Called (close q)
  freed : {q : SideQueue} → Called q → Called (free q)
