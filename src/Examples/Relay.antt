-- ===== src/Examples/Relay.antt =====
-- A direction of a session at concrete inputs (`internal/relay/http.go`).
use wanctl.Relay.SideQueue.Take.{no_data, undelivered, take_up_to, settled}
use wanctl.Prelude.{
  filter, ℕ, zero, suc, ◌≡◌, ◌≤◌, ◌++◌, refl, ◌⊎◌, true, false, some, List, [], concat, length,
  arith,
}
use wanctl.Bytes.{Text, codes}
use wanctl.Relay.SideQueue.{SideQueue, new_side_queue, commit_seq, close}
use wanctl.Relay.SideQueue.Drain.{drain_up_to}
use wanctl.Relay.SideQueue.Order.{written}
use wanctl.Relay.SideQueue.Served.{chunk_at}
use wanctl.Relay.SideQueue.Reader.{heard}
use wanctl.Relay.SideQueue.Run.{Run, opened, committed, closed, polled}
use wanctl.Relay.SideQueue.Stream.{drain_up_to-keeps}
use wanctl.Relay.SideQueue.Push.{push_seq, push_seq-again}
use wanctl.Relay.SideQueue.Promise.{stream_order, answer_chunk}
use wanctl.Relay.SideQueue.Settled.{settled_done}

-- Three writes: "one", "two" and "three".
unfoldable writes : ℕ → Text
writes zero = []
writes (suc zero) = codes "one"
writes (suc (suc zero)) = codes "two"
writes (suc (suc (suc n))) = codes "three"

-- The second write comes first, and twice; then the first one.
abbrev arrived : SideQueue
arrived =
    (commit_seq 1 (writes 1) 3
      (commit_seq 2 (writes 2) 3 (commit_seq 2 (writes 2) 3 new_side_queue).1).1).1

arrived-Run : Run writes [] arrived
arrived-Run = committed 1 3 (committed 2 3 (committed 2 3 opened))

-- A reader with a limit of 4 bytes polls.
abbrev served : List Text
served = heard [] arrived (take_up_to 0 4 false arrived)

abbrev after_poll : SideQueue
after_poll = (take_up_to 0 4 false arrived).1

after_poll-Run : Run writes served after_poll
after_poll-Run = polled 0 4 false (omega arith) arrived-Run

stream_order_example :
    concat served ++ (after_poll.head ++ concat after_poll.ch) ≡ written writes after_poll.seq_next
stream_order_example = stream_order writes served after_poll after_poll-Run

-- The chunk that was lost is asked for again.
answer_chunk_example :
    ((take_up_to 0 4 false after_poll).0.number ≡ 0)
    ⊎ (chunk_at
          (take_up_to 0 4 false after_poll).0.number
          (heard served after_poll (take_up_to 0 4 false after_poll))
        ≡ some (take_up_to 0 4 false after_poll).0.bytes)
answer_chunk_example = answer_chunk writes served after_poll after_poll-Run 0 4 false (omega arith)

-- One byte is written, read and acknowledged, and the writer closes.
abbrev byte_read : SideQueue
byte_read = (take_up_to 0 4 false (commit_seq 1 (codes "b") 1 new_side_queue).1).1

abbrev byte_served : List Text
byte_served =
    heard [] (commit_seq 1 (codes "b") 1 new_side_queue).1
      (take_up_to 0 4 false (commit_seq 1 (codes "b") 1 new_side_queue).1)

abbrev all_read : SideQueue
all_read = close (take_up_to 1 4 false byte_read).1

all_read-settled : settled all_read ≡ true
unfolding take_up_to commit_seq new_side_queue settled close filter
all_read-settled = refl

drain_up_to-keeps_example :
    ((drain_up_to 4 false arrived).0
        ++ ((drain_up_to 4 false arrived).2.head ++ concat (drain_up_to 4 false arrived).2.ch)
      ≡ arrived.head ++ concat arrived.ch)
    × (length (drain_up_to 4 false arrived).0 ≤ 4)
drain_up_to-keeps_example = drain_up_to-keeps 4 false arrived (omega arith)

-- The second write is taken early, and sent again.
push_seq-again_example :
    push_seq 2 (writes 2) false (commit_seq 2 (writes 2) 3 new_side_queue).1
    ≡ (some true, (commit_seq 2 (writes 2) 3 new_side_queue).1)
unfolding new_side_queue
push_seq-again_example = push_seq-again 2 (writes 2) (writes 2) false 3 new_side_queue refl

settled_done_example :
    (concat (heard byte_served byte_read (take_up_to 1 4 false byte_read))
      ≡ written (λ _. codes "b") all_read.seq_next)
    × (undelivered all_read ≡ (false, false))
    × ((commit_seq 2 (codes "b") 1 all_read).0 ≡ false)
    × ((take_up_to 1 4 false all_read).0 ≡ no_data true)
settled_done_example =
    settled_done (λ _. codes "b") (heard byte_served byte_read (take_up_to 1 4 false byte_read))
      all_read
      (closed
        (polled 1 4 false (omega arith) (polled 0 4 false (omega arith) (committed 1 1 opened))))
      all_read-settled 2 1 (codes "b") 1 4 false
