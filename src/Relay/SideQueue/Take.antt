-- ===== src/Relay/SideQueue/Take.antt =====
-- The polls of a direction's reader (`takeUpTo`, `takeWindow`, `pollDrain`, `free` and `settled` in
-- `internal/relay/http.go`).
--
-- A poll holds the turn while it drains, so that its whole effect is one function; the turn itself, a
-- context and a timer are not modelled.
use wanctl.Prelude.{
  ℕ, zero, suc, ◌+◌, ◌-◌, Bool, true, false, ◌&&◌, not, Option, none, some, List, [], ◌∷◌, ltb, leb,
  if◌then◌else◌, length, filter,
}
use wanctl.Bytes.{Text, is_empty}
use wanctl.Relay.Residency
use wanctl.Relay.SideQueue.{SideQueue, lookup, release, wake, close}
use wanctl.Relay.SideQueue.Drain.{drain_up_to, max_drain_bytes}

unfoldable pub begin_take : SideQueue → SideQueue
begin_take q = record q { inflight = true }

unfoldable pub end_take : SideQueue → SideQueue
end_take q = record q { inflight = false }

unfoldable pub settled : SideQueue → Bool
settled q =
    q.closed
    && (not q.inflight && (leb (length q.assigned) 0 && (is_empty q.head && leb (length q.ch) 0)))

unfoldable pub undelivered : SideQueue → Bool × Bool
undelivered q = (q.inflight, ltb 0 (length q.assigned))

unfoldable pub bytes_of : List (ℕ × Text) → ℕ
bytes_of [] = 0
bytes_of (e ∷ es) = length e.1 + bytes_of es

-- The chunk with the lowest number from `k` on, looked for among `n` numbers.
unfoldable pub first_from : ℕ → ℕ → List (ℕ × Text) → Option (ℕ × Text)
unfolding lookup
first_from zero k es = none
first_from (suc n) k es =
    let later = first_from n (suc k) es in
    elim (lookup k es) [ none ↦ later | some b ↦ some (k, b) ]

unfoldable pub outstanding : ℕ → SideQueue → Option (ℕ × Text)
unfolding first_from
outstanding ack q = first_from (q.seq - ack) (suc ack) q.assigned

-- The part of `dropAcked` that leaves what is acknowledged.
unfoldable pub forget_acked : ℕ → SideQueue → SideQueue
unfolding outstanding
forget_acked ack q = record q {
  assigned = filter (λ e. not (leb e.0 ack)) q.assigned;
  unacked = elim (outstanding ack q) [ none ↦ [] | some e ↦ e.1 ];
}

-- `dropAcked`
unfoldable pub drop_acked : ℕ → SideQueue → SideQueue
unfolding bytes_of release forget_acked
drop_acked ack q = release (bytes_of (filter (λ e. leb e.0 ack) q.assigned)) 0 (forget_acked ack q)

unfoldable pub assign : ℕ → Text → SideQueue → SideQueue
assign seq b q = record q {
  assigned = (seq, b) ∷ q.assigned;
  unacked = if is_empty q.unacked then b else q.unacked;
}

-- What a poll answers: the chunk and its number, 0 where there is none, and whether the queue is
-- closed and empty.
pub record Answer : Type 0 where
  pub bytes : Text
  pub number : ℕ
  pub at_end : Bool

unfoldable pub no_data : Bool → Answer
no_data at_end = record { bytes = []; number = 0; at_end = at_end }

unfoldable pub chunk : ℕ → Text → Answer
chunk k b = record { bytes = b; number = k; at_end = false }

-- What a poll does with the chunk it Drained.
unfoldable pub give : Text → Bool → SideQueue → Answer × SideQueue
unfolding assign no_data chunk
give b at_end q =
    if is_empty b
    then (no_data at_end, q)
    else (chunk (suc q.seq) b, assign (suc q.seq) b (record q { seq = suc q.seq }))

-- The part of a poll that drains the next chunk.
unfoldable pub drain_next : ℕ → Bool → SideQueue → Answer × SideQueue
unfolding drain_up_to give
drain_next limit expired q = let (b, at_end, q') = drain_up_to limit expired q in give b at_end q'

-- A poll sends the chunk again that its reader has not acknowledged, and drains only without one.
unfoldable pub answer_poll : Option (ℕ × Text) → ℕ → Bool → SideQueue → Answer × SideQueue
unfolding drain_next chunk
answer_poll none limit expired q = drain_next limit expired q
answer_poll (some e) limit expired q = (chunk e.0 e.1, q)

-- `takeUpTo`, from the poll's turn on.
unfoldable pub take_up_to : ℕ → ℕ → Bool → SideQueue → Answer × SideQueue
unfolding begin_take end_take drop_acked outstanding answer_poll
take_up_to ack limit expired q =
    let q' = drop_acked ack (begin_take q) in
    let (answer, q'') = answer_poll (outstanding ack q') limit expired q' in (answer, end_take q'')

-- One turn of the loop of `takeWindow`; `none` is the wait of a poll that is early.
unfoldable pub take_window : ℕ → ℕ → ℕ → Bool → SideQueue → Option Answer × SideQueue
unfolding begin_take end_take drop_acked drain_next chunk no_data
take_window ack want limit expired q =
    let q' = drop_acked ack q in
    elim (lookup want q'.assigned) [
      | some b ↦ (some (chunk want b), q')
      | none ↦
          let (answer, q'') = drain_next limit expired (begin_take q') in
          if leb want q'.seq
          then (some (no_data false), q')
          else if ltb (suc q'.seq) want
          then (none, q')
          else (some answer, end_take q'')
    ]

-- `pollDrain`, from the poll's turn on.
unfoldable pub poll_drain : Bool → SideQueue → Text × Bool × SideQueue
unfolding begin_take end_take drain_up_to release
poll_drain expired q =
    let (b, at_end, q') = drain_up_to max_drain_bytes expired (begin_take q) in
    (b, at_end, end_take (release (length b) 0 q'))

-- `free`
unfoldable pub free : SideQueue → SideQueue
unfolding close wake Residency.release Residency.leave
free q =
    if q.freed
    then close q
    else wake (record (close q) {
      ch = [];
      seq_held = [];
      head = [];
      assigned = [];
      unacked = [];
      resident = 0;
      slots = 0;
      freed = true;
      pool = elim q.pool [
        | none ↦ none
        | some p ↦ some (Residency.leave q.share (Residency.release q.share q.resident p))
      ];
    })
