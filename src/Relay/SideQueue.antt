-- ===== src/Relay/SideQueue.antt =====
-- One direction of a session's byte flow (`sideQueue` in `internal/relay/http.go`): its state, the
-- room that writes hold, and the order in which numbered writes enter.
--
-- A channel's buffer is the list `ch`; the empty `head` is Go's nil, since a split leaves a tail that
-- is not empty. A call that holds the locks is one function; what a call waits for is the caller's to
-- try again. `pool` is the relay's account as this direction meets it.
pub mod Drain
pub mod Take
pub mod Stream
pub mod Order
pub mod Served
pub mod Reader
pub mod Run
pub mod Promise
pub mod Push
pub mod Budget
pub mod Held
pub mod Settled
use wanctl.Prelude.{
  ℕ, zero, suc, ◌+◌, ◌-◌, ◌*◌, ◌/◌, max, Bool, true, false, ◌&&◌, ◌||◌, not, Option, none, some,
  List, [], ◌∷◌, ◌++◌, ◌==◌, ltb, if◌then◌else◌, filter, length,
}
use wanctl.Bytes.{Text, is_empty}
use wanctl.Relay.Residency.{
  Residency, Room, held, full, max_resident_per_direction, max_upload_bytes, note_wait,
}
use wanctl.Relay.Residency

abbrev pub queue_chunks : ℕ
queue_chunks = 256

pub record SideQueue : Type 0 where
  pub ch : List Text
  pub closed : Bool
  pub seq : ℕ
  pub assigned : List (ℕ × Text)
  pub unacked : Text
  pub head : Text
  pub seq_next : ℕ
  pub seq_held : List (ℕ × Text)
  pub inflight : Bool
  pub limit : ℕ
  pub resident : ℕ
  pub slots : ℕ
  pub room_wanted : Bool
  pub pool : Option Residency
  pub share : Option Text
  pub freed : Bool

unfoldable pub new_side_queue : SideQueue
new_side_queue = record {
  ch = [];
  closed = false;
  seq = 0;
  assigned = [];
  unacked = [];
  head = [];
  seq_next = 1;
  seq_held = [];
  inflight = false;
  limit = max_resident_per_direction;
  resident = 0;
  slots = 0;
  room_wanted = false;
  pool = none;
  share = none;
  freed = false;
}

unfoldable pub attach : Residency → Text → SideQueue → SideQueue
attach pool [] q = record q { pool = some pool }
attach pool (c ∷ ns) q = record q {
  pool = some (Residency.join (c ∷ ns) pool);
  share = some (c ∷ ns);
}

-- A map keyed by sequence numbers.
unfoldable pub lookup : ℕ → List (ℕ × Text) → Option Text
lookup k [] = none
lookup k (e ∷ es) = let rest = lookup k es in if e.0 == k then some e.1 else rest

unfoldable pub remove : ℕ → List (ℕ × Text) → List (ℕ × Text)
remove k es = filter (λ e. not (e.0 == k)) es

unfoldable pub has : ℕ → List (ℕ × Text) → Bool
unfolding lookup
has k es = elim (lookup k es) [ none ↦ false | some _ ↦ true ]

-- `seqWindowLocked`
unfoldable pub seq_window : SideQueue → ℕ
seq_window q = max (q.limit / max_upload_bytes - 2) 1

unfoldable pub wake : SideQueue → SideQueue
wake q = record q { room_wanted = false }

unfoldable pub release_pool : ℕ → SideQueue → SideQueue
unfolding Residency.release
release_pool n q = elim q.pool [
  | none ↦ q
  | some p ↦ record q { pool = some (Residency.release q.share n p) }
]

-- `releaseLocked`
unfoldable pub release : ℕ → ℕ → SideQueue → SideQueue
unfolding wake release_pool
release n slots q =
    if q.freed || (n == 0 && (slots == 0))
    then q
    else release_pool n (wake (record q { resident = q.resident - n; slots = q.slots - slots }))

-- `keepLocked`; a write never carries more than it reserved.
unfoldable pub keep : ℕ → ℕ → SideQueue → SideQueue
unfolding release
keep reserved used q = release (reserved - used) (if ltb 0 reserved && (used == 0) then 1 else 0) q

unfoldable pub unreserve : ℕ → SideQueue → SideQueue
unfolding keep
unreserve reserved q = keep reserved 0 q

unfoldable pub hold : ℕ → SideQueue → SideQueue
hold n q = record q { resident = q.resident + n; slots = suc q.slots }

pub data Reserve : Type 0 where
  room_held queue_full queue_closed repeat_write out_of_window : Reserve
  pool_full : Bool → Reserve

unfoldable pub pool_answer : Room → ℕ → SideQueue → Reserve × SideQueue
unfolding hold
pool_answer held n q = (room_held, hold n q)
pool_answer (full ns_full) n q = (pool_full ns_full, q)

-- What the relay's account says to a write that this direction has room for.
unfoldable pub reserve_pool : ℕ → ℕ → SideQueue → Reserve × SideQueue
unfolding hold pool_answer Residency.reserve
reserve_pool n spare q = elim q.pool [
  | none ↦ (room_held, hold n q)
  | some p ↦
      let (room, p') = Residency.reserve q.share n spare p in
      pool_answer room n (record q { pool = some p' })
]

-- `reserveLocked`
unfoldable pub reserve_locked : ℕ → Bool → SideQueue → Reserve × SideQueue
unfolding reserve_pool
reserve_locked n ahead q =
    let spare = if ahead then max_upload_bytes else 0 in
    let spare_slots = if ahead then 1 else 0 in
    if ltb q.limit (q.resident + n + spare) || ltb queue_chunks (suc q.slots + spare_slots)
    then (queue_full, record q { room_wanted = true })
    else reserve_pool n spare q

-- The wait that `tryReserve` counts, once for each write.
unfoldable pub count_wait : Bool → Reserve → SideQueue → Bool × SideQueue
unfolding note_wait
count_wait waited (pool_full ns_full) q =
    if waited
    then (true, q)
    else (true, elim q.pool [ none ↦ q | some p ↦ record q { pool = some (note_wait ns_full p) } ])
count_wait waited _ q = (waited, q)

-- `tryReserve`: its answer, whether the write has been counted as waiting, and the queue.
unfoldable pub try_reserve : ℕ → Bool → Bool → SideQueue → Reserve × Bool × SideQueue
unfolding reserve_locked count_wait
try_reserve n ahead waited q =
    if q.closed
    then (queue_closed, waited, q)
    else if n == 0
    then (room_held, waited, q)
    else let (answer, q') = reserve_locked n ahead q in
      let (counted, q'') = count_wait waited answer q' in (answer, counted, q'')

-- One turn of the loop of `admitSeq`.
unfoldable pub admit_seq : ℕ → ℕ → Bool → SideQueue → Reserve × Bool × SideQueue
unfolding has seq_window try_reserve
admit_seq seq n waited q =
    if ltb seq q.seq_next || has seq q.seq_held
    then (repeat_write, waited, q)
    else if ltb (q.seq_next + seq_window q) seq
    then (out_of_window, waited, q)
    else try_reserve n (ltb q.seq_next seq) waited q

unfoldable pub send : Text → SideQueue → SideQueue
send b q = if is_empty b then q else record q { ch = q.ch ++ b ∷ [] }

-- `enqueueLocked`; false is `errQueueClosed`.
unfoldable pub enqueue : Text → ℕ → SideQueue → Bool × SideQueue
unfolding keep send
enqueue b reserved q =
    if q.closed then (false, keep reserved 0 q) else (true, send b (keep reserved (length b) q))

-- The loop of `commitSeq`. Each turn takes one write out of `seq_held`, whose length is the fuel.
unfoldable pub advance : ℕ → SideQueue → SideQueue
unfolding lookup remove send
advance zero q = record q { seq_next = suc q.seq_next }
advance (suc fuel) q =
    let next = record q { seq_next = suc q.seq_next } in
    elim (lookup next.seq_next q.seq_held) [
      | none ↦ next
      | some b ↦ advance fuel (send b (record next { seq_held = remove next.seq_next q.seq_held }))
    ]

-- `commitSeq`; false is `errQueueClosed`.
unfoldable pub commit_seq : ℕ → Text → ℕ → SideQueue → Bool × SideQueue
unfolding enqueue advance has keep wake
commit_seq seq b reserved q =
    if q.closed
    then (false, keep reserved 0 q)
    else if has seq q.seq_held || ltb seq q.seq_next
    then (true, keep reserved 0 q)
    else if ltb q.seq_next seq
    then (
      true,
      let kept = keep reserved (length b) q in record kept { seq_held = (seq, b) ∷ kept.seq_held },
    )
    else let q' = (enqueue b reserved q).1 in (true, wake (advance (length q'.seq_held) q'))

unfoldable pub close : SideQueue → SideQueue
close q = record q { closed = true }
