-- ===== src/Relay/SideQueue/Drain.antt =====
-- Draining a direction (`drainUpTo` in `internal/relay/http.go`).
--
-- The capacity by which `appendCapped` grows its slice is not modelled.
use wanctl.Prelude.{
  ℕ, suc, ◌-◌, ◌*◌, Bool, false, ◌&&◌, not, List, [], ◌∷◌, ◌++◌, ltb, if◌then◌else◌, length, take,
  drop,
}
use wanctl.Bytes.{Text, is_empty}
use wanctl.Relay.SideQueue.{SideQueue, release}

abbrev pub max_drain_bytes : ℕ
max_drain_bytes = 2 * 1048576

abbrev pub max_drain_limit : ℕ
max_drain_limit = 16 * 1048576

-- What a drain has in its hands: its chunk, the tail it split off, what is left of `ch`, and how many
-- chunks it took out of it.
pub record Drain : Type 0 where
  pub out : Text
  pub tail : Text
  pub rest : List Text
  pub taken : ℕ

-- `appendCapped`
unfoldable pub append_capped : ℕ → Text → Drain → Drain
append_capped limit b d =
    let room = limit - length d.out in
    if ltb room (length b)
    then record d { out = d.out ++ take room b; tail = drop room b }
    else record d { out = d.out ++ b }

-- `took`, of the chunk at the front of `ch`.
unfoldable pub took : ℕ → Text → List Text → Drain → Drain
unfolding append_capped
took limit b rest d = append_capped limit b (record d { rest = rest; taken = suc d.taken })

-- `fill`, by recursion on what is queued.
unfoldable pub fill : ℕ → List Text → Drain → Drain
unfolding took
fill limit [] d = d
fill limit (b ∷ rest) d =
    let filled = fill limit rest (took limit b rest d) in
    if ltb (length d.out) limit then filled else d

unfoldable pub start : SideQueue → Drain
start q = record { out = []; tail = []; rest = q.ch; taken = 0 }

-- The split tail first, then what is queued.
unfoldable pub drain_queued : ℕ → SideQueue → Drain
unfolding append_capped fill start
drain_queued limit q =
    let d = if is_empty q.head then start q else append_capped limit q.head (start q) in
    fill limit d.rest d

unfoldable pub settle : Drain → SideQueue → SideQueue
unfolding release
settle d q = release 0 d.taken (record q { ch = d.rest; head = d.tail })

-- What the `select` takes: a chunk that is there, or its end.
unfoldable pub drain_front : ℕ → Bool → List Text → Drain → Bool × Drain
unfolding took fill
drain_front limit ended [] d = (ended, d)
drain_front limit ended (b ∷ rest) d = (false, fill limit rest (took limit b rest d))

-- The `select` comes where the drain has no byte yet. It is ended by the clock or the context
-- (`expired`), or by the queue's close.
unfoldable pub drain_waited : ℕ → Bool → Bool → Drain → Bool × Drain
unfolding drain_front
drain_waited limit expired closed d =
    if not (is_empty d.out) then (false, d) else drain_front limit (closed && not expired) d.rest d

-- `drainUpTo`, at the moment it takes its bytes: the chunk, whether the queue is closed and empty,
-- and the queue. A poll that waits is this call at the later moment.
unfoldable pub drain_up_to : ℕ → Bool → SideQueue → Text × Bool × SideQueue
unfolding drain_queued drain_waited settle
drain_up_to limit expired q =
    let (closed, d) = drain_waited limit expired q.closed (drain_queued limit q) in
    (d.out, closed, settle d q)
