-- ===== src/Relay/SideQueue/Run.antt =====
-- The runs of a direction that is polled with acknowledgements (`takeUpTo` in
-- `internal/relay/http.go`): whatever order its writes and polls come in, the reader gets the stream.
use wanctl.Relay.Residency.{Residency, max_upload_bytes, Room, held, full}
use wanctl.Relay.SideQueue.{
  pool_answer, SideQueue, Reserve, room_held, queue_full, queue_closed, repeat_write, out_of_window,
  pool_full, new_side_queue, attach, has, close, hold, unreserve, reserve_pool, reserve_locked,
  count_wait, try_reserve, admit_seq, seq_window, commit_seq,
}
use wanctl.Prelude.{
  ℕ, ◌+◌, ◌≤◌, ◌≡◌, refl, ◌∙◌, inl, inr, Bool, true, false, ◌||◌, ◌==◌, Option, some, List, [], ◌∷◌,
  ltb, if◌then◌else◌, Option-cases,
}
use wanctl.Bytes.{Text}
use wanctl.Relay.SideQueue.Take.{take_up_to}
use wanctl.Relay.SideQueue.Order.{Core, core}
use wanctl.Relay.SideQueue.Reader.{heard}
use wanctl.Relay.Residency

core-if {ℓ} :
    {A : Type ℓ} (c : Core) (b : Bool) (x y : A × SideQueue)
    → core x.1 ≡ c
    → core y.1 ≡ c
    → core (if b then x else y).1 ≡ c
core-if c true x y e f = e
core-if c false x y e f = f

core-both {ℓ} :
    {A B : Type ℓ} (c : Core) (b : Bool) (x y : A × B × SideQueue)
    → core x.2 ≡ c
    → core y.2 ≡ c
    → core (if b then x else y).2 ≡ c
core-both c true x y e f = e
core-both c false x y e f = f

core-pool_answer : (room : Room) (n : ℕ) (q : SideQueue) → core (pool_answer room n q).1 ≡ core q
unfolding pool_answer core hold
core-pool_answer held n q = refl
core-pool_answer (full ns_full) n q = refl

core-hold : (n : ℕ) (q : SideQueue) → core (hold n q) ≡ core q
unfolding core hold
core-hold n q = refl

core-pool : (p : Option Residency) (q : SideQueue) → core (record q { pool = p }) ≡ core q
unfolding core
core-pool p q = refl

core-room : (q : SideQueue) → core (record q { room_wanted = true }) ≡ core q
unfolding core
core-room q = refl

core-reserve_pool : (n spare : ℕ) (q : SideQueue) → core (reserve_pool n spare q).1 ≡ core q
unfolding reserve_pool core
core-reserve_pool n spare q = elim (Option-cases q.pool) [
  | inl e ↦ rw (e, reserve_pool) (core-hold n q)
  | inr (p, e) ↦
      let r = Residency.reserve q.share n spare p in
      rw (e, reserve_pool)
        (core-pool_answer r.0 n (record q { pool = some r.1 }) ∙ core-pool (some r.1) q)
]

core-reserve_locked :
    (n : ℕ) (ahead : Bool) (q : SideQueue) → core (reserve_locked n ahead q).1 ≡ core q
unfolding reserve_locked
core-reserve_locked n ahead q =
    core-if (core q) _ (queue_full, record q { room_wanted = true })
      (reserve_pool n (if ahead then max_upload_bytes else 0) q) (core-room q)
      (core-reserve_pool n (if ahead then max_upload_bytes else 0) q)

core-count_wait :
    (waited : Bool) (answer : Reserve) (q : SideQueue)
    → core (count_wait waited answer q).1 ≡ core q
unfolding count_wait core
core-count_wait true (pool_full f) q = refl
core-count_wait false (pool_full f) q = elim (Option-cases q.pool) [
  | inl e ↦ rw e refl
  | inr (p, e) ↦ rw e refl
]
core-count_wait waited room_held q = refl
core-count_wait waited queue_full q = refl
core-count_wait waited queue_closed q = refl
core-count_wait waited repeat_write q = refl
core-count_wait waited out_of_window q = refl

core-try_reserve :
    (n : ℕ) (ahead waited : Bool) (q : SideQueue) → core (try_reserve n ahead waited q).2 ≡ core q
unfolding try_reserve
core-try_reserve n ahead waited q =
    let r = reserve_locked n ahead q in
    let counted = count_wait waited r.0 r.1 in
    core-both (core q) q.closed (queue_closed, waited, q) _ refl
      (core-both (core q) (n == 0) (room_held, waited, q) (r.0, counted.0, counted.1) refl
        (core-count_wait waited r.0 r.1 ∙ core-reserve_locked n ahead q))

pub core-admit_seq :
    (seq n : ℕ) (waited : Bool) (q : SideQueue) → core (admit_seq seq n waited q).2 ≡ core q
unfolding admit_seq
core-admit_seq seq n waited q =
    core-both (core q) (ltb seq q.seq_next || has seq q.seq_held) (repeat_write, waited, q) _ refl
      (core-both (core q) (ltb (q.seq_next + seq_window q) seq) (out_of_window, waited, q)
        (try_reserve n (ltb q.seq_next seq) waited q) refl
        (core-try_reserve n (ltb q.seq_next seq) waited q))

pub core-attach : (pool : Residency) (ns : Text) (q : SideQueue) → core (attach pool ns q) ≡ core q
unfolding attach core
core-attach pool [] q = refl
core-attach pool (c ∷ ns) q = refl

pub core-account : (p : Option Residency) (q : SideQueue) → core (record q { pool = p }) ≡ core q
core-account p q = core-pool p q

-- What the two sides do to a direction that is polled for one acknowledged chunk at a time, until it
-- is freed, and what the other directions do to the relay's account meanwhile. Write number `seq`
-- always carries `w seq`: sending it again sends the same bytes. `cs` are the chunks given out so far.
pub data Run (w : ℕ → Text) : List Text → SideQueue → Type 0 where
  opened : Run w [] new_side_queue
  attached :
      {cs : List Text} {q : SideQueue} (pool : Residency) (ns : Text)
      → Run w cs q
      → Run w cs (attach pool ns q)
  accounted :
      {cs : List Text} {q : SideQueue} (pool : Option Residency)
      → Run w cs q
      → Run w cs (record q { pool = pool })
  admitted :
      {cs : List Text} {q : SideQueue} (seq n : ℕ) (waited : Bool)
      → Run w cs q
      → Run w cs (admit_seq seq n waited q).2
  committed :
      {cs : List Text} {q : SideQueue} (seq room : ℕ)
      → Run w cs q
      → Run w cs (commit_seq seq (w seq) room q).1
  unreserved :
      {cs : List Text} {q : SideQueue} (room : ℕ) → Run w cs q → Run w cs (unreserve room q)
  closed : {cs : List Text} {q : SideQueue} → Run w cs q → Run w cs (close q)
  polled :
      {cs : List Text} {q : SideQueue} (ack limit : ℕ) (expired : Bool)
      → 1 ≤ limit
      → Run w cs q
      → Run w (heard cs q (take_up_to ack limit expired q)) (take_up_to ack limit expired q).1
