-- ===== src/Relay/SideQueue/Budget.antt =====
-- What a direction counts as held stays within its budget, the room promised to writes included.
use wanctl.Prelude.{
  leb, filter, ℕ, zero, suc, ◌+◌, ◌-◌, ◌≤◌, ◌≡◌, refl, sym, subst, ◌∙◌, inl, inr, Bool, ◌||◌, ◌&&◌,
  ◌==◌, Option, none, some, [], ◌∷◌, ltb, if◌then◌else◌, length, arith, Bool-cases, Option-cases,
}
use wanctl.Bytes.{Text}
use wanctl.Relay.Residency.{Residency, Room, held, full, max_upload_bytes}
use wanctl.Relay.SideQueue.{
  SideQueue, queue_chunks, lookup, has, remove, send, advance, wake, release, release_pool, keep,
  hold, pool_answer, reserve_pool, reserve_locked, commit_seq,
}
use wanctl.Relay.SideQueue.Drain.{Drain, settle, drain_up_to, drain_waited, drain_queued}
use wanctl.Relay.SideQueue.Take.{
  begin_take, end_take, drop_acked, forget_acked, bytes_of, assign, give, drain_next, answer_poll,
  outstanding, take_up_to,
}
use wanctl.Relay.SideQueue.Order.{commit-closed, commit-again, commit-early, commit-next}
use wanctl.Relay.Residency

-- `p` counts no more than `q`, against the same limit.
pub record Shrinks (p q : SideQueue) : Type 0 where
  pub same_limit : p.limit ≡ q.limit
  pub fewer_bytes : p.resident ≤ q.resident
  pub fewer_slots : p.slots ≤ q.slots

same : (q : SideQueue) → Shrinks q q
same q = record { same_limit = refl; fewer_bytes = omega arith; fewer_slots = omega arith }

pub then_Shrinks : {p q r : SideQueue} → Shrinks p q → Shrinks q r → Shrinks p r
then_Shrinks s t = record {
  same_limit = s.same_limit ∙ t.same_limit;
  fewer_bytes = omega (arith, s.fewer_bytes, t.fewer_bytes);
  fewer_slots = omega (arith, s.fewer_slots, t.fewer_slots);
}

release_pool-Shrinks : (n : ℕ) (q : SideQueue) → Shrinks (release_pool n q) q
unfolding release_pool
release_pool-Shrinks n q = elim (Option-cases q.pool) [
  | inl e ↦
      rw (e, release_pool)
        (record { same_limit = refl; fewer_bytes = omega arith; fewer_slots = omega arith })
  | inr (p, e) ↦
      rw (e, release_pool)
        (record { same_limit = refl; fewer_bytes = omega arith; fewer_slots = omega arith })
]

pub release-Shrinks : (n slots : ℕ) (q : SideQueue) → Shrinks (release n slots q) q
unfolding release wake
release-Shrinks n slots q = elim (Bool-cases (q.freed || (n == 0 && (slots == 0)))) [
  | inl e ↦ rw (e, release) (same q)
  | inr e ↦
      rw (e, release)
        (then_Shrinks
          (release_pool-Shrinks n
            (wake (record q { resident = q.resident - n; slots = q.slots - slots })))
          (record { same_limit = refl; fewer_bytes = omega arith; fewer_slots = omega arith }))
]

pub keep-Shrinks : (room used : ℕ) (q : SideQueue) → Shrinks (keep room used q) q
unfolding keep
keep-Shrinks room used q =
    release-Shrinks (room - used) (if ltb 0 room && (used == 0) then 1 else 0) q

pub send-Shrinks : (b : Text) (q : SideQueue) → Shrinks (send b q) q
unfolding send
send-Shrinks [] q = same q
send-Shrinks (c ∷ b) q = record {
  same_limit = refl;
  fewer_bytes = omega arith;
  fewer_slots = omega arith;
}

advance-Shrinks : (fuel : ℕ) (q : SideQueue) → Shrinks (advance fuel q) q
unfolding advance
advance-Shrinks zero q = record {
  same_limit = refl;
  fewer_bytes = omega arith;
  fewer_slots = omega arith;
}
advance-Shrinks (suc fuel) q = elim (Option-cases (lookup (suc q.seq_next) q.seq_held)) [
  | inl e ↦
      rw (e, advance)
        (record { same_limit = refl; fewer_bytes = omega arith; fewer_slots = omega arith })
  | inr (b, e) ↦
      let next = record q {
        seq_next = suc q.seq_next;
        seq_held = remove (suc q.seq_next) q.seq_held;
      } in
      rw (e, advance)
        (then_Shrinks (advance-Shrinks fuel (send b next)) (
          then_Shrinks (send-Shrinks b next)
            (record { same_limit = refl; fewer_bytes = omega arith; fewer_slots = omega arith })))
]

wake-Shrinks : (p : SideQueue) → Shrinks (wake p) p
unfolding wake
wake-Shrinks p = record { same_limit = refl; fewer_bytes = omega arith; fewer_slots = omega arith }

pub commit_seq-Shrinks :
    (seq room : ℕ) (b : Text) (q : SideQueue) → Shrinks (commit_seq seq b room q).1 q
commit_seq-Shrinks seq room b q =
    let kept = keep room (length b) q in
    elim (Bool-cases q.closed) [
      | inl e ↦ to (sym (commit-closed seq room b q e)) (keep-Shrinks room 0 q)
      | inr e ↦ elim (Bool-cases (has seq q.seq_held || ltb seq q.seq_next)) [
        | inl r ↦ to (sym (commit-again seq room b q e r)) (keep-Shrinks room 0 q)
        | inr r ↦ elim (Bool-cases (ltb q.seq_next seq)) [
          | inl a ↦ to (sym (commit-early seq room b q e r a)) (
              then_Shrinks
                (record { same_limit = refl; fewer_bytes = omega arith; fewer_slots = omega arith })
                (keep-Shrinks room (length b) q))
          | inr a ↦ to (sym (commit-next seq room b q e r a)) (
              then_Shrinks (wake-Shrinks _) (
                then_Shrinks (advance-Shrinks (length (send b kept).seq_held) (send b kept))
                  (then_Shrinks (send-Shrinks b kept) (keep-Shrinks room (length b) q))))
        ]
      ]
    ]
  where
    to : {p r : SideQueue} → p ≡ r → Shrinks p q → Shrinks r q
    to e s = subst (λ x. Shrinks x q) e s

pub settle-Shrinks : (d : Drain) (q : SideQueue) → Shrinks (settle d q) q
unfolding settle
settle-Shrinks d q =
    then_Shrinks (release-Shrinks 0 d.taken (record q { ch = d.rest; head = d.tail }))
      (record { same_limit = refl; fewer_bytes = omega arith; fewer_slots = omega arith })

pub drop_acked-Shrinks : (ack : ℕ) (q : SideQueue) → Shrinks (drop_acked ack q) q
unfolding drop_acked forget_acked
drop_acked-Shrinks ack q =
    then_Shrinks
      (release-Shrinks (bytes_of (filter (λ e. leb e.0 ack) q.assigned)) 0 (forget_acked ack q))
      (record { same_limit = refl; fewer_bytes = omega arith; fewer_slots = omega arith })

give-Shrinks : (b : Text) (at_end : Bool) (q : SideQueue) → Shrinks (give b at_end q).1 q
unfolding give assign
give-Shrinks [] at_end q = same q
give-Shrinks (c ∷ b) at_end q = record {
  same_limit = refl;
  fewer_bytes = omega arith;
  fewer_slots = omega arith;
}

pub drain_next-Shrinks :
    (limit : ℕ) (expired : Bool) (q : SideQueue) → Shrinks (drain_next limit expired q).1 q
unfolding drain_next drain_up_to
drain_next-Shrinks limit expired q =
    let d = (drain_waited limit expired q.closed (drain_queued limit q)).1 in
    then_Shrinks (give-Shrinks d.out _ (settle d q)) (settle-Shrinks d q)

answer_poll-Shrinks :
    (o : Option (ℕ × Text)) (limit : ℕ) (expired : Bool) (q : SideQueue)
    → Shrinks (answer_poll o limit expired q).1 q
unfolding answer_poll
answer_poll-Shrinks none limit expired q = drain_next-Shrinks limit expired q
answer_poll-Shrinks (some e) limit expired q = same q

pub take_up_to-Shrinks :
    (ack limit : ℕ) (expired : Bool) (q : SideQueue) → Shrinks (take_up_to ack limit expired q).1 q
unfolding take_up_to begin_take end_take
take_up_to-Shrinks ack limit expired q =
    let q' = drop_acked ack (begin_take q) in
    let s =
      then_Shrinks (answer_poll-Shrinks (outstanding ack q') limit expired q')
        (drop_acked-Shrinks ack (begin_take q)) in
    record { same_limit = s.same_limit; fewer_bytes = s.fewer_bytes; fewer_slots = s.fewer_slots }

-- The budget: the bytes and the chunks counted, promised room included.
pub record Within (q : SideQueue) : Type 0 where
  pub bytes : q.resident ≤ q.limit
  pub chunks : q.slots ≤ queue_chunks

pub Shrinks-Within : {p q : SideQueue} → Shrinks p q → Within q → Within p
Shrinks-Within s w = record {
  bytes = omega (arith, s.same_limit, s.fewer_bytes, w.bytes);
  chunks = omega (arith, s.fewer_slots, w.chunks);
}

pool_answer-Within :
    (room : Room) (n : ℕ) (q : SideQueue)
    → q.resident + n ≤ q.limit
    → suc q.slots ≤ queue_chunks
    → Within (pool_answer room n q).1
unfolding pool_answer hold
pool_answer-Within held n q b c = record { bytes = b; chunks = c }
pool_answer-Within (full ns_full) n q b c = record {
  bytes = omega (arith, b);
  chunks = omega (arith, c);
}

reserve_pool-Within :
    (n spare : ℕ) (q : SideQueue)
    → q.resident + n ≤ q.limit
    → suc q.slots ≤ queue_chunks
    → Within (reserve_pool n spare q).1
unfolding reserve_pool hold
reserve_pool-Within n spare q b c = elim (Option-cases q.pool) [
  | inl e ↦ rw (e, reserve_pool) (record { bytes = b; chunks = c })
  | inr (p, e) ↦
      rw (e, reserve_pool)
        (pool_answer-Within (Residency.reserve q.share n spare p).0 n
          (record q { pool = some (Residency.reserve q.share n spare p).1 }) b c)
]

pub reserve_locked-Within :
    (n : ℕ) (ahead : Bool) (q : SideQueue) → Within q → Within (reserve_locked n ahead q).1
unfolding reserve_locked
reserve_locked-Within n ahead q w =
    let spare : ℕ = if ahead then max_upload_bytes else 0 in
    let more : ℕ = if ahead then 1 else 0 in
    elim (Bool-cases
      (ltb q.limit (q.resident + n + spare) || ltb queue_chunks (suc q.slots + more))) [
        | inl e ↦ rw (e, reserve_locked) (record { bytes = w.bytes; chunks = w.chunks })
        | inr e ↦
            rw (e, reserve_locked) (reserve_pool-Within n spare q (ground arith) (ground arith))
      ]
