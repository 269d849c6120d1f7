-- ===== src/Relay/SideQueue/Push.antt =====
-- Writes that come with their bytes (`push` and `pushSeq`), and writes that are sent again.
use wanctl.Prelude.{
  ℕ, zero, suc, ◌<◌, ◌≡◌, refl, sym, subst, inl, inr, Bool, true, false, ◌||◌, ==_iff, Option, none,
  some, List, [], ◌∷◌, ltb, length, arith, Bool-cases, Option-cases,
}
use wanctl.Bytes.{Text}
use wanctl.Relay.SideQueue.{
  SideQueue, Reserve, room_held, queue_full, queue_closed, repeat_write, out_of_window, pool_full,
  lookup, has, remove, send, advance, wake, keep, enqueue, try_reserve, admit_seq, commit_seq,
}
use wanctl.Relay.SideQueue.Order.{
  Core, core, core-keep, next_of, commit-again, commit-early, commit-next,
}

-- `pushSeq` once its write is admitted, or not; `none` is a write that waits for room.
unfoldable pub push_admitted : Reserve → ℕ → Text → SideQueue → Option Bool × SideQueue
unfolding commit_seq
push_admitted room_held seq b q = let (ok, q') = commit_seq seq b (length b) q in (some ok, q')
push_admitted repeat_write seq b q = (some true, q)
push_admitted queue_closed seq b q = (some false, q)
push_admitted out_of_window seq b q = (some false, q)
push_admitted queue_full seq b q = (none, q)
push_admitted (pool_full ns_full) seq b q = (none, q)

-- One try of `pushSeq`; `waited` is whether an earlier try was counted as waiting.
unfoldable pub push_seq : ℕ → Text → Bool → SideQueue → Option Bool × SideQueue
unfolding admit_seq push_admitted
push_seq seq b waited q =
    let (answer, _, q') = admit_seq seq (length b) waited q in push_admitted answer seq b q'

unfoldable pub push_reserved : Reserve → Text → SideQueue → Option Bool × SideQueue
unfolding enqueue
push_reserved room_held b q = let (ok, q') = enqueue b (length b) q in (some ok, q')
push_reserved queue_full b q = (none, q)
push_reserved (pool_full ns_full) b q = (none, q)
push_reserved _ b q = (some false, q)

-- One try of `push`.
unfoldable pub push : Text → Bool → SideQueue → Option Bool × SideQueue
unfolding try_reserve push_reserved
push b waited q =
    let (answer, _, q') = try_reserve (length b) false waited q in push_reserved answer b q'

-- The write is in the stream, or held until its turn.
abbrev pub Taken : ℕ → SideQueue → Type 0
Taken seq q = (ltb seq q.seq_next || has seq q.seq_held) ≡ true

send-next : (b : Text) (q : SideQueue) → (send b q).seq_next ≡ q.seq_next
unfolding send
send-next [] q = refl
send-next (c ∷ b) q = refl

wake-next : (q : SideQueue) → (wake q).seq_next ≡ q.seq_next
unfolding wake
wake-next q = refl

has-head : (k : ℕ) (b : Text) (es : List (ℕ × Text)) → has k ((k, b) ∷ es) ≡ true
unfolding has lookup
has-head k b es = rw ((==_iff k k).1 refl, has) refl

advance-grows : (fuel : ℕ) (q : SideQueue) → q.seq_next < (advance fuel q).seq_next
unfolding advance
advance-grows zero q = omega arith
advance-grows (suc fuel) q = elim (Option-cases (lookup (suc q.seq_next) q.seq_held)) [
  | inl e ↦ rw (e, advance) (omega arith)
  | inr (b, e) ↦
      let next = record q {
        seq_next = suc q.seq_next;
        seq_held = remove (suc q.seq_next) q.seq_held;
      } in
      rw (e, advance) (omega (arith, advance-grows fuel (send b next), send-next b next))
]

Taken-core : (seq : ℕ) (p q : SideQueue) → core p ≡ core q → Taken seq q → Taken seq p
unfolding core
Taken-core seq p q e t =
    subst (λ (c : Core). (ltb seq c.expected || has seq c.early) ≡ true) (sym e) t

commit_seq-Taken :
    (seq room : ℕ) (b : Text) (q : SideQueue)
    → q.closed ≡ false
    → Taken seq (commit_seq seq b room q).1
commit_seq-Taken seq room b q o = elim (Bool-cases (has seq q.seq_held || ltb seq q.seq_next)) [
  | inl r ↦
      subst (Taken seq) (sym (commit-again seq room b q o r))
        (Taken-core seq (keep room 0 q) q (core-keep room 0 q) (ground arith))
  | inr r ↦ elim (Bool-cases (ltb q.seq_next seq)) [
    | inl a ↦
        subst (Taken seq) (sym (commit-early seq room b q o r a))
          (ground (arith, has-head seq b (keep room (length b) q).seq_held))
    | inr a ↦ subst (Taken seq) (sym (commit-next seq room b q o r a)) (
        let kept = keep room (length b) q in
        let later = advance (length (send b kept).seq_held) (send b kept) in
        ground (
          arith,
          advance-grows (length (send b kept).seq_held) (send b kept),
          send-next b kept,
          wake-next later,
          next_of kept q (core-keep room (length b) q),
        ))
  ]
]

-- On a queue that is not closed, a write that was committed is acknowledged when it is sent again,
-- and the queue does not change.
pub push_seq-again :
    (seq : ℕ) (b again : Text) (waited : Bool) (room : ℕ) (q : SideQueue)
    → q.closed ≡ false
    → push_seq seq again waited (commit_seq seq b room q).1
      ≡ (some true, (commit_seq seq b room q).1)
unfolding push_seq admit_seq push_admitted
push_seq-again seq b again waited room q o =
    admit_again (commit_seq seq b room q).1 (commit_seq-Taken seq room b q o)
  where
    admit_again : (p : SideQueue) → Taken seq p → push_seq seq again waited p ≡ (some true, p)
    admit_again p t = rw t refl
