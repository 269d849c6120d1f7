-- ===== src/Relay/SideQueue/Promise.antt =====
-- What a direction promises: its reader gets the writes, once each and in the order of their numbers.
use wanctl.Prelude.{
  ap₂, append-nil, leb, ℕ, zero, suc, ◌≤◌, ◌≡◌, refl, sym, ap, subst, ◌∙◌, ◌⊎◌, inl, inr, Bool,
  true, ◌||◌, some, List, [], ◌∷◌, ◌++◌, ltb, length, concat, All, arith, Bool-cases, Option-cases,
}
use wanctl.Bytes.{Text, is_empty}
use wanctl.Relay.SideQueue.{
  SideQueue, new_side_queue, lookup, has, remove, send, advance, close, wake, keep, unreserve,
  commit_seq,
}
use wanctl.Relay.SideQueue.Take.{take_up_to, settled}
use wanctl.Relay.SideQueue.Order.{
  Core, core, written, core-keep, commit_seq-Ordered, commit-closed, commit-again, commit-early,
  commit-next,
}
use wanctl.Relay.SideQueue.Served.{chunk_at, Served}
use wanctl.Relay.SideQueue.Reader.{heard, take_up_to-Answered}
use wanctl.Relay.SideQueue.Run.{
  Run, opened, attached, accounted, core-attach, core-account, admitted, committed, unreserved,
  closed, polled, core-admit_seq,
}

-- What has been given out, as the state records it.
abbrev given : SideQueue → ℕ × List (ℕ × Text)
given q = (q.seq, q.assigned)

given-core : (p q : SideQueue) → core p ≡ core q → given p ≡ given q
unfolding core
given-core p q e = ap (λ (c : Core). (c.last, c.given)) e

given-send : (b : Text) (q : SideQueue) → given (send b q) ≡ given q
unfolding send
given-send [] q = refl
given-send (c ∷ b) q = refl

given-advance : (fuel : ℕ) (q : SideQueue) → given (advance fuel q) ≡ given q
unfolding advance
given-advance zero q = refl
given-advance (suc fuel) q = elim (Option-cases (lookup (suc q.seq_next) q.seq_held)) [
  | inl e ↦ rw (e, advance) refl
  | inr (b, e) ↦
      let next = record q {
        seq_next = suc q.seq_next;
        seq_held = remove (suc q.seq_next) q.seq_held;
      } in
      rw (e, advance) (given-advance fuel (send b next) ∙ given-send b next)
]

given-commit_seq :
    (seq room : ℕ) (b : Text) (q : SideQueue) → given (commit_seq seq b room q).1 ≡ given q
unfolding wake
given-commit_seq seq room b q =
    let n = length b in
    let kept = given-core (keep room n q) q (core-keep room n q) in
    let back = given-core (keep room 0 q) q (core-keep room 0 q) in
    elim (Bool-cases q.closed) [
      | inl e ↦ ap given (commit-closed seq room b q e) ∙ back
      | inr e ↦ elim (Bool-cases (has seq q.seq_held || ltb seq q.seq_next)) [
        | inl r ↦ ap given (commit-again seq room b q e r) ∙ back
        | inr r ↦ elim (Bool-cases (ltb q.seq_next seq)) [
          | inl a ↦ ap given (commit-early seq room b q e r a) ∙ kept
          | inr a ↦
              ap given (commit-next seq room b q e r a)
              ∙ given-advance (length (send b (keep room n q)).seq_held) (send b (keep room n q))
              ∙ given-send b (keep room n q)
              ∙ kept
        ]
      ]
    ]

module _ (w : ℕ → Text) where
  commit_seq-Served :
      (seq room : ℕ) (cs : List Text) (q : SideQueue)
      → Served w cs (core q)
      → Served w cs (core (commit_seq seq (w seq) room q).1)
  unfolding core
  commit_seq-Served seq room cs q s =
      let g = given-commit_seq seq room (w seq) q in
      record {
        ordered = commit_seq-Ordered w (concat cs) seq room q s.ordered;
        counted = s.counted ∙ sym (ap (λ x. x.0) g);
        copies =
            subst (λ es. All (λ (e : ℕ × Text). chunk_at e.0 cs ≡ some e.1) es)
              (sym (ap (λ x. x.1) g)) s.copies;
      }

  close-Served :
      (cs : List Text) (q : SideQueue) → Served w cs (core q) → Served w cs (core (close q))
  unfolding core close
  close-Served cs q s = record {
    ordered = record {
      carries = s.ordered.carries;
      started = s.ordered.started;
      theirs = s.ordered.theirs;
    };
    counted = s.counted;
    copies = s.copies;
  }

  new-Served : Served w [] (core new_side_queue)
  unfolding core new_side_queue written
  new-Served = record {
    ordered = record { carries = refl; started = omega arith; theirs = tt };
    counted = refl;
    copies = tt;
  }

  Run-Served : {cs : List Text} {q : SideQueue} → Run w cs q → Served w cs (core q)
  unfolding unreserve
  Run-Served opened = new-Served
  Run-Served (attached {cs = cs} {q = q} pool ns r) =
      subst (λ c. Served w cs c) (sym (core-attach pool ns q)) (Run-Served r)
  Run-Served (accounted {cs = cs} {q = q} pool r) =
      subst (λ c. Served w cs c) (sym (core-account pool q)) (Run-Served r)
  Run-Served (admitted {cs = cs} {q = q} seq n waited r) =
      subst (λ c. Served w cs c) (sym (core-admit_seq seq n waited q)) (Run-Served r)
  Run-Served (committed {cs = cs} {q = q} seq room r) =
      commit_seq-Served seq room cs q (Run-Served r)
  Run-Served (unreserved {cs = cs} {q = q} room r) =
      subst (λ c. Served w cs c) (sym (core-keep room 0 q)) (Run-Served r)
  Run-Served (closed {cs = cs} {q = q} r) = close-Served cs q (Run-Served r)
  Run-Served (polled {cs = cs} {q = q} ack limit expired pos r) =
      (take_up_to-Answered w limit pos ack expired cs q (Run-Served r)).0

-- In every run of a session direction with acknowledged single polls, whatever order the numbered
-- writes arrive in and however often they are sent again, the chunks given out and the bytes still
-- carried are together the writes below the next expected number, once each and in the order of
-- their numbers.
pub stream_order :
    (w : ℕ → Text) (cs : List Text) (q : SideQueue)
    → Run w cs q
    → concat cs ++ (q.head ++ concat q.ch) ≡ written w q.seq_next
unfolding core
stream_order w cs q r = (Run-Served w r).ordered.carries

-- In every run with acknowledged single polls, such a poll with a positive limit answers no chunk,
-- or the chunk of its number: one number always stands for the same bytes, whatever was
-- acknowledged, lost or polled for again.
pub answer_chunk :
    (w : ℕ → Text) (cs : List Text) (q : SideQueue)
    → Run w cs q
    → (ack limit : ℕ) (expired : Bool) → 1 ≤ limit
    → let poll = take_up_to ack limit expired q in
      (poll.0.number ≡ 0) ⊎ (chunk_at poll.0.number (heard cs q poll) ≡ some poll.0.bytes)
answer_chunk w cs q r ack limit expired pos =
    (take_up_to-Answered w limit pos ack expired cs q (Run-Served w r)).1

empty_text : (t : Text) → is_empty t ≡ true → t ≡ []
empty_text [] e = refl
empty_text (c ∷ t) e = absurd (ground arith)

no_chunks : (xs : List Text) → leb (length xs) 0 ≡ true → xs ≡ []
no_chunks [] e = refl
no_chunks (x ∷ xs) e = absurd (ground arith)

-- In every such run, once a direction is settled, its reader has been given every write below the
-- number that it expects next.
pub settled_all :
    (w : ℕ → Text) (cs : List Text) (q : SideQueue)
    → Run w cs q
    → settled q ≡ true
    → concat cs ≡ written w q.seq_next
unfolding settled
settled_all w cs q r h =
    let no_head = empty_text q.head (ground arith) in
    let no_ch = no_chunks q.ch (ground arith) in
    sym (append-nil (concat cs))
    ∙ ap₂ (λ t xs. concat cs ++ (t ++ concat xs)) (sym no_head) (sym no_ch)
    ∙ stream_order w cs q r
