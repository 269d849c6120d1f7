-- ===== src/Relay/SideQueue/Settled.antt =====
-- A direction that is settled (settled in internal/relay/http.go), and the calls that still come.
use wanctl.Prelude.{
  ◌-◌, ℕ, suc, zero, Bool, true, false, not, none, List, [], ◌∷◌, ◌≡◌, refl, ap, ◌∙◌, concat, arith,
  leb, length, filter,
}
use wanctl.Bytes.{Text, is_empty}
use wanctl.Relay.SideQueue.{SideQueue, commit_seq}
use wanctl.Relay.SideQueue.Drain.{drain_up_to, drain_queued, drain_waited, drain_front, fill, start}
use wanctl.Relay.SideQueue.Take.{
  begin_take, settled, undelivered, bytes_of, first_from, outstanding, forget_acked, drop_acked,
  no_data, give, drain_next, answer_poll, take_up_to,
}
use wanctl.Relay.SideQueue.Order.{Core, core, core-release, written}
use wanctl.Relay.SideQueue.Run.{Run}
use wanctl.Relay.SideQueue.Promise.{settled_all}

-- Nothing is queued, nothing is split off and nothing waits to be acknowledged.
record Done (q : SideQueue) : Type 0 where
  ended : q.closed ≡ true
  no_split : q.head ≡ []
  no_queue : q.ch ≡ []
  no_wait : q.assigned ≡ []

nothing {ℓ} : {A : Type ℓ} (xs : List A) → leb (length xs) 0 ≡ true → xs ≡ []
nothing [] e = refl
nothing (x ∷ xs) e = absurd (ground arith)

no_bytes : (t : Text) → is_empty t ≡ true → t ≡ []
no_bytes [] e = refl
no_bytes (c ∷ t) e = absurd (ground arith)

settled-Done : (q : SideQueue) → settled q ≡ true → Done q
unfolding settled
settled-Done q h = record {
  ended = ground arith;
  no_split = no_bytes q.head (ground arith);
  no_queue = nothing q.ch (ground arith);
  no_wait = nothing q.assigned (ground arith);
}

settled-undelivered : (q : SideQueue) → settled q ≡ true → undelivered q ≡ (false, false)
unfolding settled undelivered
settled-undelivered q h = ground arith

Done-core : (p q : SideQueue) → core p ≡ core q → Done q → Done p
unfolding core
Done-core p q e d = record {
  ended = ap (λ (c : Core). c.done) e ∙ d.ended;
  no_split = ap (λ (c : Core). c.split) e ∙ d.no_split;
  no_queue = ap (λ (c : Core). c.queued) e ∙ d.no_queue;
  no_wait = ap (λ (c : Core). c.given) e ∙ d.no_wait;
}

forget_acked-Done : (ack : ℕ) (q : SideQueue) → Done q → Done (forget_acked ack q)
unfolding forget_acked filter
forget_acked-Done ack q d = record {
  ended = d.ended;
  no_split = d.no_split;
  no_queue = d.no_queue;
  no_wait = ap (filter (λ e. not (leb e.0 ack))) d.no_wait;
}

drop_acked-Done : (ack : ℕ) (q : SideQueue) → Done q → Done (drop_acked ack q)
unfolding drop_acked
drop_acked-Done ack q d =
    Done-core (drop_acked ack q) (forget_acked ack q)
      (core-release (bytes_of (filter (λ e. leb e.0 ack) q.assigned)) 0 (forget_acked ack q))
      (forget_acked-Done ack q d)

first_from-nil : (n k : ℕ) → first_from n k [] ≡ none
unfolding first_from
first_from-nil zero k = refl
first_from-nil (suc n) k = first_from-nil n (suc k)

outstanding-none : (ack : ℕ) (q : SideQueue) → Done q → outstanding ack q ≡ none
unfolding outstanding
outstanding-none ack q d =
    ap (first_from (q.seq - ack) (suc ack)) d.no_wait ∙ first_from-nil (q.seq - ack) (suc ack)

-- A drain finds nothing, and the end.
drain_next-Done :
    (limit : ℕ) (expired : Bool) (q : SideQueue)
    → Done q
    → (drain_next limit expired q).0 ≡ no_data (not expired)
unfolding drain_next drain_up_to drain_queued drain_waited drain_front fill start give
drain_next-Done limit expired q d = rw (d.no_split, d.no_queue, d.ended) refl

take_up_to-Done :
    (ack limit : ℕ) (expired : Bool) (q : SideQueue)
    → Done q
    → (take_up_to ack limit expired q).0 ≡ no_data (not expired)
unfolding take_up_to begin_take answer_poll
take_up_to-Done ack limit expired q d =
    let begun : Done (begin_take q) = record {
      ended = d.ended;
      no_split = d.no_split;
      no_queue = d.no_queue;
      no_wait = d.no_wait;
    } in
    let q' = drop_acked ack (begin_take q) in
    let d' = drop_acked-Done ack (begin_take q) begun in
    ap (λ o. (answer_poll o limit expired q').0) (outstanding-none ack q' d')
    ∙ drain_next-Done limit expired q' d'

commit-refused :
    (seq room : ℕ) (b : Text) (q : SideQueue)
    → q.closed ≡ true
    → (commit_seq seq b room q).0 ≡ false
unfolding commit_seq
commit-refused seq room b q h = rw h refl

-- In every run with acknowledged single polls, once a direction is settled: its reader has been
-- given every write below the number that it expects next, nothing is undelivered, every further
-- write is refused, and every further poll answers that there is no data, and the end where its
-- time has not run out.
pub settled_done :
    (w : ℕ → Text) (cs : List Text) (q : SideQueue)
    → Run w cs q
    → settled q ≡ true
    → (seq room : ℕ) (b : Text) (ack limit : ℕ) (expired : Bool)
    → (concat cs ≡ written w q.seq_next)
      × (undelivered q ≡ (false, false))
      × ((commit_seq seq b room q).0 ≡ false)
      × ((take_up_to ack limit expired q).0 ≡ no_data (not expired))
settled_done w cs q r h seq room b ack limit expired =
    let d = settled-Done q h in
    (
      settled_all w cs q r h,
      settled-undelivered q h,
      commit-refused seq room b q d.ended,
      take_up_to-Done ack limit expired q d,
    )
