-- ===== src/Relay/SideQueue/Served.antt =====
-- What a direction's reader gets: the stream, cut into numbered chunks.
use wanctl.Relay.SideQueue.Take.{
  give, bytes_of, forget_acked, Answer, drop_acked, assign, drain_next, no_data, chunk,
}
use wanctl.Prelude.{
  ap₂, ℕ, zero, suc, ◌≤◌, ◌≡◌, refl, sym, ap, subst, ◌∙◌, Bool, not, Option, none, some, List, [],
  ◌∷◌, ◌++◌, leb, if◌then◌else◌, length, concat, concat-snoc, All, All-filter, All-map, arith,
  append_assoc, append-nil, length-append, filter,
}
use wanctl.Bytes.{Text, is_empty}
use wanctl.Relay.SideQueue.{SideQueue}
use wanctl.Relay.SideQueue.Drain.{Drain, settle, drain_up_to, drain_queued, drain_waited}
use wanctl.Relay.SideQueue.Stream.{drain_up_to-keeps}
use wanctl.Relay.SideQueue.Order.{Core, core, Ordered, core-release}

-- Chunk number `k`, counted from 1.
unfoldable pub chunk_at : ℕ → List Text → Option Text
chunk_at zero cs = none
chunk_at (suc k) [] = none
chunk_at (suc zero) (c ∷ cs) = some c
chunk_at (suc (suc k)) (c ∷ cs) = chunk_at (suc k) cs

pub chunk_at-append :
    (k : ℕ) (b : Text) (cs ds : List Text) → chunk_at k cs ≡ some b → chunk_at k (cs ++ ds) ≡ some b
unfolding chunk_at
chunk_at-append zero b cs ds h = absurd (ground arith)
chunk_at-append (suc k) b [] ds h = absurd (ground arith)
chunk_at-append (suc zero) b (c ∷ cs) ds h = h
chunk_at-append (suc (suc k)) b (c ∷ cs) ds h = chunk_at-append (suc k) b cs ds h

pub chunk_at-last : (b : Text) (cs : List Text) → chunk_at (suc (length cs)) (cs ++ b ∷ []) ≡ some b
unfolding chunk_at
chunk_at-last b [] = refl
chunk_at-last b (c ∷ cs) = chunk_at-last b cs

-- The chunks given out so far, `cs`, are the front of the stream; what is kept for sending again is
-- what was given out under its number.
pub record Served (w : ℕ → Text) (cs : List Text) (c : Core) : Type 0 where
  pub ordered : Ordered w (concat cs) c
  pub counted : length cs ≡ c.last
  pub copies : All (λ (e : ℕ × Text). chunk_at e.0 cs ≡ some e.1) c.given

pub core-drop_acked :
    (ack : ℕ) (q : SideQueue)
    → core (drop_acked ack q)
      ≡ record (core q) { given = filter (λ e. not (leb e.0 ack)) q.assigned }
unfolding drop_acked forget_acked core
core-drop_acked ack q =
    core-release (bytes_of (filter (λ e. leb e.0 ack) q.assigned)) 0 (forget_acked ack q)

core-settle :
    (d : Drain) (q : SideQueue)
    → core (settle d q) ≡ record (core q) { queued = d.rest; split = d.tail }
unfolding settle core
core-settle d q = core-release 0 d.taken (record q { ch = d.rest; head = d.tail })

-- The chunks given out after a poll that answered `a` out of the direction's bytes.
unfoldable pub with_answer : List Text → Answer → List Text
with_answer cs a = if is_empty a.bytes then cs else cs ++ a.bytes ∷ []

moved :
    (p q : SideQueue) (xs : List Text) (t : Text)
    → core p ≡ record (core q) { queued = xs; split = t }
    → core p ≡ record (core q) { queued = p.ch; split = p.head }
unfolding core
moved p q xs t e =
    e
    ∙ ap₂ (λ a b. record (core q) { queued = a; split = b }) (sym (ap (λ c. c.queued) e))
        (sym (ap (λ c. c.split) e))

module _ (w : ℕ → Text) (limit : ℕ) (pos : 1 ≤ limit) where
  pub drop_acked-Served :
      (ack : ℕ) (cs : List Text) (q : SideQueue)
      → Served w cs (core q)
      → Served w cs (core (drop_acked ack q))
  unfolding core
  drop_acked-Served ack cs q s =
      subst (λ c. Served w cs c) (sym (core-drop_acked ack q))
        (record {
          ordered = record {
            carries = s.ordered.carries;
            started = s.ordered.started;
            theirs = s.ordered.theirs;
          };
          counted = s.counted;
          copies =
              All-filter (λ e. chunk_at e.0 cs ≡ some e.1) (λ e. not (leb e.0 ack)) q.assigned
                s.copies;
        })

  -- The counts, the numbers and the copies are no part of what a drain moves.
  unfoldable pub Drained : Text × Bool × SideQueue → SideQueue → Type 0
  Drained r q = core r.2 ≡ record (core q) { queued = r.2.ch; split = r.2.head }

  drain_up_to-core : (expired : Bool) (q : SideQueue) → Drained (drain_up_to limit expired q) q
  unfolding Drained drain_up_to
  drain_up_to-core expired q =
      let d = (drain_waited limit expired q.closed (drain_queued limit q)).1 in
      moved (settle d q) q d.rest d.tail (core-settle d q)

  -- A drain changes neither the numbers nor the copies.
  pub drain_up_to-counts :
      (expired : Bool) (q : SideQueue)
      → ((drain_up_to limit expired q).2.seq ≡ q.seq)
        × ((drain_up_to limit expired q).2.assigned ≡ q.assigned)
  unfolding Drained core
  drain_up_to-counts expired q =
      let e = drain_up_to-core expired q in (ap (λ c. c.last) e, ap (λ c. c.given) e)

  drain_up_to-Ordered :
      (expired : Bool) (sent : Text) (q : SideQueue)
      → Ordered w sent (core q)
      → Ordered w (sent ++ (drain_up_to limit expired q).0) (core (drain_up_to limit expired q).2)
  unfolding Drained core
  drain_up_to-Ordered expired sent q o =
      let r = drain_up_to limit expired q in
      let (k, _) = drain_up_to-keeps limit expired q pos in
      subst (λ c. Ordered w (sent ++ r.0) c) (sym (drain_up_to-core expired q))
        (record {
          carries =
              append_assoc sent r.0 (r.2.head ++ concat r.2.ch) ∙ ap (λ l. sent ++ l) k ∙ o.carries;
          started = o.started;
          theirs = o.theirs;
        })

  core-assign :
      (k : ℕ) (b : Text) (q : SideQueue)
      → core (assign k b (record q { seq = k }))
        ≡ record (core q) { given = (k, b) ∷ q.assigned; last = k }
  unfolding assign core
  core-assign k b q = refl

  give-Served :
      (b : Text) (at_end : Bool) (cs : List Text) (q : SideQueue)
      → Ordered w (concat cs ++ b) (core q)
      → length cs ≡ q.seq
      → All (λ (e : ℕ × Text). chunk_at e.0 cs ≡ some e.1) q.assigned
      → Served w (with_answer cs (give b at_end q).0) (core (give b at_end q).1)
  unfolding with_answer give no_data chunk assign core
  give-Served [] at_end cs q o n a = record {
    ordered = subst (λ t. Ordered w t (core q)) (append-nil (concat cs)) o;
    counted = n;
    copies = a;
  }
  give-Served (x ∷ b) at_end cs q o n a =
      let o' = subst (λ t. Ordered w t (core q)) (sym (concat-snoc cs (x ∷ b))) o in
      record {
        ordered = record { carries = o'.carries; started = o'.started; theirs = o'.theirs };
        counted = omega (arith, length-append cs ((x ∷ b) ∷ []), n);
        copies = (
          subst (λ k. chunk_at (suc k) (cs ++ (x ∷ b) ∷ []) ≡ some (x ∷ b)) n
              (chunk_at-last (x ∷ b) cs),
          All-map (λ (e : ℕ × Text). chunk_at e.0 cs ≡ some e.1) _
              (λ e h. chunk_at-append e.0 e.1 cs ((x ∷ b) ∷ []) h) q.assigned a,
        );
      }

  pub drain_next-Served :
      (expired : Bool) (cs : List Text) (q : SideQueue)
      → Served w cs (core q)
      → Served w
          (with_answer cs (drain_next limit expired q).0)
          (core (drain_next limit expired q).1)
  unfolding drain_next core
  drain_next-Served expired cs q s =
      let r = drain_up_to limit expired q in
      let (n, a) = drain_up_to-counts expired q in
      give-Served r.0 r.1 cs r.2 (drain_up_to-Ordered expired (concat cs) q s.ordered)
        (s.counted ∙ sym n)
        (subst (λ es. All (λ (e : ℕ × Text). chunk_at e.0 cs ≡ some e.1) es) (sym a) s.copies)
