-- ===== src/Relay/SideQueue/Order.antt =====
-- The order of numbered writes: whichever order they arrive in, and however often one is sent again,
-- the direction carries them once each, in the order of their numbers.
use wanctl.Prelude.{
  ℕ, zero, suc, ◌-◌, ◌≤◌, ◌≡◌, refl, sym, ap, subst, ◌∙◌, inl, inr, Bool, true, false, ◌&&◌, ◌||◌,
  some, List, [], ◌∷◌, ◌++◌, ltb, ◌==◌, ==_iff, if◌then◌else◌, length, concat, concat-snoc, All,
  All-filter, arith, append_assoc, append-nil, Bool-cases, Option-cases,
}
use wanctl.Bytes.{Text}
use wanctl.Relay.SideQueue.{
  SideQueue, lookup, remove, has, send, release, release_pool, wake, keep, enqueue, advance,
  commit_seq,
}

-- The writes numbered from 1 up to, but not including, `n`.
unfoldable pub written : (ℕ → Text) → ℕ → Text
written w zero = []
written w (suc zero) = []
written w (suc (suc n)) = written w (suc n) ++ w (suc n)

-- What a direction carries, without what it accounts for.
pub record Core : Type 0 where
  pub queued : List Text
  pub done : Bool
  pub last : ℕ
  pub given : List (ℕ × Text)
  pub split : Text
  pub expected : ℕ
  pub early : List (ℕ × Text)

unfoldable pub core : SideQueue → Core
core q = record {
  queued = q.ch;
  done = q.closed;
  last = q.seq;
  given = q.assigned;
  split = q.head;
  expected = q.seq_next;
  early = q.seq_held;
}

pub core-release : (n slots : ℕ) (q : SideQueue) → core (release n slots q) ≡ core q
unfolding core release wake release_pool
core-release n slots q = elim (Bool-cases (q.freed || (n == 0 && (slots == 0)))) [
  | inl e ↦ rw e refl
  | inr e ↦ elim (Option-cases q.pool) [ inl p ↦ rw (e, p) refl | inr (a, p) ↦ rw (e, p) refl ]
]

pub core-keep : (reserved used : ℕ) (q : SideQueue) → core (keep reserved used q) ≡ core q
unfolding keep
core-keep reserved used q =
    core-release (reserved - used) (if ltb 0 reserved && (used == 0) then 1 else 0) q

-- The bytes that have entered, `sent` of them taken out already, are the writes up to `expected`; the
-- early writes are what their numbers say.
pub record Ordered (w : ℕ → Text) (sent : Text) (c : Core) : Type 0 where
  pub carries : sent ++ (c.split ++ concat c.queued) ≡ written w c.expected
  pub started : 1 ≤ c.expected
  pub theirs : All (λ (e : ℕ × Text). e.1 ≡ w e.0) c.early

some_inj : (a b : Text) → some a ≡ some b → a ≡ b
some_inj a b e = ground arith

pub lookup-All :
    (P : ℕ × Text → Type 0) (k : ℕ) (b : Text) (es : List (ℕ × Text))
    → All P es
    → lookup k es ≡ some b
    → P (k, b)
unfolding lookup
lookup-All P k b [] a h = absurd (ground arith)
lookup-All P k b (e ∷ es) a h = elim (Bool-cases (e.0 == k)) [
  | inl m ↦
      subst (λ x. P (x, b)) ((==_iff e.0 k).0 m)
        (subst (λ y. P (e.0, y)) (some_inj e.1 b (ground arith)) a.0)
  | inr m ↦ lookup-All P k b es a.1 (ground arith)
]

All-remove : (P : ℕ × Text → Type 0) (k : ℕ) (es : List (ℕ × Text)) → All P es → All P (remove k es)
unfolding remove
All-remove P k es a = All-filter P _ es a

pub next_of : (p q : SideQueue) → core p ≡ core q → p.seq_next ≡ q.seq_next
unfolding core
next_of p q e = ap (λ c. c.expected) e

-- The four outcomes of `commitSeq`.
module _ (seq room : ℕ) (b : Text) (q : SideQueue) where
  pub commit-closed : q.closed ≡ true → (commit_seq seq b room q).1 ≡ keep room 0 q
  unfolding commit_seq
  commit-closed e = rw e refl

  pub commit-again :
      q.closed ≡ false
      → (has seq q.seq_held || ltb seq q.seq_next) ≡ true
      → (commit_seq seq b room q).1 ≡ keep room 0 q
  unfolding commit_seq
  commit-again e r = rw (e, r) refl

  pub commit-early :
      q.closed ≡ false
      → (has seq q.seq_held || ltb seq q.seq_next) ≡ false
      → ltb q.seq_next seq ≡ true
      → (commit_seq seq b room q).1 ≡ record (keep room (length b) q) {
        seq_held = (seq, b) ∷ (keep room (length b) q).seq_held;
      }
  unfolding commit_seq
  commit-early e r a = rw (e, r, a) refl

  pub commit-next :
      q.closed ≡ false
      → (has seq q.seq_held || ltb seq q.seq_next) ≡ false
      → ltb q.seq_next seq ≡ false
      → (commit_seq seq b room q).1
        ≡ wake (
            advance
              (length (send b (keep room (length b) q)).seq_held)
              (send b (keep room (length b) q)))
  unfolding commit_seq enqueue
  commit-next e r a = rw (e, r, a) refl

module _ (w : ℕ → Text) (sent : Text) where
  -- In the middle of a commit: the write numbered `expected` is in.
  record Entered (c : Core) : Type 0 where
    carries : sent ++ (c.split ++ concat c.queued) ≡ written w (suc c.expected)
    started : 1 ≤ c.expected
    theirs : All (λ (e : ℕ × Text). e.1 ≡ w e.0) c.early

  send-carries :
      (b : Text) (q : SideQueue)
      → sent ++ ((core (send b q)).split ++ concat (core (send b q)).queued)
        ≡ (sent ++ (q.head ++ concat q.ch)) ++ b
  unfolding core send
  send-carries [] q = sym (append-nil _)
  send-carries (c ∷ b) q =
      ap (λ l. sent ++ (q.head ++ l)) (concat-snoc q.ch (c ∷ b))
      ∙ ap (λ l. sent ++ l) (sym (append_assoc q.head (concat q.ch) (c ∷ b)))
      ∙ sym (append_assoc sent (q.head ++ concat q.ch) (c ∷ b))

  written-suc : (n : ℕ) → 1 ≤ n → written w (suc n) ≡ written w n ++ w n
  unfolding written
  written-suc zero h = absurd (omega (arith, h))
  written-suc (suc n) h = refl

  send-rest :
      (b : Text) (q : SideQueue)
      → ((core (send b q)).expected ≡ q.seq_next) × ((core (send b q)).early ≡ q.seq_held)
  unfolding core send
  send-rest [] q = (refl, refl)
  send-rest (c ∷ b) q = (refl, refl)

  -- A write that is next in order goes to the end of the stream.
  send-Entered :
      (b : Text) (q : SideQueue)
      → b ≡ w q.seq_next
      → Ordered w sent (core q)
      → Entered (core (send b q))
  unfolding core
  send-Entered b q e o =
      let (x, y) = send-rest b q in
      record {
        carries =
            send-carries b q
            ∙ ap (λ l. l ++ b) o.carries
            ∙ ap (λ l. written w q.seq_next ++ l) e
            ∙ sym (written-suc q.seq_next o.started)
            ∙ ap (λ n. written w (suc n)) (sym x);
        started = subst (λ n. 1 ≤ n) (sym x) o.started;
        theirs = subst (λ es. All (λ (e : ℕ × Text). e.1 ≡ w e.0) es) (sym y) o.theirs;
      }

  -- The loop lets in every early write whose turn has come, each in its turn.
  advance-Ordered :
      (fuel : ℕ) (q : SideQueue) → Entered (core q) → Ordered w sent (core (advance fuel q))
  unfolding advance core
  advance-Ordered zero q o = record {
    carries = o.carries;
    started = omega arith;
    theirs = o.theirs;
  }
  advance-Ordered (suc fuel) q o =
      let next = record q { seq_next = suc q.seq_next } in
      let here : Ordered w sent (core next) = record {
        carries = o.carries;
        started = omega arith;
        theirs = o.theirs;
      } in
      elim (Option-cases (lookup (suc q.seq_next) q.seq_held)) [
        | inl e ↦ rw (e, advance) here
        | inr (b, e) ↦
            rw (e, advance)
              (advance-Ordered fuel
                (send b (record next { seq_held = remove (suc q.seq_next) q.seq_held }))
                (send-Entered b (record next { seq_held = remove (suc q.seq_next) q.seq_held })
                  (lookup-All (λ e. e.1 ≡ w e.0) (suc q.seq_next) b q.seq_held o.theirs e)
                  (record {
                    carries = o.carries;
                    started = omega arith;
                    theirs = All-remove (λ e. e.1 ≡ w e.0) (suc q.seq_next) q.seq_held o.theirs;
                  })))
      ]

  add_early :
      (seq : ℕ) (q : SideQueue)
      → Ordered w sent (core q)
      → Ordered w sent (core (record q { seq_held = (seq, w seq) ∷ q.seq_held }))
  unfolding core
  add_early seq q o = record { carries = o.carries; started = o.started; theirs = (refl, o.theirs) }

  pub core-wake : (q : SideQueue) → core (wake q) ≡ core q
  unfolding core wake
  core-wake q = refl

  -- Taking write `seq` keeps the order, whether it is in its turn, early, late or sent again.
  pub commit_seq-Ordered :
      (seq room : ℕ) (q : SideQueue)
      → Ordered w sent (core q)
      → Ordered w sent (core (commit_seq seq (w seq) room q).1)
  commit_seq-Ordered seq room q o =
      let n = length (w seq) in
      let kept = keep room n q in
      let o' : Ordered w sent (core kept) =
        subst (λ c. Ordered w sent c) (sym (core-keep room n q)) o in
      let back : Ordered w sent (core (keep room 0 q)) =
        subst (λ c. Ordered w sent c) (sym (core-keep room 0 q)) o in
      let to = λ (p : SideQueue). Ordered w sent (core p) in
      elim (Bool-cases q.closed) [
        | inl e ↦ subst to (sym (commit-closed seq room (w seq) q e)) back
        | inr e ↦ elim (Bool-cases (has seq q.seq_held || ltb seq q.seq_next)) [
          | inl r ↦ subst to (sym (commit-again seq room (w seq) q e r)) back
          | inr r ↦ elim (Bool-cases (ltb q.seq_next seq)) [
            | inl a ↦ subst to (sym (commit-early seq room (w seq) q e r a)) (add_early seq kept o')
            | inr a ↦
                let turn : seq ≡ kept.seq_next =
                  turn_of (ground arith) (next_of kept q (core-keep room n q)) in
                subst to (sym (commit-next seq room (w seq) q e r a)) (
                  subst (λ c. Ordered w sent c) (sym (core-wake _))
                    (advance-Ordered (length (send (w seq) kept).seq_held) (send (w seq) kept)
                      (send-Entered (w seq) kept (ap w turn) o')))
          ]
        ]
      ]
    where
      turn_of : {a b c : ℕ} → a ≡ b → c ≡ b → a ≡ c
      turn_of e f = e ∙ sym f
