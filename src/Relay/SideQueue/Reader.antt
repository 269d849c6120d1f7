-- ===== src/Relay/SideQueue/Reader.antt =====
-- The runs of a direction, and what they give its reader.
use wanctl.Relay.SideQueue.Served.{
  core-drop_acked, drain_up_to-counts, chunk_at-last, chunk_at, Served, drop_acked-Served,
  drain_next-Served, with_answer,
}
use wanctl.Relay.SideQueue.Drain.{drain_up_to}
use wanctl.Relay.SideQueue.Take.{
  answer_poll, assign, Answer, begin_take, end_take, drop_acked, outstanding, first_from,
  drain_next, give, take_up_to, no_data, chunk,
}
use wanctl.Prelude.{
  ℕ, zero, suc, ◌-◌, ◌≤◌, ◌≡◌, refl, sym, ap, subst, ◌∙◌, ◌⊎◌, inl, inr, Bool, true, false, Option,
  none, some, List, [], ◌∷◌, ◌++◌, ltb, if◌then◌else◌, length, arith, Option-cases,
}
use wanctl.Bytes.{Text}
use wanctl.Relay.SideQueue.{SideQueue, lookup}
use wanctl.Relay.SideQueue.Order.{core, lookup-All}

-- The chunks given out once a poll of `q` has ended in `r`: one more where its number is new.
unfoldable pub heard : List Text → SideQueue → Answer × SideQueue → List Text
heard cs q r = if ltb q.seq r.1.seq then cs ++ r.0.bytes ∷ [] else cs

first_from-lookup :
    (n k : ℕ) (es : List (ℕ × Text)) (e : ℕ × Text)
    → first_from n k es ≡ some e
    → lookup e.0 es ≡ some e.1
unfolding first_from
first_from-lookup zero k es e h = absurd (ground arith)
first_from-lookup (suc n) k es e h = elim (Option-cases (lookup k es)) [
  | inl m ↦ first_from-lookup n (suc k) es e (sym (step_none m) ∙ h)
  | inr (b, m) ↦
      let same : (k, b) ≡ e = some_inj (sym (step_some b m) ∙ h) in
      subst (λ x. lookup x.0 es ≡ some x.1) same m
]
  where
    step_none : lookup k es ≡ none → first_from (suc n) k es ≡ first_from n (suc k) es
    step_none m = rw (m, first_from) refl

    step_some : (b : Text) → lookup k es ≡ some b → first_from (suc n) k es ≡ some (k, b)
    step_some b m = rw (m, first_from) refl

    some_inj : {x y : ℕ × Text} → some x ≡ some y → x ≡ y
    some_inj h = ground arith

-- A chunk that is given out again is the one that was given out under its number.
Held : Option (ℕ × Text) → List Text → Type 0
Held none cs = Unit
Held (some e) cs = chunk_at e.0 cs ≡ some e.1

heard_same : (cs : List Text) (q : SideQueue) (a : Answer) → heard cs q (a, q) ≡ cs
unfolding heard
heard_same cs q a = rw (lt_irrefl q.seq) refl
  where
    lt_irrefl : (n : ℕ) → ltb n n ≡ false
    lt_irrefl n = ground arith

Held-of :
    (o : Option (ℕ × Text)) (cs : List Text)
    → ((e : ℕ × Text) → o ≡ some e → chunk_at e.0 cs ≡ some e.1)
    → Held o cs
unfolding Held
Held-of none cs f = tt
Held-of (some e) cs f = f e refl

heard-seq :
    (cs : List Text) (q p : SideQueue) (a : Answer) (r : SideQueue)
    → p.seq ≡ q.seq
    → heard cs q (a, end_take r) ≡ heard cs p (a, r)
unfolding heard end_take
heard-seq cs q p a r e = ap (λ n. if ltb n r.seq then cs ++ a.bytes ∷ [] else cs) (sym e)

drop_acked-seq : (ack : ℕ) (q : SideQueue) → (drop_acked ack (begin_take q)).seq ≡ q.seq
unfolding core begin_take
drop_acked-seq ack q = ap (λ c. c.last) (core-drop_acked ack (begin_take q))

heard-give :
    (b : Text) (at_end : Bool) (cs : List Text) (q p : SideQueue)
    → p.seq ≡ q.seq
    → heard cs q (give b at_end p) ≡ with_answer cs (give b at_end p).0
unfolding heard give with_answer no_data chunk assign
heard-give [] at_end cs q p e = rw (lt_off q.seq p.seq e) refl
  where
    lt_off : (a b : ℕ) → b ≡ a → ltb a b ≡ false
    lt_off a b e = ground arith
heard-give (c ∷ b) at_end cs q p e = rw (lt_on q.seq p.seq e) refl
  where
    lt_on : (a b : ℕ) → b ≡ a → ltb a (suc b) ≡ true
    lt_on a b e = ground arith

give-chunk :
    (b : Text) (at_end : Bool) (cs : List Text) (p : SideQueue)
    → length cs ≡ p.seq
    → let a = (give b at_end p).0 in
      (a.number ≡ 0) ⊎ (chunk_at a.number (with_answer cs a) ≡ some a.bytes)
unfolding give with_answer no_data chunk assign
give-chunk [] at_end cs p e = inl refl
give-chunk (c ∷ b) at_end cs p e =
    inr (
      subst (λ n. chunk_at (suc n) (cs ++ (c ∷ b) ∷ []) ≡ some (c ∷ b)) e
        (chunk_at-last (c ∷ b) cs))

module _ (w : ℕ → Text) (limit : ℕ) (pos : 1 ≤ limit) where
  drain_next-heard :
      (expired : Bool) (cs : List Text) (q : SideQueue)
      → heard cs q (drain_next limit expired q) ≡ with_answer cs (drain_next limit expired q).0
  unfolding drain_next
  drain_next-heard expired cs q =
      let r = drain_up_to limit expired q in
      heard-give r.0 r.1 cs q r.2 (drain_up_to-counts w limit pos expired q).0

  drain_next-chunk :
      (expired : Bool) (cs : List Text) (q : SideQueue)
      → length cs ≡ q.seq
      → let a = (drain_next limit expired q).0 in
        (a.number ≡ 0) ⊎ (chunk_at a.number (with_answer cs a) ≡ some a.bytes)
  unfolding drain_next
  drain_next-chunk expired cs q e =
      let r = drain_up_to limit expired q in
      give-chunk r.0 r.1 cs r.2 (e ∙ sym (drain_up_to-counts w limit pos expired q).0)

  -- A poll keeps the order, and its answer is the chunk of its number.
  abbrev pub Answered : List Text → SideQueue → Answer × SideQueue → Type 0
  Answered cs q r =
      Served w (heard cs q r) (core r.1)
      × ((r.0.number ≡ 0) ⊎ (chunk_at r.0.number (heard cs q r) ≡ some r.0.bytes))

  counted-seq : (cs : List Text) (q : SideQueue) → Served w cs (core q) → length cs ≡ q.seq
  unfolding core
  counted-seq cs q s = s.counted

  answer_poll-Answered :
      (o : Option (ℕ × Text)) (expired : Bool) (cs : List Text) (q : SideQueue)
      → Held o cs
      → Served w cs (core q)
      → Answered cs q (answer_poll o limit expired q)
  unfolding answer_poll Held chunk core
  answer_poll-Answered none expired cs q h s = (
    subst (λ l. Served w l (core (drain_next limit expired q).1))
        (sym (drain_next-heard expired cs q)) (drain_next-Served w limit pos expired cs q s),
    subst
        (λ l.
          ((drain_next limit expired q).0.number ≡ 0)
          ⊎ (chunk_at (drain_next limit expired q).0.number l
              ≡ some (drain_next limit expired q).0.bytes))
        (sym (drain_next-heard expired cs q)) (drain_next-chunk expired cs q (counted-seq cs q s)),
  )
  answer_poll-Answered (some e) expired cs q h s =
      let same : heard cs q (chunk e.0 e.1, q) ≡ cs = heard_same cs q (chunk e.0 e.1) in
      (
        subst (λ l. Served w l (core q)) (sym same) s,
        inr (subst (λ l. chunk_at e.0 l ≡ some e.1) (sym same) h),
      )

  outstanding-Held :
      (ack : ℕ) (cs : List Text) (q : SideQueue)
      → Served w cs (core q)
      → Held (outstanding ack q) cs
  unfolding outstanding core
  outstanding-Held ack cs q s = Held-of (first_from (q.seq - ack) (suc ack) q.assigned) cs (λ e h.
      lookup-All (λ e. chunk_at e.0 cs ≡ some e.1) e.0 e.1 q.assigned s.copies
        (first_from-lookup (q.seq - ack) (suc ack) q.assigned e h))

  begin_take-Served :
      (cs : List Text) (q : SideQueue) → Served w cs (core q) → Served w cs (core (begin_take q))
  unfolding core begin_take
  begin_take-Served cs q s = s

  end_take-Served :
      (cs : List Text) (q : SideQueue) → Served w cs (core q) → Served w cs (core (end_take q))
  unfolding core end_take
  end_take-Served cs q s = s

  pub take_up_to-Answered :
      (ack : ℕ) (expired : Bool) (cs : List Text) (q : SideQueue)
      → Served w cs (core q)
      → Answered cs q (take_up_to ack limit expired q)
  unfolding take_up_to
  take_up_to-Answered ack expired cs q s =
      let q' = drop_acked ack (begin_take q) in
      let s' = drop_acked-Served w limit pos ack cs (begin_take q) (begin_take-Served cs q s) in
      let r = answer_poll (outstanding ack q') limit expired q' in
      let (k, c) =
        answer_poll-Answered (outstanding ack q') expired cs q' (outstanding-Held ack cs q' s')
          s' in
      let same = heard-seq cs q q' r.0 r.1 (drop_acked-seq ack q) in
      (
        subst (λ l. Served w l (core (end_take r.1))) (sym same)
            (end_take-Served (heard cs q' r) r.1 k),
        subst (λ l. (r.0.number ≡ 0) ⊎ (chunk_at r.0.number l ≡ some r.0.bytes)) (sym same) c,
      )
