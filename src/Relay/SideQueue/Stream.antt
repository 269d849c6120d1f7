-- ===== src/Relay/SideQueue/Stream.antt =====
-- What a drain takes out of a direction: its bytes, in their order, up to the limit.
use wanctl.Relay.SideQueue.Drain.{
  drain_front, Drain, append_capped, took, fill, start, drain_queued, settle, drain_waited,
  drain_up_to,
}
use wanctl.Relay.SideQueue.{wake, release_pool, SideQueue, release}
use wanctl.Prelude.{
  ℕ, suc, ◌-◌, ◌≤◌, ◌≡◌, refl, sym, ap, ◌∙◌, ◌⊎◌, ◌&&◌, not, inl, inr, Bool, true, false, List, [],
  ◌∷◌, ◌++◌, ltb, length, take, drop, concat, arith, append_assoc, take-append-drop, length-append,
  length-take, Bool-cases,
}
use wanctl.Bytes.{Text, is_empty}

-- The bytes that a drain has in its hands and has left, in their order.
abbrev left : Drain → Text
left d = d.tail ++ concat d.rest

-- A drain split a chunk only where it is full.
abbrev Whole : ℕ → Drain → Type 0
Whole limit d = (d.tail ≡ []) ⊎ (limit ≤ length d.out)

module _ (limit : ℕ) where
  append_capped-rest : (b : Text) (d : Drain) → (append_capped limit b d).rest ≡ d.rest
  unfolding append_capped
  append_capped-rest b d = ground arith

  append_capped-keeps :
      (b : Text) (d : Drain) (r : Text)
      → d.tail ≡ []
      → (append_capped limit b d).out ++ ((append_capped limit b d).tail ++ r) ≡ d.out ++ (b ++ r)
  unfolding append_capped
  append_capped-keeps b d r t =
      let room = limit - length d.out in
      elim (Bool-cases (ltb room (length b))) [
        | inl e ↦ rw e (
            append_assoc d.out (take room b) (drop room b ++ r)
            ∙ ap (λ l. d.out ++ l)
                (sym (append_assoc (take room b) (drop room b) r)
                  ∙ ap (λ l. l ++ r) (take-append-drop room b)))
        | inr e ↦ rw (e, t) (append_assoc d.out b r)
      ]

  append_capped-Whole :
      (b : Text) (d : Drain)
      → d.tail ≡ []
      → length d.out ≤ limit
      → Whole limit (append_capped limit b d) × (length (append_capped limit b d).out ≤ limit)
  unfolding append_capped
  append_capped-Whole b d t l =
      let room = limit - length d.out in
      let n = length-append d.out (take room b) in
      let m = length-take room b in
      let k = length-append d.out b in
      elim (Bool-cases (ltb room (length b))) [
        | inl e ↦ rw e (inr (ground arith), ground arith)
        | inr e ↦ rw e (inl t, ground arith)
      ]

  -- Filling keeps the bytes and their order, and stays within the limit.
  fill-keeps :
      (xs : List Text) (d : Drain)
      → d.rest ≡ xs
      → Whole limit d
      → length d.out ≤ limit
      → ((fill limit xs d).out ++ left (fill limit xs d) ≡ d.out ++ left d)
        × (length (fill limit xs d).out ≤ limit)
        × Whole limit (fill limit xs d)
  unfolding fill took
  fill-keeps [] d r w l = (refl, l, w)
  fill-keeps (b ∷ rest) d r (inr full) l = rw (lt_off d full) (refl, l, inr full)
    where
      lt_off : (d : Drain) → limit ≤ length d.out → ltb (length d.out) limit ≡ false
      lt_off d h = ground (arith)
  fill-keeps (b ∷ rest) d r (inl t) l =
      let d' = record d { rest = rest; taken = suc d.taken } in
      let next = append_capped limit b d' in
      let (w, k) = append_capped-Whole b d' t l in
      let (e, m, w') = fill-keeps rest next (append_capped-rest b d') w k in
      elim (Bool-cases (ltb (length d.out) limit)) [
        | inl c ↦ rw c (
          e
              ∙ ap (λ x. next.out ++ (next.tail ++ concat x)) (append_capped-rest b d')
              ∙ append_capped-keeps b d' (concat rest) t
              ∙ ap (λ x. d.out ++ (x ++ (b ++ concat rest))) (sym t)
              ∙ ap (λ x. d.out ++ (d.tail ++ concat x)) (sym r),
          m,
          w',
        )
        | inr c ↦ rw c (refl, l, inl t)
      ]

  abbrev Kept : Text → Drain → Type 0
  Kept bytes d = (d.out ++ left d ≡ bytes) × (length d.out ≤ limit) × Whole limit d

  drain_queued-keeps : (q : SideQueue) → Kept (q.head ++ concat q.ch) (drain_queued limit q)
  unfolding drain_queued start
  drain_queued-keeps q = elim (Bool-cases (is_empty q.head)) [
    | inl e ↦
        let (k, m, w) = fill-keeps q.ch (start q) refl (inl refl) (omega arith) in
        rw e (k ∙ ap (λ h. h ++ concat q.ch) (sym (empty-eq q.head e)), m, w)
    | inr e ↦
        let d = append_capped limit q.head (start q) in
        let (w, l) = append_capped-Whole q.head (start q) refl (omega arith) in
        let (k, m, w') = fill-keeps d.rest d refl w l in
        rw e (
          k
              ∙ ap (λ x. d.out ++ (d.tail ++ concat x)) (append_capped-rest q.head (start q))
              ∙ append_capped-keeps q.head (start q) (concat q.ch) refl,
          m,
          w',
        )
  ]
    where
      empty-eq : (t : Text) → is_empty t ≡ true → t ≡ []
      empty-eq [] e = refl
      empty-eq (c ∷ t) e = absurd (ground arith)

  drain_front-keeps :
      (ended : Bool) (xs : List Text) (d : Drain)
      → d.rest ≡ xs
      → d.tail ≡ []
      → length d.out ≤ limit
      → Kept (d.out ++ left d) (drain_front limit ended xs d).1
  unfolding drain_front took
  drain_front-keeps ended [] d r t l = (refl, l, inl t)
  drain_front-keeps ended (b ∷ rest) d r t l =
      let d' = record d { rest = rest; taken = suc d.taken } in
      let next = append_capped limit b d' in
      let (w, l') = append_capped-Whole b d' t l in
      let (e, m, w') = fill-keeps rest next (append_capped-rest b d') w l' in
      (
        e
            ∙ ap (λ x. next.out ++ (next.tail ++ concat x)) (append_capped-rest b d')
            ∙ append_capped-keeps b d' (concat rest) t
            ∙ ap (λ x. d.out ++ (x ++ (b ++ concat rest))) (sym t)
            ∙ ap (λ x. d.out ++ (d.tail ++ concat x)) (sym r),
        m,
        w',
      )

  tail_empty : (d : Drain) → 1 ≤ limit → Whole limit d → is_empty d.out ≡ true → d.tail ≡ []
  tail_empty d pos (inl t) e = t
  tail_empty d pos (inr full) e = absurd (omega (arith, full, pos, empty-length d.out e))
    where
      empty-length : (t : Text) → is_empty t ≡ true → length t ≡ 0
      empty-length [] e = refl
      empty-length (c ∷ t) e = absurd (ground arith)

  drain_waited-keeps :
      (expired closed : Bool) (bytes : Text) (d : Drain)
      → 1 ≤ limit
      → Kept bytes d
      → Kept bytes (drain_waited limit expired closed d).1
  unfolding drain_waited
  drain_waited-keeps expired closed bytes d pos (k, m, w) = elim (Bool-cases (is_empty d.out)) [
    | inr e ↦ rw e (k, m, w)
    | inl e ↦
        let (k', m', w') =
          drain_front-keeps (closed && not expired) d.rest d refl (tail_empty d pos w e) m in
        rw e (k' ∙ k, m', w')
  ]

  -- The fields of the stream that a release of room leaves alone.
  settle-keeps :
      (d : Drain) (q : SideQueue) → ((settle d q).head ≡ d.tail) × ((settle d q).ch ≡ d.rest)
  unfolding settle release release_pool wake
  settle-keeps d q = ground (arith)

  -- A drain with a positive limit answers at most the limit, and its answer and what it leaves are
  -- together, in their order, the bytes that were there.
  pub drain_up_to-keeps :
      (expired : Bool) (q : SideQueue)
      → 1 ≤ limit
      → ((drain_up_to limit expired q).0
            ++ ((drain_up_to limit expired q).2.head ++ concat (drain_up_to limit expired q).2.ch)
          ≡ q.head ++ concat q.ch)
        × (length (drain_up_to limit expired q).0 ≤ limit)
  unfolding drain_up_to
  drain_up_to-keeps expired q pos =
      let d = (drain_waited limit expired q.closed (drain_queued limit q)).1 in
      let (k, m, _) =
        drain_waited-keeps expired q.closed (q.head ++ concat q.ch) (drain_queued limit q) pos
          (drain_queued-keeps q) in
      let (h, c) = settle-keeps d q in
      (
        ap (λ t. d.out ++ (t ++ concat (settle d q).ch)) h
            ∙ ap (λ x. d.out ++ (d.tail ++ concat x)) c
            ∙ k,
        m,
      )
