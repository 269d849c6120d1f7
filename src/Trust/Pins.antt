-- ===== src/Trust/Pins.antt =====
-- A pinned name stays with its fingerprint until it is replaced on purpose.
use wanctl.Prelude.{
  any, ℕ, ◌≡◌, ◌≢◌, refl, sym, ap, subst, ◌∙◌, inl, inr, Bool, true, false, some, List, [], ◌∷◌,
  arith, All, Bool-cases, false≢true,
}
use wanctl.Bytes.{Text, text_eq, is_empty}
use wanctl.Bytes.Laws.{text_eq_iff}
use wanctl.Trust.{
  valid_fingerprint, Peer, Outcome, done, mismatch, no_name, bad_fingerprint, same_key, put,
  first_peer, get_by_name, new_peer, Scan, present, in_way, absent, keep_peer, scan, pinned,
  pin_peers,
}

-- Every name stands for one peer.
abbrev pub OneEach : List Peer → Type 0
OneEach [] = Unit
OneEach (p ∷ ps) = All (λ q. text_eq q.name p.name ≡ false) ps × OneEach ps

module _ (name fp : Text) (now : ℕ) where
  abbrev called : Peer → Bool
  called p = text_eq p.name name

  pub scan-other :
      (replace : Bool) (q : Peer) (qs : List Peer)
      → called q ≡ false
      → scan name fp replace now (q ∷ qs) ≡ keep_peer q (scan name fp replace now qs)
  unfolding scan
  scan-other replace q qs c = rw c refl

  pub scan-there :
      (replace : Bool) (q : Peer) (qs : List Peer)
      → called q ≡ true
      → text_eq q.fingerprint fp ≡ true
      → scan name fp replace now (q ∷ qs) ≡ present (record q { last_seen = now } ∷ qs)
  unfolding scan
  scan-there replace q qs c f = rw (c, f) refl

  pub scan-stops :
      (q : Peer) (qs : List Peer)
      → called q ≡ true
      → text_eq q.fingerprint fp ≡ false
      → scan name fp false now (q ∷ qs) ≡ in_way q.fingerprint
  unfolding scan
  scan-stops q qs c f = rw (c, f) refl

  pub scan-drops :
      (q : Peer) (qs : List Peer)
      → called q ≡ true
      → text_eq q.fingerprint fp ≡ false
      → scan name fp true now (q ∷ qs) ≡ scan name fp true now qs
  unfolding scan
  scan-drops q qs c f = rw (c, f) refl

  some_inj : (p q : Peer) → some p ≡ some q → p ≡ q
  some_inj p q e = ground arith

  first-hit : (q : Peer) (qs : List Peer) → called q ≡ true → first_peer called (q ∷ qs) ≡ some q
  unfolding first_peer
  first-hit q qs c = rw c refl

  first-miss :
      (q : Peer) (qs : List Peer)
      → called q ≡ false
      → first_peer called (q ∷ qs) ≡ first_peer called qs
  unfolding first_peer
  first-miss q qs c = rw c refl

  -- Without leave to replace, the loop stops at the peer that the name is bound to.
  scan-in_way :
      (p : Peer) (ps : List Peer)
      → first_peer called ps ≡ some p
      → text_eq p.fingerprint fp ≡ false
      → scan name fp false now ps ≡ in_way p.fingerprint
  unfolding first_peer keep_peer
  scan-in_way p [] h n = absurd (ground arith)
  scan-in_way p (q ∷ qs) h n = elim (Bool-cases (called q)) [
    | inl c ↦
        let same : q ≡ p = some_inj q p (sym (first-hit q qs c) ∙ h) in
        scan-stops q qs c (subst (λ x. text_eq x.fingerprint fp ≡ false) (sym same) n)
        ∙ ap (λ x. in_way x.fingerprint) same
    | inr c ↦
        scan-other false q qs c
        ∙ ap (keep_peer q) (scan-in_way p qs (sym (first-miss q qs c) ∙ h) n)
  ]

  -- Every peer of the name has the fingerprint, and there is one.
  abbrev pub Bound : List Peer → Type 0
  Bound ps = All (λ p. called p ≡ true → p.fingerprint ≡ fp) ps × (any called ps ≡ true)

  unfoldable pub Found : Scan → Type 0
  Found (present ps) = Bound ps
  Found (in_way stored) = Unit
  Found (absent ps) = All (λ p. called p ≡ false) ps

  Found-keep_peer : (q : Peer) (r : Scan) → called q ≡ false → Found r → Found (keep_peer q r)
  unfolding Found keep_peer any
  Found-keep_peer q (present ps) c (a, b) =
      (((λ m. absurd (false≢true (sym c ∙ m))), a), ground arith)
  Found-keep_peer q (in_way stored) c f = tt
  Found-keep_peer q (absent ps) c f = (c, f)

  others_apart :
      (q : Peer) (ps : List Peer)
      → called q ≡ true
      → All (λ p. text_eq p.name q.name ≡ false) ps
      → All (λ p. called p ≡ true → p.fingerprint ≡ fp) ps
  others_apart q [] c a = tt
  others_apart q (p ∷ ps) c a = (
    (λ m.
        absurd
          (false≢true (sym a.0 ∙ ap (λ n. text_eq p.name n) ((text_eq_iff q.name name).0 c) ∙ m))),
    others_apart q ps c a.1,
  )

  pub scan-Found :
      (replace : Bool) (ps : List Peer) → OneEach ps → Found (scan name fp replace now ps)
  unfolding scan Found any
  scan-Found replace [] o = tt
  scan-Found replace (q ∷ qs) (a, o) = elim (Bool-cases (called q)) [
    | inr c ↦
        subst Found (sym (scan-other replace q qs c))
          (Found-keep_peer q (scan name fp replace now qs) c (scan-Found replace qs o))
    | inl c ↦ elim (Bool-cases (text_eq q.fingerprint fp)) [
      | inl f ↦
          subst Found (sym (scan-there replace q qs c f))
            (((λ _. (text_eq_iff q.fingerprint fp).0 f), others_apart q qs c a), ground arith)
      | inr f ↦ blocked replace q qs c f (scan-Found replace qs o)
    ]
  ]
    where
      blocked :
          (replace : Bool) (q : Peer) (qs : List Peer)
          → called q ≡ true
          → text_eq q.fingerprint fp ≡ false
          → Found (scan name fp replace now qs)
          → Found (scan name fp replace now (q ∷ qs))
      blocked true q qs c f r = subst Found (sym (scan-drops q qs c f)) r
      blocked false q qs c f r = subst Found (sym (scan-stops q qs c f)) tt

  none_called :
      (ps : List Peer)
      → All (λ q. called q ≡ false) ps
      → All (λ q. called q ≡ true → q.fingerprint ≡ fp) ps
  none_called [] a = tt
  none_called (q ∷ qs) a = ((λ m. absurd (false≢true (sym a.0 ∙ m))), none_called qs a.1)

  put-Bound :
      (p : Peer) (ps : List Peer)
      → called p ≡ true
      → p.fingerprint ≡ fp
      → All (λ q. called q ≡ false) ps
      → Bound (put p ps)
  unfolding put any same_key
  put-Bound p [] c f a = (((λ _. f), tt), ground arith)
  put-Bound p (q ∷ qs) c f a =
      let (r, b) = put-Bound p qs c f a.1 in
      elim (Bool-cases (same_key p.fingerprint p.name q)) [
        | inl k ↦ rw k (((λ _. f), none_called qs a.1), ground arith)
        | inr k ↦ rw k (((λ m. absurd (false≢true (sym a.0 ∙ m))), r), ground arith)
      ]

  pinned-Bound :
      (m : List Peer) (r : Scan)
      → Found r
      → (pinned name fp now m r).0 ≡ done
      → Bound (pinned name fp now m r).1
  unfolding pinned Found new_peer
  pinned-Bound m (present ps) f e = f
  pinned-Bound m (in_way stored) f e = absurd (ground arith)
  pinned-Bound m (absent ps) f e =
      put-Bound (new_peer fp name [] now) ps ((text_eq_iff name name).1 refl) refl f

  -- A pin that succeeds leaves a peer of the name, and every peer of the name has the pinned
  -- fingerprint, where every name stood for one peer before.
  pub pin-Bound :
      (replace : Bool) (m : List Peer)
      → OneEach m
      → (pin_peers name fp replace now m).0 ≡ done
      → Bound (pin_peers name fp replace now m).1
  unfolding pin_peers
  pin-Bound replace m o e = elim (Bool-cases (is_empty name)) [
    | inl n ↦ absurd (not_done (ap (λ (x : Outcome × List Peer). x.0) (pin-unnamed n)) e)
    | inr n ↦ elim (Bool-cases (valid_fingerprint fp)) [
      | inr v ↦ absurd (bad_done (ap (λ (x : Outcome × List Peer). x.0) (pin-invalid n v)) e)
      | inl v ↦
          subst (λ (x : Outcome × List Peer). Bound x.1) (sym (pin-scans n v))
            (pinned-Bound m (scan name fp replace now m) (scan-Found replace m o)
              (sym (ap (λ (x : Outcome × List Peer). x.0) (pin-scans n v)) ∙ e))
    ]
  ]
    where
      pin-unnamed : is_empty name ≡ true → pin_peers name fp replace now m ≡ (no_name, m)
      pin-unnamed n = rw n refl

      pin-invalid :
          is_empty name ≡ false
          → valid_fingerprint fp ≡ false
          → pin_peers name fp replace now m ≡ (bad_fingerprint, m)
      pin-invalid n v = rw (n, v) refl

      pin-scans :
          is_empty name ≡ false
          → valid_fingerprint fp ≡ true
          → pin_peers name fp replace now m ≡ pinned name fp now m (scan name fp replace now m)
      pin-scans n v = rw (n, v) refl

      not_done : {x : Outcome} → x ≡ no_name → x ≡ done → ⊥
      not_done e f = absurd (ground arith)

      bad_done : {x : Outcome} → x ≡ bad_fingerprint → x ≡ done → ⊥
      bad_done e f = absurd (ground arith)

  -- Without leave to replace, and for a valid fingerprint: a name that is bound to another
  -- fingerprint stays bound to it, the pin is refused with the stored fingerprint, and no peer
  -- changes.
  pub pin-refused :
      (p : Peer) (m : List Peer)
      → valid_fingerprint fp ≡ true
      → get_by_name name m ≡ some p
      → p.fingerprint ≢ fp
      → pin_peers name fp false now m ≡ (mismatch p.fingerprint, m)
  unfolding pin_peers get_by_name
  pin-refused p m v h n = elim (Bool-cases (is_empty name)) [
    | inl e ↦ absurd (none_found e h)
    | inr e ↦
        let other = differs p n in
        rw (e, v) (ap (pinned name fp now m) (scan-in_way p m (by_first e h) other) ∙ refused p)
  ]
    where
      none_found : is_empty name ≡ true → get_by_name name m ≡ some p → ⊥
      none_found e h = absurd (ground arith)

      by_first : is_empty name ≡ false → get_by_name name m ≡ some p → first_peer called m ≡ some p
      by_first e h = ground arith

      differs : (p : Peer) → p.fingerprint ≢ fp → text_eq p.fingerprint fp ≡ false
      differs p n = elim (Bool-cases (text_eq p.fingerprint fp)) [
        | inl t ↦ absurd (n ((text_eq_iff p.fingerprint fp).0 t))
        | inr t ↦ t
      ]

      refused :
          (p : Peer) → pinned name fp now m (in_way p.fingerprint) ≡ (mismatch p.fingerprint, m)
      refused p = unfold pinned in refl
