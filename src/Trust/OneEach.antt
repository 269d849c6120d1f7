-- ===== src/Trust/OneEach.antt =====
-- Pins keep every name bound to one peer.
use wanctl.Trust.{
  bad_fingerprint, valid_fingerprint, no_name, Peer, Outcome, same_key, put, new_peer, Scan,
  present, in_way, absent, keep_peer, scan, pinned, pin_peers,
}
use wanctl.Prelude.{
  not, if◌then◌else◌, ◌⊎◌, ℕ, ◌≡◌, sym, subst, ◌∙◌, inl, inr, Bool, true, false, List, [], ◌∷◌, All,
  Bool-cases, false≢true,
}
use wanctl.Bytes.{is_empty, Text, text_eq}
use wanctl.Bytes.Laws.{text_eq_iff}
use wanctl.Trust.Pins.{OneEach, Found, scan-other, scan-there, scan-stops, scan-drops, scan-Found}

-- A property of names holds of what the loop of a pin leaves.
NamesAll : (Text → Type 0) → Scan → Type 0
NamesAll P (present ps) = All (λ p. P p.name) ps
NamesAll P (in_way stored) = Unit
NamesAll P (absent ps) = All (λ p. P p.name) ps

NamesAll-keep_peer :
    (P : Text → Type 0) (q : Peer) (r : Scan) → P q.name → NamesAll P r → NamesAll P (keep_peer q r)
unfolding NamesAll keep_peer
NamesAll-keep_peer P q (present ps) h a = (h, a)
NamesAll-keep_peer P q (in_way stored) h a = tt
NamesAll-keep_peer P q (absent ps) h a = (h, a)

ScanOneEach : Scan → Type 0
ScanOneEach (present ps) = OneEach ps
ScanOneEach (in_way stored) = Unit
ScanOneEach (absent ps) = OneEach ps

ScanOneEach-keep_peer :
    (q : Peer) (r : Scan)
    → NamesAll (λ n. text_eq n q.name ≡ false) r
    → ScanOneEach r
    → ScanOneEach (keep_peer q r)
unfolding ScanOneEach NamesAll keep_peer
ScanOneEach-keep_peer q (present ps) a o = (a, o)
ScanOneEach-keep_peer q (in_way stored) a o = tt
ScanOneEach-keep_peer q (absent ps) a o = (a, o)

text_eq_apart : (s t : Text) → text_eq s t ≡ false → text_eq t s ≡ false
text_eq_apart s t h = elim (Bool-cases (text_eq t s)) [
  | inl e ↦ absurd (false≢true (sym h ∙ (text_eq_iff s t).1 (sym ((text_eq_iff t s).0 e))))
  | inr e ↦ e
]

put-All :
    (P : Text → Type 0) (p : Peer) (ps : List Peer)
    → P p.name
    → All (λ q. P q.name) ps
    → All (λ q. P q.name) (put p ps)
unfolding put
put-All P p [] h a = (h, tt)
put-All P p (q ∷ qs) h (b, a) = elim (Bool-cases (same_key p.fingerprint p.name q)) [
  | inl k ↦ rw k (h, a)
  | inr k ↦ rw k (b, put-All P p qs h a)
]

put-OneEach :
    (p : Peer) (ps : List Peer)
    → All (λ q. text_eq q.name p.name ≡ false) ps
    → OneEach ps
    → OneEach (put p ps)
unfolding put
put-OneEach p [] a o = (tt, tt)
put-OneEach p (q ∷ qs) (b, a) (c, o) = elim (Bool-cases (same_key p.fingerprint p.name q)) [
  | inl k ↦ rw k (a, o)
  | inr k ↦ rw k (
    put-All (λ n. text_eq n q.name ≡ false) p qs (text_eq_apart q.name p.name b) c,
    put-OneEach p qs a o,
  )
]

module _ (name fp : Text) (now : ℕ) (replace : Bool) where
  -- What the loop does at a peer: it keeps it, it ends there, or it drops it.
  scan-cases :
      (q : Peer) (qs : List Peer)
      → (scan name fp replace now (q ∷ qs) ≡ keep_peer q (scan name fp replace now qs))
        ⊎ ((scan name fp replace now (q ∷ qs) ≡ present (record q { last_seen = now } ∷ qs))
            ⊎ ((scan name fp replace now (q ∷ qs) ≡ in_way q.fingerprint)
                ⊎ (scan name fp replace now (q ∷ qs) ≡ scan name fp replace now qs)))
  scan-cases q qs = elim (Bool-cases (text_eq q.name name)) [
    | inr c ↦ inl (scan-other name fp now replace q qs c)
    | inl c ↦ elim (Bool-cases (text_eq q.fingerprint fp)) [
      | inl f ↦ inr (inl (scan-there name fp now replace q qs c f))
      | inr f ↦ inr (inr (by_leave replace c f))
    ]
  ]
    where
      by_leave :
          (leave : Bool)
          → text_eq q.name name ≡ true
          → text_eq q.fingerprint fp ≡ false
          → (scan name fp leave now (q ∷ qs) ≡ in_way q.fingerprint)
            ⊎ (scan name fp leave now (q ∷ qs) ≡ scan name fp leave now qs)
      by_leave true c f = inr (scan-drops name fp now q qs c f)
      by_leave false c f = inl (scan-stops name fp now q qs c f)

  scan-NamesAll :
      (P : Text → Type 0) (ps : List Peer)
      → All (λ p. P p.name) ps
      → NamesAll P (scan name fp replace now ps)
  unfolding scan NamesAll
  scan-NamesAll P [] a = tt
  scan-NamesAll P (q ∷ qs) (h, a) = elim (scan-cases q qs) [
    | inl e ↦
        subst (NamesAll P) (sym e)
          (NamesAll-keep_peer P q (scan name fp replace now qs) h (scan-NamesAll P qs a))
    | inr (inl e) ↦ subst (NamesAll P) (sym e) (h, a)
    | inr (inr (inl e)) ↦ subst (NamesAll P) (sym e) tt
    | inr (inr (inr e)) ↦ subst (NamesAll P) (sym e) (scan-NamesAll P qs a)
  ]

  scan-ScanOneEach : (ps : List Peer) → OneEach ps → ScanOneEach (scan name fp replace now ps)
  unfolding scan ScanOneEach
  scan-ScanOneEach [] o = tt
  scan-ScanOneEach (q ∷ qs) (a, o) = elim (scan-cases q qs) [
    | inl e ↦ subst ScanOneEach (sym e) (
        ScanOneEach-keep_peer q (scan name fp replace now qs)
          (scan-NamesAll (λ n. text_eq n q.name ≡ false) qs a) (scan-ScanOneEach qs o))
    | inr (inl e) ↦ subst ScanOneEach (sym e) (a, o)
    | inr (inr (inl e)) ↦ subst ScanOneEach (sym e) tt
    | inr (inr (inr e)) ↦ subst ScanOneEach (sym e) (scan-ScanOneEach qs o)
  ]

  pinned-OneEach :
      (m : List Peer) (r : Scan)
      → OneEach m
      → Found name fp now r
      → ScanOneEach r
      → OneEach (pinned name fp now m r).1
  unfolding pinned Found ScanOneEach new_peer
  pinned-OneEach m (present ps) o f s = s
  pinned-OneEach m (in_way stored) o f s = o
  pinned-OneEach m (absent ps) o f s = put-OneEach (new_peer fp name [] now) ps f s

  -- Where every name stands for at most one peer, it still does after a pin, with leave to replace
  -- or without.
  pub pin-OneEach : (m : List Peer) → OneEach m → OneEach (pin_peers name fp replace now m).1
  unfolding pin_peers
  pin-OneEach m o =
      let bound = pinned name fp now m (scan name fp replace now m) in
      either (is_empty name) (no_name, m)
        (if not (valid_fingerprint fp) then (bad_fingerprint, m) else bound) o
        (either (not (valid_fingerprint fp)) (bad_fingerprint, m) bound o
          (pinned-OneEach m (scan name fp replace now m) o (scan-Found name fp now replace m o)
            (scan-ScanOneEach m o)))
    where
      either :
          (b : Bool) (x y : Outcome × List Peer)
          → OneEach x.1
          → OneEach y.1
          → OneEach (if b then x else y).1
      either true x y h k = h
      either false x y h k = k
