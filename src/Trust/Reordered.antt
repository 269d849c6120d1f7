-- ===== src/Trust/Reordered.antt =====
-- GetByName and Pin, of internal/transport/trust.go, each going through the map in an order of its own.
use wanctl.Prelude.{
  ℕ, Bool, true, false, none, some, Option, List, ◌∷◌, ◌≡◌, ◌≢◌, refl, sym, ap, ◌∙◌, subst, All,
  Bool-cases, inl, inr, arith, if◌then◌else◌,
}
use mathlib.Core.List.{Permᴰ}
use wanctl.Bytes.{Text, text_eq, is_empty}
use wanctl.Bytes.Laws.{text_eq_iff}
use wanctl.Trust.{valid_fingerprint, Peer, mismatch, first_peer, get_by_name, pin_peers}
use wanctl.Trust.Pins.{OneEach, pin-refused}

All-Permᴰ {ℓ κ} : {A : Type ℓ} (P : A → Type κ) {xs ys : List A} → Permᴰ xs ys → All P xs → All P ys
All-Permᴰ P Permᴰ.nil h = tt
All-Permᴰ P (Permᴰ.cons e d) h = (subst P e h.0, All-Permᴰ P d h.1)
All-Permᴰ P (Permᴰ.swap e f) h = (subst P f h.1.0, (subst P e h.0, h.1.1))
All-Permᴰ P (Permᴰ.trans d d') h = All-Permᴰ P d' (All-Permᴰ P d h)

text_eq-apart : (a b : Text) → text_eq a b ≡ false → text_eq b a ≡ false
text_eq-apart a b h = elim (Bool-cases (text_eq b a)) [
  | inr e ↦ e
  | inl e ↦ absurd (ground (arith, h, (text_eq_iff a b).1 (sym ((text_eq_iff b a).0 e))))
]

-- No peer of these has the name of this one.
abbrev Apart : List Peer → Peer → Type 0
Apart ps p = All (λ q. text_eq q.name p.name ≡ false) ps

OneEach-Permᴰ : {ps qs : List Peer} → Permᴰ ps qs → OneEach ps → OneEach qs
OneEach-Permᴰ Permᴰ.nil h = tt
OneEach-Permᴰ (Permᴰ.cons {a = a} {l₂ = l₂} e d) h =
    (subst (Apart l₂) e (All-Permᴰ (λ q. text_eq q.name a.name ≡ false) d h.0), OneEach-Permᴰ d h.1)
OneEach-Permᴰ (Permᴰ.swap {a = a} {b = b} {b' = b'} {l = l} e f) h =
    let swapped : OneEach (b ∷ a ∷ l) =
      ((text_eq-apart b.name a.name h.0.0, h.1.0), (h.0.1, h.1.1)) in
    subst (λ x. OneEach (x ∷ b' ∷ l)) f (subst (λ x. OneEach (b ∷ x ∷ l)) e swapped)
OneEach-Permᴰ (Permᴰ.trans d d') h = OneEach-Permᴰ d' (OneEach-Permᴰ d h)

module _ (name : Text) where
  abbrev bears : Peer → Bool
  bears p = text_eq p.name name

  first-cons :
      (p : Peer) (ps : List Peer)
      → first_peer bears (p ∷ ps) ≡ (if bears p then some p else first_peer bears ps)
  unfolding first_peer
  first-cons p ps = refl

  -- Of two peers of different names, at most one bears the name.
  two_first :
      (a b : Peer) (rest : Option Peer)
      → text_eq b.name a.name ≡ false
      → (if bears a then some a else if bears b then some b else rest)
        ≡ (if bears b then some b else if bears a then some a else rest)
  two_first a b rest h = elim (Bool-cases (bears a)) [
    | inr e ↦ rw e refl
    | inl e ↦ elim (Bool-cases (bears b)) [
      | inr e' ↦ rw (e, e') refl
      | inl e' ↦
          let same = (text_eq_iff b.name name).0 e' ∙ sym ((text_eq_iff a.name name).0 e) in
          absurd (ground (arith, h, (text_eq_iff b.name a.name).1 same))
    ]
  ]

  first-Permᴰ :
      {ps qs : List Peer} → Permᴰ ps qs → OneEach ps → first_peer bears ps ≡ first_peer bears qs
  first-Permᴰ Permᴰ.nil h = refl
  first-Permᴰ (Permᴰ.cons {a = a} {b = b} {l₁ = l₁} {l₂ = l₂} e d) h =
      first-cons a l₁
      ∙ ap (λ o. if bears a then some a else o) (first-Permᴰ d h.1)
      ∙ sym (first-cons a l₂)
      ∙ ap (λ x. first_peer bears (x ∷ l₂)) e
  first-Permᴰ (Permᴰ.swap {a = a} {b = b} {b' = b'} {l = l} e f) h =
      first-cons a (b ∷ l)
      ∙ ap (λ o. if bears a then some a else o) (first-cons b l)
      ∙ two_first a b (first_peer bears l) h.0.0
      ∙ sym (first-cons b (a ∷ l) ∙ ap (λ o. if bears b then some b else o) (first-cons a l))
      ∙ ap (λ x. first_peer bears (b ∷ x ∷ l)) e
      ∙ ap (λ x. first_peer bears (x ∷ b' ∷ l)) f
  first-Permᴰ (Permᴰ.trans d d') h = first-Permᴰ d h ∙ first-Permᴰ d' (OneEach-Permᴰ d h)

  get_by_name-Permᴰ :
      {ps qs : List Peer} → Permᴰ ps qs → OneEach ps → get_by_name name ps ≡ get_by_name name qs
  unfolding get_by_name
  get_by_name-Permᴰ d h = ap (λ o. if is_empty name then none else o) (first-Permᴰ d h)

  -- Without leave to replace, for a valid fingerprint, where every name has one peer, and whatever
  -- order the loop goes through the map in: a pin of a name that is bound to another fingerprint
  -- is refused with the stored one, no peer changes, and the name is still found with the peer
  -- that it had.
  pub pin-mismatch :
      (fp : Text) (now : ℕ) (p : Peer) (m again : List Peer)
      → OneEach m
      → Permᴰ m again
      → valid_fingerprint fp ≡ true
      → get_by_name name m ≡ some p
      → p.fingerprint ≢ fp
      → (pin_peers name fp false now again ≡ (mismatch p.fingerprint, again))
        × (get_by_name name again ≡ some p)
  pin-mismatch fp now p m again one d v h n =
      let h' = sym (get_by_name-Permᴰ d one) ∙ h in (pin-refused name fp now p again v h' n, h')
