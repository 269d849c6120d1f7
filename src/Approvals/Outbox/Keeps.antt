-- ===== src/Approvals/Outbox/Keeps.antt =====
-- The outbox keeps a decision until the portal settles it, and stays small.
use wanctl.Prelude.{
  ℕ, ◌+◌, ◌-◌, ◌≤◌, ◌<◌, ◌≡◌, refl, sym, ap, ◌∙◌, Bool, true, false, ◌&&◌, ◌||◌, not, Option, none,
  some, List, [], ◌∷◌, ◌++◌, inl, inr, ◌⊎◌, arith, ltb, leb, length, filter, any, length-append,
  length-filter_le, Bool-cases,
}
use wanctl.Bytes.{Text, text_eq}
use wanctl.Bytes.Laws.{text_eq_iff}
use wanctl.Approvals.Outbox.{
  PhoneDecision, ApprovalPhone, ApprovalCard, max_outbox, outbox_ttl, state_done, prune_outbox,
  without_id, known, oldest_from, drop_oldest, room_for, decide, insert_by_time, sort_by_time,
  attach, show,
}

text_eq_refl : (t : Text) → text_eq t t ≡ true
text_eq_refl t = (text_eq_iff t t).1 refl

-- Without its decision the outbox is shorter.
length-without_id :
    (id : Text) (ds : List PhoneDecision)
    → known id ds ≡ true
    → length (without_id id ds) < length ds
unfolding known without_id any filter
length-without_id id [] h = absurd (ground arith)
length-without_id id (d ∷ ds) h = elim (Bool-cases (text_eq d.id id)) [
  | inl e ↦ rw e (omega (arith, length-filter_le (λ (x : PhoneDecision). not (text_eq x.id id)) ds))
  | inr e ↦ rw e (omega (arith, length-without_id id ds (ground arith)))
]

some_inj : (a b : PhoneDecision) → some a ≡ some b → a ≡ b
some_inj a b e = ground arith

known_later :
    (d o : PhoneDecision) (ds : List PhoneDecision)
    → known o.id ds ≡ true
    → known o.id (d ∷ ds) ≡ true
unfolding known any
known_later d o ds k = ground arith

known_cons :
    (d o : PhoneDecision) (ds : List PhoneDecision)
    → (known o.id ds ≡ true) ⊎ (some d ≡ some o)
    → known o.id (d ∷ ds) ≡ true
unfolding known any
known_cons d o ds (inl k) = known_later d o ds k
known_cons d o ds (inr e) =
    let same : text_eq d.id o.id ≡ true =
      (text_eq_iff d.id o.id).1 (ap (λ x. x.id) (some_inj d o e)) in
    ground arith

-- The oldest decision is one of the outbox, or the one that the search began with.
oldest_from-known :
    (found : Option PhoneDecision) (ds : List PhoneDecision) (o : PhoneDecision)
    → oldest_from found ds ≡ some o
    → (known o.id ds ≡ true) ⊎ (found ≡ some o)
unfolding oldest_from known any
oldest_from-known found [] o h = inr h
oldest_from-known none (d ∷ ds) o h = inl (known_cons d o ds (oldest_from-known (some d) ds o h))
oldest_from-known (some f) (d ∷ ds) o h = elim (Bool-cases (ltb d.at f.at)) [
  | inl e ↦ inl (known_cons d o ds (oldest_from-known (some d) ds o (sym (earlier e) ∙ h)))
  | inr e ↦ elim (oldest_from-known (some f) ds o (sym (later e) ∙ h)) [
    | inl k ↦ inl (known_later d o ds k)
    | inr k ↦ inr k
  ]
]
  where
    earlier : ltb d.at f.at ≡ true → oldest_from (some f) (d ∷ ds) ≡ oldest_from (some d) ds
    earlier e = rw (e, oldest_from) refl

    later : ltb d.at f.at ≡ false → oldest_from (some f) (d ∷ ds) ≡ oldest_from (some f) ds
    later e = rw (e, oldest_from) refl

oldest_from-some :
    (found : PhoneDecision) (ds : List PhoneDecision)
    → (o : PhoneDecision) × (oldest_from (some found) ds ≡ some o)
unfolding oldest_from
oldest_from-some found [] = (found, refl)
oldest_from-some found (d ∷ ds) = elim (Bool-cases (ltb d.at found.at)) [
  | inl e ↦ rw e (oldest_from-some d ds)
  | inr e ↦ rw e (oldest_from-some found ds)
]

length-drop_oldest :
    (d : PhoneDecision) (ds : List PhoneDecision) → length (drop_oldest (d ∷ ds)) < length (d ∷ ds)
unfolding drop_oldest oldest_from
length-drop_oldest d ds =
    let (o, e) = oldest_from-some d ds in
    rw (e, drop_oldest)
      (length-without_id o.id (d ∷ ds) (known_cons d o ds (oldest_from-known (some d) ds o e)))

-- The outbox has room for the decision: its own entry is replaced, or there is a free place.
length-room_for :
    (id : Text) (ds : List PhoneDecision)
    → length ds ≤ max_outbox
    → length (without_id id (room_for id ds)) < max_outbox
unfolding room_for without_id filter any
length-room_for id [] h = omega arith
length-room_for id (d ∷ ds) h = elim (Bool-cases (known id (d ∷ ds))) [
  | inl k ↦ rw k (omega (arith, h, length-without_id id (d ∷ ds) k))
  | inr k ↦ elim (Bool-cases (leb max_outbox (length (d ∷ ds)))) [
    | inl f ↦
        rw (k, f)
          (omega (arith, h, length-drop_oldest d ds, length-filtered id (drop_oldest (d ∷ ds))))
    | inr f ↦ rw (k, f) (below f (length-filtered id (d ∷ ds)))
  ]
]
  where
    length-filtered : (id : Text) (ds : List PhoneDecision) → length (without_id id ds) ≤ length ds
    length-filtered id ds = length-filter_le (λ (x : PhoneDecision). not (text_eq x.id id)) ds

    below : {m n : ℕ} → leb max_outbox n ≡ false → m ≤ n → m < max_outbox
    below f l = ground arith

-- A decision leaves an outbox of at most 64 decisions with at most 64.
pub decide-bounded :
    (id verdict : Text) (now : ℕ) (p : ApprovalPhone)
    → length p.outbox ≤ max_outbox
    → length (decide id verdict now p).0.outbox ≤ max_outbox
unfolding decide prune_outbox
decide-bounded id verdict now p h =
    let ds = prune_outbox now p.outbox in
    omega (
      arith,
      length-append (without_id id (room_for id ds)) (_ ∷ []),
      length-room_for id ds (
          omega (
            arith,
            h,
            length-filter_le (λ (d : PhoneDecision). not (leb outbox_ttl (now - d.at))) p.outbox,
          )),
    )

-- Tests that a decision passes are kept by what the outbox does to the list.
any-append :
    (p : PhoneDecision → Bool) (ds : List PhoneDecision) (d : PhoneDecision)
    → p d ≡ true
    → any p (ds ++ d ∷ []) ≡ true
unfolding any
any-append p [] d h = ground arith
any-append p (e ∷ ds) d h = ground (arith, any-append p ds d h)

any-insert :
    (p : PhoneDecision → Bool) (d : PhoneDecision) (ds : List PhoneDecision)
    → any p (insert_by_time d ds) ≡ (p d || any p ds)
unfolding any insert_by_time
any-insert p d [] = refl
any-insert p d (e ∷ ds) = ground (arith, any-insert p d ds)

any-sort : (p : PhoneDecision → Bool) (ds : List PhoneDecision) → any p (sort_by_time ds) ≡ any p ds
unfolding any sort_by_time
any-sort p [] = refl
any-sort p (d ∷ ds) = any-insert p d (sort_by_time ds) ∙ ap (λ b. p d || b) (any-sort p ds)

-- The same test, of decisions that live.
any-filter :
    (p q : PhoneDecision → Bool) (ds : List PhoneDecision)
    → any p (filter q ds) ≡ any (λ d. q d && p d) ds
unfolding any filter
any-filter p q [] = refl
any-filter p q (d ∷ ds) = ground (arith, any-filter p q ds)

abbrev says : Text → Text → PhoneDecision → Bool
says id verdict d = text_eq d.id id && text_eq d.verdict verdict

-- A decision goes out again on a console session that attaches within an hour of it, where nothing
-- has happened to the outbox in between.
pub decide-attach :
    (id verdict : Text) (now later : ℕ) (p : ApprovalPhone)
    → later < now + outbox_ttl
    → any (says id verdict) (attach later (decide id verdict now p).0).2 ≡ true
unfolding attach decide prune_outbox
decide-attach id verdict now later p h =
    let ds = without_id id (room_for id (prune_outbox now p.outbox)) in
    let d : PhoneDecision = record { id = id; verdict = verdict; at = now } in
    let kept = λ (x : PhoneDecision). not (leb outbox_ttl (later - x.at)) in
    any-sort (says id verdict) (filter kept (ds ++ d ∷ []))
    ∙ any-filter (says id verdict) kept (ds ++ d ∷ [])
    ∙ any-append (λ x. kept x && says id verdict x) ds d
        (ground (arith, text_eq_refl id, text_eq_refl verdict))

any-without :
    (id : Text) (ds : List PhoneDecision) → any (λ d. text_eq d.id id) (without_id id ds) ≡ false
unfolding any without_id filter
any-without id [] = refl
any-without id (d ∷ ds) = ground (arith, any-without id ds)

any-filter-false :
    (p q : PhoneDecision → Bool) (ds : List PhoneDecision)
    → any p ds ≡ false
    → any p (filter q ds) ≡ false
unfolding any filter
any-filter-false p q [] h = refl
any-filter-false p q (d ∷ ds) h = ground (arith, any-filter-false p q ds)

-- After a done card is shown, no decision on the card goes out on the console session that
-- attaches next.
pub show-attach :
    (parse_json : Text → Option ApprovalCard) (card_json : ApprovalCard → Text)
    (card : ApprovalCard) (later : ℕ) (p : ApprovalPhone)
    → card.state ≡ state_done
    → any (λ d. text_eq d.id card.card_id) (attach later (show parse_json card_json card p).1).2
      ≡ false
unfolding attach show prune_outbox
show-attach parse_json card_json card later p h = rw ((text_eq_iff card.state state_done).1 h) (
    any-sort (λ d. text_eq d.id card.card_id) _
    ∙ any-filter-false (λ d. text_eq d.id card.card_id) _ (without_id card.card_id p.outbox)
        (any-without card.card_id p.outbox))
