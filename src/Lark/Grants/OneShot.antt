-- ===== src/Lark/Grants/OneShot.antt =====
-- A grant is consumed once: no run of the store that does not draw its nonce again revives it.
use wanctl.Lark.Grants.{
  after, same_Bool, positive, not, Grant, Grants, Result, ok, err, Map, put, delete, cleanup,
  issue_nonce, issue, missing, bind_found, bind_chat, consume_found, consume,
}
use wanctl.Prelude.{
  ap, some-injective, subst, ◌∙◌, ℕ, ◌≡◌, ◌≢◌, refl, sym, arith, All, Bool, true, false, Option,
  none, some, List, [], ◌∷◌, is_some, if◌then◌else◌, ℤ, Bool-cases, inl, inr, ◌||◌,
}
use wanctl.Bytes.Laws.{text_eq_refl, text_eq_iff}
use wanctl.Bytes.{Text, is_empty}

-- A call of the store, at the time at which it reads the clock.
pub data Call : Type 0 where
  issuing : Option Text → Text → Text → Text → Text → Text → ℤ → ℕ → Call
  binding : Text → Text → ℕ → Call
  consuming : Text → Text → Text → ℕ → Call

abbrev pub call : Call → Grants → Result × Grants
call (issuing random ns device pending pairing chat ttl now) g =
    issue random ns device pending pairing chat ttl now g
call (binding nonce chat now) g = bind_chat nonce chat now g
call (consuming nonce chat event now) g = consume nonce chat event now g

abbrev pub run : List Call → Grants → Grants
run [] g = g
run (c ∷ cs) g = run cs (call c g).1

-- The call does not draw the nonce.
abbrev pub DrawsOther : Text → Call → Type 0
DrawsOther nonce (issuing (some drawn) _ _ _ _ _ _ _) = drawn ≢ nonce
DrawsOther nonce (issuing none _ _ _ _ _ _ _) = Unit
DrawsOther nonce (binding _ _ _) = Unit
DrawsOther nonce (consuming _ _ _ _) = Unit

abbrev pub Inactive : Text → Grants → Type 0
Inactive nonce g = g.active nonce ≡ none

none-ne-some : {A : Type 0} {a : A} → none ≡ some a → ⊥
none-ne-some e = cc

cleanup-Inactive :
    (nonce : Text) (now : ℕ) (g : Grants) → Inactive nonce g → Inactive nonce (cleanup now g)
unfolding cleanup
cleanup-Inactive nonce now g h = rw h

put-Inactive :
    (nonce other : Text) (r : Grant) (m : Map Grant)
    → other ≢ nonce
    → m nonce ≡ none
    → put other r m nonce ≡ none
put-Inactive nonce other r m n h = ground (arith, text_eq_iff nonce other)

delete-Inactive :
    (nonce other : Text) (m : Map Grant) → m nonce ≡ none → delete other m nonce ≡ none
delete-Inactive nonce other m h = ground arith

issue_nonce-Inactive :
    (nonce : Text) (random : Option Text) (ns device pending pairing chat : Text) (ends now : ℕ)
    (g : Grants)
    → ((drawn : Text) → random ≡ some drawn → drawn ≢ nonce)
    → Inactive nonce g
    → Inactive nonce (issue_nonce random ns device pending pairing chat ends now g).1
unfolding issue_nonce
issue_nonce-Inactive nonce none ns device pending pairing chat ends now g d h = h
issue_nonce-Inactive nonce (some drawn) ns device pending pairing chat ends now g d h =
    put-Inactive nonce drawn _ (cleanup now g).active (d drawn refl)
      (cleanup-Inactive nonce now g h)

issue-Inactive :
    (nonce : Text) (random : Option Text) (ns device pending pairing chat : Text) (ttl : ℤ)
    (now : ℕ) (g : Grants)
    → DrawsOther nonce (issuing random ns device pending pairing chat ttl now)
    → Inactive nonce g
    → Inactive nonce (issue random ns device pending pairing chat ttl now g).1
unfolding issue
issue-Inactive nonce random ns device pending pairing chat ttl now g d h =
    elim (Bool-cases (
      is_empty ns
      || (is_empty device
          || (not (positive ttl) || same_Bool (is_empty pending) (is_empty pairing))))) [
            | inl e ↦ rw e h
            | inr e ↦ rw e (
                issue_nonce-Inactive nonce random ns device pending pairing chat (after now ttl) now
                  g (draw random d) h)
          ]
  where
    draw :
        (o : Option Text)
        → DrawsOther nonce (issuing o ns device pending pairing chat ttl now)
        → (n : Text) → o ≡ some n
        → n ≢ nonce
    draw none d n e = cc
    draw (some m) d n e = subst (λ k. k ≢ nonce) (some-injective e) d

-- An active nonce is another one.
active_ne :
    (nonce other : Text) (g : Grants) (r : Grant)
    → Inactive nonce g
    → g.active other ≡ some r
    → other ≢ nonce
active_ne nonce other g r h a e = absurd (none-ne-some (sym h ∙ ap g.active (sym e) ∙ a))

bind_found-Inactive :
    (o : Option Grant) (nonce other chat : Text) (now : ℕ) (g : Grants)
    → ((r : Grant) → o ≡ some r → other ≢ nonce)
    → Inactive nonce g
    → Inactive nonce (bind_found o other chat now g).1
unfolding bind_found
bind_found-Inactive none nonce other chat now g n h = h
bind_found-Inactive (some r) nonce other chat now g n h =
    ground (arith, put-Inactive nonce other (record r { chat_id = chat }) g.active (n r refl) h)

bind-Inactive :
    (nonce other chat : Text) (now : ℕ) (g : Grants)
    → Inactive nonce g
    → Inactive nonce (bind_chat other chat now g).1
unfolding bind_chat
bind-Inactive nonce other chat now g h = elim (Bool-cases (is_empty other || is_empty chat)) [
  | inl e ↦ rw e h
  | inr e ↦ rw e (
      bind_found-Inactive (g.active other) nonce other chat now (cleanup now g)
        (λ r a. active_ne nonce other g r h a) (cleanup-Inactive nonce now g h))
]

consume_found-Inactive :
    (o : Option Grant) (nonce other chat event : Text) (now : ℕ) (g : Grants)
    → Inactive nonce g
    → Inactive nonce (consume_found o other chat event now g).1
unfolding consume_found
consume_found-Inactive none nonce other chat event now g h = h
consume_found-Inactive (some r) nonce other chat event now g h =
    ground (arith, delete-Inactive nonce other g.active h)

consume-Inactive :
    (nonce other chat event : Text) (now : ℕ) (g : Grants)
    → Inactive nonce g
    → Inactive nonce (consume other chat event now g).1
unfolding consume
consume-Inactive nonce other chat event now g h = ground (
  arith,
  cleanup-Inactive nonce now g h,
  consume_found-Inactive (g.active other) nonce other chat event now (cleanup now g),
)

call-Inactive :
    (nonce : Text) (c : Call) (g : Grants)
    → DrawsOther nonce c
    → Inactive nonce g
    → Inactive nonce (call c g).1
call-Inactive nonce (issuing random ns device pending pairing chat ttl now) g d h =
    issue-Inactive nonce random ns device pending pairing chat ttl now g d h
call-Inactive nonce (binding other chat now) g d h = bind-Inactive nonce other chat now g h
call-Inactive nonce (consuming other chat event now) g d h =
    consume-Inactive nonce other chat event now g h

run-Inactive :
    (nonce : Text) (cs : List Call) (g : Grants)
    → All (DrawsOther nonce) cs
    → Inactive nonce g
    → Inactive nonce (run cs g)
run-Inactive nonce [] g d h = h
run-Inactive nonce (c ∷ cs) g d h =
    run-Inactive nonce cs (call c g).1 d.1 (call-Inactive nonce c g d.0 h)

abbrev pub IsRefused : Result → Type 0
IsRefused (ok r) = ⊥
IsRefused (err e) = Unit

refused_ne : (x : Result) → IsRefused x → (r : Grant) → x ≢ ok r
refused_ne (ok s) h r e = absurd h
refused_ne (err x) h r e = cc

missing-IsRefused : (nonce : Text) (g : Grants) → IsRefused (missing nonce g)
unfolding missing
missing-IsRefused nonce g = elim (Bool-cases (is_some (g.consumed nonce))) [
  | inl e ↦ rw e tt
  | inr e ↦ elim (Bool-cases (is_some (g.expired nonce))) [
    | inl x ↦ rw (e, x) tt
    | inr x ↦ rw (e, x) tt
  ]
]

none-IsRefused :
    (nonce chat event : Text) (now : ℕ) (g : Grants)
    → IsRefused (consume_found none nonce chat event now g).0
unfolding consume_found
none-IsRefused nonce chat event now g = missing-IsRefused nonce g

IsRefused-if :
    (b : Bool) (x y : Result × Grants)
    → IsRefused x.0
    → IsRefused y.0
    → IsRefused (if b then x else y).0
IsRefused-if true x y h k = h
IsRefused-if false x y h k = k

Inactive-IsRefused :
    (nonce chat event : Text) (now : ℕ) (g : Grants)
    → Inactive nonce g
    → IsRefused (consume nonce chat event now g).0
unfolding consume
Inactive-IsRefused nonce chat event now g h =
    IsRefused-if (is_empty nonce || (is_empty chat || is_empty event)) _ _ tt (
      IsRefused-if (is_some ((cleanup now g).events event)) _ _ tt (
        subst (λ o. IsRefused (consume_found o nonce chat event now (cleanup now g)).0) (sym h)
          (none-IsRefused nonce chat event now (cleanup now g))))

consumed_found :
    (o : Option Grant) (nonce chat event : Text) (now : ℕ) (g : Grants) (r : Grant)
    → (consume_found o nonce chat event now g).0 ≡ ok r
    → Inactive nonce (consume_found o nonce chat event now g).1
unfolding consume_found
consumed_found none nonce chat event now g r h =
    absurd (refused_ne (missing nonce g) (missing-IsRefused nonce g) r h)
consumed_found (some s) nonce chat event now g r h = ground (arith, text_eq_refl nonce)

consumed-Inactive :
    (nonce chat event : Text) (now : ℕ) (g : Grants) (r : Grant)
    → (consume nonce chat event now g).0 ≡ ok r
    → Inactive nonce (consume nonce chat event now g).1
unfolding consume
consumed-Inactive nonce chat event now g r h =
    ground (arith, consumed_found (g.active nonce) nonce chat event now (cleanup now g) r)

-- Once a grant is consumed, every later attempt to consume its nonce is refused, from whatever
-- chat, for whatever event and at whatever time, and whatever is issued, bound and consumed in
-- between, where no grant is issued under the same nonce.
pub consume_once :
    (nonce chat event again other : Text) (now later : ℕ) (g : Grants) (r : Grant)
    (between : List Call)
    → (consume nonce chat event now g).0 ≡ ok r
    → All (DrawsOther nonce) between
    → IsRefused (consume nonce again other later (run between (consume nonce chat event now g).1)).0
consume_once nonce chat event again other now later g r between c d =
    Inactive-IsRefused nonce again other later _
      (run-Inactive nonce between _ d (consumed-Inactive nonce chat event now g r c))
