-- ===== src/Lark/Grants/WrongChat.antt =====
-- A click from another chat is refused, and does not spend the grant.
use wanctl.Prelude.{
  subst, Bool-cases, ap, ℕ, ◌≡◌, ◌≢◌, inl, inr, ◌<◌, ◌≤◌, sym, arith, false, none, some,
}
use wanctl.Bytes.{Text, text_eq, is_empty}
use wanctl.Bytes.Laws.{text_eq_iff, text_eq_refl}
use wanctl.Lark.Grants.{
  Grant, Grants, ok, err, chat_mismatch, put, Map, cleanup, consume_found, consume,
}

-- A grant that is bound to a chat and active, with names that are not empty.
pub record IsOpen (nonce : Text) (r : Grant) (g : Grants) : Type 0 where
  pub active : g.active nonce ≡ some r
  pub named : is_empty nonce ≡ false
  pub bound : is_empty r.chat_id ≡ false

-- A click that can be new: it names a chat and an event, and the event was not seen before.
pub record IsNew (chat event : Text) (g : Grants) : Type 0 where
  pub from_chat : is_empty chat ≡ false
  pub numbered : is_empty event ≡ false
  pub unseen : g.events event ≡ none

cleanup-unseen :
    (now : ℕ) (event : Text) (g : Grants)
    → g.events event ≡ none
    → (cleanup now g).events event ≡ none
unfolding cleanup
cleanup-unseen now event g h = rw h

cleanup-active :
    (now : ℕ) (nonce : Text) (g : Grants) (r : Grant)
    → g.active nonce ≡ some r
    → now < r.expires_at
    → (cleanup now g).active nonce ≡ some r
unfolding cleanup
cleanup-active now nonce g r h l = rw h (ground arith)

ne→text_eq : (s t : Text) → s ≢ t → text_eq s t ≡ false
ne→text_eq s t n = elim (Bool-cases (text_eq s t)) [
  | inl e ↦ absurd (n ((text_eq_iff s t).0 e))
  | inr e ↦ e
]

consume-mismatch :
    (nonce chat event : Text) (now : ℕ) (g : Grants) (r : Grant)
    → IsOpen nonce r g
    → IsNew chat event g
    → now < r.expires_at
    → text_eq r.chat_id chat ≡ false
    → consume nonce chat event now g ≡ (
      err chat_mismatch,
      record (cleanup now g) { events = put event r.expires_at (cleanup now g).events },
    )
unfolding consume consume_found
consume-mismatch nonce chat event now g r o w l d = ground (
  arith,
  o.active,
  o.named,
  o.bound,
  w.from_chat,
  w.numbered,
  cleanup-unseen now event g w.unseen,
)

consume-ok :
    (nonce event : Text) (now : ℕ) (g : Grants) (r : Grant)
    → IsOpen nonce r g
    → IsNew r.chat_id event g
    → now < r.expires_at
    → (consume nonce r.chat_id event now g).0 ≡ ok r
unfolding consume consume_found
consume-ok nonce event now g r o w l = ground (
  arith,
  o.active,
  o.named,
  o.bound,
  w.from_chat,
  w.numbered,
  cleanup-unseen now event g w.unseen,
  text_eq_refl r.chat_id,
)

put_other :
    (k j : Text) (at : ℕ) (m : Map ℕ) → text_eq j k ≡ false → m j ≡ none → put k at m j ≡ none
put_other k j at m d h = rw d h

-- For a bound grant, a click from another chat is refused as a mismatch and does not spend it: a
-- new click from its own chat, not earlier and before the grant ends, still consumes it.
pub wrong_chat-keeps :
    (nonce chat event again : Text) (now later : ℕ) (g : Grants) (r : Grant)
    → IsOpen nonce r g
    → IsNew chat event g
    → IsNew r.chat_id again g
    → chat ≢ r.chat_id
    → again ≢ event
    → now ≤ later
    → later < r.expires_at
    → ((consume nonce chat event now g).0 ≡ err chat_mismatch)
      × ((consume nonce r.chat_id again later (consume nonce chat event now g).1).0 ≡ ok r)
wrong_chat-keeps nonce chat event again now later g r o w v c e l m =
    let first =
      consume-mismatch nonce chat event now g r o w (omega arith)
        (ne→text_eq r.chat_id chat (λ p. c (sym p))) in
    (
      ap (λ x. x.0) first,
      subst (λ x. (consume nonce r.chat_id again later x.1).0 ≡ ok r) (sym first)
          (consume-ok nonce again later _ r
            (record {
              active = cleanup-active now nonce g r o.active (omega arith);
              named = o.named;
              bound = o.bound;
            })
            (record {
              from_chat = v.from_chat;
              numbered = v.numbered;
              unseen =
                  put_other event again r.expires_at (cleanup now g).events
                    (ne→text_eq again event e) (cleanup-unseen now again g v.unseen);
            })
            m),
    )
